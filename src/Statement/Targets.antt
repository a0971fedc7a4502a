-- ===== src/Statement/Targets.antt =====
-- The targets of an INSERT: no column twice, and which value each column gets.
use mini_sql.Base.{
  ℕ, zero, suc, ◌+◌, ◌<◌, ◌≡◌, inl, inr, refl, sym, ◌∙◌, arith, true, false, Option, none, some,
  List, [], ◌∷◌, length, ◌==◌, ==_iff, subst, get_elem?, Bool-cases, Option-cases,
}
use mini_sql.Base.Bytes.{Bytes}
use mini_sql.Base.Result.{ok, ok->>=, ok-injective}
use mini_sql.Schema.{Schema, ColumnDefinition, schema_names_equal}
use mini_sql.Statement.{column_index, is_listed, list_targets, count_up, insert_targets}

-- No target comes twice.
abbrev pub NoRepeats : List ℕ → Type 0
NoRepeats [] = Unit {0}
NoRepeats (t ∷ ts) = (is_listed t ts ≡ false) × NoRepeats ts

-- Value `j` of the INSERT is meant for column `i`, which is `c`: without a column list it stands at
-- the column's place, and with one the name at its place is the column's.
abbrev pub IsMeantFor : Option (List Bytes) → (j i : ℕ) → ColumnDefinition → Type 0
IsMeantFor none j i c = j ≡ i
IsMeantFor (some names) j i c =
    (name : Bytes) × (get_elem? names j ≡ some name) × (schema_names_equal c.name name ≡ true)

column_index-equal :
    (columns : List ColumnDefinition) (name : Bytes) (i : ℕ) (c : ColumnDefinition)
    → column_index columns name ≡ some i
    → get_elem? columns i ≡ some c
    → schema_names_equal c.name name ≡ true
unfolding column_index
column_index-equal [] name i c h e = absurd (cc)
column_index-equal (x ∷ cs) name zero c h e = elim (Bool-cases (schema_names_equal x.name name)) [
  | inl equal ↦
      let here : x ≡ c = cc in
      subst (λ (d : ColumnDefinition). schema_names_equal d.name name ≡ true) here equal
  | inr other ↦ absurd (ground (arith, other))
]
column_index-equal (x ∷ cs) name (suc i) c h e =
    let rest : column_index cs name ≡ some i = ground arith in column_index-equal cs name i c rest e

count_up-at : (k n j i : ℕ) → get_elem? (count_up k n) j ≡ some i → i ≡ k + j
unfolding count_up
count_up-at k zero j i h = absurd (cc)
count_up-at k (suc n) zero i h = ground arith
count_up-at k (suc n) (suc j) i h = let e = count_up-at (suc k) n j i h in omega arith

count_up-below : (k n i : ℕ) → i < k → is_listed i (count_up k n) ≡ false
unfolding count_up is_listed
count_up-below k zero i h = refl
count_up-below k (suc n) i h = ground (arith, count_up-below (suc k) n i)

count_up-NoRepeats : (k n : ℕ) → NoRepeats (count_up k n)
unfolding count_up
count_up-NoRepeats k zero = tt
count_up-NoRepeats k (suc n) =
    (count_up-below (suc k) n k (omega arith), count_up-NoRepeats (suc k) n)

-- What a column list that starts with `name` resolves to.
list_targets-cons :
    (columns : List ColumnDefinition) (name : Bytes) (names : List Bytes) (listed ts : List ℕ)
    → list_targets columns (name ∷ names) listed ≡ ok ts
    → (index : ℕ) × (rest : List ℕ) × (column_index columns name ≡ some index)
      × (is_listed index listed ≡ false)
      × (list_targets columns names (index ∷ listed) ≡ ok rest)
      × (index ∷ rest ≡ ts)
unfolding list_targets
list_targets-cons columns name names listed ts h = elim (Option-cases (column_index columns name)) [
  | inl none_here ↦ absurd (ground (arith, none_here))
  | inr (index, at) ↦ elim (Bool-cases (is_listed index listed)) [
    | inl twice ↦ absurd (let w = rw (list_targets, at, twice) at h in cc)
    | inr once ↦
        let (rest, resolved, whole) =
          ok->>= (list_targets columns names (index ∷ listed)) _
            (rw (list_targets, at, once) at h) in
        (index, rest, at, once, resolved, ok-injective whole)
  ]
]

list_targets-fresh :
    (columns : List ColumnDefinition) (names : List Bytes) (listed ts : List ℕ) (i : ℕ)
    → list_targets columns names listed ≡ ok ts
    → is_listed i listed ≡ true
    → is_listed i ts ≡ false
unfolding list_targets is_listed
list_targets-fresh columns [] listed ts i h l =
    subst (λ t. is_listed i t ≡ false) (ok-injective h) refl
list_targets-fresh columns (name ∷ names) listed ts i h l =
    let (index, rest, at, once, resolved, whole) =
      list_targets-cons columns name names listed ts h in
    let apart : (i == index) ≡ false = elim (Bool-cases (i == index)) [
      | inl w ↦
          let e = (==_iff i index).0 w in
          absurd (let twice = subst (λ n. is_listed n listed ≡ true) e l in cc)
      | inr w ↦ w
    ] in
    let below =
      list_targets-fresh columns names (index ∷ listed) rest i resolved (rw (apart, l) refl) in
    subst (λ t. is_listed i t ≡ false) whole (rw (apart, below) refl)

list_targets-NoRepeats :
    (columns : List ColumnDefinition) (names : List Bytes) (listed ts : List ℕ)
    → list_targets columns names listed ≡ ok ts
    → NoRepeats ts
unfolding list_targets is_listed
list_targets-NoRepeats columns [] listed ts h = subst NoRepeats (ok-injective h) tt
list_targets-NoRepeats columns (name ∷ names) listed ts h =
    let (index, rest, at, once, resolved, whole) =
      list_targets-cons columns name names listed ts h in
    subst NoRepeats whole (
      list_targets-fresh columns names (index ∷ listed) rest index resolved (ground arith),
      list_targets-NoRepeats columns names (index ∷ listed) rest resolved,
    )

list_targets-IsMeantFor :
    (columns : List ColumnDefinition) (names : List Bytes) (listed ts : List ℕ) (j i : ℕ)
    (c : ColumnDefinition)
    → list_targets columns names listed ≡ ok ts
    → get_elem? ts j ≡ some i
    → get_elem? columns i ≡ some c
    → IsMeantFor (some names) j i c
unfolding list_targets
list_targets-IsMeantFor columns [] listed ts j i c h t e = absurd (
    let w : get_elem? [] j ≡ some i =
      subst (λ l. get_elem? l j ≡ some i) (sym (ok-injective h)) t in
    cc)
list_targets-IsMeantFor columns (name ∷ names) listed ts zero i c h t e =
    let (index, rest, at, once, resolved, whole) =
      list_targets-cons columns name names listed ts h in
    let first : some index ≡ some i = subst (λ l. get_elem? l 0 ≡ some i) (sym whole) t in
    (name, refl, column_index-equal columns name i c (at ∙ first) e)
list_targets-IsMeantFor columns (name ∷ names) listed ts (suc j) i c h t e =
    let (index, rest, at, once, resolved, whole) =
      list_targets-cons columns name names listed ts h in
    list_targets-IsMeantFor columns names (index ∷ listed) rest j i c resolved
      (subst (λ l. get_elem? l (suc j) ≡ some i) (sym whole) t) e

pub insert_targets-NoRepeats :
    (schema : Schema) (names : Option (List Bytes)) (ts : List ℕ)
    → insert_targets schema names ≡ ok ts
    → NoRepeats ts
unfolding insert_targets
insert_targets-NoRepeats schema none ts h =
    subst NoRepeats (ok-injective h) (count_up-NoRepeats 0 (length schema.columns))
insert_targets-NoRepeats schema (some names) ts h =
    list_targets-NoRepeats schema.columns names [] ts h

pub insert_targets-IsMeantFor :
    (schema : Schema) (names : Option (List Bytes)) (ts : List ℕ) (j i : ℕ) (c : ColumnDefinition)
    → insert_targets schema names ≡ ok ts
    → get_elem? ts j ≡ some i
    → get_elem? schema.columns i ≡ some c
    → IsMeantFor names j i c
unfolding insert_targets
insert_targets-IsMeantFor schema none ts j i c h t e =
    let place =
      count_up-at 0 (length schema.columns) j i
        (subst (λ l. get_elem? l j ≡ some i) (sym (ok-injective h)) t) in
    omega arith
insert_targets-IsMeantFor schema (some names) ts j i c h t e =
    list_targets-IsMeantFor schema.columns names [] ts j i c h t e
