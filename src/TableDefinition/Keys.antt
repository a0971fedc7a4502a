-- ===== src/TableDefinition/Keys.antt =====
-- The loop that counts the PRIMARY KEY columns.
use mini_sql.Base.{
  ℕ, zero, suc, ◌+◌, ◌≤◌, ◌≡◌, inl, inr, true, false, some, List, [], ◌∷◌, ◌==◌, if◌then◌else◌,
  get_elem?, arith, refl, sym, ap, ◌∙◌, subst, Bool-cases,
}
use mathlib.Core.Path.{ap₂}
use mini_sql.Base.Result.{ok, err, ok-injective}
use mini_sql.Ast.{CreateTableAst, ColumnAst}
use mini_sql.TableDefinition.{key_not_int, is_int, find_keys, check_found, check_key}

-- What the loop over the keys returns: how many columns are marked, and, if just one, which.
record Keys (i n k : ℕ) (cs : List ColumnAst) (found : ℕ × ℕ) : Type 0 where
  more : n ≤ found.0
  none_marked :
      found.0 ≡ n
      → (found.1 ≡ k) × ((j : ℕ) (c : ColumnAst) → get_elem? cs j ≡ some c → c.primary_key ≡ false)
  one_marked :
      found.0 ≡ suc n
      → (j : ℕ) × (c : ColumnAst) × (found.1 ≡ i + j)
        × (get_elem? cs j ≡ some c)
        × (c.primary_key ≡ true)
        × ((m : ℕ) (d : ColumnAst) → get_elem? cs m ≡ some d → d.primary_key ≡ true → m ≡ j)

find_keys-marked :
    (i n k : ℕ) (x : ColumnAst) (cs : List ColumnAst)
    → x.primary_key ≡ true
    → find_keys (i + 1) (n + 1) i cs ≡ find_keys i n k (x ∷ cs)
unfolding find_keys
find_keys-marked i n k x cs e = ground arith

find_keys-other :
    (i n k : ℕ) (x : ColumnAst) (cs : List ColumnAst)
    → x.primary_key ≡ false
    → find_keys (i + 1) n k cs ≡ find_keys i n k (x ∷ cs)
unfolding find_keys
find_keys-other i n k x cs e = ground arith

none_before :
    (x : ColumnAst) (cs : List ColumnAst)
    → x.primary_key ≡ false
    → ((j : ℕ) (c : ColumnAst) → get_elem? cs j ≡ some c → c.primary_key ≡ false)
    → (j : ℕ) (c : ColumnAst) → get_elem? (x ∷ cs) j ≡ some c
    → c.primary_key ≡ false
none_before x cs p rest zero c h = cc
none_before x cs p rest (suc j) c h = rest j c h

only_first :
    (x : ColumnAst) (cs : List ColumnAst)
    → ((j : ℕ) (c : ColumnAst) → get_elem? cs j ≡ some c → c.primary_key ≡ false)
    → (m : ℕ) (d : ColumnAst) → get_elem? (x ∷ cs) m ≡ some d
    → d.primary_key ≡ true
    → m ≡ zero
only_first x cs rest zero d h p = refl
only_first x cs rest (suc m) d h p = let q = rest m d h in absurd (cc)

only_later :
    (x : ColumnAst) (cs : List ColumnAst) (j : ℕ)
    → x.primary_key ≡ false
    → ((m : ℕ) (d : ColumnAst) → get_elem? cs m ≡ some d → d.primary_key ≡ true → m ≡ j)
    → (m : ℕ) (d : ColumnAst) → get_elem? (x ∷ cs) m ≡ some d
    → d.primary_key ≡ true
    → m ≡ suc j
only_later x cs j p only zero d h q = absurd (cc)
only_later x cs j p only (suc m) d h q = ap suc (only m d h q)

find_keys-Keys : (i n k : ℕ) (cs : List ColumnAst) → Keys i n k cs (find_keys i n k cs)
unfolding find_keys
find_keys-Keys i n k [] = record {
  more = omega arith;
  none_marked = λ e. (refl, λ j c h. absurd (ground arith));
  one_marked = λ e. absurd (omega arith);
}
find_keys-Keys i n k (x ∷ cs) = elim (Bool-cases x.primary_key) [
  | inl marked ↦
      let r = find_keys-Keys (i + 1) (n + 1) i cs in
      subst (Keys i n k (x ∷ cs)) (find_keys-marked i n k x cs marked) (record {
        more = omega (arith, r.more);
        none_marked = λ e. absurd (omega (arith, r.more));
        one_marked = λ e.
            let rest = r.none_marked (omega arith) in
            (zero, x, omega (arith, rest.0), refl, marked, only_first x cs rest.1);
      })
  | inr other ↦
      let r = find_keys-Keys (i + 1) n k cs in
      subst (Keys i n k (x ∷ cs)) (find_keys-other i n k x cs other) (record {
        more = r.more;
        none_marked = λ e. let rest = r.none_marked e in (rest.0, none_before x cs other rest.1);
        one_marked = λ e.
            let (j, c, at, get, p, only) = r.one_marked e in
            (suc j, c, omega arith, get, p, only_later x cs j other only);
      })
]

-- The marked column.
pub record KeyColumn (columns : List ColumnAst) (i : ℕ) : Type 0 where
  pub column : ColumnAst
  pub get : get_elem? columns i ≡ some column
  pub marked : column.primary_key ≡ true
  pub int : is_int column.type ≡ true
  pub only :
      (j : ℕ) (other : ColumnAst)
      → get_elem? columns j ≡ some other
      → other.primary_key ≡ true
      → j ≡ i

only_key :
    (ast : CreateTableAst) (j : ℕ) (c : ColumnAst)
    → get_elem? ast.columns j ≡ some c
    → check_found ast 1 j ≡ (if is_int c.type then ok j else err (key_not_int c.name))
unfolding check_found
only_key ast j c q = rw q refl

check_key_run :
    (ast : CreateTableAst) (j : ℕ) (c : ColumnAst)
    → (find_keys 0 0 0 ast.columns).0 ≡ 1
    → (find_keys 0 0 0 ast.columns).1 ≡ j
    → get_elem? ast.columns j ≡ some c
    → check_key ast ≡ (if is_int c.type then ok j else err (key_not_int c.name))
unfolding check_key
check_key_run ast j c p p' q = ap₂ (check_found ast) p p' ∙ only_key ast j c q

pub check_key_lem : (ast : CreateTableAst) {i : ℕ} → check_key ast ≡ ok i → KeyColumn ast.columns i
unfolding check_key
check_key_lem ast {i} h =
    let found = find_keys 0 0 0 ast.columns in
    let keys = find_keys-Keys 0 0 0 ast.columns in
    elim (Bool-cases (found.0 == 1)) [
      | inl one ↦
          let (j, c, at, get, marked, only) = keys.one_marked (ground arith) in
          let at' : found.1 ≡ j = omega arith in
          let one' : found.0 ≡ 1 = ground arith in
          let run = check_key_run ast j c one' at' get in
          elim (Bool-cases (is_int c.type)) [
            | inl int ↦
                let same : j ≡ i = ok-injective (sym (run ∙ (rw int refl)) ∙ h) in
                record {
                  column = c;
                  get = ap (get_elem? ast.columns) (sym same) ∙ get;
                  marked = marked;
                  int = int;
                  only = λ m d e p. only m d e p ∙ same;
                }
            | inr text ↦ absurd (ground arith)
          ]
      | inr more ↦ absurd (ground arith)
    ]
