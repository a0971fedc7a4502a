-- ===== src/Statement/Stored.antt =====
-- What storing the values of an INSERT makes of the row.
use mini_sql.Base.{
  ℕ, suc, ◌≤◌, ◌≡◌, ◌≢◌, inl, inr, refl, sym, ap, ◌∙◌, arith, Bool, true, false, none, some, List,
  [], ◌∷◌, length, ◌==◌, ==_iff, subst, get_elem?, Bool-cases, Option-cases, All,
}
use mini_sql.Ast.{Literal, LiteralType, literal_integer, literal_string}
use mini_sql.Record.{
  Record, FieldValue, int_field, text_field, field_of, print_field, record_set_text,
}
use mini_sql.Record.RoundTrip.{
  IsInt32, set_int_at, set_text_at, length-overwrite, record_get_int-record_set_int,
}
use mini_sql.Record.Frame.{
  text_of, text_of-record_set_text, record_set_int-Frame, record_set_text-Frame, field_lem,
}
use mini_sql.Record.LaidOut.{IsLaidOut}
use mini_sql.Schema.{Schema, ColumnType, column_int, column_text, ColumnDefinition}
use mini_sql.Schema.Names.{NoNul}
use mini_sql.Statement.{is_listed, store_value, store_values, pair_values}
use mini_sql.Statement.Planned.{storable}
use mini_sql.Statement.Targets.{NoRepeats}

-- What is printed of a column that has the value of a literal.
abbrev pub shown_as : LiteralType → Literal → FieldValue
shown_as literal_integer l = int_field l.integer
shown_as literal_string l = text_field l.text

storable-IsInt32 :
    (v : Literal) (c : ColumnDefinition) (is_key : Bool)
    → storable column_int literal_integer v c is_key ≡ true
    → IsInt32 v.integer
unfolding storable
storable-IsInt32 v c true h = ground arith
storable-IsInt32 v c false h = ground arith

module _ (schema : Schema) (laid : IsLaidOut schema) (i : ℕ) (c : ColumnDefinition)
    (at_c : get_elem? schema.columns i ≡ some c) where
  length-store_value :
      (t : ColumnType) (r : Record) (v : Literal)
      → length (store_value t r schema c v).payload ≡ length r.payload
  unfolding store_value
  length-store_value column_int r v =
      ap length (set_int_at schema c.column_id (laid.found i c at_c) r v.integer)
      ∙ length-overwrite c.offset _ r.payload
  length-store_value column_text r v =
      ap length (set_text_at schema c.column_id (laid.found i c at_c) r v.text)
      ∙ length-overwrite c.offset _ r.payload

  store_value-other :
      (t : ColumnType) (r : Record) (v : Literal) (j : ℕ) (d : ColumnDefinition)
      → c.type ≡ t
      → get_elem? schema.columns j ≡ some d
      → i ≢ j
      → print_field (store_value t r schema c v) schema d ≡ print_field r schema d
  unfolding store_value
  store_value-other column_int r v j d e at_d ne =
      record_set_int-Frame schema c.column_id (laid.found i c at_c) (laid.found j d at_d) r
        v.integer (laid.sized i c at_c e) (laid.sized j d at_d) (laid.apart i j c d ne at_c at_d)
  store_value-other column_text r v j d e at_d ne =
      record_set_text-Frame schema c.column_id (laid.found i c at_c) (laid.found j d at_d) r v.text
        (laid.sized j d at_d) (laid.apart i j c d ne at_c at_d)

  store_value-shown :
      (t : ColumnType) (u : LiteralType) (r : Record) (v : Literal) (is_key : Bool)
      → c.type ≡ t
      → storable t u v c is_key ≡ true
      → NoNul v.text
      → schema.row_size ≤ length r.payload
      → print_field (store_value t r schema c v) schema c ≡ shown_as u v
  unfolding store_value storable print_field field_of
  store_value-shown column_int literal_integer r v is_key e fits clean wide =
      let four = laid.sized i c at_c e in
      let inside = laid.inside i c at_c in
      let found = laid.found i c at_c in
      rw e (
        ap int_field (
          record_get_int-record_set_int schema c.column_id found r v.integer
            (storable-IsInt32 v c is_key fits) (omega arith)))
  store_value-shown column_text literal_string r v is_key e fits clean wide =
      let inside = laid.inside i c at_c in
      let found = laid.found i c at_c in
      let kept =
        text_of-record_set_text schema c.column_id found r v.text clean (ground arith)
          (omega arith) in
      field_lem schema found (record_set_text r schema c.column_id v.text)
      ∙ rw e (ap text_field (unfold text_of in kept))
  store_value-shown column_int literal_string r v is_key e fits clean wide = absurd (cc)
  store_value-shown column_text literal_integer r v is_key e fits clean wide = absurd (cc)

-- A target that is no column takes its value away.
pair_values-skip :
    (columns : List ColumnDefinition) (t : ℕ) (ts : List ℕ) (v : Literal) (vs : List Literal)
    → get_elem? columns t ≡ none
    → pair_values columns (t ∷ ts) (v ∷ vs) ≡ pair_values columns ts vs
unfolding pair_values
pair_values-skip columns t ts v vs e = rw (pair_values, e) refl

pair_values-cons :
    (columns : List ColumnDefinition) (t : ℕ) (ts : List ℕ) (v : Literal) (vs : List Literal)
    (d : ColumnDefinition)
    → get_elem? columns t ≡ some d
    → pair_values columns (t ∷ ts) (v ∷ vs) ≡ (d, v) ∷ pair_values columns ts vs
unfolding pair_values
pair_values-cons columns t ts v vs d e = rw (pair_values, e) refl

-- The row of the remaining pairs, when the first target is a column.
store_values-cons :
    (schema : Schema) (r : Record) (t : ℕ) (ts : List ℕ) (v : Literal) (vs : List Literal)
    (d : ColumnDefinition)
    → get_elem? schema.columns t ≡ some d
    → store_values r schema (pair_values schema.columns (t ∷ ts) (v ∷ vs))
      ≡ store_values (store_value d.type r schema d v) schema (pair_values schema.columns ts vs)
unfolding store_values
store_values-cons schema r t ts v vs d e =
    ap (store_values r schema) (pair_values-cons schema.columns t ts v vs d e)

-- The value of a pair can be stored in its column.
abbrev pub Fits : ℕ → ColumnDefinition × Literal → Type 0
Fits key_column_id (column, v) =
    storable column.type v.type v column (column.column_id == key_column_id) ≡ true

module _ (schema : Schema) (laid : IsLaidOut schema) (i : ℕ) (c : ColumnDefinition)
    (at_c : get_elem? schema.columns i ≡ some c) where
  store_values-kept :
      (r : Record) (ts : List ℕ) (vs : List Literal)
      → is_listed i ts ≡ false
      → print_field (store_values r schema (pair_values schema.columns ts vs)) schema c
        ≡ print_field r schema c
  unfolding pair_values store_values is_listed
  store_values-kept r [] vs h = refl
  store_values-kept r (t ∷ ts) [] h = refl
  store_values-kept r (t ∷ ts) (v ∷ vs) h = elim (Option-cases (get_elem? schema.columns t)) [
    | inl missing ↦
        ap (λ p. print_field (store_values r schema p) schema c)
          (pair_values-skip schema.columns t ts v vs missing)
        ∙ store_values-kept r ts vs (ground arith)
    | inr (d, at_d) ↦
        ap (λ q. print_field q schema c) (store_values-cons schema r t ts v vs d at_d)
        ∙ store_values-kept (store_value d.type r schema d v) ts vs (ground arith)
        ∙ store_value-other schema laid t d at_d d.type r v i c refl at_c (λ same. ground arith)
  ]

  -- What is printed of a column that is a target is the value that stands at the target's place.
  pub store_values-shown :
      (r : Record) (key_column_id : ℕ) (ts : List ℕ) (vs : List Literal)
      → length vs ≡ length ts
      → NoRepeats ts
      → is_listed i ts ≡ true
      → All (Fits key_column_id) (pair_values schema.columns ts vs)
      → All (λ (v : Literal). NoNul v.text) vs
      → schema.row_size ≤ length r.payload
      → (j : ℕ) × (v : Literal) × (get_elem? ts j ≡ some i)
        × (get_elem? vs j ≡ some v)
        × Fits key_column_id (c, v)
        × (print_field (store_values r schema (pair_values schema.columns ts vs)) schema c
            ≡ shown_as v.type v)
  unfolding is_listed
  store_values-shown r key [] vs n once h fits clean wide = absurd (cc)
  store_values-shown r key (t ∷ ts) [] n once h fits clean wide = absurd (omega arith)
  store_values-shown r key (t ∷ ts) (v ∷ vs) n once h fits clean wide = elim (Bool-cases (i == t)) [
    | inl here ↦
        let same = (==_iff i t).0 here in
        let at_t = ap (get_elem? schema.columns) (sym same) ∙ at_c in
        let (fit, others) =
          subst (All (Fits key)) (pair_values-cons schema.columns t ts v vs c at_t) fits in
        (
          0,
          v,
          ap some (sym same),
          refl,
          fit,
          ap (λ q. print_field q schema c) (store_values-cons schema r t ts v vs c at_t)
              ∙ store_values-kept (store_value c.type r schema c v) ts vs
                  (subst (λ m. is_listed m ts ≡ false) (sym same) once.0)
              ∙ store_value-shown schema laid i c at_c c.type v.type r v _ refl fit clean.0 wide,
        )
    | inr other ↦
        let later : is_listed i ts ≡ true = ground arith in
        elim (Option-cases (get_elem? schema.columns t)) [
          | inl missing ↦
              let skip = pair_values-skip schema.columns t ts v vs missing in
              let (j, w, at_j, value, fit, shown) =
                store_values-shown r key ts vs (omega arith) once.1 later
                  (subst (All (Fits key)) skip fits) clean.1 wide in
              (
                suc j,
                w,
                at_j,
                value,
                fit,
                ap (λ p. print_field (store_values r schema p) schema c) skip ∙ shown,
              )
          | inr (d, at_d) ↦
              let (first, rest) =
                subst (All (Fits key)) (pair_values-cons schema.columns t ts v vs d at_d) fits in
              let same_length = length-store_value schema laid t d at_d d.type r v in
              let (j, w, at_j, value, fit, shown) =
                store_values-shown (store_value d.type r schema d v) key ts vs (omega arith) once.1
                  later rest clean.1 (omega (arith, same_length)) in
              (
                suc j,
                w,
                at_j,
                value,
                fit,
                ap (λ q. print_field q schema c) (store_values-cons schema r t ts v vs d at_d)
                    ∙ shown,
              )
        ]
  ]
