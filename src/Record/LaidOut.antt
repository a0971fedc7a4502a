-- ===== src/Record/LaidOut.antt =====
-- A schema whose columns can be written one after the other, and that `schema_create` makes one.
use mini_sql.Base.{
  ℕ, zero, suc, ◌+◌, ◌%◌, ◌≤◌, ◌<◌, ◌≡◌, ◌≢◌, inl, inr, some, List, [], ◌∷◌, arith, get_elem?,
  length, All, ◌∙◌, subst, compare-cases,
}
use mini_sql.Schema.{
  Schema, ColumnDefinition, u32_mod, place_columns, schema_create, schema_find_column_by_id,
}
use mini_sql.Schema.Layout.{
  Disjoint, total_size, place_columns_bounds, place_columns_ordered, find_id-place_columns,
  end_offset-total_size,
}
use mini_sql.Record.Frame.{IsSized}

-- Every column lies in the row, has its size, is found under its id, and shares no byte with any
-- other column.
pub record IsLaidOut (schema : Schema) : Type 0 where
  pub found :
      (i : ℕ) (c : ColumnDefinition)
      → get_elem? schema.columns i ≡ some c
      → schema_find_column_by_id schema c.column_id ≡ some c
  pub sized : (i : ℕ) (c : ColumnDefinition) → get_elem? schema.columns i ≡ some c → IsSized c
  pub inside :
      (i : ℕ) (c : ColumnDefinition)
      → get_elem? schema.columns i ≡ some c
      → c.offset + c.size ≤ schema.row_size
  pub apart :
      (i j : ℕ) (c d : ColumnDefinition)
      → i ≢ j
      → get_elem? schema.columns i ≡ some c
      → get_elem? schema.columns j ≡ some d
      → Disjoint c d

place_columns-IsSized :
    (k o : ℕ) (cs : List ColumnDefinition) (i : ℕ) (c : ColumnDefinition)
    → All IsSized cs
    → get_elem? (place_columns k o cs) i ≡ some c
    → (IsSized c) × (i < length cs)
unfolding place_columns
place_columns-IsSized k o [] i c h e = absurd (ground arith)
place_columns-IsSized k o (x ∷ cs) zero c h e =
    let placed : record x { column_id = k + 1; offset = o } ≡ c = cc in
    (subst IsSized placed h.0, omega arith)
place_columns-IsSized k o (x ∷ cs) (suc i) c h e =
    let (sized, inside) = place_columns-IsSized (k + 1) ((o + x.size) % u32_mod) cs i c h.1 e in
    (sized, omega arith)

-- Columns of which each INT column has four bytes, with sizes that add up to less than 2^32.
pub schema_create-IsLaidOut :
    (cs : List ColumnDefinition)
    → total_size cs < u32_mod
    → All IsSized cs
    → IsLaidOut (schema_create cs)
unfolding schema_create schema_find_column_by_id
schema_create-IsLaidOut cs small sizes = record {
  found = λ i c e.
      let bounds = place_columns_bounds 0 0 cs i c (omega arith) e in
      let (sized, inside) = place_columns-IsSized 0 0 cs i c sizes e in
      find_id-place_columns 0 0 c.column_id cs i (omega (arith, bounds)) inside ∙ e;
  sized = λ i c e. (place_columns-IsSized 0 0 cs i c sizes e).0;
  inside = λ i c e.
      let bounds = place_columns_bounds 0 0 cs i c (omega arith) e in
      omega (arith, bounds, end_offset-total_size 0 cs (omega arith));
  apart = λ i j c d ne e f. elim (compare-cases i j) [
    | inl before ↦ inl (place_columns_ordered 0 0 cs i j c d (omega arith) before e f)
    | inr (inl same) ↦ absurd (ne same)
    | inr (inr after) ↦ inr (place_columns_ordered 0 0 cs j i d c (omega arith) after f e)
  ];
}
