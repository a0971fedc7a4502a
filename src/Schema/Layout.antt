-- ===== src/Schema/Layout.antt =====
-- Where `schema_create` puts the columns, and that `schema_find_column_by_id` finds them there.
use mini_sql.Base.{
  ℕ, zero, suc, ◌+◌, ◌%◌, ◌∙◌, ◌≤◌, ◌<◌, ◌≡◌, ◌⊎◌, some, List, [], ◌∷◌, arith, length, get_elem?,
}
use mini_sql.Schema.{
  ColumnDefinition, u32_mod, place_columns, end_offset, schema_create, find_id,
  schema_find_column_by_id,
}

-- The bytes that a row of these columns takes, as an unbounded sum.
unfoldable pub total_size : List ColumnDefinition → ℕ
total_size [] = 0
total_size (c ∷ cs) = c.size + total_size cs

-- Two fields of a row share no byte.
abbrev pub Disjoint : ColumnDefinition → ColumnDefinition → Type 0
Disjoint c d = (c.offset + c.size ≤ d.offset) ⊎ (d.offset + d.size ≤ c.offset)

pub end_offset-total_size :
    (o : ℕ) (cs : List ColumnDefinition)
    → o + total_size cs < u32_mod
    → end_offset o cs ≡ o + total_size cs
unfolding end_offset total_size
end_offset-total_size o [] h = omega arith
end_offset-total_size o (c ∷ cs) h = ground (arith, end_offset-total_size (o + c.size) cs)

-- A column of the laid-out list has the id of its position and lies between the ends of the row.
pub place_columns_bounds :
    (k o : ℕ) (cs : List ColumnDefinition) (i : ℕ) (c : ColumnDefinition)
    → o + total_size cs < u32_mod
    → get_elem? (place_columns k o cs) i ≡ some c
    → (c.column_id ≡ k + i + 1) × (o ≤ c.offset) × (c.offset + c.size ≤ o + total_size cs)
unfolding place_columns total_size
place_columns_bounds k o [] i c h e = absurd (ground arith)
place_columns_bounds k o (x ∷ cs) zero c h e = ground arith
place_columns_bounds k o (x ∷ cs) (suc i) c h e =
    ground (arith, place_columns_bounds (k + 1) (o + x.size) cs i c)

-- An earlier column ends where a later one begins, or before it.
pub place_columns_ordered :
    (k o : ℕ) (cs : List ColumnDefinition) (i j : ℕ) (c d : ColumnDefinition)
    → o + total_size cs < u32_mod
    → i < j
    → get_elem? (place_columns k o cs) i ≡ some c
    → get_elem? (place_columns k o cs) j ≡ some d
    → c.offset + c.size ≤ d.offset
unfolding place_columns total_size
place_columns_ordered k o [] i j c d h l e f = absurd (ground arith)
place_columns_ordered k o (x ∷ cs) zero zero c d h l e f = absurd (omega arith)
place_columns_ordered k o (x ∷ cs) zero (suc j) c d h l e f =
    ground (arith, place_columns_bounds (k + 1) (o + x.size) cs j d)
place_columns_ordered k o (x ∷ cs) (suc i) zero c d h l e f = absurd (omega arith)
place_columns_ordered k o (x ∷ cs) (suc i) (suc j) c d h l e f =
    ground (arith, place_columns_ordered (k + 1) (o + x.size) cs i j c d)

pub find_id-place_columns :
    (k o m : ℕ) (cs : List ColumnDefinition) (i : ℕ)
    → m ≡ k + i + 1
    → i < length cs
    → find_id (place_columns k o cs) m ≡ get_elem? (place_columns k o cs) i
unfolding find_id place_columns
find_id-place_columns k o m [] i e h = absurd (omega arith)
find_id-place_columns k o m (x ∷ cs) zero e h = ground arith
find_id-place_columns k o m (x ∷ cs) (suc i) e h =
    ground (arith, find_id-place_columns (k + 1) ((o + x.size) % u32_mod) m cs i)

-- `schema_create` on columns whose sizes add up to less than 2^32: columns `i` and `j > i` of the
-- result lie inside the row, `i` ends no later than `j` begins, each is found under the id that is
-- its position plus one, and the row is exactly as wide as the columns together.
pub schema_create-Layout :
    (cs : List ColumnDefinition) (i j : ℕ) {c d : ColumnDefinition}
    → total_size cs < u32_mod
    → i < j
    → j < length cs
    → get_elem? (schema_create cs).columns i ≡ some c
    → get_elem? (schema_create cs).columns j ≡ some d
    → (c.offset + c.size ≤ d.offset)
      × (d.offset + d.size ≤ (schema_create cs).row_size)
      × (schema_find_column_by_id (schema_create cs) (i + 1) ≡ some c)
      × (schema_find_column_by_id (schema_create cs) (j + 1) ≡ some d)
      × ((schema_create cs).row_size ≡ total_size cs)
unfolding schema_create schema_find_column_by_id
schema_create-Layout cs i j h l b e f = (
  place_columns_ordered 0 0 cs i j _ _ (omega arith) l e f,
  omega (
    arith,
    place_columns_bounds 0 0 cs j _ (omega arith) f,
    end_offset-total_size 0 cs (omega arith),
  ),
  find_id-place_columns 0 0 (i + 1) cs i (omega arith) (omega arith) ∙ e,
  find_id-place_columns 0 0 (j + 1) cs j (omega arith) (omega arith) ∙ f,
  omega (arith, end_offset-total_size 0 cs (omega arith)),
)
