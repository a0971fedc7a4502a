-- ===== src/Record/Frame.antt =====
-- Text columns are read back, and a write to one column leaves every other column alone.
use mini_sql.Base.{
  ℕ, zero, suc, ◌+◌, ◌≤◌, ◌≡◌, refl, sym, ap, ◌∙◌, ◌⊎◌, some, [], ◌∷◌, arith, length, take, drop,
}
use mini_sql.Base.Bytes.{Bytes}
use mini_sql.Base.Int.{ℤ}
use mini_sql.Schema.{
  ColumnType, column_int, column_text, ColumnDefinition, Schema, schema_find_column_by_id,
}
use mini_sql.Schema.Layout.{Disjoint}
use mini_sql.Schema.Names.{NoNul}
use mini_sql.Record.{
  Record, overwrite, slice, to_u32, to_i32, u32_bytes, bytes_u32, record_set_int, record_set_text,
  strncpy, bounded_text, int_field, text_field, field_of, print_field,
}
use mini_sql.Record.RoundTrip.{
  get_int_at, get_text_at, set_int_at, set_text_at, slice-overwrite_self, slice-overwrite_disjoint,
  length-strncpy, length-u32_bytes,
}

-- Only the first `width` bytes matter.
bounded_text-take :
    (width : ℕ) (text : Bytes) → bounded_text width (take width text) ≡ bounded_text width text
unfolding bounded_text
bounded_text-take zero text = refl
bounded_text-take (suc w) [] = refl
bounded_text-take (suc w) (c ∷ text) = ground (arith, bounded_text-take w text)

bounded_text-strncpy :
    (v : Bytes) (n : ℕ) → NoNul v → length v ≤ n → bounded_text n (strncpy v n) ≡ v
unfolding bounded_text strncpy
bounded_text-strncpy [] zero p h = refl
bounded_text-strncpy (c ∷ v) zero p h = absurd (omega arith)
bounded_text-strncpy [] (suc n) p h = refl
bounded_text-strncpy (c ∷ v) (suc n) p h = ground (arith, bounded_text-strncpy v n)

-- The value of text column `c` of row `r`, as `text_value` and `copy_text_field` read it.
unfoldable pub text_of : Record → ColumnDefinition → Bytes
text_of r c = bounded_text c.size (drop c.offset r.payload)

text_of-slice :
    (r : Record) (c : ColumnDefinition)
    → text_of r c ≡ bounded_text c.size (slice c.offset c.size r.payload)
unfolding text_of
text_of-slice r c = sym (bounded_text-take c.size (drop c.offset r.payload))

module _ (schema : Schema) (id : ℕ) {c : ColumnDefinition}
    (found : schema_find_column_by_id schema id ≡ some c) where
  -- A text with no NUL inside and no longer than its column, stored in a column that lies inside
  -- the row, is read back whole, also where it fills the column and no NUL ends it.
  pub text_of-record_set_text :
      (r : Record) (v : Bytes)
      → NoNul v
      → length v ≤ c.size
      → c.offset + c.size ≤ length r.payload
      → text_of (record_set_text r schema id v) c ≡ v
  text_of-record_set_text r v p short fits =
      text_of-slice (record_set_text r schema id v) c
      ∙ ap (λ q. bounded_text c.size (slice c.offset c.size q)) (set_text_at schema id found r v)
      ∙ ap (bounded_text c.size) written
      ∙ bounded_text-strncpy v c.size p short
    where
      written :
          slice c.offset c.size (overwrite c.offset (strncpy v c.size) r.payload) ≡ strncpy v c.size
      written = rw (length-strncpy v c.size) at (
          slice-overwrite_self c.offset (strncpy v c.size) r.payload
            (rw (length-strncpy v c.size) fits))

-- A write of `n` bytes at `o` touches no byte that is read of column `d`.
abbrev Misses : ℕ → ℕ → ColumnDefinition → Type 0
Misses o n d = (d.offset + d.size ≤ o) ⊎ (o + n ≤ d.offset)

-- An INT column has four bytes.
abbrev pub IsSized : ColumnDefinition → Type 0
IsSized c = c.type ≡ column_int → c.size ≡ 4

module _ (schema : Schema) {d : ColumnDefinition}
    (other : schema_find_column_by_id schema d.column_id ≡ some d) where
  pub field_lem :
      (r : Record)
      → print_field r schema d
        ≡ field_of d.type
            (to_i32 (bytes_u32 (slice d.offset 4 r.payload)))
            (some (drop d.offset r.payload))
            d.size
  unfolding print_field
  field_lem r =
      rw (get_int_at schema d.column_id other r) (rw (get_text_at schema d.column_id other r) refl)

  field-overwrite :
      (r r' : Record) (o : ℕ) (bs : Bytes)
      → IsSized d
      → Misses o (length bs) d
      → r'.payload ≡ overwrite o bs r.payload
      → print_field r' schema d ≡ print_field r schema d
  unfolding field_of
  field-overwrite r r' o bs sized misses e = field_lem r' ∙ go d.type refl ∙ sym (field_lem r)
    where
      text_same : text_of r' d ≡ text_of r d
      text_same =
          text_of-slice r' d
          ∙ ap (bounded_text d.size) (
              ap (slice d.offset d.size) e
              ∙ slice-overwrite_disjoint d.offset d.size o bs r.payload misses)
          ∙ sym (text_of-slice r d)

      go :
          (t : ColumnType)
          → d.type ≡ t
          → field_of t
              (to_i32 (bytes_u32 (slice d.offset 4 r'.payload)))
              (some (drop d.offset r'.payload))
              d.size
            ≡ field_of t
                (to_i32 (bytes_u32 (slice d.offset 4 r.payload)))
                (some (drop d.offset r.payload))
                d.size
      go column_int q =
          ap (λ b. int_field (to_i32 (bytes_u32 b)))
            (ap (slice d.offset 4) e
              ∙ slice-overwrite_disjoint d.offset 4 o bs r.payload (ground (arith, sized q)))
      go column_text q = ap text_field (unfold text_of in text_same)

module _ (schema : Schema) (id : ℕ) {c d : ColumnDefinition}
    (found : schema_find_column_by_id schema id ≡ some c)
    (other : schema_find_column_by_id schema d.column_id ≡ some d) where
  -- Storing an integer in a column of four bytes leaves what is printed of any other column as it
  -- was, if the two columns share no byte and the other, when it is INT, has four bytes.
  pub record_set_int-Frame :
      (r : Record) (v : ℤ)
      → c.size ≡ 4
      → IsSized d
      → Disjoint c d
      → print_field (record_set_int r schema id v) schema d ≡ print_field r schema d
  record_set_int-Frame r v wide sized apart =
      field-overwrite schema other r _ c.offset (u32_bytes (to_u32 v)) sized
        (ground (arith, length-u32_bytes (to_u32 v))) (set_int_at schema id found r v)

  -- Storing a text of any length, with or without a NUL inside, leaves what is printed of any other
  -- column as it was, if the two columns share no byte and the other, when it is INT, has four bytes.
  pub record_set_text-Frame :
      (r : Record) (t : Bytes)
      → IsSized d
      → Disjoint c d
      → print_field (record_set_text r schema id t) schema d ≡ print_field r schema d
  record_set_text-Frame r t sized apart =
      field-overwrite schema other r _ c.offset (strncpy t c.size) sized
        (ground (arith, length-strncpy t c.size)) (set_text_at schema id found r t)
