-- ===== src/Record.antt =====
-- src/record.c and include/record.h: one row as a payload of bytes in the schema's layout. An
-- `int32_t` lies in memory in two's complement, its low byte first.
pub mod RoundTrip
pub mod Frame
pub mod LaidOut
use mini_sql.Base.{
  ℕ, zero, suc, ◌+◌, ◌-◌, ◌*◌, ◌/◌, ◌%◌, Option, none, some, List, [], ◌∷◌, ltb, ◌==◌,
  if◌then◌else◌, length, take, drop, replicate, map,
}
use mathlib.Core.Option
use mini_sql.Base.Bytes.{Bytes}
use mini_sql.Base.Int.{ℤ, pos, negsuc}
use mini_sql.Schema.{
  ColumnType, column_int, column_text, ColumnDefinition, Schema, u32_mod, schema_find_column_by_id,
}

-- `payload_size` is the length of the payload.
pub record Record : Type 0 where
  pub payload : Bytes

-- `memcpy(p + offset, bytes, n)`, for the `n` bytes given; what lies past the end of `p` is lost.
unfoldable pub overwrite : ℕ → Bytes → Bytes → Bytes
overwrite zero [] p = p
overwrite zero (b ∷ bs) [] = []
overwrite zero (b ∷ bs) (x ∷ p) = b ∷ overwrite zero bs p
overwrite (suc n) bs [] = []
overwrite (suc n) bs (x ∷ p) = x ∷ overwrite n bs p

-- `memcpy(out, p + offset, n)`.
abbrev pub slice : ℕ → ℕ → Bytes → Bytes
slice offset n p = take n (drop offset p)

-- The bits of an `int32_t` as a `uint32_t`, and back.
unfoldable pub to_u32 : ℤ → ℕ
to_u32 (pos n) = n % u32_mod
to_u32 (negsuc n) = u32_mod - 1 - n % u32_mod

unfoldable pub to_i32 : ℕ → ℤ
to_i32 n = if ltb n 2147483648 then pos n else negsuc (u32_mod - 1 - n)

unfoldable pub u32_bytes : ℕ → Bytes
u32_bytes n = n % 256 ∷ n / 256 % 256 ∷ n / 65536 % 256 ∷ n / 16777216 % 256 ∷ []

unfoldable pub bytes_u32 : Bytes → ℕ
bytes_u32 [] = 0
bytes_u32 (b ∷ bs) = b + 256 * bytes_u32 bs

unfoldable pub record_init : Schema → Record
record_init schema = record { payload = replicate schema.row_size 0 }

unfoldable pub record_set_int : Record → Schema → ℕ → ℤ → Record
unfolding overwrite to_u32 u32_bytes
record_set_int r schema column_id value = elim (schema_find_column_by_id schema column_id) [
  | none ↦ r
  | some column ↦ record r {
    payload = overwrite column.offset (u32_bytes (to_u32 value)) r.payload;
  }
]

-- `strncpy(dest, value, n)`: the bytes of `value` up to its NUL, cut at `n`, padded with zeros.
unfoldable pub strncpy : Bytes → ℕ → Bytes
strncpy value zero = []
strncpy [] (suc n) = 0 ∷ strncpy [] n
strncpy (c ∷ cs) (suc n) = if c == 0 then 0 ∷ strncpy [] n else c ∷ strncpy cs n

unfoldable pub record_set_text : Record → Schema → ℕ → Bytes → Record
unfolding overwrite strncpy
record_set_text r schema column_id value = elim (schema_find_column_by_id schema column_id) [
  | none ↦ r
  | some column ↦ record r {
    payload = overwrite column.offset (strncpy value column.size) r.payload;
  }
]

unfoldable pub record_get_int : Record → Schema → ℕ → ℤ
unfolding bytes_u32 to_i32
record_get_int r schema column_id = elim (schema_find_column_by_id schema column_id) [
  | none ↦ pos 0
  | some column ↦ to_i32 (bytes_u32 (slice column.offset 4 r.payload))
]

-- The pointer into the payload is the rest of the payload from the column on.
unfoldable pub record_get_text : Record → Schema → ℕ → Option Bytes
record_get_text r schema column_id = elim (schema_find_column_by_id schema column_id) [
  | none ↦ none
  | some column ↦ some (drop column.offset r.payload)
]

-- The bytes that `serialize_record` copies out.
unfoldable pub serialize_record : Record → Bytes
serialize_record r = r.payload

unfoldable pub deserialize_record : Bytes → Schema → Record
unfolding overwrite record_init
deserialize_record source schema = record {
  payload = overwrite 0 (take schema.row_size source) (record_init schema).payload;
}

-- The value of a fixed-width text field: its bytes up to the first NUL or the width, whichever is
-- first. A byte past the end of the payload reads as NUL.
unfoldable pub bounded_text : ℕ → Bytes → Bytes
bounded_text zero text = []
bounded_text (suc width) [] = []
bounded_text (suc width) (c ∷ text) = if c == 0 then [] else c ∷ bounded_text width text

-- What `print_field` shows of a column: the integer, or the text within the column's width.
pub data FieldValue : Type 0 where
  int_field : ℤ → FieldValue
  text_field : Bytes → FieldValue

unfoldable pub field_of : ColumnType → ℤ → Option Bytes → ℕ → FieldValue
unfolding bounded_text
field_of column_int value text width = int_field value
field_of column_text value none width = text_field []
field_of column_text value (some text) width = text_field (bounded_text width text)

unfoldable pub print_field : Record → Schema → ColumnDefinition → FieldValue
unfolding record_get_int record_get_text field_of
print_field r schema column =
    field_of column.type (record_get_int r schema column.column_id)
      (record_get_text r schema column.column_id) column.size

unfoldable pub print_record : Record → Schema → List FieldValue
unfolding print_field
print_record r schema = map (print_field r schema) schema.columns

-- `print_record_columns`; `none` stands for the read through a null pointer that an id with no
-- column would cause.
unfoldable pub print_record_columns : Record → Schema → List ℕ → Option (List FieldValue)
unfolding print_field
print_record_columns r schema [] = some []
print_record_columns r schema (id ∷ ids) =
    let rest = print_record_columns r schema ids in
    elim (schema_find_column_by_id schema id) [
      | none ↦ none
      | some column ↦ Option.map (λ l. print_field r schema column ∷ l) rest
    ]
