-- ===== src/Schema.antt =====
-- src/schema.c and include/schema.h: the runtime layout of a table. `malloc` and `strdup` succeed
-- here, so `schema_create` always returns a schema, and a deep copy is the value itself.
pub mod Names
pub mod Layout
use mini_sql.Base.{
  ℕ, suc, ◌+◌, ◌-◌, ◌%◌, Bool, true, false, ◌&&◌, Option, none, some, List, [], ◌∷◌, leb, ◌==◌,
  if◌then◌else◌, length,
}
use mini_sql.Base.Bytes.{Bytes, head_byte}

-- The number of values of a `uint32_t`.
abbrev pub u32_mod : ℕ
u32_mod = 4294967296

pub data ColumnType : Type 0 where
  column_int column_text : ColumnType

pub record ColumnDefinition : Type 0 where
  pub column_id : ℕ
  pub name : Bytes
  pub type : ColumnType
  pub size : ℕ
  pub offset : ℕ

pub record Schema : Type 0 where
  pub version : ℕ
  pub next_column_id : ℕ
  pub num_columns : ℕ
  pub columns : List ColumnDefinition
  pub row_size : ℕ

-- The loop body: the copies of the columns from index `i` on, the first at byte `offset`.
unfoldable pub place_columns : ℕ → ℕ → List ColumnDefinition → List ColumnDefinition
place_columns i offset [] = []
place_columns i offset (c ∷ cs) =
    record c { column_id = i + 1; offset = offset }
    ∷ place_columns (i + 1) ((offset + c.size) % u32_mod) cs

-- The value of `offset` when the loop ends.
unfoldable pub end_offset : ℕ → List ColumnDefinition → ℕ
end_offset offset [] = offset
end_offset offset (c ∷ cs) = end_offset ((offset + c.size) % u32_mod) cs

unfoldable pub schema_create : List ColumnDefinition → Schema
unfolding place_columns end_offset
schema_create columns = record {
  version = 1;
  next_column_id = length columns + 1;
  num_columns = length columns;
  columns = place_columns 0 0 columns;
  row_size = end_offset 0 columns;
}

unfoldable pub find_id : List ColumnDefinition → ℕ → Option ColumnDefinition
find_id [] column_id = none
find_id (c ∷ cs) column_id = if c.column_id == column_id then some c else find_id cs column_id

unfoldable pub schema_find_column_by_id : Schema → ℕ → Option ColumnDefinition
unfolding find_id
schema_find_column_by_id schema column_id = find_id schema.columns column_id

-- `c >= 'A' && c <= 'Z' ? c - 'A' + 'a' : c`, as the loop of `schema_names_equal` spells it.
unfoldable pub fold_case : ℕ → ℕ
fold_case c = if leb b'A' c && leb c b'Z' then c - b'A' + b'a' else c

-- One round for each pair of bytes. Where one string has ended it yields its NUL.
unfoldable pub schema_names_equal : Bytes → Bytes → Bool
unfolding fold_case
schema_names_equal [] b = fold_case 0 == fold_case (head_byte b)
schema_names_equal (c ∷ a) [] = fold_case c == fold_case 0
schema_names_equal (c ∷ a) (d ∷ b) =
    let rest = schema_names_equal a b in
    if fold_case c == fold_case d then (if fold_case c == 0 then true else rest) else false

unfoldable pub find_name : List ColumnDefinition → Bytes → Option ColumnDefinition
find_name [] name = none
find_name (c ∷ cs) name = if schema_names_equal c.name name then some c else find_name cs name

unfoldable pub schema_find_column_by_name : Schema → Bytes → Option ColumnDefinition
unfolding find_name schema_names_equal
schema_find_column_by_name schema name = find_name schema.columns name
