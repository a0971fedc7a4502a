-- ===== src/TableDefinition.antt =====
-- src/table_definition.c and include/table_definition.h: whether a parsed CREATE TABLE defines a table
-- that can be stored, and the definition that it stands for. Errors are values, with what the message
-- quotes.

pub mod Names
pub mod Keys
pub mod Accepted
use mini_sql.Base.{
  ℕ, zero, suc, ◌+◌, ◌-◌, ◌/◌, ◌%◌, Bool, true, false, not, ◌&&◌, ◌||◌, Option, none, some, List,
  [], ◌∷◌, ◌++◌, ltb, ◌==◌, if◌then◌else◌, length, map, get_elem?,
}
use mini_sql.Base.Bytes.{Bytes, codes}
use mini_sql.Base.Int.{ℤ, pos, negsuc, ltb_ℤ}
use mini_sql.Base.Result.{Result, ok, err, ◌>>=◌}
use mini_sql.Ast.{CreateTableAst, ColumnAst, ColumnTypeAst, ast_type_int, ast_type_text}
use mini_sql.Schema.{
  ColumnType, column_int, column_text, ColumnDefinition, Schema, schema_create, schema_names_equal,
  u32_mod,
}
use mini_sql.Btree.{leaf_node_max_row_size}

abbrev pub table_name_max_length : ℕ
table_name_max_length = 64

abbrev pub table_sql_max_length : ℕ
table_sql_max_length = 1024

abbrev pub table_min_rows_per_leaf : ℕ
table_min_rows_per_leaf = 3

pub record TableDefinition : Type 0 where
  pub name : Bytes
  pub schema : Schema
  pub key_column_id : ℕ
  pub sql : Bytes

pub data DefinitionError : Type 0 where
  name_too_long : Bytes → DefinitionError
  defined_twice : Bytes → DefinitionError
  text_too_narrow : Bytes → DefinitionError
  no_primary_key : Bytes → DefinitionError
  more_than_one_key : Bytes → DefinitionError
  key_not_int : Bytes → DefinitionError
  column_too_wide : Bytes → ℕ → DefinitionError
  row_too_wide : Bytes → ℕ → ℕ → DefinitionError
  sql_too_long : Bytes → ℕ → DefinitionError

abbrev pub is_int : ColumnTypeAst → Bool
is_int ast_type_int = true
is_int ast_type_text = false

-- `%lld`: the decimal digits of a number in front of `s`. A 64-bit number has at most 20.
unfoldable pub digits : (fuel n : ℕ) → Bytes → Bytes
digits zero n s = s
digits (suc fuel) n s =
    let d = b'0' + n % 10 in
    let rest = digits fuel (n / 10) (d ∷ s) in if ltb n 10 then d ∷ s else rest

unfoldable pub print_integer : ℤ → Bytes
unfolding digits
print_integer (pos n) = digits 20 n []
print_integer (negsuc n) = b'-' ∷ digits 20 (suc n) []

unfoldable pub column_type_sql : ColumnTypeAst → ℤ → Bytes
unfolding print_integer
column_type_sql ast_type_int width = codes "INT"
column_type_sql ast_type_text width = codes "TEXT(" ++ (print_integer width ++ codes ")")

unfoldable pub column_sql : ColumnAst → Bytes
unfolding column_type_sql
column_sql column =
    column.name
    ++ (codes " "
        ++ (column_type_sql column.type column.width
            ++ (if column.primary_key then codes " PRIMARY KEY" else [])))

-- The rounds of the loop from the one for which `i > 0` is `later`.
unfoldable pub columns_sql : (later : Bool) → List ColumnAst → Bytes
unfolding column_sql
columns_sql later [] = []
columns_sql later (column ∷ columns) =
    (if later then codes ", " else []) ++ (column_sql column ++ columns_sql true columns)

unfoldable pub canonical_sql : CreateTableAst → Bytes
unfolding columns_sql
canonical_sql ast =
    codes "CREATE TABLE "
    ++ (ast.table_name ++ (codes " (" ++ (columns_sql false ast.columns ++ codes ")")))

unfoldable pub check_name : CreateTableAst → Result DefinitionError (Unit {0})
check_name ast =
    if ltb table_name_max_length (length ast.table_name)
    then err (name_too_long ast.table_name)
    else ok tt

-- The inner loop: whether one of the columns is named so.
unfoldable pub is_named : Bytes → List ColumnAst → Bool
is_named name [] = false
is_named name (c ∷ cs) = schema_names_equal name c.name || is_named name cs

-- The outer loop, from a column on; `before` are the columns before it.
unfoldable pub check_names :
    (before : List ColumnAst) → List ColumnAst → Result DefinitionError (Unit {0})
unfolding is_named
check_names before [] = ok tt
check_names before (c ∷ cs) =
    let rest = check_names (c ∷ before) cs in
    if is_named c.name before then err (defined_twice c.name) else rest

unfoldable pub check_widths : List ColumnAst → Result DefinitionError (Unit {0})
check_widths [] = ok tt
check_widths (c ∷ cs) =
    let rest = check_widths cs in
    if not (is_int c.type) && not c.width_out_of_range && ltb_ℤ c.width (pos 1)
    then err (text_too_narrow c.name)
    else rest

-- The loop that counts the keys, from index `i` on: `num_keys`, and the last `key_index`.
unfoldable pub find_keys : (i num_keys key_index : ℕ) → List ColumnAst → ℕ × ℕ
find_keys i num_keys key_index [] = (num_keys, key_index)
find_keys i num_keys key_index (c ∷ cs) =
    if c.primary_key
    then find_keys (i + 1) (num_keys + 1) i cs
    else find_keys (i + 1) num_keys key_index cs

-- The index of the key column, of which there is a column, from what the loop counted.
unfoldable pub check_found : CreateTableAst → (num_keys key_index : ℕ) → Result DefinitionError ℕ
check_found ast num_keys key_index =
    if num_keys == 0
    then err (no_primary_key ast.table_name)
    else if ltb 1 num_keys
    then err (more_than_one_key ast.table_name)
    else elim (get_elem? ast.columns key_index) [
      | none ↦ err (no_primary_key ast.table_name)
      | some c ↦ if is_int c.type then ok key_index else err (key_not_int c.name)
    ]

unfoldable pub check_key : CreateTableAst → Result DefinitionError ℕ
unfolding find_keys check_found
check_key ast =
    let (num_keys, key_index) = find_keys 0 0 0 ast.columns in check_found ast num_keys key_index

abbrev pub u64_mod : ℕ
u64_mod = 18446744073709551616

-- `(uint64_t)width`
abbrev pub to_u64 : ℤ → ℕ
to_u64 (pos n) = n % u64_mod
to_u64 (negsuc n) = u64_mod - 1 - n % u64_mod

-- The loop that adds up the sizes: `row_size` and `too_wide`.
unfoldable pub add_sizes :
    (max_row_size row_size : ℕ) → (too_wide : Bool) → List ColumnAst → ℕ × Bool
add_sizes max_row_size row_size too_wide [] = (row_size, too_wide)
add_sizes max_row_size row_size too_wide (c ∷ cs) =
    if is_int c.type
    then add_sizes max_row_size ((row_size + 4) % u64_mod) too_wide cs
    else if c.width_out_of_range || ltb max_row_size (to_u64 c.width)
    then add_sizes max_row_size row_size true cs
    else add_sizes max_row_size ((row_size + to_u64 c.width) % u64_mod) too_wide cs

unfoldable pub check_size : CreateTableAst → Result DefinitionError (Unit {0})
unfolding add_sizes
check_size ast =
    let max_row_size = leaf_node_max_row_size table_min_rows_per_leaf in
    let (row_size, too_wide) = add_sizes max_row_size 0 false ast.columns in
    if too_wide
    then err (column_too_wide ast.table_name max_row_size)
    else if ltb max_row_size row_size
    then err (row_too_wide ast.table_name row_size max_row_size)
    else ok tt

unfoldable pub check_sql : CreateTableAst → Result DefinitionError Bytes
unfolding canonical_sql
check_sql ast =
    let sql = canonical_sql ast in
    if ltb table_sql_max_length (length sql)
    then err (sql_too_long ast.table_name (length sql))
    else ok sql

-- `schema_create` fills in the id and the offset. The width is cut to a `uint32_t`.
unfoldable pub column_of : ColumnAst → ColumnDefinition
column_of c = record {
  column_id = 0;
  name = c.name;
  type = if is_int c.type then column_int else column_text;
  size = if is_int c.type then 4 else to_u64 c.width % u32_mod;
  offset = 0;
}

unfoldable pub table_definition_from_ast : CreateTableAst → Result DefinitionError TableDefinition
unfolding check_name check_names check_widths check_key check_size check_sql column_of
table_definition_from_ast ast = do
  _ ← check_name ast
  _ ← check_names [] ast.columns
  _ ← check_widths ast.columns
  key_index ← check_key ast
  _ ← check_size ast
  sql ← check_sql ast
  ok (record {
    name = ast.table_name;
    schema = schema_create (map column_of ast.columns);
    key_column_id = key_index + 1;
    sql = sql;
  })
