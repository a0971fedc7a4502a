-- ===== src/Statement.antt =====
-- src/statement.c: binding a statement to the tables of the database. Errors are values.
pub mod Planned
pub mod Inserted
pub mod Targets
pub mod Stored
pub mod Prepare
use mini_sql.Base.{
  ℕ, zero, suc, ◌+◌, Bool, true, false, not, ◌&&◌, ◌||◌, Option, none, some, List, [], ◌∷◌, ltb,
  ◌==◌, if◌then◌else◌, length, get_elem?, map, replicate,
}
use mini_sql.Base.Bytes.{Bytes}
use mini_sql.Base.Int.{ℤ, pos, negsuc, ltb_ℤ}
use mini_sql.Base.Result.{Result, ok, err, ◌>>=◌}
use mini_sql.Ast.{
  Literal, LiteralType, literal_integer, literal_string, InsertAst, SelectAst, DeleteAst, ExprAst,
  CreateTableAst, Ast, ast_empty, ast_insert, ast_select, ast_create_table, ast_delete,
}
use mini_sql.Schema.{
  ColumnType, column_int, column_text, ColumnDefinition, Schema, schema_names_equal,
  schema_find_column_by_name,
}
use mini_sql.Record.{Record, record_init, record_set_int, record_set_text}
use mini_sql.Expression.{BindError, BoundExpr, expression_bind}
use mini_sql.Table.{Table}
use mini_sql.Parser.{SyntaxError, Outcome}
use mini_sql.Parser.Statement.{parse_statement}
use mini_sql.TableDefinition.{TableDefinition, DefinitionError, table_definition_from_ast}
use mini_sql.Planner.{Plan, plan_select}

-- The errors of binding, with what the message quotes.
pub data StatementError : Type 0 where
  no_such_table : Bytes → StatementError
  int_column_given_text : Bytes → Literal → StatementError
  out_of_int_range : Literal → Bytes → StatementError
  negative_key : Bytes → StatementError
  text_column_given_integer : Bytes → Literal → StatementError
  text_too_long : Bytes → ℕ → ℕ → StatementError
  unknown_column : Bytes → StatementError
  listed_twice : Bytes → StatementError
  wrong_count : ℕ → ℕ → StatementError
  no_value : Bytes → StatementError
  bad_condition : BindError → StatementError
  table_exists : Bytes → StatementError
  bad_definition : DefinitionError → StatementError
  bad_syntax : SyntaxError → StatementError
  -- For the parser's `no_fuel`, which `Parser.Total` rules out.
  no_outcome : StatementError

unfoldable pub database_find_table : List Table → Bytes → Option Table
database_find_table [] name = none
database_find_table (t ∷ ts) name =
    if schema_names_equal t.name name then some t else database_find_table ts name

unfoldable pub bind_table : List Table → Bytes → Result StatementError Table
bind_table tables name = elim (database_find_table tables name) [
  | none ↦ err (no_such_table name)
  | some table ↦ ok table
]

unfoldable pub bind_int_value :
    LiteralType → Literal → ColumnDefinition → Bool → Result StatementError (Unit {0})
bind_int_value literal_string l column is_key = err (int_column_given_text column.name l)
bind_int_value literal_integer l column is_key =
    if l.out_of_range || ltb_ℤ l.integer (negsuc 2147483647) || ltb_ℤ (pos 2147483647) l.integer
    then err (out_of_int_range l column.name)
    else if is_key && ltb_ℤ l.integer (pos 0)
    then err (negative_key column.name)
    else ok tt

unfoldable pub bind_text_value :
    LiteralType → Literal → ColumnDefinition → Result StatementError (Unit {0})
bind_text_value literal_integer l column = err (text_column_given_integer column.name l)
bind_text_value literal_string l column =
    if ltb column.size (length l.text)
    then err (text_too_long column.name column.size (length l.text))
    else ok tt

unfoldable pub bind_value_of :
    ColumnType → Literal → ColumnDefinition → Bool → Result StatementError (Unit {0})
unfolding bind_int_value bind_text_value
bind_value_of column_int l column is_key = bind_int_value l.type l column is_key
bind_value_of column_text l column is_key = bind_text_value l.type l column

unfoldable pub bind_value : Literal → ColumnDefinition → Bool → Result StatementError (Unit {0})
unfolding bind_value_of
bind_value l column is_key = bind_value_of column.type l column is_key

-- The columns that a SELECT prints, in order.
unfoldable pub column_ids_of : List Bytes → Schema → Result StatementError (List ℕ)
column_ids_of [] schema = ok []
column_ids_of (name ∷ names) schema = elim (schema_find_column_by_name schema name) [
  | none ↦ err (unknown_column name)
  | some column ↦ column_ids_of names schema >>= λ ids. ok (column.column_id ∷ ids)
]

unfoldable pub select_columns : Option (List Bytes) → Schema → Result StatementError (List ℕ)
unfolding column_ids_of
select_columns none schema = ok (map (λ (c : ColumnDefinition). c.column_id) schema.columns)
select_columns (some names) schema = column_ids_of names schema

unfoldable pub bind_where : Option ExprAst → Schema → Result StatementError (Option BoundExpr)
bind_where none schema = ok none
bind_where (some e) schema = elim (expression_bind e schema) [
  | err why ↦ err (bad_condition why)
  | ok b ↦ ok (some b)
]

-- What a statement keeps of a SELECT, and of a DELETE, whose `column_ids` stay empty.
pub record Reading : Type 0 where
  pub table : Table
  pub column_ids : List ℕ
  pub condition : Option BoundExpr
  pub plan : Plan
  pub explain : Bool

unfoldable pub bind_select : List Table → SelectAst → Bool → Result StatementError Reading
bind_select tables select explain = do
  table ← bind_table tables select.table_name
  ids ← select_columns select.column_names table.schema
  condition ← bind_where select.condition table.schema
  ok (record {
    table = table;
    column_ids = ids;
    condition = condition;
    plan = plan_select condition table.key_column_id;
    explain = explain;
  })

unfoldable pub bind_delete : List Table → DeleteAst → Bool → Result StatementError Reading
bind_delete tables delete_rows explain = do
  table ← bind_table tables delete_rows.table_name
  condition ← bind_where delete_rows.condition table.schema
  ok (record {
    table = table;
    column_ids = [];
    condition = condition;
    plan = plan_select condition table.key_column_id;
    explain = explain;
  })

-- `column - schema->columns`: the position of the first column of that name.
unfoldable pub column_index : List ColumnDefinition → Bytes → Option ℕ
column_index [] name = none
column_index (c ∷ cs) name =
    if schema_names_equal c.name name
    then some 0
    else elim (column_index cs name) [ none ↦ none | some i ↦ some (suc i) ]

-- Whether `listed[index]` is set: whether the index is among the targets so far.
unfoldable pub is_listed : ℕ → List ℕ → Bool
is_listed index [] = false
is_listed index (t ∷ ts) = index == t || is_listed index ts

-- The loop over the column list: the targets of the names left, `listed` those of the names before.
unfoldable pub list_targets :
    List ColumnDefinition → List Bytes → List ℕ → Result StatementError (List ℕ)
unfolding column_index is_listed
list_targets columns [] listed = ok []
list_targets columns (name ∷ names) listed = elim (column_index columns name) [
  | none ↦ err (unknown_column name)
  | some index ↦
      if is_listed index listed
      then err (
          listed_twice (elim (get_elem? columns index) [ none ↦ name | some column ↦ column.name ]))
      else list_targets columns names (index ∷ listed) >>= λ targets. ok (index ∷ targets)
]

-- The targets without a column list: 0, 1, 2 and so on.
unfoldable pub count_up : ℕ → ℕ → List ℕ
count_up i zero = []
count_up i (suc n) = i ∷ count_up (suc i) n

unfoldable pub insert_targets : Schema → Option (List Bytes) → Result StatementError (List ℕ)
unfolding list_targets count_up
insert_targets schema none = ok (count_up 0 (length schema.columns))
insert_targets schema (some names) = list_targets schema.columns names []

-- The check that every column is listed, from index `i` on.
unfoldable pub check_listed : ℕ → List ColumnDefinition → List ℕ → Result StatementError (Unit {0})
unfolding is_listed
check_listed i [] targets = ok tt
check_listed i (c ∷ cs) targets =
    let rest = check_listed (suc i) cs targets in
    if is_listed i targets then rest else err (no_value c.name)

unfoldable pub check_all_listed :
    Schema → Option (List Bytes) → List ℕ → Result StatementError (Unit {0})
unfolding check_listed
check_all_listed schema none targets = ok tt
check_all_listed schema (some names) targets = check_listed 0 schema.columns targets

-- The columns that the targets name, each with its value.
unfoldable pub pair_values :
    List ColumnDefinition → List ℕ → List Literal → List (ColumnDefinition × Literal)
pair_values columns [] values = []
pair_values columns (t ∷ ts) [] = []
pair_values columns (t ∷ ts) (v ∷ vs) = elim (get_elem? columns t) [
  | none ↦ pair_values columns ts vs
  | some column ↦ (column, v) ∷ pair_values columns ts vs
]

unfoldable pub check_values :
    ℕ → List (ColumnDefinition × Literal) → Result StatementError (Unit {0})
unfolding bind_value
check_values key_column_id [] = ok tt
check_values key_column_id ((column, v) ∷ pairs) =
    bind_value v column (column.column_id == key_column_id) >>= λ _.
    check_values key_column_id pairs

unfoldable pub store_value : ColumnType → Record → Schema → ColumnDefinition → Literal → Record
store_value column_int r schema column v = record_set_int r schema column.column_id v.integer
store_value column_text r schema column v = record_set_text r schema column.column_id v.text

unfoldable pub store_values : Record → Schema → List (ColumnDefinition × Literal) → Record
unfolding store_value
store_values r schema [] = r
store_values r schema ((column, v) ∷ pairs) =
    store_values (store_value column.type r schema column v) schema pairs

-- What a statement keeps of an INSERT.
pub record Inserting : Type 0 where
  pub table : Table
  pub record_to_insert : Record

unfoldable pub check_count : ℕ → ℕ → Result StatementError (Unit {0})
check_count num_values num_targets =
    if not (num_values == num_targets) then err (wrong_count num_values num_targets) else ok tt

unfoldable pub bind_insert : List Table → InsertAst → Result StatementError Inserting
bind_insert tables insert = do
  table ← bind_table tables insert.table_name
  targets ← insert_targets table.schema insert.column_names
  _ ← check_count (length insert.values) (length targets)
  _ ← check_all_listed table.schema insert.column_names targets
  let pairs = pair_values table.schema.columns targets insert.values
  _ ← check_values table.key_column_id pairs
  ok (record {
    table = table;
    record_to_insert = store_values (record_init table.schema) table.schema pairs;
  })
