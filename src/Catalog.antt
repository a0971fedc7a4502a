-- ===== src/Catalog.antt =====
-- src/catalog.c and include/catalog.h: the table of tables. `none` stands for an exit, and for the
-- read through a null pointer that a missing catalog column would cause.
pub mod Definition
use mini_sql.Base.{
  ℕ, zero, suc, ◌+◌, ◌*◌, Bool, true, false, Option, none, some, List, [], ◌∷◌, ◌++◌, if◌then◌else◌,
}
use mathlib.Core.Option
use mini_sql.Base.Bytes.{Bytes, codes}
use mini_sql.Base.Int.{pos}
use mini_sql.Ast.{
  Ast, ast_empty, ast_insert, ast_select, ast_create_table, ast_delete, CreateTableAst,
}
use mini_sql.Parser.{Outcome, no_fuel, err, ok}
use mini_sql.Parser.Statement.{parse_statement}
use mini_sql.Base.Result.{Result}
use mini_sql.Schema.{ColumnDefinition, Schema, schema_find_column_by_name, schema_find_column_by_id}
use mini_sql.Record.{
  Record, record_init, record_set_int, record_set_text, record_get_int, record_get_text,
  deserialize_record, bounded_text, to_u32, to_i32,
}
use mini_sql.Btree.Store.{Store, Action, pure, quit, ◌>>=◌, given}
use mini_sql.Cursor.{Cursor, table_start, cursor_value, cursor_advance, scan_rounds}
use mini_sql.Table.{Table, table_insert, table_create}
use mini_sql.TableDefinition.{TableDefinition, DefinitionError, table_definition_from_ast}

abbrev pub catalog_sql : Bytes
catalog_sql =
    codes
      "CREATE TABLE mini_sql_catalog (id INT PRIMARY KEY, name TEXT(64), root_page INT, sql TEXT(1024))"

pub record CatalogEntry : Type 0 where
  pub id : ℕ
  pub name : Bytes
  pub root_page_num : ℕ
  pub sql : Bytes

-- The CREATE TABLE that a text parses to.
unfoldable pub created : Outcome Ast → Option CreateTableAst
created no_fuel = none
created (err e) = none
created (ok ast_empty) = none
created (ok (ast_insert a)) = none
created (ok (ast_select e a)) = none
created (ok (ast_create_table a)) = some a
created (ok (ast_delete e a)) = none

unfoldable pub accepted : Result DefinitionError TableDefinition → Option TableDefinition
accepted (Result.err e) = none
accepted (Result.ok d) = some d

-- The definition that a stored text stands for: parsed and checked as a CREATE TABLE typed in is.
unfoldable pub stored_definition : Bytes → Option TableDefinition
unfolding created accepted
stored_definition sql = elim (created (parse_statement sql)) [
  | none ↦ none
  | some ast ↦ accepted (table_definition_from_ast ast)
]

unfoldable pub catalog_open : (root_page_num : ℕ) → Option Table
unfolding stored_definition
catalog_open root_page_num = Option.map (table_create root_page_num) (stored_definition catalog_sql)

unfoldable pub catalog_column : Table → Bytes → Option ℕ
catalog_column catalog name =
    Option.map (λ (c : ColumnDefinition). c.column_id)
      (schema_find_column_by_name catalog.schema name)

-- The row that `catalog_add` fills in.
unfoldable pub catalog_record :
    Table → (id : ℕ) → Bytes → (root_page_num : ℕ) → Bytes → Action Record
unfolding catalog_column
catalog_record catalog id name root_page_num sql = do
  id_column ← given (catalog_column catalog (codes "id"))
  name_column ← given (catalog_column catalog (codes "name"))
  root_column ← given (catalog_column catalog (codes "root_page"))
  sql_column ← given (catalog_column catalog (codes "sql"))
  let r0 = record_init catalog.schema
  let r1 = record_set_int r0 catalog.schema id_column (to_i32 id)
  let r2 = record_set_text r1 catalog.schema name_column name
  let r3 = record_set_int r2 catalog.schema root_column (to_i32 root_page_num)
  pure (record_set_text r3 catalog.schema sql_column sql)

unfoldable pub catalog_add :
    (configured : ℕ) → Table → (id : ℕ) → Bytes → (root_page_num : ℕ) → Bytes → Action (Unit {0})
unfolding catalog_record
catalog_add configured catalog id name root_page_num sql = do
  r ← catalog_record catalog id name root_page_num sql
  inserted ← table_insert configured catalog r
  if inserted then pure tt else quit

unfoldable pub copy_text_field : Record → Schema → ℕ → Option Bytes
copy_text_field r schema column_id = elim (schema_find_column_by_id schema column_id) [
  | none ↦ none
  | some column ↦ Option.map (bounded_text column.size) (record_get_text r schema column_id)
]

-- The body of the loop of `catalog_load`.
unfoldable pub entry_of : Table → Record → Action CatalogEntry
unfolding copy_text_field catalog_column
entry_of catalog r = do
  id_column ← given (catalog_column catalog (codes "id"))
  name_column ← given (catalog_column catalog (codes "name"))
  root_column ← given (catalog_column catalog (codes "root_page"))
  sql_column ← given (catalog_column catalog (codes "sql"))
  name ← given (copy_text_field r catalog.schema name_column)
  sql ← given (copy_text_field r catalog.schema sql_column)
  pure (record {
    id = to_u32 (record_get_int r catalog.schema id_column);
    name = name;
    root_page_num = to_u32 (record_get_int r catalog.schema root_column);
    sql = sql;
  })

unfoldable pub load_loop :
    (fuel : ℕ) → Table → Cursor → List CatalogEntry → Action (List CatalogEntry)
unfolding entry_of
load_loop zero catalog cursor entries = quit
load_loop (suc fuel) catalog cursor entries = if cursor.end_of_table then pure entries else (do
  value ← cursor_value cursor
  entry ← entry_of catalog (deserialize_record value catalog.schema)
  next ← cursor_advance cursor
  load_loop fuel catalog next (entries ++ (entry ∷ [])))

unfoldable pub catalog_load : Table → Action (List CatalogEntry)
unfolding load_loop
catalog_load catalog s =
    (do
      cursor ← table_start catalog.root_page_num
      load_loop (scan_rounds s catalog.schema) catalog cursor [])
      s
