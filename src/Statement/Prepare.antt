-- ===== src/Statement/Prepare.antt =====
-- The rest of src/statement.c: binding a CREATE TABLE, and `prepare_statement` over all kinds.
use mini_sql.Base.{none, some, List}
use mini_sql.Base.Bytes.{Bytes}
use mini_sql.Base.Result.{Result, ok, err, ◌>>=◌}
use mini_sql.Ast.{
  CreateTableAst, Ast, ast_empty, ast_insert, ast_select, ast_create_table, ast_delete,
}
use mini_sql.Table.{Table}
use mini_sql.Parser.{Outcome}
use mini_sql.Parser.Statement.{parse_statement}
use mini_sql.TableDefinition.{TableDefinition, table_definition_from_ast}
use mini_sql.Statement.{
  StatementError, table_exists, bad_definition, bad_syntax, no_outcome, database_find_table,
  bind_insert, bind_select, bind_delete, Inserting, Reading,
}

unfoldable pub bind_create_table :
    List Table → CreateTableAst → Result StatementError TableDefinition
bind_create_table tables create = elim (database_find_table tables create.table_name) [
  | some table ↦ err (table_exists create.table_name)
  | none ↦ elim (table_definition_from_ast create) [
    | err why ↦ err (bad_definition why)
    | ok definition ↦ ok definition
  ]
]

-- A statement that is ready to execute, by its type.
pub data Statement : Type 0 where
  inserting : Inserting → Statement
  selecting deleting : Reading → Statement
  creating : TableDefinition → Statement

pub data Prepared : Type 0 where
  prepare_empty : Prepared
  prepare_success : Statement → Prepared

-- The switch of `prepare_statement`.
unfoldable pub bind_statement : List Table → Ast → Result StatementError Prepared
unfolding bind_insert bind_select bind_create_table bind_delete
bind_statement tables ast_empty = ok prepare_empty
bind_statement tables (ast_insert insert) =
    bind_insert tables insert >>= λ s. ok (prepare_success (inserting s))
bind_statement tables (ast_select explain select) =
    bind_select tables select explain >>= λ s. ok (prepare_success (selecting s))
bind_statement tables (ast_create_table create) =
    bind_create_table tables create >>= λ d. ok (prepare_success (creating d))
bind_statement tables (ast_delete explain delete_rows) =
    bind_delete tables delete_rows explain >>= λ s. ok (prepare_success (deleting s))

unfoldable pub prepare_statement : List Table → Bytes → Result StatementError Prepared
unfolding bind_statement
prepare_statement tables sql = elim (parse_statement sql) [
  | Outcome.no_fuel ↦ err no_outcome
  | Outcome.err why ↦ err (bad_syntax why)
  | Outcome.ok ast ↦ bind_statement tables ast
]
