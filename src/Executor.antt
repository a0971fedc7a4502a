-- ===== src/Executor.antt =====
-- src/executor.c and include/executor.h: running a statement. What it prints is a value.
pub mod Rows
use mini_sql.Base.{
  ℕ, zero, suc, ◌+◌, Bool, true, false, not, ◌&&◌, Option, none, some, List, [], ◌∷◌, ◌++◌, ltb,
  if◌then◌else◌,
}
use mini_sql.Schema.{Schema}
use mini_sql.Record.{Record, FieldValue, deserialize_record, print_record_columns}
use mini_sql.Expression.{row_accepted}
use mini_sql.Planner.{PlanKind, plan_scan, plan_point, plan_range, plan_empty, Plan}
use mini_sql.Btree.Store.{Store, Action, pure, quit, ◌>>=◌, ◌>>◌, given}
use mini_sql.Cursor.{
  Cursor, table_find, table_start, cursor_key, cursor_value, cursor_advance, scan_rounds,
}
use mini_sql.Table.{Table, table_insert, table_delete}
use mini_sql.TableDefinition.{TableDefinition}
use mini_sql.Statement.{Inserting, Reading}
use mini_sql.Statement.Prepare.{Statement, inserting, selecting, deleting, creating}
use mini_sql.Database.{Database, database_create_table}

pub data ExecuteResult : Type 0 where
  execute_success execute_duplicate_key : ExecuteResult

-- A line for each row, or the plan that EXPLAIN describes.
pub data Output : Type 0 where
  printed : List (List FieldValue) → Output
  described : Plan → Output

-- What a statement leaves behind, besides the store.
pub record Executed : Type 0 where
  pub result : ExecuteResult
  pub output : Output
  pub db : Database

abbrev pub is_scan : PlanKind → Bool
is_scan plan_scan = true
is_scan plan_point = false
is_scan plan_range = false
is_scan plan_empty = false

abbrev pub is_empty : PlanKind → Bool
is_empty plan_scan = false
is_empty plan_point = false
is_empty plan_range = false
is_empty plan_empty = true

module _ {A : Type 0} (statement : Reading) (visit : Record → (key : ℕ) → A → Option A) where
  -- The loop of `visit_matching_rows`.
  unfoldable pub visit_loop : (fuel : ℕ) → Cursor → (rows_examined : ℕ) → A → Action (ℕ × A)
  visit_loop zero cursor rows_examined context = quit
  visit_loop (suc fuel) cursor rows_examined context =
      if cursor.end_of_table then pure (rows_examined, context) else (do
        key ← cursor_key cursor
        if not (is_scan statement.plan.kind) && ltb statement.plan.high key
            then pure (rows_examined, context)
            else (do
              value ← cursor_value cursor
              let row = deserialize_record value statement.table.schema
              visited ← given (
                  if row_accepted statement.condition row statement.table.schema
                  then visit row key context
                  else some context)
              next ← cursor_advance cursor
              visit_loop fuel next (rows_examined + 1) visited))

  unfoldable pub visit_matching_rows : A → Action (ℕ × A)
  unfolding visit_loop
  visit_matching_rows context s =
      if is_empty statement.plan.kind
      then some ((0, context), s)
      else (do
        cursor ←
            if is_scan statement.plan.kind
            then table_start statement.table.root_page_num
            else table_find statement.table.root_page_num statement.plan.low
        visit_loop (scan_rounds s statement.table.schema) cursor 0 context)
          s

unfoldable pub print_row :
    Reading → Record → (key : ℕ) → List (List FieldValue) → Option (List (List FieldValue))
print_row statement row key lines =
    elim (print_record_columns row statement.table.schema statement.column_ids) [
      | none ↦ none
      | some line ↦ some (lines ++ (line ∷ []))
    ]

unfoldable pub collect_key : Record → (key : ℕ) → List ℕ → Option (List ℕ)
collect_key row key keys = some (keys ++ (key ∷ []))

abbrev pub explained : Reading → Database → Executed
explained statement db = record {
  result = execute_success;
  output = described statement.plan;
  db = record db { last_rows_examined = 0 };
}

unfoldable pub execute_select : Reading → Database → Action Executed
unfolding visit_matching_rows print_row
execute_select statement db = if statement.explain then pure (explained statement db) else (do
  (count, lines) ← visit_matching_rows statement (print_row statement) []
  pure (record {
    result = execute_success;
    output = printed lines;
    db = record db { last_rows_examined = count };
  }))

module _ (configured : ℕ) where
  unfoldable pub execute_insert : Inserting → Database → Action Executed
  execute_insert statement db = do
    inserted ← table_insert configured statement.table statement.record_to_insert
    pure (record {
      result = if not inserted then execute_duplicate_key else execute_success;
      output = printed [];
      db = db;
    })

  -- The second phase of `execute_delete`.
  unfoldable pub delete_keys : Table → List ℕ → Action (Unit {0})
  delete_keys table [] = pure tt
  delete_keys table (key ∷ keys) = do _ ← table_delete configured table key; delete_keys table keys

  unfoldable pub execute_delete : Reading → Database → Action Executed
  unfolding visit_matching_rows collect_key delete_keys
  execute_delete statement db = if statement.explain then pure (explained statement db) else (do
    (count, keys) ← visit_matching_rows statement collect_key []
    delete_keys statement.table keys
    pure (record {
      result = execute_success;
      output = printed [];
      db = record db { last_rows_examined = count };
    }))

  unfoldable pub execute_create_table : TableDefinition → Database → Action Executed
  execute_create_table definition db = do
    created ← database_create_table configured db definition
    pure (record { result = execute_success; output = printed []; db = created })

  unfoldable pub execute_statement : Statement → Database → Action Executed
  unfolding execute_insert execute_select execute_create_table execute_delete
  execute_statement (inserting statement) db = execute_insert statement db
  execute_statement (selecting statement) db = execute_select statement db
  execute_statement (creating definition) db = execute_create_table definition db
  execute_statement (deleting statement) db = execute_delete statement db
