-- ===== src/Executor/Rows.antt =====
-- What running a statement does to the rows of its table.
use mini_sql.Base.{ℕ, ◌≡◌, some, [], refl}
use mini_sql.Base.Bytes.{Bytes}
use mini_sql.Btree.Store.{Store, ◌>>=◌}
use mini_sql.Table.Contents.{IsTable, HoldsRow}
use mini_sql.Table.Rows.{key_of, table_insert-taken}
use mini_sql.Statement.{Inserting}
use mini_sql.Statement.Prepare.{inserting}
use mini_sql.Database.{Database}
use mini_sql.Executor.{execute_duplicate_key, printed, execute_statement}

-- An INSERT whose key a row of the table has already is reported as a duplicate key, and leaves the
-- pages and the database as they were.
pub execute_statement-duplicate :
    (configured : ℕ) (s : Store) (db : Database) (statement : Inserting) (row : Bytes)
    → IsTable s statement.table.root_page_num
    → HoldsRow s statement.table.root_page_num
        (key_of statement.table statement.record_to_insert)
        row
    → execute_statement configured (inserting statement) db s
      ≡ some (record { result = execute_duplicate_key; output = printed []; db = db }, s)
unfolding execute_statement
execute_statement-duplicate configured s db statement row is_table held =
    rw
      (
        ◌>>=◌,
        table_insert-taken configured s statement.table statement.record_to_insert row is_table
            held,
      )
      refl
