-- ===== src/Tests/Tables.antt =====
-- Tables: whole statements run on an empty file, and the theorems on tables at that file's pages.
use mini_sql.Base.{ℕ, ◌≡◌, refl, Option, some, none, List, [], ◌∷◌, ◌++◌, map, replicate}
use mini_sql.Base.Bytes.{Bytes, codes}
use mini_sql.Base.Int.{pos}
use mini_sql.Base.Result.{Result, ok, err}
use mini_sql.Record.{
  FieldValue, int_field, text_field, print_record_columns, record_set_int, deserialize_record,
  record_set_text, serialize_record,
}
use mini_sql.Btree.Store.{
  Store, other, Action, pure, ◌>>=◌, given, reparent_if_internal, get_node_max_key, internal_at,
  leaf_at, fetch, allocate_page, free_page,
}
use mini_sql.Statement.{
  StatementError, check_values, insert_targets, check_all_listed, select_columns, store_values,
  pair_values, check_count, bind_where, bind_table, database_find_table,
}
use mini_sql.Statement.Prepare.{
  Prepared, Statement, prepare_empty, prepare_success, prepare_statement,
}
use mini_sql.Btree.{
  leaf_node_min_cells, internal_node_find_child, internal_node_min_keys, leaf_node_find_cell,
  set_internal_node_key, initialize_internal_node, internal_node_child, leaf_node_max_row_size,
  initialize_leaf_node,
}
use mini_sql.Btree.Cells.{shift_left, shift_right}
use mini_sql.Btree.Deletion.{after_child_removed, child_index_in_parent}
use mini_sql.Btree.LeafDeletion.{leaf_node_delete}
use mini_sql.Btree.Insertion.{internal_node_insert, leaf_node_insert}
use mini_sql.Btree.LeafNode.{borrow_left, borrow_right, divide_cells, merge_cells, insert_with_room}
use mini_sql.Catalog.{catalog_load, catalog_open, catalog_add}
use mini_sql.Cursor.{table_start, cursor_advance, cursor_key, cursor_value}
use mini_sql.Expression.{
  compare_operands, holds, any_holds, row_accepted, all_hold, bind_operand, expression_evaluate,
  bind_comparison, bind_children, expression_bind,
}
use mini_sql.FileHeader.{
  file_header_initialize, file_header_catalog_root_page, file_header_free_head,
  file_header_validate, header_magic,
}
use mini_sql.Pager.{zero_page}
use mini_sql.Parser.{advance}
use mini_sql.Parser.Expr.{parse_or}
use mini_sql.Parser.Statement.{
  parse_statement, parse_create, parse_select, parse_insert, parse_delete,
}
use mini_sql.Planner.{plan_select, narrow_by_comparison}
use mini_sql.Schema.{schema_find_column_by_name, schema_create, schema_find_column_by_id}
use mini_sql.Table.{table_create, table_delete, table_insert}
use mini_sql.TableDefinition.{table_definition_from_ast}
use mini_sql.Tokenizer.{
  read_number, keyword_or_identifier, read_string, read_symbol, blank_length, read_lexeme,
  tokenizer_init, tokenizer_next,
}
use mini_sql.Tokenizer.Strings.{unescape_string}
use mini_sql.Table.Contents.{IsTable, HoldsRow}
use mini_sql.MetaCommand.{split_words}
use mini_sql.Database.Opened.{db_open-empty}
use mini_sql.Database.{closing_header, Database, db_open, database_create_table}
use mini_sql.Executor.{
  ExecuteResult, execute_success, execute_duplicate_key, Output, printed, execute_statement,
}

abbrev no_pages : Store
no_pages = record { num_pages = 0; pages = λ n. other; free_head = 0 }

abbrev statement_of : Result StatementError Prepared → Option Statement
statement_of (err e) = none
statement_of (ok prepare_empty) = none
statement_of (ok (prepare_success s)) = some s

-- What each line prints.
abbrev run_lines : List Bytes → Database → Action (List (ExecuteResult × Output))
run_lines [] db = pure []
run_lines (line ∷ lines) db = do
  statement ← given (statement_of (prepare_statement db.tables line))
  done ← execute_statement 3 statement db
  rest ← run_lines lines done.db
  pure ((done.result, done.output) ∷ rest)

abbrev run_file : List Bytes → Action (List (ExecuteResult × Output))
run_file lines = do (db, header) ← db_open []; run_lines lines db

abbrev outputs : Option (List (ExecuteResult × Output) × Store) → List (ExecuteResult × Output)
outputs none = []
outputs (some (o, s)) = o

abbrev create_pets : Bytes
create_pets = codes "CREATE TABLE pets (id INT PRIMARY KEY, name TEXT(4))"

abbrev pets_lines : List Bytes
pets_lines =
    create_pets
    ∷ codes "INSERT INTO pets VALUES (7, 'rex')"
    ∷ codes "INSERT INTO pets VALUES (2, 'tom')"
    ∷ codes "INSERT INTO pets (name, id) VALUES ('ada', 7)"
    ∷ codes "SELECT * FROM pets"
    ∷ codes "DELETE FROM pets WHERE name = 'tom'"
    ∷ codes "SELECT name, id FROM pets WHERE id > 1"
    ∷ []

abbrev row_2 : List FieldValue
row_2 = int_field (pos 2) ∷ text_field (codes "tom") ∷ []

abbrev row_7 : List FieldValue
row_7 = int_field (pos 7) ∷ text_field (codes "rex") ∷ []

-- A key that is taken is refused, rows are printed in the order of their keys.
pets_run :
    outputs (run_file pets_lines no_pages)
    ≡ (execute_success, printed [])
      ∷ (execute_success, printed [])
      ∷ (execute_success, printed [])
      ∷ (execute_duplicate_key, printed [])
      ∷ (execute_success, printed (row_2 ∷ row_7 ∷ []))
      ∷ (execute_success, printed [])
      ∷ (execute_success, printed ((text_field (codes "rex") ∷ int_field (pos 7) ∷ []) ∷ []))
      ∷ []
unfolding table_definition_from_ast parse_or after_child_removed execute_statement leaf_node_delete
    internal_node_insert print_record_columns compare_operands read_number db_open prepare_statement
    parse_statement leaf_node_insert check_values insert_targets keyword_or_identifier catalog_load
    parse_create plan_select record_set_int catalog_open parse_select schema_find_column_by_name
    table_start reparent_if_internal narrow_by_comparison borrow_left parse_insert check_all_listed
    catalog_add leaf_node_min_cells borrow_right divide_cells schema_create deserialize_record
    record_set_text unescape_string select_columns schema_find_column_by_id file_header_initialize
    internal_node_find_child parse_delete file_header_catalog_root_page database_create_table
    read_string read_symbol store_values get_node_max_key file_header_free_head blank_length
    merge_cells internal_node_min_keys file_header_validate child_index_in_parent
    leaf_node_find_cell read_lexeme cursor_advance holds pair_values cursor_key check_count
    internal_at zero_page set_internal_node_key initialize_internal_node tokenizer_init
    internal_node_child insert_with_room table_create cursor_value shift_left any_holds row_accepted
    shift_right all_hold leaf_at table_delete fetch advance table_insert header_magic tokenizer_next
    allocate_page leaf_node_max_row_size bind_where bind_operand expression_evaluate bind_comparison
    bind_table initialize_leaf_node free_page serialize_record bind_children database_find_table
    expression_bind
pets_run = refl

-- Three rows fill a leaf of this table: the leaves and the internal nodes split, then merge.
abbrev wide_lines : List Bytes
wide_lines =
    codes "CREATE TABLE w (id INT PRIMARY KEY, t TEXT(1352))"
    ∷ codes "INSERT INTO w VALUES (5, 'x')"
    ∷ codes "INSERT INTO w VALUES (1, 'x')"
    ∷ codes "INSERT INTO w VALUES (9, 'x')"
    ∷ codes "INSERT INTO w VALUES (3, 'x')"
    ∷ codes "INSERT INTO w VALUES (7, 'x')"
    ∷ codes "INSERT INTO w VALUES (2, 'x')"
    ∷ codes "INSERT INTO w VALUES (8, 'x')"
    ∷ codes "INSERT INTO w VALUES (4, 'x')"
    ∷ codes "INSERT INTO w VALUES (6, 'x')"
    ∷ codes "INSERT INTO w VALUES (15, 'x')"
    ∷ codes "INSERT INTO w VALUES (11, 'x')"
    ∷ codes "INSERT INTO w VALUES (13, 'x')"
    ∷ codes "INSERT INTO w VALUES (10, 'x')"
    ∷ codes "INSERT INTO w VALUES (14, 'x')"
    ∷ codes "INSERT INTO w VALUES (12, 'x')"
    ∷ codes "INSERT INTO w VALUES (20, 'x')"
    ∷ codes "INSERT INTO w VALUES (18, 'x')"
    ∷ codes "INSERT INTO w VALUES (16, 'x')"
    ∷ codes "INSERT INTO w VALUES (19, 'x')"
    ∷ codes "INSERT INTO w VALUES (17, 'x')"
    ∷ codes "SELECT id FROM w"
    ∷ codes "DELETE FROM w WHERE id > 3 AND id < 17"
    ∷ codes "SELECT id FROM w"
    ∷ []

abbrev printed_by : Option (List (ExecuteResult × Output) × Store) → List Output
printed_by o = map (λ (e : ExecuteResult × Output). e.1) (outputs o)

abbrev id_rows : List ℕ → Output
id_rows ids = printed (map (λ n. int_field (pos n) ∷ []) ids)

wide_run :
    printed_by (run_file wide_lines no_pages)
    ≡ replicate 21 (printed [])
      ++ (id_rows (
            1 ∷ 2 ∷ 3 ∷ 4 ∷ 5 ∷ 6 ∷ 7 ∷ 8 ∷ 9 ∷ 10 ∷ 11 ∷ 12 ∷ 13 ∷ 14 ∷ 15 ∷ 16 ∷ 17 ∷ 18 ∷ 19 ∷ 20
            ∷ [])
          ∷ printed []
          ∷ id_rows (1 ∷ 2 ∷ 3 ∷ 17 ∷ 18 ∷ 19 ∷ 20 ∷ [])
          ∷ [])
unfolding table_definition_from_ast parse_or after_child_removed execute_statement leaf_node_delete
    internal_node_insert print_record_columns compare_operands read_number db_open prepare_statement
    parse_statement leaf_node_insert check_values insert_targets keyword_or_identifier catalog_load
    parse_create plan_select record_set_int catalog_open parse_select schema_find_column_by_name
    table_start reparent_if_internal narrow_by_comparison borrow_left parse_insert check_all_listed
    catalog_add leaf_node_min_cells borrow_right divide_cells schema_create deserialize_record
    record_set_text unescape_string select_columns schema_find_column_by_id file_header_initialize
    internal_node_find_child parse_delete file_header_catalog_root_page database_create_table
    read_string read_symbol store_values get_node_max_key file_header_free_head blank_length
    merge_cells internal_node_min_keys file_header_validate child_index_in_parent
    leaf_node_find_cell read_lexeme cursor_advance holds pair_values cursor_key check_count
    internal_at zero_page set_internal_node_key initialize_internal_node tokenizer_init
    internal_node_child insert_with_room table_create cursor_value shift_left any_holds row_accepted
    shift_right all_hold leaf_at table_delete fetch advance table_insert header_magic tokenizer_next
    allocate_page leaf_node_max_row_size bind_where bind_operand expression_evaluate bind_comparison
    bind_table initialize_leaf_node free_page serialize_record bind_children database_find_table
    expression_bind
wide_run = refl

db_open-empty_example :
    (db : Database) × (header' : Bytes) × (s : Store) × (db_open [] no_pages
      ≡ some ((db, header'), s))
    × (db.tables ≡ [])
    × IsTable s db.catalog.root_page_num
    × ((key : ℕ) (row : Bytes) → ¬ HoldsRow s db.catalog.root_page_num key row)
    × (file_header_validate header' s.num_pages ≡ ok tt)
    × (file_header_validate (closing_header s header') s.num_pages ≡ ok tt)
    × (file_header_catalog_root_page (closing_header s header') ≡ db.catalog.root_page_num)
    × (file_header_free_head (closing_header s header') ≡ 0)
    × (db_open (closing_header s header') s ≡ some ((db, closing_header s header'), s))
db_open-empty_example = db_open-empty (λ n. other) []

-- Two words, the first of them in a line with blanks at both ends.
schema_words : split_words (codes "  .schema pets ") ≡ codes ".schema" ∷ codes "pets" ∷ []
unfolding split_words
schema_words = refl
