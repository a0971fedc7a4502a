-- ===== src/Catalog/Definition.antt =====
-- The catalog's own definition.
use mini_sql.Base.{ℕ, some, [], ◌∷◌, ◌≡◌, refl}
use mini_sql.Base.Bytes.{Bytes, codes}
use mini_sql.Schema.{ColumnType, column_int, column_text, ColumnDefinition}
use mini_sql.TableDefinition.{TableDefinition}
use mini_sql.Table.{table_create}
use mini_sql.Catalog.{catalog_sql, catalog_open}
use mini_sql.Btree.{leaf_node_max_row_size}
use mini_sql.Catalog.{stored_definition}
use mini_sql.Parser.{advance}
use mini_sql.Parser.Expr.{parse_or}
use mini_sql.Parser.Statement.{
  parse_statement, parse_create, parse_select, parse_insert, parse_delete,
}
use mini_sql.Schema.{schema_create, schema_names_equal}
use mini_sql.TableDefinition.{table_definition_from_ast}
use mini_sql.Tokenizer.{
  read_number, keyword_or_identifier, read_symbol, read_string, blank_length, tokenizer_next,
  tokenizer_init, read_lexeme,
}
use mini_sql.Tokenizer.Strings.{unescape_string}

abbrev column : Bytes → ColumnType → ℕ → ColumnDefinition
column name type size = record { column_id = 0; name = name; type = type; size = size; offset = 0 }

abbrev pub catalog_definition : TableDefinition
catalog_definition = record {
  name = codes "mini_sql_catalog";
  schema = schema_create (
      column (codes "id") column_int 4
      ∷ column (codes "name") column_text 64
      ∷ column (codes "root_page") column_int 4
      ∷ column (codes "sql") column_text 1024
      ∷ []);
  key_column_id = 1;
  sql = catalog_sql;
}

catalog_sql-definition : stored_definition catalog_sql ≡ some catalog_definition
unfolding table_definition_from_ast parse_or read_number parse_statement keyword_or_identifier
    parse_create parse_select schema_create stored_definition parse_insert read_symbol
    unescape_string parse_delete read_string schema_names_equal blank_length tokenizer_next advance
    leaf_node_max_row_size tokenizer_init read_lexeme
catalog_sql-definition = refl

-- The table that the catalog's text defines.
pub catalog_open_lem : (root : ℕ) → catalog_open root ≡ some (table_create root catalog_definition)
unfolding catalog_open
catalog_open_lem root = rw catalog_sql-definition refl
