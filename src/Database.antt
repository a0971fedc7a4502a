-- ===== src/Database.antt =====
-- src/database.c and include/database.h: the open tables. The pager is the store on which an action
-- works, and page 0, the file header, is kept beside it as bytes. `none` stands for `refuse`, which
-- exits. Growing the array of tables, and freeing, are left out.
pub mod Opened
use mini_sql.Base.{
  ℕ, zero, suc, ◌+◌, ◌%◌, Bool, true, false, ◌||◌, not, Option, none, some, List, [], ◌∷◌, ◌++◌,
  leb, ◌==◌, if◌then◌else◌,
}
use mini_sql.Base.Bytes.{Bytes}
use mini_sql.Base.Result.{Result, ok, err}
use mini_sql.Schema.{schema_names_equal, u32_mod}
use mini_sql.FileHeader.{
  HeaderError, file_header_initialize, file_header_validate, file_header_free_head,
  file_header_catalog_root_page, file_header_set_free_head,
}
use mini_sql.Btree.Store.{
  Page, leaf, other, Store, Action, pure, quit, ◌>>=◌, ◌>>◌, given, write, fetch, allocate_page,
  zero_leaf,
}
use mini_sql.Btree.{initialize_leaf_node}
use mini_sql.Table.{Table, table_create}
use mini_sql.TableDefinition.{TableDefinition}
use mini_sql.Catalog.{CatalogEntry, catalog_open, catalog_add, catalog_load, stored_definition}

-- `filename` is only quoted in messages.
pub record Database : Type 0 where
  pub catalog : Table
  pub tables : List Table
  pub next_table_id : ℕ
  pub last_rows_examined : ℕ

abbrev pub add_table : Database → Table → Database
add_table db table = record db { tables = db.tables ++ (table ∷ []) }

unfoldable pub allocate_root_leaf : Action ℕ
allocate_root_leaf = do
  page_num ← allocate_page
  _ ← fetch page_num
  write page_num (leaf (record (initialize_leaf_node zero_leaf) { is_root = true }))
  pure page_num

-- The body of the loop of `load_tables`.
unfoldable pub load_table : Database → CatalogEntry → Action Database
load_table db entry s = elim (stored_definition entry.sql) [
  | none ↦ none
  | some definition ↦
      if not (schema_names_equal definition.name entry.name)
      then none
      else if entry.root_page_num == 0 || leb s.num_pages entry.root_page_num
      then none
      else some (
        record (add_table db (table_create entry.root_page_num definition)) {
          next_table_id =
              if leb db.next_table_id entry.id then (entry.id + 1) % u32_mod else db.next_table_id;
        },
        s,
      )
]

unfoldable pub load_entries : Database → List CatalogEntry → Action Database
unfolding load_table
load_entries db [] = pure db
load_entries db (entry ∷ entries) = do loaded ← load_table db entry; load_entries loaded entries

unfoldable pub load_tables : Database → Action Database
unfolding load_entries
load_tables db = do entries ← catalog_load db.catalog; load_entries db entries

abbrev pub new_database : Table → Database
new_database catalog = record {
  catalog = catalog;
  tables = [];
  next_table_id = 1;
  last_rows_examined = 0;
}

-- NEW_CATALOG_ROOT_PAGE_NUM
abbrev pub new_catalog_root_page_num : ℕ
new_catalog_root_page_num = 1

-- `db_open` on a file without pages: the database, and the header page.
unfoldable pub db_create : Action (Database × Bytes)
unfolding allocate_root_leaf
db_create = do
  _ ← fetch 0
  write 0 other
  _ ← allocate_root_leaf
  catalog ← given (catalog_open new_catalog_root_page_num)
  pure (new_database catalog, file_header_initialize new_catalog_root_page_num)

-- `db_open` on a file with pages, of which `header` is the first.
unfoldable pub db_load : (header : Bytes) → Action Database
unfolding load_tables
db_load header s = elim (file_header_validate header s.num_pages) [
  | err e ↦ none
  | ok u ↦
      (do
        catalog ← given (catalog_open (file_header_catalog_root_page header))
        load_tables (new_database catalog))
        (record s { free_head = file_header_free_head header })
]

unfoldable pub db_open : (header : Bytes) → Action (Database × Bytes)
unfolding db_create db_load
db_open header s =
    if s.num_pages == 0 then db_create s else (do db ← db_load header; pure (db, header)) s

-- The header page as `db_close` leaves it, before it flushes the pages.
unfoldable pub closing_header : Store → Bytes → Bytes
closing_header s header = file_header_set_free_head header s.free_head

unfoldable pub database_create_table :
    (configured : ℕ) → Database → TableDefinition → Action Database
unfolding allocate_root_leaf
database_create_table configured db definition = do
  root_page_num ← allocate_root_leaf
  catalog_add configured db.catalog db.next_table_id definition.name root_page_num definition.sql
  pure (record (add_table db (table_create root_page_num definition)) {
    next_table_id = (db.next_table_id + 1) % u32_mod;
  })
