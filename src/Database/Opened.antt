-- ===== src/Database/Opened.antt =====
-- Opening a file that has no pages yet.
use mini_sql.Base.{ℕ, true, ◌≡◌, some, [], refl, arith, update}
use mini_sql.Base.Bytes.{Bytes}
use mini_sql.Base.Result.{ok}
use mini_sql.FileHeader.{
  file_header_validate, file_header_catalog_root_page, file_header_free_head,
  file_header_initialize, header_magic, file_header_set_free_head,
}
use mini_sql.Expression.{memcmp}
use mini_sql.Record.{overwrite, bytes_u32, u32_bytes}
use mini_sql.Pager.{zero_page}
use mini_sql.Btree.Store.{
  Store, Page, leaf, internal, other, zero_internal, zero_leaf, fetch, allocate_page, ◌>>=◌,
}
use mini_sql.Table.Contents.{IsTable, empty, HoldsRow, empty_row}
use mini_sql.Btree.{Leaf, leaf_node_find_cell, initialize_leaf_node}
use mini_sql.Catalog.Definition.{catalog_definition, catalog_open_lem}
use mini_sql.Table.{table_create}
use mini_sql.Catalog.{catalog_load}
use mini_sql.Cursor.{table_start}
use mini_sql.Database.{
  new_database, new_catalog_root_page_num, Database, db_open, closing_header, load_tables,
}

abbrev root_leaf : Leaf
root_leaf = record zero_leaf { is_root = true }

-- The pages of a new file: the header's, and the catalog's root.
abbrev pub new_store : (ℕ → Page) → Store
new_store pages = record {
  num_pages = 2;
  pages =
      update
        (update (update (update pages 0 (internal zero_internal)) 0 other) 1
          (internal zero_internal))
        1 (leaf root_leaf);
  free_head = 0;
}

catalog_load-empty :
    (pages : ℕ → Page)
    → catalog_load (table_create 1 catalog_definition) (new_store pages)
      ≡ some ([], new_store pages)
unfolding catalog_load table_start fetch table_create leaf_node_find_cell
catalog_load-empty pages = refl

-- The header of a new file as closing leaves it.
abbrev closed_header : (ℕ → Page) → Bytes
closed_header pages =
    closing_header (new_store pages) (file_header_initialize new_catalog_root_page_num)

closed-accepted : (pages : ℕ → Page) → file_header_validate (closed_header pages) 2 ≡ ok tt
unfolding file_header_validate file_header_initialize header_magic zero_page closing_header
    file_header_set_free_head memcmp overwrite bytes_u32 u32_bytes
closed-accepted pages = refl

closed-root : (pages : ℕ → Page) → file_header_catalog_root_page (closed_header pages) ≡ 1
unfolding file_header_initialize header_magic zero_page closing_header file_header_set_free_head
    file_header_catalog_root_page overwrite bytes_u32 u32_bytes
closed-root pages = refl

closed-free : (pages : ℕ → Page) → file_header_free_head (closed_header pages) ≡ 0
unfolding file_header_initialize header_magic zero_page closing_header file_header_set_free_head
    file_header_free_head overwrite bytes_u32 u32_bytes
closed-free pages = refl

reopened :
    (pages : ℕ → Page)
    → db_open (closed_header pages) (new_store pages)
      ≡ some (
        (
          new_database (table_create new_catalog_root_page_num catalog_definition),
          closed_header pages,
        ),
        new_store pages,
      )
unfolding db_open load_tables
reopened pages =
    rw
      (
        ◌>>=◌,
        closed-accepted pages,
        closed-root pages,
        closed-free pages,
        catalog_open_lem 1,
        catalog_load-empty pages,
      )
      refl

-- Opening a file without pages gives a database that has no tables, whose catalog is a table
-- without rows. Its header passes the validation of the next opening, both as it is and with the
-- free list's head set as closing sets it; the latter names the catalog's root and no free page, 0;
-- and opening the pages with that header gives the same database, and leaves the pages unchanged.
pub db_open-empty :
    (pages : ℕ → Page) (header : Bytes)
    → (db : Database) × (header' : Bytes) × (s : Store) × (db_open header
          (record { num_pages = 0; pages = pages; free_head = 0 })
        ≡ some ((db, header'), s))
      × (db.tables ≡ [])
      × IsTable s db.catalog.root_page_num
      × ((key : ℕ) (row : Bytes) → ¬ HoldsRow s db.catalog.root_page_num key row)
      × (file_header_validate header' s.num_pages ≡ ok tt)
      × (file_header_validate (closing_header s header') s.num_pages ≡ ok tt)
      × (file_header_catalog_root_page (closing_header s header') ≡ db.catalog.root_page_num)
      × (file_header_free_head (closing_header s header') ≡ 0)
      × (db_open (closing_header s header') s ≡ some ((db, closing_header s header'), s))
unfolding db_open fetch allocate_page file_header_validate file_header_initialize header_magic
    zero_page closing_header file_header_set_free_head file_header_catalog_root_page
    file_header_free_head memcmp table_create overwrite bytes_u32 u32_bytes initialize_leaf_node
db_open-empty pages header = (
  new_database (table_create new_catalog_root_page_num catalog_definition),
  file_header_initialize new_catalog_root_page_num,
  new_store pages,
  rw (catalog_open_lem 1) refl,
  refl,
  empty root_leaf refl (omega arith) refl,
  λ key row h. empty_row root_leaf refl refl h.1,
  refl,
  closed-accepted pages,
  closed-root pages,
  closed-free pages,
  reopened pages,
)
