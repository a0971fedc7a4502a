-- ===== src/Table.antt =====
-- src/table.c and include/table.h: rows in a table, by key. The `pager` that every table borrows is
-- the store on which an action works.
pub mod Contents
pub mod Rewrite
pub mod Locate
pub mod Rows
pub mod Removal
pub mod Parts
pub mod Split
pub mod Shape
pub mod RootLeaf
use mini_sql.Base.{ℕ, Bool, true, false, Option, none, some, ltb, ◌==◌, ◌&&◌, if◌then◌else◌}
use mini_sql.Base.Bytes.{Bytes}
use mini_sql.Schema.{Schema}
use mini_sql.Record.{Record, record_get_int, serialize_record, to_u32}
use mini_sql.Btree.{Leaf, Cell}
use mini_sql.Btree.Store.{Store, Action, pure, quit, ◌>>=◌, ◌>>◌, leaf_at}
use mini_sql.Btree.Insertion.{leaf_node_insert}
use mini_sql.Btree.LeafDeletion.{leaf_node_delete}
use mini_sql.TableDefinition.{TableDefinition}
use mini_sql.Cursor.{Cursor, table_find}

pub record Table : Type 0 where
  pub name : Bytes
  pub schema : Schema
  pub key_column_id : ℕ
  pub root_page_num : ℕ
  pub sql : Bytes

unfoldable pub table_create : (root_page_num : ℕ) → TableDefinition → Table
table_create root_page_num definition = record {
  name = definition.name;
  schema = definition.schema;
  key_column_id = definition.key_column_id;
  root_page_num = root_page_num;
  sql = definition.sql;
}

-- Whether the cursor's cell exists and holds the key.
abbrev pub is_at : Leaf → ℕ → ℕ → Bool
is_at node cell_num key = ltb cell_num node.num_cells && ((node.cells cell_num).key == key)

module _ (configured : ℕ) where
  -- `table_insert`: false where the key is taken.
  unfoldable pub table_insert : Table → Record → Action Bool
  table_insert table r = do
    let key = to_u32 (record_get_int r table.schema table.key_column_id)
    cursor ← table_find table.root_page_num key
    node ← leaf_at cursor.page_num
    if is_at node cursor.cell_num key then pure false else (do
      leaf_node_insert configured table.schema cursor.page_num cursor.cell_num
          (record { key = key; value = serialize_record r })
      pure true)

  -- `table_delete`: whether the key was there.
  unfoldable pub table_delete : Table → (key : ℕ) → Action Bool
  table_delete table key = do
    cursor ← table_find table.root_page_num key
    node ← leaf_at cursor.page_num
    if is_at node cursor.cell_num key
        then (do
          leaf_node_delete configured table.schema cursor.page_num cursor.cell_num
          pure true)
        else pure false
