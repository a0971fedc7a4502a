-- ===== src/Btree.antt =====
-- src/btree.c and include/btree.h: b-tree nodes and the operations within one node. A page's bytes
-- are read as a record of its fields; the cells of a node are an array from the cell number. The
-- children below hold the operations on leaves, and theorems.
pub mod Layout
pub mod Search
pub mod Cells
pub mod LeafNode
pub mod Store
pub mod Insertion
pub mod Deletion
pub mod LeafDeletion
pub mod Tree
pub mod Replace
pub mod RootSplit
use mini_sql.Base.{
  ℕ, zero, suc, ◌+◌, ◌-◌, ◌*◌, ◌/◌, ◌%◌, Bool, true, false, Option, none, some, List, [], ◌∷◌, ltb,
  leb, ◌==◌, if◌then◌else◌, update,
}
use mini_sql.Base.Bytes.{Bytes}
use mini_sql.Pager.{page_size}
use mini_sql.Schema.{Schema, u32_mod}

-- LEAF_NODE_HEADER_SIZE and INTERNAL_NODE_HEADER_SIZE.
abbrev pub header_size : ℕ
header_size = 16

abbrev pub internal_node_cell_size : ℕ
internal_node_cell_size = 8

-- INTERNAL_NODE_LAYOUT_MAX_KEYS.
abbrev pub layout_max_keys : ℕ
layout_max_keys = (page_size - header_size) / internal_node_cell_size

-- `(raw + 3u) & ~3u` clears the two low bits.
unfoldable pub leaf_node_cell_size : Schema → ℕ
leaf_node_cell_size schema = ((4 + schema.row_size) % u32_mod + 3) % u32_mod / 4 * 4

unfoldable pub leaf_node_max_cells : Schema → ℕ
unfolding leaf_node_cell_size
leaf_node_max_cells schema = (page_size - header_size) / leaf_node_cell_size schema

unfoldable pub leaf_node_max_row_size : ℕ → ℕ
leaf_node_max_row_size min_cells =
    ((page_size - header_size) / min_cells / 4 * 4 + (u32_mod - 4)) % u32_mod

-- The byte offset of cell `cell_num` in its page.
unfoldable pub leaf_node_cell : ℕ → Schema → ℕ
unfolding leaf_node_cell_size
leaf_node_cell cell_num schema =
    (header_size + cell_num * leaf_node_cell_size schema % u32_mod) % u32_mod

unfoldable pub internal_node_cell : ℕ → ℕ
internal_node_cell cell_num = (header_size + cell_num * internal_node_cell_size % u32_mod) % u32_mod

-- `configured` is MINI_SQL_INTERNAL_NODE_MAX_KEYS, which a build chooses and which is at least 3.
unfoldable pub internal_node_max_keys : ℕ → ℕ
internal_node_max_keys configured =
    if ltb configured layout_max_keys then configured else layout_max_keys

unfoldable pub internal_node_min_keys : ℕ → ℕ
unfolding internal_node_max_keys
internal_node_min_keys configured = (internal_node_max_keys configured + 1) / 2 - 1

unfoldable pub leaf_node_min_cells : Schema → ℕ
unfolding leaf_node_max_cells
leaf_node_min_cells schema = (leaf_node_max_cells schema + 1) / 2

-- A leaf's cell: the key and the serialized row.
pub record Cell : Type 0 where
  pub key : ℕ
  pub value : Bytes

pub record Leaf : Type 0 where
  pub is_root : Bool
  pub parent : ℕ
  pub num_cells : ℕ
  pub next_leaf : ℕ
  pub cells : ℕ → Cell

-- An internal node's cell: a child's page and the largest key under that child.
pub record Route : Type 0 where
  pub child : ℕ
  pub key : ℕ

pub record Internal : Type 0 where
  pub is_root : Bool
  pub parent : ℕ
  pub num_keys : ℕ
  pub right_child : ℕ
  pub cells : ℕ → Route

-- A cell of zero bytes.
abbrev pub zero_cell : Cell
zero_cell = record { key = 0; value = [] }

abbrev pub zero_route : Route
zero_route = record { child = 0; key = 0 }

-- UINT32_MAX.
abbrev pub invalid_page_num : ℕ
invalid_page_num = 4294967295

unfoldable pub initialize_leaf_node : Leaf → Leaf
initialize_leaf_node node = record node {
  is_root = false;
  parent = 0;
  num_cells = 0;
  next_leaf = 0;
}

unfoldable pub initialize_internal_node : Internal → Internal
initialize_internal_node node = record node {
  is_root = false;
  parent = 0;
  num_keys = 0;
  right_child = invalid_page_num;
}

-- `(min_index + max_index) / 2` on `uint32_t`.
abbrev pub midpoint : ℕ → ℕ → ℕ
midpoint a b = (a + b) % u32_mod / 2

-- The loop of `leaf_node_find_cell` over the cells' keys. Each round shrinks the range, so `suc n`
-- rounds are enough for `n` cells, and the value at no fuel is never used.
unfoldable pub find_cell_loop : ℕ → (ℕ → ℕ) → ℕ → ℕ → ℕ → ℕ
find_cell_loop zero keys key min_index one_past_max_index = min_index
find_cell_loop (suc fuel) keys key min_index one_past_max_index =
    let index = midpoint min_index one_past_max_index in
    let lower = find_cell_loop fuel keys key min_index index in
    let upper = find_cell_loop fuel keys key (index + 1) one_past_max_index in
    if one_past_max_index == min_index
    then min_index
    else if key == keys index
    then index
    else if ltb key (keys index)
    then lower
    else upper

unfoldable pub leaf_node_find_cell : Leaf → ℕ → ℕ
unfolding find_cell_loop
leaf_node_find_cell node key =
    find_cell_loop (suc node.num_cells) (λ i. (node.cells i).key) key 0 node.num_cells

-- The loop of `internal_node_find_child`, likewise.
unfoldable pub find_child_loop : ℕ → (ℕ → ℕ) → ℕ → ℕ → ℕ → ℕ
find_child_loop zero keys key min_index max_index = min_index
find_child_loop (suc fuel) keys key min_index max_index =
    let index = midpoint min_index max_index in
    let lower = find_child_loop fuel keys key min_index index in
    let upper = find_child_loop fuel keys key (index + 1) max_index in
    if min_index == max_index then min_index else if leb key (keys index) then lower else upper

unfoldable pub internal_node_find_child : Internal → ℕ → ℕ
unfolding find_child_loop
internal_node_find_child node key =
    find_child_loop (suc node.num_keys) (λ i. (node.cells i).key) key 0 node.num_keys

-- `none` is the exit on an index past `num_keys`.
unfoldable pub internal_node_child : Internal → ℕ → Option ℕ
internal_node_child node child_num =
    if ltb node.num_keys child_num
    then none
    else if child_num == node.num_keys
    then some node.right_child
    else some (node.cells child_num).child

-- `*internal_node_child(node, child_num) = page_num`, for a `child_num` within bounds.
unfoldable pub set_internal_node_child : Internal → ℕ → ℕ → Internal
set_internal_node_child node child_num page_num =
    if child_num == node.num_keys then record node { right_child = page_num } else record node {
      cells = update node.cells child_num (record (node.cells child_num) { child = page_num });
    }

unfoldable pub set_internal_node_key : Internal → ℕ → ℕ → Internal
set_internal_node_key node key_num key = record node {
  cells = update node.cells key_num (record (node.cells key_num) { key = key });
}
