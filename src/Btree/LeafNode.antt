-- ===== src/Btree/LeafNode.antt =====
-- The operations of src/btree.c within one leaf, or between two: insertion into a leaf with room,
-- the division of the cells by a split, removal, and the merge and borrowing of a rebalance.
pub mod Order
pub mod Lookup
pub mod Refine
pub mod Delete
pub mod Split
pub mod Rebalance
use mini_sql.Base.{
  ℕ, zero, suc, ◌+◌, ◌-◌, ◌/◌, Bool, true, false, ◌&&◌, Option, none, some, ltb, leb, ◌==◌,
  if◌then◌else◌, update,
}
use mini_sql.Base.Bytes.{Bytes}
use mini_sql.Btree.{Cell, Leaf, zero_cell, leaf_node_find_cell}
use mini_sql.Btree.Cells.{shift_right, shift_left, copy_cells}

-- `leaf_node_insert` on a leaf with room for one more cell.
unfoldable pub insert_with_room : Leaf → ℕ → Cell → Leaf
insert_with_room node cell_num cell =
    let shifted =
      if ltb cell_num node.num_cells
      then shift_right node.cells cell_num node.num_cells
      else node.cells in
    record node { num_cells = node.num_cells + 1; cells = update shifted cell_num cell }

unfoldable pub leaf_node_insert_cell : Leaf → ℕ → Cell → Leaf
leaf_node_insert_cell node cell_num cell = record node {
  cells = update (shift_right node.cells cell_num node.num_cells) cell_num cell;
  num_cells = node.num_cells + 1;
}

unfoldable pub leaf_node_remove_cell : Leaf → ℕ → Leaf
leaf_node_remove_cell node cell_num = record node {
  cells =
      update (shift_left node.cells cell_num (node.num_cells - 1 - cell_num)) (node.num_cells - 1)
        zero_cell;
  num_cells = node.num_cells - 1;
}

-- The arrays of the two nodes that a split works on.
pub record Halves : Type 0 where
  pub old : ℕ → Cell
  pub new : ℕ → Cell

-- One round of the split's loop, for logical position `i`.
unfoldable pub place_cell : (left_split_count cell_num : ℕ) → Cell → ℕ → Halves → Halves
place_cell left_split_count cell_num cell i h =
    if leb left_split_count i
    then record h {
      new =
          update h.new (i - left_split_count)
            (if i == cell_num then cell else if ltb cell_num i then h.old (i - 1) else h.old i);
    }
    else if i == cell_num
    then record h { old = update h.old i cell }
    else if ltb cell_num i
    then record h { old = update h.old i (h.old (i - 1)) }
    else h

-- for(i = total_cells; i-- > 0;)
unfoldable pub place_cells : (left_split_count cell_num : ℕ) → Cell → ℕ → Halves → Halves
unfolding place_cell
place_cells left cell_num cell zero h = h
place_cells left cell_num cell (suc i) h =
    place_cells left cell_num cell i (place_cell left cell_num cell i h)

-- The part of `leaf_node_split_and_insert` that divides the cells of a full leaf and the new cell
-- between the old node and the new one.
unfoldable pub divide_cells : (max_cells : ℕ) → Leaf → Leaf → ℕ → Cell → Leaf × Leaf
unfolding place_cells
divide_cells max_cells old_node new_node cell_num cell =
    let total_cells = max_cells + 1 in
    let right_split_count = total_cells / 2 in
    let left_split_count = total_cells - right_split_count in
    let h =
      place_cells left_split_count cell_num cell total_cells
        (record { old = old_node.cells; new = new_node.cells }) in
    (
      record old_node { cells = h.old; num_cells = left_split_count },
      record new_node { cells = h.new; num_cells = right_split_count },
    )

-- `leaf_node_merge` as far as the left leaf goes: the cells of the right one are appended.
unfoldable pub merge_cells : Leaf → Leaf → Leaf
unfolding copy_cells
merge_cells left right = record left {
  cells = copy_cells left.cells left.num_cells right.cells 0 right.num_cells;
  num_cells = left.num_cells + right.num_cells;
  next_leaf = right.next_leaf;
}

-- `leaf_node_rebalance` moves the left sibling's last cell to the node's front: the node, the
-- sibling and the separator between them.
pub record Borrowed : Type 0 where
  pub node : Leaf
  pub sibling : Leaf
  pub separator : ℕ

unfoldable pub borrow_left : Leaf → Leaf → Borrowed
unfolding leaf_node_insert_cell leaf_node_remove_cell
borrow_left node left =
    let left' = leaf_node_remove_cell left (left.num_cells - 1) in
    record {
      node = leaf_node_insert_cell node 0 (left.cells (left.num_cells - 1));
      sibling = left';
      separator = (left'.cells (left.num_cells - 2)).key;
    }

-- The right sibling's first cell moves to the node's end.
unfoldable pub borrow_right : Leaf → Leaf → Borrowed
unfolding leaf_node_insert_cell leaf_node_remove_cell
borrow_right node right =
    let node' = leaf_node_insert_cell node node.num_cells (right.cells 0) in
    record {
      node = node';
      sibling = leaf_node_remove_cell right 0;
      separator = (node'.cells node.num_cells).key;
    }

-- The row under `key`: the cell that `leaf_node_find_cell` lands on, after the test of its key that
-- `table_insert` and `table_delete` make.
unfoldable pub leaf_lookup : Leaf → ℕ → Option Bytes
leaf_lookup node key =
    let i = leaf_node_find_cell node key in
    if ltb i node.num_cells && ((node.cells i).key == key) then some (node.cells i).value else none
