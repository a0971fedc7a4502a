-- ===== src/Btree/LeafDeletion.antt =====
-- The deletion of src/btree.c that begins at a leaf: removal, and borrowing from or merging with a
-- sibling leaf.
use mini_sql.Base.{ℕ, ◌+◌, ◌-◌, ltb, ◌==◌, if◌then◌else◌}
use mini_sql.Schema.{Schema}
use mini_sql.Btree.{Leaf, Internal, leaf_node_min_cells, internal_node_child, set_internal_node_key}
use mini_sql.Btree.LeafNode.{leaf_node_remove_cell, borrow_left, borrow_right}
use mini_sql.Btree.Store.{
  internal, leaf, Action, pure, ◌>>=◌, ◌>>◌, given, write, internal_at, leaf_at,
}
use mini_sql.Btree.Deletion.{
  child_index_in_parent, lower_ancestor_separator, leaf_node_merge, remove_from_parent,
  after_removal,
}

module _ (configured : ℕ) where
  unfoldable pub leaf_merge_siblings :
      (page_num parent_page_num : ℕ) → Internal → (index : ℕ) → Action (Unit {0})
  unfolding leaf_node_merge remove_from_parent
  leaf_merge_siblings page_num parent_page_num parent index =
      if ltb 0 index
      then (do
        left_page_num ← given (internal_node_child parent (index - 1))
        leaf_node_merge left_page_num page_num
        remove_from_parent (after_removal configured) parent_page_num index)
      else (do
        right_page_num ← given (internal_node_child parent (index + 1))
        leaf_node_merge page_num right_page_num
        remove_from_parent (after_removal configured) parent_page_num (index + 1))

  module _ (schema : Schema) where
    unfoldable pub leaf_borrow_right :
        (page_num parent_page_num : ℕ) → Internal → Leaf → (index : ℕ) → Action (Unit {0})
    unfolding leaf_merge_siblings
    leaf_borrow_right page_num parent_page_num parent node index =
        let merge = leaf_merge_siblings page_num parent_page_num parent index in
        if ltb index parent.num_keys
        then (do
          right_page_num ← given (internal_node_child parent (index + 1))
          right ← leaf_at right_page_num
          let b = borrow_right node right
          if ltb (leaf_node_min_cells schema) right.num_cells
              then (do
                write page_num (leaf b.node)
                write right_page_num (leaf b.sibling)
                write parent_page_num (internal (set_internal_node_key parent index b.separator)))
              else merge)
        else merge

    unfoldable pub leaf_node_rebalance : (page_num : ℕ) → Action (Unit {0})
    unfolding leaf_borrow_right
    leaf_node_rebalance page_num = do
      node ← leaf_at page_num
      let parent_page_num = node.parent
      parent ← internal_at parent_page_num
      index ← given (child_index_in_parent parent page_num)
      let go_on = leaf_borrow_right page_num parent_page_num parent node index
      if ltb 0 index
          then (do
            left_page_num ← given (internal_node_child parent (index - 1))
            left ← leaf_at left_page_num
            let b = borrow_left node left
            if ltb (leaf_node_min_cells schema) left.num_cells
                then (do
                  write page_num (leaf b.node)
                  write left_page_num (leaf b.sibling)
                  write parent_page_num
                      (internal (set_internal_node_key parent (index - 1) b.separator)))
                else go_on)
          else go_on

    unfoldable pub leaf_node_delete : (page_num cell_num : ℕ) → Action (Unit {0})
    unfolding lower_ancestor_separator leaf_node_rebalance
    leaf_node_delete page_num cell_num = do
      node ← leaf_at page_num
      let shorter = leaf_node_remove_cell node cell_num
      write page_num (leaf shorter)
      if shorter.is_root then pure tt else (do
        (if cell_num == node.num_cells - 1
            then lower_ancestor_separator page_num (shorter.cells (node.num_cells - 2)).key
            else pure tt)
        if ltb shorter.num_cells (leaf_node_min_cells schema)
            then leaf_node_rebalance page_num
            else pure tt)
