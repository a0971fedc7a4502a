-- ===== src/Btree/Deletion.antt =====
-- Deletion in src/btree.c: what repairs a node from its siblings, and climbs to the root.
use mini_sql.Base.{
  ℕ, zero, suc, ◌+◌, ◌-◌, true, Option, none, some, ltb, ◌==◌, if◌then◌else◌, update,
}
use mini_sql.Btree.{
  Internal, zero_route, internal_node_min_keys, internal_node_child, set_internal_node_key,
}
use mini_sql.Btree.Cells.{shift_right, shift_left, copy_cells}
use mini_sql.Btree.LeafNode.{merge_cells}
use mini_sql.Btree.Store.{
  internal, leaf, Action, pure, quit, ◌>>=◌, ◌>>◌, given, write, fetch, internal_at, leaf_at,
  page_is_root, page_parent, with_root, with_parent, set_parent, free_page, rounds,
  reparent_if_internal, reparent_from,
}

-- The loop of `child_index_in_parent` over child `i` and the `count` children behind it.
unfoldable pub child_index_from : Internal → ℕ → ℕ → ℕ → Option ℕ
child_index_from parent child_page_num i zero = none
child_index_from parent child_page_num i (suc count) =
    let rest = child_index_from parent child_page_num (suc i) count in
    elim (internal_node_child parent i) [
      | none ↦ none
      | some page ↦ if page == child_page_num then some i else rest
    ]

unfoldable pub child_index_in_parent : Internal → ℕ → Option ℕ
unfolding child_index_from
child_index_in_parent parent child_page_num =
    child_index_from parent child_page_num 0 (suc parent.num_keys)

-- The loop of `lower_ancestor_separator`.
unfoldable pub lower_separator_loop : (fuel page_num new_max : ℕ) → Action (Unit {0})
lower_separator_loop zero page_num new_max = quit
lower_separator_loop (suc fuel) page_num new_max = do
  node ← fetch page_num
  is_root ← given (page_is_root node)
  parent_page_num ← given (page_parent node)
  if is_root then pure tt else (do
    parent ← internal_at parent_page_num
    index ← given (child_index_in_parent parent page_num)
    if ltb index parent.num_keys
        then write parent_page_num (internal (set_internal_node_key parent index new_max))
        else lower_separator_loop fuel parent_page_num new_max)

unfoldable pub lower_ancestor_separator : (page_num new_max : ℕ) → Action (Unit {0})
unfolding lower_separator_loop
lower_ancestor_separator page_num new_max s = lower_separator_loop (rounds s) page_num new_max s

unfoldable pub internal_node_remove_child : Internal → (child_index : ℕ) → Internal
internal_node_remove_child node child_index =
    let last = node.num_keys - 1 in
    if child_index == node.num_keys
    then record node {
      right_child = (node.cells last).child;
      cells = update node.cells last zero_route;
      num_keys = last;
    }
    else let spanning =
        update node.cells (child_index - 1)
          (record (node.cells (child_index - 1)) { key = (node.cells child_index).key }) in
      record node {
        cells = update (shift_left spanning child_index (last - child_index)) last zero_route;
        num_keys = last;
      }

unfoldable pub collapse_root : (root_page_num : ℕ) → Action (Unit {0})
collapse_root root = do
  node ← internal_at root
  child ← fetch node.right_child
  as_root ← given (with_root true child)
  top ← given (with_parent 0 as_root)
  write root top
  reparent_if_internal top root
  free_page node.right_child

unfoldable pub leaf_node_merge : (left_page_num right_page_num : ℕ) → Action (Unit {0})
leaf_node_merge left_page_num right_page_num = do
  left ← leaf_at left_page_num
  right ← leaf_at right_page_num
  write left_page_num (leaf (merge_cells left right))
  free_page right_page_num

-- The left node of an internal merge: its rightmost child becomes a cell, and the right node's
-- cells and rightmost child follow.
unfoldable pub merge_children : Internal → Internal → (separator : ℕ) → Internal
unfolding copy_cells
merge_children left right separator = record left {
  cells =
      copy_cells
        (update left.cells left.num_keys (record { child = left.right_child; key = separator }))
        (left.num_keys + 1) right.cells 0 right.num_keys;
  right_child = right.right_child;
  num_keys = left.num_keys + 1 + right.num_keys;
}

-- The loop over the children that have moved, which it finds in the merged node.
unfoldable pub internal_node_merge :
    (left_page_num right_page_num separator : ℕ) → Action (Unit {0})
unfolding merge_children
internal_node_merge left_page_num right_page_num separator = do
  left ← internal_at left_page_num
  right ← internal_at right_page_num
  let merged = merge_children left right separator
  write left_page_num (internal merged)
  reparent_from merged left_page_num (left.num_keys + 1) (right.num_keys + 1)
  free_page right_page_num

-- An internal node and its sibling after a child has moved between them, the parent's separator, and
-- the child.
pub record Moved : Type 0 where
  pub node : Internal
  pub sibling : Internal
  pub separator : ℕ
  pub child : ℕ

-- The left sibling's rightmost child moves to the node's front.
unfoldable pub move_from_left : Internal → Internal → (separator : ℕ) → Moved
move_from_left node left separator = record {
  node = record node {
    cells =
        update (shift_right node.cells 0 node.num_keys) 0
          (record { child = left.right_child; key = separator });
    num_keys = node.num_keys + 1;
  };
  sibling = record left {
    right_child = (left.cells (left.num_keys - 1)).child;
    cells = update left.cells (left.num_keys - 1) zero_route;
    num_keys = left.num_keys - 1;
  };
  separator = (left.cells (left.num_keys - 1)).key;
  child = left.right_child;
}

-- The right sibling's first child becomes the node's rightmost.
unfoldable pub move_from_right : Internal → Internal → (separator : ℕ) → Moved
move_from_right node right separator = record {
  node = record node {
    cells = update node.cells node.num_keys (record { child = node.right_child; key = separator });
    num_keys = node.num_keys + 1;
    right_child = (right.cells 0).child;
  };
  sibling = record right {
    cells = update (shift_left right.cells 0 (right.num_keys - 1)) (right.num_keys - 1) zero_route;
    num_keys = right.num_keys - 1;
  };
  separator = (right.cells 0).key;
  child = (right.cells 0).child;
}

-- The key of `parent` between child `index` and the next.
abbrev separator_at : Internal → ℕ → ℕ
separator_at parent index = (parent.cells index).key

-- Writing back what `move_from_left` or `move_from_right` gives.
unfoldable pub write_moved :
    Moved
    → (page_num sibling_page_num parent_page_num : ℕ) → Internal
    → (index : ℕ) → Action (Unit {0})
write_moved moved page_num sibling_page_num parent_page_num parent index = do
  write page_num (internal moved.node)
  write sibling_page_num (internal moved.sibling)
  write parent_page_num (internal (set_internal_node_key parent index moved.separator))
  set_parent moved.child page_num

-- The last step of `internal_node_rebalance` and `leaf_node_rebalance`: `merge` two siblings, take the
-- right one out of the parent and go on there.
unfoldable pub remove_from_parent :
    (after : ℕ → Action (Unit {0})) → (parent_page_num index : ℕ) → Action (Unit {0})
unfolding internal_node_remove_child
remove_from_parent after parent_page_num index = do
  parent ← internal_at parent_page_num
  write parent_page_num (internal (internal_node_remove_child parent index))
  after parent_page_num

module _ (configured : ℕ) where
  unfoldable pub internal_merge_siblings :
      (after : ℕ → Action (Unit {0}))
      → (page_num parent_page_num : ℕ) → Internal
      → (index : ℕ) → Action (Unit {0})
  unfolding internal_node_merge remove_from_parent
  internal_merge_siblings after page_num parent_page_num parent index =
      if ltb 0 index
      then (do
        left_page_num ← given (internal_node_child parent (index - 1))
        internal_node_merge left_page_num page_num (separator_at parent (index - 1))
        remove_from_parent after parent_page_num index)
      else (do
        right_page_num ← given (internal_node_child parent (index + 1))
        internal_node_merge page_num right_page_num (separator_at parent index)
        remove_from_parent after parent_page_num (index + 1))

  unfoldable pub internal_borrow_right :
      (after : ℕ → Action (Unit {0}))
      → (page_num parent_page_num : ℕ) → Internal
      → Internal
      → (index : ℕ) → Action (Unit {0})
  unfolding move_from_right write_moved internal_merge_siblings
  internal_borrow_right after page_num parent_page_num parent node index =
      let merge = internal_merge_siblings after page_num parent_page_num parent index in
      if ltb index parent.num_keys
      then (do
        right_page_num ← given (internal_node_child parent (index + 1))
        right ← internal_at right_page_num
        if ltb (internal_node_min_keys configured) right.num_keys
            then write_moved (move_from_right node right (separator_at parent index)) page_num
                right_page_num parent_page_num parent index
            else merge)
      else merge

  -- `internal_node_rebalance`, with `after_child_removed` as `after`.
  unfoldable pub internal_node_rebalance :
      (after : ℕ → Action (Unit {0})) → (page_num : ℕ) → Action (Unit {0})
  unfolding move_from_left internal_borrow_right
  internal_node_rebalance after page_num = do
    node ← internal_at page_num
    let parent_page_num = node.parent
    parent ← internal_at parent_page_num
    index ← given (child_index_in_parent parent page_num)
    let go_on = internal_borrow_right after page_num parent_page_num parent node index
    if ltb 0 index
        then (do
          left_page_num ← given (internal_node_child parent (index - 1))
          left ← internal_at left_page_num
          if ltb (internal_node_min_keys configured) left.num_keys
              then write_moved (move_from_left node left (separator_at parent (index - 1))) page_num
                  left_page_num parent_page_num parent (index - 1)
              else go_on)
        else go_on

  -- Each repair climbs to the parent, so the fuel bounds the tree's height.
  unfoldable pub after_child_removed : (fuel page_num : ℕ) → Action (Unit {0})
  unfolding collapse_root internal_node_rebalance
  after_child_removed zero page_num = quit
  after_child_removed (suc fuel) page_num = do
    node ← internal_at page_num
    if node.is_root
        then (if node.num_keys == 0 then collapse_root page_num else pure tt)
        else if ltb node.num_keys (internal_node_min_keys configured)
        then internal_node_rebalance (after_child_removed fuel) page_num
        else pure tt

  abbrev pub after_removal : ℕ → Action (Unit {0})
  after_removal page_num s = after_child_removed (rounds s) page_num s
