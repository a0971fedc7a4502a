-- ===== src/Btree/Insertion.antt =====
-- Insertion in src/btree.c, from `create_new_root` to `leaf_node_insert`: what spans several pages.
-- `configured` is MINI_SQL_INTERNAL_NODE_MAX_KEYS.
use mini_sql.Base.{ℕ, zero, suc, ◌+◌, ◌-◌, ◌/◌, true, false, ltb, leb, if◌then◌else◌, update}
use mini_sql.Schema.{Schema}
use mini_sql.Btree.{
  Internal, Cell, zero_route, leaf_node_max_cells, internal_node_max_keys, initialize_leaf_node,
  initialize_internal_node, internal_node_find_child, internal_node_child, set_internal_node_key,
}
use mini_sql.Btree.Cells.{shift_right, copy_cells}
use mini_sql.Btree.LeafNode.{insert_with_room, divide_cells}
use mini_sql.Btree.Store.{
  Page, internal, leaf, zero_internal, zero_leaf, Action, quit, ◌>>=◌, ◌>>◌, given, write, fetch,
  internal_at, leaf_at, with_root, set_parent, allocate_page, rounds, get_node_max_key,
  reparent_children, reparent_if_internal,
}

-- The root page as `create_new_root` leaves it, with `left` and `right` below.
unfoldable pub new_root : (left right left_max : ℕ) → Internal
new_root left right left_max = record (initialize_internal_node zero_internal) {
  is_root = true;
  num_keys = 1;
  right_child = right;
  cells = update (λ i. zero_route) 0 (record { child = left; key = left_max });
}

unfoldable pub create_new_root : (root_page_num right_child_page_num : ℕ) → Action (Unit {0})
unfolding new_root
create_new_root root right = do
  root_page ← fetch root
  _ ← fetch right
  left ← allocate_page
  left_child ← given (with_root false root_page)
  write left left_child
  reparent_if_internal left_child left
  left_max ← get_node_max_key left_child
  write root (internal (new_root left right left_max))
  set_parent left root
  set_parent right root

unfoldable pub update_internal_node_key : Internal → (old_key new_key : ℕ) → Internal
update_internal_node_key node old_key new_key =
    let index = internal_node_find_child node old_key in
    if ltb index node.num_keys then set_internal_node_key node index new_key else node

-- `internal_node_insert` on a node with room: the child goes behind the right child, or into a gap
-- at `index`.
unfoldable pub insert_child : Internal → (index child child_max right_max : ℕ) → Internal
insert_child parent index child child_max right_max =
    if ltb right_max child_max
    then record parent {
      num_keys = parent.num_keys + 1;
      cells =
          update parent.cells parent.num_keys
            (record { child = parent.right_child; key = right_max });
      right_child = child;
    }
    else record parent {
      num_keys = parent.num_keys + 1;
      cells =
          update (shift_right parent.cells index parent.num_keys) index
            (record { child = child; key = child_max });
    }

-- The two nodes that a full internal node is divided into, without the new child.
unfoldable pub divide_children : Internal → (middle_child : ℕ) → Internal × Internal
divide_children old_node middle_child =
    let split_index = old_node.num_keys / 2 in
    let moved_keys = old_node.num_keys - split_index - 1 in
    (
      record old_node { right_child = middle_child; num_keys = split_index },
      record (initialize_internal_node zero_internal) {
        parent = old_node.parent;
        cells = copy_cells (λ i. zero_route) 0 old_node.cells (split_index + 1) moved_keys;
        num_keys = moved_keys;
        right_child = old_node.right_child;
      },
    )

-- What both splits end with, once the node on `page_num` and the new one behind it are in place: a
-- new root above the two, or the new node inserted into the parent by `insert`.
unfoldable pub attach_sibling :
    (insert : ℕ → ℕ → Action (Unit {0}))
    → (page_num new_page_num old_max : ℕ) → Page
    → Action (Unit {0})
unfolding create_new_root update_internal_node_key
attach_sibling insert page_num new_page_num old_max (internal node) =
    if node.is_root then create_new_root page_num new_page_num else do
      new_max ← get_node_max_key (internal node)
      parent ← internal_at node.parent
      write node.parent (internal (update_internal_node_key parent old_max new_max))
      insert node.parent new_page_num
attach_sibling insert page_num new_page_num old_max (leaf node) =
    if node.is_root then create_new_root page_num new_page_num else do
      new_max ← get_node_max_key (leaf node)
      parent ← internal_at node.parent
      write node.parent (internal (update_internal_node_key parent old_max new_max))
      insert node.parent new_page_num
attach_sibling insert page_num new_page_num old_max page = quit

-- `internal_node_split_and_insert`, with `internal_node_insert` as `insert`.
unfoldable pub internal_node_split_and_insert :
    (insert : ℕ → ℕ → Action (Unit {0})) → (page_num child_page_num : ℕ) → Action (Unit {0})
unfolding divide_children attach_sibling
internal_node_split_and_insert insert page_num child_page_num = do
  old_node ← internal_at page_num
  old_max ← get_node_max_key (internal old_node)
  child ← fetch child_page_num
  child_max ← get_node_max_key child
  new_page_num ← allocate_page
  _ ← fetch new_page_num
  middle_child ← given (internal_node_child old_node (old_node.num_keys / 2))
  let halves = divide_children old_node middle_child
  write new_page_num (internal halves.1)
  reparent_children halves.1 new_page_num
  write page_num (internal halves.0)
  left_max ← get_node_max_key (internal halves.0)
  insert (if ltb child_max left_max then page_num else new_page_num) child_page_num
  now ← fetch page_num
  attach_sibling insert page_num new_page_num old_max now

module _ (configured : ℕ) where
  -- `internal_node_insert`. Each split climbs to the parent, so the fuel bounds the tree's height.
  unfoldable pub internal_node_insert :
      (fuel parent_page_num child_page_num : ℕ) → Action (Unit {0})
  unfolding insert_child internal_node_split_and_insert
  internal_node_insert zero parent_page_num child_page_num = quit
  internal_node_insert (suc fuel) parent_page_num child_page_num = do
    parent ← internal_at parent_page_num
    child ← fetch child_page_num
    child_max ← get_node_max_key child
    if leb (internal_node_max_keys configured) parent.num_keys
        then internal_node_split_and_insert (internal_node_insert fuel) parent_page_num
            child_page_num
        else (do
          right_child ← fetch parent.right_child
          right_max ← get_node_max_key right_child
          write parent_page_num (
              internal (
                insert_child parent (internal_node_find_child parent child_max) child_page_num
                  child_max right_max))
          set_parent child_page_num parent_page_num)

  -- `insert` with the fuel that the number of pages gives.
  abbrev pub insert_above : ℕ → ℕ → Action (Unit {0})
  insert_above parent_page_num child_page_num s =
      internal_node_insert (rounds s) parent_page_num child_page_num s

  module _ (schema : Schema) where
    unfoldable pub leaf_node_split_and_insert : (page_num cell_num : ℕ) → Cell → Action (Unit {0})
    unfolding attach_sibling
    leaf_node_split_and_insert page_num cell_num cell = do
      old_node ← leaf_at page_num
      old_max ← get_node_max_key (leaf old_node)
      new_page_num ← allocate_page
      _ ← fetch new_page_num
      let new_node = record (initialize_leaf_node zero_leaf) {
        parent = old_node.parent;
        next_leaf = old_node.next_leaf;
      }
      let halves =
          divide_cells (leaf_node_max_cells schema) (record old_node { next_leaf = new_page_num })
            new_node cell_num cell
      write page_num (leaf halves.0)
      write new_page_num (leaf halves.1)
      attach_sibling insert_above page_num new_page_num old_max (leaf halves.0)

    unfoldable pub leaf_node_insert : (page_num cell_num : ℕ) → Cell → Action (Unit {0})
    unfolding leaf_node_split_and_insert
    leaf_node_insert page_num cell_num cell = do
      node ← leaf_at page_num
      if leb (leaf_node_max_cells schema) node.num_cells
          then leaf_node_split_and_insert page_num cell_num cell
          else write page_num (leaf (insert_with_room node cell_num cell))
