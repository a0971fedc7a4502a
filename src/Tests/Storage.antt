-- ===== src/Tests/Storage.antt =====
-- The b-tree's nodes: theorems at concrete leaves, and runs.
use mini_sql.Base.{
  ℕ, ◌+◌, ◌*◌, ◌≡◌, ◌≢◌, ◌≤◌, ◌↔◌, ◌%◌, refl, arith, true, false, none, some, [], ◌∷◌, ltb, ◌==◌,
  if◌then◌else◌, ◌-◌,
}
use mini_sql.Schema.{Schema}
use mini_sql.Pager.{page_size}
use mini_sql.Btree.{
  Cell, Leaf, Internal, leaf_node_find_cell, internal_node_find_child, internal_node_child,
  leaf_node_max_row_size, leaf_node_max_cells, leaf_node_cell, header_size,
}
use mini_sql.Btree.Cells.{shift_right}
use mini_sql.Btree.Layout.{max_row_size_iff, leaf_cells-disjoint}
use mini_sql.Btree.Search.{Splits, leaf_keys, internal_keys, find_cell-Splits, find_child-Splits}
use mini_sql.Btree.LeafNode.{
  insert_with_room, leaf_node_remove_cell, divide_cells, merge_cells, borrow_left, borrow_right,
  leaf_lookup,
}
use mini_sql.Btree.LeafNode.Lookup.{IsSorted, Absent}
use mini_sql.Btree.LeafNode.Refine.{insert_with_room-Refines}
use mini_sql.Btree.LeafNode.Delete.{leaf_node_remove_cell-Refines}
use mini_sql.Btree.LeafNode.Split.{divide_cells-Refines}
use mini_sql.Btree.LeafNode.Rebalance.{
  AreNeighbours, pair_lookup, last_key, merge_cells-Refines, borrow_left-Refines,
  borrow_right-Refines,
}

-- A leaf with keys first, first + 10, first + 20, ...
abbrev tens : ℕ → ℕ → Leaf
tens first n = record {
  is_root = false;
  parent = 1;
  num_cells = n;
  next_leaf = 0;
  cells = λ i. record { key = first + 10 * i; value = i ∷ [] };
}

abbrev new_cell : Cell
new_cell = record { key = 17; value = 99 ∷ [] }

tens-IsSorted : IsSorted (tens 5 3)
tens-IsSorted = record { ascends = λ i j l h. omega arith; small = omega arith }

tens-Absent : Absent (tens 5 3) 17
tens-Absent i h e = omega arith

find_cell-Splits_example : Splits (leaf_keys (tens 5 3)) 3 17 (leaf_node_find_cell (tens 5 3) 17)
find_cell-Splits_example = find_cell-Splits (tens 5 3) 17 (λ i j l h. omega arith) (omega arith)

found_at_two : leaf_node_find_cell (tens 5 3) 17 ≡ 2
unfolding leaf_node_find_cell
found_at_two = refl

abbrev routes : Internal
routes = record {
  is_root = true;
  parent = 0;
  num_keys = 4;
  right_child = 9;
  cells = λ i. record { child = i + 3; key = 100 * i + 50 };
}

find_child-Splits_example :
    Splits (internal_keys routes) 4 250 (internal_node_find_child routes 250)
    × (internal_node_child routes (internal_node_find_child routes 250) ≢ none)
find_child-Splits_example = find_child-Splits routes 250 (λ i j l h. omega arith) (omega arith)

-- A key equal to a separator goes left.
child_of_separator : internal_node_find_child routes 250 ≡ 2
unfolding internal_node_find_child
child_of_separator = refl

insert_with_room-Refines_example :
    let node' = insert_with_room (tens 5 3) (leaf_node_find_cell (tens 5 3) 17) new_cell in
    IsSorted node'
    × (node'.num_cells ≡ 4)
    × (leaf_lookup node' 17 ≡ (if 17 == 17 then some (99 ∷ []) else leaf_lookup (tens 5 3) 17))
insert_with_room-Refines_example =
    insert_with_room-Refines (tens 5 3) new_cell 17 tens-IsSorted tens-Absent (omega arith)

inserted_row :
    leaf_lookup (insert_with_room (tens 5 3) (leaf_node_find_cell (tens 5 3) 17) new_cell) 17
    ≡ some (99 ∷ [])
unfolding leaf_lookup insert_with_room leaf_node_find_cell shift_right
inserted_row = refl

leaf_node_remove_cell-Refines_example :
    IsSorted (leaf_node_remove_cell (tens 5 3) 1)
    × ((leaf_node_remove_cell (tens 5 3) 1).num_cells ≡ 3 - 1)
    × (leaf_lookup (leaf_node_remove_cell (tens 5 3) 1) 25
        ≡ (if 25 == 5 + 10 * 1 then none else leaf_lookup (tens 5 3) 25))
leaf_node_remove_cell-Refines_example =
    leaf_node_remove_cell-Refines (tens 5 3) 1 25 tens-IsSorted (omega arith)

divide_cells-Refines_example :
    let (left, right) =
      divide_cells 3 (tens 5 3) (tens 0 0) (leaf_node_find_cell (tens 5 3) 17) new_cell in
    IsSorted left
    × IsSorted right
    × ((if ltb (left.cells (left.num_cells - 1)).key 17
          then leaf_lookup right 17
          else leaf_lookup left 17)
        ≡ (if 17 == 17 then some (99 ∷ []) else leaf_lookup (tens 5 3) 17))
divide_cells-Refines_example =
    divide_cells-Refines 3 (tens 5 3) (tens 0 0) new_cell 17 tens-IsSorted refl (omega arith)
      tens-Absent

neighbours : AreNeighbours (tens 5 3) (tens 100 2)
neighbours = record {
  left_sorted = tens-IsSorted;
  right_sorted = record { ascends = λ i j l h. omega arith; small = omega arith };
  ordered = λ i j h b. omega arith;
  small = omega arith;
}

merge_cells-Refines_example :
    IsSorted (merge_cells (tens 5 3) (tens 100 2))
    × ((merge_cells (tens 5 3) (tens 100 2)).num_cells ≡ 3 + 2)
    × ((merge_cells (tens 5 3) (tens 100 2)).next_leaf ≡ 0)
    × (leaf_lookup (merge_cells (tens 5 3) (tens 100 2)) 110
        ≡ pair_lookup (tens 5 3) (tens 100 2) (last_key (tens 5 3)) 110)
merge_cells-Refines_example =
    merge_cells-Refines (tens 5 3) (tens 100 2) neighbours 110 (omega arith)

borrow_left-Refines_example :
    let b = borrow_left (tens 100 2) (tens 5 3) in
    AreNeighbours b.sibling b.node
    × (b.sibling.num_cells ≡ 3 - 1)
    × (b.node.num_cells ≡ 2 + 1)
    × (b.separator ≡ last_key b.sibling)
    × (pair_lookup b.sibling b.node b.separator 25
        ≡ pair_lookup (tens 5 3) (tens 100 2) (last_key (tens 5 3)) 25)
borrow_left-Refines_example =
    borrow_left-Refines (tens 5 3) (tens 100 2) 25 neighbours (omega arith)

borrow_right-Refines_example :
    let b = borrow_right (tens 5 3) (tens 100 2) in
    AreNeighbours b.node b.sibling
    × (b.node.num_cells ≡ 3 + 1)
    × (b.sibling.num_cells ≡ 2 - 1)
    × (b.separator ≡ last_key b.node)
    × (pair_lookup b.node b.sibling b.separator 100
        ≡ pair_lookup (tens 5 3) (tens 100 2) (last_key (tens 5 3)) 100)
borrow_right-Refines_example =
    borrow_right-Refines (tens 5 3) (tens 100 2) 100 neighbours (omega arith) (omega arith)

-- A row of 291 bytes, as users(id INT, username TEXT(32), email TEXT(255)) has.
abbrev users : Schema
users = record { version = 1; next_column_id = 4; num_columns = 3; columns = []; row_size = 291 }

max_row_size_iff_example : (291 ≤ leaf_node_max_row_size 3) ↔ (3 ≤ leaf_node_max_cells users)
max_row_size_iff_example = max_row_size_iff users 3 (omega arith) (omega arith) (omega arith)

leaf_cells-disjoint_example :
    (header_size ≤ leaf_node_cell 2 users)
    × (leaf_node_cell 2 users + 4 + 291 ≤ leaf_node_cell 12 users)
    × (leaf_node_cell 12 users + 4 + 291 ≤ page_size)
    × (leaf_node_cell 2 users % 4 ≡ 0)
    × (leaf_node_cell 12 users % 4 ≡ 0)
leaf_cells-disjoint_example =
    leaf_cells-disjoint users 2 12 (omega arith) (omega arith)
      (unfold leaf_node_max_cells in omega arith)
