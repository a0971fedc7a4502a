-- ===== src/Tests/Splits.antt =====
-- A table of one full leaf that an insertion splits.
use mini_sql.Base.{ℕ, ◌≡◌, ◌<◌, ◌↔◌, ◌⊎◌, refl, arith, true, some, update, ap}
use mini_sql.Base.Bytes.{Bytes}
use mini_sql.Schema.{u32_mod, schema_find_column_by_id}
use mini_sql.Record.{serialize_record, record_get_int, to_u32}
use mini_sql.Btree.{Cell, Leaf, zero_cell, leaf_node_max_cells}
use mini_sql.Btree.Store.{Store, leaf, other}
use mini_sql.Btree.Tree.{IsTree, leaf_tree}
use mini_sql.Table.{table_insert}
use mini_sql.Table.Contents.{IsTable, grown, HoldsRow, Holds-height, cell_of}
use mini_sql.Table.Rows.{key_of}
use mini_sql.Table.Shape.{TwoLeaves}
use mini_sql.Table.RootLeaf.{table_insert-split}
use mini_sql.Tests.Trees.{cell, id_row, wide_table}

abbrev full_leaf : Leaf
full_leaf = record {
  is_root = true;
  parent = 0;
  num_cells = 3;
  next_leaf = 0;
  cells = update (update (update (λ i. zero_cell) 0 (cell 2)) 1 (cell 5)) 2 (cell 7);
}

abbrev one_leaf : Store
one_leaf = record { num_pages = 2; pages = update (λ n. other) 1 (leaf full_leaf); free_head = 0 }

one_leaf-IsTree : IsTree one_leaf 0 1 0 u32_mod
one_leaf-IsTree = leaf_tree (record {
  node = full_leaf;
  at = refl;
  exists = omega arith;
  sorted = record { ascends = λ i j l h. ground arith; small = omega arith };
  keys = λ i h. ground arith;
  filled = omega arith;
})

eight : key_of wide_table (id_row 8) ≡ 8
unfolding to_u32 record_get_int schema_find_column_by_id
eight = refl

other_keys : (i : ℕ) → i < 3 → (full_leaf.cells i).key < 8
other_keys i h = ground arith

no_eight : (row : Bytes) → ¬ HoldsRow one_leaf 1 (key_of wide_table (id_row 8)) row
no_eight row held =
    let (i, (b, e)) = cell_of full_leaf refl (Holds-height one_leaf-IsTree held.1) in
    let key = ap (λ (c : Cell). c.key) e in let below = other_keys i b in omega (arith, eight)

three : full_leaf.num_cells ≡ leaf_node_max_cells wide_table.schema
unfolding leaf_node_max_cells
three = refl

table_insert-split_example :
    (t : Store) × (table_insert 3 wide_table (id_row 8) one_leaf ≡ some (true, t))
    × TwoLeaves t 1 2 full_leaf
    × IsTree t 1 1 0 u32_mod
    × IsTable t 1
    × ((k : ℕ) (row : Bytes)
        → HoldsRow t 1 k row ↔ (
            ((k ≡ key_of wide_table (id_row 8)) × (row ≡ serialize_record (id_row 8)))
            ⊎ HoldsRow one_leaf 1 k row))
table_insert-split_example =
    table_insert-split 3 one_leaf wide_table (id_row 8) full_leaf
      (grown (omega arith) one_leaf-IsTree) no_eight refl refl three (omega arith) refl
