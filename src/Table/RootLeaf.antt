-- ===== src/Table/RootLeaf.antt =====
-- `table_insert` on a table of one full leaf.
use mini_sql.Base.{
  ℕ, ◌<◌, ◌≤◌, ◌≡◌, ◌↔◌, ◌⊎◌, inl, inr, true, false, some, arith, refl, sym, ap, subst,
}
use mini_sql.Base.Bytes.{Bytes}
use mini_sql.Schema.{u32_mod}
use mini_sql.Record.{Record, serialize_record}
use mini_sql.Record.RoundTrip.{to_u32-lt}
use mini_sql.Btree.{Leaf, Cell, leaf_node_find_cell, leaf_node_max_cells}
use mini_sql.Table.Rows.{leaf_at_lem, key_of}
use mini_sql.Btree.LeafNode.Lookup.{IsSorted, Absent}
use mini_sql.Btree.Store.{leaf, Store, ◌>>=◌}
use mini_sql.Btree.Tree.{IsTree, leaf_tree, node_tree, IsLeafIn, in_leaf, same_leaf}
use mini_sql.Btree.RootSplit.{leaf_node_insert-split}
use mini_sql.Cursor.Descent.{descend_leaf}
use mini_sql.Table.Locate.{table_find_lem}
use mini_sql.Table.{is_at, Table, table_insert}
use mini_sql.Table.Contents.{IsTable, grown, empty, HoldsRow, Holds-height, cell_of}
use mini_sql.Table.Shape.{TwoLeaves}
use mini_sql.Table.Split.{after, after-TwoLeaves, after-IsTree, after_iff}

not_at :
    (node : Leaf) (key : ℕ)
    → Absent node key
    → is_at node (leaf_node_find_cell node key) key ≡ false
not_at node key gone = ground (arith, gone (leaf_node_find_cell node key))

-- A table with one full leaf.
leaf_table :
    (s : Store) (root : ℕ) (node : Leaf)
    → IsTable s root
    → s.pages root ≡ leaf node
    → 0 < node.num_cells
    → IsLeafIn s root 0 u32_mod
leaf_table s root node (grown low_enough (leaf_tree l)) at filled = l
leaf_table s root node (grown low_enough (node_tree node' at' exists asc small within below)) at
      filled =
    absurd (cc)
leaf_table s root node (empty node' at' exists none_in) at filled =
    let same = same_leaf at at' in
    let none_here = subst (λ (n : Leaf). n.num_cells ≡ 0) (sym same) none_in in absurd (omega arith)

-- Inserting a record under a key that the table does not have, when the table is one leaf, which is
-- marked as root and full with at least two cells, and the file has no free page: true is returned
-- and the file grows by two pages. The root's page becomes an internal node marked as root, with
-- one key, the largest of its left child, and two leaves below it on the new pages, neither of them
-- marked as root and both with that page as their parent. The left leaf is followed by the right
-- one, and that by the leaf that followed the split one; together they have one cell more than it
-- had, the left as many as the right or one more. The result is a table again, of height one; it
-- has the new row, every row there was, and no other.
pub table_insert-split :
    (configured : ℕ) (s : Store) (table : Table) (r : Record) (node : Leaf)
    → IsTable s table.root_page_num
    → ((row : Bytes) → ¬ HoldsRow s table.root_page_num (key_of table r) row)
    → s.pages table.root_page_num ≡ leaf node
    → node.is_root ≡ true
    → node.num_cells ≡ leaf_node_max_cells table.schema
    → 1 < node.num_cells
    → s.free_head ≡ 0
    → (t : Store) × (table_insert configured table r s ≡ some (true, t))
      × TwoLeaves t table.root_page_num s.num_pages node
      × IsTree t 1 table.root_page_num 0 u32_mod
      × IsTable t table.root_page_num
      × ((k : ℕ) (row : Bytes)
          → HoldsRow t table.root_page_num k row ↔ (
              ((k ≡ key_of table r) × (row ≡ serialize_record r))
              ⊎ HoldsRow s table.root_page_num k row))
unfolding table_insert
table_insert-split configured s table r node is_table missing at is_root full two none_free =
    let root = table.root_page_num in
    let c : Cell = record { key = key_of table r; value = serialize_record r } in
    let l = leaf_table s root node is_table at (omega arith) in
    let same = same_leaf l.at at in
    let sorted = subst IsSorted same l.sorted in
    let keys =
      subst
        (λ (n : Leaf).
          (i : ℕ) → i < n.num_cells → (0 ≤ (n.cells i).key) × ((n.cells i).key < u32_mod))
        same l.keys in
    let gone : Absent node c.key = λ i h e.
      missing (node.cells i).value
        (0, in_leaf node i at h (ap (λ k. record { key = k; value = (node.cells i).value }) e)) in
    let small = to_u32-lt _ in
    let bound : (i : ℕ) → i < node.num_cells → (node.cells i).key < u32_mod = λ i h. (keys i h).1 in
    let find =
      table_find_lem s root c.key root node
        (descend_leaf s s.num_pages c.key root node l.exists at) in
    let not_there = not_at node c.key gone in
    let tree =
      after-IsTree configured table.schema s root node c none_free l.exists at is_root full two
        sorted gone bound small in
    (
      after configured table.schema s root node c none_free l.exists at is_root full two sorted gone
          bound small,
      rw
          (
            ◌>>=◌,
            find,
            leaf_at_lem s root node l.exists at,
            not_there,
            leaf_node_insert-split configured table.schema s root (leaf_node_find_cell node c.key)
                node c none_free l.exists at is_root full two,
          )
          refl,
      after-TwoLeaves configured table.schema s root node c none_free l.exists at is_root full two
          sorted gone bound small,
      tree,
      grown (omega (arith, l.exists)) tree,
      λ k row.
          let w =
            after_iff configured table.schema s root node c none_free l.exists at is_root full two
              sorted gone bound small k row in
          (
            λ h. elim (w.0 h) [
              | inl new ↦ inl new
              | inr (i, (b, e)) ↦ inr (0, in_leaf node i at b e)
            ],
            λ h. elim h [
              | inl new ↦ w.1 (inl new)
              | inr held ↦ w.1 (inr (cell_of node at (Holds-height (leaf_tree l) held.1)))
            ],
          ),
    )
