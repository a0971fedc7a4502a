-- ===== src/Table/Parts.antt =====
-- The cells of a leaf that is divided while a new cell is put in.
use mini_sql.Base.{
  ℕ, suc, ◌+◌, ◌-◌, ◌<◌, ◌≡◌, ◌↔◌, ◌⊎◌, inl, inr, arith, Bool-cases, refl, sym, ap, ◌∙◌, ltb,
}
use mini_sql.Base.Bytes.{Bytes}
use mini_sql.Btree.{Leaf, Cell, leaf_node_find_cell}
use mini_sql.Btree.Cells.{insert_at}
use mini_sql.Table.Rows.{cell_eq}
use mini_sql.Btree.LeafNode.{divide_cells}
use mini_sql.Btree.LeafNode.Order.{divide_cells-lower, divide_cells-upper}
use mini_sql.Btree.LeafNode.Lookup.{IsSorted, Absent}
use mini_sql.Btree.LeafNode.Refine.{
  Inserted, place, place-Splits, Inserted-IsSorted, new_cell, old_cell, from_old,
}
use mini_sql.Btree.LeafNode.Split.{DividedInto}
use mini_sql.Table.Contents.{HasCell}

-- A leaf with the cell put in, divided into two.
module _ (max_cells next : ℕ) (node fresh : Leaf) (c : Cell) (sorted : IsSorted node)
    (gone : Absent node c.key) (small : suc max_cells < 2147483648)
    (full : node.num_cells ≡ max_cells) where
  abbrev pub whole : Leaf
  whole = record node {
    num_cells = suc node.num_cells;
    cells = insert_at node.cells (leaf_node_find_cell node c.key) c;
  }

  abbrev pub parts : Leaf × Leaf
  parts =
      divide_cells max_cells (record node { next_leaf = next }) fresh
        (leaf_node_find_cell node c.key) c

  inserted : Inserted node (leaf_node_find_cell node c.key) c whole
  inserted = record { count = refl; cells = λ j h. refl }

  pub whole-IsSorted : IsSorted whole
  unfolding place
  whole-IsSorted = Inserted-IsSorted node c sorted gone (omega arith) whole inserted

  pub whole-DividedInto : DividedInto whole parts.0 parts.1
  unfolding divide_cells
  whole-DividedInto = record {
    count = omega arith;
    lower = λ j h.
        divide_cells-lower max_cells (record node { next_leaf = next }) fresh
          (leaf_node_find_cell node c.key) c j h;
    upper = λ j h.
        divide_cells-upper max_cells (record node { next_leaf = next }) fresh
          (leaf_node_find_cell node c.key) c j h;
  }

  -- A cell of the whole is the new one or an old one.
  pub whole_iff :
      (k : ℕ) (row : Bytes)
      → HasCell whole k row ↔ (((k ≡ c.key) × (row ≡ c.value)) ⊎ HasCell node k row)
  unfolding place
  whole_iff k row = (
    λ (i, (b, e)). elim (from_old node c sorted gone (omega arith) whole inserted i b) [
      | inl new ↦
          inl (ap (λ (x : Cell). x.key) (sym e ∙ new), ap (λ (x : Cell). x.value) (sym e ∙ new))
      | inr (j, d, same) ↦ inr (j, (d, sym same ∙ e))
    ],
    λ h. elim h [
      | inl (same_key, same_row) ↦ (
        leaf_node_find_cell node c.key,
        (
          omega (arith, (place-Splits node c sorted gone (omega arith)).within),
          new_cell node c sorted gone (omega arith) whole inserted
              ∙ cell_eq (sym same_key) (sym same_row),
        ),
      )
      | inr (i, (b, e)) ↦
          let (j, d, same) = old_cell node c sorted gone (omega arith) whole inserted i b in
          (j, (d, same ∙ e))
    ],
  )

  -- A cell of the two parts is a cell of the whole.
  pub parts_iff :
      (k : ℕ) (row : Bytes) → (HasCell parts.0 k row ⊎ HasCell parts.1 k row) ↔ HasCell whole k row
  parts_iff k row =
      let d = whole-DividedInto in
      (
        λ h. elim h [
          | inl (i, (b, e)) ↦ (i, (omega (arith, d.count), sym (d.lower i b) ∙ e))
          | inr (i, (b, e)) ↦
              (parts.0.num_cells + i, (omega (arith, d.count), sym (d.upper i b) ∙ e))
        ],
        λ (i, (b, e)). elim (Bool-cases (ltb i parts.0.num_cells)) [
          | inl low ↦ let l : i < parts.0.num_cells = ground arith in inl (i, (l, d.lower i l ∙ e))
          | inr high ↦
              let m = i - parts.0.num_cells in
              let l : m < parts.1.num_cells = ground (arith, d.count) in
              let back : parts.0.num_cells + m ≡ i = ground arith in
              inr (m, (l, d.upper m l ∙ ap (λ n. whole.cells n) back ∙ e))
        ],
      )
