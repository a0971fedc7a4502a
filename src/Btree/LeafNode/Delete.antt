-- ===== src/Btree/LeafNode/Delete.antt =====
-- Removing a cell of a leaf refines the removal of its key from a finite map.
use mini_sql.Base.{
  ℕ, ◌+◌, ◌-◌, ◌<◌, ◌≡◌, ◌≢◌, inl, inr, refl, sym, ap, ◌∙◌, arith, none, some, ltb, ◌==◌,
  if◌then◌else◌, Bool-cases, ==_iff, subst,
}
use mini_sql.Btree.{Cell, Leaf}
use mini_sql.Btree.Search.{IsAscending, leaf_keys}
use mini_sql.Btree.Cells.{remove_at}
use mini_sql.Btree.LeafNode.{leaf_lookup, leaf_node_remove_cell}
use mini_sql.Btree.LeafNode.Order.{remove_cell-remove_at}
use mini_sql.Btree.LeafNode.Lookup.{
  IsSorted, Absent-cases, lookup_hit, lookup_miss, IsAscending-ext, remove_at-IsAscending,
}

module _ (node : Leaf) (k : ℕ) (s : IsSorted node) (inside : k < node.num_cells) where
  abbrev pub removed : Leaf
  removed = leaf_node_remove_cell node k

  pub removed-count : removed.num_cells ≡ node.num_cells - 1
  unfolding leaf_node_remove_cell
  removed-count = refl

  removed-cells : (j : ℕ) → j < node.num_cells - 1 → removed.cells j ≡ remove_at node.cells k j
  removed-cells j h = remove_cell-remove_at node k j inside (omega arith)

  pub removed-IsSorted : IsSorted removed
  removed-IsSorted = record {
    ascends = subst (IsAscending (leaf_keys removed)) (sym removed-count) (
        IsAscending-ext (node.num_cells - 1) (λ j h. ap (λ (x : Cell). x.key) (removed-cells j h))
          (remove_at-IsAscending node.cells node.num_cells k s.ascends));
    small = omega (arith, removed-count, s.small);
  }

  -- Every other cell is kept, and nothing new appears.
  pub kept_cell :
      (i : ℕ)
      → i < node.num_cells
      → i ≢ k
      → (j : ℕ) × (j < removed.num_cells) × (removed.cells j ≡ node.cells i)
  kept_cell i h ne = elim (Bool-cases (ltb i k)) [
    | inl before ↦ (
      i,
      ground (arith, removed-count),
      removed-cells i (ground arith) ∙ (unfold remove_at in ground arith),
    )
    | inr after ↦ (
      i - 1,
      ground (arith, removed-count),
      removed-cells (i - 1) (ground arith) ∙ (unfold remove_at in ground arith),
    )
  ]

  pub was_cell :
      (j : ℕ)
      → j < removed.num_cells
      → (i : ℕ) × (i < node.num_cells) × (i ≢ k) × (removed.cells j ≡ node.cells i)
  was_cell j h = elim (Bool-cases (ltb j k)) [
    | inl before ↦ (
      j,
      omega (arith, removed-count),
      λ e. ground arith,
      removed-cells j (omega (arith, removed-count)) ∙ (unfold remove_at in ground arith),
    )
    | inr after ↦ (
      j + 1,
      omega (arith, removed-count),
      λ e. ground arith,
      removed-cells j (omega (arith, removed-count)) ∙ (unfold remove_at in ground arith),
    )
  ]

  -- Keys ascend, so equal keys are in one place.
  pub same_place : (i : ℕ) → i < node.num_cells → (node.cells i).key ≡ (node.cells k).key → i ≡ k
  same_place i h e = ground (arith, s.ascends i k, s.ascends k i)

  removed-lookup :
      (key : ℕ)
      → leaf_lookup removed key ≡ (if key == (node.cells k).key then none else leaf_lookup node key)
  removed-lookup key = elim (Bool-cases (key == (node.cells k).key)) [
    | inl same ↦ rw same (
        lookup_miss removed key (λ j b e.
          let (i, h, ne, q) = was_cell j b in
          ne (
            same_place i h
              (sym (ap (λ (x : Cell). x.key) q) ∙ e ∙ (==_iff key (node.cells k).key).0 same))))
    | inr other ↦ rw other (elim (Absent-cases node key s) [
      | inl (i, h, e) ↦
          let (j, b, q) = kept_cell i h (λ w. ground arith) in
          lookup_hit removed key j removed-IsSorted b (ap (λ (x : Cell). x.key) q ∙ e)
          ∙ ap (λ (x : Cell). some x.value) q
          ∙ sym (lookup_hit node key i s h e)
      | inr gone ↦
          lookup_miss removed key (λ j b e.
            let (i, h, ne, q) = was_cell j b in gone i h (sym (ap (λ (x : Cell). x.key) q) ∙ e))
          ∙ sym (lookup_miss node key gone)
    ])
  ]

-- Removing cell `k` of a sorted leaf leaves it sorted and one cell shorter; the key of that cell is
-- then absent, and every other key finds the row it found before.
pub leaf_node_remove_cell-Refines :
    (node : Leaf) (k key : ℕ)
    → IsSorted node
    → k < node.num_cells
    → IsSorted (leaf_node_remove_cell node k)
      × ((leaf_node_remove_cell node k).num_cells ≡ node.num_cells - 1)
      × (leaf_lookup (leaf_node_remove_cell node k) key
          ≡ (if key == (node.cells k).key then none else leaf_lookup node key))
leaf_node_remove_cell-Refines node k key s h =
    (removed-IsSorted node k s h, removed-count node k s h, removed-lookup node k s h key)
