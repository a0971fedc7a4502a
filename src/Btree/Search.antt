-- ===== src/Btree/Search.antt =====
-- The two binary searches find the lower bound of the key.
use mini_sql.Base.{
  ℕ, zero, suc, ◌+◌, ◌-◌, ◌≤◌, ◌<◌, ◌≡◌, arith, ◌≢◌, none, inl, inr, sym, Bool-cases, ltb, leb,
  ◌==◌, ==_iff,
}
use mini_sql.Btree.{
  Leaf, Internal, midpoint, find_cell_loop, leaf_node_find_cell, find_child_loop,
  internal_node_find_child, internal_node_child,
}

-- The first `n` keys strictly ascend.
abbrev pub IsAscending : (ℕ → ℕ) → ℕ → Type 0
IsAscending keys n = (i j : ℕ) → i < j → j < n → keys i < keys j

-- `r` splits the first `n` keys into those below `key` and those not below it.
pub record Splits (keys : ℕ → ℕ) (n key r : ℕ) : Type 0 where
  pub within : r ≤ n
  pub below : (i : ℕ) → i < r → keys i < key
  pub above : (i : ℕ) → r ≤ i → i < n → key ≤ keys i

-- What holds at the loop's head with the range [lo, hi).
record Inv (keys : ℕ → ℕ) (n key lo hi : ℕ) : Type 0 where
  ordered : lo ≤ hi
  inside : hi ≤ n
  below : (i : ℕ) → i < lo → keys i < key
  above : (i : ℕ) → hi ≤ i → i < n → key ≤ keys i

midpoint_bounds :
    (lo hi : ℕ) → lo < hi → hi < 2147483648 → (lo ≤ midpoint lo hi) × (midpoint lo hi < hi)
midpoint_bounds lo hi h b = omega arith

module _ (keys : ℕ → ℕ) (n key : ℕ) (ascends : IsAscending keys n) (small : n < 2147483648) where
  narrow_upper :
      (lo hi m : ℕ)
      → Inv keys n key lo hi
      → lo ≤ m
      → m < hi
      → keys m < key
      → Inv keys n key (m + 1) hi
  narrow_upper lo hi m inv l u c = record {
    ordered = omega arith;
    inside = inv.inside;
    below = λ i h. grind (arith, ascends i m);
    above = inv.above;
  }

  narrow_lower :
      (lo hi m : ℕ) → Inv keys n key lo hi → lo ≤ m → m < hi → key ≤ keys m → Inv keys n key lo m
  narrow_lower lo hi m inv l u c = record {
    ordered = l;
    inside = omega (arith, inv.inside);
    below = inv.below;
    above = λ i h g. grind (arith, ascends m i);
  }

  Inv→Splits : (lo hi : ℕ) → Inv keys n key lo hi → hi ≡ lo → Splits keys n key lo
  Inv→Splits lo hi inv e = record {
    within = omega (arith, inv.inside);
    below = inv.below;
    above = λ i h g. inv.above i (omega arith) g;
  }

  hit-Splits : (m : ℕ) → m < n → key ≡ keys m → Splits keys n key m
  hit-Splits m h e = record {
    within = omega arith;
    below = λ i l. grind (arith, ascends i m);
    above = λ i l g. grind (arith, ascends m i);
  }

  find_cell_loop-Splits :
      (fuel lo hi : ℕ)
      → hi - lo < fuel
      → Inv keys n key lo hi
      → Splits keys n key (find_cell_loop fuel keys key lo hi)
  unfolding find_cell_loop
  find_cell_loop-Splits zero lo hi f inv = absurd (omega arith)
  find_cell_loop-Splits (suc fuel) lo hi f inv =
      let m = midpoint lo hi in
      elim (Bool-cases (hi == lo)) [
        | inl done ↦ rw done (Inv→Splits lo hi inv ((==_iff hi lo).0 done))
        | inr more ↦ rw more (
            let b =
              midpoint_bounds lo hi (ground (arith, inv.ordered)) (omega (arith, inv.inside)) in
            elim (Bool-cases (key == keys m)) [
              | inl hit ↦
                  rw hit
                    (hit-Splits m (omega (arith, inv.inside, b.1)) ((==_iff key (keys m)).0 hit))
              | inr miss ↦ rw miss (elim (Bool-cases (ltb key (keys m))) [
                | inl less ↦ rw less (
                    find_cell_loop-Splits fuel lo m (omega (arith, b.0, b.1))
                      (narrow_lower lo hi m inv b.0 b.1 (ground arith)))
                | inr greater ↦ rw greater (
                    find_cell_loop-Splits fuel (m + 1) hi (omega (arith, b.0, b.1))
                      (narrow_upper lo hi m inv b.0 b.1 (ground arith)))
              ])
            ])
      ]

  find_child_loop-Splits :
      (fuel lo hi : ℕ)
      → hi - lo < fuel
      → Inv keys n key lo hi
      → Splits keys n key (find_child_loop fuel keys key lo hi)
  unfolding find_child_loop
  find_child_loop-Splits zero lo hi f inv = absurd (omega arith)
  find_child_loop-Splits (suc fuel) lo hi f inv =
      let m = midpoint lo hi in
      elim (Bool-cases (lo == hi)) [
        | inl done ↦ rw done (Inv→Splits lo hi inv (sym ((==_iff lo hi).0 done)))
        | inr more ↦ rw more (
            let b =
              midpoint_bounds lo hi (ground (arith, inv.ordered)) (omega (arith, inv.inside)) in
            elim (Bool-cases (leb key (keys m))) [
              | inl less ↦ rw less (
                  find_child_loop-Splits fuel lo m (omega (arith, b.0, b.1))
                    (narrow_lower lo hi m inv b.0 b.1 (ground arith)))
              | inr greater ↦ rw greater (
                  find_child_loop-Splits fuel (m + 1) hi (omega (arith, b.0, b.1))
                    (narrow_upper lo hi m inv b.0 b.1 (ground arith)))
            ])
      ]

  start_Inv : Inv keys n key 0 n
  start_Inv = record {
    ordered = omega arith;
    inside = omega arith;
    below = λ i h. absurd (omega arith);
    above = λ i h g. absurd (omega arith);
  }

-- The keys of a node's cells.
abbrev pub leaf_keys : Leaf → ℕ → ℕ
leaf_keys node i = (node.cells i).key

abbrev pub internal_keys : Internal → ℕ → ℕ
internal_keys node i = (node.cells i).key

-- In a leaf with ascending keys and fewer than 2^31 cells, `leaf_node_find_cell` returns the number
-- of keys below `key`: that cell holds `key` if any cell does, and is otherwise the place, at most
-- one past the last cell, at which `key` keeps the cells sorted.
pub find_cell-Splits :
    (node : Leaf) (key : ℕ)
    → IsAscending (leaf_keys node) node.num_cells
    → node.num_cells < 2147483648
    → Splits (leaf_keys node) node.num_cells key (leaf_node_find_cell node key)
unfolding leaf_node_find_cell
find_cell-Splits node key ascends small =
    find_cell_loop-Splits (leaf_keys node) node.num_cells key ascends small (suc node.num_cells) 0
      node.num_cells (omega arith) (start_Inv (leaf_keys node) node.num_cells key ascends small)

-- In an internal node with ascending separators and fewer than 2^31 of them,
-- `internal_node_find_child` returns the first child whose separator is at least `key`, or the
-- right child's index, and that index names a child.
pub find_child-Splits :
    (node : Internal) (key : ℕ)
    → IsAscending (internal_keys node) node.num_keys
    → node.num_keys < 2147483648
    → Splits (internal_keys node) node.num_keys key (internal_node_find_child node key)
      × (internal_node_child node (internal_node_find_child node key) ≢ none)
unfolding internal_node_find_child internal_node_child
find_child-Splits node key ascends small =
    let s =
      find_child_loop-Splits (internal_keys node) node.num_keys key ascends small
        (suc node.num_keys) 0 node.num_keys (omega arith)
        (start_Inv (internal_keys node) node.num_keys key ascends small) in
    (s, λ e. ground (arith, s.within))
