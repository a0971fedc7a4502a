-- ===== src/Btree/LeafNode/Refine.antt =====
-- A leaf's insertion and removal refine those of a finite map from keys to rows.
use mini_sql.Base.{
  ℕ, suc, ◌-◌, ◌≤◌, ◌<◌, ◌≡◌, ◌⊎◌, inl, inr, sym, ap, ◌∙◌, arith, some, ltb, ◌==◌, if◌then◌else◌,
  Bool-cases, compare-cases, ==_iff, subst,
}
use mini_sql.Btree.{Cell, Leaf, leaf_node_find_cell}
use mini_sql.Btree.Search.{IsAscending, Splits, leaf_keys, find_cell-Splits}
use mini_sql.Btree.Cells.{insert_at}
use mini_sql.Btree.LeafNode.{leaf_lookup, insert_with_room}
use mini_sql.Btree.LeafNode.Order.{insert_with_room-insert_at}
use mini_sql.Btree.LeafNode.Lookup.{
  IsSorted, Absent, Absent-cases, lookup_hit, lookup_miss, IsAscending-ext, insert_at-IsAscending,
}

-- A leaf whose cells are those of `node` with `c` put in at `r`.
pub record Inserted (node : Leaf) (r : ℕ) (c : Cell) (node' : Leaf) : Type 0 where
  pub count : node'.num_cells ≡ suc node.num_cells
  pub cells : (j : ℕ) → j ≤ node.num_cells → node'.cells j ≡ insert_at node.cells r c j

module _ (node : Leaf) (c : Cell) (s : IsSorted node) (absent : Absent node c.key)
    (room : suc node.num_cells < 2147483648) where
  unfoldable pub place : ℕ
  place = leaf_node_find_cell node c.key

  pub place-Splits : Splits (leaf_keys node) node.num_cells c.key place
  unfolding place
  place-Splits = find_cell-Splits node c.key s.ascends s.small

  module _ (node' : Leaf) (ins : Inserted node place c node') where
    pub Inserted-IsSorted : IsSorted node'
    Inserted-IsSorted = record {
      ascends = subst (IsAscending (leaf_keys node')) (sym ins.count) (
          IsAscending-ext (suc node.num_cells)
            (λ j h. ap (λ (x : Cell). x.key) (ins.cells j (omega arith)))
            (insert_at-IsAscending node.cells node.num_cells place c s.ascends place-Splits
              absent));
      small = omega (arith, ins.count);
    }

    -- Where the new cell and the old ones are after the insertion.
    pub new_cell : node'.cells place ≡ c
    new_cell = ins.cells place place-Splits.within ∙ (unfold insert_at in ground arith)

    pub old_cell :
        (i : ℕ)
        → i < node.num_cells
        → (j : ℕ) × (j < node'.num_cells) × (node'.cells j ≡ node.cells i)
    old_cell i h = elim (Bool-cases (ltb i place)) [
      | inl before ↦ (
        i,
        omega (arith, ins.count),
        ins.cells i (omega arith) ∙ (unfold insert_at in ground arith),
      )
      | inr after ↦ (
        suc i,
        omega (arith, ins.count),
        ins.cells (suc i) (omega arith) ∙ (unfold insert_at in ground arith),
      )
    ]

    pub from_old :
        (j : ℕ)
        → j < node'.num_cells
        → (node'.cells j ≡ c) ⊎ ((i : ℕ) × (i < node.num_cells) × (node'.cells j ≡ node.cells i))
    from_old j h = elim (compare-cases j place) [
      | inl before ↦ inr (
        j,
        omega (arith, place-Splits.within),
        ins.cells j (omega (arith, ins.count)) ∙ (unfold insert_at in ground arith),
      )
      | inr (inl here) ↦
          inl (ins.cells j (omega (arith, ins.count)) ∙ (unfold insert_at in ground arith))
      | inr (inr after) ↦ inr (
        j - 1,
        omega (arith, ins.count),
        ins.cells j (omega (arith, ins.count)) ∙ (unfold insert_at in ground arith),
      )
    ]

    pub Inserted-lookup :
        (key : ℕ)
        → leaf_lookup node' key ≡ (if key == c.key then some c.value else leaf_lookup node key)
    Inserted-lookup key = elim (Bool-cases (key == c.key)) [
      | inl same ↦ rw same (
          lookup_hit node' key place Inserted-IsSorted
            (omega (arith, ins.count, place-Splits.within))
            (ap (λ (x : Cell). x.key) new_cell ∙ sym ((==_iff key c.key).0 same))
          ∙ ap (λ (x : Cell). some x.value) new_cell)
      | inr other ↦ rw other (elim (Absent-cases node key s) [
        | inl (i, h, e) ↦
            let (j, b, q) = old_cell i h in
            lookup_hit node' key j Inserted-IsSorted b (ap (λ (x : Cell). x.key) q ∙ e)
            ∙ ap (λ (x : Cell). some x.value) q
            ∙ sym (lookup_hit node key i s h e)
        | inr gone ↦
            lookup_miss node' key (λ j b e. elim (from_old j b) [
              | inl q ↦ absurd (ground arith)
              | inr (i, h, q) ↦ gone i h (sym (ap (λ (x : Cell). x.key) q) ∙ e)
            ])
            ∙ sym (lookup_miss node key gone)
      ])
    ]

pub inserted_lem :
    (node : Leaf) (c : Cell)
    → IsSorted node
    → Inserted node
        (leaf_node_find_cell node c.key)
        c
        (insert_with_room node (leaf_node_find_cell node c.key) c)
inserted_lem node c s = record {
  count = unfold insert_with_room in omega arith;
  cells = λ j h.
      insert_with_room-insert_at node (leaf_node_find_cell node c.key) c j
        (find_cell-Splits node c.key s.ascends s.small).within h;
}

-- Inserting a cell whose key is absent, where `leaf_node_find_cell` says, into a sorted leaf of
-- fewer than 2^31 - 1 cells leaves it sorted, and the leaf then holds the new row under its key and
-- what it held before under every other key.
pub insert_with_room-Refines :
    (node : Leaf) (c : Cell) (key : ℕ)
    → IsSorted node
    → Absent node c.key
    → suc node.num_cells < 2147483648
    → let node' = insert_with_room node (leaf_node_find_cell node c.key) c in
      IsSorted node'
      × (node'.num_cells ≡ suc node.num_cells)
      × (leaf_lookup node' key ≡ (if key == c.key then some c.value else leaf_lookup node key))
unfolding place
insert_with_room-Refines node c key s absent room =
    let ins = inserted_lem node c s in
    (
      Inserted-IsSorted node c s absent room _ ins,
      ins.count,
      Inserted-lookup node c s absent room _ ins key,
    )
