-- ===== src/Btree/LeafNode/Rebalance.antt =====
-- Merging two neighbouring leaves, or moving a cell between them, keeps what the pair holds.
use mini_sql.Base.{
  ℕ, suc, ◌+◌, ◌-◌, ◌≤◌, ◌<◌, ◌≡◌, inl, inr, refl, sym, ap, ◌∙◌, arith, Option, ltb, leb,
  if◌then◌else◌, Bool-cases,
}
use mini_sql.Base.Bytes.{Bytes}
use mini_sql.Btree.{Cell, Leaf}
use mini_sql.Btree.Cells.{copy_cells, insert_at, remove_at}
use mini_sql.Btree.LeafNode.{
  leaf_lookup, merge_cells, borrow_left, borrow_right, leaf_node_insert_cell, leaf_node_remove_cell,
}
use mini_sql.Btree.LeafNode.Order.{insert_cell-insert_at, remove_cell-remove_at}
use mini_sql.Btree.LeafNode.Lookup.{IsSorted}
use mini_sql.Btree.LeafNode.Split.{
  DividedInto, left-IsSorted, right-IsSorted, halves-ordered, halves-lookup,
}

-- Neighbours under one parent: both sorted, and every key of the left less than any of the right.
pub record AreNeighbours (left right : Leaf) : Type 0 where
  pub left_sorted : IsSorted left
  pub right_sorted : IsSorted right
  pub ordered :
      (i j : ℕ)
      → i < left.num_cells
      → j < right.num_cells
      → (left.cells i).key < (right.cells j).key
  pub small : left.num_cells + right.num_cells < 2147483648

-- The row under `key` in a pair of leaves with `separator` between them.
unfoldable pub pair_lookup : Leaf → Leaf → ℕ → ℕ → Option Bytes
pair_lookup left right separator key =
    if ltb separator key then leaf_lookup right key else leaf_lookup left key

-- The largest key of a leaf.
abbrev pub last_key : Leaf → ℕ
last_key node = (node.cells (node.num_cells - 1)).key

merge_cells-DividedInto : (left right : Leaf) → DividedInto (merge_cells left right) left right
merge_cells-DividedInto left right = record {
  count = unfold merge_cells in refl;
  lower = λ j h. unfold merge_cells copy_cells in ground arith;
  upper = λ j h.
      unfold merge_cells copy_cells in
      (let back : left.num_cells + j - left.num_cells ≡ j = omega arith in
        ground (arith, ap right.cells back));
}

module _ (left right : Leaf) (n : AreNeighbours left right) where
  merge_cells-IsSorted : IsSorted (merge_cells left right)
  unfolding merge_cells copy_cells
  merge_cells-IsSorted = record {
    ascends = λ i j l h. ground (
      arith,
      n.left_sorted.ascends i j,
      n.right_sorted.ascends (i - left.num_cells) (j - left.num_cells),
      n.ordered i (j - left.num_cells),
    );
    small = n.small;
  }

  -- A leaf merged with its left neighbour, which has at least one cell, gives one sorted leaf that
  -- finds under every key what the pair found, and takes the right one's place in the leaf chain.
  pub merge_cells-Refines :
      (key : ℕ)
      → 0 < left.num_cells
      → IsSorted (merge_cells left right)
        × ((merge_cells left right).num_cells ≡ left.num_cells + right.num_cells)
        × ((merge_cells left right).next_leaf ≡ right.next_leaf)
        × (leaf_lookup (merge_cells left right) key ≡ pair_lookup left right (last_key left) key)
  merge_cells-Refines key pos = (
    merge_cells-IsSorted,
    unfold merge_cells in refl,
    unfold merge_cells in refl,
    unfold pair_lookup in
        halves-lookup (merge_cells left right) left right (merge_cells-DividedInto left right)
          merge_cells-IsSorted key pos,
  )

  -- Two ways to divide the merged cells find the same rows.
  Divided-pair_lookup :
      (l r : Leaf) (key : ℕ)
      → DividedInto (merge_cells left right) l r
      → 0 < left.num_cells
      → 0 < l.num_cells
      → pair_lookup l r (last_key l) key ≡ pair_lookup left right (last_key left) key
  unfolding pair_lookup
  Divided-pair_lookup l r key d pos pos' =
      sym (halves-lookup (merge_cells left right) l r d merge_cells-IsSorted key pos')
      ∙ halves-lookup (merge_cells left right) left right (merge_cells-DividedInto left right)
          merge_cells-IsSorted key pos

  Divided-AreNeighbours :
      (l r : Leaf) → DividedInto (merge_cells left right) l r → AreNeighbours l r
  Divided-AreNeighbours l r d = record {
    left_sorted = left-IsSorted (merge_cells left right) l r d merge_cells-IsSorted;
    right_sorted = right-IsSorted (merge_cells left right) l r d merge_cells-IsSorted;
    ordered = halves-ordered (merge_cells left right) l r d merge_cells-IsSorted;
    small = omega (arith, d.count, merge_cells-IsSorted.small);
  }

insert_first :
    (a : ℕ → Cell) (c : Cell) (j : ℕ) → insert_at a 0 c j ≡ (if leb j 0 then c else a (j - 1))
unfolding insert_at
insert_first a c j = ground arith

insert_last :
    (a : ℕ → Cell) (n : ℕ) (c : Cell) (j : ℕ)
    → j ≤ n
    → insert_at a n c j ≡ (if ltb j n then a j else c)
unfolding insert_at
insert_last a n c j h = ground arith

remove_last : (a : ℕ → Cell) (n j : ℕ) → j < n → remove_at a n j ≡ a j
unfolding remove_at
remove_last a n j h = ground arith

remove_first : (a : ℕ → Cell) (j : ℕ) → remove_at a 0 j ≡ a (j + 1)
unfolding remove_at
remove_first a j = ground arith

module _ (left right : Leaf) where
  merged_left : (j : ℕ) → j < left.num_cells → (merge_cells left right).cells j ≡ left.cells j
  unfolding merge_cells copy_cells
  merged_left j h = ground arith

  merged_right :
      (i j : ℕ)
      → i ≡ left.num_cells + j
      → j < right.num_cells
      → (merge_cells left right).cells i ≡ right.cells j
  merged_right i j e h =
      ap (merge_cells left right).cells e ∙ sym ((merge_cells-DividedInto left right).upper j h)

  -- The cells after the left neighbour's last one has moved to the front of the right.
  left_kept :
      (j : ℕ)
      → suc j < left.num_cells
      → (leaf_node_remove_cell left (left.num_cells - 1)).cells j ≡ left.cells j
  left_kept j h =
      remove_cell-remove_at left (left.num_cells - 1) j (omega arith) h
      ∙ remove_last left.cells (left.num_cells - 1) j (omega arith)

  right_grown :
      (j : ℕ)
      → j ≤ right.num_cells
      → (leaf_node_insert_cell right 0 (left.cells (left.num_cells - 1))).cells j
        ≡ (if leb j 0 then left.cells (left.num_cells - 1) else right.cells (j - 1))
  right_grown j h =
      insert_cell-insert_at right 0 (left.cells (left.num_cells - 1)) j (omega arith) h
      ∙ insert_first right.cells (left.cells (left.num_cells - 1)) j

  borrow_left-DividedInto :
      0 < left.num_cells
      → DividedInto
          (merge_cells left right)
          (borrow_left right left).sibling
          (borrow_left right left).node
  unfolding borrow_left
  borrow_left-DividedInto h = record {
    count = unfold merge_cells leaf_node_remove_cell leaf_node_insert_cell in omega arith;
    lower = λ j b.
        let b' : j < left.num_cells - 1 = unfold leaf_node_remove_cell in b in
        left_kept j (omega arith) ∙ sym (merged_left j (omega arith));
    upper = λ j b.
        let b' : j < right.num_cells + 1 = unfold leaf_node_insert_cell in b in
        right_grown j (omega arith) ∙ grown_at j b';
  }
    where
      grown_at :
          (j : ℕ)
          → j < right.num_cells + 1
          → (if leb j 0 then left.cells (left.num_cells - 1) else right.cells (j - 1))
            ≡ (merge_cells left right).cells
                ((leaf_node_remove_cell left (left.num_cells - 1)).num_cells + j)
      grown_at j b = elim (Bool-cases (leb j 0)) [
        | inl first ↦ rw first (
            sym (merged_left (left.num_cells - 1) (omega arith))
            ∙ ap (merge_cells left right).cells (unfold leaf_node_remove_cell in ground arith))
        | inr later ↦ rw later (
            sym (
              merged_right _ (j - 1) (unfold leaf_node_remove_cell in ground arith) (ground arith)))
      ]

  -- The cells after the right neighbour's first one has moved to the end of the left.
  left_grown :
      (j : ℕ)
      → j ≤ left.num_cells
      → (leaf_node_insert_cell left left.num_cells (right.cells 0)).cells j
        ≡ (if ltb j left.num_cells then left.cells j else right.cells 0)
  left_grown j h =
      insert_cell-insert_at left left.num_cells (right.cells 0) j (omega arith) h
      ∙ insert_last left.cells left.num_cells (right.cells 0) j h

  borrow_right-DividedInto :
      0 < right.num_cells
      → DividedInto
          (merge_cells left right)
          (borrow_right left right).node
          (borrow_right left right).sibling
  unfolding borrow_right
  borrow_right-DividedInto h = record {
    count = unfold merge_cells leaf_node_remove_cell leaf_node_insert_cell in omega arith;
    lower = λ j b.
        let b' : j < left.num_cells + 1 = unfold leaf_node_insert_cell in b in
        left_grown j (omega arith) ∙ grown_at j b';
    upper = λ j b.
        let b' : j < right.num_cells - 1 = unfold leaf_node_remove_cell in b in
        remove_cell-remove_at right 0 j (omega arith) (omega arith)
        ∙ remove_first right.cells j
        ∙ sym (merged_right _ (j + 1) (unfold leaf_node_insert_cell in omega arith) (omega arith));
  }
    where
      grown_at :
          (j : ℕ)
          → j < left.num_cells + 1
          → (if ltb j left.num_cells then left.cells j else right.cells 0)
            ≡ (merge_cells left right).cells j
      grown_at j b = elim (Bool-cases (ltb j left.num_cells)) [
        | inl inside ↦ rw inside (sym (merged_left j (ground arith)))
        | inr last ↦ rw last (sym (merged_right j 0 (ground arith) (omega arith)))
      ]

-- Borrowing from a left neighbour of at least two cells leaves two neighbours in order, each sorted,
-- one cell fewer on the left and one more on the right; the separator it returns is the largest key
-- left of it, and the pair finds under every key what it found before.
pub borrow_left-Refines :
    (left right : Leaf) (key : ℕ)
    → AreNeighbours left right
    → 1 < left.num_cells
    → let b = borrow_left right left in
      AreNeighbours b.sibling b.node
      × (b.sibling.num_cells ≡ left.num_cells - 1)
      × (b.node.num_cells ≡ right.num_cells + 1)
      × (b.separator ≡ last_key b.sibling)
      × (pair_lookup b.sibling b.node b.separator key ≡ pair_lookup left right (last_key left) key)
borrow_left-Refines left right key n h = (
  Divided-AreNeighbours left right n _ _ divided,
  unfold borrow_left leaf_node_remove_cell in refl,
  unfold borrow_left leaf_node_insert_cell in refl,
  separator_is_last,
  ap (λ s. pair_lookup (borrow_left right left).sibling (borrow_left right left).node s key)
        separator_is_last
      ∙ Divided-pair_lookup left right n _ _ key divided (omega arith)
          (unfold borrow_left leaf_node_remove_cell in omega arith),
)
  where
    divided :
        DividedInto
          (merge_cells left right)
          (borrow_left right left).sibling
          (borrow_left right left).node
    divided = borrow_left-DividedInto left right (omega arith)

    separator_is_last :
        (borrow_left right left).separator ≡ last_key (borrow_left right left).sibling
    separator_is_last =
        unfold borrow_left leaf_node_remove_cell in
        ap (λ i. ((leaf_node_remove_cell left (left.num_cells - 1)).cells i).key)
          (let e : left.num_cells - 2 ≡ left.num_cells - 1 - 1 = omega arith in e)

-- Borrowing from a right neighbour that has a cell leaves two neighbours in order, each sorted, one
-- cell more on the left and one fewer on the right; the separator it returns is the largest key left
-- of it, and the pair finds under every key what it found before, if the left had a cell.
pub borrow_right-Refines :
    (left right : Leaf) (key : ℕ)
    → AreNeighbours left right
    → 0 < left.num_cells
    → 0 < right.num_cells
    → let b = borrow_right left right in
      AreNeighbours b.node b.sibling
      × (b.node.num_cells ≡ left.num_cells + 1)
      × (b.sibling.num_cells ≡ right.num_cells - 1)
      × (b.separator ≡ last_key b.node)
      × (pair_lookup b.node b.sibling b.separator key ≡ pair_lookup left right (last_key left) key)
borrow_right-Refines left right key n pos h = (
  Divided-AreNeighbours left right n _ _ divided,
  unfold borrow_right leaf_node_insert_cell in refl,
  unfold borrow_right leaf_node_remove_cell in refl,
  separator_is_last,
  ap (λ s. pair_lookup (borrow_right left right).node (borrow_right left right).sibling s key)
        separator_is_last
      ∙ Divided-pair_lookup left right n _ _ key divided pos
          (unfold borrow_right leaf_node_insert_cell in omega arith),
)
  where
    divided :
        DividedInto
          (merge_cells left right)
          (borrow_right left right).node
          (borrow_right left right).sibling
    divided = borrow_right-DividedInto left right h

    separator_is_last :
        (borrow_right left right).separator ≡ last_key (borrow_right left right).node
    separator_is_last =
        unfold borrow_right leaf_node_insert_cell in
        ap (λ i. ((leaf_node_insert_cell left left.num_cells (right.cells 0)).cells i).key)
          (let e : left.num_cells ≡ left.num_cells + 1 - 1 = omega arith in e)
