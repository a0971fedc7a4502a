-- ===== src/Btree/LeafNode/Split.antt =====
-- A split leaf, its two halves taken together, refines insertion into a finite map.
use mini_sql.Base.{
  ℕ, suc, ◌+◌, ◌-◌, ◌<◌, ◌≡◌, inl, inr, refl, sym, ap, ◌∙◌, arith, some, ltb, ◌==◌, if◌then◌else◌,
  Bool-cases,
}
use mini_sql.Btree.{Cell, Leaf, leaf_node_find_cell}
use mini_sql.Btree.Cells.{insert_at}
use mini_sql.Btree.LeafNode.{leaf_lookup, divide_cells}
use mini_sql.Btree.LeafNode.Order.{divide_cells-lower, divide_cells-upper}
use mini_sql.Btree.LeafNode.Lookup.{
  IsSorted, Absent, Absent-cases, lookup_hit, lookup_miss, IsAscending-ext,
}
use mini_sql.Btree.LeafNode.Refine.{place, Inserted, Inserted-IsSorted, Inserted-lookup}

-- A leaf whose cells are split between two: the first `left.num_cells` and the rest.
pub record DividedInto (whole left right : Leaf) : Type 0 where
  pub count : whole.num_cells ≡ left.num_cells + right.num_cells
  pub lower : (j : ℕ) → j < left.num_cells → left.cells j ≡ whole.cells j
  pub upper : (j : ℕ) → j < right.num_cells → right.cells j ≡ whole.cells (left.num_cells + j)

module _ (whole left right : Leaf) (d : DividedInto whole left right) (s : IsSorted whole) where
  pub left-IsSorted : IsSorted left
  left-IsSorted = record {
    ascends =
        IsAscending-ext left.num_cells (λ j h. ap (λ (x : Cell). x.key) (d.lower j h))
          (λ i j l h. s.ascends i j l (omega (arith, d.count)));
    small = omega (arith, d.count, s.small);
  }

  pub right-IsSorted : IsSorted right
  right-IsSorted = record {
    ascends =
        IsAscending-ext right.num_cells (λ j h. ap (λ (x : Cell). x.key) (d.upper j h))
          (λ i j l h.
            s.ascends (left.num_cells + i) (left.num_cells + j) (omega arith)
              (omega (arith, d.count)));
    small = omega (arith, d.count, s.small);
  }

  -- Every key on the left is less than every key on the right.
  pub halves-ordered :
      (i j : ℕ)
      → i < left.num_cells
      → j < right.num_cells
      → (left.cells i).key < (right.cells j).key
  halves-ordered i j h b =
      ground (arith, d.lower i, d.upper j, s.ascends i (left.num_cells + j), d.count)

  -- A key is looked up in the left half if it is at most the largest key there, as the separator
  -- above the halves routes it, and otherwise in the right half.
  pub halves-lookup :
      (key : ℕ)
      → 0 < left.num_cells
      → leaf_lookup whole key ≡ (
          if ltb (left.cells (left.num_cells - 1)).key key
          then leaf_lookup right key
          else leaf_lookup left key)
  halves-lookup key pos = elim (Bool-cases (ltb top key)) [
    | inl above ↦ rw above (elim (Absent-cases right key right-IsSorted) [
      | inl (i, h, e) ↦
          lookup_hit whole key (left.num_cells + i) s (omega (arith, d.count))
            (ap (λ (x : Cell). x.key) (sym (d.upper i h)) ∙ e)
          ∙ ap (λ (x : Cell). some x.value) (sym (d.upper i h))
          ∙ sym (lookup_hit right key i right-IsSorted h e)
      | inr gone ↦
          lookup_miss whole key (λ i h e. ground (
            arith,
            d.upper (i - left.num_cells),
            gone (i - left.num_cells),
            d.lower (left.num_cells - 1),
            s.ascends i (left.num_cells - 1),
            d.count,
          ))
          ∙ sym (lookup_miss right key gone)
    ])
    | inr below ↦ rw below (elim (Absent-cases left key left-IsSorted) [
      | inl (i, h, e) ↦
          lookup_hit whole key i s (omega (arith, d.count))
            (ap (λ (x : Cell). x.key) (sym (d.lower i h)) ∙ e)
          ∙ ap (λ (x : Cell). some x.value) (sym (d.lower i h))
          ∙ sym (lookup_hit left key i left-IsSorted h e)
      | inr gone ↦
          lookup_miss whole key (λ i h e. ground (
            arith,
            d.lower i,
            gone i,
            d.lower (left.num_cells - 1),
            s.ascends (left.num_cells - 1) i,
            d.count,
          ))
          ∙ sym (lookup_miss left key gone)
    ])
  ]
    where
      top : ℕ
      top = (left.cells (left.num_cells - 1)).key

-- A full sorted leaf of `max_cells` cells (fewer than 2^31 - 1), split for a cell whose key is
-- absent, becomes two sorted leaves. A key at most the largest of the old one, which is what the
-- parent's separator becomes, is looked up there and any other key in the new one: this finds the
-- new row under its key, and under every other key what the leaf held before the split.
pub divide_cells-Refines :
    (max_cells : ℕ) (node fresh : Leaf) (c : Cell) (key : ℕ)
    → IsSorted node
    → node.num_cells ≡ max_cells
    → suc max_cells < 2147483648
    → Absent node c.key
    → let (left, right) = divide_cells max_cells node fresh (leaf_node_find_cell node c.key) c in
      IsSorted left
      × IsSorted right
      × ((if ltb (left.cells (left.num_cells - 1)).key key
            then leaf_lookup right key
            else leaf_lookup left key)
          ≡ (if key == c.key then some c.value else leaf_lookup node key))
unfolding divide_cells
divide_cells-Refines max_cells node fresh c key s full small absent = (
  left-IsSorted whole left right divided sorted,
  right-IsSorted whole left right divided sorted,
  sym (halves-lookup whole left right divided sorted key (omega arith))
      ∙ Inserted-lookup node c s absent room whole ins key,
)
  where
    r : ℕ
    r = leaf_node_find_cell node c.key

    room : suc node.num_cells < 2147483648
    room = omega arith

    whole : Leaf
    whole = record node { num_cells = suc node.num_cells; cells = insert_at node.cells r c }

    left : Leaf
    left = (divide_cells max_cells node fresh r c).0

    right : Leaf
    right = (divide_cells max_cells node fresh r c).1

    ins : Inserted node (place node c s absent room) c whole
    ins = record { count = refl; cells = λ j h. unfold place in refl }

    sorted : IsSorted whole
    sorted = Inserted-IsSorted node c s absent room whole ins

    divided : DividedInto whole left right
    divided = record {
      count = omega arith;
      lower = λ j h. divide_cells-lower max_cells node fresh r c j h;
      upper = λ j h. divide_cells-upper max_cells node fresh r c j h;
    }
