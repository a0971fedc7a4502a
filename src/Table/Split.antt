-- ===== src/Table/Split.antt =====
-- The tree and the rows after a root leaf is split.
use mini_sql.Base.{
  ℕ, suc, ◌+◌, ◌-◌, ◌<◌, ◌≤◌, ◌≡◌, ◌↔◌, ◌⊎◌, inl, inr, true, false, arith, ◌==◌, ==_iff, Bool-cases,
  refl, sym, ap, subst,
}
use mini_sql.Base.Bytes.{Bytes}
use mini_sql.Schema.{Schema, u32_mod}
use mini_sql.Btree.{
  Leaf, Cell, Internal, leaf_node_find_cell, leaf_node_max_cells, initialize_leaf_node,
}
use mini_sql.Table.Rows.{max_cells_small}
use mini_sql.Btree.LeafNode.{divide_cells}
use mini_sql.Btree.LeafNode.Lookup.{IsSorted, Absent}
use mini_sql.Btree.LeafNode.Split.{DividedInto, left-IsSorted, right-IsSorted, halves-ordered}
use mini_sql.Btree.Store.{leaf, internal, Store}
use mini_sql.Btree.Tree.{
  IsTree, leaf_tree, node_tree, IsLeafIn, Holds, in_leaf, in_child, same_internal, child_page,
  low_of, high_of,
}
use mini_sql.Btree.Insertion.{new_root}
use mini_sql.Btree.RootSplit.{
  halves, fresh_leaf, split_store, divided_store, above_both, grown-root, grown-left, grown-right,
}
use mini_sql.Table.Contents.{HoldsRow, HasCell, Holds-height, cell_of}
use mini_sql.Table.Shape.{TwoLeaves}
use mini_sql.Table.Parts.{whole, whole-DividedInto, whole-IsSorted, whole_iff, parts_iff}

module _ (configured : ℕ) (schema : Schema) (s : Store) (root : ℕ) (node : Leaf) (c : Cell)
    (none_free : s.free_head ≡ 0) (root_in : root < s.num_pages)
    (at_root : s.pages root ≡ leaf node) (is_root : node.is_root ≡ true)
    (full : node.num_cells ≡ leaf_node_max_cells schema) (two : 1 < node.num_cells)
    (sorted : IsSorted node) (gone : Absent node c.key)
    (keys : (i : ℕ) → i < node.num_cells → (node.cells i).key < u32_mod)
    (small : c.key < u32_mod) where
  abbrev cell_num : ℕ
  cell_num = leaf_node_find_cell node c.key

  abbrev fresh : Leaf
  fresh =
      fresh_leaf configured schema s root cell_num node c none_free root_in at_root is_root full two

  abbrev both : Leaf × Leaf
  both = halves configured schema s root cell_num node c none_free root_in at_root is_root full two

  abbrev pub after : Store
  after =
      split_store configured schema s root cell_num node c none_free root_in at_root is_root full
        two

  abbrev divided_here : Store
  divided_here =
      divided_store configured schema s root cell_num node c none_free root_in at_root is_root full
        two

  few : suc (leaf_node_max_cells schema) < 2147483648
  few = let bound = max_cells_small schema in omega arith

  all : Leaf
  all = whole (leaf_node_max_cells schema) s.num_pages node fresh c sorted gone few full

  divided : DividedInto all both.0 both.1
  unfolding all
  divided =
      whole-DividedInto (leaf_node_max_cells schema) s.num_pages node fresh c sorted gone few full

  all-IsSorted : IsSorted all
  unfolding all
  all-IsSorted =
      whole-IsSorted (leaf_node_max_cells schema) s.num_pages node fresh c sorted gone few full

  left-filled : 0 < both.0.num_cells
  unfolding divide_cells
  left-filled = omega arith

  right-filled : 0 < both.1.num_cells
  unfolding divide_cells
  right-filled = omega arith

  all_keys : (i : ℕ) → i < all.num_cells → (all.cells i).key < u32_mod
  unfolding all
  all_keys i h =
      elim ((whole_iff (leaf_node_max_cells schema) s.num_pages node fresh c sorted gone few full
          (all.cells i).key (all.cells i).value).0
        (i, (h, refl))) [
          | inl (same, row) ↦ omega arith
          | inr (j, (b, e)) ↦
              let k = ap (λ (x : Cell). x.key) e in let bound = keys j b in omega arith
        ]

  abbrev left_max : ℕ
  left_max = (both.0.cells (both.0.num_cells - 1)).key

  left_page :
      after.pages (s.num_pages + 1) ≡ leaf (record both.0 { is_root = false; parent = root })
  left_page =
      grown-left divided_here root s.num_pages both.0 both.1 none_free (λ e. omega arith)
        (omega arith) (omega arith) (ground arith) (ground arith) left-filled

  right_page : after.pages s.num_pages ≡ leaf (record both.1 { parent = root })
  right_page =
      grown-right divided_here root s.num_pages both.0 both.1 none_free (λ e. omega arith)
        (omega arith) (omega arith) (ground arith) (ground arith) left-filled

  right_not_root : both.1.is_root ≡ false
  unfolding divide_cells initialize_leaf_node
  right_not_root = refl

  left_in : IsLeafIn after (s.num_pages + 1) 0 (suc left_max)
  left_in =
      let p = left-IsSorted all both.0 both.1 divided all-IsSorted in
      record {
        node = record both.0 { is_root = false; parent = root };
        at = left_page;
        exists = omega arith;
        sorted = record { ascends = p.ascends; small = p.small };
        keys = λ i h. (omega arith, ground (arith, p.ascends i (both.0.num_cells - 1)));
        filled = left-filled;
      }

  right_in : IsLeafIn after s.num_pages (suc left_max) u32_mod
  right_in =
      let p = right-IsSorted all both.0 both.1 divided all-IsSorted in
      record {
        node = record both.1 { parent = root };
        at = right_page;
        exists = omega arith;
        sorted = record { ascends = p.ascends; small = p.small };
        keys = λ i h.
            let above =
              halves-ordered all both.0 both.1 divided all-IsSorted (both.0.num_cells - 1) i
                (omega (arith, left-filled)) h in
            let place = ap (λ (x : Cell). x.key) (divided.upper i h) in
            let bound = all_keys (both.0.num_cells + i) (omega (arith, divided.count)) in
            (omega arith, omega arith);
        filled = right-filled;
      }

  abbrev top : Internal
  top = above_both divided_here s.num_pages both.0

  top_at : after.pages root ≡ internal top
  top_at =
      grown-root divided_here root s.num_pages both.0 both.1 none_free (λ e. omega arith)
        (omega arith) (omega arith) (ground arith) (ground arith) left-filled

  children-IsTree :
      (i : ℕ)
      → i ≤ top.num_keys
      → IsTree after 0 (child_page top i) (low_of top 0 i) (high_of top u32_mod i)
  unfolding new_root
  children-IsTree i h = elim (Bool-cases (i == 0)) [
    | inl first ↦
        subst
          (λ (n : ℕ). IsTree after 0 (child_page top n) (low_of top 0 n) (high_of top u32_mod n))
          (sym ((==_iff i 0).0 first)) (leaf_tree left_in)
    | inr second ↦
        let one : i ≡ 1 = ground arith in
        subst
          (λ (n : ℕ). IsTree after 0 (child_page top n) (low_of top 0 n) (high_of top u32_mod n))
          (sym one) (leaf_tree right_in)
  ]

  left_max_small : left_max < u32_mod
  left_max_small =
      let place =
        ap (λ (x : Cell). x.key)
          (divided.lower (both.0.num_cells - 1) (omega (arith, left-filled))) in
      let bound = all_keys (both.0.num_cells - 1) (omega (arith, divided.count, left-filled)) in
      omega arith

  pub after-IsTree : IsTree after 1 root 0 u32_mod
  unfolding new_root
  after-IsTree =
      node_tree top top_at (omega arith) (λ i j l h. absurd (omega arith)) (omega arith)
        (λ i h. ground (arith, left_max_small)) children-IsTree

  pub after-TwoLeaves : TwoLeaves after root s.num_pages node
  unfolding new_root divide_cells
  after-TwoLeaves = record {
    top = top;
    left = record both.0 { is_root = false; parent = root };
    right = record both.1 { parent = root };
    at_root = top_at;
    at_left = left_page;
    at_right = right_page;
    file_size = omega arith;
    top_is_root = refl;
    one_key = refl;
    first_child = refl;
    last_child = refl;
    separator = refl;
    left_below = (refl, refl);
    right_below = (right_not_root, refl);
    chain = (refl, refl);
    all_cells = omega arith;
    balanced = (omega arith, omega arith);
  }

  in_part :
      (k : ℕ) (row : Bytes) (i : ℕ)
      → i ≤ top.num_keys
      → Holds after k row 0 (child_page top i)
      → HasCell both.0 k row ⊎ HasCell both.1 k row
  unfolding new_root left_in right_in
  in_part k row i b h = elim (Bool-cases (i == 0)) [
    | inl first ↦ inl (
        cell_of (record both.0 { is_root = false; parent = root }) left_in.at
          (subst (λ (n : ℕ). Holds after k row 0 (child_page top n)) ((==_iff i 0).0 first) h))
    | inr second ↦
        let one : i ≡ 1 = ground arith in
        inr (
          cell_of (record both.1 { parent = root }) right_in.at
            (subst (λ (n : ℕ). Holds after k row 0 (child_page top n)) one h))
  ]

  held_in_part :
      (k : ℕ) (row : Bytes) → Holds after k row 1 root → HasCell both.0 k row ⊎ HasCell both.1 k row
  held_in_part k row (in_child node' i at' b h) =
      let e = same_internal at' top_at in
      in_part k row i (subst (λ (n : Internal). i ≤ n.num_keys) e b)
        (subst (λ (n : Internal). Holds after k row 0 (child_page n i)) e h)

  -- What a leaf below the new root holds is in one of the two parts.
  parts_of :
      (k : ℕ) (row : Bytes)
      → HoldsRow after root k row ↔ (HasCell both.0 k row ⊎ HasCell both.1 k row)
  unfolding left_in right_in new_root
  parts_of k row = (
    λ held. held_in_part k row (Holds-height after-IsTree held.1),
    λ h. elim h [
      | inl (i, (b, e)) ↦ (
        1,
        in_child top 0 top_at (omega arith)
            (in_leaf (record both.0 { is_root = false; parent = root }) i left_in.at b e),
      )
      | inr (i, (b, e)) ↦ (
        1,
        in_child top 1 top_at (omega arith)
            (in_leaf (record both.1 { parent = root }) i right_in.at b e),
      )
    ],
  )

  pub after_iff :
      (k : ℕ) (row : Bytes)
      → HoldsRow after root k row ↔ (((k ≡ c.key) × (row ≡ c.value)) ⊎ HasCell node k row)
  unfolding all
  after_iff k row =
      let p =
        parts_iff (leaf_node_max_cells schema) s.num_pages node fresh c sorted gone few full k
          row in
      let w =
        whole_iff (leaf_node_max_cells schema) s.num_pages node fresh c sorted gone few full k
          row in
      (λ h. w.0 (p.0 ((parts_of k row).0 h)), λ h. (parts_of k row).1 (p.1 (w.1 h)))
