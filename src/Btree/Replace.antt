-- ===== src/Btree/Replace.antt =====
-- What writing one leaf does to the tree above it, and to the rows that the tree holds.
use mini_sql.Base.{
  ℕ, zero, suc, ◌-◌, ◌<◌, ◌≤◌, ◌≡◌, ◌≢◌, ◌⊎◌, inl, inr, arith, sym, ap, ◌∙◌, subst, compare-cases,
}
use mini_sql.Base.Bytes.{Bytes}
use mini_sql.Btree.{Leaf, Internal}
use mini_sql.Btree.Search.{IsAscending, internal_keys}
use mini_sql.Btree.Store.{Page, internal, leaf, Store}
use mini_sql.Btree.Tree.{
  IsTree, leaf_tree, node_tree, IsLeafIn, Holds, in_leaf, in_child, Descends, here, down,
  child_page, low_of, high_of, same_internal, same_leaf, Holds-range,
}

-- The key is outside the range.
abbrev pub Outside : (key low high : ℕ) → Type 0
Outside key low high = (key < low) ⊎ (high ≤ key)

leaf-ne-internal : {p : Page} {a : Leaf} {b : Internal} → p ≡ leaf a → p ≡ internal b → ⊥
leaf-ne-internal h k = cc

-- The pages of `t` are those of `s` but for leaf `q`, which has a cell with key `k`.
module _ (s t : Store) (q k : ℕ) (old : Leaf) (i : ℕ) (at_q : s.pages q ≡ leaf old)
    (i_in : i < old.num_cells) (key_i : (old.cells i).key ≡ k)
    (same : (n : ℕ) → n ≢ q → t.pages n ≡ s.pages n) (grown : s.num_pages ≤ t.num_pages) where
  other_leaf : {page low high : ℕ} → IsLeafIn s page low high → Outside k low high → page ≢ q
  other_leaf {page} {low} {high} l o e =
      let e' = same_leaf l.at (ap s.pages e ∙ at_q) in
      let b : (low ≤ (old.cells i).key) × ((old.cells i).key < high) =
        subst (λ (n : Leaf). i < n.num_cells → (low ≤ (n.cells i).key) × ((n.cells i).key < high))
          e' (l.keys i) i_in in
      ground arith

  pub other_node : {page : ℕ} (node : Internal) → s.pages page ≡ internal node → page ≢ q
  other_node node at e = leaf-ne-internal at_q (ap s.pages (sym e) ∙ at)

  narrower :
      (node : Internal) (low high j : ℕ)
      → ((i : ℕ) → i < node.num_keys → (low ≤ (node.cells i).key) × ((node.cells i).key < high))
      → j ≤ node.num_keys
      → Outside k low high
      → Outside k (low_of node low j) (high_of node high j)
  narrower node low high j within b o = ground (arith, within j, within (j - 1))

  -- A subtree whose range leaves out the key is untouched.
  pub IsTree-frame :
      {height page low high : ℕ}
      → IsTree s height page low high
      → Outside k low high
      → IsTree t height page low high
  IsTree-frame (leaf_tree l) o = leaf_tree (record {
    node = l.node;
    at = same _ (other_leaf l o) ∙ l.at;
    exists = omega (arith, l.exists);
    sorted = l.sorted;
    keys = l.keys;
    filled = l.filled;
  })
  IsTree-frame {low = low} {high} (node_tree node at exists asc small within below) o =
      node_tree node (same _ (other_node node at) ∙ at) (omega arith) asc small within
        (λ j b. IsTree-frame (below j b) (narrower node low high j within b o))

  -- The subtree holds the same rows before and after.
  pub Holds-frame :
      {key height page low high : ℕ} {row : Bytes}
      → IsTree s height page low high
      → Outside k low high
      → Holds s key row height page
      → Holds t key row height page
  Holds-frame (leaf_tree l) o (in_leaf node j at b e) =
      in_leaf node j (same _ (other_leaf l o) ∙ at) b e
  Holds-frame {key} {low = low} {high} {row}
        (node_tree {height = height} node at exists asc small within below) o
        (in_child node' j at' b h) =
      let e = same_internal at' at in
      let b' = subst (λ (n : Internal). j ≤ n.num_keys) e b in
      in_child node j (same _ (other_node node at) ∙ at) b' (
        Holds-frame (below j b') (narrower node low high j within b' o)
          (subst (λ (n : Internal). Holds s key row height (child_page n j)) e h))

  pub Holds-frame_back :
      {key height page low high : ℕ} {row : Bytes}
      → IsTree s height page low high
      → Outside k low high
      → Holds t key row height page
      → Holds s key row height page
  Holds-frame_back (leaf_tree l) o (in_leaf node j at b e) =
      in_leaf node j (sym (same _ (other_leaf l o)) ∙ at) b e
  Holds-frame_back {key} {low = low} {high} {row}
        (node_tree {height = height} node at exists asc small within below) o
        (in_child node' j at' b h) =
      let e = same_internal (sym (same _ (other_node node at)) ∙ at') at in
      let b' = subst (λ (n : Internal). j ≤ n.num_keys) e b in
      in_child node j at b' (
        Holds-frame_back (below j b') (narrower node low high j within b' o)
          (subst (λ (n : Internal). Holds t key row height (child_page n j)) e h))

-- A key under child `j` is not in the range of child `i`.
apart :
    (node : Internal) (low high k j i : ℕ)
    → IsAscending (internal_keys node) node.num_keys
    → j ≤ node.num_keys
    → i ≤ node.num_keys
    → j ≢ i
    → (low_of node low j ≤ k) × (k < high_of node high j)
    → Outside k (low_of node low i) (high_of node high i)
apart node low high k j i asc b c ne r = ground (arith, asc j (i - 1), asc i (j - 1))

-- Children lie in their parent's range.
Descends-within :
    {s : Store} {q from to height page low high : ℕ}
    → Descends s q from to height page low high
    → (low ≤ from) × (to ≤ high)
Descends-within (here l) = (omega arith, omega arith)
Descends-within (down node i at exists asc small within below b path) =
    ground (arith, Descends-within path, within i, within (i - 1))

module _ (s t : Store) (q k : ℕ) (old : Leaf) (slot : ℕ) (at_q : s.pages q ≡ leaf old)
    (i_in : slot < old.num_cells) (key_i : (old.cells slot).key ≡ k)
    (same : (n : ℕ) → n ≢ q → t.pages n ≡ s.pages n) (grown : s.num_pages ≤ t.num_pages)
    (from to : ℕ) (k_in : (from ≤ k) × (k < to)) (fresh : IsLeafIn t q from to) where
  k-Outside :
      {height : ℕ} (node : Internal) (low high i j : ℕ)
      → IsAscending (internal_keys node) node.num_keys
      → i ≤ node.num_keys
      → j ≤ node.num_keys
      → j ≢ i
      → Descends s q from to height (child_page node i) (low_of node low i) (high_of node high i)
      → Outside k (low_of node low j) (high_of node high j)
  k-Outside node low high i j asc b c ne path =
      let w = Descends-within path in
      apart node low high k i j asc b c (λ e. ne (sym e)) (omega arith, omega arith)

  pub replaced-IsTree :
      {height page low high : ℕ}
      → Descends s q from to height page low high
      → IsTree t height page low high
  replaced-IsTree (here l) = leaf_tree fresh
  replaced-IsTree {low = low} {high}
        (down {height = height} node i at exists asc small within below b path) =
      node_tree node (same _ (other_node s t q k old slot at_q i_in key_i same grown node at) ∙ at)
        (omega arith) asc small within
        (λ j c. elim (compare-cases j i) [
          | inl before ↦
              IsTree-frame s t q k old slot at_q i_in key_i same grown (below j c)
                (k-Outside node low high i j asc b c (λ e. omega arith) path)
          | inr (inl e) ↦
              subst
                (λ (n : ℕ).
                  IsTree t height (child_page node n) (low_of node low n) (high_of node high n))
                (sym e) (replaced-IsTree path)
          | inr (inr after) ↦
              IsTree-frame s t q k old slot at_q i_in key_i same grown (below j c)
                (k-Outside node low high i j asc b c (λ e. omega arith) path)
        ])

  -- The rows of the tree afterwards: the new leaf's, and the tree's old ones outside its range.
  pub replaced-Holds :
      {key height page low high : ℕ} {row : Bytes}
      → Descends s q from to height page low high
      → Holds t key row height page
      → Holds t key row zero q ⊎ (Holds s key row height page × Outside key from to)
  replaced-Holds (here l) h = inl h
  replaced-Holds {key} {low = low} {high} {row}
        (down {height = height} node i at exists asc small within below b path)
        (in_child node' j at' b' h') =
      let e =
        same_internal
          (sym (same _ (other_node s t q k old slot at_q i_in key_i same grown node at)) ∙ at')
          at in
      let c = subst (λ (n : Internal). j ≤ n.num_keys) e b' in
      let h = subst (λ (n : Internal). Holds t key row height (child_page n j)) e h' in
      let other : j ≢ i → Holds s key row (suc height) _ × Outside key from to = λ ne.
        let o = k-Outside node low high i j asc b c ne path in
        let old_row =
          Holds-frame_back s t q k old slot at_q i_in key_i same grown (below j c) o h in
        let w = Descends-within path in
        let out = apart node low high key j i asc c b ne (Holds-range (below j c) old_row) in
        (in_child node j at c old_row, ground arith) in
      elim (compare-cases j i) [
        | inl before ↦ inr (other (λ e. omega arith))
        | inr (inl same_child) ↦
            elim (replaced-Holds path
              (subst (λ (n : ℕ). Holds t key row height (child_page node n)) same_child h)) [
                | inl new_row ↦ inl new_row
                | inr (old_row, o) ↦ inr (in_child node i at b old_row, o)
              ]
        | inr (inr after) ↦ inr (other (λ e. omega arith))
      ]

  pub kept-Holds :
      {key height page low high : ℕ} {row : Bytes}
      → Descends s q from to height page low high
      → Holds s key row height page
      → Holds s key row zero q ⊎ Holds t key row height page
  kept-Holds (here l) h = inl h
  kept-Holds {key} {low = low} {high} {row}
        (down {height = height} node i at exists asc small within below b path)
        (in_child node' j at' b' h') =
      let e = same_internal at' at in
      let there = same _ (other_node s t q k old slot at_q i_in key_i same grown node at) ∙ at in
      let c = subst (λ (n : Internal). j ≤ n.num_keys) e b' in
      let h = subst (λ (n : Internal). Holds s key row height (child_page n j)) e h' in
      let other : j ≢ i → Holds t key row (suc height) _ = λ ne. in_child node j there c (
        Holds-frame s t q k old slot at_q i_in key_i same grown (below j c)
          (k-Outside node low high i j asc b c ne path) h) in
      elim (compare-cases j i) [
        | inl before ↦ inr (other (λ e. omega arith))
        | inr (inl same_child) ↦
            elim (kept-Holds path
              (subst (λ (n : ℕ). Holds s key row height (child_page node n)) same_child h)) [
                | inl old_row ↦ inl old_row
                | inr new_row ↦ inr (in_child node i there b new_row)
              ]
        | inr (inr after) ↦ inr (other (λ e. omega arith))
      ]

  -- What the new leaf holds, the tree holds.
  pub new-Holds :
      {key height page low high : ℕ} {row : Bytes}
      → Descends s q from to height page low high
      → Holds t key row zero q
      → Holds t key row height page
  new-Holds (here l) h = h
  new-Holds (down node i at exists asc small within below b path) h =
      in_child node i (same _ (other_node s t q k old slot at_q i_in key_i same grown node at) ∙ at)
        b (new-Holds path h)
