-- ===== src/Table/Contents.antt =====
-- What it means for pages to be a table, and what rows it has.
use mini_sql.Base.{ℕ, zero, ◌<◌, ◌≤◌, ◌≡◌, arith, sym, ◌∙◌, subst}
use mini_sql.Base.Bytes.{Bytes}
use mini_sql.Schema.{u32_mod}
use mini_sql.Btree.{Leaf, Internal}
use mini_sql.Btree.Store.{leaf, Store}
use mini_sql.Btree.Tree.{
  IsTree, leaf_tree, node_tree, Holds, in_leaf, in_child, same_internal, same_leaf, child_page,
}

-- A table's pages: a search tree that is no higher than it has pages, or one empty leaf.
pub data IsTable (s : Store) (root : ℕ) : Type 0 where
  grown : {height : ℕ} → height ≤ s.num_pages → IsTree s height root 0 u32_mod → IsTable s root
  empty :
      (node : Leaf)
      → s.pages root ≡ leaf node
      → root < s.num_pages
      → node.num_cells ≡ 0
      → IsTable s root

-- The table has the row under the key.
abbrev pub HoldsRow : Store → ℕ → ℕ → Bytes → Type 0
HoldsRow s root key row = (height : ℕ) × Holds s key row height root

-- All paths of a tree are of one length.
pub Holds-height :
    {s : Store} {key : ℕ} {row : Bytes} {height height' page low high : ℕ}
    → IsTree s height page low high
    → Holds s key row height' page
    → Holds s key row height page
Holds-height (leaf_tree l) (in_leaf node i at b e) = in_leaf node i at b e
Holds-height (leaf_tree l) (in_child node i at b h) = let both = sym l.at ∙ at in absurd (cc)
Holds-height (node_tree node at exists asc small within below) (in_leaf node' i at' b e) =
    let both = sym at ∙ at' in absurd (cc)
Holds-height {s} {key} {row} (node_tree node at exists asc small within below)
      (in_child {height = h'} node' i at' b' h) =
    let e = same_internal at' at in
    let b = subst (λ (n : Internal). i ≤ n.num_keys) e b' in
    in_child node i at b
      (Holds-height (below i b) (subst (λ (n : Internal). Holds s key row h' (child_page n i)) e h))

-- Cell `i` of the node is the row under the key.
abbrev pub IsCell : Leaf → ℕ → ℕ → Bytes → Type 0
IsCell node i key row = (i < node.num_cells) × (node.cells i ≡ record { key = key; value = row })

-- Some cell of the leaf is the row under the key.
abbrev pub HasCell : Leaf → ℕ → Bytes → Type 0
HasCell node key row = (i : ℕ) × IsCell node i key row

pub cell_of :
    {s : Store} {key page : ℕ} {row : Bytes} (node : Leaf)
    → s.pages page ≡ leaf node
    → Holds s key row zero page
    → (i : ℕ) × IsCell node i key row
cell_of {key = key} {row = row} node at (in_leaf node' i at' b e) =
    (i, subst (λ (n : Leaf). IsCell n i key row) (same_leaf at' at) (b, e))

pub empty_row :
    {s : Store} {key height page : ℕ} {row : Bytes} (node : Leaf)
    → s.pages page ≡ leaf node
    → node.num_cells ≡ 0
    → Holds s key row height page
    → ⊥
empty_row node at none_in (in_leaf node' i at' b e) =
    let h = subst (λ (n : Leaf). i < n.num_cells) (same_leaf at' at) b in omega arith
empty_row node at none_in (in_child node' i at' b h) = let both = sym at ∙ at' in cc
