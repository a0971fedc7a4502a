-- ===== src/Btree/Tree.antt =====
-- What it means for the pages under a page to be a search tree, and what rows it holds.
use mini_sql.Base.{
  ℕ, zero, suc, ◌-◌, ◌<◌, ◌≤◌, ◌≡◌, arith, if◌then◌else◌, ◌==◌, sym, ap, subst, ◌∙◌,
}
use mini_sql.Base.Bytes.{Bytes}
use mini_sql.Btree.{Leaf, Internal, Cell}
use mini_sql.Btree.Search.{IsAscending, internal_keys}
use mini_sql.Btree.LeafNode.Lookup.{IsSorted}
use mini_sql.Btree.Store.{Page, internal, leaf, free, other, Store}

-- The page of child `i` of an internal node, for `i` up to `num_keys`.
abbrev pub child_page : Internal → ℕ → ℕ
child_page node i = if i == node.num_keys then node.right_child else (node.cells i).child

-- The keys under child `i`, given that those under the node are `low` to `high`, `high` excluded:
-- above the separator before it, up to the one behind it.
abbrev pub low_of : Internal → ℕ → ℕ → ℕ
low_of node low i = if i == 0 then low else suc (node.cells (i - 1)).key

abbrev pub high_of : Internal → ℕ → ℕ → ℕ
high_of node high i = if i == node.num_keys then high else suc (node.cells i).key

-- A leaf, not empty, with all its keys in the range.
pub record IsLeafIn (s : Store) (page low high : ℕ) : Type 0 where
  pub node : Leaf
  pub at : s.pages page ≡ leaf node
  pub exists : page < s.num_pages
  pub sorted : IsSorted node
  pub keys : (i : ℕ) → i < node.num_cells → (low ≤ (node.cells i).key) × ((node.cells i).key < high)
  pub filled : 0 < node.num_cells

-- The pages under `page` are a search tree of the given height, all of whose keys are `low` to
-- `high`, `high` excluded.
pub data IsTree (s : Store) : (height page low high : ℕ) → Type 0 where
  leaf_tree : {page low high : ℕ} → IsLeafIn s page low high → IsTree s zero page low high
  node_tree :
      {height page low high : ℕ} (node : Internal)
      → s.pages page ≡ internal node
      → page < s.num_pages
      → IsAscending (internal_keys node) node.num_keys
      → node.num_keys < 2147483648
      → ((i : ℕ) → i < node.num_keys → (low ≤ (node.cells i).key) × ((node.cells i).key < high))
      → ((i : ℕ)
          → i ≤ node.num_keys
          → IsTree s height (child_page node i) (low_of node low i) (high_of node high i))
      → IsTree s (suc height) page low high

-- Some leaf under the page has a cell with this key and row: nothing is said of how to find it.
pub data Holds (s : Store) (key : ℕ) (row : Bytes) : (height page : ℕ) → Type 0 where
  in_leaf :
      {page : ℕ} (node : Leaf) (i : ℕ)
      → s.pages page ≡ leaf node
      → i < node.num_cells
      → node.cells i ≡ record { key = key; value = row }
      → Holds s key row zero page
  in_child :
      {height page : ℕ} (node : Internal) (i : ℕ)
      → s.pages page ≡ internal node
      → i ≤ node.num_keys
      → Holds s key row height (child_page node i)
      → Holds s key row (suc height) page

-- The leaf on page `target`, whose range is `from` to `to`, is under the page; on the way down all
-- is a tree.
pub data Descends (s : Store) (target from to : ℕ) : (height page low high : ℕ) → Type 0 where
  here : IsLeafIn s target from to → Descends s target from to zero target from to
  down :
      {height page low high : ℕ} (node : Internal) (i : ℕ)
      → s.pages page ≡ internal node
      → page < s.num_pages
      → IsAscending (internal_keys node) node.num_keys
      → node.num_keys < 2147483648
      → ((j : ℕ) → j < node.num_keys → (low ≤ (node.cells j).key) × ((node.cells j).key < high))
      → ((j : ℕ)
          → j ≤ node.num_keys
          → IsTree s height (child_page node j) (low_of node low j) (high_of node high j))
      → i ≤ node.num_keys
      → Descends s target from to height
          (child_page node i)
          (low_of node low i)
          (high_of node high i)
      → Descends s target from to (suc height) page low high

internal_of : Internal → Page → Internal
internal_of default (internal node) = node
internal_of default (leaf node) = default
internal_of default (free n) = default
internal_of default other = default

leaf_of : Leaf → Page → Leaf
leaf_of default (internal node) = default
leaf_of default (leaf node) = node
leaf_of default (free n) = default
leaf_of default other = default

-- A page is one node.
pub same_internal : {p : Page} {a b : Internal} → p ≡ internal a → p ≡ internal b → a ≡ b
unfolding internal_of
same_internal {p} {a} {b} h k = ap (internal_of a) (sym h ∙ k)

pub same_leaf : {p : Page} {a b : Leaf} → p ≡ leaf a → p ≡ leaf b → a ≡ b
unfolding leaf_of
same_leaf {p} {a} {b} h k = ap (leaf_of a) (sym h ∙ k)

-- A key under a page lies in the page's range.
pub Holds-range :
    {s : Store} {key : ℕ} {row : Bytes} {height page low high : ℕ}
    → IsTree s height page low high
    → Holds s key row height page
    → (low ≤ key) × (key < high)
Holds-range {low = low} {high = high} (leaf_tree t) (in_leaf node i at inside cell) =
    let bounds : (low ≤ (node.cells i).key) × ((node.cells i).key < high) =
      subst (λ (n : Leaf). i < n.num_cells → (low ≤ (n.cells i).key) × ((n.cells i).key < high))
        (same_leaf t.at at) (t.keys i) inside in
    let same = ap (λ (c : Cell). c.key) cell in omega arith
Holds-range {s} {key} {row} (node_tree {height = height} node at exists asc small within below)
      (in_child node' i at' inside h) =
    let e = same_internal at' at in
    let bounds =
      Holds-range (below i (subst (λ (n : Internal). i ≤ n.num_keys) e inside))
        (subst (λ (n : Internal). Holds s key row height (child_page n i)) e h) in
    ground (arith, within i, within (i - 1), subst (λ (n : Internal). i ≤ n.num_keys) e inside)
