-- ===== src/Table/Shape.antt =====
-- The pages that the split of a root leaf leaves.
use mini_sql.Base.{ℕ, suc, ◌+◌, ◌-◌, ◌≤◌, ◌≡◌, true, false}
use mini_sql.Btree.{Leaf, Internal}
use mini_sql.Btree.Store.{leaf, internal, Store}

-- The root's page and two leaves below it, in a file that has grown by their two pages, number
-- `pages` for the right one: `node` is the leaf that was split, with one cell more.
pub record TwoLeaves (t : Store) (root pages : ℕ) (node : Leaf) : Type 0 where
  pub top : Internal
  pub left : Leaf
  pub right : Leaf
  pub at_root : t.pages root ≡ internal top
  pub at_left : t.pages (pages + 1) ≡ leaf left
  pub at_right : t.pages pages ≡ leaf right
  pub file_size : t.num_pages ≡ pages + 2
  pub top_is_root : top.is_root ≡ true
  pub one_key : top.num_keys ≡ 1
  pub first_child : (top.cells 0).child ≡ pages + 1
  pub last_child : top.right_child ≡ pages
  pub separator : (top.cells 0).key ≡ (left.cells (left.num_cells - 1)).key
  pub left_below : (left.is_root ≡ false) × (left.parent ≡ root)
  pub right_below : (right.is_root ≡ false) × (right.parent ≡ root)
  pub chain : (left.next_leaf ≡ pages) × (right.next_leaf ≡ node.next_leaf)
  pub all_cells : left.num_cells + right.num_cells ≡ suc node.num_cells
  pub balanced : (right.num_cells ≤ left.num_cells) × (left.num_cells ≤ suc right.num_cells)
