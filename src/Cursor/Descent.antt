-- ===== src/Cursor/Descent.antt =====
-- The descent of `table_find` ends at the one leaf that can hold the key.
use mini_sql.Base.{ℕ, zero, suc, ◌-◌, ◌<◌, ◌≤◌, ◌≡◌, some, arith, refl, ◌∙◌, subst}
use mini_sql.Base.Bytes.{Bytes}
use mini_sql.Btree.{Leaf, Internal, internal_node_child, internal_node_find_child}
use mini_sql.Btree.Search.{Splits, internal_keys, find_child-Splits}
use mini_sql.Btree.Store.{internal, leaf, Store, ◌>>=◌, fetch}
use mini_sql.Btree.Tree.{
  IsTree, leaf_tree, node_tree, IsLeafIn, Holds, in_child, same_internal, Holds-range, Descends,
  here, down, child_page, low_of, high_of,
}
use mini_sql.Cursor.{descend, follow}

-- The child that `internal_node_find_child` chooses is the one in whose range the key is.
module _ (node : Internal) (key low high i : ℕ)
    (split : Splits (internal_keys node) node.num_keys key i) where
  pub chosen-range :
      low ≤ key → key < high → (low_of node low i ≤ key) × (key < high_of node high i)
  chosen-range l h = ground (arith, split.within, split.below (i - 1), split.above i)

  pub chosen_only :
      (j : ℕ) → j ≤ node.num_keys → low_of node low j ≤ key → key < high_of node high j → j ≡ i
  chosen_only j b l h = ground (arith, split.within, split.below j, split.above (j - 1))

  pub chosen_page : internal_node_child node i ≡ some (child_page node i)
  unfolding internal_node_child
  chosen_page = ground (arith, split.within)

-- Where the descent for a key ends: at a leaf that holds what the tree holds under that key.
pub record Reaches (s : Store) (fuel key height page from to : ℕ) : Type 0 where
  pub leaf_page : ℕ
  pub low : ℕ
  pub high : ℕ
  pub target : IsLeafIn s leaf_page low high
  pub run : descend fuel page key s ≡ some ((leaf_page, target.node), s)
  pub range : (low ≤ key) × (key < high)
  pub path : Descends s leaf_page low high height page from to
  pub only : (row : Bytes) → Holds s key row height page → Holds s key row zero leaf_page
  pub back : (row : Bytes) → Holds s key row zero leaf_page → Holds s key row height page

pub fetch_lem : (s : Store) (n : ℕ) → n < s.num_pages → fetch n s ≡ some (s.pages n, s)
unfolding fetch
fetch_lem s n h = ground arith

pub descend_leaf :
    (s : Store) (fuel key page : ℕ) (node : Leaf)
    → page < s.num_pages
    → s.pages page ≡ leaf node
    → descend (suc fuel) page key s ≡ some ((page, node), s)
unfolding descend follow
descend_leaf s fuel key page node h e = rw (fetch_lem s page h, ◌>>=◌, e) refl

descend_node :
    (s : Store) (fuel key page child : ℕ) (node : Internal)
    → page < s.num_pages
    → s.pages page ≡ internal node
    → internal_node_child node (internal_node_find_child node key) ≡ some child
    → descend (suc fuel) page key s ≡ descend fuel child key s
unfolding descend follow
descend_node s fuel key page child node h e c = rw (fetch_lem s page h, ◌>>=◌, e, c) refl

-- What a node holds under a key, the chosen child holds.
chosen-Holds :
    (s : Store) (key low high i : ℕ) {row : Bytes} {height page : ℕ} (node : Internal)
    → s.pages page ≡ internal node
    → Splits (internal_keys node) node.num_keys key i
    → ((j : ℕ)
        → j ≤ node.num_keys
        → IsTree s height (child_page node j) (low_of node low j) (high_of node high j))
    → Holds s key row (suc height) page
    → Holds s key row height (child_page node i)
chosen-Holds s key low high i {row} {height} node at split below (in_child node' j at' inside h) =
    let e = same_internal at' at in
    let b = subst (λ (n : Internal). j ≤ n.num_keys) e inside in
    let h' = subst (λ (n : Internal). Holds s key row height (child_page n j)) e h in
    let range = Holds-range (below j b) h' in
    subst (λ (k : ℕ). Holds s key row height (child_page node k))
      (chosen_only node key low high i split j b range.0 range.1) h'

pub descend-Reaches :
    (s : Store) (fuel key : ℕ) {height page low high : ℕ}
    → IsTree s height page low high
    → height < fuel
    → low ≤ key
    → key < high
    → Reaches s fuel key height page low high
descend-Reaches s zero key t h l b = absurd (omega arith)
descend-Reaches s (suc fuel) key {page = page} {low} {high} (leaf_tree t) h l b = record {
  leaf_page = page;
  low = low;
  high = high;
  target = t;
  run = descend_leaf s fuel key page t.node t.exists t.at;
  range = (l, b);
  path = here t;
  only = λ row x. x;
  back = λ row x. x;
}
descend-Reaches s (suc fuel) key {page = page} {low} {high}
      (node_tree {height = height} node at exists asc small within below) h l b =
    let i = internal_node_find_child node key in
    let split = (find_child-Splits node key asc small).0 in
    let inside = chosen-range node key low high i split l b in
    let r = descend-Reaches s fuel key (below i split.within) (omega arith) inside.0 inside.1 in
    record {
      leaf_page = r.leaf_page;
      low = r.low;
      high = r.high;
      target = r.target;
      run =
          descend_node s fuel key page (child_page node i) node exists at
            (chosen_page node key low high i split)
          ∙ r.run;
      range = r.range;
      path = down node i at exists asc small within below split.within r.path;
      only = λ row x. r.only row (chosen-Holds s key low high i node at split below x);
      back = λ row x. in_child node i at split.within (r.back row x);
    }
