-- ===== src/Btree/RootSplit.antt =====
-- Splitting a leaf that is the root: the pages afterwards.
use mini_sql.Base.{
  ℕ, ◌+◌, ◌-◌, ◌<◌, ◌≡◌, ◌≢◌, true, false, some, arith, ◌==◌, refl, ◌∙◌, ltb, leb, update,
}
use mini_sql.Schema.{Schema}
use mini_sql.Btree.LeafNode.{divide_cells}
use mini_sql.Btree.{leaf_node_max_cells, Leaf, Internal, Cell, initialize_leaf_node}
use mini_sql.Btree.Store.{
  Page, internal, leaf, Store, Action, ◌>>=◌, fetch, allocate_page, set_parent, get_node_max_key,
  leaf_at, zero_internal, zero_leaf, reparent_if_internal,
}
use mini_sql.Btree.Insertion.{
  leaf_node_insert, attach_sibling, insert_above, create_new_root, new_root,
}

-- The first action of a chain is run.
pub step :
    {A B : Type 0} (first : Action A) (next : A → Action B) {s t : Store} {a : A}
    → first s ≡ some (a, t)
    → (first >>= next) s ≡ next a t
step first next e = rw (◌>>=◌, e) refl

abbrev pub with_page : Store → ℕ → Page → Store
with_page s n page = record s { pages = update s.pages n page }

fetch_at :
    (s : Store) (n : ℕ) {page : Page}
    → n < s.num_pages
    → s.pages n ≡ page
    → fetch n s ≡ some (page, s)
unfolding fetch
fetch_at s n h e = ground (arith, e)

leaf_at-at :
    (s : Store) (n : ℕ) {node : Leaf}
    → n < s.num_pages
    → s.pages n ≡ leaf node
    → leaf_at n s ≡ some (node, s)
unfolding leaf_at
leaf_at-at s n h e = rw (◌>>=◌, fetch_at s n h e) refl

-- Without a free page, the file grows by one.
abbrev pub one_more_page : Store → Store
one_more_page s = record s {
  num_pages = s.num_pages + 1;
  pages = update s.pages s.num_pages (internal zero_internal);
}

pub allocate_page-end :
    (s : Store) → s.free_head ≡ 0 → allocate_page s ≡ some (s.num_pages, one_more_page s)
unfolding allocate_page fetch
allocate_page-end s none_free =
    let empty_list : (s.free_head == 0) ≡ true = ground arith in
    let not_past : ltb s.num_pages s.num_pages ≡ false = ground arith in
    let at_end : (s.num_pages == s.num_pages) ≡ true = ground arith in
    rw (empty_list, ◌>>=◌, not_past, at_end) refl

set_parent_leaf :
    (s : Store) (n p : ℕ) (node : Leaf)
    → n < s.num_pages
    → s.pages n ≡ leaf node
    → set_parent n p s ≡ some (tt, with_page s n (leaf (record node { parent = p })))
unfolding set_parent
set_parent_leaf s n p node h e = rw (◌>>=◌, fetch_at s n h e) refl

get_max_leaf :
    (s : Store) (node : Leaf)
    → 0 < node.num_cells
    → get_node_max_key (leaf node) s ≡ some ((node.cells (node.num_cells - 1)).key, s)
unfolding get_node_max_key
get_max_leaf s node filled = ground arith

-- The new root, with the left half's copy on the page that is added.
abbrev pub above_both : Store → (right : ℕ) → Leaf → Internal
above_both s right left_node =
    new_root s.num_pages right (left_node.cells (left_node.num_cells - 1)).key

-- The store after the first and after the second write of `create_new_root`, and at its end.
abbrev copied : Store → Leaf → Store
copied s left_node =
    with_page (one_more_page s) s.num_pages (leaf (record left_node { is_root = false }))

abbrev rooted : Store → (root right : ℕ) → Leaf → Store
rooted s root right left_node =
    with_page (copied s left_node) root (internal (above_both s right left_node))

abbrev pub grown_store : Store → (root right : ℕ) → Leaf → Leaf → Store
grown_store s root right left_node right_node =
    with_page
      (with_page (rooted s root right left_node) s.num_pages
        (leaf (record left_node { is_root = false; parent = root })))
      right (leaf (record right_node { parent = root }))

module _ (s : Store) (root right : ℕ) (left_node right_node : Leaf) (none_free : s.free_head ≡ 0)
    (apart : root ≢ right) (root_in : root < s.num_pages) (right_in : right < s.num_pages)
    (at_root : s.pages root ≡ leaf left_node) (at_right : s.pages right ≡ leaf right_node)
    (filled : 0 < left_node.num_cells) where
  pub create_new_root-grown :
      create_new_root root right s ≡ some (tt, grown_store s root right left_node right_node)
  unfolding create_new_root reparent_if_internal
  create_new_root-grown =
      let copy : Leaf = record left_node { is_root = false } in
      let three = rooted s root right left_node in
      let four = with_page three s.num_pages (leaf (record copy { parent = root })) in
      step (fetch root) _ (fetch_at s root root_in at_root)
      ∙ step (fetch right) _ (fetch_at s right right_in at_right)
      ∙ step allocate_page _ (allocate_page-end s none_free)
      ∙ step (get_node_max_key (leaf copy)) _ (get_max_leaf (copied s left_node) copy filled)
      ∙ step (set_parent s.num_pages root) _
          (set_parent_leaf three s.num_pages root copy (omega arith) (ground arith))
      ∙ set_parent_leaf four right root right_node (omega arith) (ground arith)

  pub grown-root :
      (grown_store s root right left_node right_node).pages root
      ≡ internal (above_both s right left_node)
  grown-root = ground arith

  pub grown-left :
      (grown_store s root right left_node right_node).pages s.num_pages
      ≡ leaf (record left_node { is_root = false; parent = root })
  grown-left = ground arith

  pub grown-right :
      (grown_store s root right left_node right_node).pages right
      ≡ leaf (record right_node { parent = root })
  grown-right = ground arith

-- `leaf_node_insert` on a full leaf that is the root.
module _ (configured : ℕ) (schema : Schema) (s : Store) (root i : ℕ) (node : Leaf) (c : Cell)
    (none_free : s.free_head ≡ 0) (root_in : root < s.num_pages)
    (at_root : s.pages root ≡ leaf node) (is_root : node.is_root ≡ true)
    (full : node.num_cells ≡ leaf_node_max_cells schema) (two : 1 < node.num_cells) where
  abbrev pub fresh_leaf : Leaf
  fresh_leaf = record (initialize_leaf_node zero_leaf) {
    parent = node.parent;
    next_leaf = node.next_leaf;
  }

  abbrev pub halves : Leaf × Leaf
  halves =
      divide_cells (leaf_node_max_cells schema) (record node { next_leaf = s.num_pages }) fresh_leaf
        i c

  abbrev pub divided_store : Store
  divided_store =
      with_page (with_page (one_more_page s) root (leaf halves.0)) s.num_pages (leaf halves.1)

  abbrev old_max : ℕ
  old_max = (node.cells (node.num_cells - 1)).key

  pub left_filled : 0 < halves.0.num_cells
  unfolding divide_cells
  left_filled = omega arith

  left-is_root : halves.0.is_root ≡ true
  unfolding divide_cells
  left-is_root = is_root

  abbrev pub split_store : Store
  split_store = grown_store divided_store root s.num_pages halves.0 halves.1

  attached :
      (insert : ℕ → ℕ → Action (Unit {0}))
      → attach_sibling insert root s.num_pages old_max (leaf halves.0) divided_store
        ≡ some (tt, split_store)
  unfolding attach_sibling
  attached insert = rw left-is_root (
      create_new_root-grown divided_store root s.num_pages halves.0 halves.1 none_free
        (λ e. omega arith) (omega arith) (omega arith) (ground arith) (ground arith) left_filled)

  pub leaf_node_insert-split :
      leaf_node_insert configured schema root i c s ≡ some (tt, split_store)
  unfolding leaf_node_insert
  leaf_node_insert-split =
      let over : leb (leaf_node_max_cells schema) node.num_cells ≡ true = ground arith in
      rw (◌>>=◌, leaf_at-at s root root_in at_root, over)
        (step (leaf_at root) _ (leaf_at-at s root root_in at_root)
          ∙ step (get_node_max_key (leaf node)) _ (get_max_leaf s node (omega arith))
          ∙ step allocate_page _ (allocate_page-end s none_free)
          ∙ step (fetch s.num_pages) _ (
              fetch_at (one_more_page s) s.num_pages {page = internal zero_internal} (omega arith)
                (ground arith))
          ∙ attached (insert_above configured))
