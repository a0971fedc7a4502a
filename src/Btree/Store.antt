-- ===== src/Btree/Store.antt =====
-- The pages of a file as src/btree.c sees them through src/pager.c: each is a node, a page of the free
-- list or something else, and a function of the b-tree that takes a pager is an action on them.
-- `none` stands for an exit of the source. A pointer into a page is read and written through at
-- once, so an action reads a page again where the source reads it after a call that may write it.
-- Reading a page as a node of another kind than it is, which the source never means to do, is `none`
-- as well; and so is a loop that has not ended when its fuel has, see `Btree.Tree`.
use mini_sql.Base.{
  ℕ, zero, suc, ◌+◌, ◌-◌, Bool, false, Option, none, some, ltb, ◌==◌, if◌then◌else◌, update,
}
use mini_sql.Btree.{Leaf, Internal, zero_route, zero_cell, internal_node_child}

pub data Page : Type 0 where
  internal : Internal → Page
  leaf : Leaf → Page
  -- Marked FREE_PAGE_MARKER, with the next page of the free list.
  free : ℕ → Page
  -- Anything else, such as the file header.
  other : Page

-- The zero-filled page: its type byte says NODE_INTERNAL.
abbrev pub zero_internal : Internal
zero_internal = record {
  is_root = false;
  parent = 0;
  num_keys = 0;
  right_child = 0;
  cells = λ i. zero_route;
}

abbrev pub zero_leaf : Leaf
zero_leaf = record {
  is_root = false;
  parent = 0;
  num_cells = 0;
  next_leaf = 0;
  cells = λ i. zero_cell;
}

pub record Store : Type 0 where
  pub num_pages : ℕ
  pub pages : ℕ → Page
  pub free_head : ℕ

abbrev pub Action : Type 0 → Type 0
Action A = Store → Option (A × Store)

abbrev pub pure : {A : Type 0} → A → Action A
pure a s = some (a, s)

abbrev pub quit : {A : Type 0} → Action A
quit s = none

infixl 5 ◌>>=◌ ◌>>◌
abbrev pub ◌>>=◌ : {A B : Type 0} → Action A → (A → Action B) → Action B
◌>>=◌ act next s = elim (act s) [ none ↦ none | some (a, t) ↦ next a t ]

abbrev pub ◌>>◌ : {B : Type 0} → Action (Unit {0}) → Action B → Action B
act >> next = act >>= λ _. next

-- What an `Option` holds.
abbrev pub given : {A : Type 0} → Option A → Action A
given none s = none
given (some a) s = some (a, s)

abbrev pub write : ℕ → Page → Action (Unit {0})
write n page s = some (tt, record s { pages = update s.pages n page })

-- `pager_get_page`: the page just past the end is added, zero-filled.
unfoldable pub fetch : ℕ → Action Page
fetch n s =
    if ltb s.num_pages n
    then none
    else if n == s.num_pages
    then some (
      internal zero_internal,
      record s { num_pages = n + 1; pages = update s.pages n (internal zero_internal) },
    )
    else some (s.pages n, s)

abbrev as_internal : Page → Action Internal
as_internal (internal node) = pure node
as_internal (leaf node) = quit
as_internal (free next) = quit
as_internal other = quit

abbrev as_leaf : Page → Action Leaf
as_leaf (internal node) = quit
as_leaf (leaf node) = pure node
as_leaf (free next) = quit
as_leaf other = quit

unfoldable pub internal_at : ℕ → Action Internal
internal_at n = do page ← fetch n; as_internal page

unfoldable pub leaf_at : ℕ → Action Leaf
leaf_at n = do page ← fetch n; as_leaf page

-- The fields that both kinds of node have.
abbrev pub page_is_root : Page → Option Bool
page_is_root (internal node) = some node.is_root
page_is_root (leaf node) = some node.is_root
page_is_root (free next) = none
page_is_root other = none

abbrev pub page_parent : Page → Option ℕ
page_parent (internal node) = some node.parent
page_parent (leaf node) = some node.parent
page_parent (free next) = none
page_parent other = none

abbrev pub with_root : Bool → Page → Option Page
with_root b (internal node) = some (internal (record node { is_root = b }))
with_root b (leaf node) = some (leaf (record node { is_root = b }))
with_root b (free next) = none
with_root b other = none

abbrev pub with_parent : ℕ → Page → Option Page
with_parent p (internal node) = some (internal (record node { parent = p }))
with_parent p (leaf node) = some (leaf (record node { parent = p }))
with_parent p (free next) = none
with_parent p other = none

-- `*node_parent(node) = parent_page_num`, for the node on page `n`.
unfoldable pub set_parent : ℕ → ℕ → Action (Unit {0})
set_parent n parent_page_num = do
  page ← fetch n
  changed ← given (with_parent parent_page_num page)
  write n changed

-- `pager_allocate_page`'s first case, for the page at the head of the free list.
abbrev take_free : ℕ → Page → Action ℕ
take_free n (internal node) s = none
take_free n (leaf node) s = none
take_free n (free next) s =
    some (n, record s { free_head = next; pages = update s.pages n (internal zero_internal) })
take_free n other s = none

unfoldable pub allocate_page : Action ℕ
allocate_page s =
    if s.free_head == 0
    then (do _ ← fetch s.num_pages; pure s.num_pages) s
    else (do page ← fetch s.free_head; take_free s.free_head page) s

unfoldable pub free_page : ℕ → Action (Unit {0})
free_page n = do
  _ ← fetch n
  λ s. some (tt, record s { pages = update s.pages n (free s.free_head); free_head = n })

-- More rounds than a walk from page to page can make without meeting a page twice.
abbrev pub rounds : Store → ℕ
rounds s = suc s.num_pages

abbrev leaf_max_key : Leaf → Action ℕ
leaf_max_key node = if node.num_cells == 0 then quit else pure (node.cells (node.num_cells - 1)).key

-- `get_node_max_key` from a page: down the right children to a leaf, and its last key. An empty
-- leaf has none; the source asks its callers for a node that is not empty.
unfoldable pub max_key_loop : ℕ → Page → Action ℕ
max_key_loop zero page = quit
max_key_loop (suc fuel) (internal node) = do page ← fetch node.right_child; max_key_loop fuel page
max_key_loop (suc fuel) (leaf node) = leaf_max_key node
max_key_loop (suc fuel) (free next) = quit
max_key_loop (suc fuel) other = quit

unfoldable pub get_node_max_key : Page → Action ℕ
unfolding max_key_loop
get_node_max_key page s = max_key_loop (rounds s) page s

-- The loop of `reparent_children` over child `i` and the `count` children behind it.
unfoldable pub reparent_from : Internal → ℕ → ℕ → ℕ → Action (Unit {0})
unfolding set_parent
reparent_from node page_num i zero = pure tt
reparent_from node page_num i (suc count) = do
  child ← given (internal_node_child node i)
  set_parent child page_num
  reparent_from node page_num (suc i) count

unfoldable pub reparent_children : Internal → ℕ → Action (Unit {0})
unfolding reparent_from
reparent_children node page_num = reparent_from node page_num 0 (suc node.num_keys)

-- `if(get_node_type(node) == NODE_INTERNAL) reparent_children(...)`.
unfoldable pub reparent_if_internal : Page → ℕ → Action (Unit {0})
unfolding reparent_children
reparent_if_internal (internal node) page_num = reparent_children node page_num
reparent_if_internal (leaf node) page_num = pure tt
reparent_if_internal (free next) page_num = pure tt
reparent_if_internal other page_num = pure tt
