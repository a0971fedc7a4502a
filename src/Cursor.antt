-- ===== src/Cursor.antt =====
-- src/cursor.c and include/cursor.h: a position in the leaves of a table's b-tree. The table that a
-- cursor belongs to is an argument. An `assert` that fails is `none`.
pub mod Descent
use mini_sql.Base.{
  ℕ, zero, suc, ◌+◌, ◌*◌, Bool, true, false, Option, none, some, leb, ◌==◌, if◌then◌else◌,
}
use mini_sql.Base.Bytes.{Bytes}
use mini_sql.Btree.{
  Leaf, Internal, leaf_node_find_cell, internal_node_find_child, internal_node_child,
  leaf_node_max_cells,
}
use mini_sql.Schema.{Schema}
use mini_sql.Btree.Store.{
  Page, internal, leaf, free, other, Store, Action, pure, quit, ◌>>=◌, given, fetch, leaf_at,
  rounds,
}

pub record Cursor : Type 0 where
  pub page_num : ℕ
  pub cell_num : ℕ
  pub end_of_table : Bool

-- One round of the loop of `table_find` at `page_num`: on to the child by `next`, or the leaf.
unfoldable pub follow :
    (next : ℕ → Action (ℕ × Leaf)) → (page_num key : ℕ) → Page → Action (ℕ × Leaf)
follow next page_num key (internal node) = do
  child ← given (internal_node_child node (internal_node_find_child node key))
  next child
follow next page_num key (leaf node) = pure (page_num, node)
follow next page_num key (free n) = quit
follow next page_num key other = quit

unfoldable pub descend : (fuel page_num key : ℕ) → Action (ℕ × Leaf)
unfolding follow
descend zero page_num key = quit
descend (suc fuel) page_num key = do
  page ← fetch page_num
  follow (λ n. descend fuel n key) page_num key page

abbrev pub cursor_at : (page_num key : ℕ) → Leaf → Cursor
cursor_at page_num key node =
    let cell_num = leaf_node_find_cell node key in
    record { page_num = page_num; cell_num = cell_num; end_of_table = leb node.num_cells cell_num }

unfoldable pub table_find : (root_page_num key : ℕ) → Action Cursor
unfolding descend
table_find root_page_num key s =
    (do (page_num, node) ← descend (rounds s) root_page_num key; pure (cursor_at page_num key node))
      s

unfoldable pub table_start : (root_page_num : ℕ) → Action Cursor
unfolding table_find
table_start root_page_num = table_find root_page_num 0

unfoldable pub cursor_value : Cursor → Action Bytes
cursor_value cursor = do node ← leaf_at cursor.page_num; pure (node.cells cursor.cell_num).value

unfoldable pub cursor_key : Cursor → Action ℕ
cursor_key cursor = do node ← leaf_at cursor.page_num; pure (node.cells cursor.cell_num).key

unfoldable pub cursor_advance : Cursor → Action Cursor
cursor_advance cursor = do
  node ← leaf_at cursor.page_num
  let next = cursor.cell_num + 1
  pure (
      if leb node.num_cells next
      then (if node.next_leaf == 0
          then record cursor { cell_num = next; end_of_table = true }
          else record cursor { cell_num = 0; page_num = node.next_leaf })
      else record cursor { cell_num = next })

-- One round for each cell of each leaf, and one to see the end.
abbrev pub scan_rounds : Store → Schema → ℕ
scan_rounds s schema = suc (s.num_pages * leaf_node_max_cells schema)
