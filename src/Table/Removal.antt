-- ===== src/Table/Removal.antt =====
-- What `table_delete` does to a table's rows when it changes no page but the leaf that has the key.
use mini_sql.Base.{
  ℕ, suc, ◌-◌, ◌<◌, ◌≡◌, ◌≢◌, ◌↔◌, ◌⊎◌, inl, inr, true, false, some, arith, ◌==◌, refl, sym, ap,
  ◌∙◌, subst, ltb,
}
use mini_sql.Base.Bytes.{Bytes}
use mini_sql.Schema.{Schema, u32_mod}
use mini_sql.Btree.{Leaf, Cell, leaf_node_min_cells}
use mini_sql.Btree.LeafNode.{leaf_node_remove_cell}
use mini_sql.Btree.LeafNode.Delete.{
  removed, removed-count, removed-IsSorted, kept_cell, was_cell, same_place,
}
use mini_sql.Btree.Store.{leaf, Store, ◌>>=◌}
use mini_sql.Btree.Tree.{same_leaf}
use mini_sql.Btree.LeafDeletion.{leaf_node_delete}
use mini_sql.Cursor.{Cursor, cursor_at, table_find}
use mini_sql.Table.{Table, table_delete}
use mini_sql.Table.Contents.{IsTable, HoldsRow}
use mini_sql.Table.Rewrite.{Rewritten, with_leaf}
use mini_sql.Table.Locate.{Located, table_find-Located}
use mini_sql.Table.Rows.{leaf_at_lem, is_at_held, found_cell}

-- Cell `i` can be removed without a look at another page: the leaf is the root and has another cell,
-- or it is not the root, cell `i` is not its last, and it has more than one cell and more than
-- `leaf_node_min_cells`.
abbrev pub StaysInPlace : Schema → Leaf → ℕ → Type 0
StaysInPlace schema node i =
    ((node.is_root ≡ true) × (1 < node.num_cells))
    ⊎ ((node.is_root ≡ false)
        × (suc i < node.num_cells)
        × (leaf_node_min_cells schema < node.num_cells)
        × (1 < node.num_cells))

one_more : (schema : Schema) (node : Leaf) (i : ℕ) → StaysInPlace schema node i → 1 < node.num_cells
one_more schema node i (inl (root, more)) = more
one_more schema node i (inr (root, before, enough, more)) = more

leaf_node_delete_lem :
    (configured : ℕ) (schema : Schema) (s : Store) (page i : ℕ) (node : Leaf)
    → page < s.num_pages
    → s.pages page ≡ leaf node
    → StaysInPlace schema node i
    → leaf_node_delete configured schema page i s
      ≡ some (tt, with_leaf s page (leaf_node_remove_cell node i))
unfolding leaf_node_delete leaf_node_remove_cell
leaf_node_delete_lem configured schema s page i node h e (inl (root, more)) =
    rw (◌>>=◌, leaf_at_lem s page node h e, root) refl
leaf_node_delete_lem configured schema s page i node h e (inr (root, before, enough, more)) =
    let not_last : (i == node.num_cells - 1) ≡ false = ground arith in
    let full : ltb (node.num_cells - 1) (leaf_node_min_cells schema) ≡ false = ground arith in
    rw (◌>>=◌, leaf_at_lem s page node h e, root, not_last, full) refl

-- Taking the row out of the leaf that holds it.
module _ (s : Store) (root key : ℕ) (l : Located s root key) (i : ℕ) (inside : i < l.node.num_cells)
    (key_i : (l.node.cells i).key ≡ key) (more : 1 < l.node.num_cells) where
  shorter-Rewritten :
      Rewritten s
        (with_leaf s l.leaf_page (removed l.node i l.sorted inside))
        root
        key
        l.node
        (removed l.node i l.sorted inside)
  shorter-Rewritten =
      l.rewrite (removed l.node i l.sorted inside) (removed-IsSorted l.node i l.sorted inside)
        (omega (arith, removed-count l.node i l.sorted inside))
        (λ j h.
          let (k, b, ne, e) = was_cell l.node i l.sorted inside j h in
          inr (k, b, ap (λ (x : Cell). x.key) e))

  shorter_iff :
      (k : ℕ) (row : Bytes)
      → HoldsRow (with_leaf s l.leaf_page (removed l.node i l.sorted inside)) root k row
        ↔ ((k ≢ key) × HoldsRow s root k row)
  shorter_iff k row = (
    λ h. elim (shorter-Rewritten.after k row h) [
      | inl (j, (b, e)) ↦
          let (m, d, ne, q) = was_cell l.node i l.sorted inside j b in
          let cell = sym q ∙ e in
          (
            λ same. ne (
                same_place l.node i l.sorted inside m d
                  (ap (λ (x : Cell). x.key) cell ∙ same ∙ sym key_i)),
            l.back k row (m, (d, cell)),
          )
      | inr (old_row, ne) ↦ (ne, old_row)
    ],
    λ (ne, old_row). elim (shorter-Rewritten.kept k row old_row) [
      | inl (j, (b, e)) ↦
          let (m, d, q) = kept_cell l.node i l.sorted inside j b (λ w.
            ne (sym (ap (λ (x : Cell). x.key) e) ∙ ap (λ n. (l.node.cells n).key) w ∙ key_i)) in
          shorter-Rewritten.fresh k row (m, (d, q ∙ e))
      | inr still ↦ still
    ],
  )

-- Deleting a key below 2^32 under which the table has a row returns true, the result is a table
-- again, and it has the rows there were under all other keys, none under this one, and no other.
-- That is so when the leaf at `table_find`'s cursor is the root and has another cell, or is not the
-- root, has more than one cell and more than `leaf_node_min_cells`, and the cursor is not at its last.
pub table_delete-HoldsRow :
    (configured : ℕ) (s : Store) (table : Table) (key : ℕ) (row : Bytes) (c : Cursor) (node : Leaf)
    → IsTable s table.root_page_num
    → key < u32_mod
    → HoldsRow s table.root_page_num key row
    → table_find table.root_page_num key s ≡ some (c, s)
    → s.pages c.page_num ≡ leaf node
    → StaysInPlace table.schema node c.cell_num
    → (t : Store) × (table_delete configured table key s ≡ some (true, t))
      × IsTable t table.root_page_num
      × ((k : ℕ) (other : Bytes)
          → HoldsRow t table.root_page_num k other
            ↔ ((k ≢ key) × HoldsRow s table.root_page_num k other))
unfolding table_delete
table_delete-HoldsRow configured s table key row c node is_table small held find at fine =
    let l = table_find-Located s table.root_page_num key is_table small in
    let (i, (inside, cell)) = l.only row held in
    let place = found_cell l.node key i l.sorted inside (ap (λ (x : Cell). x.key) cell) in
    let run = sym l.find ∙ find in
    let same_cursor : ◌≡◌ {A = Cursor × Store} (cursor_at l.leaf_page key l.node, s) (c, s) = cc in
    let same_node =
      same_leaf l.at (ap s.pages (ap (λ (x : Cursor × Store). x.0.page_num) same_cursor) ∙ at) in
    let at_cell : c.cell_num ≡ i =
      sym (ap (λ (x : Cursor × Store). x.0.cell_num) same_cursor) ∙ place in
    let fine' =
      subst (λ (n : Leaf). StaysInPlace table.schema n i) (sym same_node)
        (subst (StaysInPlace table.schema node) at_cell fine) in
    let more = one_more table.schema l.node i fine' in
    let key_i = ap (λ (x : Cell). x.key) cell in
    (
      with_leaf s l.leaf_page (leaf_node_remove_cell l.node i),
      rw
          (
            ◌>>=◌,
            l.find,
            leaf_at_lem s l.leaf_page l.node l.exists l.at,
            is_at_held s _ key l row held,
            place,
            leaf_node_delete_lem configured table.schema s l.leaf_page i l.node l.exists l.at fine',
          )
          refl,
      (shorter-Rewritten s table.root_page_num key l i inside key_i more).table,
      shorter_iff s table.root_page_num key l i inside key_i more,
    )
