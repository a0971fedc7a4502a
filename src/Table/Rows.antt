-- ===== src/Table/Rows.antt =====
-- What `table_find`, `table_insert` and `table_delete` do to a table's rows.
use mini_sql.Base.{
  ℕ, suc, ◌<◌, ◌≤◌, ◌≡◌, ◌↔◌, ◌⊎◌, inl, inr, true, false, some, arith, refl, sym, ap, ◌∙◌, subst,
  leb,
}
use native.Mathlib.Nat.{div-le_self}
use mini_sql.Base.Bytes.{Bytes}
use mini_sql.Schema.{Schema, u32_mod}
use mini_sql.Record.{Record, record_get_int, serialize_record, to_u32}
use mini_sql.Record.RoundTrip.{to_u32-lt}
use mini_sql.Btree.{Leaf, Cell, leaf_node_find_cell, leaf_node_max_cells, leaf_node_cell_size}
use mini_sql.Btree.Search.{find_cell-Splits}
use mini_sql.Btree.LeafNode.{insert_with_room}
use mini_sql.Btree.LeafNode.Lookup.{IsSorted, Absent, Splits-index}
use mini_sql.Btree.LeafNode.Refine.{
  Inserted, inserted_lem, place-Splits, place, Inserted-IsSorted, new_cell, old_cell, from_old,
}
use mini_sql.Btree.Store.{leaf, Store, ◌>>=◌, leaf_at}
use mini_sql.Btree.Tree.{same_leaf}
use mini_sql.Btree.Insertion.{leaf_node_insert}
use mini_sql.Cursor.{Cursor, cursor_at, table_find}
use mini_sql.Cursor.Descent.{fetch_lem}
use mini_sql.Table.{Table, is_at, table_insert, table_delete}
use mini_sql.Table.Contents.{IsTable, HoldsRow, IsCell}
use mini_sql.Table.Rewrite.{Rewritten, with_leaf, KeysOf}
use mini_sql.Table.Locate.{Located, table_find-Located}

pub leaf_at_lem :
    (s : Store) (page : ℕ) (node : Leaf)
    → page < s.num_pages
    → s.pages page ≡ leaf node
    → leaf_at page s ≡ some (node, s)
unfolding leaf_at
leaf_at_lem s page node h e = rw (fetch_lem s page h, ◌>>=◌, e) refl

-- If a cell has the key, the search finds that cell.
pub found_cell :
    (node : Leaf) (key i : ℕ)
    → IsSorted node
    → i < node.num_cells
    → (node.cells i).key ≡ key
    → leaf_node_find_cell node key ≡ i
found_cell node key i sorted h e =
    Splits-index i sorted.ascends (find_cell-Splits node key sorted.ascends sorted.small) h e

-- The cursor stands on the row.
pub record StandsOn (s : Store) (c : Cursor) (key : ℕ) (row : Bytes) : Type 0 where
  pub node : Leaf
  pub at : s.pages c.page_num ≡ leaf node
  pub cell : IsCell node c.cell_num key row

-- `table_find` in a table, for a key below 2^32, returns a cursor and changes nothing, and the table
-- has a row under the key exactly when the cursor stands on it.
pub table_find-StandsOn :
    (s : Store) (root key : ℕ)
    → IsTable s root
    → key < u32_mod
    → (c : Cursor) × (table_find root key s ≡ some (c, s))
      × ((row : Bytes) → HoldsRow s root key row ↔ StandsOn s c key row)
table_find-StandsOn s root key table small =
    let l = table_find-Located s root key table small in
    (
      cursor_at l.leaf_page key l.node,
      l.find,
      λ row. (
        λ held.
            let (i, cell) = l.only row held in
            record {
              node = l.node;
              at = l.at;
              cell =
                  subst (λ n. IsCell l.node n key row)
                    (sym
                      (found_cell l.node key i l.sorted cell.0 (ap (λ (c : Cell). c.key) cell.1)))
                    cell;
            },
        λ on. l.back key row (
          leaf_node_find_cell l.node key,
          subst (λ (n : Leaf). IsCell n (leaf_node_find_cell l.node key) key row)
              (same_leaf on.at l.at) on.cell,
        ),
      ),
    )

module _ (s : Store) (root key : ℕ) (l : Located s root key) where
  pub is_at_held :
      (row : Bytes)
      → HoldsRow s root key row
      → is_at l.node (leaf_node_find_cell l.node key) key ≡ true
  is_at_held row held =
      let (i, cell) = l.only row held in
      let same = found_cell l.node key i l.sorted cell.0 (ap (λ (c : Cell). c.key) cell.1) in
      let k = ap (λ (c : Cell). c.key) cell.1 in rw same (ground arith)

  pub absent : ((row : Bytes) → ¬ HoldsRow s root key row) → Absent l.node key
  absent missing i h e = missing (l.node.cells i).value (
      l.back key (l.node.cells i).value
        (i, (h, ap (λ k. record { key = k; value = (l.node.cells i).value }) e)))

  pub is_at_missing : Absent l.node key → is_at l.node (leaf_node_find_cell l.node key) key ≡ false
  is_at_missing a = ground (arith, a (leaf_node_find_cell l.node key))

-- The key under which `table_insert` stores a record.
abbrev pub key_of : Table → Record → ℕ
key_of table r = to_u32 (record_get_int r table.schema table.key_column_id)

-- Inserting a record whose key a row of the table has returns false and changes nothing.
pub table_insert-taken :
    (configured : ℕ) (s : Store) (table : Table) (r : Record) (row : Bytes)
    → IsTable s table.root_page_num
    → HoldsRow s table.root_page_num (key_of table r) row
    → table_insert configured table r s ≡ some (false, s)
unfolding table_insert
table_insert-taken configured s table r row is_table held =
    let key = key_of table r in
    let l = table_find-Located s table.root_page_num key is_table (to_u32-lt _) in
    rw
      (◌>>=◌, l.find, leaf_at_lem s l.leaf_page l.node l.exists l.at, is_at_held s _ key l row held)
      refl

-- Deleting a key below 2^32 under which the table has no row returns false and changes nothing.
pub table_delete-missing :
    (configured : ℕ) (s : Store) (table : Table) (key : ℕ)
    → IsTable s table.root_page_num
    → key < u32_mod
    → ((row : Bytes) → ¬ HoldsRow s table.root_page_num key row)
    → table_delete configured table key s ≡ some (false, s)
unfolding table_delete
table_delete-missing configured s table key is_table small missing =
    let l = table_find-Located s table.root_page_num key is_table small in
    rw
      (
        ◌>>=◌,
        l.find,
        leaf_at_lem s l.leaf_page l.node l.exists l.at,
        is_at_missing s _ key l (absent s _ key l missing),
      )
      refl

pub cell_eq :
    {k k' : ℕ} {row row' : Bytes}
    → k ≡ k'
    → row ≡ row'
    → ◌≡◌ {A = Cell} (record { key = k; value = row }) (record { key = k'; value = row' })
cell_eq p q = cc

pub max_cells_small : (schema : Schema) → leaf_node_max_cells schema ≤ 4080
unfolding leaf_node_max_cells
max_cells_small schema = div-le_self 4080 (leaf_node_cell_size schema)

leaf_node_insert_lem :
    (configured : ℕ) (schema : Schema) (s : Store) (page i : ℕ) (node : Leaf) (c : Cell)
    → page < s.num_pages
    → s.pages page ≡ leaf node
    → node.num_cells < leaf_node_max_cells schema
    → leaf_node_insert configured schema page i c s
      ≡ some (tt, with_leaf s page (insert_with_room node i c))
unfolding leaf_node_insert
leaf_node_insert_lem configured schema s page i node c h e room =
    let full : leb (leaf_node_max_cells schema) node.num_cells ≡ false = ground arith in
    rw (◌>>=◌, leaf_at_lem s page node h e, full) refl

-- Storing a row in a leaf with room.
module _ (s : Store) (root : ℕ) (c : Cell) (l : Located s root c.key) (gone : Absent l.node c.key)
    (room : suc l.node.num_cells < 2147483648) where
  abbrev wider : Leaf
  wider = insert_with_room l.node (leaf_node_find_cell l.node c.key) c

  ins : Inserted l.node (leaf_node_find_cell l.node c.key) c wider
  ins = inserted_lem l.node c l.sorted

  wider_keys : KeysOf l.node wider c.key
  unfolding place
  wider_keys i h = elim (from_old l.node c l.sorted gone room wider ins i h) [
    | inl e ↦ inl (ap (λ (x : Cell). x.key) e)
    | inr (j, b, e) ↦ inr (j, b, ap (λ (x : Cell). x.key) e)
  ]

  wider-Rewritten : Rewritten s (with_leaf s l.leaf_page wider) root c.key l.node wider
  unfolding place
  wider-Rewritten =
      l.rewrite wider (Inserted-IsSorted l.node c l.sorted gone room wider ins)
        (omega (arith, ins.count)) wider_keys

  wider_iff :
      (k : ℕ) (row : Bytes)
      → HoldsRow (with_leaf s l.leaf_page wider) root k row
        ↔ (((k ≡ c.key) × (row ≡ c.value)) ⊎ HoldsRow s root k row)
  unfolding place
  wider_iff k row = (
    λ h. elim (wider-Rewritten.after k row h) [
      | inl (i, (b, e)) ↦ elim (from_old l.node c l.sorted gone room wider ins i b) [
        | inl new ↦
            inl (ap (λ (x : Cell). x.key) (sym e ∙ new), ap (λ (x : Cell). x.value) (sym e ∙ new))
        | inr (j, d, same) ↦ inr (l.back k row (j, (d, sym same ∙ e)))
      ]
      | inr (old_row, ne) ↦ inr old_row
    ],
    λ h. elim h [
      | inl (same_key, same_row) ↦ wider-Rewritten.fresh k row (
        leaf_node_find_cell l.node c.key,
        (
          omega (arith, ins.count, (place-Splits l.node c l.sorted gone room).within),
          new_cell l.node c l.sorted gone room wider ins ∙ cell_eq (sym same_key) (sym same_row),
        ),
      )
      | inr old_row ↦ elim (wider-Rewritten.kept k row old_row) [
        | inl (i, (b, e)) ↦
            let (j, d, same) = old_cell l.node c l.sorted gone room wider ins i b in
            wider-Rewritten.fresh k row (j, (d, same ∙ e))
        | inr still ↦ still
      ]
    ],
  )

-- Inserting a record under a key that the table does not have, when the leaf at `table_find`'s
-- cursor has room for one more cell, returns true; the result is a table again, and it has the new
-- row, every row there was, and no other.
pub table_insert-HoldsRow :
    (configured : ℕ) (s : Store) (table : Table) (r : Record) (c : Cursor) (node : Leaf)
    → IsTable s table.root_page_num
    → ((row : Bytes) → ¬ HoldsRow s table.root_page_num (key_of table r) row)
    → table_find table.root_page_num (key_of table r) s ≡ some (c, s)
    → s.pages c.page_num ≡ leaf node
    → node.num_cells < leaf_node_max_cells table.schema
    → (t : Store) × (table_insert configured table r s ≡ some (true, t))
      × IsTable t table.root_page_num
      × ((k : ℕ) (row : Bytes)
          → HoldsRow t table.root_page_num k row ↔ (
              ((k ≡ key_of table r) × (row ≡ serialize_record r))
              ⊎ HoldsRow s table.root_page_num k row))
unfolding table_insert
table_insert-HoldsRow configured s table r c node is_table missing find at room =
    let cell : Cell = record { key = key_of table r; value = serialize_record r } in
    let l = table_find-Located s table.root_page_num cell.key is_table (to_u32-lt _) in
    let gone = absent s _ cell.key l missing in
    let run = sym l.find ∙ find in
    let same_cursor : ◌≡◌ {A = Cursor × Store} (cursor_at l.leaf_page cell.key l.node, s) (c, s) =
      cc in
    let same_page = ap (λ (x : Cursor × Store). x.0.page_num) same_cursor in
    let same_node = same_leaf l.at (ap s.pages same_page ∙ at) in
    let room' =
      subst (λ (n : Leaf). n.num_cells < leaf_node_max_cells table.schema) (sym same_node) room in
    let bound = max_cells_small table.schema in
    (
      with_leaf s l.leaf_page (wider s table.root_page_num cell l gone (omega arith)),
      rw
          (
            ◌>>=◌,
            l.find,
            leaf_at_lem s l.leaf_page l.node l.exists l.at,
            is_at_missing s _ cell.key l gone,
            leaf_node_insert_lem configured table.schema s l.leaf_page
                (leaf_node_find_cell l.node cell.key) l.node cell l.exists l.at room',
          )
          refl,
      (wider-Rewritten s table.root_page_num cell l gone (omega arith)).table,
      wider_iff s table.root_page_num cell l gone (omega arith),
    )
