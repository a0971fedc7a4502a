-- ===== src/Tests/Trees.antt =====
-- Theorems on tables, at a tree of two leaves under one root.
use mini_sql.Base.{
  ℕ, ◌≡◌, ◌≤◌, ◌<◌, ◌↔◌, ◌⊎◌, inl, inr, refl, arith, true, false, some, [], ◌∷◌, update, sym, ap,
  subst, ◌∙◌, Bool-cases, ==_iff, ◌==◌,
}
use mini_sql.Base.Bytes.{Bytes, codes}
use mini_sql.Schema.{Schema, column_int, schema_find_column_by_id, u32_mod}
use mini_sql.Record.{Record, record_get_int, serialize_record, to_u32, u32_bytes}
use mini_sql.Btree.{
  Cell, Leaf, Internal, zero_cell, zero_route, leaf_node_max_cells, internal_node_child,
  internal_node_find_child, leaf_node_find_cell,
}
use mini_sql.Btree.Store.{Store, internal, leaf, other, fetch}
use mini_sql.Btree.Tree.{
  IsTree, leaf_tree, node_tree, child_page, low_of, high_of, IsLeafIn, in_leaf, in_child, same_leaf,
}
use mini_sql.Cursor.{Cursor, table_find}
use mini_sql.Table.{Table, table_insert, table_delete}
use mini_sql.Table.Contents.{IsTable, grown, HoldsRow}
use mini_sql.Table.Rows.{
  StandsOn, table_find-StandsOn, key_of, table_insert-HoldsRow, table_delete-missing,
}
use mini_sql.Base.{◌≢◌}
use mini_sql.Btree.{leaf_node_min_cells}
use mini_sql.Table.Removal.{StaysInPlace, table_delete-HoldsRow}
use mini_sql.Statement.{Inserting}
use mini_sql.Statement.Prepare.{inserting}
use mini_sql.Database.{Database, new_database}
use mini_sql.Executor.{execute_duplicate_key, printed, execute_statement}
use mini_sql.Executor.Rows.{execute_statement-duplicate}

abbrev pub cell : ℕ → Cell
cell key = record { key = key; value = u32_bytes key }

abbrev left_leaf : Leaf
left_leaf = record {
  is_root = false;
  parent = 1;
  num_cells = 3;
  next_leaf = 3;
  cells = update (update (update (λ i. zero_cell) 0 (cell 2)) 1 (cell 5)) 2 (cell 7);
}

abbrev right_leaf : Leaf
right_leaf = record {
  is_root = false;
  parent = 1;
  num_cells = 1;
  next_leaf = 0;
  cells = update (λ i. zero_cell) 0 (cell 9);
}

abbrev root_node : Internal
root_node = record {
  is_root = true;
  parent = 0;
  num_keys = 1;
  right_child = 3;
  cells = update (λ i. zero_route) 0 (record { child = 2; key = 7 });
}

abbrev two_leaves : Store
two_leaves = record {
  num_pages = 4;
  pages =
      update (update (update (λ n. other) 1 (internal root_node)) 2 (leaf left_leaf)) 3
        (leaf right_leaf);
  free_head = 0;
}

left_in : IsLeafIn two_leaves 2 0 8
left_in = record {
  node = left_leaf;
  at = refl;
  exists = omega arith;
  sorted = record { ascends = λ i j l h. ground arith; small = omega arith };
  keys = λ i h. ground arith;
  filled = omega arith;
}

right_in : IsLeafIn two_leaves 3 8 u32_mod
right_in = record {
  node = right_leaf;
  at = refl;
  exists = omega arith;
  sorted = record { ascends = λ i j l h. ground arith; small = omega arith };
  keys = λ i h. ground arith;
  filled = omega arith;
}

leaves-IsTree :
    (i : ℕ)
    → i ≤ 1
    → IsTree two_leaves 0
        (child_page root_node i)
        (low_of root_node 0 i)
        (high_of root_node u32_mod i)
leaves-IsTree i h = elim (Bool-cases (i == 0)) [
  | inl first ↦
      subst
        (λ (n : ℕ).
          IsTree two_leaves 0 (child_page root_node n) (low_of root_node 0 n)
            (high_of root_node u32_mod n))
        (sym ((==_iff i 0).0 first)) (leaf_tree left_in)
  | inr second ↦
      let one : i ≡ 1 = ground arith in
      subst
        (λ (n : ℕ).
          IsTree two_leaves 0 (child_page root_node n) (low_of root_node 0 n)
            (high_of root_node u32_mod n))
        (sym one) (leaf_tree right_in)
]

two_leaves-IsTable : IsTable two_leaves 1
two_leaves-IsTable = grown (omega arith) (
    node_tree root_node refl (omega arith) (λ i j l h. ground arith) (omega arith)
      (λ i h. ground arith) leaves-IsTree)

abbrev ids : Schema
ids = record {
  version = 1;
  next_column_id = 2;
  num_columns = 1;
  columns =
      record { column_id = 1; name = codes "id"; type = column_int; size = 4; offset = 0 } ∷ [];
  row_size = 4;
}

abbrev id_table : Table
id_table = record {
  name = codes "ids";
  schema = ids;
  key_column_id = 1;
  root_page_num = 1;
  sql = codes "CREATE TABLE ids (id INT PRIMARY KEY)";
}

abbrev pub id_row : ℕ → Record
id_row n = record { payload = n ∷ 0 ∷ 0 ∷ 0 ∷ [] }

table_find-StandsOn_example :
    (c : Cursor) × (table_find 1 7 two_leaves ≡ some (c, two_leaves))
    × ((row : Bytes) → HoldsRow two_leaves 1 7 row ↔ StandsOn two_leaves c 7 row)
table_find-StandsOn_example = table_find-StandsOn two_leaves 1 7 two_leaves-IsTable (omega arith)

-- Key 8 is in neither leaf.
abbrev at_eight : Cursor
at_eight = record { page_num = 3; cell_num = 0; end_of_table = false }

find_eight : table_find 1 8 two_leaves ≡ some (at_eight, two_leaves)
unfolding table_find fetch internal_node_child internal_node_find_child leaf_node_find_cell
find_eight = refl

not_eight : ¬ ◌≡◌ {A = ℕ} 9 8
not_eight h = omega arith

no_eight : (row : Bytes) → ¬ HoldsRow two_leaves 1 8 row
no_eight row held =
    let (c, run, iff) = table_find-StandsOn two_leaves 1 8 two_leaves-IsTable (omega arith) in
    let both = sym run ∙ find_eight in
    let same : c ≡ at_eight = cc in
    let on = subst (λ (x : Cursor). StandsOn two_leaves x 8 row) same ((iff row).0 held) in
    let e : on.node ≡ right_leaf = same_leaf on.at refl in
    let wrong = subst (λ (n : Leaf). n.cells 0 ≡ record { key = 8; value = row }) e on.cell.1 in
    absurd (not_eight (ap (λ (x : Cell). x.key) wrong))

eight_key : key_of id_table (id_row 8) ≡ 8
unfolding to_u32 record_get_int schema_find_column_by_id
eight_key = refl

table_delete-missing_example : table_delete 3 id_table 8 two_leaves ≡ some (false, two_leaves)
table_delete-missing_example =
    table_delete-missing 3 two_leaves id_table 8 two_leaves-IsTable (omega arith) no_eight

room : right_leaf.num_cells < leaf_node_max_cells ids
unfolding leaf_node_max_cells
room = omega arith

no_eight_row : (row : Bytes) → ¬ HoldsRow two_leaves 1 (key_of id_table (id_row 8)) row
no_eight_row row held = no_eight row (subst (λ n. HoldsRow two_leaves 1 n row) eight_key held)

find_eight_row : table_find 1 (key_of id_table (id_row 8)) two_leaves ≡ some (at_eight, two_leaves)
find_eight_row = ap (λ n. table_find 1 n two_leaves) eight_key ∙ find_eight

-- Row 8 becomes the first of the right leaf.
table_insert-HoldsRow_example :
    (t : Store) × (table_insert 3 id_table (id_row 8) two_leaves ≡ some (true, t))
    × IsTable t 1
    × ((k : ℕ) (row : Bytes)
        → HoldsRow t 1 k row ↔ (
            ((k ≡ key_of id_table (id_row 8)) × (row ≡ serialize_record (id_row 8)))
            ⊎ HoldsRow two_leaves 1 k row))
table_insert-HoldsRow_example =
    table_insert-HoldsRow 3 two_leaves id_table (id_row 8) at_eight right_leaf two_leaves-IsTable
      no_eight_row find_eight_row refl room

abbrev insert_seven : Inserting
insert_seven = record { table = id_table; record_to_insert = id_row 7 }

seven_key : key_of id_table (id_row 7) ≡ 7
unfolding to_u32 record_get_int schema_find_column_by_id
seven_key = refl

holds_seven : HoldsRow two_leaves 1 (key_of id_table (id_row 7)) (u32_bytes 7)
holds_seven =
    subst (λ n. HoldsRow two_leaves 1 n (u32_bytes 7)) (sym seven_key)
      (1, in_child root_node 0 refl (omega arith) (in_leaf left_leaf 2 refl (omega arith) refl))

abbrev id_database : Database
id_database = record (new_database id_table) { tables = id_table ∷ [] }

execute_statement-duplicate_example :
    execute_statement 3 (inserting insert_seven) id_database two_leaves
    ≡ some (
      record { result = execute_duplicate_key; output = printed []; db = id_database },
      two_leaves,
    )
execute_statement-duplicate_example =
    execute_statement-duplicate 3 two_leaves id_database insert_seven (u32_bytes 7)
      two_leaves-IsTable holds_seven

-- Three rows of this table fill a leaf.
abbrev pub wide_table : Table
wide_table = record id_table { schema = record ids { row_size = 1356 } }

abbrev at_five : Cursor
at_five = record { page_num = 2; cell_num = 1; end_of_table = false }

find_five : table_find 1 5 two_leaves ≡ some (at_five, two_leaves)
unfolding table_find fetch internal_node_child internal_node_find_child leaf_node_find_cell
find_five = refl

two_stay : StaysInPlace wide_table.schema left_leaf 1
unfolding leaf_node_min_cells
two_stay = inr (refl, omega arith, omega arith, omega arith)

table_delete-HoldsRow_example :
    (t : Store) × (table_delete 3 wide_table 5 two_leaves ≡ some (true, t))
    × IsTable t 1
    × ((k : ℕ) (other : Bytes) → HoldsRow t 1 k other ↔ ((k ≢ 5) × HoldsRow two_leaves 1 k other))
table_delete-HoldsRow_example =
    table_delete-HoldsRow 3 two_leaves wide_table 5 (u32_bytes 5) at_five left_leaf
      two_leaves-IsTable (omega arith)
      (1, in_child root_node 0 refl (omega arith) (in_leaf left_leaf 1 refl (omega arith) refl))
      find_five refl two_stay
