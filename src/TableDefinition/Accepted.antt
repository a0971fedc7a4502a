-- ===== src/TableDefinition/Accepted.antt =====
-- A definition that `table_definition_from_ast` accepts can be stored.
use mini_sql.Base.{
  ℕ, suc, ◌+◌, ◌*◌, ◌%◌, ◌<◌, ◌≤◌, ◌≡◌, inl, inr, Bool, true, false, ◌||◌, some, List, [], ◌∷◌, ltb,
  length, map, get_elem?, arith, refl, sym, ap, ◌∙◌, subst, Bool-cases,
}
use mini_sql.Base.Bytes.{Bytes}
use mini_sql.Base.Result.{ok, ok->>=, ok-injective}
use mini_sql.Ast.{CreateTableAst, ColumnAst}
use mini_sql.Schema.{ColumnDefinition, schema_create, schema_names_equal, u32_mod}
use mini_sql.Schema.Layout.{total_size, end_offset-total_size}
use mini_sql.Btree.{leaf_node_max_row_size, leaf_node_max_cells}
use mini_sql.Btree.Layout.{max_row_size_iff}
use mini_sql.TableDefinition.{
  TableDefinition, is_int, check_name, check_names, check_widths, check_key, add_sizes, check_size,
  check_sql, column_of, table_definition_from_ast, u64_mod, to_u64, table_name_max_length,
  table_sql_max_length, table_min_rows_per_leaf, canonical_sql,
}
use mini_sql.TableDefinition.Names.{check_names-distinct}
use mini_sql.TableDefinition.Keys.{KeyColumn, check_key_lem}

-- The bytes a row takes, when no column is too wide and the sum does not wrap around.
add_sizes-total_size :
    (r t : ℕ) (w : Bool) (cs : List ColumnAst)
    → r + 1356 * length cs < u64_mod
    → add_sizes 1356 r w cs ≡ (t, false)
    → (w ≡ false) × (t ≡ r + total_size (map column_of cs))
unfolding add_sizes total_size column_of
add_sizes-total_size r t w [] h e =
    (ap (λ (p : ℕ × Bool). p.1) e, let q = ap (λ (p : ℕ × Bool). p.0) e in omega arith)
add_sizes-total_size r t w (c ∷ cs) h e = elim (Bool-cases (is_int c.type)) [
  | inl int ↦
      let rest = add_sizes-total_size ((r + 4) % u64_mod) t w cs (omega arith) (ground arith) in
      (rest.0, ground arith)
  | inr text ↦ elim (Bool-cases (c.width_out_of_range || ltb 1356 (to_u64 c.width))) [
    | inl wide ↦
        let rest = add_sizes-total_size r t true cs (omega arith) (ground arith) in
        absurd (ground arith)
    | inr fits ↦
        let small : to_u64 c.width ≤ 1356 = ground arith in
        let rest =
          add_sizes-total_size ((r + to_u64 c.width) % u64_mod) t w cs (omega arith)
            (ground arith) in
        (rest.0, ground arith)
  ]
]

check_name_lem :
    (ast : CreateTableAst) {u : Unit {0}} → check_name ast ≡ ok u → length ast.table_name ≤ 64
unfolding check_name
check_name_lem ast h = ground arith

check_sql_lem :
    (ast : CreateTableAst) {sql : Bytes}
    → check_sql ast ≡ ok sql
    → (sql ≡ canonical_sql ast) × (length sql ≤ 1024)
unfolding check_sql
check_sql_lem ast h = elim (Bool-cases (ltb 1024 (length (canonical_sql ast)))) [
  | inl long ↦ absurd (ground arith)
  | inr fits ↦
      let run : check_sql ast ≡ ok (canonical_sql ast) = ground arith in
      let same = ok-injective (sym h ∙ run) in
      (same, subst (λ t. length t ≤ 1024) (sym same) (ground arith))
]

check_size_lem :
    (ast : CreateTableAst) {u : Unit {0}}
    → length ast.columns < u32_mod
    → check_size ast ≡ ok u
    → total_size (map column_of ast.columns) ≤ 1356
unfolding check_size leaf_node_max_row_size
check_size_lem ast few h =
    let sum = add_sizes 1356 0 false ast.columns in
    elim (Bool-cases sum.1) [
      | inl wide ↦ absurd (ground arith)
      | inr narrow ↦ elim (Bool-cases (ltb 1356 sum.0)) [
        | inl long ↦ absurd (ground arith)
        | inr fits ↦
            let total =
              add_sizes-total_size 0 sum.0 false ast.columns (omega arith)
                (ap (λ b. (sum.0, b)) narrow) in
            ground (arith, total.1)
      ]
    ]

row_size_lem :
    (cs : List ColumnDefinition)
    → total_size cs < u32_mod
    → (schema_create cs).row_size ≡ total_size cs
unfolding schema_create
row_size_lem cs h = let e = end_offset-total_size 0 cs (omega arith) in omega arith

-- What a definition that is kept promises of the table.
pub record IsStorable (ast : CreateTableAst) (d : TableDefinition) : Type 0 where
  pub name : d.name ≡ ast.table_name
  pub name_fits : length d.name ≤ table_name_max_length
  pub sql : d.sql ≡ canonical_sql ast
  pub sql_fits : length d.sql ≤ table_sql_max_length
  pub row_size : d.schema.row_size ≡ total_size (map column_of ast.columns)
  pub rows_per_leaf : table_min_rows_per_leaf ≤ leaf_node_max_cells d.schema
  pub distinct :
      (i j : ℕ) (a b : ColumnAst)
      → i < j
      → get_elem? ast.columns i ≡ some a
      → get_elem? ast.columns j ≡ some b
      → schema_names_equal b.name a.name ≡ false
  pub key : (i : ℕ) × (d.key_column_id ≡ suc i) × KeyColumn ast.columns i

-- A definition that `table_definition_from_ast` accepts, of fewer than 2^32 columns, has a name and a
-- canonical text that fit the catalog's columns, columns of different names, exactly one PRIMARY KEY,
-- which is the INT column that it says, a row that is exactly as wide as its columns together, and
-- at least three of its rows fit a leaf.
pub table_definition_from_ast-IsStorable :
    (ast : CreateTableAst) (d : TableDefinition)
    → length ast.columns < u32_mod
    → table_definition_from_ast ast ≡ ok d
    → IsStorable ast d
unfolding table_definition_from_ast
table_definition_from_ast-IsStorable ast d few h =
    let (_, name, h1) = ok->>= (check_name ast) _ h in
    let (_, names, h2) = ok->>= (check_names [] ast.columns) _ h1 in
    let (_, widths, h3) = ok->>= (check_widths ast.columns) _ h2 in
    let (i, key, h4) = ok->>= (check_key ast) _ h3 in
    let (_, size, h5) = ok->>= (check_size ast) _ h4 in
    let (sql, text, h6) = ok->>= (check_sql ast) _ h5 in
    let total = check_size_lem ast few size in
    let row = row_size_lem (map column_of ast.columns) (omega arith) in
    let text' = check_sql_lem ast text in
    subst (IsStorable ast) (ok-injective h6) (record {
      name = refl;
      name_fits = check_name_lem ast name;
      sql = text'.0;
      sql_fits = text'.1;
      row_size = row;
      rows_per_leaf =
          (max_row_size_iff (schema_create (map column_of ast.columns)) 3 (omega arith)
              (omega arith) (omega arith)).0
            (unfold leaf_node_max_row_size in omega arith);
      distinct = λ k j a b l e f. check_names-distinct [] ast.columns a b k j names l e f;
      key = (i, omega arith, check_key_lem ast key);
    })
