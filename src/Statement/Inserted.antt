-- ===== src/Statement/Inserted.antt =====
-- A bound INSERT stores a value in every column, the one that is meant for it.
use mini_sql.Base.{
  ℕ, zero, suc, ◌+◌, ◌≤◌, ◌<◌, ◌≡◌, ap, arith, true, Option, none, some, List, [], ◌∷◌, length,
  ◌==◌, subst, All, get_elem?, Option-cases, ◌∙◌, inl, inr, length-replicate,
}
use mini_sql.Base.Bytes.{Bytes}
use mini_sql.Base.Result.{ok, ok->>=, ok-injective}
use mini_sql.Ast.{Literal, InsertAst}
use mini_sql.Record.{record_init, print_field}
use mini_sql.Schema.{Schema, ColumnDefinition}
use mini_sql.Table.{Table}
use mini_sql.Statement.{
  Inserting, bind_table, bind_value, is_listed, count_up, insert_targets, check_listed,
  check_all_listed, check_count, check_values, pair_values, bind_insert, database_find_table,
}
use mini_sql.Statement.Planned.{bind_value_iff}
use mini_sql.Statement.Targets.{IsMeantFor, insert_targets-NoRepeats, insert_targets-IsMeantFor}
use mini_sql.Statement.Stored.{Fits, shown_as, store_values-shown}
use mini_sql.Record.LaidOut.{IsLaidOut}
use mini_sql.Schema.Names.{NoNul}

check_values-Fits :
    (key_column_id : ℕ) (pairs : List (ColumnDefinition × Literal))
    → check_values key_column_id pairs ≡ ok tt
    → All (Fits key_column_id) pairs
unfolding check_values
check_values-Fits key [] h = tt
check_values-Fits key ((column, v) ∷ pairs) h =
    let (u, here, rest) = ok->>= (bind_value v column (column.column_id == key)) _ h in
    ((bind_value_iff v column (column.column_id == key)).0 here, check_values-Fits key pairs rest)

check_listed-covers :
    (k : ℕ) (cs : List ColumnDefinition) (targets : List ℕ) (i : ℕ)
    → check_listed k cs targets ≡ ok tt
    → k ≤ i
    → i < k + length cs
    → is_listed i targets ≡ true
unfolding check_listed
check_listed-covers k [] targets i h l b = absurd (omega arith)
check_listed-covers k (c ∷ cs) targets i h l b =
    ground (arith, check_listed-covers (suc k) cs targets i)

count_up-covers : (k n i : ℕ) → k ≤ i → i < k + n → is_listed i (count_up k n) ≡ true
unfolding is_listed count_up
count_up-covers k zero i l b = absurd (omega arith)
count_up-covers k (suc n) i l b = ground (arith, count_up-covers (suc k) n i)

targets-cover :
    (schema : Schema) (names : Option (List Bytes)) (targets : List ℕ) (i : ℕ)
    → insert_targets schema names ≡ ok targets
    → check_all_listed schema names targets ≡ ok tt
    → i < length schema.columns
    → is_listed i targets ≡ true
unfolding insert_targets check_all_listed
targets-cover schema none targets i h k b =
    subst (λ t. is_listed i t ≡ true) (ok-injective h)
      (count_up-covers 0 (length schema.columns) i (omega arith) (omega arith))
targets-cover schema (some names) targets i h k b =
    check_listed-covers 0 schema.columns targets i k (omega arith) (omega arith)

length-record_init : (schema : Schema) → length (record_init schema).payload ≡ schema.row_size
unfolding record_init
length-record_init schema = length-replicate schema.row_size 0

check_count_eq : (m n : ℕ) → check_count m n ≡ ok tt → m ≡ n
unfolding check_count
check_count_eq m n h = ground arith

get_elem?-below :
    (columns : List ColumnDefinition) (i : ℕ) (c : ColumnDefinition)
    → get_elem? columns i ≡ some c
    → i < length columns
get_elem?-below [] i c h = absurd (cc)
get_elem?-below (x ∷ columns) zero c h = omega arith
get_elem?-below (x ∷ columns) (suc i) c h = let below = get_elem?-below columns i c h in omega arith

bind_table-found :
    (tables : List Table) (name : Bytes) (table : Table)
    → bind_table tables name ≡ ok table
    → database_find_table tables name ≡ some table
unfolding bind_table
bind_table-found tables name table h = elim (Option-cases (database_find_table tables name)) [
  | inl missing ↦ absurd (let w = rw (bind_table, missing) at h in cc)
  | inr (found, e) ↦
      let same : found ≡ table = ok-injective (rw (bind_table, e) at h) in e ∙ ap some same
]

-- What a bound INSERT says of column `i` of its table, `c`: some value of the statement is meant for
-- it, fits it, and is what is printed of the column in the row that is kept.
pub record StoresColumn (ast : InsertAst) (r : Inserting) (i : ℕ) (c : ColumnDefinition)
    : Type 0 where
  pub place : ℕ
  pub value : Literal
  pub stands : get_elem? ast.values place ≡ some value
  pub meant : IsMeantFor ast.column_names place i c
  pub fits : Fits r.table.key_column_id (c, value)
  pub shown : print_field r.record_to_insert r.table.schema c ≡ shown_as value.type value

-- When an INSERT binds, its table is the one that its name finds, and each column of the table has
-- a value of the statement: without a column list the value at the column's place, with one a value
-- at whose place the list has the column's name. That value fits the column, so that an integer is
-- in range and the key is not negative, and it is what is printed of the column in the row that the
-- statement keeps. That is so when each column is found under its id and lies in the row apart from
-- the others, with four bytes if it is INT, and no literal's text has a NUL.
pub bind_insert-Stores :
    (tables : List Table) (ast : InsertAst) (r : Inserting) (i : ℕ) (c : ColumnDefinition)
    → bind_insert tables ast ≡ ok r
    → IsLaidOut r.table.schema
    → All (λ (v : Literal). NoNul v.text) ast.values
    → get_elem? r.table.schema.columns i ≡ some c
    → (database_find_table tables ast.table_name ≡ some r.table) × StoresColumn ast r i c
unfolding bind_insert
bind_insert-Stores tables ast r i c h laid clean at_c =
    let (table, found, rest) = ok->>= (bind_table tables ast.table_name) _ h in
    let (targets, listed, rest2) = ok->>= (insert_targets table.schema ast.column_names) _ rest in
    let (u, counted, rest3) = ok->>= (check_count (length ast.values) (length targets)) _ rest2 in
    let (v, covered, rest4) =
      ok->>= (check_all_listed table.schema ast.column_names targets) _ rest3 in
    let (w, fitted, kept) =
      ok->>=
        (check_values table.key_column_id (pair_values table.schema.columns targets ast.values)) _
        rest4 in
    let is_r = ok-injective kept in
    subst
      (λ (s : Inserting).
        IsLaidOut s.table.schema
        → get_elem? s.table.schema.columns i ≡ some c
        → (database_find_table tables ast.table_name ≡ some s.table) × StoresColumn ast s i c)
      is_r
      (λ laid' at_c'.
        let (j, value, at_j, stands, fit, shown) =
          store_values-shown table.schema laid' i c at_c' (record_init table.schema)
            table.key_column_id targets ast.values
            (check_count_eq (length ast.values) (length targets) counted)
            (insert_targets-NoRepeats table.schema ast.column_names targets listed)
            (targets-cover table.schema ast.column_names targets i listed covered
              (get_elem?-below table.schema.columns i c at_c'))
            (check_values-Fits table.key_column_id _ fitted) clean
            (omega (arith, length-record_init table.schema)) in
        (
          bind_table-found tables ast.table_name table found,
          record {
            place = j;
            value = value;
            stands = stands;
            meant =
                insert_targets-IsMeantFor table.schema ast.column_names targets j i c listed at_j
                  at_c';
            fits = fit;
            shown = shown;
          },
        ))
      laid at_c
