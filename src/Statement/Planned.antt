-- ===== src/Statement/Planned.antt =====
-- The plan that a prepared SELECT or DELETE keeps; and which values bind to a column.
use mini_sql.Base.{
  ℕ, ◌≡◌, refl, sym, arith, Bool, true, false, Option, none, some, List, length, not, ◌&&◌, leb,
  if◌then◌else◌, ◌↔◌, ◌⊎◌, inl, inr, subst,
}
use mini_sql.Base.Result.{Result, ok, err, ok->>=, ok-injective}
use mini_sql.Base.Int.{pos, negsuc, leb_ℤ}
use mini_sql.Ast.{
  Literal, LiteralType, literal_integer, literal_string, SelectAst, DeleteAst, ExprAst, Ast,
  ast_empty, ast_insert, ast_select, ast_create_table, ast_delete,
}
use mini_sql.Record.{Record}
use mini_sql.Schema.{Schema, ColumnType, column_int, column_text, ColumnDefinition}
use mini_sql.Expression.{BindError, BoundExpr, expression_bind, row_accepted}
use mini_sql.Expression.Binding.{where_well_typed, expression_bind-well_typed}
use mini_sql.Planner.{Plan, plan_select}
use mini_sql.Planner.Sound.{HasKey, Admits, plan_select-Sound}
use mini_sql.Table.{Table}
use mini_sql.Statement.{
  Reading, bad_condition, bind_table, bind_value, bind_value_of, bind_int_value, bind_text_value,
  bind_where, bind_select, bind_delete, select_columns, bind_insert, bad_syntax, no_outcome,
}
use mini_sql.Statement.Prepare.{
  Statement, selecting, deleting, prepare_success, bind_create_table, bind_statement,
  prepare_statement,
}
use mini_sql.Parser.{Outcome}
use mini_sql.Parser.Statement.{parse_statement}
use mini_sql.Base.Bytes.{Bytes}

bind_where-well_typed :
    (e : Option ExprAst) (schema : Schema) (b : Option BoundExpr)
    → bind_where e schema ≡ ok b
    → where_well_typed b ≡ true
unfolding bind_where
bind_where-well_typed none schema b h = ground arith
bind_where-well_typed (some e) schema b h = bound (expression_bind e schema) refl h
  where
    bound :
        (r : Result BindError BoundExpr)
        → expression_bind e schema ≡ r
        → elim r [ err why ↦ err (bad_condition why) | ok c ↦ ok (some c) ] ≡ ok b
        → where_well_typed b ≡ true
    bound (err why) same h = absurd (cc)
    bound (ok c) same h = let typed = expression_bind-well_typed e schema c same in ground arith

-- What a statement has kept: a well-typed condition and the plan made for it.
record IsPlanned (r : Reading) : Type 0 where
  typed : where_well_typed r.condition ≡ true
  planned : r.plan ≡ plan_select r.condition r.table.key_column_id

bind_select-IsPlanned :
    (tables : List Table) (ast : SelectAst) (explain : Bool) (r : Reading)
    → bind_select tables ast explain ≡ ok r
    → IsPlanned r
unfolding bind_select
bind_select-IsPlanned tables ast explain r h =
    let (table, found, rest) = ok->>= (bind_table tables ast.table_name) _ h in
    let (ids, listed, rest2) = ok->>= (select_columns ast.column_names table.schema) _ rest in
    let (condition, bound, kept) = ok->>= (bind_where ast.condition table.schema) _ rest2 in
    record {
      typed =
          subst (λ (k : Reading). where_well_typed k.condition ≡ true) (ok-injective kept)
            (bind_where-well_typed ast.condition table.schema condition bound);
      planned =
          subst (λ (k : Reading). k.plan ≡ plan_select k.condition k.table.key_column_id)
            (ok-injective kept) refl;
    }

bind_delete-IsPlanned :
    (tables : List Table) (ast : DeleteAst) (explain : Bool) (r : Reading)
    → bind_delete tables ast explain ≡ ok r
    → IsPlanned r
unfolding bind_delete
bind_delete-IsPlanned tables ast explain r h =
    let (table, found, rest) = ok->>= (bind_table tables ast.table_name) _ h in
    let (condition, bound, kept) = ok->>= (bind_where ast.condition table.schema) _ rest in
    record {
      typed =
          subst (λ (k : Reading). where_well_typed k.condition ≡ true) (ok-injective kept)
            (bind_where-well_typed ast.condition table.schema condition bound);
      planned =
          subst (λ (k : Reading). k.plan ≡ plan_select k.condition k.table.key_column_id)
            (ok-injective kept) refl;
    }

IsPlanned-Sound :
    (r : Reading) (row : Record) (k : ℕ)
    → IsPlanned r
    → HasKey row r.table.schema r.table.key_column_id k
    → row_accepted r.condition row r.table.schema ≡ true
    → Admits r.plan k
IsPlanned-Sound r row k p key h =
    subst (λ (a : Plan). Admits a k) (sym p.planned)
      (plan_select-Sound r.condition row r.table.schema r.table.key_column_id k p.typed key h)

bind_statement-IsPlanned :
    (tables : List Table) (ast : Ast) (statement : Statement) (r : Reading)
    → bind_statement tables ast ≡ ok (prepare_success statement)
    → (statement ≡ selecting r) ⊎ (statement ≡ deleting r)
    → IsPlanned r
unfolding bind_statement
bind_statement-IsPlanned tables ast_empty statement r h is_r = absurd (cc)
bind_statement-IsPlanned tables (ast_insert insert) statement r h is_r =
    let (a, bound, kept) = ok->>= (bind_insert tables insert) _ h in
    elim is_r [ inl w ↦ absurd (cc) | inr w ↦ absurd (cc) ]
bind_statement-IsPlanned tables (ast_select explain select) statement r h is_r =
    let (a, bound, kept) = ok->>= (bind_select tables select explain) _ h in
    elim is_r [
      | inl w ↦
          let same : a ≡ r = cc in
          subst IsPlanned same (bind_select-IsPlanned tables select explain a bound)
      | inr w ↦ absurd (cc)
    ]
bind_statement-IsPlanned tables (ast_create_table create) statement r h is_r =
    let (a, bound, kept) = ok->>= (bind_create_table tables create) _ h in
    elim is_r [ inl w ↦ absurd (cc) | inr w ↦ absurd (cc) ]
bind_statement-IsPlanned tables (ast_delete explain delete_rows) statement r h is_r =
    let (a, bound, kept) = ok->>= (bind_delete tables delete_rows explain) _ h in
    elim is_r [
      | inl w ↦ absurd (cc)
      | inr w ↦
          let same : a ≡ r = cc in
          subst IsPlanned same (bind_delete-IsPlanned tables delete_rows explain a bound)
    ]

prepare_statement-IsPlanned :
    (tables : List Table) (sql : Bytes) (statement : Statement) (r : Reading)
    → prepare_statement tables sql ≡ ok (prepare_success statement)
    → (statement ≡ selecting r) ⊎ (statement ≡ deleting r)
    → IsPlanned r
unfolding prepare_statement
prepare_statement-IsPlanned tables sql statement r h is_r = of_outcome (parse_statement sql) h
  where
    of_outcome :
        (parsed : Outcome Ast)
        → elim parsed [
          | Outcome.no_fuel ↦ err no_outcome
          | Outcome.err why ↦ err (bad_syntax why)
          | Outcome.ok ast ↦ bind_statement tables ast
        ]
          ≡ ok (prepare_success statement)
        → IsPlanned r
    of_outcome Outcome.no_fuel e = absurd (cc)
    of_outcome (Outcome.err why) e = absurd (cc)
    of_outcome (Outcome.ok ast) e = bind_statement-IsPlanned tables ast statement r e is_r

-- When a line is prepared as a SELECT or a DELETE, with or without EXPLAIN, the statement keeps a
-- condition and a plan: the key of a row that the condition accepts, a key in [0, INT32_MAX], is one
-- that the plan admits.
pub prepare_statement-Admits :
    (tables : List Table) (sql : Bytes) (statement : Statement) (r : Reading) (row : Record) (k : ℕ)
    → prepare_statement tables sql ≡ ok (prepare_success statement)
    → (statement ≡ selecting r) ⊎ (statement ≡ deleting r)
    → HasKey row r.table.schema r.table.key_column_id k
    → row_accepted r.condition row r.table.schema ≡ true
    → Admits r.plan k
prepare_statement-Admits tables sql statement r row k h is_r =
    IsPlanned-Sound r row k (prepare_statement-IsPlanned tables sql statement r h is_r)

-- What a column can store of a literal.
unfoldable pub storable : ColumnType → LiteralType → Literal → ColumnDefinition → Bool → Bool
storable column_int literal_integer l column is_key =
    not l.out_of_range
    && leb_ℤ (if is_key then pos 0 else negsuc 2147483647) l.integer
    && leb_ℤ l.integer (pos 2147483647)
storable column_text literal_string l column is_key = leb (length l.text) column.size
storable column_int literal_string l column is_key = false
storable column_text literal_integer l column is_key = false

bind_value_of_iff :
    (t : ColumnType) (u : LiteralType) (l : Literal) (column : ColumnDefinition) (is_key : Bool)
    → l.type ≡ u
    → (bind_value_of t l column is_key ≡ ok tt) ↔ (storable t u l column is_key ≡ true)
unfolding bind_value_of bind_int_value bind_text_value storable
bind_value_of_iff column_int literal_integer l column is_key e = rw e (ground arith)
bind_value_of_iff column_int literal_string l column is_key e = rw e (ground arith)
bind_value_of_iff column_text literal_integer l column is_key e = rw e (ground arith)
bind_value_of_iff column_text literal_string l column is_key e = rw e (ground arith)

-- A value binds to a column exactly when it can be stored there: in an INT column an integer that
-- its literal holds and that is an `int32_t`, not negative for the key; in a TEXT column a text no
-- longer than the column is wide.
pub bind_value_iff :
    (l : Literal) (column : ColumnDefinition) (is_key : Bool)
    → (bind_value l column is_key ≡ ok tt) ↔ (storable column.type l.type l column is_key ≡ true)
unfolding bind_value
bind_value_iff l column is_key = bind_value_of_iff column.type l.type l column is_key refl
