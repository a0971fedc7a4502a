-- ===== src/Tests/Rows.antt =====
-- Schemas, rows, expressions and plans: theorems at one table with three columns, and runs.
use mini_sql.Base.{
  ℕ, ◌+◌, ◌≡◌, ◌≤◌, ◌<◌, ◌↔◌, refl, arith, true, false, some, List, [], ◌∷◌, inl, inr, ◌⊎◌, All,
}
use mini_sql.Base.Bytes.{Bytes, codes}
use mini_sql.Base.Int.{pos, negsuc}
use mini_sql.Ast.{
  InsertAst, literal_string, Literal, compare_less_equal, compare_greater, literal_integer,
  operand_column, operand_literal, ExprAst, expr_comparison,
}
use mini_sql.Base.Result.{ok}
use mini_sql.Schema.{
  ColumnDefinition, column_int, column_text, Schema, schema_create, schema_find_column_by_id,
  schema_names_equal, schema_find_column_by_name,
}
use mini_sql.Schema.Names.{NoNul, SameName, names_equal_iff}
use mini_sql.Schema.Layout.{total_size, schema_create-Layout}
use mini_sql.Record.{
  record_init, Record, record_set_int, record_set_text, record_get_int, print_field,
}
use mini_sql.Record.RoundTrip.{record_get_int-record_set_int}
use mini_sql.Record.Frame.{
  text_of, text_of-record_set_text, record_set_int-Frame, record_set_text-Frame,
}
use mini_sql.Expression.{
  BoundExpr, comparison, conjunction, no_children, more_children, value_int, BoundOperand,
  expression_bind, expression_evaluate, compare_operands, holds, bind_comparison, bind_operand,
  row_accepted, same, order_texts,
}
use mini_sql.Expression.Binding.{well_typed, expression_bind-well_typed}
use mini_sql.Expression.Ordering.{lexicographic, opposite, order_texts-IsOrder}
use mini_sql.Statement.Inserted.{StoresColumn, bind_insert-Stores}
use mini_sql.Record.LaidOut.{IsLaidOut, schema_create-IsLaidOut}
use mini_sql.Table.{Table}
use mini_sql.Statement.{
  Inserting, bind_insert, insert_targets, check_count, check_all_listed, check_values, store_values,
  pair_values, Reading, bind_table, database_find_table, select_columns, bind_where, bind_select,
  bind_value,
}
use mini_sql.Statement.Planned.{prepare_statement-Admits, storable, bind_value_iff}
use mini_sql.Statement.Prepare.{prepare_statement, prepare_success, selecting}
use mini_sql.Parser.{advance}
use mini_sql.Parser.Expr.{parse_or}
use mini_sql.Parser.Statement.{
  parse_statement, parse_create, parse_select, parse_insert, parse_delete,
}
use mini_sql.Tokenizer.{
  read_number, keyword_or_identifier, read_string, read_symbol, blank_length, read_lexeme,
  tokenizer_init, tokenizer_next,
}
use mini_sql.Planner.{narrow_by_comparison, plan_select, plan_range}
use mini_sql.Planner.Sound.{HasKey, Admits, plan_select-Sound}
use mini_sql.Planner.Exact.{key_only, plan_select-Exact, plan_select-Shape}

abbrev id_column : ColumnDefinition
id_column = record { column_id = 1; name = codes "id"; type = column_int; size = 4; offset = 0 }

abbrev age_column : ColumnDefinition
age_column = record { column_id = 2; name = codes "age"; type = column_int; size = 4; offset = 4 }

abbrev nick_column : ColumnDefinition
nick_column = record {
  column_id = 3;
  name = codes "nick";
  type = column_text;
  size = 3;
  offset = 8;
}

abbrev columns : List ColumnDefinition
columns = id_column ∷ age_column ∷ nick_column ∷ []

schema_create-Layout_example :
    let s = schema_create columns in
    (4 + 4 ≤ 8)
    × (8 + 3 ≤ s.row_size)
    × (schema_find_column_by_id s 2 ≡ some age_column)
    × (schema_find_column_by_id s 3 ≡ some nick_column)
    × (s.row_size ≡ 11)
unfolding total_size schema_create
schema_create-Layout_example =
    schema_create-Layout columns 1 2 (omega arith) (omega arith) (omega arith) refl refl

names_equal_iff_example :
    (schema_names_equal (codes "Id") (codes "iD") ≡ true) ↔ SameName (codes "Id") (codes "iD")
names_equal_iff_example =
    names_equal_iff (codes "Id") (codes "iD") (omega arith, (omega arith, tt))
      (omega arith, (omega arith, tt))

abbrev people : Schema
people = record {
  version = 1;
  next_column_id = 4;
  num_columns = 3;
  columns = columns;
  row_size = 11;
}

abbrev blank_row : Record
blank_row = record { payload = 1 ∷ 2 ∷ 3 ∷ 4 ∷ 5 ∷ 6 ∷ 7 ∷ 8 ∷ 9 ∷ 10 ∷ 11 ∷ [] }

found_age : schema_find_column_by_id people 2 ≡ some age_column
unfolding schema_find_column_by_id
found_age = refl

found_nick : schema_find_column_by_id people 3 ≡ some nick_column
unfolding schema_find_column_by_id
found_nick = refl

record_get_int-record_set_int_example :
    record_get_int (record_set_int blank_row people 2 (negsuc 6)) people 2 ≡ negsuc 6
record_get_int-record_set_int_example =
    record_get_int-record_set_int people 2 found_age blank_row (negsuc 6) (omega arith, omega arith)
      (omega arith)

text_of-record_set_text_example :
    text_of (record_set_text blank_row people 3 (codes "bob")) nick_column ≡ codes "bob"
text_of-record_set_text_example =
    text_of-record_set_text people 3 found_nick blank_row (codes "bob")
      (omega arith, (omega arith, (omega arith, tt))) (omega arith) (omega arith)

record_set_int-Frame_example :
    print_field (record_set_int blank_row people 2 (pos 70000)) people nick_column
    ≡ print_field blank_row people nick_column
record_set_int-Frame_example =
    record_set_int-Frame people 2 found_age found_nick blank_row (pos 70000) refl
      (λ h. ground arith) (inl (omega arith))

record_set_text-Frame_example :
    print_field (record_set_text blank_row people 3 (codes "alice")) people age_column
    ≡ print_field blank_row people age_column
record_set_text-Frame_example =
    record_set_text-Frame people 3 found_nick found_age blank_row (codes "alice") (λ h. refl)
      (inr (omega arith))

abbrev id_operand : BoundOperand
id_operand = record {
  is_column = true;
  type = value_int;
  column_id = 1;
  width = 4;
  integer = pos 0;
  text = [];
}

abbrev constant : ℕ → BoundOperand
constant n = record {
  is_column = false;
  type = value_int;
  column_id = 0;
  width = 0;
  integer = pos n;
  text = [];
}

-- id > 2 AND 9 > id.
abbrev between : BoundExpr
between = conjunction (
    more_children (comparison compare_greater id_operand (constant 2))
      (more_children (comparison compare_greater (constant 9) id_operand) no_children))

abbrev row_five : Record
row_five = record { payload = 5 ∷ 0 ∷ 0 ∷ 0 ∷ 5 ∷ 6 ∷ 7 ∷ 8 ∷ 9 ∷ 10 ∷ 11 ∷ [] }

row_five-HasKey : HasKey row_five people 1 5
unfolding record_get_int schema_find_column_by_id
row_five-HasKey = record { reads = refl; bound = omega arith }

planned : plan_select (some between) 1 ≡ record { kind = plan_range; low = 3; high = 8 }
unfolding plan_select narrow_by_comparison
planned = refl

plan_select-Sound_example : Admits (plan_select (some between) 1) 5
unfolding well_typed row_accepted expression_evaluate compare_operands holds record_get_int
    schema_find_column_by_id
plan_select-Sound_example =
    plan_select-Sound (some between) row_five people 1 5 refl row_five-HasKey refl

plan_select-Exact_example : row_accepted (some between) row_five people ≡ true
unfolding well_typed key_only plan_select narrow_by_comparison
plan_select-Exact_example =
    plan_select-Exact between row_five people 1 5 refl refl row_five-HasKey
      (omega arith, omega arith)

plan_select-Shape_example : (3 < 8) × (8 ≤ 2147483647) × ((0 < 3) ⊎ (8 < 2147483647))
unfolding plan_select narrow_by_comparison
plan_select-Shape_example = plan_select-Shape (some between) 1

-- age <= 30.
abbrev age_limit : ExprAst
age_limit = expr_comparison compare_less_equal (operand_column (codes "AGE")) (
    operand_literal
      record { type = literal_integer; text = codes "30"; integer = pos 30; out_of_range = false })

abbrev age_bound : BoundExpr
age_bound = comparison compare_less_equal (record id_operand { column_id = 2 }) (constant 30)

expression_bind-well_typed_example : well_typed age_bound ≡ true
unfolding expression_bind bind_comparison bind_operand schema_find_column_by_name
expression_bind-well_typed_example = expression_bind-well_typed age_limit people age_bound refl

order_texts-IsOrder_example :
    (order_texts (codes "bo") (codes "bob") ≡ lexicographic (codes "bo") (codes "bob"))
    × ((order_texts (codes "bo") (codes "bob") ≡ same) ↔ (codes "bo" ≡ codes "bob"))
    × (order_texts (codes "bob") (codes "bo") ≡ opposite (order_texts (codes "bo") (codes "bob")))
order_texts-IsOrder_example = order_texts-IsOrder (codes "bo") (codes "bob")

-- An id is at most 30.
abbrev id_limit : ExprAst
id_limit = expr_comparison compare_less_equal (operand_column (codes "ID")) (
    operand_literal
      record { type = literal_integer; text = codes "30"; integer = pos 30; out_of_range = false })

abbrev people_table : Table
people_table = record {
  name = codes "people";
  schema = people;
  key_column_id = 1;
  root_page_num = 2;
  sql = [];
}

abbrev reading : List ℕ → Reading
reading ids = record {
  table = people_table;
  column_ids = ids;
  condition = some (comparison compare_less_equal id_operand (constant 30));
  plan = record { kind = plan_range; low = 0; high = 30 };
  explain = false;
}

abbrev select_line : Bytes
select_line = codes "SELECT nick FROM People WHERE ID <= 30"

select_prepared :
    prepare_statement (people_table ∷ []) select_line
    ≡ ok (prepare_success (selecting (reading (3 ∷ []))))
unfolding prepare_statement bind_select bind_table database_find_table schema_names_equal
    select_columns bind_where expression_bind bind_comparison bind_operand
    schema_find_column_by_name plan_select narrow_by_comparison parse_or read_number parse_statement
    keyword_or_identifier parse_create parse_select parse_insert read_symbol parse_delete
    read_string blank_length tokenizer_next advance tokenizer_init read_lexeme
select_prepared = refl

prepare_statement-Admits_example : Admits (reading (3 ∷ [])).plan 5
unfolding row_accepted expression_evaluate compare_operands holds record_get_int
    schema_find_column_by_id
prepare_statement-Admits_example =
    prepare_statement-Admits (people_table ∷ []) select_line (selecting (reading (3 ∷ [])))
      (reading (3 ∷ [])) row_five 5 select_prepared (inl refl) row_five-HasKey refl

abbrev forty_two : Literal
forty_two = record {
  type = literal_integer;
  text = codes "42";
  integer = pos 42;
  out_of_range = false;
}

bind_value_iff_example :
    (bind_value forty_two id_column true ≡ ok tt)
    ↔ (storable column_int literal_integer forty_two id_column true ≡ true)
bind_value_iff_example = bind_value_iff forty_two id_column true

abbrev bob : Literal
bob = record { type = literal_string; text = codes "bob"; integer = pos 0; out_of_range = false }

abbrev insert_ast : InsertAst
insert_ast = record {
  table_name = codes "people";
  column_names = some (codes "nick" ∷ codes "id" ∷ codes "age" ∷ []);
  values = bob ∷ forty_two ∷ forty_two ∷ [];
}

abbrev inserting : Inserting
inserting = record {
  table = people_table;
  record_to_insert =
      store_values (record_init people) people
        (pair_values columns (2 ∷ 0 ∷ 1 ∷ []) (bob ∷ forty_two ∷ forty_two ∷ []));
}

people-IsLaidOut : IsLaidOut people
unfolding schema_create total_size
people-IsLaidOut =
    schema_create-IsLaidOut columns (omega arith)
      ((λ h. refl), ((λ h. refl), ((λ h. ground arith), tt)))

insert_ast-NoNul : All (λ (v : Literal). NoNul v.text) insert_ast.values
insert_ast-NoNul = (
  (omega arith, (omega arith, (omega arith, tt))),
  ((omega arith, (omega arith, tt)), ((omega arith, (omega arith, tt)), tt)),
)

bind_insert-Stores_example :
    (database_find_table (people_table ∷ []) (codes "people") ≡ some people_table)
    × StoresColumn insert_ast inserting 2 nick_column
unfolding bind_insert bind_table database_find_table schema_names_equal insert_targets check_count
    check_all_listed check_values bind_value pair_values
bind_insert-Stores_example =
    bind_insert-Stores (people_table ∷ []) insert_ast inserting 2 nick_column refl people-IsLaidOut
      insert_ast-NoNul refl
