-- ===== src/Parser/Statement.antt =====
-- The statement rules of src/parser.c. `ast_free` has no counterpart: a failed parse returns no tree.
use mini_sql.Ast.{
  InsertAst, SelectAst, DeleteAst, ColumnTypeAst, ast_type_int, ast_type_text, ColumnAst,
  CreateTableAst, Ast, ast_empty, ast_insert, ast_select, ast_create_table, ast_delete, ExprAst,
}
use mini_sql.Base.{
  ℕ, ◌+◌, Bool, true, false, ◌||◌, if◌then◌else◌, Option, none, some, List, [], ◌∷◌, length,
}
use mini_sql.Base.Bytes.{Bytes}
use mini_sql.Base.Int.{ℤ, pos}
use mini_sql.Token.{
  token_select, token_insert, token_into, token_values, token_from, token_where, token_create,
  token_table, token_delete, token_primary, token_key, token_int, token_text, token_explain,
  token_integer, token_left_paren, token_right_paren, token_comma, token_semicolon, token_star,
  token_end, TokenType,
}
use mini_sql.Tokenizer.{tokenizer_init, tokenizer_next}
use mini_sql.Parser.{
  Parser, Outcome, ok, ◌>>=◌, advance, check, if_match, fail_expected, expect, Parsed, done,
  parse_name, parse_literal, comma_list, a_token, a_table_name, a_column_name, star_or_column_name,
  a_width, int_or_text, comma_or_right_paren, select_or_delete, a_statement, end_of_statement,
}
use mini_sql.Parser.Expr.{parse_or}

abbrev pub expect_type : Parser → TokenType → Outcome Parser
expect_type p t = expect p t (a_token t)

-- [ '(' name { ',' name } ')' ]
unfoldable pub parse_column_list : ℕ → Parser → Outcome (Parsed (Option (List Bytes)))
unfolding comma_list
parse_column_list fuel p =
    if_match p token_left_paren
      (λ q. comma_list (λ r. parse_name r a_column_name) fuel q >>= λ names.
        expect names.parser token_right_paren comma_or_right_paren >>= λ r.
        done (some names.value) r)
      (done none p)

-- The first line is `advance(parser)` past INSERT.
unfoldable pub parse_insert : ℕ → Parser → Outcome (Parsed InsertAst)
unfolding parse_column_list
parse_insert fuel p = expect_type (advance p) token_into >>= λ p1.
    parse_name p1 a_table_name >>= λ name. parse_column_list fuel name.parser >>= λ columns.
    expect_type columns.parser token_values >>= λ p2. expect_type p2 token_left_paren >>= λ p3.
    comma_list parse_literal fuel p3 >>= λ values.
    expect values.parser token_right_paren comma_or_right_paren >>= λ p4.
    done (record { table_name = name.value; column_names = columns.value; values = values.value })
      p4

-- [ WHERE expr ]
unfoldable pub parse_where : ℕ → Parser → Outcome (Parsed (Option ExprAst))
parse_where fuel p =
    if_match p token_where (λ q. parse_or fuel 65 0 q >>= λ e. done (some e.value) e.parser)
      (done none p)

-- '*' | name { ',' name }: the message for the first name differs from that for the others.
unfoldable pub parse_select_list : ℕ → Parser → Outcome (Parsed (Option (List Bytes)))
unfolding comma_list
parse_select_list fuel p =
    if_match p token_star (λ q. done none q)
      (parse_name p star_or_column_name >>= λ first.
        if_match first.parser token_comma
          (λ q. comma_list (λ r. parse_name r a_column_name) fuel q >>= λ others.
            done (some (first.value ∷ others.value)) others.parser)
          (done (some (first.value ∷ [])) first.parser))

unfoldable pub parse_select : ℕ → Parser → Outcome (Parsed SelectAst)
unfolding parse_select_list parse_where
parse_select fuel p = parse_select_list fuel (advance p) >>= λ columns.
    expect_type columns.parser token_from >>= λ p1. parse_name p1 a_table_name >>= λ name.
    parse_where fuel name.parser >>= λ condition.
    done
      (record {
        table_name = name.value;
        column_names = columns.value;
        condition = condition.value;
      })
      condition.parser

unfoldable pub parse_delete : ℕ → Parser → Outcome (Parsed DeleteAst)
unfolding parse_where
parse_delete fuel p = expect_type (advance p) token_from >>= λ p1.
    parse_name p1 a_table_name >>= λ name. parse_where fuel name.parser >>= λ condition.
    done (record { table_name = name.value; condition = condition.value }) condition.parser

-- A column's type, with its width and the flag of the width.
pub record TypeAst : Type 0 where
  pub type : ColumnTypeAst
  pub width : ℤ
  pub width_out_of_range : Bool

-- ( INT | TEXT '(' INTEGER ')' )
unfoldable pub parse_column_type : Parser → Outcome (Parsed TypeAst)
parse_column_type p =
    if check p token_int
    then done (record { type = ast_type_int; width = pos 0; width_out_of_range = false })
        (advance p)
    else if check p token_text
    then (expect_type (advance p) token_left_paren >>= λ q.
        if check q token_integer
        then (expect_type (advance q) token_right_paren >>= λ r.
            done
              (record {
                type = ast_type_text;
                width = pos q.current.integer;
                width_out_of_range = q.current.out_of_range;
              })
              r)
        else fail_expected q a_width)
    else fail_expected p int_or_text

-- [ PRIMARY KEY ]
unfoldable pub parse_primary_key : Parser → Outcome (Parsed Bool)
parse_primary_key p =
    if_match p token_primary (λ q. expect_type q token_key >>= λ r. done true r) (done false p)

unfoldable pub parse_column_def : Parser → Outcome (Parsed ColumnAst)
unfolding parse_column_type parse_primary_key
parse_column_def p = parse_name p a_column_name >>= λ name. parse_column_type name.parser >>= λ t.
    parse_primary_key t.parser >>= λ key.
    done
      (record {
        name = name.value;
        type = t.value.type;
        width = t.value.width;
        width_out_of_range = t.value.width_out_of_range;
        primary_key = key.value;
      })
      key.parser

unfoldable pub parse_create : ℕ → Parser → Outcome (Parsed CreateTableAst)
unfolding parse_column_def comma_list
parse_create fuel p = expect_type (advance p) token_table >>= λ p1.
    parse_name p1 a_table_name >>= λ name. expect_type name.parser token_left_paren >>= λ p2.
    comma_list parse_column_def fuel p2 >>= λ columns.
    expect columns.parser token_right_paren comma_or_right_paren >>= λ p3.
    done (record { table_name = name.value; columns = columns.value }) p3

-- The dispatch on the first token of the statement; `explain` says that EXPLAIN came before it.
unfoldable pub parse_body : ℕ → Bool → Parser → Outcome (Parsed Ast)
parse_body fuel explain p =
    if check p token_insert
    then (parse_insert fuel p >>= λ i. done (ast_insert i.value) i.parser)
    else if check p token_select
    then (parse_select fuel p >>= λ s. done (ast_select explain s.value) s.parser)
    else if check p token_create
    then (parse_create fuel p >>= λ c. done (ast_create_table c.value) c.parser)
    else if check p token_delete
    then (parse_delete fuel p >>= λ d. done (ast_delete explain d.value) d.parser)
    else if check p token_semicolon || check p token_end
    then done ast_empty p
    else fail_expected p a_statement

-- [ EXPLAIN ], and what may follow it.
unfoldable pub parse_explained : ℕ → Parser → Outcome (Parsed Ast)
unfolding parse_body
parse_explained fuel p =
    if_match p token_explain
      (λ q.
        if check q token_select || check q token_delete
        then parse_body fuel true q
        else fail_expected q select_or_delete)
      (parse_body fuel false p)

-- [ ';' ] END
unfoldable pub parse_end : Ast → Parser → Outcome Ast
parse_end ast p =
    let q = if check p token_semicolon then advance p else p in
    if check q token_end then ok ast else fail_expected q end_of_statement

-- The state after the first `advance`.
unfoldable pub parser_init : Bytes → Parser
parser_init sql =
    let step = tokenizer_next (tokenizer_init sql) in
    record { tokenizer = step.1; current = step.0 }

unfoldable pub parse_with_fuel : ℕ → Bytes → Outcome Ast
unfolding parse_explained parse_end parser_init
parse_with_fuel fuel sql =
    parse_explained fuel (parser_init sql) >>= λ a. parse_end a.value a.parser

unfoldable pub parse_statement : Bytes → Outcome Ast
unfolding parse_with_fuel
parse_statement sql = parse_with_fuel (length sql + 2) sql
