-- ===== src/Parser/Expr.antt =====
-- The expression rules of src/parser.c.
use mini_sql.Ast.{
  CompareOp, compare_equal, compare_not_equal, compare_less, compare_less_equal, compare_greater,
  compare_greater_equal, OperandAst, operand_column, operand_literal, ExprAst, ExprAsts,
  expr_comparison, expr_and, expr_or, expr_not, no_asts, more_asts,
}
use mini_sql.Base.{ℕ, zero, suc, ◌+◌, ◌||◌, leb, if◌then◌else◌, Option, none, some}
use mini_sql.Token.{
  TokenType, token_identifier, token_integer, token_string, token_minus, token_left_paren,
  token_right_paren, token_equal, token_not_equal, token_less, token_less_equal, token_greater,
  token_greater_equal, token_and, token_or, token_not,
}
use mini_sql.Parser.{
  Parser, Outcome, ok, err, no_fuel, ◌>>=◌, advance, check, if_match, fail_expected, expect, Parsed,
  done, parse_name, parse_literal, a_column_name, a_column_or_value, a_comparison_operator, a_token,
  nested,
}

-- MAX_EXPRESSION_DEPTH.
abbrev pub max_expression_depth : ℕ
max_expression_depth = 64

unfoldable pub fail_nested {ℓ} : {A : Type ℓ} → Parser → Outcome A
fail_nested p = err (nested p.current.column)

unfoldable pub parse_operand : Parser → Outcome (Parsed OperandAst)
unfolding fail_expected parse_name parse_literal
parse_operand p =
    if check p token_identifier
    then (parse_name p a_column_name >>= λ n. done (operand_column n.value) n.parser)
    else if check p token_integer || check p token_minus || check p token_string
    then (parse_literal p >>= λ l. done (operand_literal l.value) l.parser)
    else fail_expected p a_column_or_value

-- The operator that a token stands for.
abbrev pub compare_op_of : TokenType → Option CompareOp
compare_op_of token_equal = some compare_equal
compare_op_of token_not_equal = some compare_not_equal
compare_op_of token_less = some compare_less
compare_op_of token_less_equal = some compare_less_equal
compare_op_of token_greater = some compare_greater
compare_op_of token_greater_equal = some compare_greater_equal
compare_op_of _ = none

unfoldable pub parse_compare_op : Parser → Outcome (Parsed CompareOp)
unfolding fail_expected
parse_compare_op p = elim (compare_op_of p.current.type) [
  | some op ↦ done op (advance p)
  | none ↦ fail_expected p a_comparison_operator
]

-- `primary` where it is no parenthesis.
unfoldable pub parse_comparison : Parser → Outcome (Parsed ExprAst)
unfolding parse_operand parse_compare_op
parse_comparison p = parse_operand p >>= λ left. parse_compare_op left.parser >>= λ op.
    parse_operand op.parser >>= λ right.
    done (expr_comparison op.value left.value right.value) right.parser

-- while(match(parser, separator)) { operand }, behind a first operand.
unfoldable pub chain_rest :
    (Parser → Outcome (Parsed ExprAst)) → TokenType → ℕ → Parser → Outcome (Parsed ExprAsts)
chain_rest operand separator zero p = no_fuel
chain_rest operand separator (suc fuel) p =
    if_match p separator
      (λ q. operand q >>= λ next. chain_rest operand separator fuel next.parser >>= λ others.
        done (more_asts next.value others.value) others.parser)
      (done no_asts p)

-- One operand is returned as it is; two or more are gathered under one node.
unfoldable pub chain :
    (Parser → Outcome (Parsed ExprAst))
    → TokenType
    → (ExprAsts → ExprAst)
    → ℕ
    → Parser
    → Outcome (Parsed ExprAst)
unfolding chain_rest
chain operand separator node fuel p = operand p >>= λ first.
    if check first.parser separator
    then (chain_rest operand separator fuel first.parser >>= λ others.
        done (node (more_asts first.value others.value)) others.parser)
    else ok first

-- `parse_or`, `parse_and`, `parse_not` and `parse_primary`, given the rule for one level deeper.
unfoldable pub parse_primary :
    (Parser → Outcome (Parsed ExprAst)) → ℕ → Parser → Outcome (Parsed ExprAst)
unfolding fail_nested parse_comparison expect
parse_primary inner depth p =
    if check p token_left_paren
    then (if leb max_expression_depth depth
        then fail_nested p
        else (inner (advance p) >>= λ e.
            expect e.parser token_right_paren (a_token token_right_paren) >>= λ q. done e.value q))
    else parse_comparison p

unfoldable pub parse_not_with :
    (Parser → Outcome (Parsed ExprAst))
    → (Parser → Outcome (Parsed ExprAst))
    → ℕ
    → Parser
    → Outcome (Parsed ExprAst)
unfolding parse_primary
parse_not_with negated inner depth p =
    if check p token_not
    then (if leb max_expression_depth depth
        then fail_nested p
        else (negated (advance p) >>= λ e. done (expr_not e.value) e.parser))
    else parse_primary inner depth p

-- `levels` is the nesting that the fuel allows: a call one level deeper takes one. The other fuel
-- bounds the chains of ANDs and ORs.
unfoldable pub parse_not : (fuel levels depth : ℕ) → Parser → Outcome (Parsed ExprAst)
unfolding chain parse_not_with
parse_not fuel zero depth p = no_fuel
parse_not fuel (suc levels) depth p =
    parse_not_with (λ q. parse_not fuel levels (depth + 1) q)
      (λ q.
        chain (λ r. chain (λ s. parse_not fuel levels (depth + 1) s) token_and expr_and fuel r)
          token_or expr_or fuel q)
      depth p

unfoldable pub parse_and : (fuel levels depth : ℕ) → Parser → Outcome (Parsed ExprAst)
unfolding chain parse_not parse_not_with
parse_and fuel levels depth p = chain (λ q. parse_not fuel levels depth q) token_and expr_and fuel p

unfoldable pub parse_or : (fuel levels depth : ℕ) → Parser → Outcome (Parsed ExprAst)
unfolding parse_and
parse_or fuel levels depth p = chain (λ q. parse_and fuel levels depth q) token_or expr_or fuel p
