-- ===== src/Expression.antt =====
-- src/expression.c and include/expression.h: WHERE expressions bound to a schema, and their
-- evaluation against a row. Error messages are values; `memcmp` is byte order, as the C library
-- defines it.
pub mod Binding
pub mod Ordering
use mini_sql.Ast.{
  CompareOp, compare_equal, compare_not_equal, compare_less, compare_less_equal, compare_greater,
  compare_greater_equal, Literal, literal_integer, literal_string, LiteralType, OperandAst,
  operand_column, operand_literal, ExprAst, ExprAsts, expr_comparison, expr_and, expr_or, expr_not,
  no_asts, more_asts,
}
use mini_sql.Base.{
  ℕ, zero, suc, Bool, true, false, not, ◌&&◌, Option, none, some, List, [], ◌∷◌, ltb, if◌then◌else◌,
  length,
}
use mini_sql.Base.Bytes.{Bytes}
use mini_sql.Base.Int.{ℤ, pos, ltb_ℤ}
use mini_sql.Base.Result.{Result, ok, err, ◌>>=◌}
use mini_sql.Schema.{
  ColumnType, column_int, column_text, ColumnDefinition, Schema, schema_find_column_by_name,
}
use mini_sql.Record.{Record, record_get_int, record_get_text, bounded_text}

pub data ValueType : Type 0 where
  value_int value_text : ValueType

abbrev pub is_int : ValueType → Bool
is_int value_int = true
is_int value_text = false

abbrev pub same_type : ValueType → ValueType → Bool
same_type value_int t = is_int t
same_type value_text t = not (is_int t)

-- `length` is the length of `text`.
pub record BoundOperand : Type 0 where
  pub is_column : Bool
  pub type : ValueType
  pub column_id : ℕ
  pub width : ℕ
  pub integer : ℤ
  pub text : Bytes

mutual
  pub data BoundExpr : Type 0 where
    comparison : CompareOp → BoundOperand → BoundOperand → BoundExpr
    conjunction : BoundExprs → BoundExpr
    disjunction : BoundExprs → BoundExpr
    negation : BoundExpr → BoundExpr

  pub data BoundExprs : Type 0 where
    no_children : BoundExprs
    more_children : BoundExpr → BoundExprs → BoundExprs

-- The errors that binding an expression reports.
pub data BindError : Type 0 where
  no_such_column : Bytes → BindError
  cannot_compare : OperandAst → OperandAst → BindError
  out_of_range_for_column : Bytes → Bytes → BindError
  out_of_range : Bytes → BindError

abbrev column_value_type : ColumnType → ValueType
column_value_type column_int = value_int
column_value_type column_text = value_text

bind_literal : LiteralType → Literal → BoundOperand
bind_literal literal_integer l = record {
  is_column = false;
  type = value_int;
  column_id = 0;
  width = 0;
  integer = l.integer;
  text = [];
}
bind_literal literal_string l = record {
  is_column = false;
  type = value_text;
  column_id = 0;
  width = 0;
  integer = pos 0;
  text = l.text;
}

unfoldable pub bind_operand : OperandAst → Schema → Result BindError BoundOperand
unfolding bind_literal
bind_operand (operand_column name) schema = elim (schema_find_column_by_name schema name) [
  | none ↦ err (no_such_column name)
  | some column ↦ ok (record {
    is_column = true;
    type = column_value_type column.type;
    column_id = column.column_id;
    width = column.size;
    integer = pos 0;
    text = [];
  })
]
bind_operand (operand_literal l) schema = ok (bind_literal l.type l)

abbrev is_integer_literal : LiteralType → Bool
is_integer_literal literal_integer = true
is_integer_literal literal_string = false

-- One round of the loop over the two sides: `operand` is the side looked at.
check_range : OperandAst → OperandAst → Result BindError (Unit {0})
check_range (operand_column name) other = ok tt
check_range (operand_literal l) (operand_column name) =
    if is_integer_literal l.type && l.out_of_range
    then err (out_of_range_for_column l.text name)
    else ok tt
check_range (operand_literal l) (operand_literal m) =
    if is_integer_literal l.type && l.out_of_range then err (out_of_range l.text) else ok tt

abbrev check_types :
    OperandAst → OperandAst → BoundOperand → BoundOperand → Result BindError (Unit {0})
check_types l r left right =
    if same_type left.type right.type then ok tt else err (cannot_compare l r)

unfoldable pub bind_comparison :
    CompareOp → OperandAst → OperandAst → Schema → Result BindError BoundExpr
unfolding check_range
bind_comparison op l r schema = do
  left ← bind_operand l schema
  right ← bind_operand r schema
  _ ← check_types l r left right
  _ ← check_range l r
  _ ← check_range r l
  ok (comparison op left right)

unfoldable mutual
  pub expression_bind : ExprAst → Schema → Result BindError BoundExpr
  expression_bind (expr_comparison op l r) schema = bind_comparison op l r schema
  expression_bind (expr_and cs) schema = bind_children cs schema >>= λ b. ok (conjunction b)
  expression_bind (expr_or cs) schema = bind_children cs schema >>= λ b. ok (disjunction b)
  expression_bind (expr_not c) schema = expression_bind c schema >>= λ b. ok (negation b)

  pub bind_children : ExprAsts → Schema → Result BindError BoundExprs
  bind_children no_asts schema = ok no_children
  bind_children (more_asts c cs) schema =
      expression_bind c schema >>= λ b. bind_children cs schema >>= λ bs. ok (more_children b bs)

-- The sign of the `int` that a comparison returns.
pub data Sign : Type 0 where
  less same greater : Sign

-- (a > b) - (a < b), for integers and for lengths.
unfoldable pub order_ints : ℤ → ℤ → Sign
order_ints a b = if ltb_ℤ b a then greater else if ltb_ℤ a b then less else same

unfoldable pub order_lengths : ℕ → ℕ → Sign
order_lengths a b = if ltb b a then greater else if ltb a b then less else same

unfoldable pub memcmp : ℕ → Bytes → Bytes → Sign
memcmp zero a b = same
memcmp (suc n) [] b = same
memcmp (suc n) (x ∷ a) [] = same
memcmp (suc n) (x ∷ a) (y ∷ b) =
    let rest = memcmp n a b in if ltb x y then less else if ltb y x then greater else rest

unfoldable pub order_texts : Bytes → Bytes → Sign
unfolding memcmp order_lengths
order_texts a b =
    let shared = if ltb (length a) (length b) then length a else length b in
    elim (memcmp shared a b) [
      | less ↦ less
      | greater ↦ greater
      | same ↦ order_lengths (length a) (length b)
    ]

unfoldable pub int_value : BoundOperand → Record → Schema → ℤ
int_value operand r schema =
    if operand.is_column then record_get_int r schema operand.column_id else operand.integer

abbrev text_or_empty : ℕ → Option Bytes → Bytes
text_or_empty width none = []
text_or_empty width (some text) = bounded_text width text

unfoldable pub text_value : BoundOperand → Record → Schema → Bytes
text_value operand r schema =
    if operand.is_column
    then text_or_empty operand.width (record_get_text r schema operand.column_id)
    else operand.text

unfoldable pub compare_operands : BoundOperand → BoundOperand → Record → Schema → Sign
unfolding int_value text_value order_ints order_texts
compare_operands left right r schema =
    if is_int left.type
    then order_ints (int_value left r schema) (int_value right r schema)
    else order_texts (text_value left r schema) (text_value right r schema)

unfoldable pub holds : CompareOp → Sign → Bool
holds compare_equal same = true
holds compare_equal _ = false
holds compare_not_equal same = false
holds compare_not_equal _ = true
holds compare_less less = true
holds compare_less _ = false
holds compare_less_equal greater = false
holds compare_less_equal _ = true
holds compare_greater greater = true
holds compare_greater _ = false
holds compare_greater_equal less = false
holds compare_greater_equal _ = true

unfoldable mutual
  pub expression_evaluate : BoundExpr → Record → Schema → Bool
  expression_evaluate (comparison op left right) r schema =
      holds op (compare_operands left right r schema)
  expression_evaluate (conjunction cs) r schema = all_hold cs r schema
  expression_evaluate (disjunction cs) r schema = any_holds cs r schema
  expression_evaluate (negation c) r schema = not (expression_evaluate c r schema)

  pub all_hold : BoundExprs → Record → Schema → Bool
  all_hold no_children r schema = true
  all_hold (more_children c cs) r schema =
      if expression_evaluate c r schema then all_hold cs r schema else false

  pub any_holds : BoundExprs → Record → Schema → Bool
  any_holds no_children r schema = false
  any_holds (more_children c cs) r schema =
      if expression_evaluate c r schema then true else any_holds cs r schema

-- statement->where == NULL || expression_evaluate(statement->where, &record, table->schema)
unfoldable pub row_accepted : Option BoundExpr → Record → Schema → Bool
row_accepted none r schema = true
row_accepted (some condition) r schema = expression_evaluate condition r schema
