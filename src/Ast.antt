-- ===== src/Ast.antt =====
-- include/parser.h: the syntax tree. A heap-owned list with its count is a list; a NULL list, or a
-- NULL expression, is `none`.
use mini_sql.Base.{Bool, Option, List}
use mini_sql.Base.Bytes.{Bytes}
use mini_sql.Base.Int.{ℤ}

pub data LiteralType : Type 0 where
  literal_integer literal_string : LiteralType

-- `length` is the length of `text`.
pub record Literal : Type 0 where
  pub type : LiteralType
  pub text : Bytes
  pub integer : ℤ
  pub out_of_range : Bool

pub record InsertAst : Type 0 where
  pub table_name : Bytes
  pub column_names : Option (List Bytes)
  pub values : List Literal

pub data CompareOp : Type 0 where
  compare_equal compare_not_equal compare_less compare_less_equal : CompareOp
  compare_greater compare_greater_equal : CompareOp

pub data OperandAst : Type 0 where
  operand_column : Bytes → OperandAst
  operand_literal : Literal → OperandAst

-- A NOT holds exactly one child; an AND or OR holds its children in order.
mutual
  pub data ExprAst : Type 0 where
    expr_comparison : CompareOp → OperandAst → OperandAst → ExprAst
    expr_and : ExprAsts → ExprAst
    expr_or : ExprAsts → ExprAst
    expr_not : ExprAst → ExprAst

  pub data ExprAsts : Type 0 where
    no_asts : ExprAsts
    more_asts : ExprAst → ExprAsts → ExprAsts

pub record SelectAst : Type 0 where
  pub table_name : Bytes
  pub column_names : Option (List Bytes)
  pub condition : Option ExprAst

pub record DeleteAst : Type 0 where
  pub table_name : Bytes
  pub condition : Option ExprAst

pub data ColumnTypeAst : Type 0 where
  ast_type_int ast_type_text : ColumnTypeAst

pub record ColumnAst : Type 0 where
  pub name : Bytes
  pub type : ColumnTypeAst
  pub width : ℤ
  pub width_out_of_range : Bool
  pub primary_key : Bool

pub record CreateTableAst : Type 0 where
  pub table_name : Bytes
  pub columns : List ColumnAst

-- The kind of statement with its node; the flag is `explain`.
pub data Ast : Type 0 where
  ast_empty : Ast
  ast_insert : InsertAst → Ast
  ast_select : Bool → SelectAst → Ast
  ast_create_table : CreateTableAst → Ast
  ast_delete : Bool → DeleteAst → Ast
