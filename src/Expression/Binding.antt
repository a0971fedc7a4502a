-- ===== src/Expression/Binding.antt =====
-- What binding an expression guarantees.
use mini_sql.Ast.{
  CompareOp, OperandAst, ExprAst, ExprAsts, expr_comparison, expr_and, expr_or, expr_not, no_asts,
  more_asts,
}
use mini_sql.Base.{◌≡◌, arith, Bool, true, ◌&&◌, Option, none, some}
use mini_sql.Base.Result.{ok, ok->>=}
use mini_sql.Schema.{Schema}
use mini_sql.Expression.{
  same_type, BoundExpr, BoundExprs, comparison, conjunction, disjunction, negation, no_children,
  more_children, bind_comparison, expression_bind, bind_children,
}

-- Both sides of every comparison have the same type.
unfoldable mutual
  pub well_typed : BoundExpr → Bool
  well_typed (comparison op left right) = same_type left.type right.type
  well_typed (conjunction cs) = all_well_typed cs
  well_typed (disjunction cs) = all_well_typed cs
  well_typed (negation c) = well_typed c

  pub all_well_typed : BoundExprs → Bool
  all_well_typed no_children = true
  all_well_typed (more_children c cs) = well_typed c && all_well_typed cs

abbrev pub where_well_typed : Option BoundExpr → Bool
where_well_typed none = true
where_well_typed (some e) = well_typed e

bind_comparison-well_typed :
    (op : CompareOp) (l r : OperandAst) (schema : Schema) (e : BoundExpr)
    → bind_comparison op l r schema ≡ ok e
    → well_typed e ≡ true
unfolding bind_comparison well_typed
bind_comparison-well_typed op l r schema e h = ground arith

mutual
  unfolding expression_bind well_typed

  bind-well_typed :
      (ast : ExprAst) (schema : Schema) (e : BoundExpr)
      → expression_bind ast schema ≡ ok e
      → well_typed e ≡ true
  bind-well_typed (expr_comparison op l r) schema e h = bind_comparison-well_typed op l r schema e h
  bind-well_typed (expr_and cs) schema e h =
      let (b, bound, same) = ok->>= (bind_children cs schema) _ h in
      let q = children-well_typed cs schema b bound in ground arith
  bind-well_typed (expr_or cs) schema e h =
      let (b, bound, same) = ok->>= (bind_children cs schema) _ h in
      let q = children-well_typed cs schema b bound in ground arith
  bind-well_typed (expr_not c) schema e h =
      let (b, bound, same) = ok->>= (expression_bind c schema) _ h in
      let q = bind-well_typed c schema b bound in ground arith

  children-well_typed :
      (asts : ExprAsts) (schema : Schema) (es : BoundExprs)
      → bind_children asts schema ≡ ok es
      → all_well_typed es ≡ true
  children-well_typed no_asts schema es h = ground arith
  children-well_typed (more_asts c cs) schema es h =
      let (b, bound, rest) = ok->>= (expression_bind c schema) _ h in
      let (bs, bounds, same) = ok->>= (bind_children cs schema) _ rest in
      let p = bind-well_typed c schema b bound in
      let q = children-well_typed cs schema bs bounds in ground arith

-- Whatever expression binds without an error has both sides of every comparison of one type, at any
-- depth, which is what evaluation and planning take for granted.
pub expression_bind-well_typed :
    (ast : ExprAst) (schema : Schema) (e : BoundExpr)
    → expression_bind ast schema ≡ ok e
    → well_typed e ≡ true
expression_bind-well_typed ast schema e h = bind-well_typed ast schema e h
