-- ===== src/Planner/Bounds.antt =====
-- How far the bounds of the range can move.
use mini_sql.Ast.{CompareOp, compare_equal}
use mini_sql.Base.{ℕ, ◌+◌, arith, Option, none, some, inl, inr, Bool-cases}
use mini_sql.Base.Int.{ℤ, pos, negsuc, ◌≤ℤ◌}
use mini_sql.Expression.{
  BoundOperand, BoundExpr, BoundExprs, comparison, conjunction, disjunction, negation, no_children,
  more_children,
}
use mini_sql.Planner.{
  key_max, clamp_constant, flip, Range, narrow_by_op, narrow_by_comparison, is_key_against, narrow,
  narrow_all, narrow_where, all_keys,
}

-- Every bound lies in [-3, KEY_MAX + 3]; the lower is never negative, the upper never over KEY_MAX.
pub record IsBounded (r : Range) : Type 0 where
  pub low_least : pos 0 ≤ℤ r.low
  pub low_most : r.low ≤ℤ pos (key_max + 3)
  pub high_least : negsuc 2 ≤ℤ r.high
  pub high_most : r.high ≤ℤ pos key_max

clamp_constant_bounds :
    (v : ℤ) → (negsuc 1 ≤ℤ clamp_constant v) × (clamp_constant v ≤ℤ pos (key_max + 2))
unfolding clamp_constant
clamp_constant_bounds v = ground arith

narrow_by_op-IsBounded :
    (op : CompareOp) (v : ℤ) (r : Range)
    → negsuc 1 ≤ℤ v
    → v ≤ℤ pos (key_max + 2)
    → IsBounded r
    → IsBounded (narrow_by_op op v r)
unfolding narrow_by_op
narrow_by_op-IsBounded compare_equal v r l h b = ground arith
narrow_by_op-IsBounded _ v r l h b = ground arith

narrow_by_comparison-IsBounded :
    (op : CompareOp) (left right : BoundOperand) (k : ℕ) (r : Range)
    → IsBounded r
    → IsBounded (narrow_by_comparison op left right k r)
unfolding narrow_by_comparison
narrow_by_comparison-IsBounded op left right k r b =
    elim (Bool-cases (is_key_against left right k)) [
      | inl forwards ↦ rw forwards (
          narrow_by_op-IsBounded op (clamp_constant right.integer) r
            (clamp_constant_bounds right.integer).0 (clamp_constant_bounds right.integer).1 b)
      | inr not_forwards ↦ rw not_forwards (elim (Bool-cases (is_key_against right left k)) [
        | inl backwards ↦ rw backwards (
            narrow_by_op-IsBounded (flip op) (clamp_constant left.integer) r
              (clamp_constant_bounds left.integer).0 (clamp_constant_bounds left.integer).1 b)
        | inr neither ↦ rw neither b
      ])
    ]

mutual
  unfolding narrow

  narrow-IsBounded : (e : BoundExpr) (k : ℕ) (r : Range) → IsBounded r → IsBounded (narrow e k r)
  narrow-IsBounded (comparison op left right) k r b =
      narrow_by_comparison-IsBounded op left right k r b
  narrow-IsBounded (conjunction cs) k r b = narrow_all-IsBounded cs k r b
  narrow-IsBounded (disjunction cs) k r b = b
  narrow-IsBounded (negation c) k r b = b

  narrow_all-IsBounded :
      (cs : BoundExprs) (k : ℕ) (r : Range) → IsBounded r → IsBounded (narrow_all cs k r)
  narrow_all-IsBounded no_children k r b = b
  narrow_all-IsBounded (more_children c cs) k r b =
      narrow_all-IsBounded cs k (narrow c k r) (narrow-IsBounded c k r b)

pub narrow_where-IsBounded : (w : Option BoundExpr) (k : ℕ) → IsBounded (narrow_where w k)
unfolding narrow_where
narrow_where-IsBounded none k = omega arith
narrow_where-IsBounded (some e) k = narrow-IsBounded e k all_keys (omega arith)
