-- ===== src/Planner.antt =====
-- src/planner.c and include/planner.h: the range of keys that a WHERE allows, and the plan. The
-- bounds are `int64_t` in the source; Planner.Bounds shows that they stay far inside that range, so
-- they are integers here.
pub mod Bounds
pub mod Sound
pub mod Exact
use mini_sql.Ast.{
  CompareOp, compare_equal, compare_not_equal, compare_less, compare_less_equal, compare_greater,
  compare_greater_equal,
}
use mini_sql.Base.{
  ℕ, ◌+◌, Bool, true, false, not, ◌&&◌, ◌||◌, Option, none, some, ◌==◌, ltb, if◌then◌else◌,
}
use mini_sql.Base.Bytes.{Bytes}
use mini_sql.Base.Int.{ℤ, pos, negsuc, ltb_ℤ, inc, dec}
use mini_sql.Record.{to_u32}
use mini_sql.Expression.{
  BoundOperand, BoundExpr, BoundExprs, comparison, conjunction, disjunction, negation, no_children,
  more_children, is_int,
}

-- INT32_MAX.
abbrev pub key_max : ℕ
key_max = 2147483647

unfoldable pub clamp_constant : ℤ → ℤ
clamp_constant value =
    if ltb_ℤ value (negsuc 1)
    then negsuc 1
    else if ltb_ℤ (pos (key_max + 2)) value
    then pos (key_max + 2)
    else value

unfoldable pub flip : CompareOp → CompareOp
flip compare_less = compare_greater
flip compare_less_equal = compare_greater_equal
flip compare_greater = compare_less
flip compare_greater_equal = compare_less_equal
flip compare_equal = compare_equal
flip compare_not_equal = compare_not_equal

-- `*low` and `*high`.
pub record Range : Type 0 where
  pub low : ℤ
  pub high : ℤ

-- if(value > *low) *low = value, and if(value < *high) *high = value.
abbrev pub raise_low : ℤ → Range → Range
raise_low value r = if ltb_ℤ r.low value then record r { low = value } else r

abbrev pub lower_high : ℤ → Range → Range
lower_high value r = if ltb_ℤ value r.high then record r { high = value } else r

-- The switch of `narrow_by_comparison`.
unfoldable pub narrow_by_op : CompareOp → ℤ → Range → Range
narrow_by_op compare_equal value r = lower_high value (raise_low value r)
narrow_by_op compare_greater value r = raise_low (inc value) r
narrow_by_op compare_greater_equal value r = raise_low value r
narrow_by_op compare_less value r = lower_high (dec value) r
narrow_by_op compare_less_equal value r = lower_high value r
narrow_by_op compare_not_equal value r = r

-- `a` is the key column and `b` an integer constant.
abbrev pub is_key_against : BoundOperand → BoundOperand → ℕ → Bool
is_key_against a b key_column_id =
    a.is_column && (a.column_id == key_column_id) && not b.is_column && is_int b.type

unfoldable pub narrow_by_comparison : CompareOp → BoundOperand → BoundOperand → ℕ → Range → Range
unfolding narrow_by_op clamp_constant flip
narrow_by_comparison op left right key_column_id r =
    if is_key_against left right key_column_id
    then narrow_by_op op (clamp_constant right.integer) r
    else if is_key_against right left key_column_id
    then narrow_by_op (flip op) (clamp_constant left.integer) r
    else r

unfoldable mutual
  pub narrow : BoundExpr → ℕ → Range → Range
  narrow (comparison op left right) key_column_id r =
      narrow_by_comparison op left right key_column_id r
  narrow (conjunction cs) key_column_id r = narrow_all cs key_column_id r
  narrow (disjunction cs) key_column_id r = r
  narrow (negation c) key_column_id r = r

  pub narrow_all : BoundExprs → ℕ → Range → Range
  narrow_all no_children key_column_id r = r
  narrow_all (more_children c cs) key_column_id r =
      narrow_all cs key_column_id (narrow c key_column_id r)

pub data PlanKind : Type 0 where
  plan_scan plan_point plan_range plan_empty : PlanKind

pub record Plan : Type 0 where
  pub kind : PlanKind
  pub low : ℕ
  pub high : ℕ

-- The range with which `plan_select` starts.
abbrev pub all_keys : Range
all_keys = record { low = pos 0; high = pos key_max }

unfoldable pub narrow_where : Option BoundExpr → ℕ → Range
unfolding narrow narrow_all
narrow_where none key_column_id = all_keys
narrow_where (some expr) key_column_id = narrow expr key_column_id all_keys

-- `plan_select` from the narrowed range on. Storing a bound casts it to `uint32_t`.
unfoldable pub plan_of_range : Range → Plan
unfolding to_u32
plan_of_range r =
    if ltb_ℤ r.high r.low
    then record { kind = plan_empty; low = 0; high = 0 }
    else if not (ltb_ℤ r.low r.high)
    then record { kind = plan_point; low = to_u32 r.low; high = to_u32 r.high }
    else if ltb_ℤ (pos 0) r.low || ltb_ℤ r.high (pos key_max)
    then record { kind = plan_range; low = to_u32 r.low; high = to_u32 r.high }
    else record { kind = plan_scan; low = 0; high = 0 }

unfoldable pub plan_select : Option BoundExpr → ℕ → Plan
unfolding narrow_where plan_of_range
plan_select condition key_column_id = plan_of_range (narrow_where condition key_column_id)
