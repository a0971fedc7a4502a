-- ===== src/Planner/Sound.antt =====
-- A row that the WHERE accepts is never outside the plan.
use mini_sql.Ast.{CompareOp, compare_equal}
use mini_sql.Base.{ℕ, ◌≤◌, ◌≡◌, sym, ap, ◌∙◌, arith, true, Option, none, some, inl, inr, Bool-cases}
use mini_sql.Base.Int.{ℤ, pos, ◌≤ℤ◌}
use mini_sql.Schema.{Schema}
use mini_sql.Record.{Record, record_get_int, to_u32}
use mini_sql.Expression.{
  same_type, BoundOperand, BoundExpr, BoundExprs, comparison, conjunction, disjunction, negation,
  no_children, more_children, order_ints, holds, int_value, compare_operands, expression_evaluate,
  all_hold, row_accepted,
}
use mini_sql.Expression.Binding.{well_typed, all_well_typed, where_well_typed}
use mini_sql.Planner.{
  key_max, clamp_constant, flip, Range, narrow_by_op, narrow_by_comparison, is_key_against, narrow,
  narrow_all, narrow_where, all_keys, plan_select, plan_of_range, PlanKind, plan_scan, plan_point,
  plan_range, plan_empty, Plan,
}
use mini_sql.Planner.Bounds.{IsBounded, narrow_where-IsBounded}

-- The key lies in the range.
abbrev pub Within : ℕ → Range → Type 0
Within k r = (r.low ≤ℤ pos k) × (pos k ≤ℤ r.high)

-- Comparing with the clamped constant comes out as comparing with the constant.
pub clamp_constant-order :
    (k : ℕ) (v : ℤ) → k ≤ key_max → order_ints (pos k) (clamp_constant v) ≡ order_ints (pos k) v
unfolding clamp_constant order_ints
clamp_constant-order k v h = ground arith

-- A comparison reads the same from the other side.
pub flip-holds :
    (op : CompareOp) (a b : ℤ) → holds (flip op) (order_ints b a) ≡ holds op (order_ints a b)
unfolding flip holds order_ints
flip-holds compare_equal a b = ground arith
flip-holds _ a b = ground arith

pub narrow_by_op-Within :
    (op : CompareOp) (v : ℤ) (r : Range) (k : ℕ)
    → Within k r
    → holds op (order_ints (pos k) v) ≡ true
    → Within k (narrow_by_op op v r)
unfolding narrow_by_op holds order_ints
narrow_by_op-Within compare_equal v r k w h = ground arith
narrow_by_op-Within _ v r k w h = ground arith

-- The row's key is `k`, a key that a row can have.
pub record HasKey (row : Record) (schema : Schema) (key_column_id k : ℕ) : Type 0 where
  pub reads : record_get_int row schema key_column_id ≡ pos k
  pub bound : k ≤ key_max

module _ (row : Record) (schema : Schema) (id k : ℕ) (key : HasKey row schema id k) where
  -- What a comparison of the key column with a constant compares.
  pub forwards-order :
      (left right : BoundOperand)
      → same_type left.type right.type ≡ true
      → is_key_against left right id ≡ true
      → compare_operands left right row schema ≡ order_ints (pos k) right.integer
  unfolding compare_operands int_value
  forwards-order left right t h =
      let same_id : left.column_id ≡ id = ground arith in
      let key_read : record_get_int row schema left.column_id ≡ pos k =
        ap (record_get_int row schema) same_id ∙ key.reads in
      ground arith

  pub backwards-order :
      (left right : BoundOperand)
      → same_type left.type right.type ≡ true
      → is_key_against right left id ≡ true
      → compare_operands left right row schema ≡ order_ints left.integer (pos k)
  unfolding compare_operands int_value
  backwards-order left right t h =
      let same_id : right.column_id ≡ id = ground arith in
      let key_read : record_get_int row schema right.column_id ≡ pos k =
        ap (record_get_int row schema) same_id ∙ key.reads in
      ground arith

  narrow_by_comparison-Within :
      (op : CompareOp) (left right : BoundOperand) (r : Range)
      → same_type left.type right.type ≡ true
      → Within k r
      → holds op (compare_operands left right row schema) ≡ true
      → Within k (narrow_by_comparison op left right id r)
  unfolding narrow_by_comparison
  narrow_by_comparison-Within op left right r t w h =
      elim (Bool-cases (is_key_against left right id)) [
        | inl forwards ↦ rw forwards (
            narrow_by_op-Within op (clamp_constant right.integer) r k w (
              ap (holds op) (
                clamp_constant-order k right.integer key.bound
                ∙ sym (forwards-order left right t forwards))
              ∙ h))
        | inr not_forwards ↦ rw not_forwards (elim (Bool-cases (is_key_against right left id)) [
          | inl backwards ↦ rw backwards (
              narrow_by_op-Within (flip op) (clamp_constant left.integer) r k w (
                ap (holds (flip op)) (clamp_constant-order k left.integer key.bound)
                ∙ flip-holds op left.integer (pos k)
                ∙ ap (holds op) (sym (backwards-order left right t backwards))
                ∙ h))
          | inr neither ↦ rw neither w
        ])
      ]

  mutual
    unfolding narrow well_typed expression_evaluate

    narrow-Within :
        (e : BoundExpr) (r : Range)
        → well_typed e ≡ true
        → Within k r
        → expression_evaluate e row schema ≡ true
        → Within k (narrow e id r)
    narrow-Within (comparison op left right) r t w h =
        narrow_by_comparison-Within op left right r t w h
    narrow-Within (conjunction cs) r t w h = narrow_all-Within cs r t w h
    narrow-Within (disjunction cs) r t w h = w
    narrow-Within (negation c) r t w h = w

    narrow_all-Within :
        (cs : BoundExprs) (r : Range)
        → all_well_typed cs ≡ true
        → Within k r
        → all_hold cs row schema ≡ true
        → Within k (narrow_all cs id r)
    narrow_all-Within no_children r t w h = w
    narrow_all-Within (more_children c cs) r t w h =
        narrow_all-Within cs (narrow c id r) (ground arith)
          (narrow-Within c r (ground arith) w (ground arith)) (ground arith)

-- The keys that a plan reads.
abbrev pub Allows : PlanKind → ℕ → ℕ → ℕ → Type 0
Allows plan_scan low high k = Unit
Allows plan_point low high k = (k ≡ low) × (k ≡ high)
Allows plan_range low high k = (low ≤ k) × (k ≤ high)
Allows plan_empty low high k = ⊥

abbrev pub Admits : Plan → ℕ → Type 0
Admits p k = Allows p.kind p.low p.high k

plan_of_range-Admits : (r : Range) (k : ℕ) → IsBounded r → Within k r → Admits (plan_of_range r) k
unfolding plan_of_range to_u32
plan_of_range-Admits r k b w = ground arith

-- The plan never misses a row: if the bound WHERE, whose comparisons have both sides of one type,
-- accepts a row whose key column holds a key `k` of [0, INT32_MAX], then `k` is among the keys that
-- the plan for that WHERE reads, so the plan is not PLAN_EMPTY, and a point or range includes `k`.
pub plan_select-Sound :
    (condition : Option BoundExpr) (row : Record) (schema : Schema) (key_column_id k : ℕ)
    → where_well_typed condition ≡ true
    → HasKey row schema key_column_id k
    → row_accepted condition row schema ≡ true
    → Admits (plan_select condition key_column_id) k
unfolding plan_select
plan_select-Sound condition row schema id k t key h =
    plan_of_range-Admits (narrow_where condition id) k (narrow_where-IsBounded condition id)
      (within condition t h)
  where
    within :
        (w : Option BoundExpr)
        → where_well_typed w ≡ true
        → row_accepted w row schema ≡ true
        → Within k (narrow_where w id)
    within none t h = unfold narrow_where in omega (arith, key.bound)
    within (some e) t h =
        unfold narrow_where row_accepted in
        narrow-Within row schema id k key e all_keys t (omega (arith, key.bound)) h
