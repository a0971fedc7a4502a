-- ===== src/Planner/Exact.antt =====
-- Where the WHERE is nothing but bounds on the key, the plan reads exactly the rows it accepts.
use mini_sql.Ast.{CompareOp, compare_equal, compare_not_equal}
use mini_sql.Base.{
  ℕ, ◌≤◌, ◌<◌, ◌≡◌, refl, sym, ap, ◌∙◌, arith, Bool, true, false, ◌&&◌, ◌||◌, ◌⊎◌, Option, some,
  inl, inr, Bool-cases,
}
use mini_sql.Base.Int.{ℤ, pos}
use mini_sql.Schema.{Schema}
use mini_sql.Record.{Record, to_u32}
use mini_sql.Expression.{
  same_type, BoundOperand, BoundExpr, BoundExprs, comparison, conjunction, disjunction, negation,
  no_children, more_children, order_ints, holds, compare_operands, expression_evaluate, all_hold,
  row_accepted,
}
use mini_sql.Expression.Binding.{well_typed, all_well_typed}
use mini_sql.Planner.{
  key_max, clamp_constant, flip, Range, narrow_by_op, narrow_by_comparison, is_key_against, narrow,
  narrow_all, narrow_where, all_keys, plan_select, plan_of_range, plan_scan, plan_point, plan_range,
  plan_empty, PlanKind,
}
use mini_sql.Planner.Bounds.{IsBounded, narrow_where-IsBounded}
use mini_sql.Planner.Sound.{
  Within, HasKey, Admits, clamp_constant-order, flip-holds, forwards-order, backwards-order,
}

abbrev bounds_key : CompareOp → Bool
bounds_key compare_not_equal = false
bounds_key _ = true

-- A conjunction, nested or not, of comparisons of the key column with integers, none of them `!=`.
unfoldable mutual
  pub key_only : BoundExpr → ℕ → Bool
  key_only (comparison op left right) id =
      bounds_key op && (is_key_against left right id || is_key_against right left id)
  key_only (conjunction cs) id = all_key_only cs id
  key_only (disjunction cs) id = false
  key_only (negation c) id = false

  pub all_key_only : BoundExprs → ℕ → Bool
  all_key_only no_children id = true
  all_key_only (more_children c cs) id = key_only c id && all_key_only cs id

narrow_by_op-Exact :
    (op : CompareOp) (v : ℤ) (r : Range) (k : ℕ)
    → bounds_key op ≡ true
    → Within k (narrow_by_op op v r)
    → Within k r × (holds op (order_ints (pos k) v) ≡ true)
unfolding narrow_by_op holds order_ints
narrow_by_op-Exact compare_equal v r k b w = ground arith
narrow_by_op-Exact _ v r k b w = ground arith

bounds_key-flip : (op : CompareOp) → bounds_key op ≡ true → bounds_key (flip op) ≡ true
unfolding flip
bounds_key-flip compare_equal h = refl
bounds_key-flip _ h = ground arith

module _ (row : Record) (schema : Schema) (id k : ℕ) (key : HasKey row schema id k) where
  narrow_by_comparison-Exact :
      (op : CompareOp) (left right : BoundOperand) (r : Range)
      → same_type left.type right.type ≡ true
      → bounds_key op ≡ true
      → (is_key_against left right id || is_key_against right left id) ≡ true
      → Within k (narrow_by_comparison op left right id r)
      → Within k r × (holds op (compare_operands left right row schema) ≡ true)
  unfolding narrow_by_comparison
  narrow_by_comparison-Exact op left right r t b either w =
      elim (Bool-cases (is_key_against left right id)) [
        | inl forwards ↦
            let (before, held) =
              narrow_by_op-Exact op (clamp_constant right.integer) r k b (rw forwards at w) in
            (
              before,
              ap (holds op) (
                    forwards-order row schema id k key left right t forwards
                    ∙ sym (clamp_constant-order k right.integer key.bound))
                  ∙ held,
            )
        | inr not_forwards ↦
            let backwards : is_key_against right left id ≡ true = rw not_forwards at either in
            let w' : Within k (narrow_by_op (flip op) (clamp_constant left.integer) r) =
              rw backwards at (rw not_forwards at w) in
            let (before, held) =
              narrow_by_op-Exact (flip op) (clamp_constant left.integer) r k (bounds_key-flip op b)
                w' in
            (
              before,
              ap (holds op) (backwards-order row schema id k key left right t backwards)
                  ∙ sym (flip-holds op left.integer (pos k))
                  ∙ ap (holds (flip op)) (sym (clamp_constant-order k left.integer key.bound))
                  ∙ held,
            )
      ]

  mutual
    unfolding narrow well_typed key_only expression_evaluate

    narrow-Exact :
        (e : BoundExpr) (r : Range)
        → well_typed e ≡ true
        → key_only e id ≡ true
        → Within k (narrow e id r)
        → Within k r × (expression_evaluate e row schema ≡ true)
    narrow-Exact (comparison op left right) r t o w =
        narrow_by_comparison-Exact op left right r t (ground arith) (ground arith) w
    narrow-Exact (conjunction cs) r t o w = narrow_all-Exact cs r t o w
    narrow-Exact (disjunction cs) r t o w = cc
    narrow-Exact (negation c) r t o w = cc

    narrow_all-Exact :
        (cs : BoundExprs) (r : Range)
        → all_well_typed cs ≡ true
        → all_key_only cs id ≡ true
        → Within k (narrow_all cs id r)
        → Within k r × (all_hold cs row schema ≡ true)
    narrow_all-Exact no_children r t o w = (w, refl)
    narrow_all-Exact (more_children c cs) r t o w =
        let (between, rest) = narrow_all-Exact cs (narrow c id r) (ground arith) (ground arith) w in
        let (before, first) = narrow-Exact c r (ground arith) (ground arith) between in
        (before, ground arith)

Admits-plan_of_range :
    (r : Range) (k : ℕ) → IsBounded r → k ≤ key_max → Admits (plan_of_range r) k → Within k r
unfolding plan_of_range to_u32
Admits-plan_of_range r k b h a = ground arith

-- The plan is as narrow as it can be: if the WHERE is a conjunction of comparisons of the key column
-- with integer constants, in either order and none of them `!=`, then a row whose key the plan reads
-- is accepted by the WHERE.
pub plan_select-Exact :
    (e : BoundExpr) (row : Record) (schema : Schema) (key_column_id k : ℕ)
    → well_typed e ≡ true
    → key_only e key_column_id ≡ true
    → HasKey row schema key_column_id k
    → Admits (plan_select (some e) key_column_id) k
    → row_accepted (some e) row schema ≡ true
unfolding plan_select row_accepted narrow_where
plan_select-Exact e row schema id k t o key a =
    (narrow-Exact row schema id k key e all_keys t o (
      Admits-plan_of_range (narrow_where (some e) id) k (narrow_where-IsBounded (some e) id)
        key.bound a)).1

-- What `plan_describe` and the executor rely on, by the plan's kind.
abbrev pub Shape : PlanKind → ℕ → ℕ → Type 0
Shape plan_scan low high = (low ≡ 0) × (high ≡ 0)
Shape plan_point low high = (low ≡ high) × (high ≤ key_max)
Shape plan_range low high = (low < high) × (high ≤ key_max) × ((0 < low) ⊎ (high < key_max))
Shape plan_empty low high = (low ≡ 0) × (high ≡ 0)

-- Whatever the WHERE, a point plan has equal bounds and a range plan ascending ones, both at most
-- INT32_MAX, so the casts to `uint32_t` keep their values; a range leaves out at least one key; a
-- scan or an empty plan stores zeros.
pub plan_select-Shape :
    (condition : Option BoundExpr) (key_column_id : ℕ)
    → let p = plan_select condition key_column_id in Shape p.kind p.low p.high
unfolding plan_select plan_of_range to_u32
plan_select-Shape condition id = ground (arith, narrow_where-IsBounded condition id)
