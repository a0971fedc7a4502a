-- ===== src/Parser/Fuel.antt =====
-- The parser always finishes: with the fuel that `parse_statement` gives it never runs out.
use mini_sql.Ast.{CompareOp, ExprAst, ExprAsts, expr_and, expr_or}
use mini_sql.Base.{
  ℕ, zero, suc, ◌+◌, ◌≤◌, ◌<◌, ◌≡◌, ◌≢◌, refl, ap, arith, Bool, true, false, not, ◌&&◌, ◌||◌, leb,
  ◌==◌, if◌then◌else◌, Bool-cases, inl, inr, length, Option, none, some,
}
use mini_sql.Token.{
  TokenType, token_end, token_comma, token_minus, token_identifier, token_integer, token_string,
  token_left_paren, token_right_paren, token_not, token_and, token_or, same_token, type_code,
}
use mini_sql.Tokenizer.{tokenizer_next}
use mini_sql.Tokenizer.Progress.{tokenizer_next-lt, tokenizer_next-le}
use mini_sql.Parser.{
  Parser, Outcome, ok, err, no_fuel, ◌>>=◌, advance, check, fail_expected, expect, Parsed,
  parse_name, parse_literal, parse_unsigned, comma_list, Wanted,
}
use mini_sql.Parser.Expr.{
  max_expression_depth, fail_nested, parse_operand, parse_compare_op, compare_op_of,
  parse_comparison, chain_rest, chain, parse_primary, parse_not_with, parse_not, parse_and,
  parse_or,
}

-- What the parser has left to read: the unread bytes, and the current token unless it is the end.
unfoldable pub left : Parser → ℕ
left p = length p.tokenizer.rest + (if check p token_end then 0 else 1)

-- The outcome is not for want of fuel, and a success satisfies `P`.
abbrev Satisfies : {A : Type 0} → (A → Type 0) → Outcome A → Type 0
Satisfies P (ok a) = P a
Satisfies P (err e) = Unit
Satisfies P no_fuel = ⊥

pub record Ends {A : Type 0} (P : A → Type 0) (o : Outcome A) : Type 0 where
  pub satisfied : Satisfies P o

-- At most `n` is left after the rule.
abbrev pub Leaves : {A : Type 0} → ℕ → Parsed A → Type 0
Leaves n r = left r.parser ≤ n

abbrev pub LeavesParser : ℕ → Parser → Type 0
LeavesParser n p = left p ≤ n

pub Ends-ok : {A : Type 0} {P : A → Type 0} (a : A) → P a → Ends P (ok a)
Ends-ok a h = record { satisfied = h }

pub Ends-err : {A : Type 0} (P : A → Type 0) (p : Parser) (w : Wanted) → Ends P (fail_expected p w)
unfolding fail_expected
Ends-err P p w = record { satisfied = ground arith }

pub Ends-bind :
    {A B : Type 0} {P : A → Type 0} {Q : B → Type 0} {m : Outcome A} (f : A → Outcome B)
    → Ends P m
    → ((a : A) → P a → Ends Q (f a))
    → Ends Q (m >>= f)
Ends-bind {m = ok a} f h k = k a h.satisfied
Ends-bind {m = err e} f h k = record { satisfied = tt }
Ends-bind {m = no_fuel} f h k = absurd h.satisfied

pub Ends-if :
    {A : Type 0} {P : A → Type 0} (b : Bool) {x y : Outcome A}
    → (b ≡ true → Ends P x)
    → (b ≡ false → Ends P y)
    → Ends P (if b then x else y)
Ends-if true h k = h refl
Ends-if false h k = k refl

pub Ends-mono :
    {A : Type 0} {P Q : A → Type 0} {m : Outcome A} → Ends P m → ((a : A) → P a → Q a) → Ends Q m
Ends-mono {m = ok a} h k = record { satisfied = k a h.satisfied }
Ends-mono {m = err e} h k = record { satisfied = tt }
Ends-mono {m = no_fuel} h k = absurd h.satisfied

eq_ne : (m n k : ℕ) → (m == n) ≡ true → (n == k) ≡ false → (m == k) ≡ false
eq_ne m n k h g = ground arith

self_eq : (m n : ℕ) → (m == n) ≡ false → m ≢ n
self_eq m n h e = ground arith

-- Moving past a token that is not the end leaves less.
left-advance :
    (p : Parser) → same_token p.current.type token_end ≡ false → left (advance p) < left p
unfolding left advance
left-advance p h = rw h (elim (Bool-cases (type_code (tokenizer_next p.tokenizer).0.type == 32)) [
  | inl end ↦ rw end (omega (arith, tokenizer_next-le p.tokenizer))
  | inr more ↦ rw more (
      let not_end : (tokenizer_next p.tokenizer).0.type ≢ token_end =
        λ e. self_eq _ 32 more (ap type_code e) in
      omega (arith, tokenizer_next-lt p.tokenizer not_end))
])

pub advance-left :
    (p : Parser) (t : TokenType)
    → check p t ≡ true
    → same_token t token_end ≡ false
    → left (advance p) < left p
advance-left p t h ne = left-advance p (eq_ne (type_code p.current.type) (type_code t) 32 h ne)

compare_op_of-ne-end :
    (t : TokenType) {op : CompareOp} → compare_op_of t ≡ some op → same_token t token_end ≡ false
compare_op_of-ne-end token_end h = absurd (cc)
compare_op_of-ne-end _ h = refl

-- A rule that leaves no more than there was.
abbrev pub Shrinks : {A : Type 0} → (Parser → Outcome (Parsed A)) → Type 0
Shrinks rule = (p : Parser) → Ends (Leaves (left p)) (rule p)

pub expect-Ends :
    (p : Parser) (t : TokenType) (w : Wanted)
    → same_token t token_end ≡ false
    → Ends (LeavesParser (left p)) (expect p t w)
unfolding expect
expect-Ends p t w ne =
    Ends-if (check p t) (λ h. Ends-ok (advance p) (omega (arith, advance-left p t h ne)))
      (λ h. Ends-err _ p w)

pub parse_name-Ends : (p : Parser) (w : Wanted) → Ends (Leaves (left p)) (parse_name p w)
unfolding parse_name
parse_name-Ends p w =
    Ends-if (check p token_identifier)
      (λ h. Ends-ok _ (omega (arith, advance-left p token_identifier h refl))) (λ h. Ends-err _ p w)

parse_unsigned-Ends : (b : Bool) (p : Parser) → Ends (Leaves (left p)) (parse_unsigned b p)
unfolding parse_unsigned
parse_unsigned-Ends b p =
    Ends-if (check p token_integer)
      (λ h. Ends-ok _ (omega (arith, advance-left p token_integer h refl)))
      (λ h.
        Ends-if (not b && check p token_string)
          (λ k.
            let string : check p token_string ≡ true = ground arith in
            Ends-ok _ (omega (arith, advance-left p token_string string refl)))
          (λ k. Ends-err _ p _))

pub parse_literal-Ends : Shrinks parse_literal
unfolding parse_literal
parse_literal-Ends p =
    Ends-if (check p token_minus)
      (λ h.
        Ends-mono (parse_unsigned-Ends true (advance p))
          (λ r e. omega (arith, advance-left p token_minus h refl)))
      (λ h. parse_unsigned-Ends false p)

-- A list separated by commas ends if there is at least as much fuel as there is to read.
pub comma_list-Ends :
    {A : Type 0} (element : Parser → Outcome (Parsed A))
    → Shrinks element
    → (fuel : ℕ) (p : Parser) → left p < fuel
    → Ends (Leaves (left p)) (comma_list element fuel p)
unfolding comma_list
comma_list-Ends element shrinks zero p h = absurd (omega arith)
comma_list-Ends element shrinks (suc fuel) p h = Ends-bind _ (shrinks p) (λ first e.
    Ends-if (check first.parser token_comma)
      (λ c.
        let less = advance-left first.parser token_comma c refl in
        Ends-bind _ (comma_list-Ends element shrinks fuel (advance first.parser) (omega arith))
          (λ others g. Ends-ok _ (omega arith)))
      (λ c. Ends-ok _ e))

parse_operand-Ends : Shrinks parse_operand
unfolding parse_operand
parse_operand-Ends p =
    Ends-if (check p token_identifier) (λ h. Ends-bind _ (parse_name-Ends p _) (λ n e. Ends-ok _ e))
      (λ h.
        Ends-if (check p token_integer || check p token_minus || check p token_string)
          (λ k. Ends-bind _ (parse_literal-Ends p) (λ l e. Ends-ok _ e)) (λ k. Ends-err _ p _))

-- The choice of an optional value, with its equation.
Ends-option :
    {A X : Type 0} {P : A → Type 0} (o : Option X) (f : X → Outcome A) {y : Outcome A}
    → ((x : X) → o ≡ some x → Ends P (f x))
    → Ends P y
    → Ends P (elim o [ some x ↦ f x | none ↦ y ])
Ends-option none f h k = k
Ends-option (some x) f h k = h x refl

parse_compare_op-Ends : Shrinks parse_compare_op
unfolding parse_compare_op
parse_compare_op-Ends p =
    Ends-option (compare_op_of p.current.type) _
      (λ op e. Ends-ok _ (omega (arith, left-advance p (compare_op_of-ne-end p.current.type e))))
      (Ends-err _ p _)

parse_comparison-Ends : Shrinks parse_comparison
unfolding parse_comparison
parse_comparison-Ends p = Ends-bind _ (parse_operand-Ends p) (λ l h.
    Ends-bind _ (parse_compare_op-Ends l.parser)
      (λ op h'. Ends-bind _ (parse_operand-Ends op.parser) (λ r h''. Ends-ok _ (omega arith))))

-- A rule that finishes on what is left if that is less than the fuel.
abbrev Bounded : ℕ → (Parser → Outcome (Parsed ExprAst)) → Type 0
Bounded fuel rule = (p : Parser) → left p < fuel → Ends (Leaves (left p)) (rule p)

module _ (fuel : ℕ) (operand : Parser → Outcome (Parsed ExprAst)) (h : Bounded fuel operand)
    (separator : TokenType) (real : same_token separator token_end ≡ false) where
  chain_rest-Ends :
      (n : ℕ) (p : Parser)
      → left p < n
      → left p < fuel
      → Ends (Leaves (left p)) (chain_rest operand separator n p)
  unfolding chain_rest
  chain_rest-Ends zero p b c = absurd (omega arith)
  chain_rest-Ends (suc n) p b c =
      Ends-if (check p separator)
        (λ k.
          let less = advance-left p separator k real in
          Ends-bind _ (h (advance p) (omega arith)) (λ next e.
            Ends-bind _ (chain_rest-Ends n next.parser (omega arith) (omega arith))
              (λ others g. Ends-ok _ (omega arith))))
        (λ k. Ends-ok _ (omega arith))

  chain-Ends : (node : ExprAsts → ExprAst) → Bounded fuel (λ p. chain operand separator node fuel p)
  unfolding chain
  chain-Ends node p b = Ends-bind _ (h p b) (λ first e.
      Ends-if (check first.parser separator)
        (λ k.
          Ends-bind _ (chain_rest-Ends fuel first.parser (omega arith) (omega arith))
            (λ others g. Ends-ok _ (omega arith)))
        (λ k. Ends-ok _ e))

fail_nested-Ends : {A : Type 0} (P : A → Type 0) (p : Parser) → Ends P (fail_nested p)
unfolding fail_nested
fail_nested-Ends P p = record { satisfied = tt }

-- At depth `d ≤ 64`, `levels + d ≥ 65` levels of nesting are enough: the limit of 64 cuts in first.
parse_not-Ends :
    (fuel levels d : ℕ)
    → d ≤ max_expression_depth
    → max_expression_depth < levels + d
    → Bounded fuel (λ p. parse_not fuel levels d p)
unfolding parse_not parse_not_with parse_primary
parse_not-Ends fuel zero d small enough p b = absurd (omega arith)
parse_not-Ends fuel (suc levels) d small enough p b =
    Ends-if (check p token_not)
      (λ k.
        Ends-if (leb max_expression_depth d) (λ deep. fail_nested-Ends _ p)
          (λ room.
            Ends-bind _
              (parse_not-Ends fuel levels (d + 1) (ground arith) (omega arith) (advance p)
                (omega (arith, advance-left p token_not k refl)))
              (λ e g. Ends-ok _ (omega (arith, advance-left p token_not k refl)))))
      (λ k.
        Ends-if (check p token_left_paren)
          (λ paren.
            Ends-if (leb max_expression_depth d) (λ deep. fail_nested-Ends _ p)
              (λ room.
                let deeper = parse_not-Ends fuel levels (d + 1) (ground arith) (omega arith) in
                let ands = chain-Ends fuel _ deeper token_and refl expr_and in
                let ors = chain-Ends fuel _ ands token_or refl expr_or in
                let less = advance-left p token_left_paren paren refl in
                Ends-bind _ (ors (advance p) (omega arith)) (λ e g.
                  Ends-bind _ (expect-Ends e.parser token_right_paren _ refl)
                    (λ q f. Ends-ok _ (omega arith)))))
          (λ other. parse_comparison-Ends p))

-- A WHERE expression is parsed, or refused with a syntax error, with 65 levels of nesting and any
-- fuel above what is left to read, and never leaves more to read than there was.
pub parse_or-Ends :
    (fuel : ℕ) (p : Parser) → left p < fuel → Ends (Leaves (left p)) (parse_or fuel 65 0 p)
unfolding parse_or parse_and
parse_or-Ends fuel p b =
    chain-Ends fuel _
      (chain-Ends fuel _ (parse_not-Ends fuel 65 0 (omega arith) (omega arith)) token_and refl
        expr_and)
      token_or refl expr_or p b
