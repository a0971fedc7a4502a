-- ===== src/Parser/Total.antt =====
-- Every line of SQL is parsed or refused: `parse_statement` never runs out of fuel.
use mini_sql.Ast.{Ast}
use mini_sql.Base.{
  ℕ, suc, ◌+◌, ◌≤◌, ◌<◌, ◌≡◌, refl, arith, Bool, true, false, ◌||◌, length, if◌then◌else◌, inl, inr,
  ◌⊎◌,
}
use mini_sql.Base.Bytes.{Bytes}
use mini_sql.Token.{
  token_end, token_left_paren, token_right_paren, token_comma, token_star, token_into, token_values,
  token_from, token_where, token_table, token_key, token_primary, token_int, token_text,
  token_integer, token_insert, token_select, token_create, token_delete, token_semicolon,
  token_explain,
}
use mini_sql.Tokenizer.{tokenizer_init}
use mini_sql.Tokenizer.Progress.{tokenizer_next-le}
use mini_sql.Parser.{Parser, SyntaxError, Outcome, ok, err, no_fuel, advance, check}
use mini_sql.Parser.Fuel.{
  left, Ends, Leaves, Ends-ok, Ends-err, Ends-bind, Ends-if, advance-left, expect-Ends,
  parse_name-Ends, parse_literal-Ends, comma_list-Ends, parse_or-Ends,
}
use mini_sql.Parser.Statement.{
  parse_column_list, parse_insert, parse_where, parse_select_list, parse_select, parse_delete,
  parse_column_type, parse_primary_key, parse_column_def, parse_create, parse_body, parse_explained,
  parse_end, parser_init, parse_with_fuel, parse_statement,
}

parse_column_type-Ends : (p : Parser) → Ends (Leaves (left p)) (parse_column_type p)
unfolding parse_column_type
parse_column_type-Ends p =
    Ends-if (check p token_int) (λ h. Ends-ok _ (omega (arith, advance-left p token_int h refl)))
      (λ h.
        Ends-if (check p token_text)
          (λ k.
            let l = advance-left p token_text k refl in
            Ends-bind _ (expect-Ends (advance p) token_left_paren _ refl) (λ q e.
              Ends-if (check q token_integer)
                (λ i.
                  let m = advance-left q token_integer i refl in
                  Ends-bind _ (expect-Ends (advance q) token_right_paren _ refl)
                    (λ r g. Ends-ok _ (omega arith)))
                (λ i. Ends-err _ q _)))
          (λ k. Ends-err _ p _))

parse_primary_key-Ends : (p : Parser) → Ends (Leaves (left p)) (parse_primary_key p)
unfolding parse_primary_key
parse_primary_key-Ends p =
    Ends-if (check p token_primary)
      (λ h.
        let l = advance-left p token_primary h refl in
        Ends-bind _ (expect-Ends (advance p) token_key _ refl) (λ r e. Ends-ok _ (omega arith)))
      (λ h. Ends-ok _ (omega arith))

parse_column_def-Ends : (p : Parser) → Ends (Leaves (left p)) (parse_column_def p)
unfolding parse_column_def
parse_column_def-Ends p = Ends-bind _ (parse_name-Ends p _) (λ n h.
    Ends-bind _ (parse_column_type-Ends n.parser)
      (λ t e. Ends-bind _ (parse_primary_key-Ends t.parser) (λ k g. Ends-ok _ (omega arith))))

-- A statement's rule needs no more than this: it ends, whatever it leaves.
abbrev Any : {A : Type 0} → A → Type 0
Any a = Unit

module _ (fuel : ℕ) where
  parse_column_list-Ends :
      (p : Parser) → left p < fuel → Ends (Leaves (left p)) (parse_column_list fuel p)
  unfolding parse_column_list
  parse_column_list-Ends p b =
      Ends-if (check p token_left_paren)
        (λ h.
          let l = advance-left p token_left_paren h refl in
          Ends-bind _ (comma_list-Ends _ (λ r. parse_name-Ends r _) fuel (advance p) (omega arith))
            (λ names e.
              Ends-bind _ (expect-Ends names.parser token_right_paren _ refl)
                (λ r g. Ends-ok _ (omega arith))))
        (λ h. Ends-ok _ (omega arith))

  parse_where-Ends : (p : Parser) → left p < fuel → Ends (Leaves (left p)) (parse_where fuel p)
  unfolding parse_where
  parse_where-Ends p b =
      Ends-if (check p token_where)
        (λ h.
          let l = advance-left p token_where h refl in
          Ends-bind _ (parse_or-Ends fuel (advance p) (omega arith))
            (λ e g. Ends-ok _ (omega arith)))
        (λ h. Ends-ok _ (omega arith))

  parse_select_list-Ends :
      (p : Parser) → left p < fuel → Ends (Leaves (left p)) (parse_select_list fuel p)
  unfolding parse_select_list
  parse_select_list-Ends p b =
      Ends-if (check p token_star)
        (λ h. Ends-ok _ (omega (arith, advance-left p token_star h refl)))
        (λ h. Ends-bind _ (parse_name-Ends p _) (λ first e.
          Ends-if (check first.parser token_comma)
            (λ c.
              let l = advance-left first.parser token_comma c refl in
              Ends-bind _
                (comma_list-Ends _ (λ r. parse_name-Ends r _) fuel (advance first.parser)
                  (omega arith))
                (λ others g. Ends-ok _ (omega arith)))
            (λ c. Ends-ok _ e)))

  parse_insert-Ends :
      (p : Parser) → check p token_insert ≡ true → left p < fuel → Ends Any (parse_insert fuel p)
  unfolding parse_insert
  parse_insert-Ends p h b =
      let l = advance-left p token_insert h refl in
      Ends-bind _ (expect-Ends (advance p) token_into _ refl) (λ p1 e1.
        Ends-bind _ (parse_name-Ends p1 _) (λ name e2.
          Ends-bind _ (parse_column_list-Ends name.parser (omega arith)) (λ columns e3.
            Ends-bind _ (expect-Ends columns.parser token_values _ refl) (λ p2 e4.
              Ends-bind _ (expect-Ends p2 token_left_paren _ refl) (λ p3 e5.
                Ends-bind _ (comma_list-Ends _ parse_literal-Ends fuel p3 (omega arith))
                  (λ values e6.
                    Ends-bind _ (expect-Ends values.parser token_right_paren _ refl)
                      (λ p4 e7. Ends-ok _ tt)))))))

  parse_select-Ends :
      (p : Parser) → check p token_select ≡ true → left p < fuel → Ends Any (parse_select fuel p)
  unfolding parse_select
  parse_select-Ends p h b =
      let l = advance-left p token_select h refl in
      Ends-bind _ (parse_select_list-Ends (advance p) (omega arith)) (λ columns e1.
        Ends-bind _ (expect-Ends columns.parser token_from _ refl) (λ p1 e2.
          Ends-bind _ (parse_name-Ends p1 _) (λ name e3.
            Ends-bind _ (parse_where-Ends name.parser (omega arith)) (λ w e4. Ends-ok _ tt))))

  parse_delete-Ends :
      (p : Parser) → check p token_delete ≡ true → left p < fuel → Ends Any (parse_delete fuel p)
  unfolding parse_delete
  parse_delete-Ends p h b =
      let l = advance-left p token_delete h refl in
      Ends-bind _ (expect-Ends (advance p) token_from _ refl) (λ p1 e1.
        Ends-bind _ (parse_name-Ends p1 _) (λ name e2.
          Ends-bind _ (parse_where-Ends name.parser (omega arith)) (λ w e3. Ends-ok _ tt)))

  parse_create-Ends :
      (p : Parser) → check p token_create ≡ true → left p < fuel → Ends Any (parse_create fuel p)
  unfolding parse_create
  parse_create-Ends p h b =
      let l = advance-left p token_create h refl in
      Ends-bind _ (expect-Ends (advance p) token_table _ refl) (λ p1 e1.
        Ends-bind _ (parse_name-Ends p1 _) (λ name e2.
          Ends-bind _ (expect-Ends name.parser token_left_paren _ refl) (λ p2 e3.
            Ends-bind _ (comma_list-Ends _ parse_column_def-Ends fuel p2 (omega arith)) (λ cols e4.
              Ends-bind _ (expect-Ends cols.parser token_right_paren _ refl)
                (λ p3 e5. Ends-ok _ tt)))))

  parse_body-Ends : (x : Bool) (p : Parser) → left p < fuel → Ends Any (parse_body fuel x p)
  unfolding parse_body
  parse_body-Ends x p b =
      Ends-if (check p token_insert)
        (λ h. Ends-bind _ (parse_insert-Ends p h b) (λ i e. Ends-ok _ tt))
        (λ h.
          Ends-if (check p token_select)
            (λ h. Ends-bind _ (parse_select-Ends p h b) (λ i e. Ends-ok _ tt))
            (λ h.
              Ends-if (check p token_create)
                (λ h. Ends-bind _ (parse_create-Ends p h b) (λ i e. Ends-ok _ tt))
                (λ h.
                  Ends-if (check p token_delete)
                    (λ h. Ends-bind _ (parse_delete-Ends p h b) (λ i e. Ends-ok _ tt))
                    (λ h.
                      Ends-if (check p token_semicolon || check p token_end) (λ h. Ends-ok _ tt)
                        (λ h. Ends-err _ p _)))))

  parse_explained-Ends : (p : Parser) → left p < fuel → Ends Any (parse_explained fuel p)
  unfolding parse_explained
  parse_explained-Ends p b =
      Ends-if (check p token_explain)
        (λ h.
          let l = advance-left p token_explain h refl in
          Ends-if (check (advance p) token_select || check (advance p) token_delete)
            (λ k. parse_body-Ends true (advance p) (omega arith)) (λ k. Ends-err _ (advance p) _))
        (λ h. parse_body-Ends false p b)

parse_end-Ends : (ast : Ast) (p : Parser) → Ends Any (parse_end ast p)
unfolding parse_end
parse_end-Ends ast p =
    Ends-if (check (if check p token_semicolon then advance p else p) token_end) (λ h. Ends-ok _ tt)
      (λ h. Ends-err _ _ _)

parser_init-left : (sql : Bytes) → left (parser_init sql) ≤ suc (length sql)
unfolding parser_init left tokenizer_init
parser_init-left sql = ground (arith, tokenizer_next-le (tokenizer_init sql))

parse_statement-Ends : (sql : Bytes) → Ends Any (parse_statement sql)
unfolding parse_statement parse_with_fuel
parse_statement-Ends sql =
    Ends-bind _
      (parse_explained-Ends (length sql + 2) (parser_init sql)
        (omega (arith, parser_init-left sql)))
      (λ a e. parse_end-Ends a.value a.parser)

-- Parsing terminates on every line: `parse_statement` returns a syntax tree or a syntax error, and
-- the fuel that the model gives its loops, the length of the line and two more, is enough.
pub parse_statement-total :
    (sql : Bytes)
    → ((ast : Ast) × (parse_statement sql ≡ ok ast))
      ⊎ ((e : SyntaxError) × (parse_statement sql ≡ err e))
parse_statement-total sql = Outcome-cases (parse_statement sql) (parse_statement-Ends sql)
  where
    Outcome-cases :
        (o : Outcome Ast)
        → Ends Any o
        → ((ast : Ast) × (o ≡ ok ast)) ⊎ ((e : SyntaxError) × (o ≡ err e))
    Outcome-cases (ok a) h = inl (a, refl)
    Outcome-cases (err e) h = inr (e, refl)
    Outcome-cases no_fuel h = absurd h.satisfied
