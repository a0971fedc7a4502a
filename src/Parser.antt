-- ===== src/Parser.antt =====
-- src/parser.c: the recursive-descent parser. A rule takes the parser's state and returns it with
-- what it built, or the error: once `failed` is set each caller returns at once, so the first error
-- is the result. Errors are values in place of formatted messages. `no_fuel` is no outcome of the
-- source: the loops and the nesting are bounded by fuel, and Parser.Fuel shows that the fuel which
-- `parse_statement` gives is enough.
pub mod Expr
pub mod Statement
pub mod Fuel
pub mod Total
use mini_sql.Ast.{Literal, literal_integer, literal_string}
use mini_sql.Base.{
  ℕ, zero, suc, ◌+◌, Bool, true, false, not, ◌&&◌, ◌||◌, List, [], ◌∷◌, ◌==◌, if◌then◌else◌,
}
use mini_sql.Base.Bytes.{Bytes}
use mini_sql.Base.Int.{ℤ, pos, neg}
use mini_sql.Token.{
  TokenType, token_identifier, token_integer, token_string, token_minus, token_comma, token_end,
  token_error, Token, LexicalError, same_token,
}
use mini_sql.Tokenizer.{Tokenizer, tokenizer_next, tokenizer_init}
use mini_sql.Tokenizer.Strings.{unescape_string}

-- What the grammar wanted, as the message names it.
pub data Wanted : Type 0 where
  a_token : TokenType → Wanted
  a_table_name a_column_name star_or_column_name a_value an_integer : Wanted
  a_column_or_value a_comparison_operator a_width int_or_text comma_or_right_paren : Wanted
  select_or_delete a_statement end_of_statement : Wanted

-- The one error that a statement gets.
pub data SyntaxError : Type 0 where
  lexical : LexicalError → Token → SyntaxError
  at_end : Wanted → SyntaxError
  near : Wanted → Token → SyntaxError
  nested : ℕ → SyntaxError

pub record Parser : Type 0 where
  pub tokenizer : Tokenizer
  pub current : Token

pub data Outcome {ℓ} (A : Type ℓ) : Type ℓ where
  no_fuel : Outcome A
  err : SyntaxError → Outcome A
  ok : A → Outcome A

infixl 5 ◌>>=◌
abbrev pub ◌>>=◌ {ℓ κ} : {A : Type ℓ} {B : Type κ} → Outcome A → (A → Outcome B) → Outcome B
no_fuel >>= rest = no_fuel
err e >>= rest = err e
ok a >>= rest = rest a

unfoldable pub advance : Parser → Parser
advance p = let step = tokenizer_next p.tokenizer in record { tokenizer = step.1; current = step.0 }

abbrev pub check : Parser → TokenType → Bool
check p t = same_token p.current.type t

-- `match` when the test is wanted: the state after it.
abbrev pub if_match {ℓ} : {A : Type ℓ} → Parser → TokenType → (Parser → A) → A → A
if_match p t found other = if check p t then found (advance p) else other

unfoldable pub fail_expected {ℓ} : {A : Type ℓ} → Parser → Wanted → Outcome A
fail_expected p what =
    if check p token_error
    then err (lexical p.current.error p.current)
    else if check p token_end
    then err (at_end what)
    else err (near what p.current)

unfoldable pub expect : Parser → TokenType → Wanted → Outcome Parser
unfolding fail_expected
expect p t what = if_match p t (λ q. ok q) (fail_expected p what)

-- What a rule returns: what it built, and the state.
pub record Parsed {ℓ} (A : Type ℓ) : Type ℓ where
  pub value : A
  pub parser : Parser

abbrev pub done {ℓ} : {A : Type ℓ} → A → Parser → Outcome (Parsed A)
done a p = ok (record { value = a; parser = p })

unfoldable pub parse_name : Parser → Wanted → Outcome (Parsed Bytes)
unfolding fail_expected
parse_name p what =
    if check p token_identifier then done p.current.text (advance p) else fail_expected p what

-- `parse_literal` behind the optional minus sign.
unfoldable pub parse_unsigned : Bool → Parser → Outcome (Parsed Literal)
unfolding fail_expected
parse_unsigned negative p =
    if check p token_integer
    then done
        (record {
          type = literal_integer;
          text = if negative then b'-' ∷ p.current.text else p.current.text;
          integer = if negative then neg (pos p.current.integer) else pos p.current.integer;
          out_of_range = p.current.out_of_range;
        })
        (advance p)
    else if not negative && check p token_string
    then done
        (record {
          type = literal_string;
          text = unescape_string p.current.text;
          integer = pos 0;
          out_of_range = false;
        })
        (advance p)
    else fail_expected p (if negative then an_integer else a_value)

unfoldable pub parse_literal : Parser → Outcome (Parsed Literal)
unfolding parse_unsigned
parse_literal p = if_match p token_minus (λ q. parse_unsigned true q) (parse_unsigned false p)

-- do { element } while(match(parser, TOKEN_COMMA)), collecting the elements.
unfoldable pub comma_list {ℓ} :
    {A : Type ℓ} → (Parser → Outcome (Parsed A)) → ℕ → Parser → Outcome (Parsed (List A))
comma_list element zero p = no_fuel
comma_list element (suc fuel) p = element p >>= λ first.
    if_match first.parser token_comma
      (λ q. comma_list element fuel q >>= λ others. done (first.value ∷ others.value) others.parser)
      (done (first.value ∷ []) first.parser)
