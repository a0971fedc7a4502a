-- ===== src/Token.antt =====
-- include/tokenizer.h: tokens. A token's text is the run of input bytes that it covers, so `start`
-- and `length` are one field.
use mini_sql.Base.{ℕ, Bool, ◌==◌}
use mini_sql.Base.Bytes.{Bytes}

pub data TokenType : Type 0 where
  token_select token_insert token_into token_values token_from token_where : TokenType
  token_create token_table token_delete token_and token_or token_not : TokenType
  token_primary token_key token_int token_text token_explain : TokenType
  token_identifier token_integer token_string : TokenType
  token_left_paren token_right_paren token_comma token_semicolon token_star token_minus : TokenType
  token_equal token_not_equal token_less token_less_equal : TokenType
  token_greater token_greater_equal token_end token_error : TokenType

pub data LexicalError : Type 0 where
  lex_error_none lex_error_unterminated_string lex_error_malformed_number : LexicalError
  lex_error_unrecognized_character : LexicalError

pub record Token : Type 0 where
  pub type : TokenType
  pub text : Bytes
  pub column : ℕ
  pub integer : ℕ
  pub out_of_range : Bool
  pub error : LexicalError

-- The enum's value, by which token types are compared.
abbrev pub type_code : TokenType → ℕ
type_code token_select = 0
type_code token_insert = 1
type_code token_into = 2
type_code token_values = 3
type_code token_from = 4
type_code token_where = 5
type_code token_create = 6
type_code token_table = 7
type_code token_delete = 8
type_code token_and = 9
type_code token_or = 10
type_code token_not = 11
type_code token_primary = 12
type_code token_key = 13
type_code token_int = 14
type_code token_text = 15
type_code token_explain = 16
type_code token_identifier = 17
type_code token_integer = 18
type_code token_string = 19
type_code token_left_paren = 20
type_code token_right_paren = 21
type_code token_comma = 22
type_code token_semicolon = 23
type_code token_star = 24
type_code token_minus = 25
type_code token_equal = 26
type_code token_not_equal = 27
type_code token_less = 28
type_code token_less_equal = 29
type_code token_greater = 30
type_code token_greater_equal = 31
type_code token_end = 32
type_code token_error = 33

abbrev pub same_token : TokenType → TokenType → Bool
same_token a b = type_code a == type_code b
