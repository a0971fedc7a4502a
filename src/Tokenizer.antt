-- ===== src/Tokenizer.antt =====
-- src/tokenizer.c: the lexer. Its state is the unread input, which is `sql + position`, and the
-- position. Bytes are numbers below 256, and lines are shorter than 2^32 bytes, so positions and
-- columns do not wrap.
pub mod Blanks
pub mod Progress
pub mod Numbers
pub mod Strings
use mini_sql.Base.{
  ℕ, zero, suc, ◌+◌, ◌-◌, ◌*◌, ◌/◌, Bool, true, false, not, ◌&&◌, ◌||◌, List, [], ◌∷◌, ltb, leb,
  ◌==◌, if◌then◌else◌, take, drop,
}
use mini_sql.Base.Bytes.{Bytes, codes, head_byte}
use mini_sql.Token.{
  TokenType, token_select, token_insert, token_into, token_values, token_from, token_where,
  token_create, token_table, token_delete, token_and, token_or, token_not, token_primary, token_key,
  token_int, token_text, token_explain, token_identifier, token_integer, token_string,
  token_left_paren, token_right_paren, token_comma, token_semicolon, token_star, token_minus,
  token_equal, token_not_equal, token_less, token_less_equal, token_greater, token_greater_equal,
  token_end, token_error, LexicalError, lex_error_none, lex_error_unterminated_string,
  lex_error_malformed_number, lex_error_unrecognized_character, Token,
}

pub record Keyword : Type 0 where
  pub text : Bytes
  pub type : TokenType

unfoldable pub keywords : List Keyword
keywords =
    record { text = codes "select"; type = token_select }
    ∷ record { text = codes "insert"; type = token_insert }
    ∷ record { text = codes "into"; type = token_into }
    ∷ record { text = codes "values"; type = token_values }
    ∷ record { text = codes "from"; type = token_from }
    ∷ record { text = codes "where"; type = token_where }
    ∷ record { text = codes "create"; type = token_create }
    ∷ record { text = codes "table"; type = token_table }
    ∷ record { text = codes "delete"; type = token_delete }
    ∷ record { text = codes "and"; type = token_and }
    ∷ record { text = codes "or"; type = token_or }
    ∷ record { text = codes "not"; type = token_not }
    ∷ record { text = codes "primary"; type = token_primary }
    ∷ record { text = codes "key"; type = token_key }
    ∷ record { text = codes "int"; type = token_int }
    ∷ record { text = codes "text"; type = token_text }
    ∷ record { text = codes "explain"; type = token_explain }
    ∷ []

unfoldable pub is_space : ℕ → Bool
is_space c = c == b' ' || c == 9 || c == 13 || c == b'\n'

unfoldable pub is_digit : ℕ → Bool
is_digit c = leb b'0' c && leb c b'9'

unfoldable pub is_name_start : ℕ → Bool
is_name_start c = (leb b'a' c && leb c b'z') || (leb b'A' c && leb c b'Z') || c == b'_'

unfoldable pub is_name_char : ℕ → Bool
unfolding is_name_start is_digit
is_name_char c = is_name_start c || is_digit c

unfoldable pub ascii_lower : ℕ → ℕ
ascii_lower c = if leb b'A' c && leb c b'Z' then c - b'A' + b'a' else c

-- The inner loop of `keyword_or_identifier` and the test after it: all of the name and all of the
-- keyword match.
unfoldable pub matches : Bytes → Bytes → Bool
matches [] [] = true
matches [] (k ∷ keyword) = false
matches (c ∷ name) [] = false
matches (c ∷ name) (k ∷ keyword) = if ascii_lower c == k then matches name keyword else false

unfoldable pub find_keyword : List Keyword → Bytes → TokenType
unfolding matches ascii_lower
find_keyword [] name = token_identifier
find_keyword (k ∷ ks) name = if matches name k.text then k.type else find_keyword ks name

unfoldable pub keyword_or_identifier : Bytes → TokenType
unfolding find_keyword keywords
keyword_or_identifier name = find_keyword keywords name

-- What reading one token yields besides its text: how many bytes it takes, and the fields it sets.
pub record Lexeme : Type 0 where
  pub length : ℕ
  pub type : TokenType
  pub integer : ℕ
  pub out_of_range : Bool
  pub error : LexicalError

abbrev pub plain : ℕ → TokenType → Lexeme
plain n t = record {
  length = n;
  type = t;
  integer = 0;
  out_of_range = false;
  error = lex_error_none;
}

abbrev pub erroneous : ℕ → LexicalError → Lexeme
erroneous n e = record {
  length = n;
  type = token_error;
  integer = 0;
  out_of_range = false;
  error = e;
}

-- while(is_name_char(sql[pos])) ++pos; as the number of bytes passed.
unfoldable pub name_length : Bytes → ℕ
unfolding is_name_char
name_length [] = 0
name_length (c ∷ s) = if is_name_char c then suc (name_length s) else 0

-- INT64_MAX.
abbrev pub int64_max : ℕ
int64_max = 9223372036854775807

-- The digits passed, the value and the flag.
pub record Number : Type 0 where
  pub length : ℕ
  pub value : ℕ
  pub out_of_range : Bool

abbrev pub one_longer : Number → Number
one_longer n = record n { length = suc n.length }

-- One digit's step: the value is kept once the flag is set.
unfoldable pub add_digit : ℕ → ℕ → Bool → ℕ × Bool
add_digit digit value true = (value, true)
add_digit digit value false =
    if ltb ((int64_max - digit) / 10) value then (value, true) else (value * 10 + digit, false)

unfoldable pub read_digits : Bytes → ℕ → Bool → Number
unfolding is_digit add_digit
read_digits [] value out_of_range = record {
  length = 0;
  value = value;
  out_of_range = out_of_range;
}
read_digits (c ∷ s) value out_of_range =
    let step = add_digit (c - b'0') value out_of_range in
    let more = one_longer (read_digits s step.0 step.1) in
    if is_digit c then more else record { length = 0; value = value; out_of_range = out_of_range }

unfoldable pub read_number : Bytes → Lexeme
unfolding read_digits name_length
read_number s =
    let n = read_digits s 0 false in
    let after = drop n.length s in
    if is_name_char (head_byte after)
    then erroneous (n.length + name_length after) lex_error_malformed_number
    else record {
      length = n.length;
      type = token_integer;
      integer = n.value;
      out_of_range = n.out_of_range;
      error = lex_error_none;
    }

abbrev pub longer : ℕ → Lexeme → Lexeme
longer n l = record l { length = n + l.length }

-- The loop of `read_string` behind the opening quote.
unfoldable pub read_string_loop : Bytes → Lexeme
read_string_loop [] = erroneous 0 lex_error_unterminated_string
read_string_loop (c ∷ []) =
    if c == 0
    then erroneous 0 lex_error_unterminated_string
    else if c == b'\''
    then plain 1 token_string
    else erroneous 1 lex_error_unterminated_string
read_string_loop (c ∷ d ∷ s) =
    let doubled = longer 2 (read_string_loop s) in
    let next = longer 1 (read_string_loop (d ∷ s)) in
    if c == 0
    then erroneous 0 lex_error_unterminated_string
    else if c == b'\''
    then (if d == b'\'' then doubled else plain 1 token_string)
    else next

unfoldable pub read_string : Bytes → Lexeme
unfolding read_string_loop
read_string s = longer 1 (read_string_loop (drop 1 s))

-- while((sql[pos] & 0xC0) == 0x80) ++pos; the bytes from 0x80 to 0xBF.
unfoldable pub continuation_length : Bytes → ℕ
continuation_length [] = 0
continuation_length (c ∷ s) = if leb 0x80 c && ltb c 0xC0 then suc (continuation_length s) else 0

unfoldable pub read_symbol : Bytes → Lexeme
unfolding continuation_length
read_symbol [] = erroneous 0 lex_error_unrecognized_character
read_symbol (c ∷ s) =
    if c == b'('
    then plain 1 token_left_paren
    else if c == b')'
    then plain 1 token_right_paren
    else if c == b','
    then plain 1 token_comma
    else if c == b';'
    then plain 1 token_semicolon
    else if c == b'*'
    then plain 1 token_star
    else if c == b'-'
    then plain 1 token_minus
    else if c == b'='
    then plain 1 token_equal
    else if c == b'!'
    then (if head_byte s == b'='
        then plain 2 token_not_equal
        else erroneous 1 lex_error_unrecognized_character)
    else if c == b'<'
    then (if head_byte s == b'='
        then plain 2 token_less_equal
        else if head_byte s == b'>'
        then plain 2 token_not_equal
        else plain 1 token_less)
    else if c == b'>'
    then (if head_byte s == b'=' then plain 2 token_greater_equal else plain 1 token_greater)
    else if leb 0x80 c
    then erroneous (1 + continuation_length s) lex_error_unrecognized_character
    else erroneous 1 lex_error_unrecognized_character

-- The number of bytes of whitespace and comments. In a comment the loop runs on to a newline, which
-- is then passed as whitespace, or to the end. The flag says whether a comment is being read.
unfoldable pub blank_length : Bool → Bytes → ℕ
unfolding is_space
blank_length comment [] = 0
blank_length true (c ∷ s) =
    if c == 0 then 0 else suc (blank_length (if c == b'\n' then false else true) s)
blank_length false (c ∷ s) =
    let opens = (c == b'-') && (head_byte s == b'-') in
    if is_space c || opens then suc (blank_length opens s) else 0

pub record Tokenizer : Type 0 where
  pub rest : Bytes
  pub position : ℕ

unfoldable pub tokenizer_init : Bytes → Tokenizer
tokenizer_init sql = record { rest = sql; position = 0 }

-- The choice by the first byte.
unfoldable pub read_lexeme : Bytes → Lexeme
read_lexeme s =
    let c = head_byte s in
    if c == 0
    then plain 0 token_end
    else if is_name_start c
    then plain (name_length s) (keyword_or_identifier (take (name_length s) s))
    else if is_digit c
    then read_number s
    else if c == b'\''
    then read_string s
    else read_symbol s

unfoldable pub tokenizer_next : Tokenizer → Token × Tokenizer
tokenizer_next t =
    let blank = blank_length false t.rest in
    let start = drop blank t.rest in
    let l = read_lexeme start in
    (
      record {
        type = l.type;
        text = take l.length start;
        column = t.position + blank + 1;
        integer = l.integer;
        out_of_range = l.out_of_range;
        error = l.error;
      },
      record { rest = drop l.length start; position = t.position + blank + l.length },
    )
