-- ===== src/Tests/Language.antt =====
-- SQL text: theorems at concrete lines, and runs.
use mini_sql.Base.{
  ◌≡◌, refl, arith, false, none, some, [], ◌∷◌, ◌++◌, length, take, ltb, if◌then◌else◌, ◌⊎◌,
}
use mini_sql.Base.Bytes.{Bytes, codes}
use mini_sql.Token.{token_string}
use mini_sql.Ast.{Ast, ast_select}
use mini_sql.Tokenizer.{
  blank_length, is_name_start, keyword_or_identifier, name_length, read_symbol, tokenizer_init,
  tokenizer_next, plain, read_lexeme, read_number, int64_max,
}
use mini_sql.Tokenizer.Progress.{Reads, tokenizer_next-Reads}
use mini_sql.Tokenizer.Numbers.{decimal, read_number_value}
use mini_sql.Tokenizer.Strings.{unescape_string, quoted, read_lexeme-quoted}
use mini_sql.Parser.{advance, parse_name, expect, SyntaxError, ok, err}
use mini_sql.Parser.Statement.{parse_select, parse_statement}
use mini_sql.Parser.Total.{parse_statement-total}

abbrev line : Bytes
line = codes "SELECT * FROM t WHERE id >= -4"

tokenizer_next-Reads_example :
    Reads
      (tokenizer_init line)
      (tokenizer_next (tokenizer_init line)).0
      (tokenizer_next (tokenizer_init line)).1
tokenizer_next-Reads_example = tokenizer_next-Reads (tokenizer_init line)

read_number_value_example :
    ((read_number (codes "42,")).out_of_range ≡ ltb int64_max (decimal 0 (codes "42,")))
    × ((if (read_number (codes "42,")).out_of_range then 0 else (read_number (codes "42,")).integer)
        ≡ (if ltb int64_max (decimal 0 (codes "42,")) then 0 else decimal 0 (codes "42,")))
unfolding read_number
read_number_value_example = read_number_value (codes "42,") refl

read_lexeme-quoted_example :
    (read_lexeme (quoted (codes "it's") ++ codes ")")
      ≡ plain (length (quoted (codes "it's"))) token_string)
    × (take (length (quoted (codes "it's"))) (quoted (codes "it's") ++ codes ")")
        ≡ quoted (codes "it's"))
    × (unescape_string (quoted (codes "it's")) ≡ codes "it's")
read_lexeme-quoted_example =
    read_lexeme-quoted (codes "it's") (codes ")")
      (omega arith, (omega arith, (omega arith, (omega arith, tt)))) (omega arith)

parse_statement-total_example :
    ((ast : Ast) × (parse_statement line ≡ ok ast))
    ⊎ ((e : SyntaxError) × (parse_statement line ≡ err e))
parse_statement-total_example = parse_statement-total line

abbrev select_line : Bytes
select_line = codes "SELECT name FROM t;"

-- A run of the whole parser.
parsed_select :
    parse_statement select_line
    ≡ ok (
        ast_select false record {
          table_name = codes "t";
          column_names = some (codes "name" ∷ []);
          condition = none;
        })
unfolding parse_statement tokenizer_next read_lexeme blank_length tokenizer_init is_name_start
    keyword_or_identifier name_length parse_select advance parse_name expect read_symbol
parsed_select = refl
