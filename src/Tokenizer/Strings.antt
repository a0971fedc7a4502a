-- ===== src/Tokenizer/Strings.antt =====
-- String literals: what is written with its quotes doubled is one string token, and unescaping the
-- token gives the text back. `unescape_string` is src/parser.c's.
use mathlib.Core.List.{append_assoc}
use mini_sql.Base.{
  ℕ, zero, suc, ◌+◌, ◌-◌, ◌≡◌, ◌≢◌, refl, sym, ap, ◌∙◌, arith, [], ◌∷◌, ◌++◌, ◌==◌, if◌then◌else◌,
  Bool-cases, inl, inr, ==_iff, length, take, drop, length-append,
}
use mini_sql.Base.Bytes.{Bytes, head_byte}
use mini_sql.Schema.Names.{NoNul}
use mini_sql.Token.{token_string}
use mini_sql.Tokenizer.{
  plain, longer, read_string_loop, read_string, read_lexeme, is_name_start, is_digit,
}

-- The loop of `unescape_string` over the content: a quote is copied and its twin skipped.
unfoldable pub unescape_content : Bytes → Bytes
unescape_content [] = []
unescape_content (c ∷ []) = c ∷ []
unescape_content (c ∷ d ∷ s) =
    let skip = c ∷ unescape_content s in
    let next = c ∷ unescape_content (d ∷ s) in if c == b'\'' then skip else next

-- token->start + 1, for token->length - 2 bytes.
unfoldable pub unescape_string : Bytes → Bytes
unfolding unescape_content
unescape_string text = unescape_content (take (length text - 2) (drop 1 text))

-- A text as SQL writes it inside quotes.
unfoldable pub doubled : Bytes → Bytes
doubled [] = []
doubled (c ∷ s) = if c == b'\'' then c ∷ c ∷ doubled s else c ∷ doubled s

unfoldable pub quoted : Bytes → Bytes
unfolding doubled
quoted s = b'\'' ∷ (doubled s ++ (b'\'' ∷ []))

loop_plain :
    (c : ℕ) (s : Bytes)
    → c ≢ 0
    → c ≢ b'\''
    → read_string_loop (c ∷ s) ≡ longer 1 (read_string_loop s)
unfolding read_string_loop
loop_plain c [] n q = ground arith
loop_plain c (d ∷ s) n q = ground arith

loop_quote :
    (rest : Bytes) → head_byte rest ≢ b'\'' → read_string_loop (b'\'' ∷ rest) ≡ plain 1 token_string
unfolding read_string_loop
loop_quote [] h = refl
loop_quote (d ∷ s) h = ground arith

loop_twin : (s : Bytes) → read_string_loop (b'\'' ∷ b'\'' ∷ s) ≡ longer 2 (read_string_loop s)
unfolding read_string_loop
loop_twin s = refl

longer-plain : (m n k : ℕ) → k ≡ m + n → longer m (plain n token_string) ≡ plain k token_string
longer-plain m n k e = ap (λ i. plain i token_string) (sym e)

loop-doubled :
    (s rest : Bytes)
    → NoNul s
    → head_byte rest ≢ b'\''
    → read_string_loop (doubled s ++ (b'\'' ∷ rest)) ≡ plain (suc (length (doubled s))) token_string
unfolding doubled
loop-doubled [] rest p h = loop_quote rest h
loop-doubled (c ∷ s) rest p h = elim (Bool-cases (c == b'\'')) [
  | inl quote ↦ rw quote (
      ap (λ b. read_string_loop (b ∷ b ∷ (doubled s ++ (b'\'' ∷ rest)))) ((==_iff c b'\'').0 quote)
      ∙ loop_twin (doubled s ++ (b'\'' ∷ rest))
      ∙ ap (longer 2) (loop-doubled s rest p.1 h)
      ∙ longer-plain 2 (suc (length (doubled s))) _ (omega arith))
  | inr other ↦ rw other (
      loop_plain c (doubled s ++ (b'\'' ∷ rest)) (ground arith) (ground arith)
      ∙ ap (longer 1) (loop-doubled s rest p.1 h)
      ∙ longer-plain 1 (suc (length (doubled s))) _ (omega arith))
]

unescape_plain : (c : ℕ) (s : Bytes) → c ≢ b'\'' → unescape_content (c ∷ s) ≡ c ∷ unescape_content s
unfolding unescape_content
unescape_plain c [] h = refl
unescape_plain c (d ∷ s) h = ground arith

unescape_twin :
    (c : ℕ) (s : Bytes) → c ≡ b'\'' → unescape_content (c ∷ c ∷ s) ≡ c ∷ unescape_content s
unfolding unescape_content
unescape_twin c s h = ground arith

unescape-doubled : (s : Bytes) → unescape_content (doubled s) ≡ s
unfolding doubled
unescape-doubled [] = unfold unescape_content in refl
unescape-doubled (c ∷ s) = elim (Bool-cases (c == b'\'')) [
  | inl quote ↦
      rw quote
        (unescape_twin c (doubled s) ((==_iff c b'\'').0 quote) ∙ ap (◌∷◌ c) (unescape-doubled s))
  | inr other ↦
      rw other (unescape_plain c (doubled s) (λ e. ground arith) ∙ ap (◌∷◌ c) (unescape-doubled s))
]

take-length_append : (a b : Bytes) (n : ℕ) → n ≡ length a → take n (a ++ b) ≡ a
take-length_append [] b zero e = refl
take-length_append [] b (suc n) e = absurd (omega arith)
take-length_append (x ∷ a) b zero e = absurd (omega arith)
take-length_append (x ∷ a) b (suc n) e = ap (◌∷◌ x) (take-length_append a b n (omega arith))

-- A text with no NUL, written in quotes with each quote inside doubled and followed by anything but
-- a quote, is read as one string token that covers exactly the literal, and unescaping the token's
-- text gives the text itself.
pub read_lexeme-quoted :
    (s rest : Bytes)
    → NoNul s
    → head_byte rest ≢ b'\''
    → (read_lexeme (quoted s ++ rest) ≡ plain (length (quoted s)) token_string)
      × (take (length (quoted s)) (quoted s ++ rest) ≡ quoted s)
      × (unescape_string (quoted s) ≡ s)
unfolding quoted unescape_string is_name_start is_digit
read_lexeme-quoted s rest p h = (
  unfold read_lexeme read_string in
      (ap (λ b. longer 1 (read_string_loop b)) (append_assoc (doubled s) (b'\'' ∷ []) rest)
        ∙ ap (longer 1) (loop-doubled s rest p h)
        ∙ longer-plain 1 (suc (length (doubled s))) _ whole_length),
  take-length_append (quoted s) rest _ refl,
  ap unescape_content (
        take-length_append (doubled s) (b'\'' ∷ []) _
          (omega (arith, length-append (doubled s) (b'\'' ∷ []))))
      ∙ unescape-doubled s,
)
  where
    whole_length : length (quoted s) ≡ 1 + suc (length (doubled s))
    whole_length = omega (arith, length-append (doubled s) (b'\'' ∷ []))
