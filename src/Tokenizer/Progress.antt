-- ===== src/Tokenizer/Progress.antt =====
-- Tokens cover the input: no byte is lost or read twice, columns are right, and every token but the
-- last takes at least one byte.
use mini_sql.Base.{
  ℕ, suc, ◌+◌, ◌-◌, ◌≤◌, ◌<◌, ◌≡◌, ◌≢◌, ◌↔◌, refl, sym, ap, ◌∙◌, arith, Bool, true, false, ◌&&◌,
  List, [], ◌∷◌, ◌++◌, length, take, drop, take-append-drop, length-take_le, length-drop,
  length-append, Bool-cases, if◌then◌else◌, subst, inl, inr, ◌==◌, ==_iff, All,
}
use mini_sql.Base.Bytes.{Bytes, head_byte}
use mini_sql.Token.{token_end, Token}
use mini_sql.Tokenizer.Blanks.{Blanks, take-Blanks, StartsToken, drop-StartsToken}
use mini_sql.Tokenizer.{
  Keyword, keywords, find_keyword, keyword_or_identifier, is_name_start, is_name_char, is_digit,
  Lexeme, name_length, read_digits, add_digit, read_number, read_string_loop, read_string,
  read_symbol, continuation_length, blank_length, read_lexeme, Tokenizer, tokenizer_next,
}

name_length-le : (s : Bytes) → name_length s ≤ length s
unfolding name_length
name_length-le [] = omega arith
name_length-le (c ∷ s) = ground (arith, name_length-le s)

name_length-pos : (s : Bytes) → is_name_char (head_byte s) ≡ true → 0 < name_length s
unfolding name_length
name_length-pos [] h = absurd (ground arith)
name_length-pos (c ∷ s) h = rw h (omega arith)

read_digits-le : (s : Bytes) (v : ℕ) (o : Bool) → (read_digits s v o).length ≤ length s
unfolding read_digits
read_digits-le [] v o = omega arith
read_digits-le (c ∷ s) v o = elim (Bool-cases (is_digit c)) [
  | inl digit ↦
      rw digit
        (let step = add_digit (c - b'0') v o in omega (arith, read_digits-le s step.0 step.1))
  | inr other ↦ rw other (omega arith)
]

read_digits-pos :
    (s : Bytes) (v : ℕ) (o : Bool) → is_digit (head_byte s) ≡ true → 0 < (read_digits s v o).length
unfolding read_digits
read_digits-pos [] v o h = absurd (ground arith)
read_digits-pos (c ∷ s) v o h = rw h (omega arith)

read_number_bounds :
    (s : Bytes)
    → is_digit (head_byte s) ≡ true
    → ((read_number s).length ≤ length s)
      × (0 < (read_number s).length)
      × ((read_number s).type ≢ token_end)
unfolding read_number
read_number_bounds s h =
    let n = (read_digits s 0 false).length in
    let least = read_digits-pos s 0 false h in
    let most = read_digits-le s 0 false in
    let tail = name_length-le (drop n s) in
    elim (Bool-cases (is_name_char (head_byte (drop n s)))) [
      | inl name ↦ rw name (omega (arith, length-drop n s), omega arith, λ e. cc)
      | inr end ↦ rw end (most, least, λ e. cc)
    ]

read_string_loop-le : (s : Bytes) → (read_string_loop s).length ≤ length s
unfolding read_string_loop
read_string_loop-le [] = omega arith
read_string_loop-le (c ∷ []) = ground arith
read_string_loop-le (c ∷ d ∷ s) = ground (arith, read_string_loop-le s, read_string_loop-le (d ∷ s))

read_string_loop-ne-end : (s : Bytes) → (read_string_loop s).type ≢ token_end
unfolding read_string_loop
read_string_loop-ne-end [] = λ e. cc
read_string_loop-ne-end (c ∷ []) = λ e. ground arith
read_string_loop-ne-end (c ∷ d ∷ s) = elim (Bool-cases (c == 0)) [
  | inl nul ↦ rw nul (λ e. cc)
  | inr more ↦ rw more (elim (Bool-cases (c == b'\'')) [
    | inr next ↦ rw next (read_string_loop-ne-end (d ∷ s))
    | inl quote ↦ rw quote (elim (Bool-cases (d == b'\'')) [
      | inl doubled ↦ rw doubled (read_string_loop-ne-end s)
      | inr ends ↦ rw ends (λ e. cc)
    ])
  ])
]

continuation_length-le : (s : Bytes) → continuation_length s ≤ length s
unfolding continuation_length
continuation_length-le [] = omega arith
continuation_length-le (c ∷ s) = ground (arith, continuation_length-le s)

read_symbol_bounds :
    (c : ℕ) (s : Bytes)
    → ((read_symbol (c ∷ s)).length ≤ suc (length s))
      × (0 < (read_symbol (c ∷ s)).length)
      × ((read_symbol (c ∷ s)).type ≢ token_end)
unfolding read_symbol
read_symbol_bounds c [] = (ground arith, ground arith, λ e. ground arith)
read_symbol_bounds c (d ∷ s) =
    (ground (arith, continuation_length-le (d ∷ s)), ground arith, λ e. ground arith)

find_keyword-ne-end :
    (ks : List Keyword) (name : Bytes)
    → All (λ (k : Keyword). k.type ≢ token_end) ks
    → find_keyword ks name ≢ token_end
unfolding find_keyword
find_keyword-ne-end [] name p e = cc
find_keyword-ne-end (k ∷ ks) name p e = ground (arith, find_keyword-ne-end ks name p.1, p.0)

keyword_or_identifier-ne-end : (name : Bytes) → keyword_or_identifier name ≢ token_end
unfolding keyword_or_identifier
keyword_or_identifier-ne-end name = find_keyword-ne-end keywords name (ground arith)

-- The facts about one lexeme at the start of `s`: it lies within `s`, and it is the end exactly where
-- the input ends, or takes at least one byte.
record Fits (s : Bytes) (l : Lexeme) : Type 0 where
  within : l.length ≤ length s
  ended : head_byte s ≡ 0 → (l.type ≡ token_end) × (l.length ≡ 0)
  more : head_byte s ≢ 0 → (l.type ≢ token_end) × (0 < l.length)

Fits-of :
    (s : Bytes) (l : Lexeme)
    → head_byte s ≢ 0
    → l.length ≤ length s
    → 0 < l.length
    → l.type ≢ token_end
    → Fits s l
Fits-of s l h a b c = record { within = a; ended = λ e. absurd (h e); more = λ _. (c, b) }

read_lexeme_more : (c : ℕ) (s : Bytes) → c ≢ 0 → Fits (c ∷ s) (read_lexeme (c ∷ s))
unfolding read_lexeme
read_lexeme_more c s h = elim (Bool-cases (c == 0)) [
  | inl nul ↦ absurd (h ((==_iff c 0).0 nul))
  | inr some_byte ↦ rw some_byte (elim (Bool-cases (is_name_start c)) [
    | inl name ↦ rw name (
        Fits-of (c ∷ s) _ h (name_length-le (c ∷ s))
          (name_length-pos (c ∷ s) (unfold is_name_char in rw name refl))
          (keyword_or_identifier-ne-end (take (name_length (c ∷ s)) (c ∷ s))))
    | inr not_name ↦ rw not_name (elim (Bool-cases (is_digit c)) [
      | inl digit ↦
          rw digit (let b = read_number_bounds (c ∷ s) digit in Fits-of (c ∷ s) _ h b.0 b.1 b.2)
      | inr not_digit ↦ rw not_digit (elim (Bool-cases (c == b'\'')) [
        | inl quote ↦ rw quote (
            Fits-of (c ∷ s) _ h (unfold read_string in omega (arith, read_string_loop-le s))
              (unfold read_string in omega arith) (unfold read_string in read_string_loop-ne-end s))
        | inr symbol ↦ rw symbol (let b = read_symbol_bounds c s in Fits-of (c ∷ s) _ h b.0 b.1 b.2)
      ])
    ])
  ])
]

read_lexeme-Fits : (s : Bytes) → Fits s (read_lexeme s)
read_lexeme-Fits [] = record {
  within = unfold read_lexeme in omega arith;
  ended = λ e. (unfold read_lexeme in refl, unfold read_lexeme in refl);
  more = λ h. absurd (h refl);
}
read_lexeme-Fits (c ∷ s) = elim (Bool-cases (c == 0)) [
  | inl nul ↦ record {
    within = unfold read_lexeme in rw nul (omega arith);
    ended = λ e. (unfold read_lexeme in rw nul refl, unfold read_lexeme in rw nul refl);
    more = λ h. absurd (h ((==_iff c 0).0 nul));
  }
  | inr some_byte ↦ read_lexeme_more c s (λ e. ground arith)
]

blank_length-le : (comment : Bool) (s : Bytes) → blank_length comment s ≤ length s
unfolding blank_length
blank_length-le comment [] = omega arith
blank_length-le true (c ∷ s) =
    ground (arith, blank_length-le (if c == b'\n' then false else true) s)
blank_length-le false (c ∷ s) =
    ground (arith, blank_length-le ((c == b'-') && (head_byte s == b'-')) s)

-- Reading one token: what stands between the tokens, the token's text and the unread rest are the
-- input, in that order; only whitespace and comments stand between, and neither begins where the
-- token does; the column counts from 1; only the token at the input's end is empty.
pub record Reads (t : Tokenizer) (token : Token) (t' : Tokenizer) : Type 0 where
  pub skipped : Bytes
  pub blanks : Blanks (token.text ++ t'.rest) false skipped
  pub covers : t.rest ≡ skipped ++ (token.text ++ t'.rest)
  pub stops : StartsToken (token.text ++ t'.rest)
  pub column : token.column ≡ t.position + length skipped + 1
  pub position : t'.position ≡ t.position + length skipped + length token.text
  pub empty : (token.type ≡ token_end) ↔ (length token.text ≡ 0)
  pub ends : (token.type ≡ token_end) ↔ (head_byte (token.text ++ t'.rest) ≡ 0)

Fits-length : (s : Bytes) (l : Lexeme) → Fits s l → length (take l.length s) ≡ l.length
Fits-length s l f = length-take_le l.length s f.within

Fits-empty :
    (s : Bytes) (l : Lexeme)
    → Fits s l
    → ((l.type ≡ token_end) ↔ (l.length ≡ 0)) × ((l.type ≡ token_end) ↔ (head_byte s ≡ 0))
Fits-empty s l f = elim (Bool-cases (head_byte s == 0)) [
  | inl nul ↦
      let e : head_byte s ≡ 0 = (==_iff _ 0).0 nul in
      ((λ _. (f.ended e).1, λ _. (f.ended e).0), (λ _. e, λ _. (f.ended e).0))
  | inr byte ↦
      let ne : head_byte s ≢ 0 = λ e. ground arith in
      let m = f.more ne in
      (
        (λ e. absurd (m.0 e), λ e. absurd (omega (arith, m.1))),
        (λ e. absurd (m.0 e), λ e. absurd (ne e)),
      )
]

module _ (t : Tokenizer) where
  blank : ℕ
  blank = blank_length false t.rest

  start : Bytes
  unfolding blank
  start = drop blank t.rest

  start-Fits : Fits start (read_lexeme start)
  start-Fits = read_lexeme-Fits start

  -- Each call takes all the whitespace and comments that the input begins with, and then the text of
  -- one token, off the input, with nothing left out: a comment goes up to the end of its line or of
  -- the input, and where the text begins, neither whitespace nor a comment does. The token's column counts the bytes before it from 1, and the position moves by the
  -- bytes taken; the type is TOKEN_END exactly at the end of the input, and exactly when the text is
  -- empty.
  pub tokenizer_next-Reads : let (token, t') = tokenizer_next t in Reads t token t'
  unfolding tokenizer_next blank start
  tokenizer_next-Reads = record {
    skipped = take blank t.rest;
    blanks =
        subst (λ rest. Blanks rest false (take blank t.rest))
          (sym (take-append-drop (read_lexeme start).length start)) (take-Blanks false t.rest);
    covers = sym (
        ap (◌++◌ (take blank t.rest)) (take-append-drop (read_lexeme start).length start)
        ∙ take-append-drop blank t.rest);
    stops =
        subst StartsToken (sym (take-append-drop (read_lexeme start).length start))
          (drop-StartsToken false t.rest);
    column = omega (arith, length-take_le blank t.rest (blank_length-le false t.rest));
    position = omega (
      arith,
      length-take_le blank t.rest (blank_length-le false t.rest),
      Fits-length start (read_lexeme start) start-Fits,
    );
    empty = rw (Fits-length start (read_lexeme start) start-Fits) both.0;
    ends = rw (take-append-drop (read_lexeme start).length start) both.1;
  }
    where
      both :
          (((read_lexeme start).type ≡ token_end) ↔ ((read_lexeme start).length ≡ 0))
          × (((read_lexeme start).type ≡ token_end) ↔ (head_byte start ≡ 0))
      both = Fits-empty start (read_lexeme start) start-Fits

  -- A token that is not the end shortens the input.
  pub tokenizer_next-lt :
      (tokenizer_next t).0.type ≢ token_end → length (tokenizer_next t).1.rest < length t.rest
  tokenizer_next-lt ne =
      let r = tokenizer_next-Reads in
      omega (
        arith,
        ap length r.covers,
        length-append r.skipped ((tokenizer_next t).0.text ++ (tokenizer_next t).1.rest),
        length-append (tokenizer_next t).0.text (tokenizer_next t).1.rest,
        λ (z : length (tokenizer_next t).0.text ≡ 0). ne (r.empty.1 z),
      )

  -- The input never grows.
  pub tokenizer_next-le : length (tokenizer_next t).1.rest ≤ length t.rest
  tokenizer_next-le =
      let r = tokenizer_next-Reads in
      omega (
        arith,
        ap length r.covers,
        length-append r.skipped ((tokenizer_next t).0.text ++ (tokenizer_next t).1.rest),
        length-append (tokenizer_next t).0.text (tokenizer_next t).1.rest,
      )
