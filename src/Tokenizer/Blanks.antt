-- ===== src/Tokenizer/Blanks.antt =====
-- What `tokenizer_next` skips between tokens: whitespace and comments, and nothing else.
use mini_sql.Base.{
  ℕ, refl, ◌≡◌, ◌≢◌, arith, Bool, true, false, ◌&&◌, [], ◌∷◌, ◌==◌, take, drop, ◌⊎◌, ◌||◌,
  if◌then◌else◌, Bool-cases, inl, inr, ==_iff,
}
use mini_sql.Base.Bytes.{Bytes, head_byte, second_byte}
use mini_sql.Tokenizer.{is_space, blank_length}

-- A space, a tab, a newline or a carriage return.
abbrev pub Whitespace : ℕ → Type 0
Whitespace c = (c ≡ 32) ⊎ (c ≡ 9) ⊎ (c ≡ 10) ⊎ (c ≡ 13)

-- Whitespace and comments, before `rest`: the flag says whether the bytes begin inside a comment. A
-- comment opens with two dashes and ends behind a newline, or where the input ends.
pub data Blanks (rest : Bytes) : Bool → Bytes → Type 0 where
  nothing : Blanks rest false []
  ended : head_byte rest ≡ 0 → Blanks rest true []
  space : (c : ℕ) (s : Bytes) → Whitespace c → Blanks rest false s → Blanks rest false (c ∷ s)
  dash :
      (c : ℕ) (s : Bytes)
      → c ≡ b'-'
      → head_byte s ≡ b'-'
      → Blanks rest true s
      → Blanks rest false (c ∷ s)
  newline : (c : ℕ) (s : Bytes) → c ≡ b'\n' → Blanks rest false s → Blanks rest true (c ∷ s)
  inside : (c : ℕ) (s : Bytes) → c ≢ 0 → c ≢ b'\n' → Blanks rest true s → Blanks rest true (c ∷ s)

is_space-Whitespace : (c : ℕ) → is_space c ≡ true → Whitespace c
unfolding is_space
is_space-Whitespace c h = ground arith

space-dash : (c : ℕ) → is_space c ≡ true → (c == b'-') ≡ false
unfolding is_space
space-dash c h = ground arith

head-comment : (s : Bytes) → head_byte s ≡ b'-' → head_byte (take (blank_length true s) s) ≡ b'-'
unfolding blank_length
head-comment [] h = h
head-comment (c ∷ s) h = let byte : (c == 0) ≡ false = ground arith in rw byte h

pub take-Blanks :
    (comment : Bool) (s : Bytes)
    → Blanks (drop (blank_length comment s) s) comment (take (blank_length comment s) s)
unfolding blank_length
take-Blanks true [] = ended refl
take-Blanks false [] = nothing
take-Blanks true (c ∷ s) = elim (Bool-cases (c == 0)) [
  | inl nul ↦ rw nul (ended ((==_iff c 0).0 nul))
  | inr byte ↦ rw byte (elim (Bool-cases (c == b'\n')) [
    | inl line ↦ rw line (newline c _ ((==_iff c b'\n').0 line) (take-Blanks false s))
    | inr other ↦ rw other (inside c _ (λ e. ground arith) (λ e. ground arith) (take-Blanks true s))
  ])
]
take-Blanks false (c ∷ s) = elim (Bool-cases (is_space c)) [
  | inl blank ↦
      rw (blank, space-dash c blank) (space c _ (is_space-Whitespace c blank) (take-Blanks false s))
  | inr other ↦ rw other (elim (Bool-cases ((c == b'-') && (head_byte s == b'-'))) [
    | inl opens ↦
        rw opens (dash c _ (ground arith) (head-comment s (ground arith)) (take-Blanks true s))
    | inr plain ↦ rw plain nothing
  ])
]

-- Neither whitespace nor a comment begins here.
abbrev pub StartsToken : Bytes → Type 0
StartsToken s = (¬ Whitespace (head_byte s)) × ¬ ((head_byte s ≡ b'-') × (second_byte s ≡ b'-'))

not_space : (c : ℕ) → is_space c ≡ false → ¬ Whitespace c
unfolding is_space
not_space c h w = ground arith

-- All of it is skipped: behind the blanks neither begins.
pub drop-StartsToken : (comment : Bool) (s : Bytes) → StartsToken (drop (blank_length comment s) s)
unfolding blank_length
drop-StartsToken comment [] = (λ w. ground arith, λ d. omega arith)
drop-StartsToken true (c ∷ s) = elim (Bool-cases (c == 0)) [
  | inl nul ↦ rw nul ((λ w. ground arith), (λ d. ground arith))
  | inr byte ↦ rw byte (drop-StartsToken (if c == b'\n' then false else true) s)
]
drop-StartsToken false (c ∷ s) =
    let opens = (c == b'-') && (head_byte s == b'-') in
    elim (Bool-cases (is_space c || opens)) [
      | inl blank ↦ rw blank (drop-StartsToken opens s)
      | inr plain ↦ rw plain (not_space c (ground arith), λ d. ground arith)
    ]
