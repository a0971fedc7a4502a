-- ===== src/Schema/Names.antt =====
-- What `schema_names_equal` decides.
use mini_sql.Base.{ℕ, ◌+◌, ◌<◌, ◌≤◌, ◌≡◌, ◌⊎◌, refl, ◌↔◌, true, [], ◌∷◌, map, arith, All}
use mathlib.Core.Path.{ap₂}
use mini_sql.Base.Bytes.{Bytes}
use mini_sql.Schema.{fold_case, schema_names_equal}

-- A C string holds no NUL before its end.
abbrev pub NoNul : Bytes → Type 0
NoNul = All (λ c. 0 < c)

fold_case-pos : (c : ℕ) → 0 < c → 0 < fold_case c
unfolding fold_case
fold_case-pos c h = ground arith

fold_case_zero : fold_case 0 ≡ 0
unfolding fold_case
fold_case_zero = refl

names_equal→eq :
    (a b : Bytes)
    → NoNul a
    → NoNul b
    → schema_names_equal a b ≡ true
    → map fold_case a ≡ map fold_case b
unfolding schema_names_equal
names_equal→eq [] [] p q h = refl
names_equal→eq [] (d ∷ b) p q h = absurd (ground (arith, fold_case-pos d))
names_equal→eq (c ∷ a) [] p q h = absurd (ground (arith, fold_case-pos c))
names_equal→eq (c ∷ a) (d ∷ b) p q h =
    ground (arith, fold_case-pos c, fold_case-pos d, names_equal→eq a b p.1 q.1)

eq→names_equal :
    (a b : Bytes)
    → NoNul a
    → NoNul b
    → map fold_case a ≡ map fold_case b
    → schema_names_equal a b ≡ true
unfolding schema_names_equal
eq→names_equal [] [] p q h = refl
eq→names_equal [] (d ∷ b) p q h = absurd (cc)
eq→names_equal (c ∷ a) [] p q h = absurd (cc)
eq→names_equal (c ∷ a) (d ∷ b) p q h =
    ground (arith, fold_case-pos c, fold_case-pos d, eq→names_equal a b p.1 q.1)

-- One byte is the other, or the two are one ASCII letter in its two cases.
abbrev pub SameLetter : ℕ → ℕ → Type 0
SameLetter c d =
    (c ≡ d) ⊎ ((65 ≤ c) × (c ≤ 90) × (d ≡ c + 32)) ⊎ ((65 ≤ d) × (d ≤ 90) × (c ≡ d + 32))

-- Two names differ at most in the case of their ASCII letters.
abbrev pub SameName : Bytes → Bytes → Type 0
SameName [] [] = Unit {0}
SameName [] (d ∷ b) = ⊥
SameName (c ∷ a) [] = ⊥
SameName (c ∷ a) (d ∷ b) = SameLetter c d × SameName a b

fold_case-SameLetter : (c d : ℕ) → fold_case c ≡ fold_case d → SameLetter c d
unfolding fold_case
fold_case-SameLetter c d e = ground arith

SameLetter-fold_case : (c d : ℕ) → SameLetter c d → fold_case c ≡ fold_case d
unfolding fold_case
SameLetter-fold_case c d e = ground arith

folded-SameName : (a b : Bytes) → map fold_case a ≡ map fold_case b → SameName a b
folded-SameName [] [] e = tt
folded-SameName [] (d ∷ b) e = cc
folded-SameName (c ∷ a) [] e = cc
folded-SameName (c ∷ a) (d ∷ b) e = (fold_case-SameLetter c d (cc), folded-SameName a b (cc))

SameName-folded : (a b : Bytes) → SameName a b → map fold_case a ≡ map fold_case b
SameName-folded [] [] h = refl
SameName-folded [] (d ∷ b) h = absurd h
SameName-folded (c ∷ a) [] h = absurd h
SameName-folded (c ∷ a) (d ∷ b) h =
    ap₂ (◌∷◌) (SameLetter-fold_case c d h.0) (SameName-folded a b h.1)

-- Two names with no NUL inside are equal to `schema_names_equal` exactly when they are equally long
-- and at each place have the same byte, or one ASCII letter in its two cases.
pub names_equal_iff :
    (a b : Bytes) → NoNul a → NoNul b → (schema_names_equal a b ≡ true) ↔ SameName a b
names_equal_iff a b p q = (
  λ h. folded-SameName a b (names_equal→eq a b p q h),
  λ h. eq→names_equal a b p q (SameName-folded a b h),
)
