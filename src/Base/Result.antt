-- ===== src/Base/Result.antt =====
-- What a function that sets an error and returns false gives: the error, or its result.
use mathlib.Core.Path.{◌≡◌, refl, ap}

pub data Result {ℓ} (E : Type 0) (A : Type ℓ) : Type ℓ where
  err : E → Result E A
  ok : A → Result E A

infixl 5 ◌>>=◌
-- The early return on an error.
abbrev pub ◌>>=◌ {ℓ κ} :
    {E : Type 0} {A : Type ℓ} {B : Type κ} → Result E A → (A → Result E B) → Result E B
err e >>= next = err e
ok a >>= next = next a

-- A chain that succeeds did so at every link.
pub ok->>= {ℓ κ} :
    {E : Type 0} {A : Type ℓ} {B : Type κ} (first : Result E A) (next : A → Result E B) {last : B}
    → (first >>= next) ≡ ok last
    → (a : A) × (first ≡ ok a) × (next a ≡ ok last)
ok->>= (err e) next whole = absurd (cc)
ok->>= (ok a) next whole = (a, refl, whole)

pub ok-injective {ℓ} :
    {E : Type 0} {A : Type ℓ} {a b : A} → ◌≡◌ {A = Result E A} (ok a) (ok b) → a ≡ b
ok-injective {E} {A} {a} {b} h = ap (result_or a) h
  where
    result_or : A → Result E A → A
    result_or other (err e) = other
    result_or other (ok r) = r
