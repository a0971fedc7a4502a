-- ===== src/Record/RoundTrip.antt =====
-- What is written into a row is read back, and leaves the other columns alone.
use mini_sql.Base.{
  ℕ, zero, suc, ◌+◌, ◌-◌, ◌≤◌, ◌<◌, ◌≡◌, refl, ap, ◌∙◌, ◌⊎◌, inl, inr, some, [], ◌∷◌, arith, length,
  take, drop, replicate, ◌++◌, All,
}
use mini_sql.Base.Bytes.{Bytes}
use mini_sql.Base.Int.{ℤ, pos, negsuc, ◌≤ℤ◌}
use mini_sql.Schema.{ColumnDefinition, Schema, u32_mod, schema_find_column_by_id}
use mini_sql.Record.{
  Record, overwrite, slice, to_u32, to_i32, u32_bytes, bytes_u32, record_set_int, record_set_text,
  record_get_int, record_get_text, strncpy,
}

pub length-overwrite : (o : ℕ) (bs p : Bytes) → length (overwrite o bs p) ≡ length p
unfolding overwrite
length-overwrite zero [] p = refl
length-overwrite zero (b ∷ bs) [] = refl
length-overwrite zero (b ∷ bs) (x ∷ p) = ap suc (length-overwrite zero bs p)
length-overwrite (suc n) bs [] = refl
length-overwrite (suc n) bs (x ∷ p) = ap suc (length-overwrite n bs p)

pub slice-overwrite_self :
    (o : ℕ) (bs p : Bytes) → o + length bs ≤ length p → slice o (length bs) (overwrite o bs p) ≡ bs
unfolding overwrite
slice-overwrite_self zero [] p h = refl
slice-overwrite_self zero (b ∷ bs) [] h = absurd (omega arith)
slice-overwrite_self zero (b ∷ bs) (x ∷ p) h =
    ap (◌∷◌ b) (slice-overwrite_self zero bs p (omega arith))
slice-overwrite_self (suc n) bs [] h = absurd (omega arith)
slice-overwrite_self (suc n) bs (x ∷ p) h = slice-overwrite_self n bs p (omega arith)

-- A read before the bytes written, or after them, is as it was.
take-overwrite : (n o : ℕ) (bs p : Bytes) → n ≤ o → take n (overwrite o bs p) ≡ take n p
unfolding overwrite
take-overwrite zero o bs p h = refl
take-overwrite (suc n) zero bs p h = absurd (omega arith)
take-overwrite (suc n) (suc o) bs [] h = refl
take-overwrite (suc n) (suc o) bs (x ∷ p) h = ap (◌∷◌ x) (take-overwrite n o bs p (omega arith))

drop-overwrite : (m o : ℕ) (bs p : Bytes) → o + length bs ≤ m → drop m (overwrite o bs p) ≡ drop m p
unfolding overwrite
drop-overwrite m zero [] p h = refl
drop-overwrite m zero (b ∷ bs) [] h = refl
drop-overwrite zero zero (b ∷ bs) (x ∷ p) h = absurd (omega arith)
drop-overwrite (suc m) zero (b ∷ bs) (x ∷ p) h = drop-overwrite m zero bs p (omega arith)
drop-overwrite m (suc o) bs [] h = refl
drop-overwrite zero (suc o) bs (x ∷ p) h = absurd (omega arith)
drop-overwrite (suc m) (suc o) bs (x ∷ p) h = drop-overwrite m o bs p (omega arith)

slice-overwrite_before :
    (m n o : ℕ) (bs p : Bytes) → m + n ≤ o → slice m n (overwrite o bs p) ≡ slice m n p
unfolding overwrite
slice-overwrite_before zero n o bs p h = take-overwrite n o bs p (omega arith)
slice-overwrite_before (suc m) n zero bs p h = absurd (omega arith)
slice-overwrite_before (suc m) n (suc o) bs [] h = refl
slice-overwrite_before (suc m) n (suc o) bs (x ∷ p) h =
    slice-overwrite_before m n o bs p (omega arith)

pub slice-overwrite_disjoint :
    (m n o : ℕ) (bs p : Bytes)
    → (m + n ≤ o) ⊎ (o + length bs ≤ m)
    → slice m n (overwrite o bs p) ≡ slice m n p
slice-overwrite_disjoint m n o bs p (inl h) = slice-overwrite_before m n o bs p h
slice-overwrite_disjoint m n o bs p (inr h) = ap (take n) (drop-overwrite m o bs p h)

pub length-u32_bytes : (n : ℕ) → length (u32_bytes n) ≡ 4
unfolding u32_bytes
length-u32_bytes n = refl

pub bytes_u32-u32_bytes : (n : ℕ) → n < u32_mod → bytes_u32 (u32_bytes n) ≡ n
unfolding bytes_u32 u32_bytes
bytes_u32-u32_bytes n h = omega arith

pub to_u32-lt : (v : ℤ) → to_u32 v < u32_mod
unfolding to_u32
to_u32-lt v = ground arith

-- The range of an `int32_t`.
abbrev pub IsInt32 : ℤ → Type 0
IsInt32 v = (negsuc 2147483647 ≤ℤ v) × (v ≤ℤ pos 2147483647)

pub to_i32-to_u32 : (v : ℤ) → IsInt32 v → to_i32 (to_u32 v) ≡ v
unfolding to_i32 to_u32
to_i32-to_u32 v h = ground arith

pub length-strncpy : (v : Bytes) (n : ℕ) → length (strncpy v n) ≡ n
unfolding strncpy
length-strncpy [] zero = refl
length-strncpy (c ∷ v) zero = refl
length-strncpy [] (suc n) = ap suc (length-strncpy [] n)
length-strncpy (c ∷ v) (suc n) = ground (arith, length-strncpy [] n, length-strncpy v n)

-- `strncpy` keeps a value that holds no NUL and fits, and pads it with zeros.
pub strncpy-pad :
    (v : Bytes) (n : ℕ)
    → All (λ c. 0 < c) v
    → length v ≤ n
    → strncpy v n ≡ v ++ replicate (n - length v) 0
unfolding strncpy
strncpy-pad [] zero p h = refl
strncpy-pad (c ∷ v) zero p h = absurd (omega arith)
strncpy-pad [] (suc n) p h = ground (arith, strncpy-pad [] n)
strncpy-pad (c ∷ v) (suc n) p h = ground (arith, strncpy-pad v n)

module _ (schema : Schema) (id : ℕ) {c : ColumnDefinition}
    (found : schema_find_column_by_id schema id ≡ some c) where
  -- The accessors at a column that the schema has.
  pub get_int_at :
      (r : Record) → record_get_int r schema id ≡ to_i32 (bytes_u32 (slice c.offset 4 r.payload))
  unfolding record_get_int
  get_int_at r = rw (found, record_get_int)

  pub get_text_at : (r : Record) → record_get_text r schema id ≡ some (drop c.offset r.payload)
  unfolding record_get_text
  get_text_at r = rw (found, record_get_text)

  pub set_int_at :
      (r : Record) (v : ℤ)
      → (record_set_int r schema id v).payload ≡ overwrite c.offset (u32_bytes (to_u32 v)) r.payload
  unfolding record_set_int
  set_int_at r v = rw (found, record_set_int)

  pub set_text_at :
      (r : Record) (v : Bytes)
      → (record_set_text r schema id v).payload ≡ overwrite c.offset (strncpy v c.size) r.payload
  unfolding record_set_text
  set_text_at r v = rw (found, record_set_text)

  -- An `int32_t` stored in a column with four bytes inside the row is read back.
  pub record_get_int-record_set_int :
      (r : Record) (v : ℤ)
      → IsInt32 v
      → c.offset + 4 ≤ length r.payload
      → record_get_int (record_set_int r schema id v) schema id ≡ v
  record_get_int-record_set_int r v range fits =
      get_int_at (record_set_int r schema id v)
      ∙ ap (λ p. to_i32 (bytes_u32 (slice c.offset 4 p))) (set_int_at r v)
      ∙ ap (λ b. to_i32 (bytes_u32 b)) (slice_written (to_u32 v))
      ∙ ap to_i32 (bytes_u32-u32_bytes (to_u32 v) (to_u32-lt v))
      ∙ to_i32-to_u32 v range
    where
      slice_written :
          (n : ℕ) → slice c.offset 4 (overwrite c.offset (u32_bytes n) r.payload) ≡ u32_bytes n
      slice_written n =
          rw (length-u32_bytes n) at
            (slice-overwrite_self c.offset (u32_bytes n) r.payload (rw (length-u32_bytes n) fits))
