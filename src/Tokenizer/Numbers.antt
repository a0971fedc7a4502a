-- ===== src/Tokenizer/Numbers.antt =====
-- Integer tokens: the value is the decimal value of the digits unless it is over INT64_MAX, which is
-- flagged, and the accumulation never overflows.
use mini_sql.Base.{
  ℕ, ◌+◌, ◌-◌, ◌*◌, ◌/◌, ◌≤◌, ◌<◌, ◌≡◌, refl, arith, true, false, [], ◌∷◌, ltb, if◌then◌else◌,
  Bool-cases, inl, inr, drop,
}
use mini_sql.Base.Bytes.{Bytes, head_byte}
use mini_sql.Token.{token_integer}
use mini_sql.Tokenizer.{
  is_digit, is_name_char, int64_max, Number, one_longer, read_digits, read_number,
}

-- The value of the digits at the front of `s`, behind digits of value `v`.
unfoldable pub decimal : ℕ → Bytes → ℕ
decimal v [] = v
decimal v (c ∷ s) = if is_digit c then decimal (v * 10 + (c - b'0')) s else v

le-decimal : (v : ℕ) (s : Bytes) → v ≤ decimal v s
unfolding decimal
le-decimal v [] = omega arith
le-decimal v (c ∷ s) = ground (arith, le-decimal (v * 10 + (c - b'0')) s)

-- Once the flag is set it stays.
read_digits_over : (s : Bytes) (v : ℕ) → (read_digits s v true).out_of_range ≡ true
unfolding read_digits
read_digits_over [] v = refl
read_digits_over (c ∷ s) v = ground (arith, read_digits_over s v)

-- What the loop returns from a value in range.
record IsValue (n : Number) (value : ℕ) : Type 0 where
  flag : n.out_of_range ≡ ltb int64_max value
  kept : (if n.out_of_range then 0 else n.value) ≡ (if ltb int64_max value then 0 else value)

digit-le : (c : ℕ) → is_digit c ≡ true → c - b'0' ≤ 9
unfolding is_digit
digit-le c h = ground arith

-- The overflow test is exact.
overflow_test : (v d : ℕ) → d ≤ 9 → ltb ((int64_max - d) / 10) v ≡ ltb int64_max (v * 10 + d)
overflow_test v d h = ground arith

over-IsValue :
    (n : Number) (value : ℕ) → n.out_of_range ≡ true → int64_max < value → IsValue n value
over-IsValue n value f h = ground arith

longer-IsValue : (n : Number) (value : ℕ) → IsValue n value → IsValue (one_longer n) value
longer-IsValue n value h = record { flag = h.flag; kept = h.kept }

read_digits-IsValue :
    (s : Bytes) (v : ℕ) → v ≤ int64_max → IsValue (read_digits s v false) (decimal v s)
unfolding decimal read_digits
read_digits-IsValue [] v h = ground arith
read_digits-IsValue (c ∷ s) v h = elim (Bool-cases (is_digit c)) [
  | inr other ↦ rw other (ground arith)
  | inl digit ↦ rw digit (
      rw (overflow_test v (c - b'0') (digit-le c digit))
        (elim (Bool-cases (ltb int64_max (v * 10 + (c - b'0')))) [
          | inl over ↦ rw over (
              longer-IsValue (read_digits s v true) _ (
                over-IsValue (read_digits s v true) _ (read_digits_over s v)
                  (ground (arith, le-decimal (v * 10 + (c - b'0')) s))))
          | inr fits ↦ rw fits (
              longer-IsValue (read_digits s (v * 10 + (c - b'0')) false) _
                (read_digits-IsValue s (v * 10 + (c - b'0')) (ground arith)))
        ]))
]

-- An integer token read at `s` is flagged out of range exactly when the decimal value of the digits
-- at the front of `s` is over INT64_MAX, and otherwise carries that value.
pub read_number_value :
    (s : Bytes)
    → (read_number s).type ≡ token_integer
    → ((read_number s).out_of_range ≡ ltb int64_max (decimal 0 s))
      × ((if (read_number s).out_of_range then 0 else (read_number s).integer)
          ≡ (if ltb int64_max (decimal 0 s) then 0 else decimal 0 s))
unfolding read_number
read_number_value s h =
    let n = read_digits-IsValue s 0 (omega arith) in
    elim (Bool-cases (is_name_char (head_byte (drop (read_digits s 0 false).length s)))) [
      | inl name ↦ absurd (ground arith)
      | inr plain_end ↦ rw plain_end (n.flag, n.kept)
    ]
