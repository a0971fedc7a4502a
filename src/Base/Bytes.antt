-- ===== src/Base/Bytes.antt =====
-- Strings of bytes. A C string is the list of its bytes before the terminating NUL, and a read at
-- or past the end yields that NUL.
use Prim.Native.Nat.{ℕ}
use Prim.Native.Char.{code}
use Prim.Native.String.{String}
use mathlib.Core.List.{List, [], ◌∷◌}

abbrev pub Bytes : Type 0
Bytes = List ℕ

-- The bytes of an ASCII literal.
abbrev pub codes : String → Bytes
codes String.[] = []
codes (String.◌∷◌ c s) = code c ∷ codes s

-- `*s`, and `s[1]`, of a NUL-terminated string.
abbrev pub head_byte : Bytes → ℕ
head_byte [] = 0
head_byte (c ∷ s) = c

abbrev pub second_byte : Bytes → ℕ
second_byte [] = 0
second_byte (c ∷ s) = head_byte s
