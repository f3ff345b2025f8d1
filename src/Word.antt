-- ===== src/Word.antt =====
-- Machine integers of the source: `int64_t` and `int` as integers in range, and the conversions to
-- and from their bit patterns. Conversions and overflow wrap round, as two's complement does.
pub mod Wrap
use joy.Prelude.{ℕ, suc, ◌+◌, ◌-◌, ◌%◌, ◌^◌, ◌<◌, ltb, if◌then◌else◌, arith}
use joy.Prelude.Int.{ℤ, pos, negsuc, ◌+ℤ◌, ◌-ℤ◌, ◌*ℤ◌}

-- The pattern of the low `w` bits; -(n + 1) is the complement of n.
abbrev pub to_bits : ℕ → ℤ → ℕ
to_bits w (pos n) = n % 2 ^ w
to_bits w (negsuc n) = 2 ^ w - 1 - n % 2 ^ w

-- The integer of `w + 1` bits that a pattern stands for: the top bit is the sign.
abbrev pub of_bits : ℕ → ℕ → ℤ
of_bits w b = if ltb b (2 ^ w) then pos b else negsuc (2 ^ suc w - 1 - b)

-- The value of an expression of type `int64_t`, and of a conversion to it.
unfoldable pub int64 : ℤ → ℤ
int64 z = of_bits 63 (to_bits 64 z)

-- A conversion to `int`.
unfoldable pub int32 : ℤ → ℤ
int32 z = of_bits 31 (to_bits 32 z)

-- A conversion to `char`, read as a byte, and of a (signed) `char` to an integer.
unfoldable pub byte : ℤ → ℕ
byte z = to_bits 8 z

unfoldable pub of_byte : ℕ → ℤ
of_byte b = of_bits 7 b

abbrev pub is_neg : ℤ → joy.Prelude.Bool
is_neg (pos _) = joy.Prelude.false
is_neg (negsuc _) = joy.Prelude.true
