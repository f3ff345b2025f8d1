-- ===== src/Bits.antt =====
-- Masks of bits, as the C operators `&`, `|`, `^`, `~` and `<<` make them: `test i a` is bit i of a.
-- An operator works digit by digit on the low `w` bits of its operands.
pub mod Laws
use joy.Prelude.{
  ℕ, zero, suc, ◌+◌, ◌*◌, ◌/◌, ◌%◌, ◌^◌, Bool, true, false, not, ◌&&◌, ◌||◌, if◌then◌else◌, ◌==◌,
}

abbrev pub is_odd : ℕ → Bool
is_odd a = a % 2 == 1

abbrev pub digit : Bool → ℕ
digit b = if b then 1 else 0

unfoldable pub test : ℕ → ℕ → Bool
test zero a = is_odd a
test (suc i) a = test i (a / 2)

unfoldable pub bitwise : (Bool → Bool → Bool) → ℕ → ℕ → ℕ → ℕ
bitwise f zero a b = 0
bitwise f (suc w) a b = 2 * bitwise f w (a / 2) (b / 2) + digit (f (is_odd a) (is_odd b))

abbrev pub xor : Bool → Bool → Bool
xor a b = if a then not b else b

abbrev pub without : Bool → Bool → Bool
without a b = a && not b

-- SETSIZE
abbrev pub setsize : ℕ
setsize = 64

unfoldable pub bit_and : ℕ → ℕ → ℕ
unfolding bitwise
bit_and = bitwise ◌&&◌ setsize

unfoldable pub bit_or : ℕ → ℕ → ℕ
unfolding bitwise
bit_or = bitwise ◌||◌ setsize

unfoldable pub bit_xor : ℕ → ℕ → ℕ
unfolding bitwise
bit_xor = bitwise xor setsize

-- a & ~b
unfoldable pub bit_clear : ℕ → ℕ → ℕ
unfolding bitwise
bit_clear = bitwise without setsize

-- ~a
unfoldable pub bit_not : ℕ → ℕ
unfolding bitwise
bit_not a = bitwise (λ x y. not x) setsize a 0

-- (int64_t)1 << i
unfoldable pub single : ℕ → ℕ
single i = 2 ^ i
