-- ===== src/Bits/Laws.antt =====
-- A bit of a result is the operator at the two bits, and a mask is determined by its bits.
use native.Mathlib.Nat.{pow-suc, one-le-pow}
use joy.Prelude.{
  ℕ, zero, suc, ◌+◌, ◌*◌, ◌/◌, ◌%◌, ◌^◌, ◌<◌, ◌≡◌, refl, Bool, true, false, ◌==◌, arith,
}
use joy.Bits.{test, bitwise, is_odd, digit, single}

pub test-bitwise :
    (f : Bool → Bool → Bool) (w i a b : ℕ)
    → i < w
    → test i (bitwise f w a b) ≡ f (test i a) (test i b)
unfolding test bitwise
test-bitwise f zero i a b h = absurd (omega arith)
test-bitwise f (suc w) zero a b h = low (f (is_odd a) (is_odd b))
  where
    low : (d : Bool) → is_odd (2 * bitwise f w (a / 2) (b / 2) + digit d) ≡ d
    low true = ground arith
    low false = ground arith
test-bitwise f (suc w) (suc i) a b h = rw high (test-bitwise f w i (a / 2) (b / 2) (omega arith))
  where
    half : (d : Bool) (n : ℕ) → (2 * n + digit d) / 2 ≡ n
    half true n = omega arith
    half false n = omega arith

    high :
        (2 * bitwise f w (a / 2) (b / 2) + digit (f (is_odd a) (is_odd b))) / 2
        ≡ bitwise f w (a / 2) (b / 2)
    high = half (f (is_odd a) (is_odd b)) (bitwise f w (a / 2) (b / 2))

pub bitwise-lt : (f : Bool → Bool → Bool) (w a b : ℕ) → bitwise f w a b < 2 ^ w
unfolding bitwise
bitwise-lt f zero a b = omega arith
bitwise-lt f (suc w) a b =
    step (f (is_odd a) (is_odd b)) (bitwise f w (a / 2) (b / 2)) (bitwise-lt f w (a / 2) (b / 2))
  where
    step : (d : Bool) (n : ℕ) → n < 2 ^ w → 2 * n + digit d < 2 ^ suc w
    step true n h = omega (arith, pow-suc 2 w)
    step false n h = omega (arith, pow-suc 2 w)

pub test-zero : (i : ℕ) → test i 0 ≡ false
unfolding test
test-zero zero = refl
test-zero (suc i) = test-zero i

half-single : (i : ℕ) → single (suc i) / 2 ≡ single i
unfolding single
half-single i = omega (arith, pow-suc 2 i)

-- `1 << i` has the bit i and no other.
pub test-single : (i j : ℕ) → test j (single i) ≡ (i == j)
unfolding test
test-single zero zero = unfold single in refl
test-single zero (suc j) = unfold single in ground (arith, test-zero j)
test-single (suc i) zero = ground (arith, even i)
  where
    even : (k : ℕ) → single (suc k) % 2 ≡ 0
    even k = unfold single in omega (arith, pow-suc 2 k)
test-single (suc i) (suc j) = rw half-single (ground (arith, test-single i j))

pub single-lt : (w i : ℕ) → i < w → single i < 2 ^ w
unfolding single
single-lt zero i h = absurd (omega arith)
single-lt (suc w) zero h = omega (arith, pow-suc 2 w, one-le-pow w 2)
single-lt (suc w) (suc i) h = omega (arith, pow-suc 2 w, pow-suc 2 i, single-lt w i (omega arith))

-- Two masks of `w` bits with the same bits are equal.
pub eq_of_tests :
    (w a b : ℕ) → a < 2 ^ w → b < 2 ^ w → ((i : ℕ) → i < w → test i a ≡ test i b) → a ≡ b
unfolding test
eq_of_tests zero a b p q h = omega arith
eq_of_tests (suc w) a b p q h = ground (
  arith,
  h 0 (omega arith),
  eq_of_tests w (a / 2) (b / 2) (omega (arith, pow-suc 2 w)) (omega (arith, pow-suc 2 w))
      (λ i l. h (suc i) (omega arith)),
)
