-- ===== src/Arithmetic/Division.antt =====
-- The quotient and the remainder of the division operators.
use joy.Prelude.{
  ℕ, zero, suc, ◌+◌, ◌*◌, ◌/◌, ◌%◌, ◌<◌, ◌≡◌, refl, Bool, true, false, arith, ap, sym, ◌∙◌,
}
use joy.Prelude.Int.{ℤ, pos, negsuc, ◌+ℤ◌, ◌*ℤ◌}
use joy.Syntax.{Term, ◌⊳◌, integer}
use joy.Syntax.Ops.{ArithmeticOp}
use joy.Machine.{Env, ok}
use joy.Machine.Host.{Host}
use joy.Combinators.Reads.{on}
use joy.Compare.{is_zero}
use joy.Word.{is_neg}
use joy.Bits.{xor}
use joy.Arithmetic.{signed, quotient, remainder, magnitude, traps, arithmetic_code, run}

signed-sum :
    (n m : Bool) (q b r : ℕ) → signed (xor n m) q *ℤ signed m b +ℤ signed n r ≡ signed n (q * b + r)
unfolding ◌*ℤ◌ ◌+ℤ◌
signed-sum false false q b r = ground arith
signed-sum false true zero zero r = ground arith
signed-sum false true (suc q) zero r = ground arith
signed-sum false true zero (suc b) r = ground arith
signed-sum false true (suc q) (suc b) r = ground arith
signed-sum true false zero b zero = ground arith
signed-sum true false (suc q) b zero = ground arith
signed-sum true false zero b (suc r) = ground arith
signed-sum true false (suc q) b (suc r) = ground arith
signed-sum true true q zero zero = ground arith
signed-sum true true q (suc b) zero = ground arith
signed-sum true true q zero (suc r) = ground arith
signed-sum true true q (suc b) (suc r) = ground arith

signed-magnitude : (z : ℤ) → signed (is_neg z) (magnitude z) ≡ z
signed-magnitude (pos n) = refl
signed-magnitude (negsuc n) = refl

quotient-remainder : (b a : ℤ) → is_zero a ≡ false → quotient b a *ℤ a +ℤ remainder b a ≡ b
unfolding quotient remainder
quotient-remainder b a h =
    ap (λ z. quotient b a *ℤ z +ℤ remainder b a) (sym (signed-magnitude a))
    ∙ signed-sum (is_neg b) (is_neg a) (magnitude b / magnitude a) (magnitude a)
        (magnitude b % magnitude a)
    ∙ ap (signed (is_neg b)) (whole (magnitude a) (positive a h))
    ∙ signed-magnitude b
  where
    positive : (a : ℤ) → is_zero a ≡ false → 0 < magnitude a
    positive (pos n) h = ground arith
    positive (negsuc n) h = omega arith

    whole : (m : ℕ) → 0 < m → magnitude b / m * m + magnitude b % m ≡ magnitude b
    whole m h = omega arith

remainder-magnitude : (b a : ℤ) → is_zero a ≡ false → magnitude (remainder b a) < magnitude a
unfolding remainder
remainder-magnitude (pos n) (pos m) h = ground arith
remainder-magnitude (pos n) (negsuc m) h = ground arith
remainder-magnitude (negsuc n) (pos m) h = ground arith
remainder-magnitude (negsuc n) (negsuc m) h = ground arith

remainder_sign : (b a : ℤ) → signed (is_neg b) (magnitude (remainder b a)) ≡ remainder b a
unfolding remainder
remainder_sign b a = again (is_neg b) (magnitude b % magnitude a)
  where
    again : (n : Bool) (r : ℕ) → signed n (magnitude (signed n r)) ≡ signed n r
    again true zero = refl
    again true (suc r) = refl
    again false r = refl

-- Where the divisor is not 0 and the division does not trap, `div` replaces two integers by a quotient
-- and a remainder on top of it, for which the quotient times the divisor plus the remainder is the
-- dividend, the remainder is smaller than the divisor, and has the sign of the dividend if not 0.
pub div-remainder :
    (host : Host) (e : Env) (a b : ℤ) (s : Term)
    → is_zero a ≡ false
    → traps b a ≡ false
    → (q : ℤ) × (r : ℤ) × run host ArithmeticOp.div (on e (integer a ⊳ integer b ⊳ s))
        ≡ ok tt (on e (integer r ⊳ integer q ⊳ s))
      × q *ℤ a +ℤ r ≡ b
      × magnitude r < magnitude a
      × signed (is_neg b) (magnitude r) ≡ r
unfolding arithmetic_code
div-remainder host e a b s h k = (
  quotient b a,
  remainder b a,
  divided,
  quotient-remainder b a h,
  remainder-magnitude b a h,
  remainder_sign b a,
)
  where
    divided :
        run host ArithmeticOp.div (on e (integer a ⊳ integer b ⊳ s))
        ≡ ok tt (on e (integer (remainder b a) ⊳ integer (quotient b a) ⊳ s))
    divided = rw h (rw k refl)
