-- ===== src/Arithmetic/Exact.antt =====
-- Sums, differences and products that fit are exact, and those that do not wrap round.
use joy.Prelude.{◌≡◌, refl, ap, arith}
use joy.Prelude.Int.{ℤ, pos, negsuc, ◌+ℤ◌, ◌-ℤ◌}
use joy.Word.{int64}
use joy.Word.Wrap.{IsInt64}
use joy.Syntax.{Term, ◌⊳◌, integer}
use joy.Syntax.Ops.{ArithmeticOp}
use joy.Machine.{Env, ok}
use joy.Machine.Host.{Host}
use joy.Combinators.Reads.{on}
use joy.Arithmetic.{arithmetic_code, run}

wrap-back : (b a : ℤ) → IsInt64 b → IsInt64 a → int64 (int64 (b +ℤ a) -ℤ a) ≡ b
unfolding int64 ◌+ℤ◌ ◌-ℤ◌
wrap-back (pos b) (pos a) p q = ground arith
wrap-back (pos b) (negsuc a) p q = ground arith
wrap-back (negsuc b) (pos a) p q = ground arith
wrap-back (negsuc b) (negsuc a) p q = ground arith

-- On two integers of 64 bits `+` and then `-` of the same operand give the first operand back, also
-- where the sum wraps round.
pub plus-minus :
    (host : Host) (e : Env) (a b : ℤ) (s : Term)
    → IsInt64 b
    → IsInt64 a
    → run host ArithmeticOp.plus (on e (integer a ⊳ integer b ⊳ s))
        ≡ ok tt (on e (integer (int64 (b +ℤ a)) ⊳ s))
      × run host ArithmeticOp.minus (on e (integer a ⊳ integer (int64 (b +ℤ a)) ⊳ s))
        ≡ ok tt (on e (integer b ⊳ s))
unfolding arithmetic_code
plus-minus host e a b s p q = (refl, ap (λ z. ok tt (on e (integer z ⊳ s))) (wrap-back b a p q))
