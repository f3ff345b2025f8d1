-- ===== src/Arithmetic/Keeps.antt =====
-- The arithmetic leaves the saved stacks alone.
use joy.Prelude.{ℕ, Bool}
use joy.Prelude.Int.{ℤ}
use joy.Syntax.{Factor}
use joy.Machine.{M}
use joy.Machine.Host.{Host}
use joy.Machine.Keeps.{Keeps}
use joy.Machine.KeepsChecks.{check_rules}
use joy.Syntax.Ops.{ArithmeticOp}
use joy.Arithmetic.{
  run, or_float, on_nums, or_trap, ufloat, integer_or_float, div, abs, neg, sign, divide, rem, mul,
  plusminus, maxmin, predsucc,
}

Keeps-or_float :
    (host : Host) (oper : ℕ → ℕ → ℕ) (m : M (Unit {0})) → Keeps m → Keeps (or_float host oper m)
unfolding or_float
Keeps-or_float host oper m km = search check_rules depth 40

Keeps-on_nums : (k : ℤ → ℤ → M (Unit {0})) → ((b a : ℤ) → Keeps (k b a)) → Keeps (on_nums k)
unfolding on_nums
Keeps-on_nums k kk = search check_rules depth 40

Keeps-or_trap : (b a : ℤ) (m : M (Unit {0})) → Keeps m → Keeps (or_trap b a m)
unfolding or_trap
Keeps-or_trap b a m km = search check_rules depth 40

Keeps-ufloat : (host : Host) (func : ℕ → Factor) → Keeps (ufloat host func)
unfolding ufloat
Keeps-ufloat host func = search check_rules depth 40

Keeps-integer_or_float :
    (host : Host) (on_integer : ℤ → M (Unit {0})) (oper : ℕ → ℕ)
    → ((z : ℤ) → Keeps (on_integer z))
    → Keeps (integer_or_float host on_integer oper)
unfolding integer_or_float
Keeps-integer_or_float host on_integer oper k = search check_rules depth 40

ruleset arithmetic_rules = (
  check_rules, Keeps-or_float, Keeps-on_nums, Keeps-or_trap, Keeps-ufloat, Keeps-integer_or_float,
)

pub Keeps-div : Keeps div
unfolding div
Keeps-div = search (arithmetic_rules) depth 40

pub Keeps-abs : (host : Host) → Keeps (abs host)
unfolding abs
Keeps-abs host = search (arithmetic_rules) depth 40

pub Keeps-neg : (host : Host) → Keeps (neg host)
unfolding neg
Keeps-neg host = search (arithmetic_rules) depth 40

pub Keeps-sign : (host : Host) → Keeps (sign host)
unfolding sign
Keeps-sign host = search (arithmetic_rules) depth 40

pub Keeps-divide : (host : Host) → Keeps (divide host)
unfolding divide
Keeps-divide host = search (arithmetic_rules) depth 40

pub Keeps-rem : (host : Host) → Keeps (rem host)
unfolding rem
Keeps-rem host = search (arithmetic_rules) depth 40

pub Keeps-mul : (host : Host) → Keeps (mul host)
unfolding mul
Keeps-mul host = search (arithmetic_rules) depth 40

Keeps-plusminus : (host : Host) (f : ℕ → ℕ → ℕ) (g : ℤ → ℤ → ℤ) → Keeps (plusminus host f g)
unfolding plusminus
Keeps-plusminus host f g = search arithmetic_rules depth 40

Keeps-maxmin : (host : Host) (f : ℕ → ℕ → Bool) (g : ℤ → ℤ → Bool) → Keeps (maxmin host f g)
unfolding maxmin
Keeps-maxmin host f g = search arithmetic_rules depth 40

Keeps-predsucc : (g : ℤ → ℤ) → Keeps (predsucc g)
unfolding predsucc
Keeps-predsucc g = search arithmetic_rules depth 40

ruleset operator_rules = (
  Keeps-ufloat, Keeps-div, Keeps-abs, Keeps-neg, Keeps-sign, Keeps-divide, Keeps-rem, Keeps-mul,
  Keeps-plusminus, Keeps-maxmin, Keeps-predsucc,
)

pub Keeps-run : (host : Host) (op : ArithmeticOp) → Keeps (run host op)
unfolding run
Keeps-run host ArithmeticOp.abs = search operator_rules depth 40
Keeps-run host _ = search operator_rules depth 40
