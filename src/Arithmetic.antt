-- ===== src/Arithmetic.antt =====
-- src/builtin/arithmetic.c, with FLOAT_I, FLOAT_P and FLOAT_U of include/runtime.h and PLUSMINUS,
-- MAXMIN, PREDSUCC and UFLOAT of src/builtin/builtin_macros.h. `int64_t` arithmetic that overflows
-- wraps round here; the two divisions that trap instead are undefined.
pub mod Division
pub mod Exact
pub mod Keeps
use joy.Prelude.{ℕ, zero, suc, ◌/◌, ◌%◌, Bool, true, false, not, ◌&&◌, ◌||◌, if◌then◌else◌, ◌==◌}
use joy.Prelude.Int.{ℤ, pos, negsuc, pos_part, neg_part, ◌+ℤ◌, ◌-ℤ◌, ◌*ℤ◌, ltb_ℤ}
use joy.Word.{int64, is_neg}
use joy.Bits.{xor}
use joy.Syntax.{Factor, Term, char, integer, float, nodetype, nextnode1}
use joy.Syntax.Ops.{ArithmeticOp}
use joy.Machine.{M, pure, undefined, ◌>>=◌, ◌>>◌}
use joy.Machine.Host.{Host}
use joy.Machine.Macros.{
  macros, get_stack, nullary, unary, binary, one_param, two_params, num, integer_top,
}
use joy.Machine.Checks.{
  checks, floatable2, floatval, same_types, two_integers, numeric_type, numeric2, float_top,
  check_zero, check_divisor,
}
use joy.Compare.{is_zero}

-- The absolute value, and the integer of a sign and an absolute value.
abbrev pub magnitude : ℤ → ℕ
magnitude (pos n) = n
magnitude (negsuc n) = suc n

abbrev pub signed : Bool → ℕ → ℤ
signed true zero = pos 0
signed true (suc n) = negsuc n
signed false n = pos n

-- `/` and `%` of C truncate towards zero.
unfoldable pub quotient : ℤ → ℤ → ℤ
quotient a b = signed (xor (is_neg a) (is_neg b)) (magnitude a / magnitude b)

unfoldable pub remainder : ℤ → ℤ → ℤ
remainder a b = signed (is_neg a) (magnitude a % magnitude b)

-- INT64_MIN / -1
abbrev pub traps : ℤ → ℤ → Bool
traps (negsuc n) (negsuc m) = n == 9223372036854775807 && m == 0
traps _ _ = false

-- FLOAT_I and FLOAT_P: the float result if one operand is a float and the other a float or an
-- integer, else what follows.
unfoldable pub or_float : Host → (ℕ → ℕ → ℕ) → M (Unit {0}) → M (Unit {0})
or_float host oper otherwise = do
  s ← get_stack
  if floatable2 s
      then (do b ← floatval host (nextnode1 s); a ← floatval host s; binary (float (oper b a)))
      else otherwise

-- The operands of a binary operator on `num`, the second first.
unfoldable pub on_nums : (ℤ → ℤ → M (Unit {0})) → M (Unit {0})
on_nums k = do s ← get_stack; b ← num (nextnode1 s); a ← num s; k b a

unfoldable pub or_trap : ℤ → ℤ → M (Unit {0}) → M (Unit {0})
or_trap b a m = if traps b a then undefined else m

-- UFLOAT(PROCEDURE, NAME, FUNC)
unfoldable pub ufloat : Host → (ℕ → Factor) → M (Unit {0})
ufloat host func = do one_param; float_top; d ← floatval host (← get_stack); unary (func d)

-- After FLOAT(NAME): the case of an integer, or FLOAT_U(OPER).
unfoldable pub integer_or_float : Host → (ℤ → M (Unit {0})) → (ℕ → ℕ) → M (Unit {0})
integer_or_float host on_integer oper = do
  one_param
  float_top
  s ← get_stack
  if nodetype s == 6
      then (do z ← num s; on_integer z)
      else (do d ← floatval host s; unary (float (oper d)))

unfoldable pub abs : Host → M (Unit {0})
abs host =
    integer_or_float host (λ z. if is_neg z then unary (integer (int64 (pos 0 -ℤ z))) else pure tt)
      host.fabs

unfoldable pub neg : Host → M (Unit {0})
neg host =
    integer_or_float host (λ z. if is_zero z then pure tt else unary (integer (int64 (pos 0 -ℤ z))))
      host.float_neg

abbrev pub sign_of_float : Host → ℕ → ℕ
sign_of_float host d =
    if host.float_lt (host.float_of (pos 0)) d
    then host.float_of (pos 1)
    else if host.float_lt d (host.float_of (pos 0))
    then host.float_of (negsuc 0)
    else host.float_of (pos 0)

unfoldable pub sign : Host → M (Unit {0})
sign host =
    integer_or_float host
      (λ z.
        if is_zero z || is_zero (z -ℤ pos 1)
        then pure tt
        else unary (integer (if ltb_ℤ (pos 0) z then pos 1 else negsuc 0)))
      (sign_of_float host)

unfoldable pub div : M (Unit {0})
div = do
  two_params
  two_integers
  check_zero
  on_nums λ b a. or_trap b a do binary (integer (quotient b a)); nullary (integer (remainder b a))

unfoldable pub divide : Host → M (Unit {0})
divide host = do
  two_params
  check_divisor host
  or_float host host.float_div
      do two_integers; on_nums λ b a. or_trap b a (binary (integer (quotient b a)))

unfoldable pub rem : Host → M (Unit {0})
rem host = do
  two_params
  or_float host host.fmod
      do two_integers; check_zero; on_nums λ b a. or_trap b a (binary (integer (remainder b a)))

unfoldable pub mul : Host → M (Unit {0})
mul host = do
  two_params
  or_float host host.float_mul do two_integers; on_nums λ b a. binary (integer (int64 (b *ℤ a)))

-- PLUSMINUS(PROCEDURE, NAME, OPER): the result is a character if the second operand is one.
unfoldable pub plusminus : Host → (ℕ → ℕ → ℕ) → (ℤ → ℤ → ℤ) → M (Unit {0})
plusminus host oper_float oper = do
  two_params
  or_float host oper_float do
    integer_top
    numeric2
    s ← get_stack
    on_nums λ b a. binary (
        if nodetype (nextnode1 s) == 5 then char (int64 (oper b a)) else integer (int64 (oper b a)))

-- MAXMIN(PROCEDURE, NAME, OPER): `oper a b ? b : a`, with the top for a.
unfoldable pub maxmin : Host → (ℕ → ℕ → Bool) → (ℤ → ℤ → Bool) → M (Unit {0})
maxmin host oper_float oper = do
  two_params
  or_float host (λ b a. if oper_float a b then b else a)
      do
        same_types
        numeric_type
        s ← get_stack
        on_nums λ b a.
            let c = if oper a b then b else a in
            binary (if nodetype s == 5 then char c else integer c)

-- PREDSUCC(PROCEDURE, NAME, OPER)
unfoldable pub predsucc : (ℤ → ℤ) → M (Unit {0})
predsucc oper = do
  one_param
  numeric_type
  s ← get_stack
  z ← num s
  unary (if nodetype s == 5 then char (int64 (oper z)) else integer (int64 (oper z)))

unfoldable pub run : Host → ArithmeticOp → M (Unit {0})
run host ArithmeticOp.abs = abs host
run host ArithmeticOp.ceil = ufloat host (λ d. float (host.ceil d))
run host ArithmeticOp.trunc = ufloat host (λ d. integer (host.trunc d))
run host ArithmeticOp.div = div
run host ArithmeticOp.divide = divide host
run host ArithmeticOp.floor = ufloat host (λ d. float (host.floor d))
run host ArithmeticOp.max = maxmin host host.float_lt ltb_ℤ
run host ArithmeticOp.min = maxmin host (λ a b. host.float_lt b a) (λ a b. ltb_ℤ b a)
run host ArithmeticOp.minus = plusminus host host.float_sub ◌-ℤ◌
run host ArithmeticOp.mul = mul host
run host ArithmeticOp.neg = neg host
run host ArithmeticOp.plus = plusminus host host.float_add ◌+ℤ◌
run host ArithmeticOp.pred = predsucc (λ z. z -ℤ pos 1)
run host ArithmeticOp.rem = rem host
run host ArithmeticOp.round = ufloat host (λ d. float (host.round d))
run host ArithmeticOp.sign = sign host
run host ArithmeticOp.succ = predsucc (λ z. z +ℤ pos 1)

-- The operators open on the `unfolding` line of what names this.
unfoldable pub arithmetic_code : Unit {0}
unfolding macros checks or_float on_nums or_trap ufloat integer_or_float abs neg sign div divide rem
    mul plusminus maxmin predsucc run
arithmetic_code = tt
