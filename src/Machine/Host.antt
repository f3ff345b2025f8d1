-- ===== src/Machine/Host.antt =====
-- What the modelled code calls and this library does not define: the floating-point unit, on the
-- 64-bit patterns of doubles, the generated table of names, the size of a hash table, and every
-- builtin that is not modelled. They are arguments of the definitions that use them.
use joy.Prelude.{ℕ, Bool, List}
use joy.Prelude.Int.{ℤ}
use joy.Syntax.Ops.{Builtin}
use joy.Machine.{M}

pub record Host : Type 0 where
  -- nickname(operindex(proc))
  pub nickname : Builtin → List ℕ
  pub dict_is_empty : ℕ → Bool
  -- (double)num, and (int64_t)dbl
  pub float_of : ℤ → ℕ
  pub trunc : ℕ → ℤ
  pub float_lt : ℕ → ℕ → Bool
  pub float_is_zero : ℕ → Bool
  pub float_add : ℕ → ℕ → ℕ
  pub float_sub : ℕ → ℕ → ℕ
  pub float_mul : ℕ → ℕ → ℕ
  pub float_div : ℕ → ℕ → ℕ
  pub fmod : ℕ → ℕ → ℕ
  pub fabs : ℕ → ℕ
  pub float_neg : ℕ → ℕ
  pub ceil : ℕ → ℕ
  pub floor : ℕ → ℕ
  pub round : ℕ → ℕ
  pub other : ℕ → M (Unit {0})
