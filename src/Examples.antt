-- ===== src/Examples.antt =====
-- A host whose floats are not used, a state and some programs, at which the theorems apply.
pub mod Programs
pub mod Operators
pub mod Scopes
pub mod Nodes
pub mod Texts
use joy.Word.{int64}
use joy.Sets
use joy.Arithmetic
use joy.Comparison
use joy.Prelude.{
  not, ◌||◌, ◌↔◌, ℕ, zero, suc, Bool, true, false, List, [], ◌∷◌, ◌≡◌, ◌<◌, ◌≤◌, ◌==◌, refl, some,
  arith, ltb,
}
use joy.Prelude.Int.{◌*ℤ◌, ◌+ℤ◌, ℤ, pos, negsuc, ltb_ℤ}
use joy.Bits.{test}
use joy.Syntax.{
  nextnode1, illegal, float, file, bignum, vector, dict, matrix, Factor, Term, nil, ◌⊳◌, integer,
  boolean, char, set, string, list, usr, anon_funct, append,
}
use joy.Syntax.Ops.{
  StackOp, ArithmeticOp, ComparisonOp, SetOp, Combinator, stacks, arithmetic, comparison,
  combinator,
}
use joy.Machine.{Env, Entry, ok, M, ◌>>◌}
use joy.Machine.Host.{Host}
use joy.Machine.Keeps.{Keeps}
use joy.Machine.Macros.{one_param}
use joy.Combinators.Reads.{on}
use joy.Combinators.Members.{members}
use joy.Combinators.Control.{ifte}
use joy.Combinators.Nary.{dip, n_ary}
use joy.Combinators.Loops.{step, times, map, filter}
use joy.Combinators.Branching.{dip_lem, ifte_lem, nullary_lem}
use joy.Combinators.Iteration.{step_lem, times_lem, map_lem, filter_lem}
use joy.Interp.{exec_term, interp_code}
use joy.Interp.Saved.{exec_term-Keeps}
use joy.Interp.Variables.{assign-exec}
use joy.Aggregate.Variables.{assign}
use joy.Stacks.Effect.{run-effect, Yields}
use joy.Arithmetic.Division.{div-remainder}
use joy.Arithmetic.Exact.{plus-minus}
use joy.Stacks
use joy.Compare
use joy.Arithmetic.{arithmetic_code, magnitude, signed}
use joy.Sets.Members.{set_operators, in-cons}
use joy.Comparison.Relations.{Decides, IsSubset, relations_lem, leql-sets}
use joy.Comparison.{comparison_code, truth}
use joy.Compare.Order.{opposite, compare-strings}
use joy.Aggregate.{aggregate_code, cons, uncons, take, drop, at}
use joy.Aggregate.Uncons.{uncons-cons}
use joy.Aggregate.Bounds.{take-drop, at_lem, at_wraps}

abbrev pub plain_host : Host
plain_host = record {
  nickname = λ f. [];
  dict_is_empty = λ d. true;
  float_of = λ z. 0;
  trunc = λ d. pos 0;
  float_lt = λ c d. false;
  float_is_zero = λ d. d == 0;
  float_add = λ c d. 0;
  float_sub = λ c d. 0;
  float_mul = λ c d. 0;
  float_div = λ c d. 0;
  fmod = λ c d. 0;
  fabs = λ d. d;
  float_neg = λ d. d;
  ceil = λ d. d;
  floor = λ d. d;
  round = λ d. d;
  other = λ n e. ok tt e;
}

pub plain_other-Keeps : (n : ℕ) → Keeps (plain_host.other n)
plain_other-Keeps n = record { at = λ e. refl }

-- One user defined name, `x`, without a body.
abbrev pub x_entry : Entry
x_entry = record {
  name = 120 ∷ [];
  is_user = true;
  is_root = false;
  is_last = false;
  immediate = false;
  body = nil;
}

abbrev pub start : Env
start = record {
  stck = nil;
  dump = nil;
  symtab = x_entry ∷ [];
  undeferror = false;
  variable_busy = false;
}

abbrev pub exec : Term → M (Unit {0})
exec = exec_term plain_host 4

pub exec-Keeps : (t : Term) → Keeps (exec t)
exec-Keeps t = exec_term-Keeps plain_host plain_other-Keeps 4 t

abbrev pub num : ℕ → Factor
num n = integer (pos n)

-- dup *
abbrev pub square : Term
square = anon_funct (stacks StackOp.dup) ⊳ anon_funct (arithmetic ArithmeticOp.mul) ⊳ nil

-- 3 <
abbrev pub small : Term
small = num 3 ⊳ anon_funct (comparison ComparisonOp.less) ⊳ nil

abbrev pub plus : Term
plus = anon_funct (arithmetic ArithmeticOp.plus) ⊳ nil

-- The code that the runs below execute.
unfoldable pub run_code : Unit {0}
unfolding interp_code arithmetic_code comparison_code aggregate_code Stacks.stacks_code
    Compare.compare Compare.get_boolean joy.Word.int64 joy.Prelude.Int.◌*ℤ◌ joy.Prelude.Int.◌+ℤ◌
run_code = tt
