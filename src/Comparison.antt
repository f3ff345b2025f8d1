-- ===== src/Comparison.antt =====
-- src/builtin/comparison.c
pub mod Relations
pub mod Keeps
use joy.Prelude.{ℕ, Bool, true, false, not, ◌&&◌, ◌||◌, if◌then◌else◌, ◌==◌, List}
use joy.Prelude.Int.{ℤ, pos, negsuc, ltb_ℤ}
use joy.Word.{to_bits}
use joy.Bits.{bit_clear}
use joy.Syntax.{Factor, Term, nil, ◌⊳◌, anon_funct, boolean, integer, nodetype, nextnode1, node}
use joy.Syntax.Ops.{ComparisonOp, Builtin, Builtin-discrete}
use mathlib.Core.Logic.{ite}
use joy.Machine.{Entry, Env, ok, M, pure, undefined, ◌>>=◌, ◌>>◌}
use joy.Machine.Host.{Host}
use joy.Machine.Macros.{macros, get_stack, binary, two_params, num}
use joy.Compare.{is_zero, compare, equal_factor}

-- A truth value as the code pushes it.
abbrev pub truth : Bool → ℤ
truth b = if b then pos 1 else pos 0

unfoldable pub get_symtab : M (List Entry)
get_symtab e = ok e.symtab e

-- The tests `OPR 0`.
abbrev pub positive : ℤ → Bool
positive c = ltb_ℤ (pos 0) c

abbrev pub negative : ℤ → Bool
negative c = ltb_ℤ c (pos 0)

-- nodetype(X) == SET_
abbrev pub is_set : Term → Bool
is_set t = nodetype t == 7

-- !(j & ~i) and !(i & ~j)
abbrev pub subset : ℕ → ℕ → Bool
subset a b = bit_clear a b == 0

-- COMPREL(PROCEDURE, NAME, CONSTRUCTOR, OPR, SETCMP)
unfoldable pub comprel : Host → (ℤ → Bool) → (ℕ → ℕ → Bool) → M (Unit {0})
comprel host opr setcmp = do
  two_params
  s ← get_stack
  if is_set s || is_set (nextnode1 s)
      then (do
        i ← num (nextnode1 s)
        j ← num s
        binary (boolean (truth (setcmp (to_bits 64 i) (to_bits 64 j)))))
      else (do
        symtab ← get_symtab
        binary (boolean (truth (opr (compare host symtab (nextnode1 s) s)))))

-- COMPREL2(PROCEDURE, NAME, CONSTRUCTOR, OPR)
unfoldable pub comprel2 : Host → (ℤ → Factor) → M (Unit {0})
comprel2 host result = do
  two_params
  s ← get_stack
  symtab ← get_symtab
  binary (result (compare host symtab (nextnode1 s) s))

unfoldable pub equal : Host → M (Unit {0})
equal host = do
  two_params
  s ← get_stack
  symtab ← get_symtab
  binary (boolean (truth (equal_factor host symtab (node s) (node (nextnode1 s)))))

-- Two nodes for builtins have the same type if they are one builtin. The value of another node is
-- compared with the address of the builtin, and taken to differ from it.
unfoldable pub same_type : Term → Term → M Bool
same_type (anon_funct f ⊳ _) (anon_funct g ⊳ _) = pure (ite (Builtin-discrete f g) true false)
same_type (anon_funct f ⊳ _) _ = pure false
same_type s t = pure (nodetype s == nodetype t)

unfoldable pub sametype : M (Unit {0})
sametype = do
  two_params
  s ← get_stack
  same ← same_type s (nextnode1 s)
  binary (boolean (truth same))

unfoldable pub run : Host → ComparisonOp → M (Unit {0})
run host ComparisonOp.compare = comprel2 host integer
run host ComparisonOp.eql = comprel2 host (λ c. boolean (truth (is_zero c)))
run host ComparisonOp.equal = equal host
run host ComparisonOp.geql = comprel host (λ c. not (negative c)) (λ i j. subset j i)
run host ComparisonOp.greater = comprel host positive (λ i j. not (i == j) && subset j i)
run host ComparisonOp.leql = comprel host (λ c. not (positive c)) (λ i j. subset i j)
run host ComparisonOp.less = comprel host negative (λ i j. not (i == j) && subset i j)
run host ComparisonOp.neql = comprel2 host (λ c. boolean (truth (not (is_zero c))))
run host ComparisonOp.sametype = sametype

-- The operators open on the `unfolding` line of what names this.
unfoldable pub comparison_code : Unit {0}
unfolding macros get_symtab comprel comprel2 equal same_type sametype run
comparison_code = tt
