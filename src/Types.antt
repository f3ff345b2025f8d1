-- ===== src/Types.antt =====
-- The type tests of src/builtin/type.c (TYPE of src/builtin/builtin_macros.h) and `chr` and `ord` of
-- src/builtin/strings.c (ORDCHR).
pub mod Keeps
use joy.Prelude.{ℕ, Bool, not, ◌==◌}
use joy.Prelude.Int.{ℤ, pos}
use joy.Syntax.{Factor, boolean, char, integer, nodetype}
use joy.Syntax.Ops.{TypeOp}
use joy.Machine.{M, ◌>>=◌, ◌>>◌}
use joy.Machine.Macros.{get_stack, unary, one_param, num}
use joy.Machine.Checks.{numeric_type}
use joy.Comparison.{truth}

-- TYPE(PROCEDURE, NAME, REL, TYP)
unfoldable pub type_test : (ℕ → Bool) → M (Unit {0})
type_test rel = do one_param; s ← get_stack; unary (boolean (truth (rel (nodetype s))))

-- ORDCHR(PROCEDURE, NAME, RESULTTYP)
unfoldable pub ordchr : (ℤ → Factor) → M (Unit {0})
ordchr result = do one_param; numeric_type; z ← num (← get_stack); unary (result z)

unfoldable pub run : TypeOp → M (Unit {0})
run TypeOp.char = type_test (λ op. op == 5)
run TypeOp.chr = ordchr char
run TypeOp.file = type_test (λ op. op == 11)
run TypeOp.float = type_test (λ op. op == 10)
run TypeOp.integer = type_test (λ op. op == 6)
run TypeOp.leaf = type_test (λ op. not (op == 9))
run TypeOp.list = type_test (λ op. op == 9)
run TypeOp.logical = type_test (λ op. op == 4)
run TypeOp.ord = ordchr integer
run TypeOp.set = type_test (λ op. op == 7)
run TypeOp.string = type_test (λ op. op == 8)
run TypeOp.typeof = do one_param; s ← get_stack; unary (integer (pos (nodetype s)))
run TypeOp.user = type_test (λ op. op == 2)
