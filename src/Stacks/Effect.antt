-- ===== src/Stacks/Effect.antt =====
-- What the operators of stacks.c do to the stack, as their documentation writes it.
use Prim.Native.Nat.{min}
use native.Mathlib.Numerals.{unary_clauses}
use joy.Prelude.{ℕ, zero, suc, ◌≡◌, refl, Option, none, some}
use joy.Prelude.Int.{pos_part}
use joy.Word.{int32}
use joy.Syntax.{Factor, node, Term, nil, ◌⊳◌, integer, list}
use joy.Syntax.Ops.{StackOp}
use joy.Machine.{Env, Error, Outcome, ok, error}
use joy.Stacks.{stacks_code, nth_or_last, run}

-- Item `k` of a stack, or its last where there are fewer.
abbrev pub depth : Term → ℕ
depth nil = 0
depth (_ ⊳ t) = suc (depth t)

abbrev pub below : ℕ → Term → Term
below zero t = t
below (suc k) nil = nil
below (suc k) (_ ⊳ t) = below k t

pub nth_or_last-below :
    (k : ℕ) (a : Factor) (t : Term) → nth_or_last k (a ⊳ t) ≡ below (min k (depth t)) (a ⊳ t)
unfolding nth_or_last
nth_or_last-below zero a nil = refl
nth_or_last-below zero a (b ⊳ t) = simp unary_clauses
nth_or_last-below (suc k) a nil = simp unary_clauses
nth_or_last-below (suc k) a (b ⊳ t) = simp unary_clauses (nth_or_last-below k b t)

-- `pick` takes an integer, `unstack` a list.
abbrev picked : Factor → Term → Option Term
picked (integer n) nil = none
picked (integer n) (a ⊳ t) =
    some (node (below (min (pos_part (int32 n)) (depth t)) (a ⊳ t)) ⊳ a ⊳ t)
picked _ _ = none

abbrev elements : Factor → Option Term
elements (list t) = some t
elements _ = none

-- The stack that an operator leaves, the top first; `none` where its parameters are missing.
abbrev pub effect : StackOp → Term → Option Term
effect StackOp.dup (a ⊳ t) = some (a ⊳ a ⊳ t)
effect StackOp.dupd (a ⊳ b ⊳ t) = some (a ⊳ b ⊳ b ⊳ t)
effect StackOp.id t = some t
effect StackOp.over (a ⊳ b ⊳ t) = some (b ⊳ a ⊳ b ⊳ t)
effect StackOp.pick (f ⊳ a ⊳ b ⊳ c ⊳ t) = picked f (a ⊳ b ⊳ c ⊳ t)
effect StackOp.pop (a ⊳ t) = some t
effect StackOp.popd (a ⊳ b ⊳ t) = some (a ⊳ t)
effect StackOp.rolldown (a ⊳ b ⊳ c ⊳ t) = some (c ⊳ a ⊳ b ⊳ t)
effect StackOp.rolldownd (a ⊳ b ⊳ c ⊳ d ⊳ t) = some (a ⊳ d ⊳ b ⊳ c ⊳ t)
effect StackOp.rollup (a ⊳ b ⊳ c ⊳ t) = some (b ⊳ c ⊳ a ⊳ t)
effect StackOp.rollupd (a ⊳ b ⊳ c ⊳ d ⊳ t) = some (a ⊳ c ⊳ d ⊳ b ⊳ t)
effect StackOp.rotate (a ⊳ b ⊳ c ⊳ t) = some (c ⊳ b ⊳ a ⊳ t)
effect StackOp.rotated (a ⊳ b ⊳ c ⊳ d ⊳ t) = some (a ⊳ d ⊳ c ⊳ b ⊳ t)
effect StackOp.stack t = some (list t ⊳ t)
effect StackOp.swap (a ⊳ b ⊳ t) = some (b ⊳ a ⊳ t)
effect StackOp.swapd (a ⊳ b ⊳ c ⊳ t) = some (a ⊳ c ⊳ b ⊳ t)
effect StackOp.unstack (f ⊳ _) = elements f
effect _ _ = none

-- A result is a new stack with all else kept, or an error that keeps the state.
abbrev pub Yields : Env → Option Term → Outcome (Unit {0}) → Type 0
Yields e (some t) r = r ≡ ok tt (record e { stck = t })
Yields e none r = (x : Error) × (r ≡ error x e)

run_at :
    (op : StackOp) (e : Env) (s : Term)
    → Yields (record e { stck = s }) (effect op s) (run op (record e { stck = s }))
unfolding stacks_code
run_at StackOp.dup e (a ⊳ t) = refl
run_at StackOp.dupd e (a ⊳ b ⊳ t) = refl
run_at StackOp.id e t = refl
run_at StackOp.over e (a ⊳ b ⊳ t) = refl
run_at StackOp.pick e (integer n ⊳ a ⊳ b ⊳ c ⊳ t) = rw nth_or_last-below
run_at StackOp.pick e (f ⊳ a ⊳ b ⊳ c ⊳ t) = (_, refl)
run_at StackOp.pop e (a ⊳ t) = refl
run_at StackOp.popd e (a ⊳ b ⊳ t) = refl
run_at StackOp.rolldown e (a ⊳ b ⊳ c ⊳ t) = refl
run_at StackOp.rolldownd e (a ⊳ b ⊳ c ⊳ d ⊳ t) = refl
run_at StackOp.rollup e (a ⊳ b ⊳ c ⊳ t) = refl
run_at StackOp.rollupd e (a ⊳ b ⊳ c ⊳ d ⊳ t) = refl
run_at StackOp.rotate e (a ⊳ b ⊳ c ⊳ t) = refl
run_at StackOp.rotated e (a ⊳ b ⊳ c ⊳ d ⊳ t) = refl
run_at StackOp.stack e t = refl
run_at StackOp.swap e (a ⊳ b ⊳ t) = refl
run_at StackOp.swapd e (a ⊳ b ⊳ c ⊳ t) = refl
run_at StackOp.unstack e (list t ⊳ _) = refl
run_at StackOp.unstack e (f ⊳ _) = (_, refl)
run_at _ e _ = (_, refl)

pub run-effect : (op : StackOp) (e : Env) → Yields e (effect op e.stck) (run op e)
run-effect op e = run_at op e e.stck
