-- ===== src/Interp/Straight.antt =====
-- Programs of literals and stack operators: they always end, and what they do is the composition of
-- what their factors do.
use mathlib.Core.Path.{subst}
use joy.Prelude.{false, sym, ℕ, suc, ◌≡◌, refl, ap, List, [], ◌∷◌, Option, none, some}
use joy.Prelude.Int.{ℤ}
use joy.Syntax.{Factor, Term, nil, ◌⊳◌, boolean, char, float, integer, string, list, anon_funct}
use joy.Syntax.Ops.{StackOp, stacks}
use joy.Machine.{Env, Error, Outcome, ok, error, and_then}
use joy.Machine.Host.{Host}
use joy.Machine.Macros.{macros}
use joy.Stacks.Effect.{effect, Yields, run-effect}
use joy.Combinators.Reads.{on}
use joy.Interp.{is_bad, exec_term, exec_nodes, exec_factor, call}

pub data Item : Type 0 where
  number : ℤ → Item
  character : ℤ → Item
  truth : ℤ → Item
  members : ℕ → Item
  double : ℕ → Item
  text : List ℕ → Item
  quotation : Term → Item
  operator : StackOp → Item

abbrev factor : Item → Factor
factor (number z) = integer z
factor (character c) = char c
factor (truth b) = boolean b
factor (members s) = Factor.set s
factor (double d) = float d
factor (text s) = string s
factor (quotation t) = list t
factor (operator op) = anon_funct (stacks op)

factor-valid : (x : Item) → is_bad (factor x) ≡ false
factor-valid (number z) = refl
factor-valid (character c) = refl
factor-valid (truth b) = refl
factor-valid (members s) = refl
factor-valid (double d) = refl
factor-valid (text s) = refl
factor-valid (quotation t) = refl
factor-valid (operator op) = refl

abbrev pub program : List Item → Term
program [] = nil
program (x ∷ items) = factor x ⊳ program items

-- The stack that one factor leaves, and the stack that a program leaves; `none` where an operator
-- misses its parameters.
abbrev one : Item → Term → Option Term
one (operator op) s = effect op s
one x s = some (factor x ⊳ s)

abbrev next : Option Term → (Term → Option Term) → Option Term
next none k = none
next (some s) k = k s

abbrev pub effects : List Item → Term → Option Term
effects [] s = some s
effects (x ∷ items) s = next (one x s) (effects items)

-- The run returns with that stack and all else as it was, or it reports an error.
abbrev pub Ends : Env → Option Term → Outcome (Unit {0}) → Type 0
Ends e (some s) r = r ≡ ok tt (on e s)
Ends e none r = (x : Error) × (e' : Env) × r ≡ error x e'

same-Ends :
    (e : Env) (s : Term) (o : Option Term) (r : Outcome (Unit {0})) → Ends (on e s) o r → Ends e o r
same-Ends e s none r h = h
same-Ends e s (some t) r h = h

module _ (host : Host) (k : ℕ) where
  step-Ends :
      (x : Item) (e : Env)
      → Yields e (one x e.stck) (exec_factor host k (exec_term host k) (factor x) e)
  unfolding exec_factor call macros
  step-Ends (number z) e = refl
  step-Ends (character c) e = refl
  step-Ends (truth b) e = refl
  step-Ends (members s) e = refl
  step-Ends (double d) e = refl
  step-Ends (text s) e = refl
  step-Ends (quotation t) e = refl
  step-Ends (operator op) e = run-effect op e

  nodes-Ends :
      (items : List Item) (e : Env)
      → Ends e
          (effects items e.stck)
          (exec_nodes (exec_factor host k (exec_term host k)) (program items) e)
  unfolding exec_nodes macros
  nodes-Ends [] e = refl
  nodes-Ends (x ∷ items) e = rw (factor-valid x) (
      further (one x e.stck) (exec_factor host k (exec_term host k) (factor x) e)
        (λ s. nodes-Ends items (on e s)) (step-Ends x e))
    where
      further :
          (o : Option Term) (r : Outcome (Unit {0}))
          → ((s : Term)
              → Ends
                  (on e s)
                  (effects items s)
                  (exec_nodes (exec_factor host k (exec_term host k)) (program items) (on e s)))
          → Yields e o r
          → Ends e
              (next o (effects items))
              (and_then r (λ _. exec_nodes (exec_factor host k (exec_term host k)) (program items)))
      further none r rest (y, h) = (
        y,
        e,
        ap
            (λ r'.
              and_then r' (λ _. exec_nodes (exec_factor host k (exec_term host k)) (program items)))
            h,
      )
      further (some s) r rest h =
          subst
            (λ r'. Ends e (effects items s) (
              and_then r'
                (λ _. exec_nodes (exec_factor host k (exec_term host k)) (program items))))
            (sym h) (same-Ends e s (effects items s) _ (rest s))

  -- A program of literals (integers, characters, truth values, sets, floats, strings and quotations) and
  -- of operators of stacks.c ends at every depth but 0: it returns with the
  -- stack that the composition of their effects gives, with all else as it was, or it reports an error
  -- where that composition finds a parameter missing.
  pub program-Ends :
      (items : List Item) (e : Env)
      → Ends e (effects items e.stck) (exec_term host (suc k) (program items) e)
  unfolding exec_term
  program-Ends items e = nodes-Ends items e
