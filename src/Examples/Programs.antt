-- ===== src/Examples/Programs.antt =====
-- The theorems on the evaluator and the combinators at concrete programs.
use joy.Word.{int64}
use joy.Prelude.{true, false, ◌≡◌, refl, arith, [], ◌∷◌}
use joy.Prelude.Int.{◌*ℤ◌, pos}
use joy.Syntax.{
  nextnode1, illegal, float, file, bignum, vector, dict, matrix, Factor, Term, nil, ◌⊳◌, integer,
  boolean, char, set, string, list, usr, anon_funct,
}
use joy.Syntax.Ops.{stacks, StackOp, ArithmeticOp, Combinator, arithmetic, combinator}
use joy.Machine.{Env, ok}
use joy.Machine.Keeps.{Keeps}
use joy.Machine.Macros.{one_param}
use joy.Combinators.Reads.{on}
use joy.Combinators.Members.{members}
use joy.Combinators.Control.{ifte}
use joy.Combinators.Nary.{dip, n_ary}
use joy.Combinators.Loops.{step, map, filter}
use joy.Combinators.Branching.{dip_lem, ifte_lem, nullary_lem}
use joy.Combinators.Iteration.{step_lem, map_lem, filter_lem}
use joy.Interp.{exec_term}
use joy.Interp.Saved.{exec_term-Keeps}
use joy.Interp.Straight.{number, operator, program-Ends}
use joy.Interp.Variables.{assign-exec}
use joy.Aggregate.Variables.{assign}
use joy.Stacks
use joy.Examples.{
  plain_host, plain_other-Keeps, x_entry, start, exec, exec-Keeps, num, square, small, plus,
  run_code,
}
use joy.Combinators.Loops.{someall, primrec}
use joy.Combinators.Let.{let_}
use joy.Combinators.Restore.{Returns, let-restores}
use joy.Combinators.Search.{someall_lem}
use joy.Combinators.Counting.{primrec_lem}

exec_term-Keeps_example :
    Keeps
      (exec_term plain_host 4 (num 2 ⊳ list square ⊳ anon_funct (combinator Combinator.dip) ⊳ nil))
exec_term-Keeps_example =
    exec_term-Keeps plain_host plain_other-Keeps 4
      (num 2 ⊳ list square ⊳ anon_funct (combinator Combinator.dip) ⊳ nil)

abbrev three_quotes : Term
three_quotes = list plus ⊳ list square ⊳ list small ⊳ num 2 ⊳ nil

ifte_lem_example : ifte plain_host exec (on start three_quotes) ≡ ok tt (on start (num 4 ⊳ nil))
unfolding run_code ifte
ifte_lem_example = ifte_lem plain_host exec exec-Keeps start small square plus (num 2 ⊳ nil)

dip_lem_example :
    dip exec (on start (list plus ⊳ num 9 ⊳ num 3 ⊳ num 4 ⊳ nil))
    ≡ ok tt (on start (num 9 ⊳ num 7 ⊳ nil))
unfolding run_code
dip_lem_example = dip_lem plain_host exec exec-Keeps start plus (num 9) (num 3 ⊳ num 4 ⊳ nil)

nullary_lem_example :
    n_ary exec one_param nextnode1 (on start (list plus ⊳ num 3 ⊳ num 4 ⊳ nil))
    ≡ ok tt (on start (num 7 ⊳ num 3 ⊳ num 4 ⊳ nil))
unfolding run_code
nullary_lem_example = nullary_lem plain_host exec exec-Keeps start plus (num 3 ⊳ num 4 ⊳ nil)

step_lem_example :
    step plain_host exec (on start (list plus ⊳ list (num 3 ⊳ num 4 ⊳ nil) ⊳ num 1 ⊳ nil))
    ≡ ok tt (on start (num 8 ⊳ nil))
unfolding run_code members
step_lem_example =
    step_lem plain_host exec exec-Keeps start plus (list (num 3 ⊳ num 4 ⊳ nil)) (num 1 ⊳ nil)
      (num 3 ⊳ num 4 ⊳ nil) refl

-- dup *, on integers
abbrev IsInteger : Factor → Type 0
IsInteger (integer z) = Unit {0}
IsInteger _ = ⊥

abbrev squared : Factor → Factor
squared (integer z) = integer (int64 (z *ℤ z))
squared f = f

square_lem :
    (x : Factor) (e : Env)
    → IsInteger x
    → exec square (on e (x ⊳ num 1 ⊳ nil)) ≡ ok tt (on e (squared x ⊳ num 1 ⊳ nil))
unfolding run_code
square_lem (integer z) e h = refl
square_lem illegal e h = absurd h
square_lem (usr _) e h = absurd h
square_lem (anon_funct _) e h = absurd h
square_lem (boolean _) e h = absurd h
square_lem (char _) e h = absurd h
square_lem (set _) e h = absurd h
square_lem (string _) e h = absurd h
square_lem (list _) e h = absurd h
square_lem (float _) e h = absurd h
square_lem (file _) e h = absurd h
square_lem (bignum _) e h = absurd h
square_lem (vector _) e h = absurd h
square_lem (dict _) e h = absurd h
square_lem (matrix _) e h = absurd h

map_lem_example :
    map plain_host exec (on start (list square ⊳ list (num 2 ⊳ num 3 ⊳ nil) ⊳ num 1 ⊳ nil))
    ≡ ok tt (on start (list (num 4 ⊳ num 9 ⊳ nil) ⊳ num 1 ⊳ nil))
unfolding run_code
map_lem_example =
    map_lem plain_host exec square (num 1 ⊳ nil) IsInteger squared square_lem start
      (num 2 ⊳ num 3 ⊳ nil) (tt, (tt, tt))

filter_lem_example :
    filter plain_host exec
      (on start (list square ⊳ list (num 2 ⊳ num 0 ⊳ num 3 ⊳ nil) ⊳ num 1 ⊳ nil))
    ≡ ok tt (on start (list (num 2 ⊳ num 3 ⊳ nil) ⊳ num 1 ⊳ nil))
unfolding run_code
filter_lem_example =
    filter_lem plain_host exec square (num 1 ⊳ nil) IsInteger squared square_lem start
      (num 2 ⊳ num 0 ⊳ num 3 ⊳ nil) (tt, (tt, (tt, tt)))

assign-exec_example :
    (e' : Env) × assign (on start (list (usr 0 ⊳ nil) ⊳ num 5 ⊳ nil)) ≡ ok tt e'
    × exec_term plain_host 4 (usr 0 ⊳ nil) e' ≡ ok tt (on e' (num 5 ⊳ nil))
assign-exec_example = assign-exec plain_host 2 start 0 x_entry (num 5) nil refl tt

someall_lem_example :
    someall plain_host exec false
        (on start (list square ⊳ list (num 0 ⊳ num 3 ⊳ nil) ⊳ num 1 ⊳ nil))
      ≡ ok tt (on start (boolean (pos 1) ⊳ num 1 ⊳ nil))
    × someall plain_host exec true
        (on start (list square ⊳ list (num 0 ⊳ num 3 ⊳ nil) ⊳ num 1 ⊳ nil))
      ≡ ok tt (on start (boolean (pos 0) ⊳ num 1 ⊳ nil))
unfolding run_code
someall_lem_example =
    someall_lem plain_host exec square (num 1 ⊳ nil) IsInteger squared square_lem start
      (num 0 ⊳ num 3 ⊳ nil) (tt, (tt, tt))

-- The factorial of 5.
primrec_lem_example :
    primrec plain_host exec (
      on start
        (list (anon_funct (arithmetic ArithmeticOp.mul) ⊳ nil) ⊳ list (num 1 ⊳ nil) ⊳ num 5 ⊳ nil))
    ≡ ok tt (on start (num 120 ⊳ nil))
unfolding run_code
primrec_lem_example =
    primrec_lem plain_host exec exec-Keeps start (anon_funct (arithmetic ArithmeticOp.mul) ⊳ nil)
      (num 1 ⊳ nil) 5 nil (omega arith)

-- [[x] [7 dup *]] let, with 5 for `x`
let-restores_example :
    Returns
      (λ _ e'. e'.symtab ≡ start.symtab)
      (let_ exec (on start (list (num 7 ⊳ square) ⊳ list (usr 0 ⊳ nil) ⊳ num 5 ⊳ nil)))
unfolding run_code
let-restores_example =
    let-restores exec start (num 7 ⊳ square) (usr 0 ⊳ nil) (num 5 ⊳ nil) (λ e'. refl)

-- 1 2 3 rolldown pop
program-Ends_example :
    exec
      (num 1
        ⊳ num 2
        ⊳ num 3
        ⊳ anon_funct (stacks StackOp.rolldown)
        ⊳ anon_funct (stacks StackOp.pop)
        ⊳ nil)
      start
    ≡ ok tt (on start (num 3 ⊳ num 2 ⊳ nil))
program-Ends_example =
    program-Ends plain_host 3
      (number (pos 1)
        ∷ number (pos 2)
        ∷ number (pos 3)
        ∷ operator StackOp.rolldown
        ∷ operator StackOp.pop
        ∷ [])
      start
