-- ===== src/Combinators/Reads.antt =====
-- A combinator that reads its parameters again (SAVED1, SAVED2, ...) after it executed a quotation
-- reads what it saved.
use joy.Prelude.{◌≡◌, refl, ap}
use joy.Syntax.{Term, ◌⊳◌, list}
use joy.Machine.{Env, Outcome, ok, error, fault, out_of_fuel, and_then, M}
use joy.Machine.Macros.{macros}
use joy.Machine.Checks.{checks}
use joy.Machine.Keeps.{Post}
use joy.Combinators.Members.{exec_saved, result}
use joy.Combinators.Control.{branch, choice, i, x, ifte, if_type}
use joy.Combinators.Nary.{n_ary, run_on, unary2, app1, dip, cleave, infra}
use joy.Combinators.Loops.{
  collect, aggregate, on_member, filter_loop, filter, map_loop, map_result, map, step_loop, step,
  times_loop, times, someall_loop, someall,
}

-- The combinators open on the `unfolding` line of what names this.
unfoldable pub combinators_code : Unit {0}
unfolding macros checks exec_saved result branch choice i x ifte if_type n_ary run_on unary2 app1
    dip cleave infra collect aggregate on_member filter_loop filter map_loop map_result map
    step_loop step times_loop times someall_loop someall
combinators_code = tt

-- The same state with the stack `s`.
abbrev pub on : Env → Term → Env
on e s = record e { stck = s }

-- The state in which a combinator that saved the stack `s` executes a quotation, on the stack `below`.
abbrev pub within : Env → Term → Term → Env
within e s below = record e { stck = below; dump = list s ⊳ e.dump }

-- The combinator returns: the saved stack goes.
abbrev pub leave : Env → Env → Term → Outcome (Unit {0})
leave e e' s = ok tt (record e' { stck = s; dump = e.dump })

pub and_then-saved :
    {A B : Type 0} (d : Term) (r : Outcome A) (k : A → M B)
    → Post d r
    → and_then r k ≡ and_then r (λ a e. k a (record e { dump = d }))
and_then-saved d (ok a e) k h = ap (λ d'. k a (record e { dump = d' })) h
and_then-saved d (error x e) k h = refl
and_then-saved d fault k h = refl
and_then-saved d out_of_fuel k h = refl

-- The same inside `saving`, whose last step comes after the body.
pub and_then-saving :
    {A B C : Type 0} (d : Term) (r : Outcome A) (k : A → M B) (l : B → M C)
    → Post d r
    → and_then (and_then r k) l ≡ and_then r (λ a e. and_then (k a (record e { dump = d })) l)
and_then-saving d (ok a e) k l h = ap (λ d'. and_then (k a (record e { dump = d' })) l) h
and_then-saving d (error x e) k l h = refl
and_then-saving d fault k l h = refl
and_then-saving d out_of_fuel k l h = refl

pub and_then-cong :
    {A B : Type 0} (r : Outcome A) {k l : A → M B}
    → ((a : A) (e : Env) → k a e ≡ l a e)
    → and_then r k ≡ and_then r l
and_then-cong r h = λ i. and_then r (λ a e. h a e i)
