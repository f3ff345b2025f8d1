-- ===== src/Interp/Variables.antt =====
-- A variable has the value that was assigned to it.
use joy.Prelude.{ℕ, zero, suc, ◌≡◌, refl, ap, ◌∙◌, Bool, true, false, List, [], ◌∷◌, some}
use mathlib.Core.Option
use joy.Syntax.{Factor, Term, nil, ◌⊳◌, usr, list, illegal, anon_funct, bignum}
use joy.Machine.{and_then, M, Env, Entry, ok, ◌>>=◌, pure}
use joy.Machine.Host.{Host}
use joy.Machine.Macros.{macros}
use joy.Combinators.Reads.{on}
use joy.Combinators.Let.{entry_at}
use joy.Comparison.{get_symtab}
use joy.Aggregate.{aggregate_code}
use joy.Aggregate.Variables.{assign, modify_at, marked, variable}
use joy.Interp.{exec_term, exec_nodes, exec_factor, call_body, get_undeferror}

-- A factor that is pushed when it is executed.
abbrev pub IsPushed : Factor → Type 0
IsPushed illegal = ⊥
IsPushed (usr _) = ⊥
IsPushed (anon_funct _) = ⊥
IsPushed (bignum _) = ⊥
IsPushed _ = Unit {0}

entry_at-modify_at :
    (i : ℕ) (f : Entry → Entry) (t : List Entry) (x : Entry)
    → entry_at t i ≡ some x
    → entry_at (modify_at i f t) i ≡ some (f x)
entry_at-modify_at i f [] x h = absurd (Option.none-ne-some x h)
entry_at-modify_at zero f (y ∷ t) x h = ap (Option.map f) h
entry_at-modify_at (suc i) f (y ∷ t) x h = entry_at-modify_at i f t x h

called :
    (exec : Term → M (Unit {0})) (busy : Bool) (x : Entry) (v : Factor) (e : Env)
    → exec (v ⊳ nil) e ≡ ok tt (on e (v ⊳ e.stck))
    → call_body exec (some (marked busy (variable (v ⊳ nil) x))) e ≡ ok tt (on e (v ⊳ e.stck))
unfolding call_body get_undeferror ◌>>=◌ pure
called exec true x v e h = h
called exec false x v e h = h

pushed :
    (host : Host) (k : ℕ) (v : Factor) (e : Env)
    → IsPushed v
    → exec_term host (suc k) (v ⊳ nil) e ≡ ok tt (on e (v ⊳ e.stck))
unfolding exec_term exec_nodes exec_factor macros
pushed host k illegal e p = absurd p
pushed host k (usr _) e p = absurd p
pushed host k (anon_funct _) e p = absurd p
pushed host k (bignum _) e p = absurd p
pushed host k _ e p = refl

-- After `assign` of a value that is pushed when it is executed to a name that has an entry, the
-- execution of that name at a depth of at least 2 leaves the value on the stack that `assign` left,
-- whatever the name stood for before.
pub assign-exec :
    (host : Host) (k : ℕ) (e : Env) (i : ℕ) (x : Entry) (v : Factor) (s : Term)
    → entry_at e.symtab i ≡ some x
    → IsPushed v
    → (e' : Env) × assign (on e (list (usr i ⊳ nil) ⊳ v ⊳ s)) ≡ ok tt e'
      × exec_term host (suc (suc k)) (usr i ⊳ nil) e' ≡ ok tt (on e' (v ⊳ s))
unfolding aggregate_code exec_term exec_nodes exec_factor get_symtab get_undeferror
assign-exec host k e i x v s h p =
    let f : (Entry → Entry) = λ y. marked e.variable_busy (variable (v ⊳ nil) y) in
    let e' : Env = record e { stck = s; symtab = modify_at i f e.symtab; variable_busy = true } in
    (
      e',
      refl,
      ap (λ o. and_then (call_body (exec_term host (suc k)) o e') (λ _. pure tt))
            (entry_at-modify_at i f e.symtab x h)
          ∙ ap (λ r. and_then r (λ _. pure tt))
              (called (exec_term host (suc k)) e.variable_busy x v e' (pushed host k v e' p)),
    )
