-- ===== src/Combinators/Branching.antt =====
-- What the combinators of control.c and n_ary.c do, by the programs that they execute.
use joy.Prelude.{◌≡◌, refl, ◌∙◌, Bool, true, false, if◌then◌else◌}
use joy.Syntax.{Factor, Term, nil, ◌⊳◌, list, node, nextnode1}
use joy.Machine.{Error, Env, Outcome, ok, error, and_then, M, ◌>>=◌, ◌>>◌}
use joy.Machine.Host.{Host}
use joy.Machine.Keeps.{Keeps}
use joy.Compare.{get_boolean}
use joy.Combinators.Control.{ifte}
use joy.Combinators.Nary.{dip, n_ary}
use joy.Machine.Macros.{one_param, lis, get_stack, set_stack, saved, pop_dump}
use joy.Machine.Checks.{check_value}
use joy.Combinators.Reads.{
  combinators_code, on, within, leave, and_then-saved, and_then-saving, and_then-cong,
}

-- What `nullary` does when its quotation left the stack `left`, on the stack `s`.
abbrev pub keep_top : Env → Env → Term → Term → Outcome (Unit {0})
keep_top e e' nil s = error Error.value_to_push e'
keep_top e e' (y ⊳ left) s = leave e e' (y ⊳ s)

module _ (host : Host) (exec : Term → M (Unit {0})) (kexec : (t : Term) → Keeps (exec t)) where
  -- Where programs leave the saved stacks as they were, `dip` on a quotation on top of a value X takes
  -- both away, executes the quotation, and puts X onto the stack that the quotation leaves; an error
  -- of the quotation is its error.
  pub dip_lem :
      (e : Env) (p : Term) (x : Factor) (s : Term)
      → let t : Term = list p ⊳ x ⊳ s in
        dip exec (on e t) ≡ and_then (exec p (within e t s)) (λ _ e'. leave e e' (x ⊳ e'.stck))
  unfolding combinators_code
  dip_lem e p x s =
      let t : Term = list p ⊳ x ⊳ s in
      and_then-saving (list t ⊳ e.dump) _ _ _ ((kexec p).at (within e t s))

  -- Where programs leave the saved stacks as they were, `ifte` on three quotations, the test the
  -- deepest, executes the test on the stack below them, puts that stack back whatever the test left,
  -- and executes the middle quotation where the test left a true value, the top one where it did not.
  pub ifte_lem :
      (e : Env) (b t f s : Term)
      → let q : Term = list f ⊳ list t ⊳ list b ⊳ s in
        ifte host exec (on e q)
        ≡ and_then (exec b (within e q s)) (λ _ e1.
          and_then
            (exec
              (if get_boolean host e1.stck then t else f)
              (within (record e1 { dump = e.dump }) q s))
            (λ _ e2. leave e e2 e2.stck))
  unfolding combinators_code
  ifte_lem e b t f s =
      let q : Term = list f ⊳ list t ⊳ list b ⊳ s in
      and_then-saving (list q ⊳ e.dump) _ _ _ ((kexec b).at (within e q s))
      ∙ and_then-cong (exec b (within e q s)) (λ _ e1. chosen e1 (get_boolean host e1.stck))
    where
      chosen :
          (e1 : Env) (yes' : Bool)
          → let q : Term = list f ⊳ list t ⊳ list b ⊳ s in
            and_then
              (and_then
                (lis
                  ((if yes' then nextnode1 else λ t. t) q)
                  (record e1 { stck = s; dump = list q ⊳ e.dump }))
                exec)
              (λ _ e2. ok tt (record e2 { dump = nextnode1 e2.dump }))
            ≡ and_then
                (exec (if yes' then t else f) (record e1 { stck = s; dump = list q ⊳ e.dump }))
                (λ _ e2. leave e e2 e2.stck)
      chosen e1 true =
          and_then-saved (list (list f ⊳ list t ⊳ list b ⊳ s) ⊳ e.dump) _ _ ((kexec t).at _)
      chosen e1 false =
          and_then-saved (list (list f ⊳ list t ⊳ list b ⊳ s) ⊳ e.dump) _ _ ((kexec f).at _)

  -- Where programs leave the saved stacks as they were, `nullary` executes the quotation on the stack
  -- below it and leaves its top value on that stack as it was before; where the quotation leaves an
  -- empty stack, it reports that a value is missing.
  pub nullary_lem :
      (e : Env) (p s : Term)
      → let t : Term = list p ⊳ s in
        n_ary exec one_param nextnode1 (on e t)
        ≡ and_then
            (exec p (within e t s))
            (λ _ e'. keep_top e (record e' { dump = list t ⊳ e.dump }) e'.stck s)
  unfolding combinators_code
  nullary_lem e p s =
      let t : Term = list p ⊳ s in
      and_then-saving (list t ⊳ e.dump) _ _ _ ((kexec p).at (within e t s))
      ∙ and_then-cong (exec p (within e t s)) (λ _ e'. on_top e e' e'.stck)
    where
      on_top :
          (e e' : Env) (left : Term)
          → let t : Term = list p ⊳ s in
            and_then
              ((check_value >> (get_stack >>= λ y. saved >>= λ x. set_stack (node y ⊳ nextnode1 x)))
                (record e' { stck = left; dump = list t ⊳ e.dump }))
              (λ _. pop_dump)
            ≡ keep_top e (record e' { stck = left; dump = list t ⊳ e.dump }) left s
      on_top e e' nil = refl
      on_top e e' (y ⊳ left) = refl
