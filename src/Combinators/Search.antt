-- ===== src/Combinators/Search.antt =====
-- What `some` and `all` decide.
use joy.Prelude.{◌≡◌, refl, ap, ◌∙◌, Bool, true, false, not, ◌&&◌, ◌||◌, if◌then◌else◌}
use joy.Syntax.{Factor, Term, nil, ◌⊳◌, list, boolean, nextnode2}
use joy.Machine.{Env, ok, and_then, M, pure, ◌>>=◌}
use joy.Machine.Host.{Host}
use joy.Machine.Macros.{pop_dump, set_stack, saved}
use joy.Compare.{get_boolean}
use joy.Comparison.{truth}
use joy.Combinators.Members.{members, result}
use joy.Combinators.Loops.{someall_loop, someall}
use joy.Combinators.Reads.{combinators_code, on}
use joy.Combinators.Iteration.{Every, on_member-replaced}

-- Whether a test holds of a member, and whether it holds of all.
abbrev pub some_of : (Factor → Bool) → Term → Bool
some_of p nil = false
some_of p (x ⊳ t) = p x || some_of p t

abbrev pub all_of : (Factor → Bool) → Term → Bool
all_of p nil = true
all_of p (x ⊳ t) = p x && all_of p t

abbrev quantified : Bool → (Factor → Bool) → Term → Bool
quantified initial p t = if initial then all_of p t else some_of p t

module _ (host : Host) (exec : Term → M (Unit {0})) (q s : Term) (Fits : Factor → Type 0)
    (g : Factor → Factor)
    (h : (x : Factor) (e : Env) → Fits x → exec q (on e (x ⊳ s)) ≡ ok tt (on e (g x ⊳ s))) where
  someall_loop-quantified :
      (initial : Bool) (f : Factor) (t : Term) (e : Env) (fit : Every Fits t)
      → let e' : Env = record e { dump = list (list q ⊳ f ⊳ s) ⊳ e.dump } in
        (left : Term) × someall_loop host exec initial t e'
          ≡ ok (quantified initial (λ x. get_boolean host (g x ⊳ s)) t) (on e' left)
  unfolding combinators_code
  someall_loop-quantified true f nil e fit = (e.stck, refl)
  someall_loop-quantified false f nil e fit = (e.stck, refl)
  someall_loop-quantified initial f (x ⊳ t) e (fits, fit) =
      let further = someall_loop-quantified initial f t (on e (g x ⊳ s)) fit in
      let (left, ended) = decided initial (get_boolean host (g x ⊳ s)) further in
      (
        left,
        ap
              (λ r. and_then r (λ _. result host >>= λ passed.
                if (if initial then passed else not passed)
                then someall_loop host exec initial t
                else pure (not initial)))
              (on_member-replaced host exec q s Fits g h f x e fits)
            ∙ ended,
      )
    where
      decided :
          (initial b : Bool)
          → let e' : Env = record e { stck = g x ⊳ s; dump = list (list q ⊳ f ⊳ s) ⊳ e.dump } in
            let p : (Factor → Bool) = λ x. get_boolean host (g x ⊳ s) in
            (left : Term) × someall_loop host exec initial t e'
                ≡ ok (quantified initial p t) (on e' left)
            → (left : Term) × (if (if initial then b else not b)
                    then someall_loop host exec initial t
                    else pure (not initial))
                  e'
                ≡ ok (if initial then b && all_of p t else b || some_of p t) (on e' left)
      decided true true further = further
      decided true false further = (g x ⊳ s, refl)
      decided false true further = (g x ⊳ s, refl)
      decided false false further = further

  -- Where a quotation replaces every member X of a list, on the stack below the two parameters, by
  -- G(X), `some` leaves the truth value of whether G(X) is true of a member X, and `all` of whether
  -- it is true of every member.
  pub someall_lem :
      (e : Env) (t : Term)
      → Every Fits t
      → let all : Term = list q ⊳ list t ⊳ s in
        let p : (Factor → Bool) = λ x. get_boolean host (g x ⊳ s) in
        someall host exec false (on e all) ≡ ok tt (on e (boolean (truth (some_of p t)) ⊳ s))
        × someall host exec true (on e all) ≡ ok tt (on e (boolean (truth (all_of p t)) ⊳ s))
  unfolding combinators_code members
  someall_lem e t fit = (leaves false, leaves true)
    where
      leaves :
          (initial : Bool)
          → someall host exec initial (on e (list q ⊳ list t ⊳ s))
            ≡ ok tt (
                on e (boolean (truth (quantified initial (λ x. get_boolean host (g x ⊳ s)) t)) ⊳ s))
      leaves initial =
          let (left, done) =
            someall_loop-quantified initial (list t) t (on e (list q ⊳ list t ⊳ s)) fit in
          ap
            (λ r.
              and_then
                (and_then r (λ b. saved >>= λ o. set_stack (boolean (truth b) ⊳ nextnode2 o)))
                (λ _. pop_dump))
            done
