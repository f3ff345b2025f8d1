-- ===== src/Combinators/Iteration.antt =====
-- What the loops over the members of an aggregate do.
use joy.Prelude.{none, ℕ, zero, suc, ◌≡◌, refl, ap, ◌∙◌, sym, Bool, true, if◌then◌else◌, some}
use joy.Prelude.Int.{pos}
use joy.Syntax.{Factor, Term, nil, ◌⊳◌, list, node, nextnode2, integer}
use joy.Machine.{Error, Env, ok, and_then, M, pure, raise, ◌>>=◌}
use joy.Machine.Host.{Host}
use joy.Machine.Macros.{pop_dump, get_stack, set_stack, saved}
use joy.Machine.Checks.{check_stack}
use joy.Machine.Keeps.{Keeps}
use joy.Compare.{get_boolean}
use joy.Combinators.Members.{members, result}
use joy.Combinators.Loops.{
  aggregate, on_member, map_result, collect, step_loop, step, times_loop, times, map_loop, map,
  filter_loop, filter,
}
use joy.Combinators.Reads.{combinators_code, on, within, and_then-saved, and_then-cong}

-- The program after pushing each member in turn.
abbrev pub each : (Factor → M (Unit {0})) → Term → M (Unit {0})
each m nil e = ok tt e
each m (x ⊳ t) e = and_then (m x e) (λ _. each m t)

abbrev pub repeated : M (Unit {0}) → ℕ → M (Unit {0})
repeated m zero e = ok tt e
repeated m (suc n) e = and_then (m e) (λ _. repeated m n)

-- A property of every member.
abbrev pub Every : (Factor → Type 0) → Term → Type 0
Every P nil = Unit {0}
Every P (x ⊳ t) = P x × Every P t

-- The members for which a test is true.
abbrev pub kept : (Factor → Bool) → Term → Term
kept p nil = nil
kept p (x ⊳ t) = if p x then x ⊳ kept p t else kept p t

abbrev pub mapped : (Factor → Factor) → Term → Term
mapped g nil = nil
mapped g (x ⊳ t) = g x ⊳ mapped g t

aggregate-some : (x : Error) (f : Factor) (t : Term) → members f ≡ some t → aggregate x f ≡ pure t
unfolding aggregate
aggregate-some x f t h = ap (λ o. elim o as (λ _. M Term) [ none ↦ raise x | some t' ↦ pure t' ]) h

module _ (host : Host) (exec : Term → M (Unit {0})) (kexec : (t : Term) → Keeps (exec t)) where
  -- The quotation after one member, as the body of the loop runs it.
  abbrev pub push_then : Term → Factor → M (Unit {0})
  push_then q x e = exec q (record e { stck = x ⊳ e.stck })

  step_loop-each :
      (q : Term) (d : Term) (t : Term) (e : Env)
      → let e' : Env = record e { dump = list (list q ⊳ d) ⊳ e.dump } in
        step_loop host exec t e' ≡ each (push_then q) t e'
  unfolding combinators_code
  step_loop-each q d nil e = refl
  step_loop-each q d (x ⊳ t) e =
      let top : Term = list (list q ⊳ d) ⊳ e.dump in
      and_then-saved top _ _ ((kexec q).at (record e { stck = x ⊳ e.stck; dump = top }))
      ∙ and_then-cong (exec q (record e { stck = x ⊳ e.stck; dump = top }))
          (λ _ e'. step_loop-each q d t (record e' { dump = e.dump }))
      ∙ sym (
          and_then-saved top _ (λ _. each (push_then q) t)
            ((kexec q).at (record e { stck = x ⊳ e.stck; dump = top })))

  -- Where programs leave the saved stacks as they were, `step` on an aggregate takes the quotation and the aggregate away, and then executes the
  -- quotation once for every member, the first member first, each on what the last left.
  pub step_lem :
      (e : Env) (q : Term) (f : Factor) (s : Term) (t : Term)
      → members f ≡ some t
      → let all : Term = list q ⊳ f ⊳ s in
        step host exec (on e all) ≡ and_then (each (push_then q) t (within e all s)) (λ _. pop_dump)
  unfolding combinators_code
  step_lem e q f s t h =
      let all : Term = list q ⊳ f ⊳ s in
      ap
        (λ m.
          and_then (and_then (m (within e all s)) (λ t'. step_loop host exec t')) (λ _. pop_dump))
        (aggregate-some Error.aggregate_parameter f t h)
      ∙ ap (λ r. and_then r (λ _. pop_dump)) (step_loop-each q (f ⊳ s) t (on e s))

  times_loop-repeated :
      (q : Term) (d : Term) (n : ℕ) (e : Env)
      → let e' : Env = record e { dump = list (list q ⊳ d) ⊳ e.dump } in
        times_loop host exec n e' ≡ repeated (exec q) n e'
  unfolding combinators_code
  times_loop-repeated q d zero e = refl
  times_loop-repeated q d (suc n) e =
      let top : Term = list (list q ⊳ d) ⊳ e.dump in
      let kept_top = (kexec q).at (record e { dump = top }) in
      and_then-saved top _ _ kept_top
      ∙ and_then-cong (exec q (record e { dump = top }))
          (λ _ e'. times_loop-repeated q d n (record e' { dump = e.dump }))
      ∙ sym (and_then-saved top _ (λ _. repeated (exec q) n) kept_top)

  -- Where programs leave the saved stacks as they were, `times` on an integer that is not negative takes it and the quotation away and executes the
  -- quotation that many times.
  pub times_lem :
      (e : Env) (q : Term) (n : ℕ) (s : Term)
      → let all : Term = list q ⊳ integer (pos n) ⊳ s in
        times host exec (on e all) ≡ and_then (repeated (exec q) n (within e all s)) (λ _. pop_dump)
  unfolding combinators_code
  times_lem e q n s =
      ap (λ r. and_then r (λ _. pop_dump)) (times_loop-repeated q (integer (pos n) ⊳ s) n (on e s))

-- A quotation that replaces a value of some kind on the stack `s` by another.
module _ (host : Host) (exec : Term → M (Unit {0})) (q s : Term) (Fits : Factor → Type 0)
    (g : Factor → Factor)
    (h : (x : Factor) (e : Env) → Fits x → exec q (on e (x ⊳ s)) ≡ ok tt (on e (g x ⊳ s))) where
  pub on_member-replaced :
      (f : Factor) (x : Factor) (e : Env) (fits : Fits x)
      → let e' : Env = record e { dump = list (list q ⊳ f ⊳ s) ⊳ e.dump } in
        on_member host exec x e' ≡ ok tt (on e' (g x ⊳ s))
  unfolding combinators_code
  on_member-replaced f x e fits =
      ap (λ r. and_then r (λ _. check_stack))
        (h x (record e { dump = list (list q ⊳ f ⊳ s) ⊳ e.dump }) fits)

  map_loop-mapped :
      (f : Factor) (t : Term) (e : Env) (fit : Every Fits t)
      → let e' : Env = record e { dump = list (list q ⊳ f ⊳ s) ⊳ e.dump } in
        (left : Term) × map_loop host exec t e' ≡ ok (mapped g t) (on e' left)
  unfolding combinators_code
  map_loop-mapped f nil e fit = (e.stck, refl)
  map_loop-mapped f (x ⊳ t) e (fits, fit) =
      let (left, others) = map_loop-mapped f t (on e (g x ⊳ s)) fit in
      (
        left,
        ap
              (λ r.
                and_then r
                  (λ _. get_stack >>= λ y. map_loop host exec t >>= λ o. pure (node y ⊳ o)))
              (on_member-replaced f x e fits)
            ∙ ap (λ r. and_then r (λ o. pure (g x ⊳ o))) others,
      )

  -- Where a quotation replaces every member X of a list, on the stack below the two parameters, by
  -- G(X), `map` leaves the list of the G(X), in the order and the number of the X.
  pub map_lem :
      (e : Env) (t : Term)
      → Every Fits t
      → map host exec (on e (list q ⊳ list t ⊳ s)) ≡ ok tt (on e (list (mapped g t) ⊳ s))
  unfolding combinators_code members
  map_lem e t fit =
      let (left, done) = map_loop-mapped (list t) t (on e (list q ⊳ list t ⊳ s)) fit in
      ap
        (λ r.
          and_then
            (and_then r
              (λ new. map_result (list t) new >>= λ f. saved >>= λ o. set_stack (f ⊳ nextnode2 o)))
            (λ _. pop_dump))
        done

  filter_loop-kept :
      (f : Factor) (t : Term) (e : Env) (fit : Every Fits t)
      → let e' : Env = record e { dump = list (list q ⊳ f ⊳ s) ⊳ e.dump } in
        (left : Term) × filter_loop host exec true t e'
          ≡ ok (kept (λ x. get_boolean host (g x ⊳ s)) t) (on e' left)
  unfolding combinators_code
  filter_loop-kept f nil e fit = (e.stck, refl)
  filter_loop-kept f (x ⊳ t) e (fits, fit) =
      let (left, others) = filter_loop-kept f t (on e (g x ⊳ s)) fit in
      (
        left,
        ap
              (λ r. and_then r (λ _. result host >>= λ passed.
                filter_loop host exec true t >>= λ o. pure (if passed then x ⊳ o else o)))
              (on_member-replaced f x e fits)
            ∙ ap (λ r. and_then r (λ o. pure (if get_boolean host (g x ⊳ s) then x ⊳ o else o)))
                others,
      )

  -- Where a quotation replaces every member X of a list, on the stack below the two parameters, by
  -- G(X), `filter` leaves the list of those X, in their order, whose G(X) is true.
  pub filter_lem :
      (e : Env) (t : Term)
      → Every Fits t
      → filter host exec (on e (list q ⊳ list t ⊳ s))
        ≡ ok tt (on e (list (kept (λ x. get_boolean host (g x ⊳ s)) t) ⊳ s))
  unfolding combinators_code members
  filter_lem e t fit =
      let (left, done) = filter_loop-kept (list t) t (on e (list q ⊳ list t ⊳ s)) fit in
      ap
        (λ r.
          and_then
            (and_then r (λ new. saved >>= λ o. set_stack (collect (list t) new ⊳ nextnode2 o)))
            (λ _. pop_dump))
        done
