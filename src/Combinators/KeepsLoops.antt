-- ===== src/Combinators/KeepsLoops.antt =====
-- The loops over aggregates leave the saved stacks alone if the programs that they execute do.
use joy.Prelude.{not, if◌then◌else◌, ℕ, zero, suc, Bool, [], Option, none, some}
use joy.Prelude.Int.{ℤ, pos, negsuc}
use joy.Syntax.{Factor, Term, nil, ◌⊳◌, integer, set, string}
use joy.Machine.{M, pure, raise, Error}
use joy.Machine.Host.{Host}
use joy.Machine.Keeps.{
  Keeps, Keeps-pure, Keeps-raise, Keeps-bind, Keeps-if, Keeps-num, Keeps-nullary, Keeps-get_stack,
}
use joy.Combinators.Members.{members}
use joy.Combinators.KeepsMembers.{combinator_rules, Keeps-exec_saved, Keeps-result}
use joy.Combinators.Loops.{
  aggregate, string_result, shift, set_result, map_result, on_member, filter_loop, filter,
  split_loop, split, map_loop, map, someall_loop, someall, step_loop, step, fold, times_loop, times,
  primrec_members, push_all, times_term, primrec,
}

Keeps-aggregate : (e : Error) (f : Factor) → Keeps (aggregate e f)
unfolding aggregate
Keeps-aggregate e f = from (members f)
  where
    from : (o : Option Term) → Keeps {A = Term} (elim o [ none ↦ raise e | some t ↦ pure t ])
    from none = Keeps-raise e
    from (some t) = Keeps-pure t

Keeps-string_result : (t : Term) → Keeps (string_result t)
unfolding string_result
Keeps-string_result nil = Keeps-pure []
Keeps-string_result (n ⊳ t) =
    Keeps-bind _ _ (Keeps-num (n ⊳ nil))
      λ z. Keeps-bind _ _ (Keeps-string_result t) λ s. Keeps-pure _

Keeps-shift : (z : ℤ) → Keeps (shift z)
unfolding shift
Keeps-shift (pos n) = search (combinator_rules) depth 60
Keeps-shift (negsuc n) = search (combinator_rules) depth 60

Keeps-set_result : (t : Term) → Keeps (set_result t)
unfolding set_result
Keeps-set_result nil = Keeps-pure 0
Keeps-set_result (n ⊳ t) =
    Keeps-bind _ _ (Keeps-num (n ⊳ nil))
      λ z. Keeps-bind _ _ (Keeps-shift z) λ b. Keeps-bind _ _ (Keeps-set_result t) λ a. Keeps-pure _

Keeps-map_result : (f : Factor) (t : Term) → Keeps (map_result f t)
unfolding map_result
Keeps-map_result (set _) t = search (combinator_rules, Keeps-set_result) depth 60
Keeps-map_result (string _) t = search (combinator_rules, Keeps-string_result) depth 60
Keeps-map_result _ t = search (combinator_rules) depth 60

ruleset result_rules = (combinator_rules, Keeps-aggregate, Keeps-map_result)

module _ (host : Host) (exec : Term → M (Unit {0})) (kexec : (t : Term) → Keeps (exec t)) where
  Keeps-on_member : (f : Factor) → Keeps (on_member host exec f)
  unfolding on_member
  Keeps-on_member f = search (result_rules) depth 60

  Keeps-filter_loop : (wanted : Bool) (t : Term) → Keeps (filter_loop host exec wanted t)
  unfolding filter_loop
  Keeps-filter_loop wanted nil = Keeps-pure _
  Keeps-filter_loop wanted (f ⊳ t) = Keeps-bind _ _ (Keeps-on_member f) λ _.
      Keeps-bind _ _ (Keeps-result host)
        λ passed. Keeps-bind _ _ (Keeps-filter_loop wanted t) λ others. Keeps-pure _

  Keeps-split_loop : (t : Term) → Keeps (split_loop host exec t)
  unfolding split_loop
  Keeps-split_loop nil = Keeps-pure _
  Keeps-split_loop (f ⊳ t) = Keeps-bind _ _ (Keeps-on_member f) λ _.
      Keeps-bind _ _ (Keeps-result host)
        λ passed. Keeps-bind _ _ (Keeps-split_loop t) λ (pass, fail). Keeps-pure _

  Keeps-map_loop : (t : Term) → Keeps (map_loop host exec t)
  unfolding map_loop
  Keeps-map_loop nil = Keeps-pure _
  Keeps-map_loop (f ⊳ t) = Keeps-bind _ _ (Keeps-on_member f) λ _.
      Keeps-bind _ _ Keeps-get_stack λ s. Keeps-bind _ _ (Keeps-map_loop t) λ others. Keeps-pure _

  Keeps-someall_loop : (initial : Bool) (t : Term) → Keeps (someall_loop host exec initial t)
  unfolding someall_loop
  Keeps-someall_loop initial nil = Keeps-pure _
  Keeps-someall_loop initial (f ⊳ t) = Keeps-bind _ _ (Keeps-on_member f) λ _.
      Keeps-bind _ _ (Keeps-result host) λ passed.
        Keeps-if (if initial then passed else not passed) _ _ (Keeps-someall_loop initial t)
          (Keeps-pure _)

  Keeps-step_loop : (t : Term) → Keeps (step_loop host exec t)
  unfolding step_loop
  Keeps-step_loop nil = Keeps-pure _
  Keeps-step_loop (f ⊳ t) =
      Keeps-bind _ _ (Keeps-nullary f)
        λ _. Keeps-bind _ _ (Keeps-exec_saved exec _ kexec) λ _. Keeps-step_loop t

  Keeps-push_all : (t : Term) → Keeps (push_all host exec t)
  unfolding push_all
  Keeps-push_all nil = Keeps-pure _
  Keeps-push_all (f ⊳ t) = Keeps-bind _ _ (Keeps-nullary f) λ _. Keeps-push_all t

  Keeps-times_term : (t : Term) → Keeps (times_term host exec t)
  unfolding times_term
  Keeps-times_term nil = Keeps-pure _
  Keeps-times_term (f ⊳ t) = Keeps-bind _ _ (Keeps-exec_saved exec _ kexec) λ _. Keeps-times_term t

  Keeps-times_loop : (n : ℕ) → Keeps (times_loop host exec n)
  unfolding times_loop
  Keeps-times_loop zero = Keeps-pure tt
  Keeps-times_loop (suc n) = Keeps-bind _ _ (Keeps-exec_saved exec _ kexec) λ _. Keeps-times_loop n

  Keeps-primrec_members : (f : Factor) → Keeps (primrec_members host exec f)
  unfolding primrec_members
  Keeps-primrec_members (integer z) = search (result_rules) depth 60
  Keeps-primrec_members _ = search (result_rules) depth 60

  pub Keeps-filter : Keeps (filter host exec)
  unfolding filter
  Keeps-filter = search (result_rules, Keeps-filter_loop) depth 60

  pub Keeps-split : Keeps (split host exec)
  unfolding split
  Keeps-split = search (result_rules, Keeps-split_loop) depth 60

  pub Keeps-map : Keeps (map host exec)
  unfolding map
  Keeps-map = search (result_rules, Keeps-map_loop) depth 60

  pub Keeps-step : Keeps (step host exec)
  unfolding step
  Keeps-step = search (result_rules, Keeps-step_loop) depth 60

  pub Keeps-times : Keeps (times host exec)
  unfolding times
  Keeps-times = search (result_rules, Keeps-times_loop) depth 60

  pub Keeps-fold : Keeps (fold host exec)
  unfolding fold
  Keeps-fold = search (result_rules, Keeps-step) depth 60

  pub Keeps-primrec : Keeps (primrec host exec)
  unfolding primrec
  Keeps-primrec =
      search (result_rules, Keeps-primrec_members, Keeps-push_all, Keeps-times_term) depth 60

  pub Keeps-someall : (initial : Bool) → Keeps (someall host exec initial)
  unfolding someall
  Keeps-someall initial = search (result_rules, Keeps-someall_loop) depth 60
