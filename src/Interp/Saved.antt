-- ===== src/Interp/Saved.antt =====
-- SAVESTACK and POP(env->dump) are matched: every program that returns leaves the saved stacks as
-- they were.
use joy.Prelude.{ℕ, zero, suc, Option, none, some, refl}
use joy.Syntax.{Factor, Term, nil, ◌⊳◌, illegal, usr, anon_funct, bignum}
use joy.Syntax.Ops.{
  Builtin, stacks, arithmetic, sets, comparison, aggregate, types, combinator, other,
}
use joy.Machine.{Entry, M}
use joy.Machine.Host.{Host}
use joy.Machine.Keeps.{
  Keeps, basic, Keeps-pure, Keeps-bind, Keeps-raise, Keeps-undefined, Keeps-nullary,
  Keeps-out_of_fuel, Keeps-if,
}
use joy.Comparison.Keeps.{Keeps-get_symtab}
use joy.Stacks.Keeps as StacksKeeps
use joy.Arithmetic.Keeps as ArithmeticKeeps
use joy.Sets.Keeps as SetsKeeps
use joy.Comparison.Keeps as ComparisonKeeps
use joy.Aggregate.Keeps as AggregateKeeps
use joy.Types.Keeps as TypesKeeps
use joy.Combinators.KeepsDispatch
use joy.Combinators.Let.{entry_at}
use joy.Interp.{is_bad, get_undeferror, call_body, call, exec_factor, exec_nodes, exec_term}

Keeps-get_undeferror : Keeps get_undeferror
unfolding get_undeferror
Keeps-get_undeferror = record { at = λ e. refl }

Keeps-call_body :
    (exec : Term → M (Unit {0})) (x : Option Entry)
    → ((t : Term) → Keeps (exec t))
    → Keeps (call_body exec x)
unfolding call_body
Keeps-call_body exec none kexec = Keeps-undefined
Keeps-call_body exec (some x) kexec = search (basic, Keeps-get_undeferror) depth 40

module _ (host : Host) (khost : (n : ℕ) → Keeps (host.other n)) where
  Keeps-call :
      (fuel : ℕ) (exec : Term → M (Unit {0})) (f : Builtin)
      → ((t : Term) → Keeps (exec t))
      → Keeps (call host fuel exec f)
  unfolding call
  Keeps-call fuel exec (stacks op) kexec = StacksKeeps.Keeps-run op
  Keeps-call fuel exec (arithmetic op) kexec = ArithmeticKeeps.Keeps-run host op
  Keeps-call fuel exec (sets op) kexec = SetsKeeps.Keeps-run host op
  Keeps-call fuel exec (comparison op) kexec = ComparisonKeeps.Keeps-run host op
  Keeps-call fuel exec (aggregate op) kexec = AggregateKeeps.Keeps-run host op
  Keeps-call fuel exec (types op) kexec = TypesKeeps.Keeps-run op
  Keeps-call fuel exec (combinator op) kexec = KeepsDispatch.Keeps-run host exec kexec fuel op
  Keeps-call fuel exec (other n) kexec = khost n

  Keeps-exec_factor :
      (fuel : ℕ) (exec : Term → M (Unit {0})) (p : Factor)
      → ((t : Term) → Keeps (exec t))
      → Keeps (exec_factor host fuel exec p)
  unfolding exec_factor
  Keeps-exec_factor fuel exec illegal kexec = Keeps-pure tt
  Keeps-exec_factor fuel exec (usr i) kexec =
      Keeps-bind _ _ Keeps-get_symtab λ t. Keeps-call_body exec (entry_at t i) kexec
  Keeps-exec_factor fuel exec (anon_funct f) kexec = Keeps-call fuel exec f kexec
  Keeps-exec_factor fuel exec (bignum _) kexec = Keeps-raise _
  Keeps-exec_factor fuel exec p kexec = Keeps-nullary p

  Keeps-exec_nodes :
      (step : Factor → M (Unit {0})) (t : Term)
      → ((p : Factor) → Keeps (step p))
      → Keeps (exec_nodes step t)
  unfolding exec_nodes
  Keeps-exec_nodes step nil kstep = Keeps-pure tt
  Keeps-exec_nodes step (p ⊳ rest) kstep =
      Keeps-if (is_bad p) _ _ (Keeps-pure tt)
        (Keeps-bind _ _ (kstep p) λ _. Keeps-exec_nodes step rest kstep)

  -- Where the builtins outside the model leave the saved stacks alone, so does every program: when it
  -- returns, the chain of saved stacks is the one that it started with. This is not said of a program that
  -- calls `while`, which is outside the model and can change a saved stack.
  pub exec_term-Keeps : (k : ℕ) (t : Term) → Keeps (exec_term host k t)
  unfolding exec_term
  exec_term-Keeps zero t = Keeps-out_of_fuel
  exec_term-Keeps (suc k) t = Keeps-exec_nodes _ t λ p. Keeps-exec_factor k _ p (exec_term-Keeps k)
