-- ===== src/Interp.antt =====
-- `exec_term` of src/interp.c: the evaluator. `conts` keeps the rest of each active term for the
-- collector; here that rest is the argument of a recursion on the term. The fuel is the depth of
-- calls that the C stack allows, and each call gives its loops as many rounds.
pub mod Laws
pub mod Saved
pub mod Variables
pub mod Straight
use joy.Prelude.{ℕ, zero, suc, Bool, true, false, if◌then◌else◌, List, [], ◌∷◌, Option, none, some}
use joy.Syntax.{Factor, Term, nil, ◌⊳◌, illegal, usr, anon_funct, bignum, is_nil}
use joy.Syntax.Ops.{
  Builtin, stacks, arithmetic, sets, comparison, aggregate, types, combinator, other,
}
use joy.Machine.{Env, Entry, Error, ok, out_of_fuel, M, pure, raise, undefined, ◌>>=◌, ◌>>◌}
use joy.Machine.Host.{Host}
use joy.Machine.Macros.{nullary}
use joy.Stacks
use joy.Arithmetic
use joy.Sets
use joy.Comparison
use joy.Comparison.{get_symtab}
use joy.Aggregate
use joy.Types
use joy.Combinators.Let.{entry_at}
use joy.Combinators.Dispatch

unfoldable pub get_undeferror : M Bool
get_undeferror e = ok e.undeferror e

-- The body of a name. An undefined name is an error or is passed over.
unfoldable pub call_body : (Term → M (Unit {0})) → Option Entry → M (Unit {0})
call_body exec none = undefined
call_body exec (some x) = do
  undeferror ← get_undeferror
  if is_nil x.body then (if undeferror then raise Error.definition else pure tt) else exec x.body

module _ (host : Host) where
  -- (*nodevalue(p).proc)(env)
  unfoldable pub call : ℕ → (Term → M (Unit {0})) → Builtin → M (Unit {0})
  call fuel exec (stacks op) = Stacks.run op
  call fuel exec (arithmetic op) = Arithmetic.run host op
  call fuel exec (sets op) = Sets.run host op
  call fuel exec (comparison op) = Comparison.run host op
  call fuel exec (aggregate op) = Aggregate.run host op
  call fuel exec (types op) = Types.run op
  call fuel exec (combinator op) = Dispatch.run exec host fuel op
  call fuel exec (other n) = host.other n

  -- The switch on one node. A big number is no factor; at a bad node the loop has ended.
  unfoldable pub exec_factor : ℕ → (Term → M (Unit {0})) → Factor → M (Unit {0})
  exec_factor fuel exec illegal = pure tt
  exec_factor fuel exec (usr i) = do symtab ← get_symtab; call_body exec (entry_at symtab i)
  exec_factor fuel exec (anon_funct f) = call fuel exec f
  exec_factor fuel exec (bignum _) = raise Error.valid_factor
  exec_factor fuel exec p = nullary p

-- A node that cannot be executed
abbrev pub is_bad : Factor → Bool
is_bad illegal = true
is_bad _ = false

-- The loop over the nodes of a term. At a bad node `exec_term` returns, to whatever called it.
unfoldable pub exec_nodes : (Factor → M (Unit {0})) → Term → M (Unit {0})
exec_nodes step nil = pure tt
exec_nodes step (p ⊳ rest) = if is_bad p then pure tt else (do step p; exec_nodes step rest)

module _ (host : Host) where
  unfoldable pub exec_term : ℕ → Term → M (Unit {0})
  exec_term zero n = λ e. out_of_fuel
  exec_term (suc k) n = exec_nodes (exec_factor host k (exec_term k)) n

-- The evaluator opens on the `unfolding` line of what names this.
unfoldable pub interp_code : Unit {0}
unfolding get_undeferror call_body call exec_factor exec_nodes exec_term Dispatch.run
interp_code = tt
