-- ===== src/Combinators/KeepsDispatch.antt =====
-- Every combinator leaves the saved stacks alone if the programs that it executes do.
use joy.Prelude.{ℕ}
use joy.Syntax.{Term}
use joy.Syntax.Ops.{Combinator}
use joy.Machine.{M}
use joy.Machine.Host.{Host}
use joy.Machine.Keeps.{Keeps}
use joy.Combinators.KeepsMembers.{combinator_rules}
use joy.Combinators.KeepsControl.{
  Keeps-branch, Keeps-choice, Keeps-i, Keeps-x, Keeps-ifte, Keeps-if_type, Keeps-case, Keeps-opcase,
  Keeps-cond,
}
use joy.Combinators.KeepsNary.{
  Keeps-n_ary, Keeps-unary2, Keeps-unary3, Keeps-unary4, Keeps-app1, Keeps-dip, Keeps-cleave,
  Keeps-infra, Keeps-construct,
}
use joy.Combinators.KeepsLoops.{
  Keeps-filter, Keeps-split, Keeps-map, Keeps-step, Keeps-times, Keeps-fold, Keeps-primrec,
  Keeps-someall,
}
use joy.Combinators.KeepsLet.{Keeps-let}
use joy.Combinators.KeepsRecursion.{
  Keeps-linrec, Keeps-tailrec, Keeps-binrec, Keeps-condnestrec, Keeps-genrecaux, Keeps-genrec,
  Keeps-treerecaux, Keeps-treerec, Keeps-treegenrecaux, Keeps-treegenrec, Keeps-treestep,
}
use joy.Combinators.Dispatch.{app11, app12, run}

ruleset loop_rules = (
  Keeps-filter, Keeps-split, Keeps-map, Keeps-step, Keeps-times, Keeps-fold, Keeps-primrec,
  Keeps-someall,
)

ruleset control_rules = (
  Keeps-branch, Keeps-choice, Keeps-i, Keeps-x, Keeps-ifte, Keeps-if_type, Keeps-case, Keeps-opcase,
  Keeps-cond, Keeps-unary2, Keeps-unary3, Keeps-unary4, Keeps-app1, Keeps-dip, Keeps-cleave,
  Keeps-infra, Keeps-construct, Keeps-let,
)

ruleset recursion_rules = (
  Keeps-linrec, Keeps-tailrec, Keeps-binrec, Keeps-condnestrec, Keeps-genrecaux, Keeps-genrec,
  Keeps-treerecaux, Keeps-treerec, Keeps-treegenrecaux, Keeps-treegenrec, Keeps-treestep,
)

module _ (host : Host) (exec : Term → M (Unit {0})) (kexec : (t : Term) → Keeps (exec t)) where
  Keeps-app11 : Keeps (app11 exec host)
  unfolding app11
  Keeps-app11 = search (combinator_rules, Keeps-i) depth 60

  Keeps-app12 : Keeps (app12 exec host)
  unfolding app12
  Keeps-app12 = search (combinator_rules, Keeps-unary2) depth 60

  pub Keeps-run : (fuel : ℕ) (op : Combinator) → Keeps (run exec host fuel op)
  unfolding run
  Keeps-run fuel Combinator.app11 = Keeps-app11
  Keeps-run fuel Combinator.app12 = Keeps-app12
  Keeps-run fuel Combinator.binary = search (combinator_rules, Keeps-n_ary) depth 60
  Keeps-run fuel Combinator.nullary = search (combinator_rules, Keeps-n_ary) depth 60
  Keeps-run fuel Combinator.ternary = search (combinator_rules, Keeps-n_ary) depth 60
  Keeps-run fuel Combinator.unary = search (combinator_rules, Keeps-n_ary) depth 60
  Keeps-run fuel _ = search (loop_rules, control_rules, recursion_rules) depth 10
