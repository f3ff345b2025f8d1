-- ===== src/Combinators/KeepsRecursion.antt =====
-- recursion.c leaves the saved stacks alone if the programs that it executes do.
use joy.Prelude.{ℕ, zero, suc}
use joy.Syntax.{Factor, Term, nil, ◌⊳◌, list}
use joy.Machine.{M}
use joy.Machine.Host.{Host}
use joy.Machine.Keeps.{
  Keeps, Keeps-bind, Keeps-if, Keeps-pure, Keeps-out_of_fuel, Keeps-get_stack, Keeps-set_stack,
  Keeps-pop_stack, Keeps-nullary, Keeps-lis, Keeps-saved,
}
use joy.Machine.KeepsChecks.{Keeps-check_stack}
use joy.Aggregate.Keeps.{Keeps-cons}
use joy.Combinators.KeepsMembers.{combinator_rules, Keeps-exec_saved}
use joy.Combinators.Members.{exec_saved}
use joy.Combinators.KeepsControl.{Keeps-try_clauses}
use joy.Combinators.Recursion.{
  passes, linrecaux, linrec, tailrecaux, tailrec, binrecaux, binrec, between, condnestrecaux,
  condnestrec, genrecaux, genrec, at_leaf, treerecaux, treerec, treegenrecaux, treegenrec,
  treestep_node, treestep_list, treestep,
}

module _ (host : Host) (exec : Term → M (Unit {0})) (kexec : (t : Term) → Keeps (exec t)) where
  Keeps-saved_program : (position : Term → Term) → Keeps (exec_saved exec position)
  Keeps-saved_program position = Keeps-exec_saved exec position kexec

  Keeps-passes :
      (position : Term → Term) (checked : M (Unit {0}))
      → Keeps checked
      → Keeps (passes host exec position checked)
  unfolding passes
  Keeps-passes position checked kc = search (combinator_rules) depth 60

  Keeps-linrecaux : (k : ℕ) → Keeps (linrecaux host exec k)
  unfolding linrecaux
  Keeps-linrecaux zero = Keeps-out_of_fuel
  Keeps-linrecaux (suc k) = Keeps-bind _ _ (Keeps-passes _ _ Keeps-check_stack) λ yes'.
      Keeps-if yes' _ _ (Keeps-saved_program _) (
        Keeps-bind _ _ (Keeps-saved_program _)
          λ _. Keeps-bind _ _ (Keeps-linrecaux k) λ _. Keeps-saved_program _)

  Keeps-tailrecaux : (k : ℕ) → Keeps (tailrecaux host exec k)
  unfolding tailrecaux
  Keeps-tailrecaux zero = Keeps-out_of_fuel
  Keeps-tailrecaux (suc k) = Keeps-bind _ _ (Keeps-passes _ _ Keeps-check_stack) λ yes'.
      Keeps-if yes' _ _ (Keeps-saved_program _)
        (Keeps-bind _ _ (Keeps-saved_program _) λ _. Keeps-tailrecaux k)

  Keeps-binrecaux : (k : ℕ) → Keeps (binrecaux host exec k)
  unfolding binrecaux
  Keeps-binrecaux zero = Keeps-out_of_fuel
  Keeps-binrecaux (suc k) = Keeps-bind _ _ (Keeps-passes _ _ (Keeps-pure tt)) λ yes'.
      Keeps-if yes' _ _ (Keeps-saved_program _) (
        Keeps-bind _ _ (Keeps-saved_program _) λ _. Keeps-bind _ _ Keeps-get_stack λ s.
          Keeps-bind _ _ Keeps-pop_stack λ _. Keeps-bind _ _ (Keeps-binrecaux k) λ _.
            Keeps-bind _ _ (Keeps-nullary _)
              λ _. Keeps-bind _ _ (Keeps-binrecaux k) λ _. Keeps-saved_program _)

  Keeps-between :
      (recur : M (Unit {0})) (t : Term) → Keeps recur → Keeps (between host exec recur t)
  unfolding between
  Keeps-between recur nil kr = Keeps-pure tt
  Keeps-between recur (n ⊳ rest) kr = Keeps-bind _ _ kr λ _.
      Keeps-bind _ _ (Keeps-lis _) λ q. Keeps-bind _ _ (kexec q) λ _. Keeps-between recur rest kr

  Keeps-condnestrecaux : (k : ℕ) → Keeps (condnestrecaux host exec k)
  unfolding condnestrecaux
  Keeps-condnestrecaux zero = Keeps-out_of_fuel
  Keeps-condnestrecaux (suc k) = Keeps-bind _ _ Keeps-get_stack λ s.
      Keeps-bind _ _ Keeps-saved λ saved. Keeps-bind _ _ (Keeps-lis _) λ clauses.
        Keeps-bind _ _ (Keeps-try_clauses host exec kexec s clauses) λ (n, passed).
          Keeps-bind _ _ (Keeps-set_stack s) λ _. Keeps-bind _ _ (Keeps-lis n) λ clause.
            Keeps-bind _ _ (Keeps-lis _)
              λ q. Keeps-bind _ _ (kexec q) λ _. Keeps-between _ _ (Keeps-condnestrecaux k)

  pub Keeps-linrec : (fuel : ℕ) → Keeps (linrec host exec fuel)
  unfolding linrec
  Keeps-linrec fuel = search (combinator_rules, Keeps-linrecaux) depth 60

  pub Keeps-tailrec : (fuel : ℕ) → Keeps (tailrec host exec fuel)
  unfolding tailrec
  Keeps-tailrec fuel = search (combinator_rules, Keeps-tailrecaux) depth 60

  pub Keeps-binrec : (fuel : ℕ) → Keeps (binrec host exec fuel)
  unfolding binrec
  Keeps-binrec fuel = search (combinator_rules, Keeps-binrecaux) depth 60

  pub Keeps-condnestrec : (fuel : ℕ) → Keeps (condnestrec host exec fuel)
  unfolding condnestrec
  Keeps-condnestrec fuel = search (combinator_rules, Keeps-condnestrecaux) depth 60

  pub Keeps-genrecaux : Keeps (genrecaux host exec)
  unfolding genrecaux
  Keeps-genrecaux = search (combinator_rules, Keeps-cons) depth 60

  pub Keeps-genrec : Keeps (genrec host exec)
  unfolding genrec
  Keeps-genrec = search (combinator_rules, Keeps-cons, Keeps-genrecaux) depth 60

  Keeps-at_leaf : Keeps (at_leaf host exec)
  unfolding at_leaf
  Keeps-at_leaf = search (combinator_rules) depth 60

  pub Keeps-treerecaux : Keeps (treerecaux host exec)
  unfolding treerecaux
  Keeps-treerecaux = search (combinator_rules, Keeps-cons, Keeps-at_leaf) depth 60

  pub Keeps-treerec : Keeps (treerec host exec)
  unfolding treerec
  Keeps-treerec = search (combinator_rules, Keeps-cons, Keeps-treerecaux) depth 60

  pub Keeps-treegenrecaux : Keeps (treegenrecaux host exec)
  unfolding treegenrecaux
  Keeps-treegenrecaux = search (combinator_rules, Keeps-cons, Keeps-at_leaf) depth 60

  pub Keeps-treegenrec : Keeps (treegenrec host exec)
  unfolding treegenrec
  Keeps-treegenrec = search (combinator_rules, Keeps-cons, Keeps-treegenrecaux) depth 60

  mutual
    unfolding treestep_node treestep_list

    Keeps-treestep_node : (f : Factor) → Keeps (treestep_node host exec f)
    Keeps-treestep_node (list t) = Keeps-treestep_list t
    Keeps-treestep_node f = Keeps-bind _ _ (Keeps-nullary f) λ _. Keeps-saved_program _

    Keeps-treestep_list : (t : Term) → Keeps (treestep_list host exec t)
    Keeps-treestep_list nil = Keeps-pure tt
    Keeps-treestep_list (x ⊳ t) = Keeps-bind _ _ (Keeps-treestep_node x) λ _. Keeps-treestep_list t

  pub Keeps-treestep : Keeps (treestep host exec)
  unfolding treestep
  Keeps-treestep = search (combinator_rules, Keeps-treestep_node) depth 60
