-- ===== src/Combinators/KeepsControl.antt =====
-- control.c leaves the saved stacks alone if the programs that it executes do.
use joy.Prelude.{ℕ, List}
use joy.Syntax.{nodetype, Term, nil, ◌⊳◌, list}
use joy.Machine.{Entry, M}
use joy.Machine.Host.{Host}
use joy.Machine.Keeps.{Keeps, Keeps-bind, Keeps-pure, Keeps-if, Keeps-lis, Keeps-set_stack}
use joy.Machine.KeepsChecks.{Keeps-check_list}
use joy.Comparison.Keeps.{Keeps-same_type}
use joy.Combinators.KeepsMembers.{combinator_rules, Keeps-result}
use joy.Combinators.Control.{
  branch, choice, i, x, ifte, if_type, case_loop, case, opcase_loop, opcase, check_clauses,
  try_clauses, cond,
}

module _ (host : Host) (exec : Term → M (Unit {0})) (kexec : (t : Term) → Keeps (exec t)) where
  pub Keeps-branch : Keeps (branch host exec)
  unfolding branch
  Keeps-branch = search (combinator_rules) depth 60

  pub Keeps-choice : Keeps (choice host exec)
  unfolding choice
  Keeps-choice = search (combinator_rules) depth 60

  pub Keeps-i : Keeps (i host exec)
  unfolding i
  Keeps-i = search (combinator_rules) depth 60

  pub Keeps-x : Keeps (x host exec)
  unfolding x
  Keeps-x = search (combinator_rules) depth 60

  pub Keeps-ifte : Keeps (ifte host exec)
  unfolding ifte
  Keeps-ifte = search (combinator_rules) depth 60

  pub Keeps-if_type : (typ : ℕ) → Keeps (if_type host exec typ)
  unfolding if_type
  Keeps-if_type typ = search (combinator_rules) depth 60

  Keeps-case_loop :
      (symtab : List Entry) (elem t : Term) → Keeps (case_loop host exec symtab elem t)
  unfolding case_loop
  Keeps-case_loop symtab elem nil = Keeps-pure _
  Keeps-case_loop symtab elem (n ⊳ nil) = Keeps-pure _
  Keeps-case_loop symtab elem (list t ⊳ n ⊳ rest) =
      Keeps-if _ _ _ (Keeps-pure _) (Keeps-case_loop symtab elem (n ⊳ rest))
  Keeps-case_loop symtab elem (f ⊳ n ⊳ rest) = Keeps-pure _

  Keeps-opcase_loop : (elem t : Term) → Keeps (opcase_loop host exec elem t)
  unfolding opcase_loop
  Keeps-opcase_loop elem nil = Keeps-pure _
  Keeps-opcase_loop elem (n ⊳ nil) = Keeps-pure _
  Keeps-opcase_loop elem (list t ⊳ n ⊳ rest) =
      Keeps-bind _ _ (Keeps-same_type elem t)
        (λ same. Keeps-if same _ _ (Keeps-pure _) (Keeps-opcase_loop elem (n ⊳ rest)))
  Keeps-opcase_loop elem (f ⊳ n ⊳ rest) = Keeps-pure _

  Keeps-check_clauses : (t : Term) → Keeps (check_clauses host exec t)
  unfolding check_clauses
  Keeps-check_clauses nil = Keeps-pure tt
  Keeps-check_clauses (n ⊳ nil) = Keeps-pure tt
  Keeps-check_clauses (n ⊳ m ⊳ rest) = Keeps-bind _ _ (Keeps-lis (n ⊳ nil)) λ clause.
      Keeps-bind _ _ (Keeps-check_list (nodetype clause)) λ _. Keeps-check_clauses (m ⊳ rest)

  pub Keeps-try_clauses : (below t : Term) → Keeps (try_clauses host exec below t)
  unfolding try_clauses
  Keeps-try_clauses below nil = Keeps-pure _
  Keeps-try_clauses below (n ⊳ nil) = Keeps-pure _
  Keeps-try_clauses below (n ⊳ m ⊳ rest) = Keeps-bind _ _ (Keeps-set_stack below) λ _.
      Keeps-bind _ _ (Keeps-lis (n ⊳ nil)) λ clause. Keeps-bind _ _ (Keeps-lis clause) λ q.
        Keeps-bind _ _ (kexec q) λ _.
          Keeps-bind _ _ (Keeps-result host)
            λ yes'. Keeps-if yes' _ _ (Keeps-pure _) (Keeps-try_clauses below (m ⊳ rest))

  pub Keeps-case : Keeps (case host exec)
  unfolding case
  Keeps-case = search (combinator_rules, Keeps-case_loop) depth 60

  pub Keeps-opcase : Keeps (opcase host exec)
  unfolding opcase
  Keeps-opcase = search (combinator_rules, Keeps-opcase_loop) depth 60

  pub Keeps-cond : Keeps (cond host exec)
  unfolding cond
  Keeps-cond = search (combinator_rules, Keeps-check_clauses, Keeps-try_clauses) depth 60
