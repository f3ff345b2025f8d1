-- ===== src/Combinators/KeepsNary.antt =====
-- The combinators of n_ary.c and of combinators.c without loops leave the saved stacks alone.
use joy.Syntax.{node, Term, nil, ◌⊳◌}
use joy.Machine.{M}
use joy.Machine.Keeps.{Keeps, Keeps-bind, Keeps-pure, Keeps-lis, Keeps-get_stack, Keeps-set_stack}
use joy.Combinators.KeepsMembers.{combinator_rules}
use joy.Combinators.Nary.{
  n_ary, run_on, unary2, unary3, unary4, app1, dip, cleave, construct_loop, construct, infra,
}

module _ (exec : Term → M (Unit {0})) (kexec : (t : Term) → Keeps (exec t)) where
  pub Keeps-n_ary :
      (paramcount : M (Unit {0})) (top : Term → Term)
      → Keeps paramcount
      → Keeps (n_ary exec paramcount top)
  unfolding n_ary
  Keeps-n_ary p top kp = search (combinator_rules) depth 60

  Keeps-run_on : (t : Term) → Keeps (run_on exec t)
  unfolding run_on
  Keeps-run_on t = search (combinator_rules) depth 60

  Keeps-construct_loop : (new old t : Term) → Keeps (construct_loop exec new old t)
  unfolding construct_loop
  Keeps-construct_loop new old nil = Keeps-pure old
  Keeps-construct_loop new old (p ⊳ rest) = Keeps-bind _ _ (Keeps-lis (p ⊳ nil)) λ q.
      Keeps-bind _ _ (kexec q) λ _.
        Keeps-bind _ _ Keeps-get_stack λ s.
          Keeps-bind _ _ (Keeps-set_stack new) λ _. Keeps-construct_loop new (node s ⊳ old) rest

  pub Keeps-unary2 : Keeps (unary2 exec)
  unfolding unary2
  Keeps-unary2 = search (combinator_rules, Keeps-run_on) depth 60

  pub Keeps-unary3 : Keeps (unary3 exec)
  unfolding unary3
  Keeps-unary3 = search (combinator_rules, Keeps-run_on) depth 60

  pub Keeps-unary4 : Keeps (unary4 exec)
  unfolding unary4
  Keeps-unary4 = search (combinator_rules, Keeps-run_on) depth 60

  pub Keeps-app1 : Keeps (app1 exec)
  unfolding app1
  Keeps-app1 = search (combinator_rules) depth 60

  pub Keeps-dip : Keeps (dip exec)
  unfolding dip
  Keeps-dip = search (combinator_rules) depth 60

  pub Keeps-cleave : Keeps (cleave exec)
  unfolding cleave
  Keeps-cleave = search (combinator_rules) depth 60

  pub Keeps-infra : Keeps (infra exec)
  unfolding infra
  Keeps-infra = search (combinator_rules) depth 60

  pub Keeps-construct : Keeps (construct exec)
  unfolding construct
  Keeps-construct = search (combinator_rules, Keeps-construct_loop) depth 60
