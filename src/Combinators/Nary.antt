-- ===== src/Combinators/Nary.antt =====
-- src/builtin/n_ary.c (N_ARY of src/builtin/builtin_macros.h), and the combinators of
-- src/builtin/combinators.c that execute a fixed number of quotations.
use joy.Syntax.{Factor, Term, nil, ◌⊳◌, list, node, nextnode1, nextnode2, nextnode3, nextnode4}
use joy.Machine.{M, pure, ◌>>=◌, ◌>>◌}
use joy.Machine.Macros.{
  get_stack, set_stack, gnullary, pop_stack, two_params, three_params, four_params, five_params,
  one_quote, two_quotes, lis, saved, saving,
}
use joy.Machine.Checks.{check_value, list_second}
use joy.Combinators.Members.{exec_saved}

abbrev nextnode5 : Term → Term
nextnode5 t = nextnode1 (nextnode4 t)

module _ (exec : Term → M (Unit {0})) where
  -- N_ARY(PROCEDURE, NAME, PARAMCOUNT, TOP)
  unfoldable pub n_ary : M (Unit {0}) → (Term → Term) → M (Unit {0})
  n_ary paramcount top = do
    paramcount
    one_quote
    saving do
      pop_stack
      exec_saved exec (λ t. t)
      check_value
      s ← get_stack
      set_stack (node s ⊳ top (← saved))

  -- One value on a stack goes through the quotation; the node that is then on top is kept.
  unfoldable pub run_on : Term → M Factor
  run_on t = do set_stack t; exec_saved exec (λ q. q); s ← get_stack; pure (node s)

  unfoldable pub unary2 : M (Unit {0})
  unary2 = do
    three_params
    one_quote
    saving do
      s ← saved
      y ← run_on (nextnode2 s)
      s ← saved
      z ← run_on (node (nextnode1 s) ⊳ nextnode3 s)
      s ← saved
      set_stack (z ⊳ y ⊳ nextnode3 s)

  unfoldable pub unary3 : M (Unit {0})
  unary3 = do
    four_params
    one_quote
    saving do
      s ← saved
      x ← run_on (nextnode3 s)
      s ← saved
      y ← run_on (node (nextnode2 s) ⊳ nextnode4 s)
      s ← saved
      z ← run_on (node (nextnode1 s) ⊳ nextnode4 s)
      s ← saved
      set_stack (z ⊳ y ⊳ x ⊳ nextnode4 s)

  unfoldable pub unary4 : M (Unit {0})
  unary4 = do
    five_params
    one_quote
    saving do
      s ← saved
      x ← run_on (nextnode4 s)
      s ← saved
      y ← run_on (node (nextnode3 s) ⊳ nextnode5 s)
      s ← saved
      z ← run_on (node (nextnode2 s) ⊳ nextnode5 s)
      s ← saved
      w ← run_on (node (nextnode1 s) ⊳ nextnode5 s)
      s ← saved
      set_stack (w ⊳ z ⊳ y ⊳ x ⊳ nextnode5 s)

  unfoldable pub app1 : M (Unit {0})
  app1 = do two_params; one_quote; saving do pop_stack; exec_saved exec (λ t. t)

  unfoldable pub dip : M (Unit {0})
  dip = do
    two_params
    one_quote
    saving do
      s ← get_stack
      set_stack (nextnode2 s)
      exec_saved exec (λ t. t)
      gnullary (nextnode1 (← saved))

  unfoldable pub cleave : M (Unit {0})
  cleave = do
    three_params
    two_quotes
    saving do
      set_stack (nextnode2 (← saved))
      exec_saved exec nextnode1
      x ← get_stack
      set_stack (nextnode2 (← saved))
      exec_saved exec (λ t. t)
      y ← get_stack
      set_stack (node y ⊳ node x ⊳ nextnode3 (← saved))

  -- Each program runs on the stack that [P] left; the results go onto the old stack.
  unfoldable pub construct_loop : Term → Term → Term → M Term
  construct_loop new old nil = pure old
  construct_loop new old (p ⊳ rest) = do
    q ← lis (p ⊳ nil)
    exec q
    s ← get_stack
    set_stack new
    construct_loop new (node s ⊳ old) rest

  unfoldable pub construct : M (Unit {0})
  construct = do
    two_params
    two_quotes
    saving do
      s ← saved
      set_stack (nextnode2 s)
      exec_saved exec nextnode1
      new ← get_stack
      programs ← lis (← saved)
      old ← construct_loop new (nextnode2 s) programs
      set_stack old

  unfoldable pub infra : M (Unit {0})
  infra = do
    two_params
    one_quote
    list_second
    saving do
      t ← lis (nextnode1 (← saved))
      set_stack t
      exec_saved exec (λ q. q)
      new ← get_stack
      set_stack (list new ⊳ nextnode2 (← saved))
