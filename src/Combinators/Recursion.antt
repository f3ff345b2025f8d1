-- ===== src/Combinators/Recursion.antt =====
-- src/builtin/recursion.c
use joy.Prelude.{ℕ, zero, suc, if◌then◌else◌, Bool, not}
use joy.Syntax.{
  Factor, Term, nil, ◌⊳◌, list, anon_funct, node, is_nil, nextnode1, nextnode2, nextnode3,
  nextnode4,
}
use joy.Syntax.Ops.{combinator, Combinator}
use joy.Machine.{Error, out_of_fuel, M, pure, ◌>>=◌, ◌>>◌}
use joy.Machine.Host.{Host}
use joy.Machine.Macros.{
  get_stack, set_stack, nullary, gnullary, pop_stack, check, one_param, two_params, three_params,
  four_params, one_quote, two_quotes, three_quotes, four_quotes, list_top, is_list, lis, saved,
  saving,
}
use joy.Machine.Checks.{check_stack}
use joy.Aggregate
use joy.Combinators.Members.{exec_saved, result}
use joy.Combinators.Control.{try_clauses}

module _ (host : Host) (exec : Term → M (Unit {0})) where
  -- The test at the head of a recursion: it runs on the stack, which is then put back (dump1).
  unfoldable pub passes : (Term → Term) → M (Unit {0}) → M Bool
  passes position checked = do
    s ← get_stack
    exec_saved exec position
    checked
    yes' ← result host
    set_stack s
    pure yes'

  unfoldable pub linrecaux : ℕ → M (Unit {0})
  linrecaux zero = λ e. out_of_fuel
  linrecaux (suc k) = do
    yes' ← passes nextnode3 check_stack
    if yes'
        then exec_saved exec nextnode2
        else (do exec_saved exec nextnode1; linrecaux k; exec_saved exec (λ t. t))

  unfoldable pub linrec : ℕ → M (Unit {0})
  linrec fuel = do
    four_params
    four_quotes
    saving do set_stack (nextnode4 (← saved)); linrecaux fuel

  unfoldable pub tailrecaux : ℕ → M (Unit {0})
  tailrecaux zero = λ e. out_of_fuel
  tailrecaux (suc k) = do
    yes' ← passes nextnode2 check_stack
    if yes' then exec_saved exec nextnode1 else (do exec_saved exec (λ t. t); tailrecaux k)

  unfoldable pub tailrec : ℕ → M (Unit {0})
  tailrec fuel = do
    three_params
    three_quotes
    saving do set_stack (nextnode3 (← saved)); tailrecaux fuel

  -- The second value waits in dump2 while the first is done.
  unfoldable pub binrecaux : ℕ → M (Unit {0})
  binrecaux zero = λ e. out_of_fuel
  binrecaux (suc k) = do
    yes' ← passes nextnode3 (pure tt)
    if yes' then exec_saved exec nextnode2 else (do
      exec_saved exec nextnode1
      s ← get_stack
      pop_stack
      binrecaux k
      nullary (node s)
      binrecaux k
      exec_saved exec (λ t. t))

  unfoldable pub binrec : ℕ → M (Unit {0})
  binrec fuel = do
    four_params
    four_quotes
    saving do set_stack (nextnode4 (← saved)); binrecaux fuel

  -- The quotations of the clause that is taken, with a recursion between any two.
  unfoldable pub between : M (Unit {0}) → Term → M (Unit {0})
  between recur nil = pure tt
  between recur (n ⊳ rest) = do recur; q ← lis (n ⊳ nil); exec q; between recur rest

  unfoldable pub condnestrecaux : ℕ → M (Unit {0})
  condnestrecaux zero = λ e. out_of_fuel
  condnestrecaux (suc k) = do
    s ← get_stack
    clauses ← lis (← saved)
    (n, passed) ← try_clauses host exec s clauses
    set_stack s
    clause ← lis n
    let steps = if passed then nextnode1 clause else clause
    q ← lis steps
    exec q
    between (condnestrecaux k) (nextnode1 steps)

  -- condnestrec and condlinrec
  unfoldable pub condnestrec : ℕ → M (Unit {0})
  condnestrec fuel = do
    one_param
    list_top
    clauses ← lis (← get_stack)
    check (not (is_nil clauses)) Error.non_empty_list
    saving do set_stack (nextnode1 (← saved)); condnestrecaux fuel

  -- genrecaux puts a node for itself behind the program, and R2 may execute it.
  unfoldable pub genrecaux : M (Unit {0})
  genrecaux = saving do
    pop_stack
    program ← lis (← saved)
    b ← lis program
    exec b
    check_stack
    yes' ← result host
    set_stack (nextnode1 (← saved))
    if yes' then (do t ← lis (nextnode1 program); exec t) else (do
      r ← lis (nextnode2 program)
      exec r
      nullary (list program)
      nullary (list (anon_funct (combinator Combinator.genrecaux) ⊳ nil))
      Aggregate.cons
      exec (nextnode3 program))

  unfoldable pub genrec : M (Unit {0})
  genrec = do four_params; four_quotes; Aggregate.cons; Aggregate.cons; Aggregate.cons; genrecaux

  -- The end of treerecaux and treegenrecaux at a leaf: the first quotation of the program.
  unfoldable pub at_leaf : M (Unit {0})
  at_leaf = do program ← lis (← get_stack); pop_stack; q ← lis program; exec q

  unfoldable pub treerecaux : M (Unit {0})
  treerecaux = do
    s ← get_stack
    if is_list (nextnode1 s)
        then (do
          nullary (list (anon_funct (combinator Combinator.treerecaux) ⊳ nil))
          Aggregate.cons
          built ← lis (← get_stack)
          program ← lis built
          exec (nextnode1 program))
        else at_leaf

  unfoldable pub treerec : M (Unit {0})
  treerec = do three_params; two_quotes; Aggregate.cons; treerecaux

  unfoldable pub treegenrecaux : M (Unit {0})
  treegenrecaux = do
    s ← get_stack
    if is_list (nextnode1 s)
        then (do
          saving do
            pop_stack
            program ← lis (← saved)
            q ← lis (nextnode1 program)
            exec q
            gnullary (← saved)
          nullary (list (anon_funct (combinator Combinator.treegenrecaux) ⊳ nil))
          Aggregate.cons
          built ← lis (← get_stack)
          program ← lis built
          exec (nextnode2 program))
        else at_leaf

  unfoldable pub treegenrec : M (Unit {0})
  treegenrec = do four_params; three_quotes; Aggregate.cons; Aggregate.cons; treegenrecaux

  -- treestepaux on a node, and its loop over the nodes of a list
  unfoldable mutual
    pub treestep_node : Factor → M (Unit {0})
    treestep_node (list t) = treestep_list t
    treestep_node f = do nullary f; exec_saved exec (λ q. q)

    pub treestep_list : Term → M (Unit {0})
    treestep_list nil = pure tt
    treestep_list (x ⊳ t) = do treestep_node x; treestep_list t

  unfoldable pub treestep : M (Unit {0})
  treestep = do
    two_params
    one_quote
    saving do s ← saved; set_stack (nextnode2 s); treestep_node (node (nextnode1 s))
