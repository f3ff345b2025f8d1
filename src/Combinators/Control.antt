-- ===== src/Combinators/Control.antt =====
-- src/builtin/control.c, and IF_TYPE of src/builtin/builtin_macros.h
use joy.Prelude.{ℕ, Bool, true, false, not, ◌==◌, if◌then◌else◌, List}
use joy.Syntax.{Term, nil, ◌⊳◌, list, is_nil, nodetype, nextnode1, nextnode2, nextnode3}
use joy.Machine.{Entry, Error, M, pure, ◌>>=◌, ◌>>◌}
use joy.Machine.Host.{Host}
use joy.Machine.Macros.{
  get_stack, set_stack, unary, gternary, pop_stack, check, one_param, two_params, three_params,
  one_quote, two_quotes, three_quotes, list_top, lis, saved, saving,
}
use joy.Machine.Checks.{check_list}
use joy.Compare.{is_zero, get_boolean, compare}
use joy.Comparison.{get_symtab, same_type}
use joy.Combinators.Members.{exec_saved, result}

module _ (host : Host) (exec : Term → M (Unit {0})) where
  unfoldable pub branch : M (Unit {0})
  branch = do
    three_params
    two_quotes
    saving do
      s ← saved
      set_stack (nextnode3 s)
      exec_saved exec (if get_boolean host (nextnode2 s) then nextnode1 else λ t. t)

  unfoldable pub choice : M (Unit {0})
  choice = do
    three_params
    s ← get_stack
    if get_boolean host (nextnode2 s) then gternary (nextnode1 s) else gternary s

  unfoldable pub i : M (Unit {0})
  i = do one_param; one_quote; saving do pop_stack; exec_saved exec (λ t. t)

  unfoldable pub x : M (Unit {0})
  x = do one_param; one_quote; q ← lis (← get_stack); exec q

  unfoldable pub ifte : M (Unit {0})
  ifte = do
    three_params
    three_quotes
    saving do
      set_stack (nextnode3 (← saved))
      exec_saved exec nextnode2
      yes' ← result host
      set_stack (nextnode3 (← saved))
      exec_saved exec (if yes' then nextnode1 else λ t. t)

  -- IF_TYPE(PROCEDURE, NAME, TYP)
  unfoldable pub if_type : ℕ → M (Unit {0})
  if_type typ = do
    three_params
    two_quotes
    saving do
      s ← saved
      set_stack (nextnode2 s)
      exec_saved exec (if nodetype (nextnode2 s) == typ then nextnode1 else λ t. t)

  -- The search of `case`: it stops at the pair that matches X, at the last node, and at a node that
  -- is no list.
  unfoldable pub case_loop : List Entry → Term → Term → M Term
  case_loop symtab elem nil = pure nil
  case_loop symtab elem (n ⊳ nil) = pure (n ⊳ nil)
  case_loop symtab elem (list t ⊳ n ⊳ rest) =
      let further = case_loop symtab elem (n ⊳ rest) in
      if is_zero (compare host symtab t elem) then pure (list t ⊳ n ⊳ rest) else further
  case_loop symtab elem (f ⊳ n ⊳ rest) = pure (f ⊳ n ⊳ rest)

  unfoldable pub case : M (Unit {0})
  case = do
    two_params
    list_top
    s ← get_stack
    t ← lis s
    check (not (is_nil t)) Error.non_empty_list
    symtab ← get_symtab
    n ← case_loop symtab (nextnode1 s) t
    check_list (nodetype n)
    q ← lis n
    if is_nil (nextnode1 n)
        then (do set_stack (nextnode1 s); exec q)
        else (do set_stack (nextnode2 s); exec (nextnode1 q))

  -- The search of `opcase`, on the type of X.
  unfoldable pub opcase_loop : Term → Term → M Term
  opcase_loop elem nil = pure nil
  opcase_loop elem (n ⊳ nil) = pure (n ⊳ nil)
  opcase_loop elem (list t ⊳ n ⊳ rest) = do
    same ← same_type elem t
    if same then pure (list t ⊳ n ⊳ rest) else opcase_loop elem (n ⊳ rest)
  opcase_loop elem (f ⊳ n ⊳ rest) = pure (f ⊳ n ⊳ rest)

  unfoldable pub opcase : M (Unit {0})
  opcase = do
    two_params
    list_top
    s ← get_stack
    t ← lis s
    check (not (is_nil t)) Error.non_empty_list
    n ← opcase_loop (nextnode1 s) t
    check_list (nodetype n)
    q ← lis n
    unary (list (if is_nil (nextnode1 n) then q else nextnode1 q))

  -- The check of `cond`: every clause but the last begins with a list.
  unfoldable pub check_clauses : Term → M (Unit {0})
  check_clauses nil = pure tt
  check_clauses (n ⊳ nil) = pure tt
  check_clauses (n ⊳ m ⊳ rest) = do
    clause ← lis (n ⊳ nil)
    check_list (nodetype clause)
    check_clauses (m ⊳ rest)

  -- The tests of `cond` and of `condlinrec`, on the stack `below`: the index of the clause that is
  -- taken, and whether its test passed.
  unfoldable pub try_clauses : Term → Term → M (Term × Bool)
  try_clauses below nil = pure (nil, false)
  try_clauses below (n ⊳ nil) = pure (n ⊳ nil, false)
  try_clauses below (n ⊳ m ⊳ rest) = do
    set_stack below
    clause ← lis (n ⊳ nil)
    q ← lis clause
    exec q
    yes' ← result host
    if yes' then pure (n ⊳ m ⊳ rest, true) else try_clauses below (m ⊳ rest)

  unfoldable pub cond : M (Unit {0})
  cond = do
    one_param
    list_top
    clauses ← lis (← get_stack)
    check (not (is_nil clauses)) Error.non_empty_list
    check_clauses clauses
    saving do
      s ← saved
      (n, passed) ← try_clauses (nextnode1 s) clauses
      set_stack (nextnode1 (← saved))
      clause ← lis n
      exec (if passed then nextnode1 clause else clause)
