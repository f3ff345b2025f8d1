-- ===== src/Aggregate/Variables.antt =====
-- `assign` and `unassign` of src/builtin/aggregate.c: the body of a user defined name is set.
use joy.Prelude.{ℕ, zero, suc, Bool, true, if◌then◌else◌, List, [], ◌∷◌}
use joy.Syntax.{Term, nil, ◌⊳◌, usr, node}
use joy.Machine.{Entry, Error, ok, M, raise, ◌>>=◌, ◌>>◌}
use joy.Machine.Macros.{get_stack, pop_stack, one_param, two_params, one_quote, lis}

abbrev pub modify_at : ℕ → (Entry → Entry) → List Entry → List Entry
modify_at i f [] = []
modify_at zero f (x ∷ t) = f x ∷ t
modify_at (suc i) f (x ∷ t) = x ∷ modify_at i f t

-- The entry of a name becomes a variable with the new body.
abbrev pub variable : Term → Entry → Entry
variable body x = record x { is_user = true; is_root = true; body = body }

-- The first variable that is assigned is marked as the last that the collector has to visit.
abbrev pub marked : Bool → Entry → Entry
marked busy x = if busy then x else record x { is_last = true }

unfoldable pub set_variable : ℕ → Term → M (Unit {0})
set_variable i body e = ok tt (record e {
  symtab = modify_at i (λ x. marked e.variable_busy (variable body x)) e.symtab;
  variable_busy = true;
})

unfoldable pub clear_variable : ℕ → M (Unit {0})
clear_variable i e = ok tt (record e { symtab = modify_at i (variable nil) e.symtab })

-- CHECKEMPTYLIST and USERDEF2 on the quoted name, and its index
unfoldable pub user_name : Term → M ℕ
user_name nil = raise Error.non_empty_list
user_name (usr i ⊳ _) = λ e. ok i e
user_name (_ ⊳ _) = raise Error.user_defined

unfoldable pub assign : M (Unit {0})
assign = do
  two_params
  one_quote
  t ← lis (← get_stack)
  i ← user_name t
  pop_stack
  value ← get_stack
  pop_stack
  set_variable i (node value ⊳ nil)

unfoldable pub unassign : M (Unit {0})
unassign = do
  one_param
  one_quote
  t ← lis (← get_stack)
  i ← user_name t
  pop_stack
  clear_variable i
