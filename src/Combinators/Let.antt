-- ===== src/Combinators/Let.antt =====
-- `let` of src/builtin/combinators.c: names are bound to values from the stack while the body runs.
use mathlib.Core.List.{reverse}
use joy.Prelude.{ℕ, zero, suc, true, if◌then◌else◌, List, [], ◌∷◌, Option, none, some}
use joy.Syntax.{Factor, Term, nil, ◌⊳◌, usr, anon_funct, node, is_nil, nextnode1, nextnode2}
use joy.Machine.{Entry, Error, ok, M, pure, raise, ◌>>=◌, ◌>>◌}
use joy.Machine.Macros.{get_stack, set_stack, pop_stack, two_params, two_quotes, lis}
use joy.Aggregate.Variables.{modify_at}
use joy.Comparison.{get_symtab}

-- The names must be user symbols; a builtin is refused with a message of its own.
unfoldable pub let_names : Term → M (List ℕ)
let_names nil = pure []
let_names (usr i ⊳ t) = do others ← let_names t; pure (i ∷ others)
let_names (anon_funct _ ⊳ _) = raise Error.builtin_name
let_names _ = raise Error.not_a_symbol

abbrev pub bound : Factor → Entry → Entry
bound f x = record x { is_user = true; body = f ⊳ nil }

unfoldable pub set_symtab : List Entry → M (Unit {0})
set_symtab t e = ok tt (record e { symtab = t })

abbrev pub entry_at : List Entry → ℕ → Option Entry
entry_at [] i = none
entry_at (x ∷ t) zero = some x
entry_at (x ∷ t) (suc i) = entry_at t i

-- vec_at(env->symtab, indices[i]) = saved_entries[i], one entry after the other
abbrev pub put_back : List (ℕ × Option Entry) → List Entry → List Entry
put_back [] t = t
put_back ((i, none) ∷ kept) t = put_back kept t
put_back ((i, some x) ∷ kept) t = put_back kept (modify_at i (λ _. x) t)

unfoldable pub restore : List (ℕ × Option Entry) → M (Unit {0})
restore kept = do t ← get_symtab; set_symtab (put_back kept t)

-- The names from the last to the first, with the entries that are kept, the newest first. Without a
-- value for a name the others are unbound again.
unfoldable pub bind_loop : List ℕ → List (ℕ × Option Entry) → M (List (ℕ × Option Entry))
bind_loop [] kept = pure kept
bind_loop (i ∷ names) kept = do
  s ← get_stack
  if is_nil s then (do restore (reverse kept); raise Error.too_few_values) else (do
    pop_stack
    t ← get_symtab
    set_symtab (modify_at i (bound (node s)) t)
    bind_loop names ((i, entry_at t i) ∷ kept))

-- With no names the body is executed and nothing is kept.
unfoldable pub let_ : (Term → M (Unit {0})) → M (Unit {0})
let_ exec = do
  two_params
  two_quotes
  s ← get_stack
  body ← lis s
  quoted ← lis (nextnode1 s)
  set_stack (nextnode2 s)
  names ← let_names quoted
  kept ← bind_loop (reverse names) []
  exec body
  restore kept
