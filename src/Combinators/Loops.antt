-- ===== src/Combinators/Loops.antt =====
-- The loops of src/builtin/combinators.c, `some` and `all` of src/builtin/boolean.c (SOMEALL of
-- src/builtin/builtin_macros.h) and `split` of src/builtin/aggregate.c. The loops over the three
-- kinds of aggregates differ in how a member is pushed: one loop over the members stands for them.
use joy.Prelude.{ℕ, zero, suc, ltb, if◌then◌else◌, Bool, true, not, List, [], ◌∷◌, none, some}
use joy.Prelude.Int.{ℤ, pos, negsuc, pos_part}
use joy.Word.{byte, int32}
use joy.Bits.{setsize, single, bit_or}
use joy.Syntax.{
  Factor, Term, nil, ◌⊳◌, boolean, char, integer, set, string, list, node, nextnode1, nextnode2,
}
use joy.Machine.{Error, M, pure, raise, undefined, ◌>>=◌, ◌>>◌}
use joy.Machine.Host.{Host}
use joy.Machine.Macros.{
  get_stack, set_stack, nullary, two_params, three_params, one_quote, two_quotes, saved, saving,
  num,
}
use joy.Machine.Checks.{check_stack, integer_second}
use joy.Aggregate.{c_string}
use joy.Comparison.{truth}
use joy.Stacks
use joy.Combinators.Members.{members, exec_saved, result}

-- The members of SAVED2, and the error for what is no aggregate.
unfoldable pub aggregate : Error → Factor → M Term
aggregate e f = elim (members f) [ none ↦ raise e | some t ↦ pure t ]

-- The aggregate of one type with given members, from those members of an aggregate of that type.
unfoldable pub set_of : Term → ℕ
set_of nil = 0
set_of (integer z ⊳ t) = bit_or (set_of t) (single (pos_part z))
set_of (_ ⊳ t) = set_of t

unfoldable pub string_of : Term → List ℕ
string_of nil = []
string_of (char z ⊳ t) = byte z ∷ string_of t
string_of (_ ⊳ t) = string_of t

unfoldable pub collect : Factor → Term → Factor
collect (set _) t = set (set_of t)
collect (string _) t = string (string_of t)
collect _ t = list t

-- `map` collects results of any type: a character is the low byte of the number, a set member has
-- to be a shift count of C.
unfoldable pub string_result : Term → M (List ℕ)
string_result nil = pure []
string_result (n ⊳ t) = do z ← num (n ⊳ nil); s ← string_result t; pure (c_string (byte z) s)

unfoldable pub shift : ℤ → M ℕ
shift (pos n) = if ltb n setsize then pure (single n) else undefined
shift (negsuc _) = undefined

unfoldable pub set_result : Term → M ℕ
set_result nil = pure 0
set_result (n ⊳ t) = do z ← num (n ⊳ nil); b ← shift z; a ← set_result t; pure (bit_or a b)

unfoldable pub map_result : Factor → Term → M Factor
map_result (set _) t = do a ← set_result t; pure (set a)
map_result (string _) t = do s ← string_result t; pure (string s)
map_result _ t = pure (list t)

module _ (host : Host) (exec : Term → M (Unit {0})) where
  -- A member goes onto SAVED3, [P] is executed, and something must be on the stack.
  unfoldable pub on_member : Factor → M (Unit {0})
  on_member x = do set_stack (x ⊳ nextnode2 (← saved)); exec_saved exec (λ q. q); check_stack

  unfoldable pub filter_loop : Bool → Term → M Term
  filter_loop wanted nil = pure nil
  filter_loop wanted (x ⊳ t) = do
    on_member x
    passed ← result host
    others ← filter_loop wanted t
    pure (if passed then x ⊳ others else others)

  unfoldable pub filter : M (Unit {0})
  filter = do
    two_params
    one_quote
    saving do
      s ← saved
      t ← aggregate Error.aggregate_parameter (node (nextnode1 s))
      kept ← filter_loop true t
      set_stack (collect (node (nextnode1 s)) kept ⊳ nextnode2 (← saved))

  unfoldable pub split_loop : Term → M (Term × Term)
  split_loop nil = pure (nil, nil)
  split_loop (x ⊳ t) = do
    on_member x
    passed ← result host
    (pass, fail) ← split_loop t
    pure (if passed then (x ⊳ pass, fail) else (pass, x ⊳ fail))

  unfoldable pub split : M (Unit {0})
  split = do
    two_params
    one_quote
    saving do
      s ← saved
      t ← aggregate Error.aggregate_parameter (node (nextnode1 s))
      (pass, fail) ← split_loop t
      set_stack (collect (node (nextnode1 s)) pass ⊳ nextnode2 (← saved))
      nullary (collect (node (nextnode1 s)) fail)

  unfoldable pub map_loop : Term → M Term
  map_loop nil = pure nil
  map_loop (x ⊳ t) = do on_member x; s ← get_stack; others ← map_loop t; pure (node s ⊳ others)

  unfoldable pub map : M (Unit {0})
  map = do
    two_params
    one_quote
    saving do
      s ← saved
      t ← aggregate Error.aggregate_parameter (node (nextnode1 s))
      new ← map_loop t
      f ← map_result (node (nextnode1 s)) new
      set_stack (f ⊳ nextnode2 (← saved))

  -- SOMEALL: the loop ends at the first member whose test differs from `initial`.
  unfoldable pub someall_loop : Bool → Term → M Bool
  someall_loop initial nil = pure initial
  someall_loop initial (x ⊳ t) = do
    on_member x
    passed ← result host
    if (if initial then passed else not passed) then someall_loop initial t else pure (not initial)

  unfoldable pub someall : Bool → M (Unit {0})
  someall initial = do
    two_params
    one_quote
    saving do
      s ← saved
      t ← aggregate Error.aggregate_parameter (node (nextnode1 s))
      end_result ← someall_loop initial t
      set_stack (boolean (truth end_result) ⊳ nextnode2 (← saved))

  unfoldable pub step_loop : Term → M (Unit {0})
  step_loop nil = pure tt
  step_loop (x ⊳ t) = do nullary x; exec_saved exec (λ q. q); step_loop t

  unfoldable pub step : M (Unit {0})
  step = do
    two_params
    one_quote
    saving do
      s ← saved
      set_stack (nextnode2 s)
      t ← aggregate Error.aggregate_parameter (node (nextnode1 s))
      step_loop t

  unfoldable pub fold : M (Unit {0})
  fold = do three_params; Stacks.swapd; step

  unfoldable pub times_loop : ℕ → M (Unit {0})
  times_loop zero = pure tt
  times_loop (suc n) = do exec_saved exec (λ q. q); times_loop n

  unfoldable pub times : M (Unit {0})
  times = do
    two_params
    one_quote
    integer_second
    saving do s ← saved; set_stack (nextnode2 s); n ← num (nextnode1 s); times_loop (pos_part n)

  -- `primrec` pushes all members, or N to 1, executes [I], and then [C] once for each.
  unfoldable pub count_down : ℕ → Term
  count_down zero = nil
  count_down (suc n) = integer (pos (suc n)) ⊳ count_down n

  unfoldable pub push_all : Term → M (Unit {0})
  push_all nil = pure tt
  push_all (x ⊳ t) = do nullary x; push_all t

  unfoldable pub primrec_members : Factor → M Term
  primrec_members (integer z) = pure (count_down (pos_part (int32 z)))
  primrec_members f = aggregate Error.different_type f

  unfoldable pub times_term : Term → M (Unit {0})
  times_term nil = pure tt
  times_term (_ ⊳ t) = do exec_saved exec (λ q. q); times_term t

  unfoldable pub primrec : M (Unit {0})
  primrec = do
    three_params
    two_quotes
    saving do
      s ← saved
      set_stack (nextnode1 (nextnode2 s))
      t ← primrec_members (node (nextnode2 s))
      push_all t
      exec_saved exec nextnode1
      times_term t
