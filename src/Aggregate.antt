-- ===== src/Aggregate.antt =====
-- src/builtin/aggregate.c (all but `split`), with CONS_SWONS and OF_AT of
-- src/builtin/builtin_macros.h. A loop that copies a list node by node, with its ends in `dump1` to
-- `dump3`, leaves those dumps as they were: it is the copy here.
pub mod SetLoops
pub mod Variables
mod Parts
mod Index
pub mod Bounds
pub mod Keeps
pub mod Uncons
use joy.Prelude.{
  ℕ, zero, suc, ◌+◌, Bool, true, false, not, ◌&&◌, ◌||◌, if◌then◌else◌, ◌==◌, ltb, leb, List, [],
  ◌∷◌, ◌++◌, length, Option, none, some, get_elem?,
}
use joy.Prelude.Int.{ℤ, pos, negsuc, pos_part, ltb_ℤ}
use joy.Word.{int32, byte, of_byte}
use joy.Bits.{test, setsize, single, bit_or, bit_clear}
use joy.Syntax.{
  Factor, Term, nil, ◌⊳◌, boolean, char, integer, set, string, list, float, file, node, is_nil,
  nextnode1, append,
}
use joy.Syntax.Ops.{AggregateOp}
use joy.Machine.{Error, M, pure, raise, undefined, ◌>>=◌, ◌>>◌}
use joy.Machine.Host.{Host}
use joy.Machine.Macros.{
  macros, get_stack, nullary, unary, binary, gnullary, gunary, gbinary, pop_stack, check, one_param,
  two_params, three_params, num, lis, saving, saved,
}
use joy.Machine.Checks.{checks, same_types, check_set_member, check_character, positive_index}
use joy.Compare.{is_zero, is_empty}
use joy.Comparison.{truth}
use joy.Stacks.{swapd}
use Variables.{assign, unassign, user_name, set_variable, clear_variable}
unfoldable pub use Parts.{
  drop_list, take_list, drop_string, take_string, drop_from, drop, take_from, take,
}
unfoldable pub use Index.{nth_node, chosen, at_index, at, of}
use SetLoops.{lowest, nth_member, count_members, take_set, drop_set}

-- The length of a chain.
abbrev pub size_of : Term → ℕ
size_of nil = 0
size_of (_ ⊳ t) = suc (size_of t)

-- A new string ends at its first byte 0 (`strlen` in newnode).
abbrev pub c_string : ℕ → List ℕ → List ℕ
c_string c s = if c == 0 then [] else c ∷ s

-- CONS_SWONS(PROCEDURE, NAME, AGGR, ELEM)
unfoldable pub cons_to : Factor → Term → M (Unit {0})
cons_to (list t) elem = binary (list (node elem ⊳ t))
cons_to (set a) elem = do
  check_set_member elem
  z ← num elem
  binary (set (bit_or a (single (pos_part z))))
cons_to (string s) elem = do
  check_character elem
  z ← num elem
  binary (string (c_string (byte z) s))
cons_to _ elem = raise Error.aggregate_parameter

unfoldable pub cons : M (Unit {0})
cons = do two_params; s ← get_stack; cons_to (node s) (nextnode1 s)

unfoldable pub swons : M (Unit {0})
swons = do two_params; s ← get_stack; cons_to (node (nextnode1 s)) s

unfoldable pub concat_of : Factor → Factor → M (Unit {0})
concat_of (set b) (set a) = binary (set (bit_or b a))
concat_of (string b) (string a) = binary (string (b ++ a))
concat_of (list b) (list a) = if is_nil b then binary (list a) else binary (list (append b a))
concat_of _ _ = raise Error.aggregate_parameter

unfoldable pub concat : M (Unit {0})
concat = do two_params; same_types; s ← get_stack; concat_of (node (nextnode1 s)) (node s)

unfoldable pub enconcat : M (Unit {0})
enconcat = do three_params; same_types; swapd; cons; concat

unfoldable pub first_of : Factor → M (Unit {0})
first_of (list t) = do check (not (is_nil t)) Error.non_empty_list; gunary t
first_of (string []) = raise Error.non_empty_string
first_of (string (c ∷ s)) = unary (char (of_byte c))
first_of (set a) = do
  check (not (a == 0)) Error.non_empty_set
  unary (integer (pos (lowest setsize a)))
first_of _ = raise Error.aggregate_parameter

unfoldable pub first : M (Unit {0})
first = do one_param; s ← get_stack; first_of (node s)

unfoldable pub rest_of : Factor → M (Unit {0})
rest_of (set a) = do
  check (not (a == 0)) Error.non_empty_set
  unary (set (bit_clear a (single (lowest setsize a))))
rest_of (string []) = raise Error.non_empty_string
rest_of (string (c ∷ s)) = unary (string s)
rest_of (list t) = do check (not (is_nil t)) Error.non_empty_list; unary (list (nextnode1 t))
rest_of _ = raise Error.aggregate_parameter

unfoldable pub rest : M (Unit {0})
rest = do one_param; s ← get_stack; rest_of (node s)

unfoldable pub uncons_of : Factor → M (Unit {0})
uncons_of (set a) = do
  check (not (a == 0)) Error.non_empty_set
  unary (integer (pos (lowest setsize a)))
  nullary (set (bit_clear a (single (lowest setsize a))))
uncons_of (string []) = raise Error.non_empty_string
uncons_of (string (c ∷ s)) = do unary (char (of_byte c)); nullary (string s)
uncons_of (list _) = do
  saving do
    t ← lis (← saved)
    check (not (is_nil t)) Error.non_empty_list
    gunary t
    nullary (list (nextnode1 t))
uncons_of _ = raise Error.aggregate_parameter

unfoldable pub uncons : M (Unit {0})
uncons = do one_param; s ← get_stack; uncons_of (node s)

unfoldable pub unswons_of : Factor → M (Unit {0})
unswons_of (set a) = do
  check (not (a == 0)) Error.non_empty_set
  unary (set (bit_clear a (single (lowest setsize a))))
  nullary (integer (pos (lowest setsize a)))
unswons_of (string []) = raise Error.non_empty_string
unswons_of (string (c ∷ s)) = do unary (string s); nullary (char (of_byte c))
unswons_of (list _) = do
  saving do
    t ← lis (← saved)
    check (not (is_nil t)) Error.non_empty_list
    unary (list (nextnode1 t))
    gnullary t
unswons_of _ = raise Error.aggregate_parameter

unfoldable pub unswons : M (Unit {0})
unswons = do one_param; s ← get_stack; unswons_of (node s)

abbrev pub null_of : Host → Factor → Bool
null_of host (boolean z) = is_zero z
null_of host (char z) = is_zero z
null_of host (integer z) = is_zero z
null_of host (set a) = a == 0
null_of host (string s) = is_empty s
null_of host (list t) = is_nil t
null_of host (float d) = host.float_is_zero d
null_of host (file f) = f == 0
null_of host _ = false

unfoldable pub null : Host → M (Unit {0})
null host = do one_param; s ← get_stack; unary (boolean (truth (null_of host (node s))))

unfoldable pub size_at : Factor → M (Unit {0})
size_at (set a) = unary (integer (pos (count_members setsize a)))
size_at (string s) = unary (integer (pos (length s)))
size_at (list t) = unary (integer (pos (size_of t)))
size_at _ = raise Error.aggregate_parameter

unfoldable pub size : M (Unit {0})
size = do one_param; s ← get_stack; size_at (node s)

unfoldable pub small_at : Factor → M (Unit {0})
small_at (boolean z) = unary (boolean (truth (ltb_ℤ z (pos 2))))
small_at (char z) = unary (boolean (truth (ltb_ℤ z (pos 2))))
small_at (integer z) = unary (boolean (truth (ltb_ℤ z (pos 2))))
small_at (set a) = unary (boolean (truth (a == 0 || bit_clear a (single (lowest setsize a)) == 0)))
small_at (string s) = unary (boolean (truth (ltb (length s) 2)))
small_at (list t) = unary (boolean (truth (is_nil t || is_nil (nextnode1 t))))
small_at _ = raise Error.different_type

unfoldable pub small : M (Unit {0})
small = do one_param; s ← get_stack; small_at (node s)

unfoldable pub run : Host → AggregateOp → M (Unit {0})
run host AggregateOp.assign = assign
run host AggregateOp.at = at
run host AggregateOp.concat = concat
run host AggregateOp.cons = cons
run host AggregateOp.drop = drop
run host AggregateOp.enconcat = enconcat
run host AggregateOp.first = first
run host AggregateOp.null = null host
run host AggregateOp.of = of
run host AggregateOp.rest = rest
run host AggregateOp.size = size
run host AggregateOp.small = small
run host AggregateOp.swons = swons
run host AggregateOp.take = take
run host AggregateOp.unassign = unassign
run host AggregateOp.uncons = uncons
run host AggregateOp.unswons = unswons

-- The operators open on the `unfolding` line of what names this.
unfoldable pub aggregate_code : Unit {0}
unfolding macros checks cons_to cons swons concat_of concat drop_from drop take_from take first_of
    first rest_of rest uncons_of uncons unswons_of unswons nth_node at_index at of null size_at size
    small_at small run assign unassign user_name set_variable clear_variable
aggregate_code = tt
