-- ===== src/Aggregate/Index.antt =====
-- `at` and `of` of src/builtin/aggregate.c: OF_AT of src/builtin/builtin_macros.h.
use joy.Prelude.{ℕ, zero, suc, not, if◌then◌else◌, ◌==◌, leb, length, Option, none, some, get_elem?}
use joy.Prelude.Int.{ℤ, pos, negsuc, pos_part}
use joy.Word.{int32, of_byte}
use joy.Bits.{setsize}
use joy.Syntax.{Factor, Term, char, integer, set, string, list, node, is_nil, nextnode1}
use joy.Machine.{Error, M, raise, undefined, ◌>>=◌, ◌>>◌}
use joy.Machine.Macros.{get_stack, binary, gbinary, check, two_params, num}
use joy.Machine.Checks.{positive_index}
use joy.Aggregate.SetLoops.{nth_member}

-- OF_AT(PROCEDURE, NAME, AGGR, INDEX), after the conversion of the index to `int`. A negative index
-- is too small for no test: the list gives its first member, the string is read before its start.
unfoldable pub nth_node : ℕ → Term → M (Unit {0})
nth_node zero t = gbinary t
nth_node (suc n) t =
    let further = nth_node n (nextnode1 t) in
    if is_nil (nextnode1 t) then raise Error.smaller_index else further

-- What follows a search, without and with a result.
abbrev pub chosen : Option ℕ → M (Unit {0}) → (ℕ → M (Unit {0})) → M (Unit {0})
chosen none m k = m
chosen (some i) m k = k i

unfoldable pub at_index : ℤ → Factor → M (Unit {0})
at_index (pos n) (set a) = do
  check (not (a == 0)) Error.non_empty_set
  chosen (nth_member setsize 0 n a) (raise Error.smaller_index) (λ i. binary (integer (pos i)))
at_index (negsuc n) (set a) = do check (not (a == 0)) Error.non_empty_set; raise Error.smaller_index
at_index (pos n) (string s) =
    if leb (length s) n
    then raise Error.smaller_index
    else chosen (get_elem? s n) undefined (λ c. binary (char (of_byte c)))
at_index (negsuc n) (string s) = undefined
at_index n (list t) = do check (not (is_nil t)) Error.non_empty_list; nth_node (pos_part n) t
at_index _ _ = raise Error.aggregate_parameter

unfoldable pub at : M (Unit {0})
at = do
  two_params
  s ← get_stack
  positive_index s
  n ← num s
  at_index (int32 n) (node (nextnode1 s))

unfoldable pub of : M (Unit {0})
of = do
  two_params
  s ← get_stack
  positive_index (nextnode1 s)
  n ← num (nextnode1 s)
  at_index (int32 n) (node s)
