-- ===== src/Machine/Checks.antt =====
-- The checks of include/runtime.h on the types and values of operands.
use joy.Prelude.{ℕ, Bool, false, not, ◌&&◌, ◌||◌, ◌==◌, ltb}
use joy.Prelude.Int.{ℤ, pos, negsuc}
use joy.Word.{is_neg}
use joy.Bits.{setsize}
use joy.Syntax.{Term, ◌⊳◌, integer, char, boolean, float, nodetype, nextnode1, is_nil}
use joy.Machine.{Error, M, pure, raise, ◌>>=◌}
use joy.Compare.{is_zero}
use joy.Machine.Host.{Host}
use joy.Machine.Macros.{macros, get_stack, check, num}

-- FLOATABLE, FLOATABLE2
abbrev pub floatable : Term → Bool
floatable s = nodetype s == 6 || nodetype s == 10

abbrev pub floatable2 : Term → Bool
floatable2 s =
    nodetype s == 10 && nodetype (nextnode1 s) == 10
    || nodetype s == 10 && nodetype (nextnode1 s) == 6
    || nodetype s == 6 && nodetype (nextnode1 s) == 10

-- FLOATVAL of the node that an index leads to
unfoldable pub floatval : Host → Term → M ℕ
unfolding num ◌>>=◌
floatval host (float d ⊳ _) = pure d
floatval host t = do z ← num t; pure (host.float_of z)

abbrev pub zero_divisor : Host → Term → Bool
zero_divisor host (float d ⊳ _) = host.float_is_zero d
zero_divisor host (integer z ⊳ _) = is_zero z
zero_divisor host _ = false

unfoldable pub same_types : M (Unit {0})
unfolding get_stack check ◌>>=◌
same_types = do s ← get_stack; check (nodetype s == nodetype (nextnode1 s)) Error.same_types

unfoldable pub two_integers : M (Unit {0})
unfolding get_stack check ◌>>=◌
two_integers = do
  s ← get_stack
  check (nodetype s == 6 && nodetype (nextnode1 s) == 6) Error.two_integers

unfoldable pub integer_second : M (Unit {0})
unfolding get_stack check ◌>>=◌
integer_second = do s ← get_stack; check (nodetype (nextnode1 s) == 6) Error.integer_second

unfoldable pub numeric_type : M (Unit {0})
unfolding get_stack check ◌>>=◌
numeric_type = do
  s ← get_stack
  check (nodetype s == 6 || nodetype s == 5 || nodetype s == 4) Error.numeric

unfoldable pub numeric2 : M (Unit {0})
unfolding get_stack check ◌>>=◌
numeric2 = do
  s ← get_stack
  check (nodetype (nextnode1 s) == 6 || nodetype (nextnode1 s) == 5) Error.numeric_second

unfoldable pub float_top : M (Unit {0})
unfolding get_stack check ◌>>=◌
float_top = do s ← get_stack; check (floatable s) Error.float_or_integer

unfoldable pub check_zero : M (Unit {0})
unfolding get_stack num check ◌>>=◌
check_zero = do s ← get_stack; z ← num s; check (not (is_zero z)) Error.non_zero_operand

unfoldable pub check_divisor : Host → M (Unit {0})
unfolding get_stack check ◌>>=◌
check_divisor host = do s ← get_stack; check (not (zero_divisor host s)) Error.non_zero_divisor

unfoldable pub list_second : M (Unit {0})
unfolding get_stack check ◌>>=◌
list_second = do s ← get_stack; check (nodetype (nextnode1 s) == 9) Error.list_second

-- CHECKLIST(OPR, NAME)
unfoldable pub check_list : ℕ → M (Unit {0})
unfolding check ◌>>=◌
check_list opr = check (opr == 9) Error.internal_list

-- CHECKSETMEMBER: an integer or a character from 0 to SETSIZE - 1
abbrev pub small : ℤ → Bool
small (pos n) = ltb n setsize
small (negsuc _) = false

unfoldable pub check_set_member : Term → M (Unit {0})
unfolding check ◌>>=◌
check_set_member (integer z ⊳ _) = check (small z) Error.small_numeric
check_set_member (char z ⊳ _) = check (small z) Error.small_numeric
check_set_member _ = raise Error.small_numeric

unfoldable pub check_character : Term → M (Unit {0})
unfolding check ◌>>=◌
check_character t = check (nodetype t == 5) Error.character

-- POSITIVEINDEX: an integer or a truth value that is not negative
unfoldable pub positive_index : Term → M (Unit {0})
unfolding check ◌>>=◌
positive_index (integer z ⊳ _) = check (not (is_neg z)) Error.non_negative_integer
positive_index (boolean z ⊳ _) = check (not (is_neg z)) Error.non_negative_integer
positive_index _ = raise Error.non_negative_integer

unfoldable pub check_stack : M (Unit {0})
unfolding get_stack check ◌>>=◌
check_stack = do s ← get_stack; check (not (is_nil s)) Error.non_empty_stack

unfoldable pub check_value : M (Unit {0})
unfolding get_stack check ◌>>=◌
check_value = do s ← get_stack; check (not (is_nil s)) Error.value_to_push

-- The checks open on the `unfolding` line of what names this.
unfoldable pub checks : Unit {0}
unfolding macros floatval same_types two_integers integer_second numeric_type numeric2 float_top
    check_zero check_divisor list_second check_list check_set_member check_character positive_index
    check_stack check_value
checks = tt
