-- ===== src/Sets.antt =====
-- src/builtin/sets.c, with ANDORXOR and INHAS of src/builtin/builtin_macros.h, and the two constants
-- of src/builtin/boolean.c.
pub mod Members
pub mod Keeps
use joy.Prelude.{ℕ, Bool, true, false, not, ◌&&◌, ◌||◌, if◌then◌else◌, ◌==◌, List, [], ◌∷◌}
use joy.Prelude.Int.{ℤ, pos, ◌-ℤ◌}
use joy.Word.{of_byte}
use joy.Bits.{test, bit_and, bit_or, bit_xor, bit_not}
use joy.Syntax.{Factor, Term, nil, ◌⊳◌, boolean, char, integer, set, string, list, node, nextnode1}
use joy.Syntax.Ops.{SetOp}
use joy.Machine.{Entry, Error, M, pure, raise, ◌>>=◌, ◌>>◌}
use joy.Machine.Host.{Host}
use joy.Machine.Macros.{macros, get_stack, nullary, unary, binary, one_param, two_params, num}
use joy.Machine.Checks.{checks, same_types, check_set_member}
use joy.Compare.{is_zero, compare}
use joy.Comparison.{truth, get_symtab}

abbrev pub is_true : ℤ → Bool
is_true z = not (is_zero z)

-- ANDORXOR(PROCEDURE, NAME, OPER1, OPER2), the switch on the two operands of one type
unfoldable pub combine : (ℕ → ℕ → ℕ) → (ℤ → ℤ → Bool) → Factor → Factor → M (Unit {0})
combine oper1 oper2 (set b) (set a) = binary (set (oper1 b a))
combine oper1 oper2 (boolean b) (boolean a) = binary (boolean (truth (oper2 b a)))
combine oper1 oper2 (char b) (char a) = binary (boolean (truth (oper2 b a)))
combine oper1 oper2 (integer b) (integer a) = binary (boolean (truth (oper2 b a)))
combine oper1 oper2 _ _ = raise Error.different_type

unfoldable pub andorxor : (ℕ → ℕ → ℕ) → (ℤ → ℤ → Bool) → M (Unit {0})
andorxor oper1 oper2 = do
  two_params
  same_types
  s ← get_stack
  combine oper1 oper2 (node (nextnode1 s)) (node s)

-- (set & ((int64_t)1 << num)) > 0, for a `num` that CHECKSETMEMBER has let pass
abbrev pub member : ℕ → ℤ → Bool
member a (pos n) = test n a
member a _ = false

-- *str && *str != num: the search stops at the character or at the end.
unfoldable pub find_char : List ℕ → ℤ → Bool
find_char [] z = false
find_char (c ∷ s) z = is_zero (of_byte c -ℤ z) || find_char s z

-- node && Compare(env, node, elem)
unfoldable pub find_node : Host → List Entry → Term → Term → Bool
find_node host symtab nil elem = false
find_node host symtab (x ⊳ t) elem =
    is_zero (compare host symtab (x ⊳ t) elem) || find_node host symtab t elem

-- INHAS(PROCEDURE, NAME, AGGR, ELEM)
unfoldable pub found_in : Host → Factor → Term → M Bool
found_in host (set a) elem = do check_set_member elem; z ← num elem; pure (member a z)
found_in host (string s) elem = do z ← num elem; pure (find_char s z)
found_in host (list t) elem = do symtab ← get_symtab; pure (find_node host symtab t elem)
found_in host _ elem = raise Error.aggregate_parameter

unfoldable pub has : Host → M (Unit {0})
has host = do
  two_params
  s ← get_stack
  found ← found_in host (node (nextnode1 s)) s
  binary (boolean (truth found))

unfoldable pub in_ : Host → M (Unit {0})
in_ host = do
  two_params
  s ← get_stack
  found ← found_in host (node s) (nextnode1 s)
  binary (boolean (truth found))

unfoldable pub complement : Factor → M (Unit {0})
complement (set a) = unary (set (bit_not a))
complement (boolean z) = unary (boolean (truth (is_zero z)))
complement (char z) = unary (boolean (truth (is_zero z)))
complement (integer z) = unary (boolean (truth (is_zero z)))
complement _ = raise Error.different_type

unfoldable pub run : Host → SetOp → M (Unit {0})
run host SetOp.false = nullary (boolean (pos 0))
run host SetOp.and = andorxor bit_and (λ b a. is_true b && is_true a)
run host SetOp.has = has host
run host SetOp.in_ = in_ host
run host SetOp.not = do one_param; s ← get_stack; complement (node s)
run host SetOp.or = andorxor bit_or (λ b a. is_true b || is_true a)
run host SetOp.true = nullary (boolean (pos 1))
run host SetOp.xor = andorxor bit_xor (λ b a. is_true (b -ℤ a))

-- The operators open on the `unfolding` line of what names this.
unfoldable pub sets_code : Unit {0}
unfolding macros checks combine andorxor found_in has in_ complement run
sets_code = tt
