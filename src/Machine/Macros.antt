-- ===== src/Machine/Macros.antt =====
-- The macros of include/macros.h and include/runtime.h, as commands.
use joy.Prelude.{Bool, not, ◌||◌, if◌then◌else◌, ◌==◌}
use joy.Prelude.Int.{ℤ, pos}
use joy.Word.{of_bits}
use joy.Syntax.{
  Factor, Term, nil, ◌⊳◌, list, illegal, boolean, char, integer, set, float, is_nil, node, nodetype,
  nextnode1, nextnode2, nextnode3, nextnode4,
}
use joy.Machine.{Error, ok, M, pure, raise, undefined, ◌>>=◌, ◌>>◌}

unfoldable pub get_stack : M Term
get_stack e = ok e.stck e

unfoldable pub set_stack : Term → M (Unit {0})
set_stack s e = ok tt (record e { stck = s })

-- NULLARY(CONSTRUCTOR, VALUE): the new node in front of the stack.
unfoldable pub nullary : Factor → M (Unit {0})
unfolding get_stack set_stack ◌>>=◌
nullary x = do s ← get_stack; set_stack (x ⊳ s)

-- UNARY and BINARY: one or two nodes are dropped first.
unfoldable pub unary : Factor → M (Unit {0})
unfolding get_stack set_stack ◌>>=◌
unary x = do s ← get_stack; set_stack (x ⊳ nextnode1 s)

unfoldable pub binary : Factor → M (Unit {0})
unfolding get_stack set_stack ◌>>=◌
binary x = do s ← get_stack; set_stack (x ⊳ nextnode2 s)

-- GNULLARY, GUNARY, GBINARY and GTERNARY copy the node that an index leads to (`newnode2`).
unfoldable pub gnullary : Term → M (Unit {0})
unfolding nullary
gnullary n = nullary (node n)

unfoldable pub gunary : Term → M (Unit {0})
unfolding unary
gunary n = unary (node n)

unfoldable pub gbinary : Term → M (Unit {0})
unfolding binary
gbinary n = binary (node n)

unfoldable pub gternary : Term → M (Unit {0})
unfolding get_stack set_stack ◌>>=◌
gternary n = do s ← get_stack; set_stack (node n ⊳ nextnode3 s)

-- POP(env->stck)
unfoldable pub pop_stack : M (Unit {0})
unfolding get_stack set_stack ◌>>=◌
pop_stack = do s ← get_stack; set_stack (nextnode1 s)

-- A run-time check: the error is reported where the test fails.
unfoldable pub check : Bool → Error → M (Unit {0})
unfolding ◌>>=◌
check b x = if b then pure tt else raise x

-- The checks on the depth of the stack. Each macro tests one index after the other.
unfoldable pub one_param : M (Unit {0})
unfolding get_stack check ◌>>=◌
one_param = do s ← get_stack; check (not (is_nil s)) Error.one_parameter

unfoldable pub two_params : M (Unit {0})
unfolding get_stack check ◌>>=◌
two_params = do s ← get_stack; check (not (is_nil s || is_nil (nextnode1 s))) Error.two_parameters

unfoldable pub three_params : M (Unit {0})
unfolding get_stack check ◌>>=◌
three_params = do
  s ← get_stack
  check (not (is_nil s || is_nil (nextnode1 s) || is_nil (nextnode2 s))) Error.three_parameters

unfoldable pub four_params : M (Unit {0})
unfolding get_stack check ◌>>=◌
four_params = do
  s ← get_stack
  check (not (is_nil s || is_nil (nextnode1 s) || is_nil (nextnode2 s) || is_nil (nextnode3 s)))
      Error.four_parameters

unfoldable pub five_params : M (Unit {0})
unfolding get_stack check ◌>>=◌
five_params = do
  s ← get_stack
  check
      (not (
        is_nil s
        || is_nil (nextnode1 s)
        || is_nil (nextnode2 s)
        || is_nil (nextnode3 s)
        || is_nil (nextnode4 s)))
      Error.five_parameters

abbrev pub is_list : Term → Bool
is_list t = nodetype t == 9

-- ONEQUOTE to FOURQUOTES
unfoldable pub one_quote : M (Unit {0})
unfolding get_stack check ◌>>=◌
one_quote = do s ← get_stack; check (is_list s) Error.quotation_top

unfoldable pub two_quotes : M (Unit {0})
unfolding one_quote
two_quotes = do one_quote; s ← get_stack; check (is_list (nextnode1 s)) Error.quotation_second

unfoldable pub three_quotes : M (Unit {0})
unfolding two_quotes
three_quotes = do two_quotes; s ← get_stack; check (is_list (nextnode2 s)) Error.quotation_third

unfoldable pub four_quotes : M (Unit {0})
unfolding three_quotes
four_quotes = do three_quotes; s ← get_stack; check (is_list (nextnode3 s)) Error.quotation_fourth

-- nodevalue(n).lis; node 0 holds 0. Another type's value read as an index is undefined.
unfoldable pub lis : Term → M Term
unfolding ◌>>=◌
lis nil = pure nil
lis (list t ⊳ _) = pure t
lis _ = undefined

unfoldable pub get_dump : M Term
get_dump e = ok e.dump e

unfoldable pub set_dump : Term → M (Unit {0})
set_dump d e = ok tt (record e { dump = d })

-- DMP: what the last SAVESTACK saved. SAVED1 is its first node, SAVED2 the second, and so on.
unfoldable pub saved : M Term
unfolding get_dump lis
saved = do d ← get_dump; lis d

-- POP(env->dump)
unfoldable pub pop_dump : M (Unit {0})
unfolding get_dump set_dump ◌>>=◌
pop_dump = do d ← get_dump; set_dump (nextnode1 d)

-- SAVESTACK, what a builtin does with the saved stack, and POP(env->dump)
unfoldable pub saving : M (Unit {0}) → M (Unit {0})
unfolding get_stack get_dump set_dump pop_dump ◌>>=◌
saving m = do s ← get_stack; d ← get_dump; set_dump (list s ⊳ d); m; pop_dump

-- nodevalue(n).num at a node whose value is a number or a bit pattern.
unfoldable pub num : Term → M ℤ
unfolding ◌>>=◌
num nil = pure (pos 0)
num (illegal ⊳ _) = pure (pos 0)
num (boolean z ⊳ _) = pure z
num (char z ⊳ _) = pure z
num (integer z ⊳ _) = pure z
num (set b ⊳ _) = pure (of_bits 63 b)
num (float b ⊳ _) = pure (of_bits 63 b)
num _ = undefined

-- INTEGER(NAME), LIST(NAME)
unfoldable pub integer_top : M (Unit {0})
unfolding get_stack check ◌>>=◌
integer_top = do s ← get_stack; check (nodetype s == 6) Error.integer_needed

unfoldable pub list_top : M (Unit {0})
unfolding get_stack check ◌>>=◌
list_top = do s ← get_stack; check (is_list s) Error.list_needed

-- The macros open on the `unfolding` line of what names this.
unfoldable pub macros : Unit {0}
unfolding get_stack set_stack nullary unary binary gnullary gunary gbinary gternary pop_stack check
    one_param two_params three_params four_params five_params one_quote two_quotes three_quotes
    four_quotes lis get_dump set_dump saved saving num integer_top list_top ◌>>=◌
macros = tt
