-- ===== src/Aggregate/Parts.antt =====
-- `drop` and `take` of src/builtin/aggregate.c.
use joy.Prelude.{ℕ, zero, suc, if◌then◌else◌, leb, List, [], ◌∷◌, length}
use joy.Prelude.Int.{ℤ, pos, negsuc, pos_part}
use joy.Word.{int32}
use joy.Bits.{setsize}
use joy.Syntax.{Factor, Term, nil, ◌⊳◌, set, string, list, node, nextnode1}
use joy.Machine.{Error, M, pure, raise, undefined, ◌>>=◌, ◌>>◌}
use joy.Machine.Macros.{get_stack, unary, pop_stack, two_params, num}
use joy.Machine.Checks.{positive_index}
use joy.Aggregate.SetLoops.{take_set, drop_set}

abbrev pub drop_list : ℕ → Term → Term
drop_list zero t = t
drop_list (suc n) nil = nil
drop_list (suc n) (_ ⊳ t) = drop_list n t

abbrev pub take_list : ℕ → Term → Term
take_list zero t = nil
take_list (suc n) nil = nil
take_list (suc n) (x ⊳ t) = x ⊳ take_list n t

abbrev pub drop_string : ℕ → List ℕ → List ℕ
drop_string zero s = s
drop_string (suc n) [] = []
drop_string (suc n) (_ ∷ s) = drop_string n s

abbrev pub take_string : ℕ → List ℕ → List ℕ
take_string zero s = []
take_string (suc n) [] = []
take_string (suc n) (c ∷ s) = c ∷ take_string n s

-- `while (n-- > 0 && …)`, after the conversion to `int`: no round if n is negative.
unfoldable pub drop_from : ℤ → Factor → M (Unit {0})
drop_from n (set a) = unary (set (drop_set setsize 0 (pos_part n) a 0))
drop_from n (string s) = unary (string (drop_string (pos_part n) s))
drop_from n (list t) = unary (list (drop_list (pos_part n) t))
drop_from n _ = raise Error.aggregate_parameter

unfoldable pub drop : M (Unit {0})
drop = do
  two_params
  s ← get_stack
  positive_index s
  n ← num s
  pop_stack
  drop_from (int32 n) (node (nextnode1 s))

-- `for (; DMP1 && n; …, n--)`: a negative n never becomes 0, and all nodes are copied. A string is
-- cut at str[n], which lies before the string if n is negative.
unfoldable pub take_from : ℤ → Factor → M (Unit {0})
take_from (pos n) (set a) = unary (set (take_set setsize 0 n a 0))
take_from (negsuc n) (set a) = unary (set (take_set setsize 0 setsize a 0))
take_from (pos n) (string s) =
    if leb (length s) n then pure tt else unary (string (take_string n s))
take_from (negsuc n) (string s) = undefined
take_from (pos n) (list t) = unary (list (take_list n t))
take_from (negsuc n) (list t) = unary (list t)
take_from _ _ = raise Error.aggregate_parameter

unfoldable pub take : M (Unit {0})
take = do
  two_params
  s ← get_stack
  positive_index s
  n ← num s
  pop_stack
  take_from (int32 n) (node (nextnode1 s))
