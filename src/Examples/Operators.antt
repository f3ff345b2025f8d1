-- ===== src/Examples/Operators.antt =====
-- The theorems on the operators at concrete values.
use joy.Sets
use joy.Arithmetic
use joy.Comparison
use joy.Prelude.{not, ◌||◌, ◌↔◌, ℕ, Bool, true, false, List, [], ◌∷◌, ◌≡◌, ◌<◌, refl, arith}
use joy.Prelude.Int.{◌*ℤ◌, ◌+ℤ◌, ℤ, pos, negsuc, ltb_ℤ}
use joy.Bits.{test}
use joy.Syntax.{nil, ◌⊳◌, integer, boolean, set, string, list}
use joy.Syntax.Ops.{ArithmeticOp, ComparisonOp, SetOp}
use joy.Machine.{ok, ◌>>◌}
use joy.Combinators.Reads.{on}
use joy.Arithmetic.Division.{div-remainder}
use joy.Arithmetic.Exact.{plus-minus}
use joy.Compare
use joy.Arithmetic.{arithmetic_code, magnitude, signed}
use joy.Sets.Members.{set_operators, in-cons}
use joy.Comparison.Relations.{Decides, IsSubset, relations_lem, leql-sets}
use joy.Comparison.{comparison_code, truth}
use joy.Compare.Order.{opposite, compare-strings}
use joy.Aggregate.{cons, uncons, at}
use joy.Aggregate.Uncons.{uncons-cons}
use joy.Aggregate.Bounds.{at_wraps}
use joy.Examples.{plain_host, start, num, run_code}

div-remainder_example :
    (q : ℤ) × (r : ℤ) × Arithmetic.run plain_host ArithmeticOp.div
        (on start (num 3 ⊳ integer (negsuc 6) ⊳ nil))
      ≡ ok tt (on start (integer r ⊳ integer q ⊳ nil))
    × q *ℤ pos 3 +ℤ r ≡ negsuc 6
    × magnitude r < 3
    × signed true (magnitude r) ≡ r
div-remainder_example = div-remainder plain_host start (pos 3) (negsuc 6) nil refl refl

plus-minus_example :
    Arithmetic.run plain_host ArithmeticOp.plus (on start (num 1 ⊳ num 9223372036854775807 ⊳ nil))
      ≡ ok tt (on start (integer (negsuc 9223372036854775807) ⊳ nil))
    × Arithmetic.run plain_host ArithmeticOp.minus
        (on start (num 1 ⊳ integer (negsuc 9223372036854775807) ⊳ nil))
      ≡ ok tt (on start (num 9223372036854775807 ⊳ nil))
unfolding run_code
plus-minus_example =
    plus-minus plain_host start (pos 1) (pos 9223372036854775807) nil (omega arith) (omega arith)

set_operators_example :
    ((c : ℕ) × Sets.run plain_host SetOp.and (on start (set 3 ⊳ set 6 ⊳ nil))
        ≡ ok tt (on start (set c ⊳ nil))
      × test 1 c ≡ true)
    × ((c : ℕ) × Sets.run plain_host SetOp.or (on start (set 3 ⊳ set 6 ⊳ nil))
          ≡ ok tt (on start (set c ⊳ nil))
        × test 1 c ≡ true)
    × ((c : ℕ) × Sets.run plain_host SetOp.xor (on start (set 3 ⊳ set 6 ⊳ nil))
          ≡ ok tt (on start (set c ⊳ nil))
        × test 1 c ≡ false)
    × (c : ℕ) × Sets.run plain_host SetOp.not (on start (set 3 ⊳ nil))
        ≡ ok tt (on start (set c ⊳ nil))
    × test 1 c ≡ false
unfolding test
set_operators_example = set_operators plain_host start 3 6 nil 1 (omega arith)

in-cons_example :
    (c : ℕ) × cons (on start (set 3 ⊳ num 5 ⊳ nil)) ≡ ok tt (on start (set c ⊳ nil))
    × Sets.in_ plain_host (on start (set c ⊳ num 5 ⊳ nil))
      ≡ ok tt (on start (boolean (pos 1) ⊳ nil))
unfolding test
in-cons_example = in-cons plain_host start 3 5 5 nil (omega arith) (omega arith)

relations_lem_example :
    Decides plain_host ComparisonOp.less ltb_ℤ
    × Decides plain_host ComparisonOp.leql (λ b a. not (ltb_ℤ a b))
    × Decides plain_host ComparisonOp.greater (λ b a. ltb_ℤ a b)
    × Decides plain_host ComparisonOp.geql (λ b a. not (ltb_ℤ b a))
    × Decides plain_host ComparisonOp.eql (λ b a. not (ltb_ℤ b a || ltb_ℤ a b))
    × Decides plain_host ComparisonOp.neql (λ b a. ltb_ℤ b a || ltb_ℤ a b)
relations_lem_example = relations_lem plain_host

leql-sets_example :
    (c : Bool) × (Comparison.run plain_host ComparisonOp.leql (on start (set 7 ⊳ set 5 ⊳ nil))
      ≡ ok tt (on start (boolean (truth c) ⊳ nil)))
    × (c ≡ true ↔ IsSubset 5 7)
leql-sets_example = leql-sets plain_host start 5 7 nil (omega arith) (omega arith)

abbrev letter_a : List ℕ
letter_a = 97 ∷ []

abbrev letter_b : List ℕ
letter_b = 98 ∷ []

compare-strings_example :
    (Compare.compare plain_host [] (string letter_a ⊳ nil) (string letter_b ⊳ nil) ≡ pos 0
      ↔ letter_a ≡ letter_b)
    × Compare.compare plain_host [] (string letter_b ⊳ nil) (string letter_a ⊳ nil)
      ≡ opposite (Compare.compare plain_host [] (string letter_a ⊳ nil) (string letter_b ⊳ nil))
compare-strings_example = compare-strings plain_host [] letter_a letter_b nil nil

uncons-cons_example : (uncons >> cons) (on start (set 10 ⊳ nil)) ≡ ok tt (on start (set 10 ⊳ nil))
uncons-cons_example = uncons-cons start (set 10) nil ((λ h. ground (arith, h)), omega arith)

at_wraps_example :
    at (on start (num 4294967297 ⊳ list (num 5 ⊳ num 6 ⊳ nil) ⊳ nil))
    ≡ ok tt (on start (num 6 ⊳ nil))
at_wraps_example = at_wraps start 1 (num 5) (num 6 ⊳ nil) nil (omega arith) (omega arith)
