-- ===== src/Comparison/Relations.antt =====
-- The relational operators on integers and on sets.
use mathlib.Core.Bool.{true≢false}
use joy.Prelude.{
  List, ℕ, ◌<◌, ◌^◌, ◌≡◌, ◌↔◌, refl, ap, sym, ◌∙◌, Bool, true, false, not, ◌&&◌, ◌||◌, arith,
}
use joy.Prelude.Int.{ℤ, pos, negsuc, ltb_ℤ}
use joy.Word.{to_bits, of_bits}
use joy.Bits.{test, setsize, bitwise, bit_clear, without}
use joy.Bits.Laws.{test-bitwise, bitwise-lt, test-zero, eq_of_tests}
use joy.Syntax.{Term, ◌⊳◌, set, integer, boolean}
use joy.Syntax.Ops.{ComparisonOp}
use joy.Machine.{Env, Outcome, ok, Entry}
use joy.Machine.Host.{Host}
use joy.Combinators.Reads.{on}
use joy.Compare.{is_zero, compare, is_null, kind, compare_kinds, compare_num}
use joy.Comparison.{truth, comparison_code, run, subset, positive, negative}

compare-integers :
    (host : Host) (t : List Entry) (b a : ℤ) (s r : Term)
    → compare host t (integer b ⊳ s) (integer a ⊳ r) ≡ compare_num b a
unfolding compare is_null kind compare_kinds compare_num
compare-integers host t (pos b) (pos a) s r = ground arith
compare-integers host t (pos b) (negsuc a) s r = ground arith
compare-integers host t (negsuc b) (pos a) s r = ground arith
compare-integers host t (negsuc b) (negsuc a) s r = ground arith

positive_sign : (b a : ℤ) → positive (compare_num b a) ≡ ltb_ℤ a b
unfolding compare_num
positive_sign b a = ground arith

negative_sign : (b a : ℤ) → negative (compare_num b a) ≡ ltb_ℤ b a
unfolding compare_num
negative_sign b a = ground arith

zero_sign : (b a : ℤ) → is_zero (compare_num b a) ≡ not (ltb_ℤ b a || ltb_ℤ a b)
unfolding compare_num
zero_sign b a = ground arith

-- The operator `op` leaves the truth value of a test of two integers, the top second.
abbrev pub Decides : Host → ComparisonOp → (ℤ → ℤ → Bool) → Type 0
Decides host op test' =
    (e : Env) (b a : ℤ) (s : Term)
    → run host op (on e (integer a ⊳ integer b ⊳ s))
      ≡ ok tt (on e (boolean (truth (test' b a)) ⊳ s))

-- On two integers, each of `<`, `<=`, `>`, `>=`, `=` and `!=` leaves the truth value of its order on
-- the integers.
pub relations_lem :
    (host : Host)
    → Decides host ComparisonOp.less ltb_ℤ
      × Decides host ComparisonOp.leql (λ b a. not (ltb_ℤ a b))
      × Decides host ComparisonOp.greater (λ b a. ltb_ℤ a b)
      × Decides host ComparisonOp.geql (λ b a. not (ltb_ℤ b a))
      × Decides host ComparisonOp.eql (λ b a. not (ltb_ℤ b a || ltb_ℤ a b))
      × Decides host ComparisonOp.neql (λ b a. ltb_ℤ b a || ltb_ℤ a b)
unfolding comparison_code
relations_lem host = (
  λ e b a s. leaves e s (ap negative (compare-integers host e.symtab b a _ _) ∙ negative_sign b a),
  λ e b a s. leaves e s (
      ap (λ c. not (positive c)) (compare-integers host e.symtab b a _ _)
      ∙ ap not (positive_sign b a)),
  λ e b a s. leaves e s (ap positive (compare-integers host e.symtab b a _ _) ∙ positive_sign b a),
  λ e b a s. leaves e s (
      ap (λ c. not (negative c)) (compare-integers host e.symtab b a _ _)
      ∙ ap not (negative_sign b a)),
  λ e b a s. leaves e s (ap is_zero (compare-integers host e.symtab b a _ _) ∙ zero_sign b a),
  λ e b a s. leaves e s (
      ap (λ c. not (is_zero c)) (compare-integers host e.symtab b a _ _)
      ∙ ap not (zero_sign b a)
      ∙ not_not _),
)
  where
    leaves :
        (e : Env) (s : Term) {x y : Bool}
        → x ≡ y
        → Path
            (Outcome (Unit {0}))
            (ok tt (on e (boolean (truth x) ⊳ s)))
            (ok tt (on e (boolean (truth y) ⊳ s)))
    leaves e s h = ap (λ x. ok tt (on e (boolean (truth x) ⊳ s))) h

    not_not : (x : Bool) → not (not x) ≡ x
    not_not true = refl
    not_not false = refl

-- A set of which every member is a member of another.
abbrev pub IsSubset : ℕ → ℕ → Type 0
IsSubset b a = (i : ℕ) → i < setsize → test i b ≡ true → test i a ≡ true

bits_back : (a : ℕ) → a < 2 ^ 64 → to_bits 64 (of_bits 63 a) ≡ a
bits_back a h = ground arith

clear-zero : (b a : ℕ) → bit_clear b a ≡ 0 ↔ IsSubset b a
unfolding bit_clear
clear-zero b a = (included, empty)
  where
    bit_of :
        (i : ℕ) → i < setsize → test i (bitwise without setsize b a) ≡ test i b && not (test i a)
    bit_of i l = test-bitwise without setsize i b a l

    included : bitwise without setsize b a ≡ 0 → IsSubset b a
    included h i l t =
        member (test i b) (test i a) t (sym (bit_of i l) ∙ ap (test i) h ∙ test-zero i)
      where
        member : (x y : Bool) → x ≡ true → x && not y ≡ false → y ≡ true
        member true true p q = refl
        member true false p q = absurd (true≢false q)
        member false y p q = absurd (true≢false (sym p))

    empty : IsSubset b a → bitwise without setsize b a ≡ 0
    empty h =
        eq_of_tests setsize _ 0 (bitwise-lt without setsize b a) (omega arith)
          (λ i l. bit_of i l ∙ outside (test i b) (test i a) (h i l) ∙ sym (test-zero i))
      where
        outside : (x y : Bool) → (x ≡ true → y ≡ true) → x && not y ≡ false
        outside true true p = refl
        outside true false p = absurd (true≢false (sym (p refl)))
        outside false y p = refl

-- On two sets, `<=` holds just if every member of the first is a member of the second.
pub leql-sets :
    (host : Host) (e : Env) (b a : ℕ) (s : Term)
    → b < 2 ^ 64
    → a < 2 ^ 64
    → (c : Bool) × (run host ComparisonOp.leql (on e (set a ⊳ set b ⊳ s))
        ≡ ok tt (on e (boolean (truth c) ⊳ s)))
      × (c ≡ true ↔ IsSubset b a)
unfolding comparison_code
leql-sets host e b a s p q = (
  subset b a,
  ap (λ (b', a'). ok tt (on e (boolean (truth (subset b' a')) ⊳ s)))
      (λ i. (bits_back b p i, bits_back a q i)),
  (λ h. (clear-zero b a).0 (ground (arith, h)), λ h. ground (arith, (clear-zero b a).1 h)),
)
