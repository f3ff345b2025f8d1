-- ===== src/Text/SetWriter.antt =====
-- write.c and tostring.c write the members of a set alike, although the one takes each member that is
-- written out of the set, and the other looks back whether one was written.
use joy.Prelude.{
  ℕ, zero, suc, ◌+◌, ◌<◌, ◌≤◌, ◌≡◌, refl, Bool, true, false, not, ◌==◌, ◌&&◌, if◌then◌else◌, List,
  [], ◌∷◌, ◌++◌, arith, ap, ◌∙◌, sym, ◌⊎◌, inl, inr, Bool-cases, ==_iff, ◌^◌,
}
use joy.Bits.{test, single, bit_clear, setsize, without}
use joy.Bits.Laws.{test-bitwise, test-single, test-zero, eq_of_tests, bitwise-lt}
use joy.Syntax.{nil}
use joy.Symbols.Names.{decimal}
use joy.Text.Writer.{members_text}
use joy.Text.Stringify.{stringify_members}
use joy.Text.SetText.{member_term, members-Spaced}

stringify_members-same :
    (k i a b : ℕ) (gap : List ℕ)
    → k + i ≡ 64
    → ((j : ℕ) → i ≤ j → j < 64 → test j a ≡ test j b)
    → stringify_members k i a gap ≡ stringify_members k i b gap
unfolding stringify_members
stringify_members-same zero i a b gap h same = refl
stringify_members-same (suc k) i a b gap h same =
    let rest = λ (g : List ℕ).
      stringify_members-same k (suc i) a b g (omega arith) (λ j p q. same j (omega arith) q) in
    rw (same i (omega arith) (omega arith), rest (if test i b then 32 ∷ [] else gap))

stringify_members-zero : (k i : ℕ) (gap : List ℕ) → stringify_members k i 0 gap ≡ []
unfolding stringify_members
stringify_members-zero zero i gap = refl
stringify_members-zero (suc k) i gap = rw test-zero (stringify_members-zero k (suc i) gap)

-- Only members from `i` on
abbrev NoneBelow : ℕ → ℕ → Type 0
NoneBelow i s = (j : ℕ) → j < i → test j s ≡ false

at_or_above : (i j : ℕ) → i ≤ j → (j ≡ i) ⊎ (suc i ≤ j)
at_or_above i j h = omega arith

member_term-nil :
    (k i s : ℕ) → k + i ≡ 64 → member_term k i s ≡ nil → (j : ℕ) → i ≤ j → j < 64 → test j s ≡ false
unfolding member_term
member_term-nil zero i s h p j l m = absurd (omega arith)
member_term-nil (suc k) i s h p j l m = elim (Bool-cases (test i s)) [
  | inl e ↦ cc (rw e at p)
  | inr e ↦ elim (at_or_above i j l) [
    | inl q ↦ rw q e
    | inr q ↦ member_term-nil k (suc i) s (omega arith) (rw e at p) j q m
  ]
]

below_or_above : (i j : ℕ) → (j < i) ⊎ (i ≤ j)
below_or_above i j = omega arith

empty_of_nil :
    (k i s : ℕ) → k + i ≡ 64 → s < 2 ^ 64 → NoneBelow i s → member_term k i s ≡ nil → s ≡ 0
empty_of_nil k i s h l below p = eq_of_tests 64 s 0 l (omega arith) λ j m.
    elim (below_or_above i j) [
      | inl q ↦ below j q ∙ sym (test-zero j)
      | inr q ↦ member_term-nil k i s h p j q m ∙ sym (test-zero j)
    ]

-- A space stands before the members that are left, if any are.
space-members :
    (k i s : ℕ)
    → k + i ≡ 64
    → s < 2 ^ 64
    → NoneBelow i s
    → (if s == 0 then [] else 32 ∷ []) ++ stringify_members k i s []
      ≡ stringify_members k i s (32 ∷ [])
space-members k i s h l below = elim (Bool-cases (s == 0)) [
  | inl e ↦
      rw ((==_iff s 0).0 e, stringify_members-zero k i [], stringify_members-zero k i (32 ∷ []))
  | inr e ↦ elim (members-Spaced k i s) [
    | inl p ↦ cc (e, (==_iff s 0).1 (empty_of_nil k i s h l below p.0))
    | inr p ↦ rw e (sym p.3)
  ]
]

test-clear : (i j s : ℕ) → j < 64 → test j (bit_clear s (single i)) ≡ (test j s && not (i == j))
unfolding bit_clear
test-clear i j s h =
    test-bitwise without setsize j s (single i) h ∙ ap (λ b. test j s && not b) (test-single i j)

bit_clear-lt : (a b : ℕ) → bit_clear a b < 2 ^ 64
unfolding bit_clear
bit_clear-lt a b = bitwise-lt without setsize a b

keep_above : (i j : ℕ) (b : Bool) → suc i ≤ j → b && not (i == j) ≡ b
keep_above i j true h = ground arith
keep_above i j false h = ground arith

same_index : (i j : ℕ) → j < suc i → i ≤ j → j ≡ i
same_index i j m q = omega arith

clear_below : (i j : ℕ) (b : Bool) → j < suc i → (j < i → b ≡ false) → b && not (i == j) ≡ false
clear_below i j true h f = elim (below_or_above i j) [ inl q ↦ cc (f q) | inr q ↦ ground arith ]
clear_below i j false h f = refl

none_next : (i s : ℕ) → test i s ≡ false → NoneBelow i s → NoneBelow (suc i) s
none_next i s e below j m = elim (below_or_above i j) [
  | inl q ↦ below j q
  | inr q ↦ rw (same_index i j m q) e
]

-- Of a 64-bit set without members below `i`, the writer, which takes each member out of the set and puts
-- a space behind it while some are left, and stringify_value, which puts a space before each member but the
-- first, write the same text of the members from `i` on.
pub members_text-stringify :
    (k i s : ℕ)
    → k + i ≡ 64
    → s < 2 ^ 64
    → NoneBelow i s
    → members_text k i s ≡ stringify_members k i s []
unfolding members_text stringify_members
members_text-stringify zero i s h l below = refl
members_text-stringify (suc k) i s h l below = elim (Bool-cases (test i s)) [
  | inl e ↦
      let left = bit_clear s (single i) in
      let none_left = λ (j : ℕ) (m : j < suc i).
        (test-clear i j s (omega arith) ∙ clear_below i j (test j s) m (below j)) in
      let same = λ (g : List ℕ).
        stringify_members-same k (suc i) left s g (omega arith)
          (λ j p q. test-clear i j s q ∙ keep_above i j (test j s) p) in
      rw e (
        ap (λ t. decimal i ++ t)
          (ap (λ t. (if left == 0 then [] else 32 ∷ []) ++ t)
              (members_text-stringify k (suc i) left (omega arith) (bit_clear-lt s (single i))
                none_left)
            ∙ space-members k (suc i) left (omega arith) (bit_clear-lt s (single i)) none_left
            ∙ same (32 ∷ [])))
  | inr e ↦ rw e (members_text-stringify k (suc i) s (omega arith) l (none_next i s e below))
]
