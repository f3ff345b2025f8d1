-- ===== src/Text/SetText.antt =====
-- The text of a set: the members in their order, that are read back as the same set.
use mathlib.Core.List.{append-nil}
use joy.Prelude.{
  ℕ, zero, suc, ◌+◌, ◌<◌, ◌≡◌, refl, Bool, true, false, ◌==◌, ◌&&◌, ◌||◌, ltb, if◌then◌else◌, List,
  [], ◌∷◌, ◌++◌, arith, ap, ◌∙◌, ◌⊎◌, inl, inr, Bool-cases, ==_iff, ◌^◌,
}
use joy.Prelude.Int.{pos}
use joy.Bits.{test, single, bit_or, setsize}
use joy.Bits.Laws.{test-bitwise, test-single, test-zero, eq_of_tests, bitwise-lt}
use joy.Syntax.{Factor, Term, nil, ◌⊳◌, integer}
use joy.Symbols.Table.{Hash}
use joy.Symbols.Names.{decimal}
use joy.Text.Reader.{Calls, Reader}
use joy.Text.Factor.{list2set}
use joy.Text.Stringify.{stringify_members}
use joy.Text.Spells
use joy.Text.Spells.{SpellsFactor, SpellsTerm}

-- The members from `i` on, as a term
unfoldable pub member_term : ℕ → ℕ → ℕ → Term
member_term zero i m = nil
member_term (suc k) i m =
    let rest = member_term k (suc i) m in if test i m then integer (pos i) ⊳ rest else rest

-- There are no members, or the text with a space before is that without one behind the space.
abbrev pub Spaced : Term → List ℕ → List ℕ → Type 0
Spaced t spaced text =
    ((t ≡ nil) × (spaced ≡ [])) ⊎ ((w : Factor) × (u : Term) × (t ≡ w ⊳ u) × (spaced ≡ 32 ∷ text))

pub members-Spaced :
    (k i m : ℕ)
    → Spaced (member_term k i m) (stringify_members k i m (32 ∷ [])) (stringify_members k i m [])
unfolding member_term stringify_members
members-Spaced zero i m = inl (refl, refl)
members-Spaced (suc k) i m = elim (Bool-cases (test i m)) [
  | inl e ↦ rw e (inr (integer (pos i), member_term k (suc i) m, refl, refl))
  | inr e ↦ rw e (members-Spaced k (suc i) m)
]

module _ {h : Hash} (c : Calls) (r : Reader h)
    (number_spells : (i : ℕ) → i < 64 → SpellsFactor c r (integer (pos i)) (decimal i)) where
  spaced-spells :
      (i : ℕ) (t : Term) (spaced text : List ℕ)
      → i < 64
      → Spaced t spaced text
      → SpellsTerm c r t text
      → SpellsTerm c r (integer (pos i) ⊳ t) (decimal i ++ spaced)
  spaced-spells i t spaced text l (inl (p, q)) rest =
      rw (p, q, append-nil (decimal i)) (Spells.one (number_spells i l))
  spaced-spells i t spaced text l (inr (w, u, p, q)) rest =
      rw (p, q) (Spells.more (number_spells i l) (rw p at rest))

  pub members-spell :
      (k i m : ℕ) → k + i ≡ 64 → SpellsTerm c r (member_term k i m) (stringify_members k i m [])
  unfolding member_term stringify_members
  members-spell zero i m l = Spells.none
  members-spell (suc k) i m l =
      let rest = members-spell k (suc i) m (omega arith) in
      elim (Bool-cases (test i m)) [
        | inl e ↦ rw e (
            spaced-spells i (member_term k (suc i) m) (stringify_members k (suc i) m (32 ∷ []))
              (stringify_members k (suc i) m []) (omega arith) (members-Spaced k (suc i) m) rest)
        | inr e ↦ rw e rest
      ]

-- The set that list2set makes of the members
set_from : ℕ → ℕ → ℕ → ℕ → ℕ
set_from zero i m set = set
set_from (suc k) i m set = set_from k (suc i) m (if test i m then bit_or set (single i) else set)

small : (i k : ℕ) → suc k + i ≡ 64 → ltb i setsize ≡ true
small i k h = ground arith

list2set-step :
    (i set : ℕ) (t : Term)
    → ltb i setsize ≡ true
    → list2set (integer (pos i) ⊳ t) set 0 ≡ list2set t (bit_or set (single i)) 0
unfolding list2set
list2set-step i set t h = rw h

list2set-members :
    (k i m set : ℕ) → k + i ≡ 64 → list2set (member_term k i m) set 0 ≡ (set_from k i m set, 0)
unfolding member_term list2set set_from
list2set-members zero i m set h = refl
list2set-members (suc k) i m set h = elim (Bool-cases (test i m)) [
  | inl e ↦ rw e (
      list2set-step i set (member_term k (suc i) m) (small i k h)
      ∙ list2set-members k (suc i) m (bit_or set (single i)) (omega arith))
  | inr e ↦ rw e (list2set-members k (suc i) m set (omega arith))
]

-- `set` has the members of `m` that are below `i`.
abbrev HasBelow : ℕ → ℕ → ℕ → Type 0
HasBelow i m set = (j : ℕ) → j < 64 → test j set ≡ (ltb j i && test j m)

test-or : (i j set : ℕ) → j < 64 → test j (bit_or set (single i)) ≡ (test j set || (i == j))
unfolding bit_or
test-or i j set h =
    test-bitwise ◌||◌ setsize j set (single i) h ∙ ap (λ b. test j set || b) (test-single i j)

below-next : (i j : ℕ) (b : Bool) → ltb j (suc i) && b ≡ ltb j i && b || (i == j && b)
below-next i j true = ground arith
below-next i j false = ground arith

at_member : (i j m : ℕ) → test i m ≡ true → (i == j) && test j m ≡ (i == j)
at_member i j m e = elim (Bool-cases (i == j)) [
  | inl p ↦ rw (p, ← (==_iff i j).0 p, e)
  | inr p ↦ rw p
]

not_member : (i j m : ℕ) → test i m ≡ false → (i == j) && test j m ≡ false
not_member i j m e = elim (Bool-cases (i == j)) [
  | inl p ↦ rw (p, ← (==_iff i j).0 p, e)
  | inr p ↦ rw p
]

or-false : (b : Bool) → b || false ≡ b
or-false true = refl
or-false false = refl

HasBelow-next :
    (i m set : ℕ)
    → HasBelow i m set
    → HasBelow (suc i) m (if test i m then bit_or set (single i) else set)
HasBelow-next i m set below j l = elim (Bool-cases (test i m)) [
  | inl e ↦ rw (e, test-or i j set l, below j l, below-next i j (test j m), at_member i j m e)
  | inr e ↦
      rw (
        e,
        below j l,
        below-next i j (test j m),
        not_member i j m e,
        or-false (ltb j i && test j m),
      )
]

at_end : (i j : ℕ) (b : Bool) → 0 + i ≡ 64 → j < 64 → ltb j i && b ≡ b
at_end i j b h l = ground arith

no_below : (j : ℕ) → ltb j 0 ≡ false
no_below j = ground arith

bit_or-lt : (a b : ℕ) → bit_or a b < 2 ^ 64
unfolding bit_or
bit_or-lt a b = bitwise-lt ◌||◌ setsize a b

set_from-bits :
    (k i m set : ℕ)
    → k + i ≡ 64
    → HasBelow i m set
    → (j : ℕ) → j < 64
    → test j (set_from k i m set) ≡ test j m
unfolding set_from
set_from-bits zero i m set h below j l = below j l ∙ at_end i j (test j m) h l
set_from-bits (suc k) i m set h below j l =
    set_from-bits k (suc i) m (if test i m then bit_or set (single i) else set) (omega arith)
      (HasBelow-next i m set below) j l

set_from-lt : (k i m set : ℕ) → set < 2 ^ 64 → set_from k i m set < 2 ^ 64
unfolding set_from
set_from-lt zero i m set h = h
set_from-lt (suc k) i m set h = elim (Bool-cases (test i m)) [
  | inl e ↦ rw e (set_from-lt k (suc i) m (bit_or set (single i)) (bit_or-lt set (single i)))
  | inr e ↦ rw e (set_from-lt k (suc i) m set h)
]

-- The set is read back.
pub list2set-member_term : (m : ℕ) → m < 2 ^ 64 → list2set (member_term 64 0 m) 0 0 ≡ (m, 0)
list2set-member_term m h =
    list2set-members 64 0 m 0 refl
    ∙ ap (λ n. (n, 0))
        (eq_of_tests 64 (set_from 64 0 m 0) m (set_from-lt 64 0 m 0 (omega arith)) h
          (set_from-bits 64 0 m 0 refl (λ j l. test-zero j ∙ rw (no_below j))))
