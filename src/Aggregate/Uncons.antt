-- ===== src/Aggregate/Uncons.antt =====
-- What `uncons` takes apart, `cons` puts together.
use native.Mathlib.Nat.{pow-suc}
use joy.Prelude.{
  Bool-cases, inl, inr, ℕ, zero, suc, ◌/◌, ◌^◌, ◌<◌, ◌≡◌, ◌≢◌, refl, ap, sym, ◌∙◌, Bool, true,
  false, ◌&&◌, ◌||◌, ◌==◌, if◌then◌else◌, [], ◌∷◌, arith, ltb,
}
use joy.Word.{byte, of_byte}
use joy.Bits.{test, setsize, single, bit_or, bit_clear, bitwise, without, is_odd}
use joy.Bits.Laws.{test-bitwise, test-single, bitwise-lt, eq_of_tests}
use joy.Syntax.{
  Factor, Term, nil, ◌⊳◌, usr, anon_funct, boolean, char, integer, float, file, bignum, vector,
  dict, matrix, illegal, set, string, list,
}
use joy.Machine.{Env, ok, ◌>>◌}
use joy.Combinators.Reads.{on}
use joy.Aggregate.{aggregate_code, uncons, cons, c_string}
use joy.Aggregate.SetLoops.{lowest}

-- An aggregate that has a first member: a list, a string of bytes that are not 0, and a set of 64 bits.
abbrev pub IsNonEmpty : Factor → Type 0
IsNonEmpty (list nil) = ⊥
IsNonEmpty (list (x ⊳ t)) = Unit {0}
IsNonEmpty (string []) = ⊥
IsNonEmpty (string (c ∷ s)) = (c ≢ 0) × c < 256
IsNonEmpty (set a) = (a ≢ 0) × a < 2 ^ 64
IsNonEmpty _ = ⊥

byte-of_byte : (c : ℕ) → c < 256 → byte (of_byte c) ≡ c
unfolding byte of_byte
byte-of_byte c h = ground arith

half-pos : (a : ℕ) → a ≢ 0 → is_odd a ≡ false → a / 2 ≢ 0
half-pos a h p q = h (ground (arith, p, q))

lowest-lt : (w a : ℕ) → a ≢ 0 → a < 2 ^ w → lowest w a < w
unfolding lowest
lowest-lt zero a h l = absurd (h (omega arith))
lowest-lt (suc w) a h l = elim (Bool-cases (is_odd a)) [
  | inl p ↦ ground (arith, p)
  | inr p ↦ ground (arith, p, lowest-lt w (a / 2) (half-pos a h p) (omega (arith, pow-suc 2 w)))
]

test-lowest : (w a : ℕ) → a ≢ 0 → a < 2 ^ w → test (lowest w a) a ≡ true
unfolding lowest test
test-lowest zero a h l = absurd (h (omega arith))
test-lowest (suc w) a h l = elim (Bool-cases (is_odd a)) [
  | inl p ↦ rw p p
  | inr p ↦ rw p (test-lowest w (a / 2) (half-pos a h p) (omega (arith, pow-suc 2 w)))
]

-- The lowest member taken away and put back.
put_back :
    (a : ℕ)
    → a ≢ 0
    → a < 2 ^ 64
    → bit_or (bit_clear a (single (lowest setsize a))) (single (lowest setsize a)) ≡ a
unfolding bit_or bit_clear
put_back a h l =
    eq_of_tests setsize _ a
      (bitwise-lt ◌||◌ setsize (bitwise without setsize a (single m)) (single m)) l
      λ i k.
        test-bitwise ◌||◌ setsize i (bitwise without setsize a (single m)) (single m) k
        ∙ ap (λ b. b || test i (single m)) (test-bitwise without setsize i a (single m) k)
        ∙ member i
  where
    m : ℕ
    m = lowest setsize a

    member : (i : ℕ) → without (test i a) (test i (single m)) || test i (single m) ≡ test i a
    member i = elim (Bool-cases (test i (single m))) [
      | inl p ↦ rw p (only_m i p)
      | inr p ↦ rw p (other (test i a))
    ]
      where
        other : (b : Bool) → b && true || false ≡ b
        other true = refl
        other false = refl

        only_m : (i : ℕ) → test i (single m) ≡ true → without (test i a) true || true ≡ test i a
        only_m i p =
            or_true _
            ∙ sym (test-lowest setsize a h l)
            ∙ ap (λ j. test j a) (same m i (sym (test-single m i) ∙ p))
          where
            or_true : (b : Bool) → b || true ≡ true
            or_true true = refl
            or_true false = refl

            same : (m i : ℕ) → (m == i) ≡ true → m ≡ i
            same m i q = ground (arith, q)

not_zero : (c : ℕ) → c ≢ 0 → (c == 0) ≡ false
not_zero c h = ground (arith, h)

in_range : (i : ℕ) → i < setsize → ltb i setsize ≡ true
in_range i h = ground arith

-- Where an aggregate has a first member, `uncons` and then `cons` leave it as it was: a list, a string
-- of bytes that are not 0, and a set.
pub uncons-cons :
    (e : Env) (f : Factor) (s : Term)
    → IsNonEmpty f
    → (uncons >> cons) (on e (f ⊳ s)) ≡ ok tt (on e (f ⊳ s))
unfolding aggregate_code
uncons-cons e (list (x ⊳ t)) s h = refl
uncons-cons e (string (c ∷ r)) s h =
    ap (λ b. ok tt (on e (string (c_string b r) ⊳ s))) (byte-of_byte c h.1)
    ∙ ap (λ b. ok tt (on e (string (if b then [] else c ∷ r) ⊳ s))) (not_zero c h.0)
uncons-cons e (set a) s (h, l) = rw (not_zero a h) (
    rw (in_range (lowest setsize a) (lowest-lt setsize a h l))
      (ap (λ b. ok tt (on e (set b ⊳ s))) (put_back a h l)))
uncons-cons e (string []) s h = absurd h
uncons-cons e (list nil) s h = absurd h
uncons-cons e (usr _) s h = absurd h
uncons-cons e (anon_funct _) s h = absurd h
uncons-cons e (boolean _) s h = absurd h
uncons-cons e (char _) s h = absurd h
uncons-cons e (integer _) s h = absurd h
uncons-cons e (float _) s h = absurd h
uncons-cons e (file _) s h = absurd h
uncons-cons e (bignum _) s h = absurd h
uncons-cons e (vector _) s h = absurd h
uncons-cons e (dict _) s h = absurd h
uncons-cons e (matrix _) s h = absurd h
uncons-cons e illegal s h = absurd h
