-- ===== src/Sets/Members.antt =====
-- The operators on sets work on every member by itself.
use joy.Prelude.{ltb, arith, ℕ, ◌<◌, ◌≡◌, refl, ap, ◌∙◌, true, not, ◌&&◌, ◌||◌, ◌==◌}
use joy.Prelude.Int.{pos}
use joy.Bits.{test, setsize, xor, bit_and, bit_or, bit_xor, bit_not, single}
use joy.Bits.Laws.{test-bitwise, test-single}
use joy.Syntax.{Term, ◌⊳◌, set, integer, boolean}
use joy.Syntax.Ops.{SetOp}
use joy.Machine.{Env, ok}
use joy.Machine.Host.{Host}
use joy.Combinators.Reads.{on}
use joy.Comparison.{truth}
use joy.Aggregate.{aggregate_code, cons}
use joy.Sets.{sets_code, run, in_}

-- On two sets `and` leaves their intersection, `or` their union, `xor` what is in one of them only,
-- and on one set `not` leaves its complement, as far as the numbers from 0 to 63 go.
pub set_operators :
    (host : Host) (e : Env) (a b : ℕ) (s : Term) (i : ℕ)
    → i < setsize
    → ((c : ℕ) × run host SetOp.and (on e (set a ⊳ set b ⊳ s)) ≡ ok tt (on e (set c ⊳ s))
        × test i c ≡ test i b && test i a)
      × ((c : ℕ) × run host SetOp.or (on e (set a ⊳ set b ⊳ s)) ≡ ok tt (on e (set c ⊳ s))
          × test i c ≡ test i b || test i a)
      × ((c : ℕ) × run host SetOp.xor (on e (set a ⊳ set b ⊳ s)) ≡ ok tt (on e (set c ⊳ s))
          × test i c ≡ xor (test i b) (test i a))
      × (c : ℕ) × run host SetOp.not (on e (set a ⊳ s)) ≡ ok tt (on e (set c ⊳ s))
      × test i c ≡ not (test i a)
unfolding sets_code bit_and bit_or bit_xor bit_not
set_operators host e a b s i h = (
  (bit_and b a, refl, test-bitwise ◌&&◌ setsize i b a h),
  (bit_or b a, refl, test-bitwise ◌||◌ setsize i b a h),
  (bit_xor b a, refl, test-bitwise xor setsize i b a h),
  bit_not a,
  refl,
  test-bitwise (λ x y. not x) setsize i a 0 h,
)

in_range : (i : ℕ) → i < setsize → ltb i setsize ≡ true
in_range i h = ground arith

inserted : (a i j : ℕ) → j < setsize → test j (bit_or a (single i)) ≡ test j a || (i == j)
unfolding bit_or
inserted a i j h =
    test-bitwise ◌||◌ setsize j a (single i) h ∙ ap (λ b. test j a || b) (test-single i j)

-- `cons` of an integer from 0 to 63 to a set leaves a set of which `in` holds, among the integers from
-- 0 to 63, for that integer and for the members of the old set, and for no other.
pub in-cons :
    (host : Host) (e : Env) (a i j : ℕ) (s : Term)
    → i < setsize
    → j < setsize
    → (c : ℕ) × cons (on e (set a ⊳ integer (pos i) ⊳ s)) ≡ ok tt (on e (set c ⊳ s))
      × in_ host (on e (set c ⊳ integer (pos j) ⊳ s))
        ≡ ok tt (on e (boolean (truth (test j a || (i == j))) ⊳ s))
unfolding sets_code aggregate_code
in-cons host e a i j s h l = (
  bit_or a (single i),
  rw (in_range i h) refl,
  rw (in_range j l) (ap (λ b. ok tt (on e (boolean (truth b) ⊳ s))) (inserted a i j l)),
)
