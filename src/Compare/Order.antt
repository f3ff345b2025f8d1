-- ===== src/Compare/Order.antt =====
-- The comparison of strings is an order: antisymmetric, and zero on equal strings only.
use joy.Prelude.{ℕ, zero, ◌≡◌, ◌↔◌, refl, suc, ℕ_discrete, List, [], ◌∷◌, arith}
use joy.Prelude.Int.{ℤ, pos, negsuc}
use joy.Syntax.{Term, ◌⊳◌, string}
use joy.Machine.{Entry}
use joy.Machine.Host.{Host}
use joy.Compare.{strcmp, compare, is_null, kind, compare_kinds}
use mathlib.Core.Path.{subst}

abbrev pub opposite : ℤ → ℤ
opposite (pos zero) = pos 0
opposite (pos (suc n)) = negsuc n
opposite (negsuc n) = pos (suc n)

-- Two strings compare as the opposite of the same strings in the other order.
pub strcmp-opposite : (s t : List ℕ) → strcmp t s ≡ opposite (strcmp s t)
unfolding strcmp
strcmp-opposite [] [] = refl
strcmp-opposite [] (b ∷ t) = refl
strcmp-opposite (a ∷ s) [] = refl
strcmp-opposite (a ∷ s) (b ∷ t) = ground (arith, strcmp-opposite s t)

strcmp_self : (s : List ℕ) → strcmp s s ≡ pos 0
unfolding strcmp
strcmp_self [] = refl
strcmp_self (a ∷ s) = ground (arith, strcmp_self s)

eq_of_strcmp : (s t : List ℕ) → strcmp s t ≡ pos 0 → s ≡ t
unfolding strcmp
eq_of_strcmp [] [] h = refl
eq_of_strcmp [] (b ∷ t) h = ground (arith, h)
eq_of_strcmp (a ∷ s) [] h = ground (arith, h)
eq_of_strcmp (a ∷ s) (b ∷ t) h = elim (ℕ_discrete a b) [
  | yes p ↦ λ i. p i ∷ eq_of_strcmp s t (tail p) i
  | no n ↦ absurd (ground (arith, n, h))
]
  where
    tail : a ≡ b → strcmp s t ≡ pos 0
    tail p = ground (arith, p, h)

text : (x y : List ℕ) → (strcmp x y ≡ pos 0 ↔ x ≡ y) × strcmp y x ≡ opposite (strcmp x y)
text x y = (
  (eq_of_strcmp x y, λ p. subst (λ z. strcmp x z ≡ pos 0) p (strcmp_self x)),
  strcmp-opposite x y,
)

-- On two strings, `compare` is 0 just if they are equal, and its result is the opposite where they
-- change places, so that each is less than the other just if the other is greater.
pub compare-strings :
    (host : Host) (symtab : List Entry) (x y : List ℕ) (s t : Term)
    → (compare host symtab (string x ⊳ s) (string y ⊳ t) ≡ pos 0 ↔ x ≡ y)
      × compare host symtab (string y ⊳ t) (string x ⊳ s)
        ≡ opposite (compare host symtab (string x ⊳ s) (string y ⊳ t))
unfolding compare is_null kind compare_kinds
compare-strings host symtab [] [] s t = ((λ _. refl, λ _. refl), refl)
compare-strings host symtab [] (b ∷ y) s t = text [] (b ∷ y)
compare-strings host symtab (a ∷ x) [] s t = text (a ∷ x) []
compare-strings host symtab (a ∷ x) (b ∷ y) s t = text (a ∷ x) (b ∷ y)
