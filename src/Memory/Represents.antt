-- ===== src/Memory/Represents.antt =====
-- What a chain of nodes stands for: the terms of Syntax without strings and big numbers.
use joy.Prelude.{ℕ, suc, ◌+◌, ◌≤◌, ◌<◌, ◌≡◌, ◌≢◌, ◌⊎◌, inl, inr, refl, sym, ap, ◌∙◌, false, arith}
use mathlib.Core.Path.{subst}
use joy.Syntax.{Factor, Term, nil, ◌⊳◌, list}
use joy.Memory.Nodes.{is_compound, Value, atom, lis, Node, Memory}

-- Index `p` stands for the term, in nodes below the bound; index 0 stands for the empty chain.
mutual
  pub data Represents (m : Memory) (bound : ℕ) : Term → ℕ → Type 0 where
    empty : (p : ℕ) → p ≡ 0 → Represents m bound nil p
    cell :
        (x : Factor) (t : Term) (p : ℕ)
        → p ≢ 0
        → p < bound
        → Holds m bound x (m p).value
        → Represents m bound t (m p).next
        → Represents m bound (x ⊳ t) p

  pub data Holds (m : Memory) (bound : ℕ) : Factor → Value → Type 0 where
    holds_list :
        (t : Term) (v : Value) (q : ℕ)
        → v ≡ lis q
        → Represents m bound t q
        → Holds m bound (list t) v
    holds_atom :
        (x : Factor) (v : Value) (a : is_compound x ≡ false) → v ≡ atom x a → Holds m bound x v

-- The nodes below a bound are all that matters.
module _ (m n : Memory) (low high : ℕ) (le : low ≤ high)
    (agree : (i : ℕ) → i < low → n i ≡ m i) where
  mutual
    pub Represents-agree : (t : Term) (p : ℕ) → Represents m low t p → Represents n high t p
    Represents-agree t p (empty _ e) = empty p e
    Represents-agree t p (cell x u _ z l h r) =
        cell x u p z (omega (arith, l))
          (subst (λ (c : Node). Holds n high x c.value) (sym (agree p l))
            (Holds-agree x (m p).value h))
          (subst (λ (c : Node). Represents n high u c.next) (sym (agree p l))
            (Represents-agree u (m p).next r))

    pub Holds-agree : (x : Factor) (v : Value) → Holds m low x v → Holds n high x v
    Holds-agree x v (holds_list t _ q e r) = holds_list t v q e (Represents-agree t q r)
    Holds-agree x v (holds_atom _ _ a e) = holds_atom x v a e

-- The number of the nodes of a term, and of the lists in it
unfoldable mutual
  pub size : Term → ℕ
  size nil = 0
  size (x ⊳ t) = suc (factor_size x + size t)

  pub factor_size : Factor → ℕ
  factor_size (list t) = suc (size t)
  factor_size _ = 0

lis-atom : {q : ℕ} {x : Factor} {a : is_compound x ≡ false} → lis q ≢ atom x a
lis-atom e = cc

abbrev atom_size : Value → ℕ
atom_size (atom x _) = factor_size x
atom_size _ = 0

abbrev pub index_of : Value → ℕ
index_of (lis q) = q
index_of _ = 0

-- A chain stands for one term only, which has one size.
module _ (m : Memory) (bound : ℕ) where
  mutual
    unfolding size factor_size

    pub Represents-size :
        (t u : Term) (p : ℕ) → Represents m bound t p → Represents m bound u p → size t ≡ size u
    Represents-size t u p (empty _ _) (empty _ _) = refl
    Represents-size t u p (empty _ e) (cell _ _ _ z _ _ _) = absurd (z e)
    Represents-size t u p (cell _ _ _ z _ _ _) (empty _ e) = absurd (z e)
    Represents-size t u p (cell x t' _ _ _ h r) (cell y u' _ _ _ k s) =
        omega (arith, Holds-size x y (m p).value h k, Represents-size t' u' (m p).next r s)

    Holds-size :
        (x y : Factor) (v : Value)
        → Holds m bound x v
        → Holds m bound y v
        → factor_size x ≡ factor_size y
    Holds-size x y v (holds_list t _ q e r) (holds_list u _ q' e' s) =
        ap suc (Represents-size t u q r (subst (Represents m bound u) (ap index_of (sym e' ∙ e)) s))
    Holds-size x y v (holds_list t _ q e r) (holds_atom _ _ a e') = absurd (lis-atom (sym e ∙ e'))
    Holds-size x y v (holds_atom _ _ a e) (holds_list u _ q e' r) = absurd (lis-atom (sym e' ∙ e))
    Holds-size x y v (holds_atom _ _ a e) (holds_atom _ _ b e') = ap atom_size (sym e ∙ e')

-- A node of a chain, taken apart
module _ (m : Memory) (bound : ℕ) where
  pub Represents-cell :
      (x : Factor) (t : Term) (p : ℕ)
      → Represents m bound (x ⊳ t) p
      → (p ≢ 0) × (p < bound) × Holds m bound x (m p).value × Represents m bound t (m p).next
  Represents-cell x t p (cell _ _ _ z l h r) = (z, l, h, r)

  pub Holds-cases :
      (x : Factor) (v : Value)
      → Holds m bound x v
      → ((u : Term) × (q : ℕ) × (v ≡ lis q)
          × Represents m bound u q
          × (factor_size x ≡ suc (size u)))
        ⊎ ((y : Factor) × (a : is_compound y ≡ false) × (v ≡ atom y a))
  unfolding size
  Holds-cases x v (holds_list u _ q e r) = inl (u, q, e, r, refl)
  Holds-cases x v (holds_atom _ _ a e) = inr (x, a, e)
