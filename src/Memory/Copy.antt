-- ===== src/Memory/Copy.antt =====
-- copy of src/utils.c: with enough fuel it returns, and keeps the invariant.
use mathlib.Core.Path.{subst}
use joy.Prelude.{
  if_keeps, ℕ, zero, suc, ◌≤◌, ◌<◌, ◌≡◌, ◌≢◌, ◌⊎◌, inl, inr, refl, sym, ap, ◌∙◌, Bool, true, false,
  ltb, if◌then◌else◌, Option, none, some, arith,
}
use joy.Syntax.{Factor, Term, nil, ◌⊳◌}
use joy.Memory.Nodes.{copied, Node, Memory}
use joy.Memory.Collector.{
  Heap, Copier, set_next, copied_to, copy_one, copy_loop, copy, loop_at, appended, copy_from,
}
use joy.Memory.Represents.{Represents, empty, size, Represents-cell}
use joy.Memory.Forward.{store_same, Marked, Forwarded, Invariant, Grows}
use joy.Memory.Writes.{set_next-Invariant}
use joy.Memory.Mark.{OrAt}
use joy.Memory.CopyNode.{CopyWorks, copy_one-copied, copied_to-none, ltb-false}
use joy.Memory.CopyChain.{copied_to-some, set_next-Grows, Grows-trans}
use joy.Memory.CopyLoop.{copy_loop-linked}

if_false : {A : Type 0} (b : Bool) (x y : A) → b ≡ false → (if b then x else y) ≡ y
if_false true x y e = cc
if_false false x y e = refl

if_true : {A : Type 0} (b : Bool) (x y : A) → b ≡ true → (if b then x else y) ≡ x
if_true true x y e = refl
if_true false x y e = cc

-- The first round of the loop
copy_loop-start :
    (low : ℕ) (copy : Copier) (j : ℕ) (c d : Heap) (n p : ℕ)
    → ltb n low ≡ false
    → copied_to (c.old n).value ≡ none
    → copy_one low copy c n ≡ some (p, d)
    → copy_loop low copy (suc j) 0 0 n c ≡ copy_loop low copy j p p (c.old n).next (set_next p 0 d)
unfolding copy_loop
copy_loop-start low copy j c d n p e f g =
    let more : ℕ → ℕ → ℕ → Heap → Option (ℕ × Heap) = λ h t n d. copy_loop low copy j h t n d in
    if_false (ltb n low) _ _ e
    ∙ ap (λ o. loop_at low 0 0 n c more (copy_one low copy c n) o) f
    ∙ ap (λ o. appended low 0 0 (c.old n).next more o) g

module _ (memory : Memory) (bound low : ℕ) (uncopied : (a f : ℕ) → (memory a).value ≢ copied f)
    (positive : 0 < low) where
  abbrev Fwd : Heap → ℕ → ℕ → Type 0
  Fwd = Forwarded memory bound low

  abbrev Inv : (ℕ → Type 0) → Heap → Type 0
  Inv = Invariant memory bound low

  abbrev Copied : (ℕ → Type 0) → Heap → ℕ → ℕ → Option (ℕ × Heap) → Type 0
  Copied P c n size_ o =
      (p : ℕ) × (d : Heap) × (o ≡ some (p, d))
      × Inv P d
      × Grows memory bound low c.index size_ c d
      × Fwd d n p

  -- The first node of a chain, before which there is none
  copy_loop-first :
      (k : ℕ) (works : CopyWorks memory bound low uncopied k (copy low k)) (P : ℕ → Type 0)
      (c : Heap) (x : Factor) (t : Term) (n : ℕ)
      → Inv P c
      → Represents memory bound (x ⊳ t) n
      → low ≤ n
      → (c.old n).value ≡ (memory n).value
      → size (x ⊳ t) ≤ k
      → Copied P c n (size (x ⊳ t)) (copy_loop low (λ e q. copy low k e q) (suc k) 0 0 n c)
  unfolding size set_next
  copy_loop-first k works P c x t n w r ge here s =
      let (_, _, _, rest) = Represents-cell memory bound x t n r in
      let (d, eq, v, g, own) =
        copy_one-copied memory bound low uncopied k (copy low k) works P c x t n w r ge here s in
      let start = set_next c.index 0 d in
      let (d', eq', v', g') =
        copy_loop-linked memory bound low uncopied positive k (copy low k) works k P start n c.index
          c.index (c.old n).next t
          (set_next-Invariant memory bound low (OrAt P n) (OrAt P n) d n c.index 0 v own
            (λ b h. inl h) (inl (inr refl)))
          own (sym (w.nexts n))
          (ap (λ (y : Node). y.next)
            (store_same d.memory c.index (record (d.memory c.index) { next = 0 })))
          (λ z. omega (arith, w.reached, positive, z))
          (subst (Represents memory bound t) (sym (w.nexts n)) rest) (omega (arith, s))
          (omega (arith, s)) in
      (
        c.index,
        d',
        copy_loop-start low (copy low k) k c d n c.index (ltb-false n low ge)
              (copied_to-none (c.old n).value (λ f h. uncopied n f (sym here ∙ h))) eq
            ∙ eq',
        v',
        Grows-trans memory bound low uncopied positive c start d' c.index c.index (size (x ⊳ t))
            (size t)
            (Grows-trans memory bound low uncopied positive c d start c.index c.index (size (x ⊳ t))
              (size (x ⊳ t)) g
              (set_next-Grows memory bound low uncopied positive d c.index 0 (size (x ⊳ t)))
              (inl refl) (size (x ⊳ t)) (omega arith) (omega arith))
            g' (inl refl) (size (x ⊳ t)) (omega arith) (omega arith),
        inr (ge, g'.marks n c.index own),
      )

  unchanged : (c : Heap) (n : ℕ) → Grows memory bound low c.index n c c
  unchanged c n = record {
    later = omega arith;
    marks = λ a f h. h;
    kept = λ i l ne. refl;
    fresh = λ a f h. inl h;
  }

  -- copy, of a chain whose first node has no copy
  copy-fresh :
      (k : ℕ)
      → CopyWorks memory bound low uncopied k (copy low k)
      → (P : ℕ → Type 0) (c : Heap) (t : Term) (n : ℕ) → Inv P c
      → Represents memory bound t n
      → low ≤ n
      → (c.old n).value ≡ (memory n).value
      → size t < suc k
      → Copied P c n (size t) (copy_loop low (λ e q. copy low k e q) (suc k) 0 0 n c)
  copy-fresh k works P c nil n w (empty _ z) ge here l = absurd (omega (arith, z, ge, positive))
  copy-fresh k works P c (x ⊳ t) n w r ge here l =
      copy_loop-first k works P c x t n w r ge here (omega (arith, l))

  pub copy-CopyWorks : (k : ℕ) → CopyWorks memory bound low uncopied k (copy low k)
  unfolding copy
  copy-CopyWorks zero P c t n w r l = absurd (omega (arith, l))
  copy-CopyWorks (suc k) P c t n w r l =
      if_keeps (Copied P c n (size t)) (ltb n low) _ _
        (λ b. (n, c, refl, w, unchanged c (size t), inl (ground (arith, b), refl)))
        (λ b. goes_on (copy-CopyWorks k) (w.values n) (ground (arith, b)))
    where
      At : Option ℕ → Type 0
      At o =
          Copied P c n (size t)
            (copy_from low c n (copy_loop low (λ e q. copy low k e q) (suc k) 0 0 n c) o)

      goes_on :
          CopyWorks memory bound low uncopied k (copy low k)
          → ((c.old n).value ≡ (memory n).value) ⊎ ((f : ℕ) × Marked c n f)
          → low ≤ n
          → At (copied_to (c.old n).value)
      goes_on works (inl here) ge =
          subst At (sym (copied_to-none (c.old n).value (λ f h. uncopied n f (sym here ∙ h))))
            (copy-fresh k works P c t n w r ge here l)
      goes_on works (inr (f, h)) ge =
          subst At (sym (copied_to-some (c.old n).value f h))
            (f, c, refl, w, unchanged c (size t), inr (ge, h))
