-- ===== src/Memory/Mark.antt =====
-- The write that marks an old node with the index of its copy.
use mathlib.Core.Path.{subst}
use joy.Prelude.{ℕ, ◌≤◌, ◌<◌, ◌≡◌, ◌≢◌, ◌⊎◌, inl, inr, refl, sym, ap, ◌∙◌, arith}
use joy.Memory.Nodes.{copied, Node, Memory}
use joy.Memory.Collector.{Heap, mark}
use joy.Memory.Forward.{
  store_same, store_other, store_keeps, eq_cases, copied_injective, Marked, ValueOf, IsCopy,
  Invariant, ValueOf-mono, IsCopy-mono,
}

-- One node more
abbrev pub OrAt : (ℕ → Type 0) → ℕ → ℕ → Type 0
OrAt P a b = P b ⊎ (b ≡ a)

module _ (memory : Memory) (bound low : ℕ) where
  module _ (P : ℕ → Type 0) (c : Heap) (n temp : ℕ) (w : Invariant memory bound low P c)
      (source : low ≤ n) (target : low ≤ temp) (below : temp < c.index)
      (unmarked : (f : ℕ) → (c.old n).value ≢ copied f)
      (unused : (a : ℕ) → Marked c a temp → ⊥) where
    pub mark-marks : (a f : ℕ) → Marked c a f → Marked (mark n temp c) a f
    unfolding mark
    mark-marks a f h =
        store_keeps (λ y. y.value ≡ copied f) c.old n (record (c.old n) { value = copied temp }) a
          (λ e. absurd (unmarked f (ap (λ k. (c.old k).value) (sym e) ∙ h))) (λ _. h)

    pub mark-own : Marked (mark n temp c) n temp
    unfolding mark
    mark-own =
        ap (λ (y : Node). y.value) (store_same c.old n (record (c.old n) { value = copied temp }))

    pub mark-cases : (a f : ℕ) → Marked (mark n temp c) a f → Marked c a f ⊎ ((a ≡ n) × (f ≡ temp))
    unfolding mark
    mark-cases a f h = elim (eq_cases a n) [
      | inr ne ↦ inl (
          ap (λ (y : Node). y.value)
            (sym (store_other c.old n (record (c.old n) { value = copied temp }) a ne))
          ∙ h)
      | inl e ↦
          inr (e, copied_injective (sym h ∙ ap (λ k. ((mark n temp c).old k).value) e ∙ mark-own))
    ]

    pub mark-Invariant :
        ValueOf memory bound low c (memory n).value (c.memory temp).value
        → Invariant memory bound low (OrAt P n) (mark n temp c)
    unfolding mark
    mark-Invariant value = record {
      reached = w.reached;
      nexts = λ a.
          store_keeps (λ y. y.next ≡ (memory a).next) c.old n x a
            (λ e. ap (λ k. (c.old k).next) (sym e) ∙ w.nexts a) (λ _. w.nexts a);
      values = λ a.
          store_keeps (λ y. (y.value ≡ (memory a).value) ⊎ ((f : ℕ) × (y.value ≡ copied f))) c.old n
            x a (λ _. inr (temp, refl)) (λ _. w.values a);
      fixed = w.fixed;
      clean = w.clean;
      copies = λ a f h. copy_at a f (mark-cases a f h);
      single = λ a b f h k. same a b f (mark-cases a f h) (mark-cases b f k);
    }
      where
        x : Node
        x = record (c.old n) { value = copied temp }

        own : IsCopy memory bound low (OrAt P n) (mark n temp c) n temp
        own = record {
          source = source;
          target = target;
          below = below;
          value =
              ValueOf-mono memory bound low c (mark n temp c) (memory n).value (c.memory temp).value
                mark-marks value;
          next = inl (inr refl);
        }

        copy_at :
            (a f : ℕ)
            → Marked c a f ⊎ ((a ≡ n) × (f ≡ temp))
            → IsCopy memory bound low (OrAt P n) (mark n temp c) a f
        copy_at a f (inl h) =
            IsCopy-mono memory bound low P (OrAt P n) c (mark n temp c) a f mark-marks refl
              (omega arith) inl (w.copies a f h)
        copy_at a f (inr (e, g)) =
            subst (IsCopy memory bound low (OrAt P n) (mark n temp c) a) (sym g)
              (subst (λ k. IsCopy memory bound low (OrAt P n) (mark n temp c) k temp) (sym e) own)

        same :
            (a b f : ℕ)
            → Marked c a f ⊎ ((a ≡ n) × (f ≡ temp))
            → Marked c b f ⊎ ((b ≡ n) × (f ≡ temp))
            → a ≡ b
        same a b f (inl h) (inl k) = w.single a b f h k
        same a b f (inl h) (inr (_, g)) = absurd (unused a (subst (Marked c a) g h))
        same a b f (inr (_, g)) (inl k) = absurd (unused b (subst (Marked c b) g k))
        same a b f (inr (e, _)) (inr (e', _)) = e ∙ sym e'
