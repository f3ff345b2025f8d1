-- ===== src/Memory/Writes.antt =====
-- What the writes of the collector keep of its invariant.
use mathlib.Core.Path.{subst}
use joy.Prelude.{ℕ, ◌≤◌, ◌≡◌, ◌≢◌, ◌⊎◌, inl, inr, sym, ap, ◌∙◌, arith}
use joy.Memory.Nodes.{lis, copied, Node, Memory}
use joy.Memory.Collector.{Heap, set_next, set_lis, allocate}
use joy.Memory.Forward.{
  store_same, store_other, store_keeps, eq_cases, copied_injective, Marked, Forwarded, ValueOf,
  IsCopy, Invariant, IsCopy-mono,
}

module _ (memory : Memory) (bound low : ℕ) where
  abbrev Fwd : Heap → ℕ → ℕ → Type 0
  Fwd = Forwarded memory bound low

  abbrev Inv : (ℕ → Type 0) → Heap → Type 0
  Inv = Invariant memory bound low

  -- A successor is written: node `a` waits for it no longer.
  pub set_next-Invariant :
      (P Q : ℕ → Type 0) (c : Heap) (a tail p : ℕ)
      → Inv P c
      → Marked c a tail
      → ((b : ℕ) → P b → Q b ⊎ (b ≡ a))
      → Q a ⊎ Fwd c (memory a).next p
      → Inv Q (set_next tail p c)
  unfolding set_next
  set_next-Invariant P Q c a tail p w m drop new = record {
    reached = w.reached;
    nexts = w.nexts;
    values = w.values;
    fixed =
        λ i l. store_other c.memory tail x i (λ e. omega (arith, own.target, e, l)) ∙ w.fixed i l;
    clean = λ i f.
        store_keeps (λ y. y.value ≢ copied f) c.memory tail x i (λ _. w.clean tail f)
          (λ _. w.clean i f);
    copies = λ b f h. copy_at b f h (eq_cases b a);
    single = w.single;
  }
    where
      x : Node
      x = record (c.memory tail) { next = p }

      own : IsCopy memory bound low P c a tail
      own = w.copies a tail m

      written : IsCopy memory bound low Q (set_next tail p c) a tail
      written = record {
        source = own.source;
        target = own.target;
        below = own.below;
        value =
            subst (λ (y : Node). ValueOf memory bound low c (memory a).value y.value)
              (sym (store_same c.memory tail x)) own.value;
        next =
            subst (λ (y : Node). Q a ⊎ Fwd c (memory a).next y.next)
              (sym (store_same c.memory tail x)) new;
      }

      copy_at :
          (b f : ℕ)
          → Marked c b f
          → (b ≡ a) ⊎ (b ≢ a)
          → IsCopy memory bound low Q (set_next tail p c) b f
      copy_at b f h (inl e) =
          let same = copied_injective (sym m ∙ ap (λ k. (c.old k).value) (sym e) ∙ h) in
          subst (IsCopy memory bound low Q (set_next tail p c) b) same
            (subst (λ k. IsCopy memory bound low Q (set_next tail p c) k tail) (sym e) written)
      copy_at b f h (inr n) =
          IsCopy-mono memory bound low P Q c (set_next tail p c) b f (λ b g k. k)
            (store_other c.memory tail x f (λ e. n (w.single b a tail (subst (Marked c b) e h) m)))
            (omega arith) dropped (w.copies b f h)
        where
          dropped : P b → Q b
          dropped q = elim (drop b q) [ inl r ↦ r | inr e ↦ absurd (n e) ]

  -- The successor that a node has is the right one: it waits no longer.
  pub drop-Invariant :
      (P Q : ℕ → Type 0) (c : Heap) (a tail : ℕ)
      → Inv P c
      → Marked c a tail
      → ((b : ℕ) → P b → Q b ⊎ (b ≡ a))
      → Fwd c (memory a).next (c.memory tail).next
      → Inv Q c
  drop-Invariant P Q c a tail w m drop new = record {
    reached = w.reached;
    nexts = w.nexts;
    values = w.values;
    fixed = w.fixed;
    clean = w.clean;
    copies = λ b f h.
        let k = w.copies b f h in
        record {
          source = k.source;
          target = k.target;
          below = k.below;
          value = k.value;
          next = elim k.next [ inr g ↦ inr g | inl q ↦ waits b f h (drop b q) ];
        };
    single = w.single;
  }
    where
      waits :
          (b f : ℕ) → Marked c b f → Q b ⊎ (b ≡ a) → Q b ⊎ Fwd c (memory b).next (c.memory f).next
      waits b f h (inl q) = inl q
      waits b f h (inr e) =
          let same = copied_injective (sym m ∙ ap (λ k. (c.old k).value) (sym e) ∙ h) in
          inr (
            subst (λ g. Fwd c (memory b).next (c.memory g).next) same
              (subst (λ k. Fwd c (memory k).next (c.memory tail).next) (sym e) new))

  -- A node that is not marked is written at the index.
  pub allocate-Invariant :
      (P : ℕ → Type 0) (c : Heap) (x : Node)
      → Inv P c
      → ((f : ℕ) → x.value ≢ copied f)
      → Inv P (allocate c x)
  unfolding allocate
  allocate-Invariant P c x w n = record {
    reached = omega (arith, w.reached);
    nexts = w.nexts;
    values = w.values;
    fixed =
        λ i l. store_other c.memory c.index x i (λ e. omega (arith, w.reached, e, l)) ∙ w.fixed i l;
    clean = λ i f.
        store_keeps (λ y. y.value ≢ copied f) c.memory c.index x i (λ _. n f) (λ _. w.clean i f);
    copies = λ a f h.
        let k = w.copies a f h in
        IsCopy-mono memory bound low P P c (allocate c x) a f (λ b g k. k)
          (store_other c.memory c.index x f (λ e. omega (arith, k.below, e))) (omega arith) (λ p. p)
          k;
    single = w.single;
  }

  -- The node `temp` is no copy yet.
  abbrev pub Unused : Heap → ℕ → Type 0
  Unused c temp = (a : ℕ) → Marked c a temp → ⊥

  pub set_lis-Invariant :
      (P : ℕ → Type 0) (c : Heap) (temp q : ℕ)
      → Inv P c
      → low ≤ temp
      → Unused c temp
      → Inv P (set_lis temp q c)
  unfolding set_lis
  set_lis-Invariant P c temp q w le un = record {
    reached = w.reached;
    nexts = w.nexts;
    values = w.values;
    fixed = λ i l. store_other c.memory temp x i (λ e. omega (arith, le, e, l)) ∙ w.fixed i l;
    clean = λ i f.
        store_keeps (λ y. y.value ≢ copied f) c.memory temp x i (λ _ e. cc) (λ _. w.clean i f);
    copies = λ a f h.
        IsCopy-mono memory bound low P P c (set_lis temp q c) a f (λ b g k. k)
          (store_other c.memory temp x f (λ e. un a (subst (Marked c a) e h))) (omega arith)
          (λ p. p) (w.copies a f h);
    single = w.single;
  }
    where
      x : Node
      x = record (c.memory temp) { value = lis q }
