-- ===== src/Memory/CopyChain.antt =====
-- The loop of copy in src/utils.c: the nodes of a chain are copied one after the other, and linked.
use mathlib.Core.Path.{subst}
use joy.Prelude.{ℕ, ◌≤◌, ◌<◌, ◌≡◌, ◌≢◌, ◌⊎◌, inl, inr, refl, sym, ap, ◌∙◌, Option, some, arith}
use joy.Memory.Nodes.{Value, copied, Node, Memory}
use joy.Memory.Collector.{Heap, set_next, copied_to}
use joy.Memory.Forward.{store_same, store_other, Marked, Forwarded, Invariant, Grows}
use joy.Memory.Writes.{set_next-Invariant}
use joy.Memory.Mark.{OrAt}

pub copied_to-some : (v : Value) (f : ℕ) → v ≡ copied f → copied_to v ≡ some f
copied_to-some v f e = ap copied_to e

-- The copy at `temp` is linked to `tail`, and has no successor yet.
unfoldable pub linked : ℕ → ℕ → Heap → Heap
unfolding set_next
linked temp tail d = set_next temp 0 (set_next tail temp d)

module _ (memory : Memory) (bound low : ℕ) (uncopied : (a f : ℕ) → (memory a).value ≢ copied f)
    (positive : 0 < low) where
  abbrev Fwd : Heap → ℕ → ℕ → Type 0
  Fwd = Forwarded memory bound low

  abbrev Inv : (ℕ → Type 0) → Heap → Type 0
  Inv = Invariant memory bound low

  -- The rest of a chain is copied and linked to `tail`, the copy of node `a`.
  abbrev pub ChainCopied : (ℕ → Type 0) → Heap → ℕ → ℕ → ℕ → Option (ℕ × Heap) → Type 0
  ChainCopied P c head tail n o =
      (d : Heap) × (o ≡ some (head, d)) × Inv P d × Grows memory bound low tail n c d

  pub set_next-Grows :
      (c : Heap) (tail p n : ℕ) → Grows memory bound low tail n c (set_next tail p c)
  unfolding set_next
  set_next-Grows c tail p n = record {
    later = omega arith;
    marks = λ a f h. h;
    kept = λ i l ne. store_other c.memory tail _ i ne;
    fresh = λ a f h. inl h;
  }

  pub Grows-trans :
      (c d e : Heap) (tail end m n : ℕ)
      → Grows memory bound low tail m c d
      → Grows memory bound low end n d e
      → (end ≡ tail) ⊎ (c.index ≤ end)
      → (k : ℕ) → m ≤ k
      → n ≤ k
      → Grows memory bound low tail k c e
  Grows-trans c d e tail end m n g h apart k mk nk = record {
    later = omega (arith, g.later, h.later);
    marks = λ a f p. h.marks a f (g.marks a f p);
    kept = λ i l ne.
        h.kept i (omega (arith, l, g.later))
          (elim apart [ inl q ↦ λ z. ne (z ∙ q) | inr q ↦ λ z. omega (arith, l, q, z) ])
        ∙ g.kept i l ne;
    fresh = λ a f p. elim (h.fresh a f p) [
      | inr (l, (t, r, s)) ↦ inr (omega (arith, l, g.later), (t, r, omega (arith, s)))
      | inl q ↦ elim (g.fresh a f q) [
        | inl z ↦ inl z
        | inr (l, (t, r, s)) ↦ inr (l, (t, r, omega (arith, s)))
      ]
    ];
  }

  pub Grows-weaken :
      (c d : Heap) (tail n : ℕ)
      → Grows memory bound low c.index n c d
      → Grows memory bound low tail n c d
  Grows-weaken c d tail n g = record {
    later = g.later;
    marks = g.marks;
    kept = λ i l _. g.kept i l (λ z. omega (arith, l, z));
    fresh = g.fresh;
  }

  -- The copy of a node is linked to the copy of the node before it, and has no successor yet.
  module _ (P : ℕ → Type 0) (c d : Heap) (a tail current n : ℕ)
      (v : Inv (OrAt (OrAt P a) current) d) (g : Grows memory bound low c.index n c d)
      (m : Marked d a tail) (m' : Marked d current c.index) (ge : low ≤ current)
      (e : (memory a).next ≡ current) where
    pub linked-Inv : Inv (OrAt P current) (linked c.index tail d)
    unfolding linked
    linked-Inv =
        set_next-Invariant memory bound low (OrAt P current) (OrAt P current)
          (set_next tail c.index d) current c.index 0 first m' (λ b h. inl h) (inl (inr refl))
      where
        dropped : (b : ℕ) → OrAt (OrAt P a) current b → OrAt P current b ⊎ (b ≡ a)
        dropped b (inl (inl p)) = inl (inl p)
        dropped b (inl (inr q)) = inr q
        dropped b (inr q) = inl (inr q)

        first : Inv (OrAt P current) (set_next tail c.index d)
        first =
            set_next-Invariant memory bound low (OrAt (OrAt P a) current) (OrAt P current) d a tail
              c.index v m dropped (inr (subst (λ k. Fwd d k c.index) (sym e) (inr (ge, m'))))

    pub linked-Grows : Grows memory bound low tail n c (linked c.index tail d)
    unfolding linked
    linked-Grows =
        Grows-trans c (set_next tail c.index d) (linked c.index tail d) tail c.index n n
          (Grows-trans c d (set_next tail c.index d) tail tail n n (Grows-weaken c d tail n g)
            (set_next-Grows d tail c.index n) (inl refl) n (omega arith) (omega arith))
          (set_next-Grows (set_next tail c.index d) c.index 0 n) (inr (omega arith)) n (omega arith)
          (omega arith)

    pub linked-next : ((linked c.index tail d).memory c.index).next ≡ 0
    unfolding linked
    linked-next = ap (λ (y : Node). y.next) (store_same (set_next tail c.index d).memory c.index _)
