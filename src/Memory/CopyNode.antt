-- ===== src/Memory/CopyNode.antt =====
-- copy_one of src/utils.c at a node that has no copy.
use mathlib.Core.Path.{subst}
use joy.Prelude.{
  ℕ, ◌≤◌, ◌<◌, ◌≡◌, ◌≢◌, ◌⊎◌, inl, inr, refl, sym, ap, ◌∙◌, false, ltb, Option, none, some, arith,
}
use joy.Syntax.{Factor, Term, ◌⊳◌}
use joy.Memory.Nodes.{is_compound, Value, atom, lis, copied, Node, Memory, store}
use joy.Memory.Collector.{Heap, Copier, mark, set_lis, allocate, copied_to, copy_value, copy_one}
use joy.Memory.Represents.{
  Represents, Holds, size, factor_size, Represents-size, Holds-cases, Represents-cell,
}
use joy.Memory.Forward.{
  store_same, store_other, Marked, Forwarded, ValueOf, Invariant, Within, Grows,
}
use joy.Memory.Writes.{allocate-Invariant, set_lis-Invariant}
use joy.Memory.Mark.{OrAt, mark-Invariant, mark-marks, mark-own, mark-cases}

pub copied_to-none : (v : Value) → ((f : ℕ) → v ≢ copied f) → copied_to v ≡ none
copied_to-none (atom x a) h = refl
copied_to-none (lis q) h = refl
copied_to-none (copied f) h = absurd (h f refl)

pub ltb-false : (n low : ℕ) → low ≤ n → ltb n low ≡ false
ltb-false n low h = ground arith

module _ (memory : Memory) (bound low : ℕ)
    (uncopied : (a f : ℕ) → (memory a).value ≢ copied f) where
  abbrev pub Fwd : Heap → ℕ → ℕ → Type 0
  Fwd = Forwarded memory bound low

  abbrev pub Inv : (ℕ → Type 0) → Heap → Type 0
  Inv = Invariant memory bound low

  -- A copier returns the forwarded index of a chain that stands for a term below size `k`.
  abbrev pub CopyWorks : ℕ → Copier → Type 1
  CopyWorks k copy =
      (P : ℕ → Type 0) (c : Heap) (t : Term) (n : ℕ)
      → Inv P c
      → Represents memory bound t n
      → size t < k
      → (p : ℕ) × (d : Heap) × (copy c n ≡ some (p, d))
        × Inv P d
        × Grows memory bound low c.index (size t) c d
        × Fwd d n p

  -- The node has a copy at the index, whose successor is still to be written.
  abbrev pub NodeCopied : (ℕ → Type 0) → Heap → ℕ → ℕ → Option (ℕ × Heap) → Type 0
  NodeCopied P c size_ n o =
      (d : Heap) × (o ≡ some (c.index, d))
      × Inv (OrAt P n) d
      × Grows memory bound low c.index size_ c d
      × Marked d n c.index

  module _ (k : ℕ) (copy : Copier) (works : CopyWorks k copy) (P : ℕ → Type 0) (c : Heap)
      (x : Factor) (t : Term) (n : ℕ) (w : Inv P c) (r : Represents memory bound (x ⊳ t) n)
      (source : low ≤ n) (here : (c.old n).value ≡ (memory n).value) where
    unmarked : (f : ℕ) → (c.old n).value ≢ copied f
    unmarked f e = uncopied n f (sym here ∙ e)

    allocated : Heap
    allocated = allocate c (c.old n)

    allocated-Inv : Inv P allocated
    unfolding allocated
    allocated-Inv = allocate-Invariant memory bound low P c (c.old n) w unmarked

    -- The node is marked after what its value holds is copied.
    finish :
        (inside : ℕ) (d : Heap)
        → inside < size (x ⊳ t)
        → Inv P d
        → c.index < d.index
        → ((a f : ℕ) → Marked c a f → Marked d a f)
        → ((i : ℕ) → i < c.index → d.memory i ≡ c.memory i)
        → ((a f : ℕ)
            → Marked d a f
            → Marked c a f ⊎ ((c.index < f) × Within memory bound low inside a))
        → ValueOf memory bound low d (memory n).value (d.memory c.index).value
        → NodeCopied P c (size (x ⊳ t)) n (some (c.index, mark n c.index d))
    unfolding mark
    finish inside d less v later marks kept fresh value = (
      mark n c.index d,
      refl,
      mark-Invariant memory bound low P d n c.index v source w.reached later still unused value,
      record {
        later = omega (arith, later);
        marks = λ a f h.
            mark-marks memory bound low P d n c.index v source w.reached later still unused a f
              (marks a f h);
        kept = λ i l ne. kept i l;
        fresh = λ a f h.
            from a f (
              mark-cases memory bound low P d n c.index v source w.reached later still unused a f
                h);
      },
      mark-own memory bound low P d n c.index v source w.reached later still unused,
    )
      where
        still : (f : ℕ) → (d.old n).value ≢ copied f
        still f h = elim (fresh n f h) [
          | inl g ↦ unmarked f g
          | inr (_, (u, s, l)) ↦
              omega (arith, less, l, Represents-size memory bound u (x ⊳ t) n s r)
        ]

        unused : (a : ℕ) → Marked d a c.index → ⊥
        unused a h = elim (fresh a c.index h) [
          | inl g ↦ omega (arith, (w.copies a c.index g).below)
          | inr (l, _) ↦ omega (arith, l)
        ]

        from :
            (a f : ℕ)
            → Marked d a f ⊎ ((a ≡ n) × (f ≡ c.index))
            → Marked c a f ⊎ ((c.index ≤ f) × Within memory bound low (size (x ⊳ t)) a)
        from a f (inr (e, g)) = inr (
          omega (arith, g),
          (x ⊳ t, subst (Represents memory bound (x ⊳ t)) (sym e) r, omega arith),
        )
        from a f (inl h) = elim (fresh a f h) [
          | inl g ↦ inl g
          | inr (l, (u, s, m)) ↦ inr (omega (arith, l), (u, s, omega (arith, m, less)))
        ]

    copy_value-atom :
        (y : Factor) (a : is_compound y ≡ false)
        → (memory n).value ≡ atom y a
        → NodeCopied P c (size (x ⊳ t)) n (copy_value copy allocated n c.index (atom y a))
    unfolding allocated allocate size factor_size
    copy_value-atom y a e =
        finish 0 allocated (omega arith) allocated-Inv (omega arith) (λ a f h. h)
          (λ i l. store_other c.memory c.index (c.old n) i (λ q. omega (arith, l, q)))
          (λ a f h. inl h)
          (subst (λ v. ValueOf memory bound low allocated v (allocated.memory c.index).value)
            (sym e) (ap (λ (z : Node). z.value) (store_same c.memory c.index (c.old n)) ∙ here ∙ e))

    copy_value-list :
        (u : Term) (q : ℕ)
        → (memory n).value ≡ lis q
        → Represents memory bound u q
        → size u < size (x ⊳ t)
        → size u < k
        → NodeCopied P c (size (x ⊳ t)) n (copy_value copy allocated n c.index (lis q))
    unfolding allocated allocate set_lis
    copy_value-list u q e s less enough =
        let (p, d, eq, v, g, forward) = works P allocated u q allocated-Inv s enough in
        let x = record (d.memory c.index) { value = lis p } in
        let unused : (a : ℕ) → Marked d a c.index → ⊥ = λ a h. elim (g.fresh a c.index h) [
          | inl m ↦ omega (arith, (w.copies a c.index m).below)
          | inr (l, _) ↦ omega (arith, l)
        ] in
        rw eq (
          finish (size u) (set_lis c.index p d) less
            (set_lis-Invariant memory bound low P d c.index p v w.reached unused)
            (omega (arith, g.later)) g.marks
            (λ i l.
              store_other d.memory c.index x i (λ q. omega (arith, l, q))
              ∙ g.kept i (omega (arith, l)) (λ q. omega (arith, l, q))
              ∙ store_other c.memory c.index (c.old n) i (λ q. omega (arith, l, q)))
            (λ a f h. elim (g.fresh a f h) [
              | inl m ↦ inl m
              | inr (l, i) ↦ inr (omega (arith, l), i)
            ])
            (subst (λ z. ValueOf memory bound low d z (store d.memory c.index x c.index).value)
              (sym e) (p, ap (λ (z : Node). z.value) (store_same d.memory c.index x), forward)))

    copy_value-copied :
        (v : Value)
        → (memory n).value ≡ v
        → Holds memory bound x v
        → size (x ⊳ t) ≤ k
        → NodeCopied P c (size (x ⊳ t)) n (copy_value copy allocated n c.index v)
    unfolding size factor_size
    copy_value-copied v e h l = elim (Holds-cases memory bound x v h) [
      | inl (u, q, z, s, sizes) ↦
          subst Done (sym z)
            (copy_value-list u q (e ∙ z) s (omega (arith, sizes)) (omega (arith, sizes, l)))
      | inr (y, a, z) ↦ subst Done (sym z) (copy_value-atom y a (e ∙ z))
    ]
      where
        Done : Value → Type 0
        Done v = NodeCopied P c (size (x ⊳ t)) n (copy_value copy allocated n c.index v)

    -- copy_one gives the node a copy.
    pub copy_one-copied : size (x ⊳ t) ≤ k → NodeCopied P c (size (x ⊳ t)) n (copy_one low copy c n)
    unfolding copy_one allocated
    copy_one-copied l =
        let (_, _, h, _) = Represents-cell memory bound x t n r in
        rw (ltb-false n low source, copied_to-none (c.old n).value unmarked)
          (subst (λ v. NodeCopied P c (size (x ⊳ t)) n (copy_value copy allocated n c.index v))
            (sym here) (copy_value-copied (memory n).value refl h l))
