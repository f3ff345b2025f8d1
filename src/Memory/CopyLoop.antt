-- ===== src/Memory/CopyLoop.antt =====
-- The loop of copy and copy itself, in src/utils.c: with enough fuel they return, and keep the
-- invariant.
use mathlib.Core.Path.{subst}
use joy.Prelude.{
  if_keeps, ℕ, zero, suc, ◌≤◌, ◌<◌, ◌≡◌, ◌≢◌, ◌⊎◌, inl, inr, refl, sym, ◌∙◌, Bool, true, false, ltb,
  ◌==◌, if◌then◌else◌, Option, some, arith,
}
use joy.Syntax.{Term, nil, ◌⊳◌}
use joy.Memory.Nodes.{copied, Memory}
use joy.Memory.Collector.{
  Heap, Copier, set_next, copied_to, copy_one, copy_loop, loop_at, appended, finish, link,
}
use joy.Memory.Represents.{Represents, empty, size, Represents-cell}
use joy.Memory.Forward.{eq_cases, Marked, Forwarded, Invariant}
use joy.Memory.Writes.{set_next-Invariant, drop-Invariant}
use joy.Memory.Mark.{OrAt}
use joy.Memory.CopyNode.{CopyWorks, copy_one-copied, copied_to-none}
use joy.Memory.CopyChain.{
  copied_to-some, ChainCopied, set_next-Grows, Grows-trans, linked, linked-Inv, linked-Grows,
  linked-next,
}

pub lt_cases : (a b : ℕ) → (a < b) ⊎ (b ≤ a)
lt_cases a b = decided (ltb a b) refl
  where
    decided : (e : Bool) → ltb a b ≡ e → (a < b) ⊎ (b ≤ a)
    decided true p = inl (ground (arith, p))
    decided false p = inr (ground (arith, p))

pub is_zero-false : (n : ℕ) → n ≢ 0 → (n == 0) ≡ false
is_zero-false n h = ground (arith, h)

module _ (memory : Memory) (bound low : ℕ) (uncopied : (a f : ℕ) → (memory a).value ≢ copied f)
    (positive : 0 < low) where
  abbrev Fwd : Heap → ℕ → ℕ → Type 0
  Fwd = Forwarded memory bound low

  abbrev Inv : (ℕ → Type 0) → Heap → Type 0
  Inv = Invariant memory bound low

  module _ (P : ℕ → Type 0) (c : Heap) (a head tail current : ℕ) (t : Term) (w : Inv (OrAt P a) c)
      (m : Marked c a tail) (e : (memory a).next ≡ current) where
    tail_nonzero : tail ≢ 0
    tail_nonzero z = omega (arith, (w.copies a tail m).target, z)

    -- The chain goes on with nodes that stay, or with a node that has a copy.
    linked_to :
        (p : ℕ)
        → Fwd c current p
        → ChainCopied memory bound low uncopied positive P c head tail
            (size t)
            (some (head, set_next tail p c))
    linked_to p f = (
      set_next tail p c,
      refl,
      set_next-Invariant memory bound low (OrAt P a) P c a tail p w m (λ b h. h)
          (inr (subst (λ k. Fwd c k p) (sym e) f)),
      set_next-Grows memory bound low uncopied positive c tail p (size t),
    )

    finish-linked :
        (c.memory tail).next ≡ 0
        → current < low
        → ChainCopied memory bound low uncopied positive P c head tail
            (size t)
            (some (finish low head tail current c))
    finish-linked z l = elim (eq_cases current 0) [
      | inr nonzero ↦
          rw (is_zero-false current nonzero, is_zero-false tail tail_nonzero)
            (linked_to current (inl (l, refl)))
      | inl none_left ↦ rw none_left (
        c,
        refl,
        drop-Invariant memory bound low (OrAt P a) P c a tail w m (λ b h. h)
            (inl (omega (arith, e, l), z ∙ sym none_left ∙ sym e)),
        record {
          later = omega arith;
          marks = λ a f h. h;
          kept = λ i l ne. refl;
          fresh = λ a f h. inl h;
        },
      )
    ]

    shared-linked :
        (f : ℕ)
        → low ≤ current
        → Marked c current f
        → ChainCopied memory bound low uncopied positive P c head tail
            (size t)
            (some (if tail == 0 then f else head, link low tail f c))
    shared-linked f l h = rw (is_zero-false tail tail_nonzero) (linked_to f (inr (l, h)))

  module _ (k : ℕ) (copy : Copier) (works : CopyWorks memory bound low uncopied k copy) where
    abbrev pub LoopWorks : ℕ → (ℕ → ℕ → ℕ → Heap → Option (ℕ × Heap)) → Type 1
    LoopWorks j loop =
        (P : ℕ → Type 0) (c : Heap) (a head tail current : ℕ) (t : Term)
        → Inv (OrAt P a) c
        → Marked c a tail
        → (memory a).next ≡ current
        → (c.memory tail).next ≡ 0
        → head ≢ 0
        → Represents memory bound t current
        → size t < j
        → size t ≤ k
        → ChainCopied memory bound low uncopied positive P c head tail (size t)
            (loop head tail current c)

    -- The chain goes on with a node that has no copy, and the loop goes on after it.
    appended-linked :
        (j : ℕ) (loop : ℕ → ℕ → ℕ → Heap → Option (ℕ × Heap))
        → LoopWorks j loop
        → (P : ℕ → Type 0) (c : Heap) (a head tail current : ℕ) (t : Term) → Inv (OrAt P a) c
        → Marked c a tail
        → (memory a).next ≡ current
        → head ≢ 0
        → Represents memory bound t current
        → low ≤ current
        → (c.old current).value ≡ (memory current).value
        → size t < suc j
        → size t ≤ k
        → ChainCopied memory bound low uncopied positive P c head tail
            (size t)
            (appended low head tail (c.old current).next loop (copy_one low copy c current))
    unfolding size linked
    appended-linked j loop goes P c a head tail current nil w m e nz (empty _ z) ge here l s =
        absurd (omega (arith, z, ge, positive))
    appended-linked j loop goes P c a head tail current (x ⊳ u) w m e nz r ge here l s =
        let (_, _, _, rest) = Represents-cell memory bound x u current r in
        let (d, eq, v, g, own) =
          copy_one-copied memory bound low uncopied k copy works (OrAt P a) c x u current w r ge
            here s in
        let old = g.marks a tail m in
        let after =
          linked-Inv memory bound low uncopied positive P c d a tail current (size (x ⊳ u)) v g old
            own ge e in
        let grown =
          linked-Grows memory bound low uncopied positive P c d a tail current (size (x ⊳ u)) v g
            old own ge e in
        let ended =
          linked-next memory bound low uncopied positive P c d a tail current (size (x ⊳ u)) v g old
            own ge e in
        let (d', eq', v', g') =
          goes P (linked c.index tail d) current head c.index (c.old current).next u after own
            (sym (w.nexts current)) ended nz
            (subst (Represents memory bound u) (sym (w.nexts current)) rest) (omega (arith, l))
            (omega (arith, s)) in
        rw (eq, is_zero-false head nz)
          (
            d',
            eq',
            v',
            Grows-trans memory bound low uncopied positive c (linked c.index tail d) d' tail c.index
                (size (x ⊳ u)) (size u) grown g' (inr (omega arith)) (size (x ⊳ u)) (omega arith)
                (omega arith),
          )

    pub copy_loop-linked : (j : ℕ) → LoopWorks j (λ h t n d. copy_loop low copy j h t n d)
    unfolding copy_loop
    copy_loop-linked zero P c a head tail current t w m e z nz r l s = absurd (omega (arith, l))
    copy_loop-linked (suc j) P c a head tail current t w m e z nz r l s =
        if_keeps (ChainCopied memory bound low uncopied positive P c head tail (size t))
          (ltb current low) _ _
          (λ b. finish-linked P c a head tail current t w m e z (ground (arith, b)))
          (λ b. goes_on (copy_loop-linked j) (w.values current) (ground (arith, b)))
      where
        At : Option ℕ → Type 0
        At o = ChainCopied memory bound low uncopied positive P c head tail (size t) (
            loop_at low head tail current c (λ h t n d. copy_loop low copy j h t n d)
              (copy_one low copy c current) o)

        goes_on :
            LoopWorks j (λ h t n d. copy_loop low copy j h t n d)
            → ((c.old current).value ≡ (memory current).value) ⊎ ((f : ℕ) × Marked c current f)
            → low ≤ current
            → At (copied_to (c.old current).value)
        goes_on works_on (inl here) ge =
            subst At
              (sym
                (copied_to-none (c.old current).value (λ f h. uncopied current f (sym here ∙ h))))
              (appended-linked j (λ h t n d. copy_loop low copy j h t n d) works_on P c a head tail
                current t w m e nz r ge here l s)
        goes_on works_on (inr (f, h)) ge =
            subst At (sym (copied_to-some (c.old current).value f h))
              (shared-linked P c a head tail current t w m e f ge h)
