-- ===== src/Memory/Preserve.antt =====
-- A collection keeps what every root stands for: gc1 of src/utils.c.
use mathlib.Core.Path.{subst}
use joy.Prelude.{
  ℕ, ◌<◌, ◌≡◌, ◌≢◌, inl, inr, refl, sym, ap, ◌∙◌, ltb, ◌==◌, if_keeps, if◌then◌else◌, List, [], ◌∷◌,
  Option, some, arith,
}
use joy.Syntax.{Factor, Term}
use joy.Memory.Nodes.{Value, atom, lis, copied, Node, Memory}
use joy.Memory.Collector.{
  Heap, copy, copy_roots, cons_root, with_root, definitions, gc1, then_params, with_params,
}
use joy.Memory.Represents.{Represents, empty, cell, Holds, holds_list, holds_atom, size}
use joy.Memory.Forward.{Marked, Forwarded, ValueOf, Invariant, Forwarded-mono}
use joy.Memory.Copy.{copy-CopyWorks}

-- One index for each term
abbrev pub AllRepresent : Memory → ℕ → List Term → List ℕ → Type 0
AllRepresent m bound [] [] = Unit {0}
AllRepresent m bound (t ∷ ts) (p ∷ ps) = Represents m bound t p × AllRepresent m bound ts ps
AllRepresent m bound _ _ = ⊥

abbrev pub AllBelow : ℕ → List Term → Type 0
AllBelow fuel [] = Unit {0}
AllBelow fuel (t ∷ ts) = (size t < fuel) × AllBelow fuel ts

-- The nodes of the definitions lead to such nodes only, and no node is marked.
pub record IsReady (memory : Memory) (low : ℕ) : Type 0 where
  pub positive : 0 < low
  pub uncopied : (a f : ℕ) → (memory a).value ≢ copied f
  pub next_closed : (p : ℕ) → p < low → (memory p).next < low
  pub list_closed : (p q : ℕ) → p < low → (memory p).value ≡ lis q → q < low

module _ (memory : Memory) (bound low : ℕ) (ready : IsReady memory low) where
  abbrev Fwd : Heap → ℕ → ℕ → Type 0
  Fwd = Forwarded memory bound low

  -- Every node that is copied has its successor.
  abbrev pub Complete : Heap → Type 0
  Complete = Invariant memory bound low (λ _. ⊥)

  module _ (c : Heap) (w : Complete c) where
    kept_value :
        (p : ℕ) → p < low → (v : Value) → (memory p).value ≡ v → ValueOf memory bound low c v v
    kept_value p l (atom x a) e = refl
    kept_value p l (lis q) e = (q, refl, inl (ready.list_closed p q l e, refl))
    kept_value p l (copied f) e = ready.uncopied p f e

    -- A node and where it leads after the copy
    image :
        (p f : ℕ)
        → p ≢ 0
        → Fwd c p f
        → (f ≢ 0)
          × (f < c.index)
          × ValueOf memory bound low c (memory p).value (c.memory f).value
          × Fwd c (memory p).next (c.memory f).next
    image p f z (inl (l, e)) =
        let same : c.memory f ≡ memory p = ap c.memory e ∙ w.fixed p l in
        (
          (λ q. z (sym e ∙ q)),
          omega (arith, e, l, w.reached),
          subst (λ (y : Node). ValueOf memory bound low c (memory p).value y.value) (sym same)
              (kept_value p l (memory p).value refl),
          subst (λ (y : Node). Fwd c (memory p).next y.next) (sym same)
              (inl (ready.next_closed p l, refl)),
        )
    image p f z (inr (l, m)) =
        let k = w.copies p f m in
        (
          (λ q. omega (arith, k.target, ready.positive, q)),
          k.below,
          k.value,
          elim k.next [ inl e ↦ absurd e | inr g ↦ g ],
        )

    mutual
      pub Represents-copied :
          (t : Term) (p f : ℕ)
          → Represents memory bound t p
          → Fwd c p f
          → Represents c.memory c.index t f
      Represents-copied t p f (empty _ e) (inl (l, g)) = empty f (g ∙ e)
      Represents-copied t p f (empty _ e) (inr (l, m)) =
          absurd (omega (arith, e, l, ready.positive))
      Represents-copied t p f (cell x u _ z l h r) g =
          let (nonzero, below, value, next) = image p f z g in
          cell x u f nonzero below (Holds-copied x (memory p).value (c.memory f).value h value)
            (Represents-copied u (memory p).next (c.memory f).next r next)

      Holds-copied :
          (x : Factor) (v u : Value)
          → Holds memory bound x v
          → ValueOf memory bound low c v u
          → Holds c.memory c.index x u
      Holds-copied x v u (holds_list t _ q e r) g =
          let (q', e', f) = subst (λ v. ValueOf memory bound low c v u) e g in
          holds_list t u q' e' (Represents-copied t q q' r f)
      Holds-copied x v u (holds_atom _ _ a e) g =
          holds_atom x u a (subst (λ v. ValueOf memory bound low c v u) e g)

  abbrev pub AllForwarded : Heap → List ℕ → List ℕ → Type 0
  AllForwarded c [] [] = Unit {0}
  AllForwarded c (r ∷ rs) (p ∷ ps) = Fwd c r p × AllForwarded c rs ps
  AllForwarded c _ _ = ⊥

  pub AllRepresent-copied :
      (c : Heap)
      → Complete c
      → (ts : List Term) (rs ps : List ℕ) → AllRepresent memory bound ts rs
      → AllForwarded c rs ps
      → AllRepresent c.memory c.index ts ps
  AllRepresent-copied c w [] [] [] h g = tt
  AllRepresent-copied c w [] [] (p ∷ ps) h g = absurd g
  AllRepresent-copied c w [] (r ∷ rs) ps h g = absurd h
  AllRepresent-copied c w (t ∷ ts) [] ps h g = absurd h
  AllRepresent-copied c w (t ∷ ts) (r ∷ rs) [] h g = absurd g
  AllRepresent-copied c w (t ∷ ts) (r ∷ rs) (p ∷ ps) (h, hs) (g, gs) =
      (Represents-copied c w t r p h g, AllRepresent-copied c w ts rs ps hs gs)

  -- Every root is copied in its turn.
  RootsCopied : Heap → List ℕ → Option (List ℕ × Heap) → Type 0
  RootsCopied c rs o =
      (ps : List ℕ) × (d : Heap) × (o ≡ some (ps, d))
      × Complete d
      × ((a f : ℕ) → Marked c a f → Marked d a f)
      × AllForwarded d rs ps

  RootCopied : Heap → ℕ → Option (ℕ × Heap) → Type 0
  RootCopied c r o =
      (p : ℕ) × (d : Heap) × (o ≡ some (p, d))
      × Complete d
      × ((a f : ℕ) → Marked c a f → Marked d a f)
      × Fwd d r p

  copy_roots-copied :
      (fuel : ℕ) (ts : List Term) (rs : List ℕ) (c : Heap)
      → Complete c
      → AllRepresent memory bound ts rs
      → AllBelow fuel ts
      → RootsCopied c rs (copy_roots low fuel rs c)
  unfolding copy_roots RootsCopied RootCopied
  copy_roots-copied fuel [] [] c w h l = ([], c, refl, w, (λ a f m. m), tt)
  copy_roots-copied fuel [] (r ∷ rs) c w h l = absurd h
  copy_roots-copied fuel (t ∷ ts) [] c w h l = absurd h
  copy_roots-copied fuel (t ∷ ts) (r ∷ rs) c w (h, hs) (l, ls) =
      let (p, d, eq, v, marks, forward) = one in
      let (ps, e, eqs, u, more, forwards) = copy_roots-copied fuel ts rs d v hs ls in
      (
        p ∷ ps,
        e,
        ap (λ o. cons_root low o (λ d. copy_roots low fuel rs d)) eq ∙ ap (with_root p) eqs,
        u,
        (λ a f m. more a f (marks a f m)),
        (Forwarded-mono memory bound low d e r p more forward, forwards),
      )
    where
      one : RootCopied c r (if r == 0 then some (0, c) else copy low fuel c r)
      one =
          if_keeps (RootCopied c r) (r == 0) _ _
            (λ b. (
              0,
              c,
              refl,
              w,
              (λ a f m. m),
              inl (ground (arith, b, ready.positive), ground (arith, b)),
            ))
            (λ b.
              let (p, d, eq, v, g, f) =
                copy-CopyWorks memory bound low ready.uncopied ready.positive fuel (λ _. ⊥) c t r w
                  h l in
              (p, d, eq, v, g.marks, f))

  definitions-fixed : (i : ℕ) → i < low → definitions low memory i ≡ memory i
  definitions-fixed i l =
      if_keeps (λ x. x ≡ memory i) (ltb i low) _ _ (λ _. refl) (λ b. absurd (ground (arith, b, l)))

  start-Complete : Complete (record { old = memory; memory = definitions low memory; index = low })
  start-Complete = record {
    reached = omega arith;
    nexts = λ a. refl;
    values = λ a. inl refl;
    fixed = definitions-fixed;
    clean = λ i f.
        if_keeps (λ (x : Node). x.value ≢ copied f) (ltb i low) _ _ (λ _. ready.uncopied i f)
          (λ _ e. cc);
    copies = λ a f h. absurd (ready.uncopied a f h);
    single = λ a b f h k. absurd (ready.uncopied a f h);
  }

  pub Complete-IsReady : (c : Heap) → Complete c → IsReady c.memory low
  Complete-IsReady c w = record {
    positive = ready.positive;
    uncopied = w.clean;
    next_closed =
        λ p l. subst (λ (y : Node). y.next < low) (sym (w.fixed p l)) (ready.next_closed p l);
    list_closed =
        λ p q l e. ready.list_closed p q l (ap (λ (y : Node). y.value) (sym (w.fixed p l)) ∙ e);
  }

  pub AllForwarded-mono :
      (c d : Heap) (rs ps : List ℕ)
      → ((a f : ℕ) → Marked c a f → Marked d a f)
      → AllForwarded c rs ps
      → AllForwarded d rs ps
  AllForwarded-mono c d [] [] m g = tt
  AllForwarded-mono c d [] (p ∷ ps) m g = absurd g
  AllForwarded-mono c d (r ∷ rs) [] m g = absurd g
  AllForwarded-mono c d (r ∷ rs) (p ∷ ps) m (g, gs) =
      (Forwarded-mono memory bound low c d r p m g, AllForwarded-mono c d rs ps m gs)

  -- gc1 until the scan of the variables
  pub gc1-copied :
      (fuel : ℕ) (ts us : List Term) (roots params : List ℕ)
      → AllRepresent memory bound ts roots
      → AllRepresent memory bound us params
      → AllBelow fuel ts
      → AllBelow fuel us
      → (moved : List ℕ) × (others : List ℕ) × (c : Heap) × (gc1 low fuel memory roots params
          ≡ some (moved, others, c))
        × Complete c
        × AllForwarded c roots moved
        × AllForwarded c params others
  unfolding gc1 RootsCopied
  gc1-copied fuel ts us roots params h k l m =
      let (moved, c, eq, w, _, forwards) = copy_roots-copied fuel ts roots _ start-Complete h l in
      let (others, d, eqs, v, marks, ends) = copy_roots-copied fuel us params c w k m in
      (
        moved,
        others,
        d,
        ap (λ o. then_params low o (λ c. copy_roots low fuel params c)) eq
            ∙ ap (with_params low moved) eqs,
        v,
        AllForwarded-mono c d roots moved marks forwards,
        ends,
      )
