-- ===== src/Memory/Scan.antt =====
-- A collection keeps what the variables stand for, as far as scan_roots of src/utils.c goes.
use mathlib.Core.Path.{subst}
use joy.Prelude.{
  ◌≤◌, ℕ, ◌<◌, ◌≡◌, refl, sym, ap, ◌∙◌, Bool, true, false, ◌&&◌, not, ◌==◌, if_keeps, true-false,
  inl, if◌then◌else◌, List, [], ◌∷◌, Option, none, some, arith,
}
use joy.Syntax.{Term}
use joy.Memory.Nodes.{Memory}
use joy.Memory.Collector.{Heap}
use joy.Memory.Variables.{
  Variable, copy_body, scanned, scan_roots, with_variable, gc1_variables, then_variables,
  with_roots,
}
use joy.Memory.Represents.{Represents, size}
use joy.Memory.Forward.{Marked, Forwarded, Forwarded-mono}
use joy.Memory.Copy.{copy-CopyWorks}
use joy.Memory.Preserve.{
  AllRepresent, AllBelow, IsReady, Complete, AllForwarded-mono, Represents-copied,
  AllRepresent-copied, Complete-IsReady, gc1-copied,
}

-- The variables that the scan meets, down to the one that is marked as the last or to a builtin,
-- stand for the terms.
abbrev pub VariablesRepresent : Memory → ℕ → List Term → List Variable → Type 0
VariablesRepresent m bound [] [] = Unit {0}
VariablesRepresent m bound (t ∷ ts) (x ∷ xs) =
    x.is_user ≡ true
    → (x.is_root ≡ true → Represents m bound t x.body)
      × (x.is_last ≡ false → VariablesRepresent m bound ts xs)
VariablesRepresent m bound _ _ = ⊥

module _ (memory : Memory) (bound low : ℕ) (ready : IsReady memory low) where
  abbrev Done : Heap → Type 0
  Done = Complete memory bound low ready

  -- The same variable, with a body that has moved
  record Moved (d : Heap) (x y : Variable) : Type 0 where
    user : y.is_user ≡ x.is_user
    root : y.is_root ≡ x.is_root
    last : y.is_last ≡ x.is_last
    body : x.is_user ≡ true → x.is_root ≡ true → Forwarded memory bound low d x.body y.body

  abbrev VariablesMoved : Heap → List Variable → List Variable → Type 0
  VariablesMoved d [] [] = Unit {0}
  VariablesMoved d (x ∷ xs) (y ∷ ys) =
      Moved d x y × (x.is_user ≡ true → x.is_last ≡ false → VariablesMoved d xs ys)
  VariablesMoved d _ _ = ⊥

  VariablesRepresent-moved :
      (d : Heap)
      → Done d
      → (ts : List Term) (xs ys : List Variable) → VariablesRepresent memory bound ts xs
      → VariablesMoved d xs ys
      → VariablesRepresent d.memory d.index ts ys
  VariablesRepresent-moved d w [] [] [] h g = tt
  VariablesRepresent-moved d w [] [] (y ∷ ys) h g = absurd g
  VariablesRepresent-moved d w [] (x ∷ xs) ys h g = absurd h
  VariablesRepresent-moved d w (t ∷ ts) [] ys h g = absurd h
  VariablesRepresent-moved d w (t ∷ ts) (x ∷ xs) [] h g = absurd g
  VariablesRepresent-moved d w (t ∷ ts) (x ∷ xs) (y ∷ ys) h (m, g) = λ u.
      let user = sym m.user ∙ u in
      let (own, others) = h user in
      (
        (λ r.
            let root = sym m.root ∙ r in
            Represents-copied memory bound low ready d w t x.body y.body (own root)
              (m.body user root)),
        (λ l.
            let last = sym m.last ∙ l in
            VariablesRepresent-moved d w ts xs ys (others last) (g user last)),
      )

  Later : Heap → Heap → Type 0
  Later c d = (a f : ℕ) → Marked c a f → Marked d a f

  BodyCopied : Heap → Variable → Option (ℕ × Heap) → Type 0
  BodyCopied c x o =
      (p : ℕ) × (d : Heap) × (o ≡ some (p, d))
      × Done d
      × Later c d
      × (x.is_root ≡ true → Forwarded memory bound low d x.body p)

  copy_body-copied :
      (fuel : ℕ) (t : Term) (x : Variable) (c : Heap)
      → Done c
      → (x.is_root ≡ true → Represents memory bound t x.body)
      → size t < fuel
      → BodyCopied c x (copy_body low fuel x c)
  unfolding BodyCopied Later
  copy_body-copied fuel t x c w h l =
      if_keeps (BodyCopied c x) (x.is_root && not (x.body == 0)) _ _
        (λ b.
          let (p, d, eq, v, g, f) =
            copy-CopyWorks memory bound low ready.uncopied ready.positive fuel (λ _. ⊥) c t x.body w
              (h (left x.is_root (not (x.body == 0)) b)) l in
          (p, d, eq, v, g.marks, (λ _. f)))
        (λ b. (
          x.body,
          c,
          refl,
          w,
          (λ a f m. m),
          (λ r. inl (omega (arith, zero x.is_root (x.body == 0) refl r b, ready.positive), refl)),
        ))
    where
      left : (a b : Bool) → a && b ≡ true → a ≡ true
      left true b h = refl
      left false b h = cc

      zero : (a b : Bool) → (x.body == 0) ≡ b → a ≡ true → a && not b ≡ false → x.body ≡ 0
      zero true true e r h = ground (arith, e)
      zero true false e r h = cc
      zero false b e r h = cc

  VariablesScanned : Heap → List Variable → Option (List Variable × Heap) → Type 0
  VariablesScanned c xs o =
      (ys : List Variable) × (d : Heap) × (o ≡ some (ys, d))
      × Done d
      × Later c d
      × VariablesMoved d xs ys

  scan_roots-copied :
      (fuel : ℕ) (ts : List Term) (xs : List Variable) (c : Heap)
      → Done c
      → VariablesRepresent memory bound ts xs
      → AllBelow fuel ts
      → VariablesScanned c xs (scan_roots low fuel xs c)
  unfolding scan_roots VariablesScanned BodyCopied Later
  scan_roots-copied fuel [] [] c w h l = ([], c, refl, w, (λ a f m. m), tt)
  scan_roots-copied fuel [] (x ∷ xs) c w h l = absurd h
  scan_roots-copied fuel (t ∷ ts) [] c w h l = absurd h
  scan_roots-copied fuel (t ∷ ts) (x ∷ xs) c w h (l, ls) =
      if_keeps (VariablesScanned c (x ∷ xs)) x.is_user _ _
        (λ u.
          let (own, others) = h u in
          let (p, d, eq, v, later, f) = copy_body-copied fuel t x c w own l in
          let y = record x { body = p } in
          let moved : (e : Heap) → Later d e → Moved e x y = λ e more. record {
            user = refl;
            root = refl;
            last = refl;
            body = λ _ r. Forwarded-mono memory bound low d e x.body p more (f r);
          } in
          subst
            (λ o. VariablesScanned c (x ∷ xs) (scanned low x xs (λ d. scan_roots low fuel xs d) o))
            (sym eq)
            (if_keeps (VariablesScanned c (x ∷ xs)) x.is_last _ _
              (λ b. (
                y ∷ xs,
                d,
                refl,
                v,
                later,
                (moved d (λ a f m. m), (λ _ n. absurd (true-false b n))),
              ))
              (λ b.
                let (ys, e, eqs, z, more, g) = scan_roots-copied fuel ts xs d v (others b) ls in
                (
                  y ∷ ys,
                  e,
                  ap (with_variable low y) eqs,
                  z,
                  (λ a f m. more a f (later a f m)),
                  (moved e more, (λ _ _. g)),
                ))))
        (λ u. (
          x ∷ xs,
          c,
          refl,
          w,
          (λ a f m. m),
          (
            record { user = refl; root = refl; last = refl; body = λ v. absurd (true-false v u) },
            (λ v. absurd (true-false v u)),
          ),
        ))

  -- The last step of gc1
  variables-scanned :
      (busy : Bool) (fuel : ℕ) (vs : List Term) (xs : List Variable) (c : Heap)
      → Done c
      → (busy ≡ true → VariablesRepresent memory bound vs xs)
      → AllBelow fuel vs
      → (ys : List Variable) × (d : Heap) × ((if busy
            then scan_roots low fuel xs c
            else some (xs, c))
          ≡ some (ys, d))
        × Done d
        × Later c d
        × (busy ≡ true → VariablesRepresent d.memory d.index vs ys)
  unfolding VariablesScanned Later
  variables-scanned true fuel vs xs c w i n =
      let (ys, d, eq, v, later, e) = scan_roots-copied fuel vs xs c w (i refl) n in
      (ys, d, eq, v, later, (λ _. VariablesRepresent-moved d v vs xs ys (i refl) e))
  variables-scanned false fuel vs xs c w i n = (xs, c, refl, w, (λ a f m. m), (λ b. cc))

  pub gc1_variables-Represents :
      (fuel : ℕ) (ts us vs : List Term) (roots params : List ℕ) (busy : Bool) (xs : List Variable)
      → AllRepresent memory bound ts roots
      → AllRepresent memory bound us params
      → (busy ≡ true → VariablesRepresent memory bound vs xs)
      → AllBelow fuel ts
      → AllBelow fuel us
      → AllBelow fuel vs
      → (moved : List ℕ) × (others : List ℕ) × (ys : List Variable) × (c : Heap) × (gc1_variables
            low fuel memory roots params busy xs
          ≡ some (moved, others, ys, c))
        × AllRepresent c.memory c.index ts moved
        × AllRepresent c.memory c.index us others
        × (busy ≡ true → VariablesRepresent c.memory c.index vs ys)
        × IsReady c.memory low
        × (low ≤ c.index)
  unfolding gc1_variables Later
  gc1_variables-Represents fuel ts us vs roots params busy xs h k i l m n =
      let (moved, others, c, eq, w, f, g) =
        gc1-copied memory bound low ready fuel ts us roots params h k l m in
      let (ys, d, eqs, v, later, e) = variables-scanned busy fuel vs xs c w i n in
      (
        moved,
        others,
        ys,
        d,
        ap
              (λ o.
                then_variables low o (λ c. if busy then scan_roots low fuel xs c else some (xs, c)))
              eq
            ∙ ap (with_roots low moved others) eqs,
        AllRepresent-copied memory bound low ready d v ts roots moved h
            (AllForwarded-mono memory bound low ready c d roots moved later f),
        AllRepresent-copied memory bound low ready d v us params others k
            (AllForwarded-mono memory bound low ready c d params others later g),
        e,
        Complete-IsReady memory bound low ready d v,
        v.reached,
      )

-- The variables after the one that is marked as the last are not visited: they keep their old indices.
pub scan_roots-stops :
    (low fuel : ℕ) (x : Variable) (xs ys : List Variable) (c d : Heap)
    → x.is_last ≡ true
    → scan_roots low fuel (x ∷ xs) c ≡ some (ys, d)
    → (y : Variable) × (ys ≡ y ∷ xs)
unfolding scan_roots
scan_roots-stops low fuel x xs ys c d last p = step x.is_user (copy_body low fuel x c) p
  where
    result : Option (List Variable × Heap) → List Variable
    result none = []
    result (some (zs, e)) = zs

    step :
        (u : Bool) (o : Option (ℕ × Heap))
        → (if u then scanned low x xs (λ e. scan_roots low fuel xs e) o else some (x ∷ xs, c))
          ≡ some (ys, d)
        → (y : Variable) × (ys ≡ y ∷ xs)
    step false o q = (x, sym (ap result q))
    step true none q = cc
    step true (some (p, e)) q = (record x { body = p }, ap result (sym q) ∙ marked x.is_last last)
      where
        marked :
            (l : Bool)
            → l ≡ true
            → result (
                if l
                then some (record x { body = p } ∷ xs, e)
                else with_variable low (record x { body = p }) (scan_roots low fuel xs e))
              ≡ record x { body = p } ∷ xs
        marked true h = refl
        marked false h = cc
