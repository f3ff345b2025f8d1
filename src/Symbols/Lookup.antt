-- ===== src/Symbols/Lookup.antt =====
-- `lookup` and `enteratom` of src/symbol.c: a name that they enter is found again, in the same scope.
use joy.Prelude.{
  ℕ, zero, suc, ◌≡◌, ◌≢◌, ◌↔◌, refl, sym, ap, ◌∙◌, Bool, true, false, ◌==◌, if◌then◌else◌, List, [],
  length, Option, none, some, arith,
}
use mathlib.Core.Path.{subst}
use joy.Symbols.Names.{has_dot}
use joy.Symbols.Scope.{classify}
use joy.Symbols.Table.{
  Hash, Symbols, or_zero, with_entry, enterglobal, enteratom, lookup, entered, qualify,
}
use joy.Symbols.Search.{find_first, ahead, candidates, qualify-candidates}
use joy.Symbols.Entered.{
  some_injective, member, find_first-put, find_first-zero, ahead-dotted, member-classify, InReach,
  member-middle,
}
use joy.Symbols.Indexed.{IsIndexed, positive}

module _ (h : Hash) where
  -- A name that is not found and is entered under one of the names that it may stand for
  with_entry-qualify :
      (s : Symbols h) (name full : List ℕ)
      → IsIndexed h s
      → qualify h s name ≡ 0
      → member full (candidates s.scope name) ≡ true
      → qualify h (with_entry h s full) name ≡ length s.symtab
  unfolding candidates
  with_entry-qualify s name full w z m =
      qualify-candidates h (with_entry h s full) name
      ∙ ap or_zero (
          find_first-put (h.kh_get s.hash) (h.kh_get (h.kh_put s.hash full (length s.symtab))) full
            name (length s.symtab) (h.get-put s.hash full (length s.symtab)) (ahead s.scope name)
            absent m)
    where
      absent : find_first (h.kh_get s.hash) (ahead s.scope name) ≡ none
      absent =
          find_first-zero (h.kh_get s.hash) (ahead s.scope name) name (positive h s w)
            (ahead-dotted s.scope name) (sym (qualify-candidates h s name) ∙ z)

  nonempty : (s : Symbols h) → IsIndexed h s → length s.symtab ≢ 0
  nonempty s w z = ground (arith, ap length w.starts, z)

  -- Where the table is indexed and a private section is in the reach of the active module: when
  -- `enteratom` returns an index for a name, the same scope finds the name at that index, which is
  -- not 0, and a second `enteratom` of the name returns the index and changes nothing.
  pub enteratom-qualify :
      (s t : Symbols h) (name : List ℕ) (i : ℕ)
      → IsIndexed h s
      → InReach s.scope
      → enteratom h s name ≡ some (i, t)
      → (qualify h t name ≡ i) × (i ≢ 0) × (enteratom h t name ≡ some (i, t))
  unfolding enteratom enterglobal
  enteratom-qualify s t name i w r p =
      let (at, nonzero) = step (qualify h s name == 0) refl (classify s.scope name) refl p in
      (at, nonzero, again at nonzero)
    where
      Found : ℕ × Symbols h → Type 0
      Found o = let (j, u) = o in (qualify h u name ≡ j) × (j ≢ 0)

      step :
          (e : Bool)
          → (qualify h s name == 0) ≡ e
          → (o : Option (List ℕ)) → classify s.scope name ≡ o
          → (if e then entered h s o else some (qualify h s name, s)) ≡ some (i, t)
          → (qualify h t name ≡ i) × (i ≢ 0)
      step true q none k p = cc
      step true q (some full) k p = subst Found (some_injective p) (
        with_entry-qualify s name full w (ground (arith, q))
            (member-classify s.scope name full r k),
        nonempty s w,
      )
      step false q o k p = subst Found (some_injective p) (refl, ground (arith, q))

      again :
          qualify h t name ≡ i
          → i ≢ 0
          → (if qualify h t name == 0
              then entered h t (classify t.scope name)
              else some (qualify h t name, t))
            ≡ some (i, t)
      again at nonzero = rw at (pick i nonzero)
        where
          pick :
              (j : ℕ)
              → j ≢ 0
              → (if j == 0 then entered h t (classify t.scope name) else some (j, t)) ≡ some (j, t)
          pick zero n = absurd (n refl)
          pick (suc j) n = ground arith

  abbrev pub LookedUp : Symbols h → List ℕ → ℕ × Symbols h → Type 0
  LookedUp s name r =
      let (i, t) = r in
      (qualify h t name ≡ i)
      × ((i ≡ 0) ↔ (has_dot name ≡ true) × (qualify h s name ≡ 0))
      × (i ≡ 0 → t ≡ s)

  -- Where the table is indexed, `lookup` returns 0 just for a name with a full stop that is not
  -- found, and then changes nothing; and in each case the same scope then finds the name at the index
  -- that is returned.
  pub lookup-qualify :
      (s : Symbols h) (name : List ℕ) → IsIndexed h s → LookedUp s name (lookup h s name)
  unfolding lookup enterglobal
  lookup-qualify s name w = step (qualify h s name == 0) refl (has_dot name) refl
    where
      own_member : member name (candidates s.scope name) ≡ true
      own_member = unfold candidates in member-middle name (ahead s.scope name) []

      clash : {b : Bool} → b ≡ true → b ≢ false
      clash p q = cc

      step :
          (e : Bool)
          → (qualify h s name == 0) ≡ e
          → (d : Bool) → has_dot name ≡ d
          → LookedUp s name (
              if e
              then (if d then (0, s) else (length s.symtab, with_entry h s name))
              else (qualify h s name, s))
      step true q true k =
          let z : qualify h s name ≡ 0 = ground (arith, q) in
          (z, ((λ _. (k, z)), λ _. refl), λ _. refl)
      step true q false k =
          let n = nonempty s w in
          let known = with_entry-qualify s name name w (ground (arith, q)) own_member in
          (known, ((λ z. absurd (n z)), λ (d, _). absurd (clash d k)), λ z. absurd (n z))
      step false q d k =
          let n : qualify h s name ≢ 0 = ground (arith, q) in
          (refl, ((λ z. absurd (n z)), λ (_, z). z), λ _. refl)
