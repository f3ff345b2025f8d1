-- ===== src/Symbols/Private.antt =====
-- Private names: what a name that is declared in a private section means in the section and after it.
use mathlib.Core.Path.{subst}
use joy.Prelude.{
  true-false, if_keeps, ℕ, suc, ◌≤◌, ◌≡◌, refl, sym, ap, ◌∙◌, Bool, true, false, ◌==◌,
  if◌then◌else◌, List, length, Option, none, some,
}
use joy.Symbols.Names.{same, same_self, has_dot, decimal, has_dot-dotted}
use joy.Symbols.Scope.{Scope, top, classify, initpriv, stoppriv, exitpriv}
use joy.Symbols.Table.{
  Hash, Symbols, or_zero, limit, with_entry, enterglobal, enteratom, qualify, qualify_with,
}
use joy.Symbols.Search.{candidates, qualify-candidates}
use joy.Symbols.Entered.{some_injective}
use joy.Symbols.Indexed.{IsIndexed, NamedAt, with_entry-IsIndexed, rescope}
use joy.Symbols.Nesting.{Fits}
use joy.Symbols.Declare.{declare, declare_as, without_index}
use joy.Symbols.Fresh.{
  find_first-same, IsNamed, private_name, candidates-fresh, candidates-closed, initpriv-private,
}

module _ (h : Hash) where
  -- What is found after a name with a full stop is entered: the name, and what was found before
  record Entered (s u : Symbols h) (full : List ℕ) : Type 0 where
    scope : u.scope ≡ s.scope
    index : ℕ
    own : h.kh_get u.hash full ≡ some index
    others : (c : List ℕ) → same full c ≡ false → h.kh_get u.hash c ≡ h.kh_get s.hash c
    indexed : IsIndexed h u

  classify-dotted : (s : Scope) (full : List ℕ) → has_dot full ≡ true → classify s full ≡ some full
  unfolding classify
  classify-dotted s full d = rw d refl

  qualify-dotted :
      (s : Symbols h) (full : List ℕ)
      → has_dot full ≡ true
      → qualify h s full ≡ or_zero (h.kh_get s.hash full)
  unfolding qualify qualify_with
  qualify-dotted s full d = rw d refl

  enteratom-Entered :
      (s u : Symbols h) (full : List ℕ) (i : ℕ)
      → IsIndexed h s
      → has_dot full ≡ true
      → enteratom h s full ≡ some (i, u)
      → Entered s u full
  unfolding enteratom enterglobal
  enteratom-Entered s u full i w d p =
      step (qualify h s full == 0) refl (rw (classify-dotted s.scope full d) at p)
    where
      grown : Entered s (with_entry h s full) full
      grown = record {
        scope = refl;
        index = length s.symtab;
        own = h.get-put s.hash full (length s.symtab) full ∙ rw (same_self full) refl;
        others = λ c e. h.get-put s.hash full (length s.symtab) c ∙ rw e refl;
        indexed = with_entry-IsIndexed h s full w;
      }

      known :
          (o : Option ℕ) → h.kh_get s.hash full ≡ o → (or_zero o == 0) ≡ false → Entered s s full
      known none e n = cc
      known (some j) e n = record {
        scope = refl;
        index = j;
        own = e;
        others = λ c e. refl;
        indexed = w;
      }

      step :
          (e : Bool)
          → (qualify h s full == 0) ≡ e
          → (if e then some (enterglobal h s full) else some (qualify h s full, s)) ≡ some (i, u)
          → Entered s u full
      step true q p =
          subst (λ (r : ℕ × Symbols h). let (i, u) = r in Entered s u full) (some_injective p) grown
      step false q p =
          subst (λ (r : ℕ × Symbols h). let (i, u) = r in Entered s u full) (some_injective p)
            (known (h.kh_get s.hash full) refl
              (ap (λ n. n == 0) (sym (qualify-dotted s full d)) ∙ q))

  declare-classify :
      (s : Symbols h) (m full : List ℕ)
      → has_dot m ≡ false
      → classify s.scope m ≡ some full
      → declare h s m ≡ declare_as h s (some full)
  unfolding declare
  declare-classify s m full d class =
      if_keeps (λ o. declare_as h s o ≡ declare_as h s (some full)) (has_dot m) _ _
        (λ e. absurd (true-false e d)) (λ _. ap (declare_as h s) class)

  declare-Entered :
      (s u : Symbols h) (t : Scope) (m : List ℕ)
      → IsIndexed h s
      → initpriv s.scope ≡ some t
      → has_dot m ≡ false
      → limit s.scope ≤ s.scope.hide_index
      → declare h (record s { scope = t }) m ≡ some u
      → Entered (record s { scope = t }) u (private_name s.scope m)
  declare-Entered s u t m w p d r e =
      let (class, _) = initpriv-private s.scope t m p d r in
      step (enteratom h opened (private_name s.scope m)) refl
        (sym (declare-classify opened m (private_name s.scope m) d class) ∙ e)
    where
      opened : Symbols h
      opened = record s { scope = t }

      step :
          (o : Option (ℕ × Symbols h))
          → enteratom h opened (private_name s.scope m) ≡ o
          → without_index h o ≡ some u
          → Entered opened u (private_name s.scope m)
      step none q e = cc
      step (some (i, v)) q e =
          subst (λ u. Entered opened u (private_name s.scope m)) (some_injective e)
            (enteratom-Entered opened v (private_name s.scope m) i (rescope h s t w)
              (has_dot-dotted (decimal (suc s.scope.hide_count)) m) q)

  -- A name without full stop that is declared in a private section, where the active module leaves
  -- out no section that is not open, and where no open section has a later number than the one given
  -- last and the active module's name does not start with a digit: in the section the name means the
  -- entry with the section's number and the name; and after the section each name without full stop
  -- has the index that it had before the section.
  pub declare-private :
      (s u : Symbols h) (t : Scope) (m : List ℕ)
      → IsIndexed h s
      → Fits s.scope
      → limit s.scope ≤ s.scope.hide_index
      → IsNamed (top s.scope.module_index s.scope.module_stack)
      → initpriv s.scope ≡ some t
      → has_dot m ≡ false
      → declare h (record s { scope = t }) m ≡ some u
      → NamedAt u.symtab (qualify h u m) (private_name s.scope m)
        × ((name : List ℕ)
            → has_dot name ≡ false
            → qualify h (record u { scope = exitpriv (stoppriv u.scope) }) name ≡ qualify h s name)
  declare-private s u t m w fits reach named p d e = (inside, after)
    where
      facts : Entered (record s { scope = t }) u (private_name s.scope m)
      facts = declare-Entered s u t m w p d reach e

      inside : NamedAt u.symtab (qualify h u m) (private_name s.scope m)
      inside =
          let (_, (cs, tried)) = initpriv-private s.scope t m p d reach in
          let found : qualify h u m ≡ facts.index =
            qualify-candidates h u m ∙ rw (facts.scope, tried, facts.own) refl in
          subst (λ i. NamedAt u.symtab i (private_name s.scope m)) (sym found)
            (facts.indexed.found (private_name s.scope m) facts.index facts.own)

      after :
          (name : List ℕ)
          → has_dot name ≡ false
          → qualify h (record u { scope = exitpriv (stoppriv u.scope) }) name ≡ qualify h s name
      after name n =
          qualify-candidates h (record u { scope = exitpriv (stoppriv u.scope) }) name
          ∙ rw (facts.scope, candidates-closed s.scope t name p)
              (ap or_zero (
                find_first-same (h.kh_get s.hash) (h.kh_get u.hash) (private_name s.scope m)
                  (candidates s.scope name) facts.others
                  (candidates-fresh s.scope name m fits named n)))
          ∙ sym (qualify-candidates h s name)
