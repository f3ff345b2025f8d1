-- ===== src/Symbols/Declared.antt =====
-- What the first reading of a module or a section keeps: `getsym` of src/scan.c.
use joy.Prelude.{
  if_keeps, ℕ, ◌≡◌, refl, sym, ap, ◌∙◌, Bool, true, false, ◌==◌, if◌then◌else◌, List, [], ◌∷◌, ◌++◌,
  Option, none, some,
}
use mathlib.Core.List.{append_assoc, append-nil}
use joy.Machine.{Entry}
use mathlib.Core.Path.{subst}
use joy.Symbols.Scope.{Scope, initmod, initpriv, classify}
use joy.Symbols.Table.{Hash, Symbols, enteratom, entered, enterglobal, qualify, new_entry}
use joy.Symbols.Entered.{some_injective}
use joy.Symbols.Indexed.{IsIndexed, enteratom-IsIndexed, rescope}
use joy.Symbols.Declare.{
  Token, module_, hide, public, eqdef, full_stop, other, name, Reading, reading, next, is_last,
  not_zero, without_index, declare_as, declare, in_scope, declare_previous, visit, visit_name,
  visit_token, first_reading, restored, declare_all,
}

module _ (h : Hash) where
  -- The table is indexed, and starts with the entries `old`.
  record Grown (old : List Entry) (s : Symbols h) : Type 0 where
    indexed : IsIndexed h s
    new : List Entry
    symtab : s.symtab ≡ old ++ new

  module _ (old : List Entry) where
    -- So it is where there is a table.
    abbrev AllGrown : Option (Symbols h) → Type 0
    AllGrown none = Unit {0}
    AllGrown (some s) = Grown old s

    regrown : (s : Symbols h) (t : Scope) → Grown old s → Grown old (record s { scope = t })
    regrown s t w = record { indexed = rescope h s t w.indexed; new = w.new; symtab = w.symtab }

    in_scope-AllGrown : (s : Symbols h) (o : Option Scope) → Grown old s → AllGrown (in_scope h s o)
    in_scope-AllGrown s none w = tt
    in_scope-AllGrown s (some t) w = regrown s t w

    -- A name that is entered is found already, or its entry is appended.
    enteratom-appends :
        (s t : Symbols h) (full : List ℕ) (i : ℕ)
        → enteratom h s full ≡ some (i, t)
        → (new : List Entry) × t.symtab ≡ s.symtab ++ new
    unfolding enteratom enterglobal
    enteratom-appends s t full i p = step (qualify h s full == 0) (classify s.scope full) p
      where
        appends : (ℕ × Symbols h) → Type 0
        appends x = (new : List Entry) × x.1.symtab ≡ s.symtab ++ new

        step :
            (e : Bool) (o : Option (List ℕ))
            → (if e then entered h s o else some (qualify h s full, s)) ≡ some (i, t)
            → appends (i, t)
        step true none p = cc
        step true (some f) p = subst appends (some_injective p) (new_entry s.inlining f ∷ [], refl)
        step false o p = subst appends (some_injective p) ([], sym (append-nil s.symtab))

    declare_as-AllGrown :
        (s : Symbols h) (o : Option (List ℕ)) → Grown old s → AllGrown (declare_as h s o)
    declare_as-AllGrown s none w = tt
    declare_as-AllGrown s (some full) w = step (enteratom h s full) refl
      where
        step : (o : Option (ℕ × Symbols h)) → enteratom h s full ≡ o → AllGrown (without_index h o)
        step none p = tt
        step (some (i, t)) p =
            let (new, e) = enteratom-appends s t full i p in
            record {
              indexed = enteratom-IsIndexed h s t full i w.indexed p;
              new = w.new ++ new;
              symtab = e ∙ ap (λ l. l ++ new) w.symtab ∙ append_assoc old w.new new;
            }

    visit-AllGrown :
        (r : Reading) (t : Token) (s : Symbols h) → Grown old s → AllGrown (visit h r t s)
    unfolding visit declare
    visit-AllGrown r t s w = if_keeps AllGrown r.waits _ _ (λ _. at_name t) (λ _. at_token t)
      where
        at_name : (t : Token) → AllGrown (visit_name h t s)
        at_name (name n) = in_scope-AllGrown s (initmod n s.scope) w
        at_name module_ = w
        at_name hide = w
        at_name public = w
        at_name eqdef = w
        at_name full_stop = w
        at_name other = w

        at_eqdef : (p : Token) → AllGrown (declare_previous h s p)
        at_eqdef (name n) = declare_as-AllGrown s _ w
        at_eqdef module_ = w
        at_eqdef hide = w
        at_eqdef public = w
        at_eqdef eqdef = w
        at_eqdef full_stop = w
        at_eqdef other = w

        at_token : (t : Token) → AllGrown (visit_token h r t s)
        at_token (name n) = w
        at_token module_ = w
        at_token hide = in_scope-AllGrown s (initpriv s.scope) w
        at_token public = regrown s _ w
        at_token eqdef = at_eqdef r.previous
        at_token full_stop =
            if_keeps (Grown old) (not_zero r.modules) _ _ (λ _. regrown s _ w)
              (λ _. if_keeps (Grown old) (not_zero r.privates) _ _ (λ _. regrown s _ w) (λ _. w))
        at_token other = w

    first_reading-AllGrown :
        (tokens : List Token) (r : Reading) (o : Option (Symbols h))
        → AllGrown o
        → AllGrown (first_reading h tokens r o)
    unfolding first_reading
    first_reading-AllGrown [] r none w = tt
    first_reading-AllGrown (t ∷ tokens) r none w = tt
    first_reading-AllGrown [] r (some s) w = tt
    first_reading-AllGrown (t ∷ tokens) r (some s) w =
        let after = visit-AllGrown r t s w in
        if_keeps AllGrown (is_last t r) _ _ (λ _. after)
          (λ _. first_reading-AllGrown tokens (next t r) (visit h r t s) after)

  restored-Grown :
      (old : List Entry) (scope : Scope) (o : Option (Symbols h)) (t : Symbols h)
      → AllGrown old o
      → restored h scope o ≡ some t
      → Grown old t
  restored-Grown old scope none t v p = cc
  restored-Grown old scope (some u) t v p = subst (Grown old) (some_injective p) (regrown old u _ v)

  -- The first reading of a module or a private section, when it ends, only appends to the symbol table:
  -- each entry that was there has its index still. And it keeps the table indexed: the table starts with
  -- an entry whose name has no full stop, and every index that the hash table finds is that of an entry
  -- with the name looked for.
  pub declare_all-appends :
      (first : Token) (tokens : List Token) (s t : Symbols h)
      → IsIndexed h s
      → declare_all h first tokens s ≡ some t
      → IsIndexed h t × (new : List Entry) × t.symtab ≡ s.symtab ++ new
  unfolding declare_all
  declare_all-appends first tokens s t w p =
      let start : Grown s.symtab s = record {
        indexed = w;
        new = [];
        symtab = sym (append-nil s.symtab);
      } in
      let grown =
        restored-Grown s.symtab s.scope (first_reading h (first ∷ tokens) (reading first) (some s))
          t (first_reading-AllGrown s.symtab (first ∷ tokens) (reading first) (some s) start) p in
      (grown.indexed, grown.new, grown.symtab)
