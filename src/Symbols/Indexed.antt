-- ===== src/Symbols/Indexed.antt =====
-- The invariant of the symbol table and its hash table.
use joy.Prelude.{
  ℕ, zero, suc, ◌≡◌, ◌≢◌, refl, sym, ap, ◌∙◌, Bool, true, false, ◌==◌, if◌then◌else◌, List, [], ◌∷◌,
  ◌++◌, length, get_elem?, Option, none, some, Bool-cases, inl, inr,
}
use mathlib.Core.Path.{subst}
use joy.Syntax.{Term}
use joy.Machine.{Entry}
use joy.Aggregate.Variables.{modify_at}
use joy.Symbols.Names.{same, eq_of_same, has_dot}
use joy.Symbols.Scope.{Scope, classify}
use joy.Symbols.Table.{
  Hash, Symbols, new_entry, with_entry, enterglobal, enteratom, lookup, entered, define, define_at,
  defined, qualify,
}
use joy.Symbols.Entered.{some_injective}

-- The entry at the index, with the name
abbrev pub NamedAt : List Entry → ℕ → List ℕ → Type 0
NamedAt t i m = (x : Entry) × (get_elem? t i ≡ some x) × (x.name ≡ m)

NamedAt-append : (t u : List Entry) (i : ℕ) (m : List ℕ) → NamedAt t i m → NamedAt (t ++ u) i m
NamedAt-append [] u i m (x, p, q) = cc
NamedAt-append (y ∷ t) u zero m (x, p, q) = (x, p, q)
NamedAt-append (y ∷ t) u (suc i) m h = NamedAt-append t u i m h

NamedAt-last : (t : List Entry) (x : Entry) → NamedAt (t ++ (x ∷ [])) (length t) x.name
NamedAt-last [] x = (x, refl, refl)
NamedAt-last (y ∷ t) x = NamedAt-last t x

NamedAt-modify_at :
    (t : List Entry) (j i : ℕ) (body : Term) (m : List ℕ)
    → NamedAt t i m
    → NamedAt (modify_at j (defined body) t) i m
NamedAt-modify_at [] j i body m h = h
NamedAt-modify_at (y ∷ t) zero zero body m (x, p, q) =
    (defined body y, refl, ap (λ (e : Entry). e.name) (some_injective p) ∙ q)
NamedAt-modify_at (y ∷ t) zero (suc i) body m h = h
NamedAt-modify_at (y ∷ t) (suc j) zero body m h = h
NamedAt-modify_at (y ∷ t) (suc j) (suc i) body m h = NamedAt-modify_at t j i body m h

module _ (h : Hash) where
  -- The table starts with an entry whose name has no full stop (`__ILLEGAL`), and what the hash table
  -- finds is the index of an entry with that name.
  pub record IsIndexed (s : Symbols h) : Type 0 where
    pub first : Entry
    pub others : List Entry
    pub starts : s.symtab ≡ first ∷ others
    pub plain : has_dot first.name ≡ false
    pub found : (m : List ℕ) (i : ℕ) → h.kh_get s.hash m ≡ some i → NamedAt s.symtab i m

  pub rescope : (s : Symbols h) (t : Scope) → IsIndexed s → IsIndexed (record s { scope = t })
  rescope s t w = record {
    first = w.first;
    others = w.others;
    starts = w.starts;
    plain = w.plain;
    found = w.found;
  }

  pub positive :
      (s : Symbols h) → IsIndexed s → (m : List ℕ) → has_dot m ≡ true → h.kh_get s.hash m ≢ some 0
  positive s w m d p =
      let (x, at_zero, named) = w.found m 0 p in
      let same_entry = some_injective (rw w.starts at at_zero) in
      let clash =
        sym d ∙ ap has_dot (sym named ∙ ap (λ (e : Entry). e.name) (sym same_entry)) ∙ w.plain in
      cc

  pub with_entry-IsIndexed :
      (s : Symbols h) (name : List ℕ) → IsIndexed s → IsIndexed (with_entry h s name)
  with_entry-IsIndexed s name w = record {
    first = w.first;
    others = w.others ++ (new_entry s.inlining name ∷ []);
    starts = rw w.starts refl;
    plain = w.plain;
    found = λ m i p.
        at_name m i (same name m) refl (sym (h.get-put s.hash name (length s.symtab) m) ∙ p);
  }
    where
      at_name :
          (m : List ℕ) (i : ℕ) (e : Bool)
          → same name m ≡ e
          → (if e then some (length s.symtab) else h.kh_get s.hash m) ≡ some i
          → NamedAt (s.symtab ++ (new_entry s.inlining name ∷ [])) i m
      at_name m i true q p =
          let grown = s.symtab ++ (new_entry s.inlining name ∷ []) in
          subst (NamedAt grown i) (eq_of_same name m q) (
            subst (λ j. NamedAt grown j name) (some_injective p)
              (NamedAt-last s.symtab (new_entry s.inlining name)))
      at_name m i false q p =
          NamedAt-append s.symtab (new_entry s.inlining name ∷ []) i m (w.found m i p)

  define_at-IsIndexed :
      (s : Symbols h) (j : ℕ) (body : Term)
      → IsIndexed s
      → IsIndexed (record s { symtab = modify_at j (defined body) s.symtab })
  define_at-IsIndexed s zero body w = record {
    first = defined body w.first;
    others = w.others;
    starts = rw w.starts refl;
    plain = w.plain;
    found = λ m i p. NamedAt-modify_at s.symtab 0 i body m (w.found m i p);
  }
  define_at-IsIndexed s (suc j) body w = record {
    first = w.first;
    others = modify_at j (defined body) w.others;
    starts = rw w.starts refl;
    plain = w.plain;
    found = λ m i p. NamedAt-modify_at s.symtab (suc j) i body m (w.found m i p);
  }

  abbrev Indexes : ℕ × Symbols h → Type 0
  Indexes r = let (i, t) = r in IsIndexed t

  pub lookup-IsIndexed : (s : Symbols h) (name : List ℕ) → IsIndexed s → Indexes (lookup h s name)
  unfolding lookup enterglobal
  lookup-IsIndexed s name w = elim (Bool-cases (qualify h s name == 0)) [
    | inr e ↦ rw e w
    | inl e ↦ elim (Bool-cases (has_dot name)) [
      | inl d ↦ rw (e, d) w
      | inr d ↦ rw (e, d) (with_entry-IsIndexed s name w)
    ]
  ]

  -- `enteratom` keeps the invariant, and so does a definition.
  pub enteratom-IsIndexed :
      (s t : Symbols h) (name : List ℕ) (i : ℕ)
      → IsIndexed s
      → enteratom h s name ≡ some (i, t)
      → IsIndexed t
  unfolding enteratom enterglobal
  enteratom-IsIndexed s t name i w p = step (qualify h s name == 0) (classify s.scope name) p
    where
      step :
          (e : Bool) (o : Option (List ℕ))
          → (if e then entered h s o else some (qualify h s name, s)) ≡ some (i, t)
          → IsIndexed t
      step true none p = cc
      step true (some full) p = subst Indexes (some_injective p) (with_entry-IsIndexed s full w)
      step false o p = subst Indexes (some_injective p) w

  -- Where the table starts with an entry whose name has no full stop and every index that the hash
  -- table finds is that of an entry with the name looked for, a definition that is entered keeps
  -- this so.
  pub define-IsIndexed :
      (s t : Symbols h) (name : List ℕ) (body : Term)
      → IsIndexed s
      → define h s name body ≡ some t
      → IsIndexed t
  unfolding define
  define-IsIndexed s t name body w p = step (enteratom h s name) refl p
    where
      step :
          (o : Option (ℕ × Symbols h))
          → enteratom h s name ≡ o
          → define_at h body o ≡ some t
          → IsIndexed t
      step none q p = cc
      step (some (i, u)) q p =
          subst IsIndexed (some_injective p)
            (define_at-IsIndexed u i body (enteratom-IsIndexed s u name i w q))
