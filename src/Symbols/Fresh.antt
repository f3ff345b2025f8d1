-- ===== src/Symbols/Fresh.antt =====
-- The names that are tried in a private section and after it: the number of the section is new.
use native.Mathlib.Numerals.{unary_clauses}
use joy.Prelude.{
  if_keeps, ℕ, zero, suc, ◌≤◌, ◌<◌, ◌≡◌, refl, sym, ap, ◌∙◌, Bool, true, false, ◌||◌, ◌==◌, ltb,
  lt→ltb, if◌then◌else◌, List, [], ◌∷◌, ◌++◌, Option, none, some, arith,
}
use joy.Symbols.Names.{
  same, not-same, has_dot, dotted, decimal, has_dot-dotted, starts_with_digit, decimal-start,
  decimal-no_dot, decimal-injective, dotted-prefix,
}
use joy.Symbols.Scope.{
  Scope, Module, top, store, classify, initpriv, stoppriv, exitpriv, display_max,
}
use joy.Symbols.Table.{or_else, limit}
use joy.Symbols.Search.{find_first, section_names, member_names, ahead, candidates}
use joy.Symbols.Entered.{member}
use joy.Symbols.Nesting.{Fits, some_keeps, store_below, store_self}

-- What is found depends on the names that are tried only.
pub find_first-same :
    (get got : List ℕ → Option ℕ) (full : List ℕ) (cs : List (List ℕ))
    → ((c : List ℕ) → same full c ≡ false → got c ≡ get c)
    → member full cs ≡ false
    → find_first got cs ≡ find_first get cs
find_first-same get got full [] agree m = refl
find_first-same get got full (c ∷ cs) agree m =
    step (same full c) refl m (λ k. find_first-same get got full cs agree k)
  where
    step :
        (e : Bool)
        → same full c ≡ e
        → e || member full cs ≡ false
        → (member full cs ≡ false → find_first got cs ≡ find_first get cs)
        → or_else (got c) (find_first got cs) ≡ or_else (get c) (find_first get cs)
    step true q p r = cc
    step false q p r = rw (agree c q, r p) refl

member-append_false :
    (full : List ℕ) (cs ds : List (List ℕ))
    → member full cs ≡ false
    → member full ds ≡ false
    → member full (cs ++ ds) ≡ false
member-append_false full [] ds p q = q
member-append_false full (c ∷ cs) ds p q =
    step (same full c) p (λ k. member-append_false full cs ds k q)
  where
    step :
        (e : Bool)
        → e || member full cs ≡ false
        → (member full cs ≡ false → member full (cs ++ ds) ≡ false)
        → e || member full (cs ++ ds) ≡ false
    step true p r = p
    step false p r = r p

-- The names of the open sections depend on their numbers only, and a number that is none of them gives
-- none of these names.
section_names-same :
    (name : List ℕ) (f g : ℕ → ℕ) (limit i : ℕ)
    → ((j : ℕ) → j < i → f j ≡ g j)
    → section_names name f limit i ≡ section_names name g limit i
section_names-same name f g limit zero e = refl
section_names-same name f g limit (suc i) e =
    rw (e i (omega arith), section_names-same name f g limit i (λ j l. e j (omega (arith, l)))) refl

section_names-other :
    (name m : List ℕ) (f : ℕ → ℕ) (low i k : ℕ)
    → ((j : ℕ) → j < i → f j < k)
    → member (dotted (decimal k) m) (section_names name f low i) ≡ false
section_names-other name m f low zero k e = refl
section_names-other name m f low (suc i) k e =
    if_keeps (λ cs. member (dotted (decimal k) m) cs ≡ false) (ltb low (suc i)) _ _
      (λ _. rw distinct (section_names-other name m f low i k (λ j l. e j (omega (arith, l)))))
      (λ _. refl)
  where
    distinct : same (dotted (decimal k) m) (dotted (decimal (f i)) name) ≡ false
    distinct = not-same (dotted (decimal k) m) (dotted (decimal (f i)) name) λ q.
        let number =
          dotted-prefix (decimal k) (decimal (f i)) m name (decimal-no_dot k) (decimal-no_dot (f i))
            q in
        let equal = decimal-injective k (f i) number in omega (arith, e i (omega arith), equal)

-- The active module has no name that starts with a digit: the scanner reads such as a number.
abbrev pub IsNamed : Option Module → Type 0
IsNamed none = Unit {0}
IsNamed (some m) = starts_with_digit m.name ≡ false

start-dotted : (buf name : List ℕ) → starts_with_digit (dotted buf name) ≡ starts_with_digit buf
start-dotted [] name = ground arith
start-dotted (a ∷ buf) name = refl

member_names-other :
    (name m : List ℕ) (o : Option Module) (k : ℕ)
    → IsNamed o
    → member (dotted (decimal k) m) (member_names name o) ≡ false
member_names-other name m none k w = refl
member_names-other name m (some x) k w = rw distinct refl
  where
    distinct : same (dotted (decimal k) m) (dotted x.name name) ≡ false
    distinct = not-same (dotted (decimal k) m) (dotted x.name name) λ q.
        let clash : true ≡ false =
          sym (decimal-start k)
          ∙ sym (start-dotted (decimal k) m)
          ∙ ap starts_with_digit q
          ∙ start-dotted x.name name
          ∙ w in
        cc

-- The name of `m` in the section that is opened next
abbrev pub private_name : Scope → List ℕ → List ℕ
private_name s m = dotted (decimal (suc s.hide_count)) m

-- The number of a section that is opened next gives no name that is tried before.
pub candidates-fresh :
    (s : Scope) (name m : List ℕ)
    → Fits s
    → IsNamed (top s.module_index s.module_stack)
    → has_dot name ≡ false
    → member (private_name s m) (candidates s name) ≡ false
unfolding candidates
candidates-fresh s name m w named d =
    member-append_false full (ahead s name) (name ∷ [])
      (if_keeps (λ cs. member full cs ≡ false) (has_dot name) _ _ (λ _. refl)
        (λ _.
          member-append_false full (section_names name s.hide_stack (limit s) s.hide_index)
            (member_names name (top s.module_index s.module_stack))
            (section_names-other name m s.hide_stack (limit s) s.hide_index (suc s.hide_count)
              (λ j l. omega (arith, w.numbers j l)))
            (member_names-other name m (top s.module_index s.module_stack) (suc s.hide_count)
              named)))
      (rw other refl)
  where
    full : List ℕ
    full = private_name s m

    other : same full name ≡ false
    other = not-same full name λ q.
        let clash : true ≡ false =
          sym (has_dot-dotted (decimal (suc s.hide_count)) m) ∙ ap has_dot q ∙ d in
        cc

-- After the section the same names are tried as before it.
pub candidates-closed :
    (s t : Scope) (name : List ℕ)
    → initpriv s ≡ some t
    → candidates (exitpriv (stoppriv t)) name ≡ candidates s name
unfolding candidates initpriv stoppriv exitpriv
candidates-closed s t name p =
    some_keeps (λ t. candidates (exitpriv (stoppriv t)) name ≡ candidates s name)
      (s.hide_index == display_max) _ t p
      (λ _. simp unary_clauses (
        ap
          (λ cs.
            (if has_dot name
              then []
              else cs ++ member_names name (top s.module_index s.module_stack))
            ++ (name ∷ []))
          (section_names-same name (store s.hide_stack s.hide_index (suc s.hide_count)) s.hide_stack
            (limit s) s.hide_index
            (λ j l. store_below s.hide_stack s.hide_index (suc s.hide_count) j l))))

-- The section has the next number, and its names are tried first.
pub initpriv-private :
    (s t : Scope) (m : List ℕ)
    → initpriv s ≡ some t
    → has_dot m ≡ false
    → limit s ≤ s.hide_index
    → (classify t m ≡ some (private_name s m))
      × ((cs : List (List ℕ)) × (candidates t m ≡ private_name s m ∷ cs))
unfolding initpriv classify candidates
initpriv-private s t m p d r =
    some_keeps
      (λ t.
        (classify t m ≡ some (private_name s m))
        × ((cs : List (List ℕ)) × (candidates t m ≡ private_name s m ∷ cs)))
      (s.hide_index == display_max) _ t p
      (λ _.
        rw
          (
            d,
            lt→ltb (limit s) (suc s.hide_index) (omega (arith, r)),
            store_self s.hide_stack s.hide_index (suc s.hide_count),
          )
          (
            refl,
            (
              (section_names m (store s.hide_stack s.hide_index (suc s.hide_count)) (limit s)
                      s.hide_index
                    ++ member_names m (top s.module_index s.module_stack))
                  ++ (m ∷ []),
              refl,
            ),
          ))
