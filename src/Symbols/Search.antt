-- ===== src/Symbols/Search.antt =====
-- `qualify` of src/module.c against a description of the names that it tries.
use joy.Prelude.{
  ℕ, zero, suc, ◌≡◌, refl, sym, ltb, if◌then◌else◌, List, [], ◌∷◌, ◌++◌, Option, none, some,
  Option-cases, Bool-cases, inl, inr,
}
use joy.Symbols.Names.{has_dot, dotted, decimal}
use joy.Symbols.Scope.{Scope, Module, top}
use joy.Symbols.Table.{
  Hash, Symbols, or_else, or_zero, search_sections, limit, search_module, qualify_with, qualify,
}

-- The value of the first name that has one
abbrev pub find_first : (List ℕ → Option ℕ) → List (List ℕ) → Option ℕ
find_first get [] = none
find_first get (c ∷ cs) = or_else (get c) (find_first get cs)

abbrev pub section_names : List ℕ → (ℕ → ℕ) → ℕ → ℕ → List (List ℕ)
section_names name stack limit zero = []
section_names name stack limit (suc i) =
    let rest = section_names name stack limit i in
    if ltb limit (suc i) then dotted (decimal (stack i)) name ∷ rest else []

abbrev pub member_names : List ℕ → Option Module → List (List ℕ)
member_names name none = []
member_names name (some m) = dotted m.name name ∷ []

-- The names with a prefix that a name may stand for
abbrev pub local_names : Scope → List ℕ → List (List ℕ)
local_names s name =
    section_names name s.hide_stack (limit s) s.hide_index
    ++ member_names name (top s.module_index s.module_stack)

abbrev pub ahead : Scope → List ℕ → List (List ℕ)
ahead s name = if has_dot name then [] else local_names s name

unfoldable pub candidates : Scope → List ℕ → List (List ℕ)
candidates s name = ahead s name ++ (name ∷ [])

or_else-none : (o : Option ℕ) → or_else o none ≡ o
or_else-none none = refl
or_else-none (some i) = refl

or_else_assoc : (a b c : Option ℕ) → or_else a (or_else b c) ≡ or_else (or_else a b) c
or_else_assoc none b c = refl
or_else_assoc (some i) b c = refl

find_first-append :
    (get : List ℕ → Option ℕ) (cs ds : List (List ℕ))
    → find_first get (cs ++ ds) ≡ or_else (find_first get cs) (find_first get ds)
find_first-append get [] ds = refl
find_first-append get (c ∷ cs) ds = elim (Option-cases (get c)) [
  | inl e ↦ rw e (find_first-append get cs ds)
  | inr (i, e) ↦ rw e refl
]

search-section_names :
    (get : List ℕ → Option ℕ) (name : List ℕ) (stack : ℕ → ℕ) (limit i : ℕ)
    → search_sections get name stack limit i ≡ find_first get (section_names name stack limit i)
unfolding search_sections
search-section_names get name stack limit zero = refl
search-section_names get name stack limit (suc i) = elim (Bool-cases (ltb limit (suc i))) [
  | inl e ↦ rw (e, search-section_names get name stack limit i) refl
  | inr e ↦ rw e refl
]

search-member_names :
    (get : List ℕ → Option ℕ) (name : List ℕ) (m : Option Module)
    → search_module get name m ≡ find_first get (member_names name m)
search-member_names get name none = refl
search-member_names get name (some m) = sym (or_else-none (get (dotted m.name name)))

qualify_with-candidates :
    (get : List ℕ → Option ℕ) (s : Scope) (name : List ℕ)
    → qualify_with get s name ≡ or_zero (find_first get (candidates s name))
unfolding qualify_with candidates
qualify_with-candidates get s name = elim (Bool-cases (has_dot name)) [
  | inl e ↦ rw (e, or_else-none (get name)) refl
  | inr e ↦
      rw
        (
          e,
          find_first-append get (local_names s name) (name ∷ []),
          find_first-append get (section_names name s.hide_stack (limit s) s.hide_index)
              (member_names name (top s.module_index s.module_stack)),
          search-section_names get name s.hide_stack (limit s) s.hide_index,
          search-member_names get name (top s.module_index s.module_stack),
          or_else-none (get name),
          or_else_assoc,
        )
        refl
]

module _ (h : Hash) where
  -- The index of a name is that of the first of its candidate names that the hash table has: the
  -- name itself when it has a full stop; and else the name with the number of each open section that
  -- the active module does not leave out, the innermost first, then with the name of the active
  -- module, and then as it is. It is 0 when there is none.
  pub qualify-candidates :
      (s : Symbols h) (name : List ℕ)
      → qualify h s name ≡ or_zero (find_first (h.kh_get s.hash) (candidates s.scope name))
  unfolding qualify
  qualify-candidates s name = qualify_with-candidates (h.kh_get s.hash) s.scope name
