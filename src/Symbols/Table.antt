-- ===== src/Symbols/Table.antt =====
-- The symbol table with its hash table: the lookups of src/symbol.c and src/module.c, `addsymbol` of
-- src/optable.c, and the end of `definition`, where the name gets its body.
use joy.Prelude.{
  ℕ, zero, suc, Bool, true, false, ◌==◌, ltb, if◌then◌else◌, List, [], ◌∷◌, ◌++◌, length, Option,
  none, some, ◌≡◌,
}
use joy.Syntax.{Term, nil}
use joy.Machine.{Entry}
use joy.Aggregate.Variables.{modify_at}
use joy.Symbols.Names.{same, has_dot, dotted, decimal}
use joy.Symbols.Scope.{Scope, Module, top, classify}

-- The hash table of khash.h, from names to indices of the symbol table: a name that is put is found
-- with the value put last, and other names are found as before. Memory is not exhausted.
pub record Hash : Type 1 where
  pub Table : Type 0
  pub kh_get : Table → List ℕ → Option ℕ
  pub kh_put : Table → List ℕ → ℕ → Table
  pub get-put :
      (t : Table) (name : List ℕ) (i : ℕ) (m : List ℕ)
      → kh_get (kh_put t name i) m ≡ (if same name m then some i else kh_get t m)

-- `inlining` is env->config.inlining.
pub record Symbols (h : Hash) : Type 0 where
  pub scope : Scope
  pub hash : h.Table
  pub symtab : List Entry
  pub inlining : Bool

abbrev pub or_else : Option ℕ → Option ℕ → Option ℕ
or_else none o = o
or_else (some i) o = some i

-- The value of a name that is not found
abbrev pub or_zero : Option ℕ → ℕ
or_zero none = 0
or_zero (some i) = i

-- The sections from the innermost down to the one above `limit`.
unfoldable pub search_sections : (List ℕ → Option ℕ) → List ℕ → (ℕ → ℕ) → ℕ → ℕ → Option ℕ
search_sections get name stack limit zero = none
search_sections get name stack limit (suc i) =
    let rest = search_sections get name stack limit i in
    if ltb limit (suc i) then or_else (get (dotted (decimal (stack i)) name)) rest else none

-- The sections that a module leaves out of the search
abbrev pub limit_of : Option Module → ℕ
limit_of none = 0
limit_of (some m) = m.hide

abbrev pub limit : Scope → ℕ
limit s = limit_of (top s.module_index s.module_stack)

abbrev pub search_module : (List ℕ → Option ℕ) → List ℕ → Option Module → Option ℕ
search_module get name none = none
search_module get name (some m) = get (dotted m.name name)

-- The open sections, then the active module, then the plain name; 0 stands for a name not found.
unfoldable pub qualify_with : (List ℕ → Option ℕ) → Scope → List ℕ → ℕ
unfolding search_sections
qualify_with get s name =
    let local = search_sections get name s.hide_stack (limit s) s.hide_index in
    let member = search_module get name (top s.module_index s.module_stack) in
    or_zero (if has_dot name then get name else or_else local (or_else member (get name)))

abbrev pub new_entry : Bool → List ℕ → Entry
new_entry inlining name = record {
  name = name;
  is_user = true;
  is_root = false;
  is_last = false;
  immediate = inlining;
  body = nil;
}

abbrev pub defined : Term → Entry → Entry
defined body x = record x { is_user = true; body = body }

module _ (h : Hash) where
  unfoldable pub qualify : Symbols h → List ℕ → ℕ
  unfolding qualify_with
  qualify s name = qualify_with (h.kh_get s.hash) s.scope name

  abbrev pub addsymbol : Symbols h → Entry → ℕ → Symbols h
  addsymbol s x index = record s { hash = h.kh_put s.hash x.name index }

  abbrev pub with_entry : Symbols h → List ℕ → Symbols h
  with_entry s name =
      let x = new_entry s.inlining name in
      record (addsymbol s x (length s.symtab)) { symtab = s.symtab ++ (x ∷ []) }

  unfoldable pub enterglobal : Symbols h → List ℕ → ℕ × Symbols h
  enterglobal s name = (length s.symtab, with_entry s name)

  unfoldable pub lookup : Symbols h → List ℕ → ℕ × Symbols h
  unfolding qualify enterglobal
  lookup s name =
      let index = qualify s name in
      if index == 0 then (if has_dot name then (0, s) else enterglobal s name) else (index, s)

  abbrev pub entered : Symbols h → Option (List ℕ) → Option (ℕ × Symbols h)
  entered s none = none
  entered s (some full) = some (enterglobal s full)

  -- `none` stands for the number of a section where none is open.
  unfoldable pub enteratom : Symbols h → List ℕ → Option (ℕ × Symbols h)
  unfolding qualify enterglobal classify
  enteratom s name =
      let index = qualify s name in
      if index == 0 then entered s (classify s.scope name) else some (index, s)

  abbrev pub define_at : Term → Option (ℕ × Symbols h) → Option (Symbols h)
  define_at body none = none
  define_at body (some (index, s)) =
      some (record s { symtab = modify_at index (defined body) s.symtab })

  -- The end of `definition`, after the body is read
  unfoldable pub define : Symbols h → List ℕ → Term → Option (Symbols h)
  unfolding enteratom
  define s name body = define_at body (enteratom s name)
