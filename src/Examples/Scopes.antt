-- ===== src/Examples/Scopes.antt =====
-- The theorems on the symbol table at a table of one entry, a hash table that is a list, and the text
-- `HIDE a == … IN b == … END` of the name `a`.
use joy.Prelude.{
  ℕ, ◌≡◌, ◌++◌, ◌≢◌, ◌==◌, refl, true, false, if◌then◌else◌, List, [], ◌∷◌, Option, none, some,
  arith,
}
use joy.Syntax.{Term, nil, integer, ◌⊳◌}
use joy.Prelude.Int.{pos}
use joy.Machine.{Entry}
use joy.Symbols.Names.{same, has_dot, decimal}
use joy.Symbols.Scope.{Scope, initpriv, stoppriv, exitpriv}
use joy.Symbols.Table.{
  Hash, Symbols, or_zero, new_entry, qualify, enteratom, lookup, define, with_entry,
}
use joy.Symbols.Search.{candidates, find_first, qualify-candidates}
use joy.Symbols.Indexed.{IsIndexed, NamedAt, define-IsIndexed}
use joy.Symbols.Lookup.{enteratom-qualify, lookup-qualify, LookedUp}
use joy.Symbols.Nesting.{
  start_private, Fits, Step-Fits, done, section, Restored, Ascending, Runs-Restored,
  exitpriv-nested,
}
use joy.Symbols.Declare.{Token, name, hide, public, eqdef, full_stop, other, declare, declare_all}
use joy.Symbols.Declared.{declare_all-appends}
use joy.Symbols.Private.{declare-private}
use joy.Symbols.Fresh.{private_name}

abbrev pub get : List (List ℕ × ℕ) → List ℕ → Option ℕ
get [] m = none
get ((n, i) ∷ t) m = if same n m then some i else get t m

abbrev pub list_hash : Hash
list_hash = record {
  Table = List (List ℕ × ℕ);
  kh_get = get;
  kh_put = λ t n i. (n, i) ∷ t;
  get-put = λ t n i m. refl;
}

-- `__ILLEGAL`, cut to its first letters
abbrev pub illegal_entry : Entry
illegal_entry = record (new_entry false (95 ∷ 95 ∷ 73 ∷ [])) { is_user = false }

abbrev pub blank : Scope
blank = record {
  hide_index = 0;
  hide_count = 0;
  module_index = 0;
  inside_hide = false;
  been_inside = false;
  hide_stack = λ i. 0;
  module_stack = λ i. record { name = []; hide = 0 };
}

abbrev pub start : Symbols list_hash
start = record { scope = blank; hash = []; symtab = illegal_entry ∷ []; inlining = false }

start-IsIndexed : IsIndexed list_hash start
start-IsIndexed = record {
  first = illegal_entry;
  others = [];
  starts = refl;
  plain = refl;
  found = λ m i p. cc;
}

abbrev a : List ℕ
a = 97 ∷ []

abbrev b : List ℕ
b = 98 ∷ []

abbrev seven : Term
seven = integer (pos 7) ⊳ nil

qualify-candidates_example :
    qualify list_hash (with_entry list_hash start a) a
    ≡ or_zero (find_first (get ((a, 1) ∷ [])) (candidates blank a))
qualify-candidates_example = qualify-candidates list_hash (with_entry list_hash start a) a

enteratom-qualify_example :
    (qualify list_hash (with_entry list_hash start a) a ≡ 1)
    × (◌≢◌ {A = ℕ} 1 0)
    × (enteratom list_hash (with_entry list_hash start a) a
        ≡ some (1, with_entry list_hash start a))
unfolding enteratom
enteratom-qualify_example =
    enteratom-qualify list_hash start (with_entry list_hash start a) a 1 start-IsIndexed (λ p. cc)
      refl

lookup-qualify_example : LookedUp list_hash start a (lookup list_hash start a)
lookup-qualify_example = lookup-qualify list_hash start a start-IsIndexed

-- `a == 7`
abbrev defined_a : Symbols list_hash
defined_a = record (with_entry list_hash start a) {
  symtab = illegal_entry ∷ record (new_entry false a) { body = seven } ∷ [];
}

define-IsIndexed_example : IsIndexed list_hash defined_a
unfolding define
define-IsIndexed_example = define-IsIndexed list_hash start defined_a a seven start-IsIndexed refl

blank-Fits : Fits blank
blank-Fits = record {
  hides = omega arith;
  modules = omega arith;
  numbers = λ i l. absurd (omega (arith, l));
}

-- The scope in the private part
abbrev inside : Scope
inside = record blank {
  hide_index = 1;
  hide_count = 1;
  inside_hide = true;
  hide_stack = λ j. if j == 0 then 1 else 0;
}

Step-Fits_example : Fits inside
unfolding initpriv
Step-Fits_example = Step-Fits blank inside (start_private blank inside refl) blank-Fits

Runs-Restored_example : Restored blank (exitpriv (stoppriv inside)) × Ascending 0 (1 ∷ []) 1
unfolding initpriv exitpriv stoppriv
Runs-Restored_example =
    Runs-Restored blank (exitpriv (stoppriv inside))
      (section blank inside inside (exitpriv (stoppriv inside)) refl (done inside)
        (done (exitpriv (stoppriv inside))))
      refl

-- The section of the public part
abbrev nested : Scope
nested = record inside {
  hide_index = 2;
  hide_count = 2;
  been_inside = true;
  hide_stack = λ j. if j == 1 then 2 else if j == 0 then 1 else 0;
}

exitpriv-nested_example : (exitpriv (exitpriv (stoppriv nested))).hide_index ≡ 1
unfolding initpriv stoppriv
exitpriv-nested_example = exitpriv-nested blank inside nested refl refl

-- `1.a`
abbrev in_section : Symbols list_hash
in_section = with_entry list_hash (record start { scope = inside }) (49 ∷ 46 ∷ a)

declare-private_example :
    NamedAt in_section.symtab (qualify list_hash in_section a) (private_name blank a)
    × ((n : List ℕ)
        → has_dot n ≡ false
        → qualify list_hash (record in_section { scope = exitpriv (stoppriv inside) }) n
          ≡ qualify list_hash start n)
unfolding initpriv declare enteratom decimal
declare-private_example =
    declare-private list_hash start in_section inside a start-IsIndexed blank-Fits (omega arith) tt
      refl refl refl

abbrev text : List Token
text = name a ∷ eqdef ∷ other ∷ public ∷ name b ∷ eqdef ∷ other ∷ full_stop ∷ []

-- `1.a` and `b`, and the stacks as they were
abbrev declared : Symbols list_hash
declared = record (with_entry list_hash in_section b) {
  scope = record blank { hide_stack = inside.hide_stack };
}

declare_all-appends_example :
    IsIndexed list_hash declared × (new : List Entry) × declared.symtab ≡ start.symtab ++ new
unfolding declare_all enteratom decimal
declare_all-appends_example =
    declare_all-appends list_hash hide text start declared start-IsIndexed refl
