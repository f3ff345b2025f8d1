-- ===== src/Symbols/Declare.antt =====
-- The first reading of a module or a private section: the loop of `getsym` in src/scan.c, that
-- declares each name before `==` and keeps the tokens to be read again.
use joy.Prelude.{
  ℕ, zero, suc, ◌-◌, ◌||◌, Bool, true, false, if◌then◌else◌, List, [], ◌∷◌, Option, none, some, not,
}
use joy.Symbols.Names.{has_dot}
use joy.Symbols.Scope.{
  Scope, classify, initmod, initpriv, stoppriv, exitpriv, exitmod, savemod, undomod,
}
use joy.Symbols.Table.{Hash, Symbols, enteratom}

-- `name` is USR_, `hide` HIDE or PRIVATE, `public` IN__ or PUBLIC; the tokens of the other kinds do
-- nothing in this reading.
pub data Token : Type 0 where
  module_ hide public eqdef full_stop other : Token
  name : List ℕ → Token

-- The name that precedes `==`
abbrev pub as_name : Token → Option (List ℕ)
as_name (name n) = some n
as_name _ = none

abbrev pub not_zero : ℕ → Bool
not_zero zero = false
not_zero (suc n) = true

-- The counters `module` and `private`, the token before, and whether a module waits for its name
pub record Reading : Type 0 where
  pub modules : ℕ
  pub privates : ℕ
  pub previous : Token
  pub waits : Bool

abbrev pub reading : Token → Reading
reading first = record { modules = 0; privates = 0; previous = first; waits = false }

-- The token after `MODULE` is its name, or there is a message only.
abbrev pub named : Token → Reading → Reading
named (name n) r = record r { modules = suc r.modules; previous = name n; waits = false }
named t r = record r { previous = t; waits = false }

abbrev pub counted : Token → Reading → Reading
counted module_ r = record r { waits = true }
counted hide r = record r {
  privates = if not_zero r.modules then r.privates else suc r.privates;
  previous = hide;
}
counted full_stop r =
    if not_zero r.modules
    then record r { modules = r.modules - 1; previous = full_stop }
    else record r { privates = r.privates - 1; previous = full_stop }
counted t r = record r { previous = t }

abbrev pub next : Token → Reading → Reading
next t r = if r.waits then named t r else counted t r

-- The full stop that ends the last open section
abbrev pub is_last : Token → Reading → Bool
is_last full_stop r =
    let u = next full_stop r in not (not_zero u.modules || not_zero u.privates || r.waits)
is_last _ r = false

module _ (h : Hash) where
  abbrev pub without_index : Option (ℕ × Symbols h) → Option (Symbols h)
  without_index none = none
  without_index (some (index, s)) = some s

  abbrev pub declare_as : Symbols h → Option (List ℕ) → Option (Symbols h)
  declare_as s none = none
  declare_as s (some full) = without_index (enteratom h s full)

  unfoldable pub declare : Symbols h → List ℕ → Option (Symbols h)
  unfolding classify
  declare s n = declare_as s (if has_dot n then some n else classify s.scope n)

  abbrev pub in_scope : Symbols h → Option Scope → Option (Symbols h)
  in_scope s none = none
  in_scope s (some t) = some (record s { scope = t })

  abbrev pub declare_previous : Symbols h → Token → Option (Symbols h)
  declare_previous s (name n) = declare s n
  declare_previous s _ = some s

  abbrev pub visit_name : Token → Symbols h → Option (Symbols h)
  visit_name (name n) s = in_scope s (initmod n s.scope)
  visit_name _ s = some s

  abbrev pub visit_token : Reading → Token → Symbols h → Option (Symbols h)
  visit_token r hide s = in_scope s (initpriv s.scope)
  visit_token r public s = some (record s { scope = stoppriv s.scope })
  visit_token r eqdef s = declare_previous s r.previous
  visit_token r full_stop s = some (
      if not_zero r.modules
      then record s { scope = exitmod s.scope }
      else if not_zero r.privates
      then record s { scope = exitpriv s.scope }
      else s)
  visit_token r _ s = some s

  -- What a token does to the table
  unfoldable pub visit : Reading → Token → Symbols h → Option (Symbols h)
  unfolding initmod initpriv stoppriv exitmod exitpriv declare
  visit r t s = if r.waits then visit_name t s else visit_token r t s

  -- `none` stands for a stack that is full, or a token that is missing. The loop is left at the full
  -- stop that ends the last open section.
  unfoldable pub first_reading : List Token → Reading → Option (Symbols h) → Option (Symbols h)
  unfolding visit
  first_reading tokens r none = none
  first_reading [] r (some s) = none
  first_reading (t ∷ tokens) r (some s) =
      let rest = first_reading tokens (next t r) (visit r t s) in
      if is_last t r then visit r t s else rest

  abbrev pub restored : Scope → Option (Symbols h) → Option (Symbols h)
  restored s none = none
  restored s (some t) = some (record t { scope = undomod (savemod s) t.scope })

  -- The reading starts at `MODULE` or `HIDE`, and ends with the sections as they were.
  unfoldable pub declare_all : Token → List Token → Symbols h → Option (Symbols h)
  unfolding first_reading
  declare_all first tokens s =
      restored s.scope (first_reading (first ∷ tokens) (reading first) (some s))
