-- ===== src/Text/Kept.antt =====
-- What reading a symbol or the numbers of a literal leaves of the stack: all of it.
use joy.Prelude.{
  ℕ, zero, suc, ◌≡◌, Bool, true, false, List, [], ◌∷◌, ◌++◌, Option, none, some, if_keeps,
}
use joy.Syntax.{Factor, Term, ◌⊳◌}
use joy.Symbols.Scope.{Scope}
use joy.Symbols.Table.{Hash, Symbols}
use joy.Symbols.Declare.{Reading, visit, next, is_last, reading}
use joy.Text.Symbol.{Symbol}
use joy.Text.Source.{Got}
use joy.Text.Scan.{Scanned, my_getsym}
use joy.Text.Reader.{
  Calls, Reader, Read, ok, quit, finclude, out_of_fuel, full, fault, bad_immediate, error, and_then,
  nameless, visited, pop_token, scanned, scan, section, getsym, kind, push_sym, symbols_of,
  starts_section,
}
use joy.Text.Literals.{read_values, is_rbrack, double_value}

-- What holds of a result when there is one
abbrev pub When : {h : Hash} {A : Type 0} → (A → Reader h → Type 0) → Read h A → Type 0
When P (ok a r) = P a r
When P _ = Unit

-- The stack is still `st`.
abbrev pub Kept : {h : Hash} {A : Type 0} → Term → A → Reader h → Type 0
Kept st a r = r.env.stck ≡ st

-- A factor was read and one value pushed, or none was read and none pushed.
abbrev pub Pushed : {h : Hash} → Term → ℕ × Bool → Reader h → Type 0
Pushed st (d, true) r = (v : Factor) × r.env.stck ≡ v ⊳ st
Pushed st (d, false) r = r.env.stck ≡ st

pub When-bind :
    {h : Hash} {A B : Type 0} (P : A → Reader h → Type 0) (Q : B → Reader h → Type 0) (m : Read h A)
    (k : A → Reader h → Read h B)
    → When P m
    → ((a : A) (r : Reader h) → P a r → When Q (k a r))
    → When Q (and_then m k)
When-bind P Q (ok a r) k p f = f a r p
When-bind P Q quit k p f = tt
When-bind P Q finclude k p f = tt
When-bind P Q out_of_fuel k p f = tt
When-bind P Q full k p f = tt
When-bind P Q fault k p f = tt
When-bind P Q bad_immediate k p f = tt
When-bind P Q (error x) k p f = tt

module _ {h : Hash} where
  nameless-Kept :
      (b : Bool) (x : Symbol) (r : Reader h) (st : Term)
      → r.env.stck ≡ st
      → When (Kept st) (nameless b x r)
  nameless-Kept false x r st e = e
  nameless-Kept true (Symbol.usr name) r st e = e
  nameless-Kept true x r st e = e

  visited-Kept :
      (r : Reader h) (o : Option (Symbols h)) (st : Term)
      → r.env.stck ≡ st
      → When (Kept st) (visited r o)
  visited-Kept r none st e = tt
  visited-Kept r (some s) st e = e

  pop_token-Kept :
      (ch : ℕ) (r : Reader h) (ts : List Symbol) (st : Term)
      → r.env.stck ≡ st
      → When (Kept st) (pop_token ch r ts)
  pop_token-Kept ch r [] st e = e
  pop_token-Kept ch r (t ∷ ts) st e = e

  scanned-Kept :
      (r : Reader h) (g : Got (ℕ × Scanned)) (st : Term)
      → r.env.stck ≡ st
      → When (Kept st) (scanned r g)
  scanned-Kept r (Got.ok (ch, Scanned.one x) s) st e = e
  scanned-Kept r (Got.ok (ch, Scanned.many ts) s) st e = e
  scanned-Kept r (Got.quit s) st e = tt
  scanned-Kept r (Got.finclude s) st e = tt
  scanned-Kept r Got.out_of_fuel st e = tt

-- By the first element, and by the value of an option
list_keeps :
    {A B : Type 0} (P : B → Type 0) (xs : List A) (f : A → List A → B) (y : B)
    → ((x : A) (ys : List A) → P (f x ys))
    → P y
    → P (elim xs [ (x ∷ ys) ↦ f x ys | [] ↦ y ])
list_keeps P [] f y p q = q
list_keeps P (x ∷ ys) f y p q = p x ys

pub option_keeps :
    {A B : Type 0} (P : B → Type 0) (o : Option A) (y : B) (f : A → B)
    → P y
    → ((a : A) → P (f a))
    → P (elim o [ none ↦ y | some a ↦ f a ])
option_keeps P none y f p q = p
option_keeps P (some a) y f p q = q a

module _ {h : Hash} (c : Calls) where
  scan-Kept : (ch : ℕ) (r : Reader h) (st : Term) → r.env.stck ≡ st → When (Kept st) (scan c ch r)
  unfolding scan
  scan-Kept ch r st e = scanned-Kept r (my_getsym c.numbers c.steps ch r.source) st e

  section-Kept :
      (f : ℕ) (before : Scope) (q : Reading) (ch : ℕ) (r : Reader h) (st : Term)
      → r.env.stck ≡ st
      → When (Kept st) (section c f before q ch r)
  unfolding section
  section-Kept zero before q ch r st e = tt
  section-Kept (suc f) before q ch r st e =
      let token = kind r.sym in
      When-bind (Kept st) (Kept st) _ _
        (When-bind (Kept st) (Kept st) _ _ (nameless-Kept q.waits r.sym r st e)
          (λ _ u k. visited-Kept u (visit h q token (symbols_of u)) st k))
        (λ _ u k.
          if_keeps (When (Kept st)) (is_last token q) _ _ (λ _. k)
            (λ _.
              When-bind (Kept st) (Kept st) _ _ (scan-Kept ch (push_sym u) st k)
                (λ d v m. section-Kept f before (next token q) d v st m)))

  pub getsym-Kept :
      (ch : ℕ) (r : Reader h) (st : Term) → r.env.stck ≡ st → When (Kept st) (getsym c ch r)
  unfolding getsym
  getsym-Kept ch r st e =
      list_keeps (When (Kept st)) r.tokens _ _ (λ t ts. e)
        (When-bind (Kept st) (Kept st) _ _ (scan-Kept ch r st e) (λ d s k.
          if_keeps (When (Kept st)) (starts_section s.sym) _ _
            (λ _.
              When-bind (Kept st) (Kept st) _ _
                (section-Kept c.steps s.scope (reading (kind s.sym)) d s st k)
                (λ a t m. pop_token-Kept a t t.tokens st m))
            (λ _. pop_token-Kept d s s.tokens st k)))

  -- The numbers of a row leave the stack, also where no factor comes of them.
  pub read_values-Kept :
      (f ch : ℕ) (values : List ℕ) (r : Reader h) (st : Term)
      → r.env.stck ≡ st
      → When (Kept st) (read_values c f ch values r)
  unfolding read_values
  read_values-Kept zero ch values r st e = tt
  read_values-Kept (suc f) ch values r st e =
      if_keeps (When (Kept st)) (is_rbrack r.sym) _ _ (λ _. e)
        (λ _. option_keeps (When (Kept st)) (double_value c r.sym) _ _ e (λ d.
          When-bind (Kept st) (Kept st) _ _ (getsym-Kept ch r st e)
            (λ a s k. read_values-Kept f a (values ++ (d ∷ [])) s st k)))
