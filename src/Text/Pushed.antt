-- ===== src/Text/Pushed.antt =====
-- What the parts of readfactor in src/factor.c push on the stack: names, vector and matrix literals, and the
-- new member of a list.
use mathlib.Core.Logic.{ite}
use joy.Prelude.{
  ℕ, zero, suc, ◌≡◌, refl, Bool, true, false, ◌==◌, List, [], ◌++◌, Option, none, some, if_keeps,
  ap, ◌∙◌, get_elem?, length,
}
use joy.Syntax.{Factor, Term, nil, ◌⊳◌, usr, anon_funct, list, append, vector, matrix}
use joy.Machine.{Entry}
use joy.Symbols.Table.{Hash, lookup}
use joy.Text.Symbol.{Symbol}
use joy.Text.Reader.{Calls, Reader, Read, ok, and_then, symbols_of, with_symbols}
use joy.Text.Literals.{
  is_rbrack, is_lbrack, row_length, read_rows, read_vector, after_row, check_row,
}
use joy.Text.Factor.{
  Term-discrete, append_to, above, grow, append_factor, with_stack, appended, expected, messages,
  name_factor, entry_factor, read_name,
}
use joy.Text.Kept.{When, Kept, Pushed, When-bind, getsym-Kept, read_values-Kept}

-- Whether a symbol is a name that is executed when it is read
abbrev pub immediate_entry : Option Entry → Bool
immediate_entry none = false
immediate_entry (some ent) = ent.immediate

abbrev pub is_immediate : (h : Hash) → Symbol → Reader h → Bool
is_immediate h (Symbol.usr name) r =
    let found = lookup h (symbols_of r) name in immediate_entry (get_elem? found.1.symtab found.0)
is_immediate h _ r = false

-- A list stands above `st`, and on it what names that are executed when they are read have left.
abbrev pub Holds : {h : Hash} {A : Type 0} → Term → A → Reader h → Type 0
Holds st a r = (u : Term) × (ts : Term) × r.env.stck ≡ append u (list ts ⊳ st)

-- The list that is being read, with what stands above it
abbrev pub Grows : {h : Hash} → Term → Term → Reader h → Type 0
Grows st held r = (u : Term) × (ts : Term) × (held ≡ list ts ⊳ st) × (r.env.stck ≡ append u held)

-- A factor was read, and one value or more pushed; or none was read and none pushed.
abbrev pub PushedMore : {h : Hash} → Term → ℕ × Bool → Reader h → Type 0
PushedMore st (d, true) r = (u : Term) × (v : Factor) × r.env.stck ≡ append u (v ⊳ st)
PushedMore st (d, false) r = r.env.stck ≡ st

-- More than one value comes of a bracket only.
abbrev pub PushedBy : {h : Hash} → Symbol → Term → ℕ × Bool → Reader h → Type 0
PushedBy Symbol.lbrace st a r = PushedMore st a r
PushedBy Symbol.lbrack st a r = PushedMore st a r
PushedBy _ st a r = Pushed st a r

-- Nothing is pushed where no factor was read.
abbrev pub NoFactor : {h : Hash} → Term → ℕ × Bool → Reader h → Type 0
NoFactor st (d, true) r = Unit
NoFactor st (d, false) r = r.env.stck ≡ st

abbrev pub Any : {h : Hash} {A : Type 0} → A → Reader h → Type 0
Any a r = Unit

pub When-Any : {h : Hash} {A : Type 0} (m : Read h A) → When Any m
When-Any (ok a r) = tt
When-Any _ = tt

-- A value on top of equal stacks
pub on_top : (v : Factor) {s t : Term} → s ≡ t → (w : Factor) × (v ⊳ s) ≡ w ⊳ t
on_top v e = (v, ap (λ u. v ⊳ u) e)

module _ {h : Hash} (c : Calls) where
  pub read_vector-Pushed :
      (ch : ℕ) (o : Option (List ℕ)) (r : Reader h) (st : Term)
      → r.env.stck ≡ st
      → When (Pushed st) (read_vector c (ch, o) r)
  read_vector-Pushed ch none r st e = e
  read_vector-Pushed ch (some values) r st e = on_top (vector (c.new_vector values)) e

  after_row-Pushed :
      (again : ℕ → Reader h → Read h (ℕ × Bool)) (rows n : ℕ) (values : List ℕ) (ch : ℕ)
      (r : Reader h) (st : Term)
      → ((d : ℕ) (s : Reader h) → s.env.stck ≡ st → When (Pushed st) (again d s))
      → r.env.stck ≡ st
      → When (Pushed st) (after_row c again rows n values ch r)
  after_row-Pushed again rows n values ch r st g e =
      if_keeps (When (Pushed st)) (is_lbrack r.sym) _ _
        (λ _. When-bind (Kept st) (Pushed st) _ _ (getsym-Kept c ch r st e) g)
        (λ _.
          if_keeps (When (Pushed st)) (is_rbrack r.sym) _ _
            (λ _. on_top (matrix (c.new_matrix rows n values)) e) (λ _. e))

  check_row-Pushed :
      (again : ℕ → List ℕ → ℕ → Reader h → Read h (ℕ × Bool)) (cols : Option ℕ) (rows : ℕ)
      (values : List ℕ) (ch : ℕ) (o : Option (List ℕ)) (r : Reader h) (st : Term)
      → ((n : ℕ) (all : List ℕ) (d : ℕ) (s : Reader h)
          → s.env.stck ≡ st
          → When (Pushed st) (again n all d s))
      → r.env.stck ≡ st
      → When (Pushed st) (check_row c again cols rows values (ch, o) r)
  check_row-Pushed again cols rows values ch none r st g e = e
  check_row-Pushed again cols rows values ch (some row) r st g e =
      let n = row_length cols row in
      if_keeps (When (Pushed st)) (length row == n) _ _
        (λ _. When-bind (Kept st) (Pushed st) _ _ (getsym-Kept c ch r st e) (λ d s k.
          after_row-Pushed (again n (values ++ row)) (suc rows) n (values ++ row) d s st
            (g n (values ++ row)) k))
        (λ _. e)

  pub read_rows-Pushed :
      (f ch : ℕ) (cols : Option ℕ) (rows : ℕ) (values : List ℕ) (r : Reader h) (st : Term)
      → r.env.stck ≡ st
      → When (Pushed st) (read_rows c f ch cols rows values r)
  unfolding read_rows
  read_rows-Pushed zero ch cols rows values r st e = tt
  read_rows-Pushed (suc f) ch cols rows values r st e =
      When-bind (Kept st) (Pushed st) _ _ (read_values-Kept c f ch [] r st e) (λ a s k.
        check_row-Pushed _ cols rows values a.0 a.1 s st
          (λ n all d t m. read_rows-Pushed f d (some n) (suc rows) all t st m) k)

dec_keeps : {A B : Type 0} (P : B → Type 0) (d : Dec A) (x y : B) → P x → P y → P (ite d x y)
dec_keeps P (yes p) x y m n = m
dec_keeps P (no p) x y m n = n

module _ {h : Hash} where
  pub expected-Kept :
      (b : Bool) (r : Reader h) (st : Term) → r.env.stck ≡ st → When (Kept st) (expected b r)
  expected-Kept true r st e = e
  expected-Kept false r st e = e

  pub messages-Kept :
      (n : ℕ) (r : Reader h) (st : Term) → r.env.stck ≡ st → When (Kept st) (messages n r)
  messages-Kept zero r st e = e
  messages-Kept (suc n) r st e = messages-Kept n _ st e

  -- The list gets one more member, or the run ends.
  append_to-Grows :
      (x : Factor) (held ts st : Term) (r : Reader h)
      → held ≡ list ts ⊳ st
      → When (Grows st) (with_stack r (append_to x held))
  append_to-Grows x held ts st r e = rw e (nil, append ts (x ⊳ nil), refl, refl)

  above-Grows :
      (v : Factor) (st : Term) (r : Reader h) (o : Option (Term × Term))
      → When (Grows st) (with_stack r o)
      → When (Grows st) (with_stack r (above v o))
  above-Grows v st r none g = tt
  above-Grows v st r (some (t, held)) (u, ts, e, k) = (v ⊳ u, ts, e, ap (λ w. v ⊳ w) k)

  grow-Grows :
      (x : Factor) (held t ts st : Term) (r : Reader h)
      → held ≡ list ts ⊳ st
      → When (Grows st) (with_stack r (grow x held t))
  grow-Grows x held nil ts st r e = tt
  grow-Grows x held (v ⊳ u) ts st r e =
      dec_keeps (λ o. When (Grows st) (with_stack r o)) (Term-discrete (v ⊳ u) held) _ _
        (append_to-Grows x held ts st r e)
        (above-Grows v st r (grow x held u) (grow-Grows x held u ts st r e))

  append_factor-Grows :
      (u held ts st : Term) (r : Reader h)
      → held ≡ list ts ⊳ st
      → When (Grows st) (with_stack r (append_factor held u))
  append_factor-Grows nil held ts st r e = tt
  append_factor-Grows (x ⊳ t) held ts st r e = grow-Grows x held t ts st r e

  pub then_true-NoFactor :
      (m : Read h (Unit {0})) (ch : ℕ) (st : Term)
      → When (NoFactor st) (and_then m (λ _ s. ok (ch, true) s))
  then_true-NoFactor m ch st =
      When-bind (Any {h = h} {A = Unit {0}}) (NoFactor st) m _ (When-Any m) (λ _ s k. tt)

module _ {h : Hash} (c : Calls) where
  pub appended-Grows :
      (d : ℕ) (b : Bool) (before held ts u st : Term) (r : Reader h)
      → held ≡ list ts ⊳ st
      → before ≡ append u held
      → NoFactor before (d, b) r
      → When (Grows st) (appended c b held r)
  appended-Grows d true before held ts u st r e m k = append_factor-Grows r.env.stck held ts st r e
  appended-Grows d false before held ts u st r e m k = (u, ts, e, k ∙ m)

  pub read_name-NoFactor :
      (name : List ℕ) (ch : ℕ) (r : Reader h) → When (NoFactor r.env.stck) (read_name c name ch r)
  unfolding read_name
  read_name-NoFactor name ch r =
      let found = lookup h (symbols_of r) name in
      if_keeps (When (NoFactor r.env.stck)) (found.0 == 0) _ _ (λ _. refl)
        (λ _.
          then_true-NoFactor
            (entry_factor c found.0 (get_elem? found.1.symtab found.0) (with_symbols found.1 r)) ch
            r.env.stck)

  name_factor-Pushed :
      (index : ℕ) (ent : Entry) (r : Reader h) (st : Term) (ch : ℕ)
      → ent.immediate ≡ false
      → r.env.stck ≡ st
      → When (Pushed st) (and_then (name_factor c index ent r) (λ _ s. ok (ch, true) s))
  name_factor-Pushed index ent r st ch p e = rw p (
      if_keeps (λ m. When (Pushed st) (and_then m (λ _ s. ok (ch, true) s))) ent.is_user _ _
        (λ _. on_top (usr index) e) (λ _. on_top (anon_funct (c.proc index)) e))

  entry_factor-Pushed :
      (index : ℕ) (o : Option Entry) (r : Reader h) (st : Term) (ch : ℕ)
      → immediate_entry o ≡ false
      → r.env.stck ≡ st
      → When (Pushed st) (and_then (entry_factor c index o r) (λ _ s. ok (ch, true) s))
  entry_factor-Pushed index none r st ch p e = tt
  entry_factor-Pushed index (some ent) r st ch p e = name_factor-Pushed index ent r st ch p e

  pub read_name-Pushed :
      (name : List ℕ) (ch : ℕ) (r : Reader h)
      → is_immediate h (Symbol.usr name) r ≡ false
      → When (Pushed r.env.stck) (read_name c name ch r)
  unfolding read_name
  read_name-Pushed name ch r p =
      let found = lookup h (symbols_of r) name in
      if_keeps (When (Pushed r.env.stck)) (found.0 == 0) _ _ (λ _. refl)
        (λ _.
          entry_factor-Pushed found.0 (get_elem? found.1.symtab found.0) (with_symbols found.1 r)
            r.env.stck ch p refl)
