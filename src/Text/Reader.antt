-- ===== src/Text/Reader.antt =====
-- The state of the reader, and getsym of src/scan.c, that reads modules and private sections twice.
use joy.Prelude.{
  ℕ, zero, suc, ◌+◌, Bool, true, false, if◌then◌else◌, List, [], ◌∷◌, ◌++◌, Option, none, some,
}
use joy.Prelude.Int.{ℤ}
use mathlib.Core.List.{reverse}
use joy.Syntax.{Factor, Term, ◌⊳◌}
use joy.Syntax.Ops.{Builtin}
use joy.Machine.{Env, Entry, Outcome, M}
use joy.Machine
use joy.Symbols.Scope.{Scope, savemod, undomod}
use joy.Symbols.Table.{Hash, Symbols}
use joy.Symbols.Declare.{Token, Reading, reading, next, is_last, visit}
use joy.Text.Symbol.{Symbol, Numbers}
use joy.Text.Source.{Source, Got}
use joy.Text.Scan.{Scanned, one, many, my_getsym}

-- What the reader calls: the evaluator, the builtins, the procedure of a builtin's entry, and the
-- arrays of vectors and matrices. `steps` is the fuel of a scan.
pub record Calls : Type 0 where
  pub numbers : Numbers
  pub exec_term : Term → M (Unit {0})
  pub call : Builtin → M (Unit {0})
  pub proc : ℕ → Builtin
  pub double_of : ℤ → ℕ
  pub new_vector : List ℕ → ℕ
  pub new_matrix : ℕ → ℕ → List ℕ → ℕ
  pub steps : ℕ

-- `sym` holds the value of the symbol as well, which the source keeps in num, dbl and str. `tokens`
-- has first the token that is read next. The names of the symbol table are in `env`.
pub record Reader (h : Hash) : Type 0 where
  pub source : Source
  pub sym : Symbol
  pub tokens : List Symbol
  pub scope : Scope
  pub hash : h.Table
  pub inlining : Bool
  pub env : Env

-- A reading returns, ends as a scan can end, reports an error, or meets what C leaves undefined.
-- `bad_immediate` is a name within brackets that is executed when it is read, and pushes nothing or takes
-- values off the stack from before.
pub data Read (h : Hash) (A : Type 0) : Type 0 where
  ok : A → Reader h → Read h A
  quit finclude out_of_fuel full fault bad_immediate : Read h A
  error : Machine.Error → Read h A

-- What the first reading of a section makes of a symbol
abbrev pub kind : Symbol → Token
kind Symbol.module_ = Token.module_
kind Symbol.hide = Token.hide
kind Symbol.private = Token.hide
kind Symbol.in_ = Token.public
kind Symbol.public = Token.public
kind Symbol.eqdef = Token.eqdef
kind Symbol.period = Token.full_stop
kind (Symbol.usr name) = Token.name name
kind _ = Token.other

abbrev pub starts_section : Symbol → Bool
starts_section Symbol.module_ = true
starts_section Symbol.hide = true
starts_section _ = false

module _ {h : Hash} where
  abbrev pub and_then : {A B : Type 0} → Read h A → (A → Reader h → Read h B) → Read h B
  and_then (ok a r) k = k a r
  and_then quit k = quit
  and_then finclude k = finclude
  and_then out_of_fuel k = out_of_fuel
  and_then full k = full
  and_then fault k = fault
  and_then bad_immediate k = bad_immediate
  and_then (error x) k = error x

  abbrev pub pure : {A : Type 0} → A → Reader h → Read h A
  pure a r = ok a r

  infixl 5 ◌>>=◌ ◌>>◌
  abbrev pub ◌>>=◌ :
      {A B : Type 0} → (Reader h → Read h A) → (A → Reader h → Read h B) → Reader h → Read h B
  ◌>>=◌ m k r = and_then (m r) k

  abbrev pub ◌>>◌ :
      {A B : Type 0} → (Reader h → Read h A) → (Reader h → Read h B) → Reader h → Read h B
  m >> k = m >>= λ _. k

  -- A message of `error`
  abbrev pub message : Reader h → Read h (Unit {0})
  message r = ok tt (record r { source = record r.source { messages = r.source.messages + 1 } })

  abbrev pub push_stack : Factor → Reader h → Read h (Unit {0})
  push_stack x r = ok tt (record r { env = record r.env { stck = x ⊳ r.env.stck } })

  abbrev pub symbols_of : Reader h → Symbols h
  symbols_of r = record {
    scope = r.scope;
    hash = r.hash;
    symtab = r.env.symtab;
    inlining = r.inlining;
  }

  abbrev pub with_symbols : Symbols h → Reader h → Reader h
  with_symbols s r = record r {
    scope = s.scope;
    hash = s.hash;
    env = record r.env { symtab = s.symtab };
  }

  abbrev pub scanned : Reader h → Got (ℕ × Scanned) → Read h ℕ
  scanned r (Got.ok (ch, one x) s) = ok ch (record r { source = s; sym = x })
  scanned r (Got.ok (ch, many ts) s) = ok ch (record r { source = s; tokens = ts ++ r.tokens })
  scanned r (Got.quit s) = quit
  scanned r (Got.finclude s) = finclude
  scanned r Got.out_of_fuel = out_of_fuel

  -- "atom expected as name of module"
  abbrev pub nameless : Bool → Symbol → Reader h → Read h (Unit {0})
  nameless false x r = ok tt r
  nameless true (Symbol.usr name) r = ok tt r
  nameless true x r = message r

  -- A token is put on top of those that were read; they are reversed at the end.
  abbrev pub push_sym : Reader h → Reader h
  push_sym r = record r { tokens = r.sym ∷ r.tokens }

  abbrev pub visited : Reader h → Option (Symbols h) → Read h (Unit {0})
  visited r none = full
  visited r (some s) = ok tt (with_symbols s r)

  -- The next token is extracted.
  abbrev pub pop_token : ℕ → Reader h → List Symbol → Read h ℕ
  pop_token ch r [] = ok ch r
  pop_token ch r (t ∷ ts) = ok ch (record r { sym = t; tokens = ts })

  abbrev pub end_section : Scope → ℕ → Reader h → Read h ℕ
  end_section before ch r =
      ok ch
        (record r { scope = undomod (savemod before) r.scope; tokens = reverse (r.sym ∷ r.tokens) })

module _ {h : Hash} (c : Calls) where
  unfoldable pub scan : ℕ → Reader h → Read h ℕ
  unfolding my_getsym
  scan ch r = scanned r (my_getsym c.numbers c.steps ch r.source)

  -- The loop over the tokens of a module or a private section, that are kept to be read again
  unfoldable pub section : ℕ → Scope → Reading → ℕ → Reader h → Read h ℕ
  unfolding scan visit
  section zero before r ch t = out_of_fuel
  section (suc f) before r ch t =
      let token = kind t.sym in
      let more = λ (u : Reader h). (scan ch (push_sym u)) in
      let visit_it = nameless r.waits t.sym >> (λ u. visited u (visit h r token (symbols_of u))) in
      and_then (visit_it t) (λ _ u.
        let go = and_then (more u) (λ d v. section f before (next token r) d v) in
        if is_last token r then end_section before ch u else go)

  unfoldable pub getsym : ℕ → Reader h → Read h ℕ
  unfolding scan section
  getsym ch r = elim r.tokens [
    | (t ∷ ts) ↦ ok ch (record r { sym = t; tokens = ts })
    | [] ↦ and_then (scan ch r) (λ d s.
        let sections =
          and_then (section c.steps s.scope (reading (kind s.sym)) d s)
            (λ e t. pop_token e t t.tokens) in
        if starts_section s.sym then sections else pop_token d s s.tokens)
  ]
