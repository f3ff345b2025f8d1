-- ===== src/Text/Factor.antt =====
-- readfactor, readterm and list2set of src/factor.c.
use mathlib.Core.Logic.{ite}
use joy.Prelude.{
  ℕ, zero, suc, Bool, true, false, ◌==◌, ltb, if◌then◌else◌, List, [], Option, none, some,
  get_elem?, ℕ_discrete,
}
use joy.Prelude.Int.{pos}
use joy.Bits.{bit_or, single, setsize}
use joy.Syntax.{
  Factor, Term, nil, ◌⊳◌, usr, anon_funct, char, integer, string, list, float, append, nextnode1,
}
use joy.Syntax.Ops.{Builtin-discrete}
use joy.Machine.{Entry, Outcome}
use joy.Symbols.Table.{Hash, lookup}
use joy.Text.Symbol.{Symbol, ends_term}
use joy.Text.Reader.{
  Calls, Reader, Read, ok, error, out_of_fuel, fault, bad_immediate, and_then, ◌>>◌, message,
  push_stack, symbols_of, with_symbols, getsym,
}
use joy.Text.Literals.{is_rbrack, no_factor, read_values, read_vector, read_rows}

unfoldable pub Term-discrete : Discrete Term
Term-discrete = hlevel (ℕ_discrete, Builtin-discrete)

-- The members of a set literal, and the number of messages
unfoldable pub list2set : Term → ℕ → ℕ → ℕ × ℕ
list2set nil set messages = (set, messages)
list2set (char (pos n) ⊳ t) set messages =
    list2set t (if ltb n setsize then bit_or set (single n) else set)
      (if ltb n setsize then messages else suc messages)
list2set (integer (pos n) ⊳ t) set messages =
    list2set t (if ltb n setsize then bit_or set (single n) else set)
      (if ltb n setsize then messages else suc messages)
list2set (_ ⊳ t) set messages = list2set t set (suc messages)

abbrev pub is_rbrace : Symbol → Bool
is_rbrace Symbol.rbrace = true
is_rbrace _ = false

-- The list that is read stands at `held`, a part of the stack: what names that are executed when they are
-- read push besides their last value stays above it. It gets the factor that is taken off the top as its
-- last member. The result is the stack and the new `held`.
abbrev pub append_to : Factor → Term → Option (Term × Term)
append_to x (list ts ⊳ below) = let new = list (append ts (x ⊳ nil)) ⊳ below in some (new, new)
append_to x _ = none

abbrev pub above : Factor → Option (Term × Term) → Option (Term × Term)
above v none = none
above v (some (t, held)) = some (v ⊳ t, held)

abbrev pub grow : Factor → Term → Term → Option (Term × Term)
grow x held nil = none
grow x held (v ⊳ u) =
    let deeper = above v (grow x held u) in
    ite (Term-discrete (v ⊳ u) held) (append_to x held) deeper

abbrev pub append_factor : Term → Term → Option (Term × Term)
append_factor held nil = none
append_factor held (x ⊳ t) = grow x held t

module _ {h : Hash} where
  -- `messages` more calls of `error`
  abbrev pub messages : ℕ → Reader h → Read h (Unit {0})
  messages zero r = ok tt r
  messages (suc n) r = and_then (message r) (λ _ s. messages n s)

  abbrev pub expected : Bool → Reader h → Read h (Unit {0})
  expected true r = ok tt r
  expected false r = message r

  -- A name that took the list, or what stands below it, off the stack has left a top whose successor
  -- the code overwrites all the same.
  abbrev pub with_stack : Reader h → Option (Term × Term) → Read h Term
  with_stack r none = bad_immediate
  with_stack r (some (t, held)) = ok held (record r { env = record r.env { stck = t } })

  abbrev pub executed : Reader h → Outcome (Unit {0}) → Read h (Unit {0})
  executed r (Outcome.ok _ e) = ok tt (record r { env = e })
  executed r (Outcome.error x e) = error x
  executed r Outcome.out_of_fuel = out_of_fuel
  executed r _ = fault

  -- UNARY(SET_NEWNODE, set)
  abbrev pub set_on_top : ℕ × ℕ → Reader h → Read h (Unit {0})
  set_on_top (set, n) = messages n >> λ r.
      ok tt (record r { env = record r.env { stck = Factor.set set ⊳ nextnode1 r.env.stck } })

  -- `nodevalue(env->stck).lis` of another value is no index of a chain.
  abbrev pub to_set_of : Term → Reader h → Read h (Unit {0})
  to_set_of (list t ⊳ below) r = set_on_top (list2set t 0 0) r
  to_set_of _ r = fault

  abbrev pub to_set : Reader h → Read h (Unit {0})
  to_set r = to_set_of r.env.stck r

module _ {h : Hash} (c : Calls) where
  -- A name that is not immediate is pushed.
  abbrev pub name_factor : ℕ → Entry → Reader h → Read h (Unit {0})
  name_factor index ent r =
      let body = executed r (c.exec_term ent.body r.env) in
      let proc = executed r (c.call (c.proc index) r.env) in
      if ent.immediate
      then (if ent.is_user then body else proc)
      else if ent.is_user
      then push_stack (usr index) r
      else push_stack (anon_funct (c.proc index)) r

  abbrev pub entry_factor : ℕ → Option Entry → Reader h → Read h (Unit {0})
  entry_factor index none r = fault
  entry_factor index (some ent) r = name_factor index ent r

  unfoldable pub read_name : List ℕ → ℕ → Reader h → Read h (ℕ × Bool)
  unfolding lookup
  read_name name ch r =
      let found = lookup h (symbols_of r) name in
      let s = with_symbols found.1 r in
      if found.0 == 0
      then no_factor (ch, false) s
      else and_then (entry_factor found.0 (get_elem? s.env.symtab found.0) s)
          (λ _ t. ok (ch, true) t)

  abbrev pub push_factor : Factor → ℕ → Reader h → Read h (ℕ × Bool)
  push_factor x ch r = and_then (push_stack x r) (λ _ s. ok (ch, true) s)

  abbrev pub appended : Bool → Term → Reader h → Read h Term
  appended false held r = ok held r
  appended true held r = with_stack r (append_factor held r.env.stck)

  unfoldable mutual
    unfolding getsym list2set read_values read_rows read_name

    -- The character after the factor, and whether one was read. The symbol is given with its value.
    pub readfactor : ℕ → Symbol → ℕ → Reader h → Read h (ℕ × Bool)
    readfactor zero x ch r = out_of_fuel
    readfactor (suc f) (Symbol.usr name) ch r = read_name name ch r
    readfactor (suc f) (Symbol.char n) ch r = push_factor (char (pos n)) ch r
    readfactor (suc f) (Symbol.integer z) ch r = push_factor (integer z) ch r
    readfactor (suc f) (Symbol.string s) ch r = push_factor (string s) ch r
    readfactor (suc f) (Symbol.float d) ch r = push_factor (float d) ch r
    readfactor (suc f) Symbol.lbrace ch r = and_then (getsym c ch r) (λ d s.
        and_then (readterm f d s) (λ e t.
          and_then (to_set t)
            (λ _ u. and_then (expected (is_rbrace u.sym) u) (λ _ v. ok (e, true) v))))
    readfactor (suc f) Symbol.lbrack ch r = and_then (getsym c ch r) (λ d s.
        and_then (readterm f d s)
          (λ e t. and_then (expected (is_rbrack t.sym) t) (λ _ v. ok (e, true) v)))
    readfactor (suc f) Symbol.vbracket ch r =
        and_then (getsym c ch r) (λ d s. and_then (read_values c f d [] s) (read_vector c))
    readfactor (suc f) Symbol.mbracket ch r =
        and_then (getsym c ch r) (λ d s. read_rows c f d none 0 [] s)
    readfactor (suc f) _ ch r = no_factor (ch, false) r

    -- A list is pushed, and filled with the factors up to a symbol that ends it.
    pub readterm : ℕ → ℕ → Reader h → Read h ℕ
    readterm zero ch r = out_of_fuel
    readterm (suc f) ch r =
        and_then (push_stack (list nil) r) (λ _ s. read_factors f s.env.stck ch s)

    pub read_factors : ℕ → Term → ℕ → Reader h → Read h ℕ
    read_factors zero held ch r = out_of_fuel
    read_factors (suc f) held ch r =
        let rest = and_then (readfactor f r.sym ch r) (λ x s.
          and_then (appended x.1 held s)
            (λ new t. and_then (getsym c x.0 t) (λ e u. read_factors f new e u))) in
        if ends_term r.sym then ok ch r else rest
