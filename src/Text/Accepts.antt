-- ===== src/Text/Accepts.antt =====
-- Lists and sets, and then by induction every text of the concrete syntax: the reader accepts it.
use mathlib.Core.List.{append_assoc}
use joy.Prelude.{
  ℕ, zero, suc, ◌+◌, ◌-◌, ◌*◌, ◌<◌, ◌≡◌, refl, Bool, true, false, ◌==◌, leb, List, [], ◌∷◌, ◌++◌,
  length, length-append, arith, ◌∙◌, some,
}
use joy.Syntax.{Factor, Term, nil, ◌⊳◌, list}
use joy.Symbols.Table.{Hash}
use joy.Text.Symbol.{Symbol, lbrack, lbrace, rbrack, rbrace, punctuation}
use joy.Text.Source.{Source}
use joy.Text.Reader.{Calls, Reader, Read, ok, and_then, getsym, starts_section}
use joy.Text.Factor.{readfactor, readterm, list2set}
use joy.Text.Getch.{at, bump}
use joy.Text.Words.{
  IsDelim, IsVisible, append-IsVisible, Scans-IsVisible, space-IsDelim, my_getsym-bracket,
}
use joy.Text.Spells
use joy.Text.Spells.{rd, SpellsFactor, SpellsTerm, token, bracketed, braced}
use joy.Text.ReadBack.{
  IsClose, rbrack-IsClose, rbrace-IsClose, visible-line, getsym-one, start_at, FactorRead, TermRead,
  token-read, none-read, one-read, more-read, space-start,
}

regroup :
    {h : Hash} {A B C : Type 0} (g : Read h A) (m : A → Reader h → Read h B)
    (k : B → Reader h → Read h C) {b : B} {t : Reader h}
    → and_then g m ≡ ok b t
    → and_then g (λ a s. and_then (m a s) k) ≡ k b t
regroup (Read.ok a s) m k h = rw h
regroup Read.quit m k h = cc
regroup Read.finclude m k h = cc
regroup Read.out_of_fuel m k h = cc
regroup Read.full m k h = cc
regroup Read.fault m k h = cc
regroup Read.bad_immediate m k h = cc
regroup (Read.error x) m k h = cc

module _ {h : Hash} (c : Calls) (r : Reader h) where
  factor-IsVisible : {v : Factor} {text : List ℕ} → SpellsFactor c r v text → IsVisible text
  factor-IsVisible {v} {text} (token x scans gives) = Scans-IsVisible c.numbers text x scans
  factor-IsVisible (bracketed t) = record { head = 91; tail = _; starts = refl; visible = refl }
  factor-IsVisible (braced t e) = record { head = 123; tail = _; starts = refl; visible = refl }

  term-IsVisible :
      {v : Factor} {t : Term} {text : List ℕ} → SpellsTerm c r (v ⊳ t) text → IsVisible text
  term-IsVisible (Spells.one v) = factor-IsVisible v
  term-IsVisible (Spells.more v t) = append-IsVisible _ (factor-IsVisible v)

  closed-IsVisible :
      {t : Term} {text : List ℕ} (z : ℕ) (more : List ℕ)
      → leb z 32 ≡ false
      → SpellsTerm c r t text
      → IsVisible (text ++ (z ∷ more))
  closed-IsVisible z more h Spells.none = record {
    head = z;
    tail = more;
    starts = refl;
    visible = h;
  }
  closed-IsVisible z more h (Spells.one v) = append-IsVisible (z ∷ more) (factor-IsVisible v)
  closed-IsVisible z more h (Spells.more v t) =
      append-IsVisible (z ∷ more) (append-IsVisible _ (factor-IsVisible v))

  visible-pos : {text : List ℕ} → IsVisible text → 0 < length text
  visible-pos {text} v = rw v.starts (omega arith)

module _ {h : Hash} (c : Calls) (r : Reader h) (s : Source) (g : ℕ)
    (fuel : c.steps ≡ suc (suc (suc g))) where
  -- An opening bracket before a visible character
  open-getsym :
      (b : ℕ) {x : Symbol} (k : ℕ) {text : List ℕ} (y : Symbol) (st : Term)
      → leb b 32 ≡ false
      → (b == 40) ≡ false
      → (b == 35) ≡ false
      → punctuation b ≡ some x
      → starts_section x ≡ false
      → (v : IsVisible text)
      → start_at c r s g fuel k (b ∷ text) y st ≡ ok v.head (rd c r (at s (bump k) v.tail) x st)
  open-getsym b {x} k y st p q e symbol section v = rw v.starts (
      getsym-one c r s g fuel b v.head x y st (at s k (v.head ∷ v.tail)) (at s (bump k) v.tail)
        section
        (rw fuel (
          my_getsym-bracket c.numbers s (suc g) k b v.head v.tail p q e symbol
            (visible-line v.head v.visible))))

  -- The term between brackets
  inner-term :
      (t : Term) (text : List ℕ) (z : ℕ) (x y : Symbol) (k d f : ℕ) (more : List ℕ) (st : Term)
      → (v : IsVisible (text ++ (z ∷ d ∷ more)))
      → (inner : TermRead c r s g fuel t text z x (bump k) d more) → 2 * length text + 1 < f
      → and_then
          (getsym c v.head (rd c r (at s (bump k) v.tail) y st))
          (λ e q. readterm c (suc f) e q)
        ≡ ok d (rd c r (at s inner.end_k more) x (list t ⊳ st))
  unfolding readterm
  inner-term t text z x y k d f more st v inner l =
      rw (rw v.starts at (inner.started y st)) (inner.finished f nil st l)

  list-finish :
      (f ch d : ℕ) (u w : Source) (t st : Term)
      → and_then (getsym c ch (rd c r u lbrack st)) (λ e q. readterm c f e q)
        ≡ ok d (rd c r w rbrack (list t ⊳ st))
      → readfactor c (suc f) lbrack ch (rd c r u lbrack st)
        ≡ ok (d, true) (rd c r w rbrack (list t ⊳ st))
  unfolding readfactor
  list-finish f ch d u w t st h =
      regroup (getsym c ch (rd c r u lbrack st)) (λ e q. readterm c f e q) _ h

  set-finish :
      (f ch d : ℕ) (u w : Source) (t : Term) (set : ℕ) (st : Term)
      → list2set t 0 0 ≡ (set, 0)
      → and_then (getsym c ch (rd c r u lbrace st)) (λ e q. readterm c f e q)
        ≡ ok d (rd c r w rbrace (list t ⊳ st))
      → readfactor c (suc f) lbrace ch (rd c r u lbrace st)
        ≡ ok (d, true) (rd c r w rbrace (Factor.set set ⊳ st))
  unfolding readfactor
  set-finish f ch d u w t set st is_set h =
      regroup (getsym c ch (rd c r u lbrace st)) (λ e q. readterm c f e q) _ h ∙ rw is_set

  list-read :
      (t : Term) (text : List ℕ) (k d : ℕ) (more : List ℕ)
      → IsVisible (text ++ (93 ∷ d ∷ more))
      → TermRead c r s g fuel t text 93 rbrack (bump k) d more
      → FactorRead c r s g fuel (list t) (91 ∷ (text ++ (93 ∷ []))) k d more
  list-read t text k d more v inner = record {
    source = at s (bump k) v.tail;
    symbol = lbrack;
    char = v.head;
    end_k = inner.end_k;
    end_symbol = rbrack;
    started = λ y st.
        rw (append_assoc text (93 ∷ []) (d ∷ more))
          (open-getsym 91 k y st refl refl refl refl refl v);
    goes_on = refl;
    finished = finish;
  }
    where
      finish :
          (f : ℕ) (st : Term)
          → 2 * length (91 ∷ (text ++ (93 ∷ []))) < f
          → readfactor c f lbrack v.head (rd c r (at s (bump k) v.tail) lbrack st)
            ≡ ok (d, true) (rd c r (at s inner.end_k more) rbrack (list t ⊳ st))
      finish zero st l = elim l [ ]
      finish (suc zero) st l = absurd (omega arith)
      finish (suc (suc f)) st l =
          list-finish (suc f) v.head d (at s (bump k) v.tail) (at s inner.end_k more) t st (
            inner-term t text 93 rbrack lbrack k d f more st v inner
              (omega (arith, length-append text (93 ∷ []))))

  set-read :
      (t : Term) (set : ℕ) (text : List ℕ) (k d : ℕ) (more : List ℕ)
      → list2set t 0 0 ≡ (set, 0)
      → IsVisible (text ++ (125 ∷ d ∷ more))
      → TermRead c r s g fuel t text 125 rbrace (bump k) d more
      → FactorRead c r s g fuel (Factor.set set) (123 ∷ (text ++ (125 ∷ []))) k d more
  set-read t set text k d more is_set v inner = record {
    source = at s (bump k) v.tail;
    symbol = lbrace;
    char = v.head;
    end_k = inner.end_k;
    end_symbol = rbrace;
    started = λ y st.
        rw (append_assoc text (125 ∷ []) (d ∷ more))
          (open-getsym 123 k y st refl refl refl refl refl v);
    goes_on = refl;
    finished = finish;
  }
    where
      finish :
          (f : ℕ) (st : Term)
          → 2 * length (123 ∷ (text ++ (125 ∷ []))) < f
          → readfactor c f lbrace v.head (rd c r (at s (bump k) v.tail) lbrace st)
            ≡ ok (d, true) (rd c r (at s inner.end_k more) rbrace (Factor.set set ⊳ st))
      finish zero st l = elim l [ ]
      finish (suc zero) st l = absurd (omega arith)
      finish (suc (suc f)) st l =
          set-finish (suc f) v.head d (at s (bump k) v.tail) (at s inner.end_k more) t set st is_set
            (inner-term t text 125 rbrace lbrace k d f more st v inner
              (omega (arith, length-append text (125 ∷ []))))

  mutual
    factor-read :
        {v : Factor} {text : List ℕ}
        → SpellsFactor c r v text
        → (k d : ℕ) (more : List ℕ) → IsDelim d
        → length text < g
        → FactorRead c r s g fuel v text k d more
    factor-read {v} {text} (token x scans gives) k d more delim l =
        token-read c r s g fuel v text k d more x scans gives delim l
    factor-read (bracketed {t} {text} spells) k d more delim l =
        list-read t text k d more (closed-IsVisible c r 93 (d ∷ more) refl spells) (
          term-read spells 93 rbrack (bump k) d more rbrack-IsClose delim.no_line
            (omega (arith, length-append text (93 ∷ []))))
    factor-read (braced {t} {text} {set} spells is_set) k d more delim l =
        set-read t set text k d more is_set (closed-IsVisible c r 125 (d ∷ more) refl spells) (
          term-read spells 125 rbrace (bump k) d more rbrace-IsClose delim.no_line
            (omega (arith, length-append text (125 ∷ []))))

    term-read :
        {t : Term} {text : List ℕ}
        → SpellsTerm c r t text
        → (z : ℕ) (x : Symbol) (k d : ℕ) (more : List ℕ) → IsClose z x
        → (d == 10) ≡ false
        → length text < g
        → TermRead c r s g fuel t text z x k d more
    term-read Spells.none z x k d more close line l = none-read c r s g fuel z x k d more close line
    term-read (Spells.one {v} {text} spells) z x k d more close line l =
        one-read c r s g fuel v text z x k d more close line
          (visible-pos c r (factor-IsVisible c r spells))
          (factor-read spells k z (d ∷ more) close.delim l)
    term-read (Spells.more {v} {w} {t} {first} {rest} spells others) z x k d more close line l =
        let read =
          factor-read spells k 32 (rest ++ (z ∷ d ∷ more)) space-IsDelim
            (omega (arith, length-append first (32 ∷ rest))) in
        more-read c r s g fuel v w t first rest z x k d more (term-IsVisible c r others) read (
          term-read others z x (bump read.end_k) d more close line
            (omega (arith, length-append first (32 ∷ rest))))

module _ {h : Hash} (c : Calls) where
  -- The next factor of the input
  abbrev pub next_factor : ℕ → ℕ → Reader h → Read h (ℕ × Bool)
  next_factor f ch r = and_then (getsym c ch r) (λ d s. readfactor c f s.sym d s)

enough : (n l : ℕ) → l + 3 < n → n ≡ suc (suc (suc (n - 3)))
enough n l h = omega arith

module _ {h : Hash} (c : Calls) (r : Reader h) (s : Source) where
  -- The text of a factor is read as that factor, behind a space and before a delimiter `d`.
  pub spelled-read :
      (f k d : ℕ) (v : Factor) (text more : List ℕ) (y : Symbol) (st : Term)
      → SpellsFactor c r v text
      → IsDelim d
      → 2 * length text < f
      → length text + 3 < c.steps
      → (k' : ℕ) × (y' : Symbol) × (next_factor c f 32 (rd c r (at s k (text ++ (d ∷ more))) y st)
          ≡ ok (d, true) (rd c r (at s k' more) y' (v ⊳ st)))
  spelled-read f k d v text more y st spells delim l m =
      let fuel = enough c.steps (length text) m in
      let read = factor-read c r s (c.steps - 3) fuel spells (bump k) d more delim (omega arith) in
      (
        read.end_k,
        read.end_symbol,
        rw
            (
              space-start c r s (c.steps - 3) fuel k text (d ∷ more) y st
                  (factor-IsVisible c r spells),
              read.started y st,
            )
            (read.finished f st l),
      )
