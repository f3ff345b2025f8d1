-- ===== src/Text/ReadBack.antt =====
-- The reader accepts each text of the concrete syntax and builds what it stands for.
use mathlib.Core.List.{append_assoc}
use mathlib.Core.Logic.{if_pos}
use joy.Prelude.{
  ℕ, zero, suc, ◌+◌, ◌*◌, ◌<◌, ◌≡◌, refl, true, false, ◌==◌, leb, List, [], ◌∷◌, ◌++◌, length,
  length-append, some, arith, ap, ◌∙◌,
}
use joy.Syntax.{Factor, Term, nil, ◌⊳◌, list, append}
use joy.Symbols.Table.{Hash}
use joy.Text.Symbol.{Symbol, ends_term, punctuation, rbrack, rbrace}
use joy.Text.Source
use joy.Text.Source.{Source}
use joy.Text.Scan.{one, my_getsym}
use joy.Text.Reader.{Calls, Reader, Read, ok, out_of_fuel, and_then, scan, getsym, starts_section}
use joy.Text.Factor.{readfactor, read_factors, append_factor, above, grow, Term-discrete}
use joy.Text.Getch.{at, bump}
use joy.Text.Words.{
  IsDelim, Scans, rbrack-IsDelim, rbrace-IsDelim, my_getsym-space, my_getsym-bracket, IsVisible,
}
use joy.Text.Spells.{rd, Gives}

pub visible-line : (e : ℕ) → leb e 32 ≡ false → (e == 10) ≡ false
visible-line e h = ground arith

shorter :
    {g first : ℕ} (text rest : List ℕ) → text ≡ first ∷ rest → length text < g → length rest < suc g
shorter text rest e l = omega (arith, ap length e)

append-nil : (us : Term) → append us nil ≡ us
append-nil nil = refl
append-nil (y ⊳ us) = ap (λ u. y ⊳ u) (append-nil us)

append-snoc :
    (us : Term) (x : Factor) (t : Term) → append (append us (x ⊳ nil)) t ≡ append us (x ⊳ t)
append-snoc nil x t = refl
append-snoc (y ⊳ us) x t = ap (λ u. y ⊳ u) (append-snoc us x t)

append_factor-list :
    (x : Factor) (us st : Term)
    → append_factor (list us ⊳ st) (x ⊳ list us ⊳ st)
      ≡ some (list (append us (x ⊳ nil)) ⊳ st, list (append us (x ⊳ nil)) ⊳ st)
append_factor-list x us st =
    if_pos (Term-discrete (list us ⊳ st) (list us ⊳ st)) refl
      (some (list (append us (x ⊳ nil)) ⊳ st, list (append us (x ⊳ nil)) ⊳ st))
      (above (list us) (grow x (list us ⊳ st) st))

-- A closing bracket and its symbol
pub record IsClose (z : ℕ) (x : Symbol) : Type 0 where
  pub delim : IsDelim z
  pub visible : leb z 32 ≡ false
  pub no_paren : (z == 40) ≡ false
  pub no_hash : (z == 35) ≡ false
  pub symbol : punctuation z ≡ some x
  pub no_section : starts_section x ≡ false
  pub ends : ends_term x ≡ true

pub rbrack-IsClose : IsClose 93 rbrack
rbrack-IsClose = record {
  delim = rbrack-IsDelim;
  visible = refl;
  no_paren = refl;
  no_hash = refl;
  symbol = refl;
  no_section = refl;
  ends = refl;
}

pub rbrace-IsClose : IsClose 125 rbrace
rbrace-IsClose = record {
  delim = rbrace-IsDelim;
  visible = refl;
  no_paren = refl;
  no_hash = refl;
  symbol = refl;
  no_section = refl;
  ends = refl;
}

module _ {h : Hash} (c : Calls) (r : Reader h) (s : Source) (g : ℕ)
    (fuel : c.steps ≡ suc (suc (suc g))) where
  pub getsym-one :
      (ch d : ℕ) (x y : Symbol) (st : Term) (t u : Source)
      → starts_section x ≡ false
      → my_getsym c.numbers c.steps ch t ≡ Source.ok (d, one x) u
      → getsym c ch (rd c r t y st) ≡ ok d (rd c r u x st)
  unfolding getsym scan
  getsym-one ch d x y st t u section scanned = rw (scanned, section)

  -- The next symbol, from the first character of the text
  abbrev pub start_at : ℕ → List ℕ → Symbol → Term → Read h ℕ
  start_at k [] y st = out_of_fuel
  start_at k (e ∷ text) y st = getsym c e (rd c r (at s k text) y st)

  close-getsym :
      (z : ℕ) {x : Symbol} (k d : ℕ) (more : List ℕ) (y : Symbol) (st : Term)
      → IsClose z x
      → (d == 10) ≡ false
      → start_at k (z ∷ d ∷ more) y st ≡ ok d (rd c r (at s (bump k) more) x st)
  close-getsym z {x} k d more y st close line =
      getsym-one z d x y st (at s k (d ∷ more)) (at s (bump k) more) close.no_section (
        rw fuel (
          my_getsym-bracket c.numbers s (suc g) k z d more close.visible close.no_paren
            close.no_hash close.symbol line))

  factors-end :
      (f d : ℕ) (t : Source) (x : Symbol) (st : Term)
      → ends_term x ≡ true
      → read_factors c (suc f) st d (rd c r t x st) ≡ ok d (rd c r t x st)
  unfolding read_factors
  factors-end f d t x st h = rw h

  factors-step :
      (f ch d : ℕ) (t u : Source) (y w : Symbol) (v : Factor) (us st : Term)
      → ends_term y ≡ false
      → readfactor c f y ch (rd c r t y (list us ⊳ st))
        ≡ ok (d, true) (rd c r u w (v ⊳ list us ⊳ st))
      → read_factors c (suc f) (list us ⊳ st) ch (rd c r t y (list us ⊳ st))
        ≡ and_then
            (getsym c d (rd c r u w (list (append us (v ⊳ nil)) ⊳ st)))
            (λ e q. read_factors c f (list (append us (v ⊳ nil)) ⊳ st) e q)
  unfolding read_factors
  factors-step f ch d t u y w v us st h read = rw (h, read, append_factor-list v us st)

  -- A factor is read: the first symbol, and then the rest of it.
  pub record FactorRead (v : Factor) (text : List ℕ) (k d : ℕ) (more : List ℕ) : Type 0 where
    pub source : Source
    pub symbol : Symbol
    pub char : ℕ
    pub end_k : ℕ
    pub end_symbol : Symbol
    pub started :
        (y : Symbol) (st : Term)
        → start_at k (text ++ (d ∷ more)) y st ≡ ok char (rd c r source symbol st)
    pub goes_on : ends_term symbol ≡ false
    pub finished :
        (f : ℕ) (st : Term)
        → 2 * length text < f
        → readfactor c f symbol char (rd c r source symbol st)
          ≡ ok (d, true) (rd c r (at s end_k more) end_symbol (v ⊳ st))

  -- A term and the bracket `z` behind it
  pub record TermRead (t : Term) (text : List ℕ) (z : ℕ) (x : Symbol) (k d : ℕ) (more : List ℕ)
      : Type 0 where
    pub source : Source
    pub symbol : Symbol
    pub char : ℕ
    pub end_k : ℕ
    pub started :
        (y : Symbol) (st : Term)
        → start_at k (text ++ (z ∷ d ∷ more)) y st ≡ ok char (rd c r source symbol st)
    pub finished :
        (f : ℕ) (us st : Term)
        → 2 * length text + 1 < f
        → read_factors c f (list us ⊳ st) char (rd c r source symbol (list us ⊳ st))
          ≡ ok d (rd c r (at s end_k more) x (list (append us t) ⊳ st))

  pub token-read :
      (v : Factor) (text : List ℕ) (k d : ℕ) (more : List ℕ) (x : Symbol)
      → Scans c.numbers text x
      → Gives c r x v
      → IsDelim d
      → length text < g
      → FactorRead v text k d more
  token-read v text k d more x scans gives delim l =
      let read = scans.reads s (suc g) k d more delim (shorter text scans.rest scans.starts l) in
      record {
        source = at s read.0 more;
        symbol = x;
        char = d;
        end_k = read.0;
        end_symbol = x;
        started = λ y st. rw scans.starts (
            getsym-one scans.first d x y st (at s k (scans.rest ++ (d ∷ more))) (at s read.0 more)
              gives.no_section (rw fuel read.1));
        goes_on = gives.no_end;
        finished = finish read.0;
      }
    where
      finish :
          (k' f : ℕ) (st : Term)
          → 2 * length text < f
          → readfactor c f x d (rd c r (at s k' more) x st)
            ≡ ok (d, true) (rd c r (at s k' more) x (v ⊳ st))
      finish k' zero st l = elim l [ ]
      finish k' (suc f) st l = gives.gives f d (at s k' more) x st

  pub none-read :
      (z : ℕ) (x : Symbol) (k d : ℕ) (more : List ℕ)
      → IsClose z x
      → (d == 10) ≡ false
      → TermRead nil [] z x k d more
  none-read z x k d more close line = record {
    source = at s (bump k) more;
    symbol = x;
    char = d;
    end_k = bump k;
    started = λ y st. close-getsym z k d more y st close line;
    finished = finish;
  }
    where
      finish :
          (f : ℕ) (us st : Term)
          → 1 < f
          → read_factors c f (list us ⊳ st) d (rd c r (at s (bump k) more) x (list us ⊳ st))
            ≡ ok d (rd c r (at s (bump k) more) x (list (append us nil) ⊳ st))
      finish zero us st l = elim l [ ]
      finish (suc f) us st l =
          rw (append-nil us) (factors-end f d (at s (bump k) more) x (list us ⊳ st) close.ends)

  pub one-read :
      (v : Factor) (text : List ℕ) (z : ℕ) (x : Symbol) (k d : ℕ) (more : List ℕ)
      → IsClose z x
      → (d == 10) ≡ false
      → 0 < length text
      → FactorRead v text k z (d ∷ more)
      → TermRead (v ⊳ nil) text z x k d more
  one-read v text z x k d more close line pos read = record {
    source = read.source;
    symbol = read.symbol;
    char = read.char;
    end_k = bump read.end_k;
    started = read.started;
    finished = finish;
  }
    where
      finish :
          (f : ℕ) (us st : Term)
          → 2 * length text + 1 < f
          → read_factors c f
              (list us ⊳ st)
              read.char
              (rd c r read.source read.symbol (list us ⊳ st))
            ≡ ok d (rd c r (at s (bump read.end_k) more) x (list (append us (v ⊳ nil)) ⊳ st))
      finish zero us st l = elim l [ ]
      finish (suc zero) us st l = absurd (omega arith)
      finish (suc (suc f)) us st l =
          let below = list (append us (v ⊳ nil)) ⊳ st in
          factors-step (suc f) read.char z read.source (at s read.end_k (d ∷ more)) read.symbol
            read.end_symbol v us st read.goes_on
            (read.finished (suc f) (list us ⊳ st) (omega arith))
          ∙ rw (close-getsym z read.end_k d more read.end_symbol below close line)
              (factors-end f d (at s (bump read.end_k) more) x below close.ends)

  -- The space between two factors
  space-getsym :
      (e k : ℕ) (text : List ℕ) (y : Symbol) (st : Term)
      → leb e 32 ≡ false
      → getsym c 32 (rd c r (at s k (e ∷ text)) y st) ≡ start_at (bump k) (e ∷ text) y st
  unfolding getsym scan
  space-getsym e k text y st v =
      rw (fuel, my_getsym-space c.numbers s g k e text v (visible-line e v))

  pub space-start :
      (k : ℕ) (text more : List ℕ) (y : Symbol) (st : Term)
      → IsVisible text
      → getsym c 32 (rd c r (at s k (text ++ more)) y st) ≡ start_at (bump k) (text ++ more) y st
  space-start k text more y st v =
      rw v.starts (space-getsym v.head k (v.tail ++ more) y st v.visible)

  pub more-read :
      (v w : Factor) (t : Term) (text rest : List ℕ) (z : ℕ) (x : Symbol) (k d : ℕ) (more : List ℕ)
      → IsVisible rest
      → (first : FactorRead v text k 32 (rest ++ (z ∷ d ∷ more)))
      → TermRead (w ⊳ t) rest z x (bump first.end_k) d more
      → TermRead (v ⊳ w ⊳ t) (text ++ (32 ∷ rest)) z x k d more
  more-read v w t text rest z x k d more visible first others = record {
    source = first.source;
    symbol = first.symbol;
    char = first.char;
    end_k = others.end_k;
    started = λ y st. rw (append_assoc text (32 ∷ rest) (z ∷ d ∷ more)) (first.started y st);
    finished = finish;
  }
    where
      finish :
          (f : ℕ) (us st : Term)
          → 2 * length (text ++ (32 ∷ rest)) + 1 < f
          → read_factors c f
              (list us ⊳ st)
              first.char
              (rd c r first.source first.symbol (list us ⊳ st))
            ≡ ok d (rd c r (at s others.end_k more) x (list (append us (v ⊳ w ⊳ t)) ⊳ st))
      finish zero us st l = elim l [ ]
      finish (suc f) us st l =
          let below = list (append us (v ⊳ nil)) ⊳ st in
          factors-step f first.char 32 first.source (at s first.end_k (rest ++ (z ∷ d ∷ more)))
            first.symbol first.end_symbol v us st first.goes_on
            (first.finished f (list us ⊳ st) (omega (arith, length-append text (32 ∷ rest))))
          ∙ rw
              (
                space-start first.end_k rest (z ∷ d ∷ more) first.end_symbol below visible,
                others.started first.end_symbol below,
              )
              (others.finished f (append us (v ⊳ nil)) st
                  (omega (arith, length-append text (32 ∷ rest)))
                ∙ rw (append-snoc us v (w ⊳ t)))
