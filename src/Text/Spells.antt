-- ===== src/Text/Spells.antt =====
-- The concrete syntax of values, as a relation: the texts that stand for a factor or a term. The reader
-- accepts each of them (ReadBack), and the writers produce some of them (Written, Stringified).
use joy.Prelude.{ℕ, suc, ◌≡◌, true, false, List, [], ◌∷◌, ◌++◌}
use joy.Syntax.{Factor, Term, nil, ◌⊳◌, list}
use joy.Symbols.Table.{Hash}
use joy.Text.Symbol.{Symbol, ends_term}
use joy.Text.Source.{Source}
use joy.Text.Reader.{Calls, Reader, ok, starts_section}
use joy.Text.Factor.{readfactor, list2set}
use joy.Text.Words.{Scans}

module _ {h : Hash} (c : Calls) (r : Reader h) where
  -- The reader with another input, symbol and stack, and without tokens
  abbrev pub rd : Source → Symbol → Term → Reader h
  rd s x st = record r { source = s; sym = x; tokens = []; env = record r.env { stck = st } }

  -- The symbol is read as the factor by itself.
  pub record Gives (x : Symbol) (v : Factor) : Type 0 where
    pub no_section : starts_section x ≡ false
    pub no_end : ends_term x ≡ false
    pub gives :
        (f ch : ℕ) (s : Source) (y : Symbol) (st : Term)
        → readfactor c (suc f) x ch (rd s y st) ≡ ok (ch, true) (rd s y (v ⊳ st))

  mutual
    pub data SpellsFactor : Factor → List ℕ → Type 0 where
      token :
          {v : Factor} {text : List ℕ} (x : Symbol)
          → Scans c.numbers text x
          → Gives x v
          → SpellsFactor v text
      bracketed :
          {t : Term} {text : List ℕ}
          → SpellsTerm t text
          → SpellsFactor (list t) (91 ∷ (text ++ (93 ∷ [])))
      braced :
          {t : Term} {text : List ℕ} {set : ℕ}
          → SpellsTerm t text
          → list2set t 0 0 ≡ (set, 0)
          → SpellsFactor (Factor.set set) (123 ∷ (text ++ (125 ∷ [])))

    pub data SpellsTerm : Term → List ℕ → Type 0 where
      none : SpellsTerm nil []
      one : {v : Factor} {text : List ℕ} → SpellsFactor v text → SpellsTerm (v ⊳ nil) text
      more :
          {v w : Factor} {t : Term} {first rest : List ℕ}
          → SpellsFactor v first
          → SpellsTerm (w ⊳ t) rest
          → SpellsTerm (v ⊳ w ⊳ t) (first ++ (32 ∷ rest))
