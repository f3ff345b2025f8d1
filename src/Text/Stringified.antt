-- ===== src/Text/Stringified.antt =====
-- What toString and the writer give is in the concrete syntax, for the values that can be read.
use mathlib.Core.List.{append-nil}
use joy.Prelude.{ℕ, zero, suc, ◌<◌, ◌≡◌, refl, List, [], ◌∷◌, ◌++◌, arith, ap, ◌∙◌}
use joy.Prelude.Int.{ℤ, pos}
use joy.Syntax.{Factor, Term, usr, anon_funct, boolean, char, integer, string}
use joy.Symbols.Table.{Hash}
use joy.Text.Chars.{c_string}
use joy.Text.Symbol.{Symbol}
use joy.Text.Reader.{Calls, Reader}
use joy.Text.Writer.{Printer, number, each_byte}
use joy.Text.Stringify.{stringify_value, stringify_term, stringify_byte}
use joy.Text.Names.{name-Scans}
use joy.Text.Numerals.{ReadsDecimal, IsShort, number-Scans}
use joy.Text.Quotes.{Quoted, AllQuoted, string-Scans, char-Scans}
use joy.Text.Quoting.{IsByte, stringify_byte-Quoted, stringify_char-Quoted}
use joy.Text.SetText.{members-spell, list2set-member_term}
use joy.Text.Spells
use joy.Text.Spells.{SpellsFactor, SpellsTerm, token, bracketed, braced}
use joy.Text.Readable.{
  Named, Named-Gives, integer-Gives, char-Gives, string-Gives, AllBytes, IsWord, IsReadable,
  AreReadable, word, items, members, end, item,
}

c_string-cons : (b : ℕ) (s : List ℕ) → 0 < b → c_string (b ∷ s) ≡ b ∷ c_string s
c_string-cons b s h = ground arith

pub c_string-bytes :
    (P : ℕ → Type 0) → ((b : ℕ) → P b → 0 < b) → (s : List ℕ) → AllBytes P s → c_string s ≡ s
c_string-bytes P positive [] a = refl
c_string-bytes P positive (b ∷ s) a =
    c_string-cons b s (positive b a.0) ∙ ap (λ t. b ∷ t) (c_string-bytes P positive s a.1)

pub all_quoted :
    (P : ℕ → Type 0) (q : ℕ → List ℕ)
    → ((b : ℕ) → P b → Quoted 34 b (q b))
    → ((b : ℕ) → P b → b < 256)
    → (s : List ℕ) → AllBytes P s
    → AllQuoted q s
all_quoted P q quoted bound [] a = tt
all_quoted P q quoted bound (b ∷ s) a =
    (quoted b a.0, bound b a.0, all_quoted P q quoted bound s a.1)

module _ {h : Hash} (c : Calls) (r : Reader h) (law : ReadsDecimal c.numbers) where
  pub name-spells : (text : List ℕ) (v : Factor) → Named c r text v → SpellsFactor c r v text
  name-spells text v m =
      token (Symbol.usr text) (name-Scans c.numbers text m.is_name) (Named-Gives c r text v m)

  pub number-spells : (z : ℤ) → IsShort z → SpellsFactor c r (integer z) (number z)
  number-spells z l =
      token (Symbol.integer z) (number-Scans c.numbers law z l) (integer-Gives c r z)

  pub char-spells :
      (n : ℕ) (text : List ℕ) → Quoted 0 n text → SpellsFactor c r (char (pos n)) (39 ∷ text)
  char-spells n text q = token (Symbol.char n) (char-Scans c.numbers n text q) (char-Gives c r n)

  pub string-spells :
      (q : ℕ → List ℕ) (s : List ℕ)
      → AllQuoted q s
      → c_string s ≡ s
      → SpellsFactor c r (string s) (34 ∷ (each_byte q s ++ (34 ∷ [])))
  string-spells q s a e =
      token (Symbol.string s) (string-Scans c.numbers q s a e) (string-Gives c r s)

  module _ (p : Printer) where
    -- toString writes `?` for a builtin.
    abbrev pub Stringifies : Factor → Type 0
    Stringifies = IsReadable c r IsByte p.name (λ f. 63 ∷ [])

    stringify-word :
        (v : Factor)
        → IsWord c r IsByte p.name (λ f. 63 ∷ []) v
        → SpellsFactor c r v (stringify_value p v)
    unfolding stringify_value
    stringify-word (usr i) m = name-spells (p.name i) (usr i) m
    stringify-word (anon_funct f) m = name-spells (63 ∷ []) (anon_funct f) m
    stringify-word (boolean (pos zero)) m = name-spells _ (boolean (pos 0)) m.1
    stringify-word (boolean (pos (suc zero))) m = name-spells _ (boolean (pos 1)) m.1
    stringify-word (boolean (pos (suc (suc n)))) m = absurd (omega (arith, m.0))
    stringify-word (char (pos n)) m = char-spells n _ (stringify_char-Quoted n m)
    stringify-word (integer z) m = number-spells z m
    stringify-word (string s) m =
        string-spells stringify_byte s
          (all_quoted IsByte stringify_byte (λ b q. stringify_byte-Quoted b) (λ b q. q.1) s m)
          (c_string-bytes IsByte (λ b q. q.0) s m)
    stringify-word _ m = absurd m

    pub stringify-set :
        (m : ℕ)
        → m < 18446744073709551616
        → SpellsFactor c r (Factor.set m) (stringify_value p (Factor.set m))
    unfolding stringify_value
    stringify-set m l =
        braced (members-spell c r (λ i h. number-spells (pos i) (omega arith)) 64 0 m refl)
          (list2set-member_term m l)

    mutual
      unfolding stringify_value

      pub stringify-spells : {v : Factor} → Stringifies v → SpellsFactor c r v (stringify_value p v)
      stringify-spells {v} (word m) = stringify-word v m
      stringify-spells (items t) = bracketed (stringify_term-spells t)
      stringify-spells (members {m} l) = stringify-set m l

      stringify_term-spells :
          {t : Term}
          → AreReadable c r IsByte p.name (λ f. 63 ∷ []) t
          → SpellsTerm c r t (stringify_term p [] t)
      stringify_term-spells end = Spells.none
      stringify_term-spells (item {v} v' end) =
          rw (append-nil (stringify_value p v)) (Spells.one (stringify-spells v'))
      stringify_term-spells (item v (item w t)) =
          Spells.more (stringify-spells v) (stringify_term-spells (item w t))
