-- ===== src/Text/Written.antt =====
-- What writefactor and writeterm give is in the concrete syntax, where no backslash is written.
use mathlib.Core.List.{append-nil}
use joy.Prelude.{ℕ, zero, suc, ◌<◌, ◌≡◌, ◌^◌, refl, [], arith}
use joy.Prelude.Int.{pos}
use joy.Syntax.{Factor, Term, usr, anon_funct, boolean, char, integer, string}
use joy.Symbols.Table.{Hash}
use joy.Text.Reader.{Calls, Reader}
use joy.Text.Writer.{Printer, writefactor, writeterm, byte_text, members_text}
use joy.Text.Stringify.{stringify_members}
use joy.Text.Numerals.{ReadsDecimal}
use joy.Text.Quoting.{IsPlain, byte_text-Quoted, char_text-Quoted}
use joy.Text.SetText.{members-spell, list2set-member_term}
use joy.Text.SetWriter.{members_text-stringify}
use joy.Text.Spells
use joy.Text.Spells.{SpellsFactor, SpellsTerm, bracketed, braced}
use joy.Text.Readable.{IsWord, IsReadable, AreReadable, word, items, members, end, item}
use joy.Text.Stringified.{
  c_string-bytes, all_quoted, name-spells, number-spells, char-spells, string-spells,
}

members_text-stringified : (m : ℕ) → m < 2 ^ 64 → members_text 64 0 m ≡ stringify_members 64 0 m []
members_text-stringified m l = members_text-stringify 64 0 m refl l (λ j h. absurd (omega arith))

module _ {h : Hash} (c : Calls) (r : Reader h) (law : ReadsDecimal c.numbers) (p : Printer) where
  -- The values that can be read from what write.c gives
  abbrev pub Writes : Factor → Type 0
  Writes = IsReadable c r IsPlain p.name p.opername

  write-word :
      (v : Factor) → IsWord c r IsPlain p.name p.opername v → SpellsFactor c r v (writefactor p v)
  unfolding writefactor
  write-word (usr i) m = name-spells c r law (p.name i) (usr i) m
  write-word (anon_funct f) m = name-spells c r law (p.opername f) (anon_funct f) m
  write-word (boolean (pos zero)) m = name-spells c r law _ (boolean (pos 0)) m.1
  write-word (boolean (pos (suc zero))) m = name-spells c r law _ (boolean (pos 1)) m.1
  write-word (boolean (pos (suc (suc n)))) m = absurd (omega (arith, m.0))
  write-word (char (pos n)) m =
      let text = char_text-Quoted n m in rw text.1 (char-spells c r law n text.0 text.2)
  write-word (integer z) m = number-spells c r law z m
  write-word (string s) m =
      string-spells c r law byte_text s
        (all_quoted IsPlain byte_text (λ b q. byte_text-Quoted b q.2) (λ b q. q.1) s m)
        (c_string-bytes IsPlain (λ b q. q.0) s m)
  write-word _ m = absurd m

  write-set :
      (m : ℕ)
      → m < 18446744073709551616
      → SpellsFactor c r (Factor.set m) (writefactor p (Factor.set m))
  unfolding writefactor
  write-set m l = rw (members_text-stringified m l) (
      braced (members-spell c r (λ i h. number-spells c r law (pos i) (omega arith)) 64 0 m refl)
        (list2set-member_term m l))

  mutual
    unfolding writefactor

    pub write-spells : {v : Factor} → Writes v → SpellsFactor c r v (writefactor p v)
    write-spells {v} (word m) = write-word v m
    write-spells (items t) = bracketed (write_term-spells t)
    write-spells (members {m} l) = write-set m l

    write_term-spells :
        {t : Term} → AreReadable c r IsPlain p.name p.opername t → SpellsTerm c r t (writeterm p t)
    write_term-spells end = Spells.none
    write_term-spells (item {v} v' end) =
        rw (append-nil (writefactor p v)) (Spells.one (write-spells v'))
    write_term-spells (item v (item w t)) =
        Spells.more (write-spells v) (write_term-spells (item w t))
