-- ===== src/Text/RoundTrip.antt =====
-- What is written is read back: the writers followed by the scanner and the reader.
use joy.Prelude.{ℕ, ◌+◌, ◌*◌, ◌<◌, ◌≡◌, true, List, ◌∷◌, ◌++◌, length}
use joy.Syntax.{Factor, Term, ◌⊳◌}
use joy.Symbols.Table.{Hash}
use joy.Text.Symbol.{Symbol}
use joy.Text.Source.{Source}
use joy.Text.Reader.{Calls, Reader, ok}
use joy.Text.Writer.{Printer, writefactor}
use joy.Text.Getch.{at}
use joy.Text.Words.{IsDelim}
use joy.Text.Numerals.{ReadsDecimal}
use joy.Text.Spells.{rd}
use joy.Text.Accepts.{next_factor, spelled-read}
use joy.Text.Readable.{IsReadable}
use joy.Text.Quoting.{IsPlain}
use joy.Text.Written.{write-spells}

module _ {h : Hash} (c : Calls) (r : Reader h) (law : ReadsDecimal c.numbers) (p : Printer)
    (s : Source) (f k d : ℕ) (more : List ℕ) (y : Symbol) (st : Term) (delim : IsDelim d) where
  -- Where `strtoll` converts the decimal numerals that fit, the text that writefactor gives for a value
  -- is read, within a line, behind a space and before a delimiter that is not a full stop, a newline or
  -- an opening bracket, as that value, which is pushed; the symbol table and the rest of the input stay
  -- as they are, and there is no message. Nothing is pushed back to the input before. The value
  -- consists of integers whose magnitude is below 2^63 - 1, characters and strings of bytes that are
  -- neither 0 nor a backslash, sets, lists of such values, and of truth values, and names and builtins
  -- without a full stop, that the symbol table reads as what they were written for. The fuel of the reader is above twice the
  -- length of the text, and that of the scanner above the length plus three.
  pub writefactor-read :
      (v : Factor)
      → IsReadable c r IsPlain p.name p.opername v
      → 2 * length (writefactor p v) < f
      → length (writefactor p v) + 3 < c.steps
      → (k' : ℕ) × (y' : Symbol) × (next_factor c f 32
            (rd c r (at s k (writefactor p v ++ (d ∷ more))) y st)
          ≡ ok (d, true) (rd c r (at s k' more) y' (v ⊳ st)))
  writefactor-read v readable l m =
      spelled-read c r s f k d v (writefactor p v) more y st (write-spells c r law p readable) delim
        l m
