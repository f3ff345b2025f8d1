-- ===== src/Text/Source.antt =====
-- The characters of the input: getch and ungetch of src/scan.c, and the escape sequences that `special`
-- reads. The line buffer and the positions serve messages only and are left out, but for `linepos`,
-- which tells whether a line starts.
use joy.Prelude.{
  ℕ, zero, suc, ◌+◌, ◌-◌, ◌*◌, Bool, ◌==◌, ◌&&◌, ltb, if◌then◌else◌, List, [], ◌∷◌, length,
}
use joy.Text.Chars.{isdigit}

-- A file that waits for the end of a file that it includes
pub record Include : Type 0 where
  pub fp : List ℕ
  pub line : ℕ

-- `srcfile` is what is left to read of the current file; `infile` are the files below it, so that
-- `ilevel` is their number. `pushback` has its last element first. `messages` counts calls of `error`.
pub record Source : Type 0 where
  pub pushback : List ℕ
  pub srcfile : List ℕ
  pub infile : List Include
  pub linenum : ℕ
  pub linepos : ℕ
  pub finclude_busy : Bool
  pub messages : ℕ
  pub escapes : ℕ

-- A reading returns, ends the interpreter (abortexecution_ with ABORT_QUIT), or jumps back to the
-- `finclude` that started the file that has ended.
pub data Got (A : Type 0) : Type 0 where
  ok : A → Source → Got A
  quit : Source → Got A
  finclude : Source → Got A
  out_of_fuel : Got A

abbrev pub and_then : {A B : Type 0} → Got A → (A → Source → Got B) → Got B
and_then (ok a s) k = k a s
and_then (quit s) k = quit s
and_then (finclude s) k = finclude s
and_then out_of_fuel k = out_of_fuel

abbrev pub G : Type 0 → Type 0
G A = Source → Got A

abbrev pub pure : {A : Type 0} → A → G A
pure a s = ok a s

infixl 5 ◌>>=◌ ◌>>◌
abbrev pub ◌>>=◌ : {A B : Type 0} → G A → (A → G B) → G B
◌>>=◌ m k s = and_then (m s) k

abbrev pub ◌>>◌ : {A B : Type 0} → G A → G B → G B
m >> n = m >>= λ _. n

-- INPLINEMAX
abbrev pub inplinemax : ℕ
inplinemax = 255

-- What is left of a file behind a line
abbrev pub after_line : List ℕ → List ℕ
after_line [] = []
after_line (c ∷ s) = if c == 10 then s else after_line s

-- A shell escape: its first character, whatever it is, and the rest of the line. The command is run
-- by the system, where that is allowed.
abbrev pub after_escape : List ℕ → List ℕ
after_escape [] = []
after_escape (next ∷ s) = after_line s

abbrev pub next_pos : ℕ → ℕ
next_pos n = if ltb n inplinemax then n + 1 else n

-- A character that is read from the file
abbrev pub take_char : ℕ → List ℕ → G ℕ
take_char c rest s =
    if c == 10
    then ok c (record s { srcfile = rest; linenum = s.linenum + 1; linepos = 0 })
    else ok c (record s { srcfile = rest; linepos = next_pos s.linepos })

-- `$` at the start of a line: an interpolated string, or a shell escape, after which `again` reads.
abbrev pub dollar_first : G ℕ → List ℕ → G ℕ
dollar_first again [] s = again (record s { srcfile = []; escapes = s.escapes + 1 })
dollar_first again (next ∷ rest) s =
    if next == 34
    then ok 36 (record s { srcfile = rest; pushback = next ∷ s.pushback; linepos = s.linepos + 1 })
    else again (record s { srcfile = after_escape (next ∷ rest); escapes = s.escapes + 1 })

abbrev pub end_of_file : G ℕ → List Include → G ℕ
end_of_file again [] s = quit s
end_of_file again (f ∷ files) s =
    let t = record s { srcfile = f.fp; infile = files; linenum = f.line } in
    if s.finclude_busy then finclude t else again t

abbrev pub from_file : G ℕ → List ℕ → G ℕ
from_file again [] s = end_of_file again s.infile s
from_file again (c ∷ rest) s =
    if s.linepos == 0 && c == 36 then dollar_first again rest s else take_char c rest s

abbrev pub from_pushback : G ℕ → List ℕ → G ℕ
from_pushback again [] s = from_file again s.srcfile s
from_pushback again (c ∷ left) s = ok c (record s { pushback = left })

-- `fuel` bounds the number of times that `goto again` is taken.
unfoldable pub getch_within : ℕ → G ℕ
getch_within zero s = out_of_fuel
getch_within (suc fuel) s = from_pushback (getch_within fuel) s.pushback s

abbrev pub size_files : List Include → ℕ
size_files [] = 0
size_files (f ∷ files) = suc (length f.fp) + size_files files

-- The characters that are left, and the ends of files
abbrev pub size : Source → ℕ
size s = length s.srcfile + size_files s.infile

unfoldable pub getch : G ℕ
unfolding getch_within
getch s = getch_within (suc (size s)) s

unfoldable pub ungetch : ℕ → G (Unit {0})
ungetch c s = ok tt (record s {
  srcfile = c ∷ s.srcfile;
  linenum = if c == 10 then s.linenum - 1 else s.linenum;
  linepos = s.linepos - 1;
})

unfoldable pub error : G (Unit {0})
error s = ok tt (record s { messages = s.messages + 1 })

-- Up to `n` more digits of a number in an escape sequence
unfoldable pub more_digits : ℕ → ℕ → G ℕ
unfolding getch ungetch error
more_digits zero num = pure num
more_digits (suc n) num = do
  ch ← getch
  let rest = more_digits n (10 * num + (ch - 48))
  if isdigit ch then rest else (error >> (ungetch ch >> pure num))

-- The character that stands behind a backslash
abbrev pub escaped : ℕ → ℕ
escaped ch =
    if ch == 98
    then 8
    else if ch == 116
    then 9
    else if ch == 110
    then 10
    else if ch == 118
    then 11
    else if ch == 102
    then 12
    else if ch == 114
    then 13
    else ch

unfoldable pub special : G ℕ
unfolding getch more_digits
special = do ch ← getch; if isdigit ch then more_digits 2 (ch - 48) else pure (escaped ch)

-- The characters in env->string between two states of the source: a shell escape clears them.
abbrev pub kept : Source → Source → List ℕ → List ℕ
kept s t text = if t.escapes == s.escapes then text else []
