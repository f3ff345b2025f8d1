-- ===== src/Text/Quotes.antt =====
-- The scanner at a string or a character constant, whatever the writer that has quoted the bytes.
use mathlib.Core.List.{append_assoc, append-nil}
use joy.Prelude.{
  ℕ, zero, suc, ◌/◌, ◌%◌, ◌<◌, ◌≡◌, refl, true, false, ◌==◌, List, [], ◌∷◌, ◌++◌, length, arith, ap,
  ◌∙◌, length-append,
}
use joy.Text.Chars.{isdigit, c_string}
use joy.Text.Symbol.{Numbers, char, string}
use joy.Text.Source.{Source, ok, special, escaped}
use joy.Text.Scan.{one, string_chars, next_char, character, string_symbol}
use joy.Text.Writer.{three_digits, each_byte}
use joy.Text.Getch.{at, bump, getch-at, special-letter, special-digits}
use joy.Text.Words.{Scans, my_getsym-quote, my_getsym-string}

-- A text that stands for a byte: the byte, a letter after a backslash, or its number of three digits.
-- `end` is a character that does not stand for itself.
pub data Quoted (end : ℕ) : ℕ → List ℕ → Type 0 where
  plain :
      {c : ℕ} → (c == 10) ≡ false → (c == 92) ≡ false → (c == end) ≡ false → Quoted end c (c ∷ [])
  letter :
      {c : ℕ} (e : ℕ)
      → (e == 10) ≡ false
      → isdigit e ≡ false
      → escaped e ≡ c
      → Quoted end c (92 ∷ e ∷ [])
  digits : {c : ℕ} → c < 1000 → Quoted end c (92 ∷ three_digits c)

-- No shell escape clears the text, and a byte is stored as it is.
same_test : (n : ℕ) → (n == n) ≡ true
same_test n = ground arith

small : (c : ℕ) → c < 256 → c % 256 ≡ c
small c h = omega arith

special-three :
    (s : Source) (k c : ℕ) (rest : List ℕ)
    → c < 1000
    → special (at s k (three_digits c ++ rest)) ≡ ok c (at s (bump (bump (bump k))) rest)
special-three s k c rest h =
    special-digits s k (c / 100) (c / 10 % 10) (c % 10) rest (omega arith) (omega arith)
      (omega arith)
    ∙ ap (λ m. ok m (at s (bump (bump (bump k))) rest)) (omega arith)

byte-read :
    (s : Source) (f k c : ℕ) (acc text rest : List ℕ)
    → c < 256
    → Quoted 34 c text
    → (k' : ℕ) × (next_char (suc f) acc (at s k (text ++ rest))
        ≡ next_char f (acc ++ (c ∷ [])) (at s k' rest))
unfolding string_chars
byte-read s f k c acc _ rest b (plain line back quote) =
    (bump k, rw (getch-at s k c rest line, same_test s.escapes, quote, back, small c b))
byte-read s f k c acc _ rest b (letter e line digit h) = (
  bump (bump k),
  rw (
    getch-at s k 92 (e ∷ rest) refl,
    same_test s.escapes,
    special-letter s (bump k) e rest line digit,
    same_test s.escapes,
    h,
    small c b,
  ),
)
byte-read s f k c acc _ rest b (digits h) = (
  bump (bump (bump (bump k))),
  rw (
    getch-at s k 92 (three_digits c ++ rest) refl,
    same_test s.escapes,
    special-three s (bump k) c rest h,
    same_test s.escapes,
    small c b,
  ),
)

-- The bytes that a writer `q` quotes
abbrev pub AllQuoted : (ℕ → List ℕ) → List ℕ → Type 0
AllQuoted q [] = Unit
AllQuoted q (c ∷ s) = Quoted 34 c (q c) × (c < 256) × AllQuoted q s

bytes-read :
    (q : ℕ → List ℕ) (s : Source) (bytes : List ℕ) (f k : ℕ) (acc more : List ℕ)
    → AllQuoted q bytes
    → length bytes < f
    → (k' : ℕ) × (next_char f acc (at s k (each_byte q bytes ++ (34 ∷ more)))
        ≡ ok (acc ++ bytes) (at s k' more))
unfolding string_chars
bytes-read q s bytes zero k acc more a l = elim l [ ]
bytes-read q s [] (suc f) k acc more a l =
    (bump k, rw (getch-at s k 34 more refl, same_test s.escapes, append-nil acc))
bytes-read q s (c ∷ bytes) (suc f) k acc more a l =
    let first = byte-read s f k c acc (q c) (each_byte q bytes ++ (34 ∷ more)) a.1 a.0 in
    let rest = bytes-read q s bytes f first.0 (acc ++ (c ∷ [])) more a.2 (omega arith) in
    (
      rest.0,
      rw (append_assoc (q c) (each_byte q bytes) (34 ∷ more))
          (first.1 ∙ rest.1 ∙ ap (λ t. ok t (at s rest.0 more)) (append_assoc acc (c ∷ []) bytes)),
    )

Quoted-pos : {end c : ℕ} (text : List ℕ) → Quoted end c text → 0 < length text
Quoted-pos _ (plain line back quote) = omega arith
Quoted-pos _ (letter e line digit h) = omega arith
Quoted-pos _ (digits h) = omega arith

length-le-each_byte :
    (q : ℕ → List ℕ) (bytes : List ℕ)
    → AllQuoted q bytes
    → length bytes < suc (length (each_byte q bytes))
length-le-each_byte q [] a = omega arith
length-le-each_byte q (c ∷ bytes) a = omega (
  arith,
  length-append (q c) (each_byte q bytes),
  Quoted-pos (q c) a.0,
  length-le-each_byte q bytes a.2,
)

string_symbol-at :
    (n : Numbers) (s : Source) (f k k' d : ℕ) (bytes text more : List ℕ)
    → (d == 10) ≡ false
    → next_char f [] (at s k text) ≡ ok bytes (at s k' (d ∷ more))
    → string_symbol n f (at s k text) ≡ ok (d, one (string (c_string bytes))) (at s (bump k') more)
unfolding string_symbol
string_symbol-at n s f k k' d bytes text more line h = rw (h, getch-at s k' d more line)

-- A string whose bytes are quoted one by one
pub string-Scans :
    (n : Numbers) (q : ℕ → List ℕ) (bytes : List ℕ)
    → AllQuoted q bytes
    → c_string bytes ≡ bytes
    → Scans n (34 ∷ (each_byte q bytes ++ (34 ∷ []))) (string bytes)
string-Scans n q bytes a whole = record {
  first = 34;
  rest = each_byte q bytes ++ (34 ∷ []);
  starts = refl;
  visible = refl;
  reads = λ s f k d more p l.
      let read = bytes-read q s bytes (suc f) k [] (d ∷ more) a (
        omega
          (arith, length-le-each_byte q bytes a, length-append (each_byte q bytes) (34 ∷ []))) in
      (
        bump read.0,
        rw (append_assoc (each_byte q bytes) (34 ∷ []) (d ∷ more)) (
            my_getsym-string n (at s k (each_byte q bytes ++ (34 ∷ d ∷ more))) f
            ∙ string_symbol-at n s (suc f) k read.0 d bytes (each_byte q bytes ++ (34 ∷ d ∷ more))
                more p.no_line read.1
            ∙ rw whole),
      );
}

character-at :
    (n : Numbers) (s : Source) (k c d : ℕ) (text more : List ℕ)
    → Quoted 0 c text
    → (d == 10) ≡ false
    → (k' : ℕ) × (character n (at s k (text ++ (d ∷ more))) ≡ ok (d, one (char c)) (at s k' more))
unfolding character
character-at n s k c d _ more (plain line back zero_) h =
    (bump (bump k), rw (getch-at s k c (d ∷ more) line, back, getch-at s (bump k) d more h))
character-at n s k c d _ more (letter e line digit p) h = (
  bump (bump (bump k)),
  rw (
    getch-at s k 92 (e ∷ d ∷ more) refl,
    special-letter s (bump k) e (d ∷ more) line digit,
    getch-at s (bump (bump k)) d more h,
    p,
  ),
)
character-at n s k c d _ more (digits p) h = (
  bump (bump (bump (bump (bump k)))),
  rw (
    getch-at s k 92 (three_digits c ++ (d ∷ more)) refl,
    special-three s (bump k) c (d ∷ more) p,
    getch-at s (bump (bump (bump (bump k)))) d more h,
  ),
)

-- A character constant
pub char-Scans :
    (n : Numbers) (c : ℕ) (text : List ℕ) → Quoted 0 c text → Scans n (39 ∷ text) (char c)
char-Scans n c text a = record {
  first = 39;
  rest = text;
  starts = refl;
  visible = refl;
  reads = λ s f k d more p l.
      let read = character-at n s k c d text more a p.no_line in
      (read.0, my_getsym-quote n (at s k (text ++ (d ∷ more))) f ∙ read.1);
}
