-- ===== src/Text/Scan.antt =====
-- The scanner: my_getsym of src/scan.c, with the vector and matrix literals of JOY_NATIVE_TYPES.
use joy.Prelude.{
  ℕ, zero, suc, ◌%◌, Bool, false, not, ◌==◌, ◌&&◌, ◌||◌, leb, if◌then◌else◌, List, [], ◌∷◌, ◌++◌,
  drop, Option, none, some,
}
use joy.Prelude.Int.{ℤ, pos, negsuc, ◌-ℤ◌}
use joy.Word.{int64}
use joy.Symbols.Names.{same}
use joy.Text.Chars.{codes, isdigit, isupper, isalnum, contains, exclude, include, c_string}
use joy.Text.Symbol.{
  Symbol, Numbers, lparen, vbracket, mbracket, char, integer, string, float, usr, keywords,
  find_keyword, punctuation,
}
use joy.Text.Source.{Source, G, out_of_fuel, pure, ◌>>=◌, ◌>>◌, getch, ungetch, special, kept}
use joy.Text.Interpolate.{parse_interpolated_string}

-- A symbol that is assigned to `sym`, or the symbols that an interpolated string puts before those of
-- the list of tokens, where `sym` keeps the value that it had.
pub data Scanned : Type 0 where
  one : Symbol → Scanned
  many : List Symbol → Scanned

-- while (ch <= ' ') ch = getch
unfoldable pub skip_space : ℕ → ℕ → G ℕ
unfolding getch
skip_space zero ch s = out_of_fuel
skip_space (suc f) ch s =
    let go = (getch >>= λ c. skip_space f c) s in if leb ch 32 then go else pure ch s

-- while (ch != end) ch = getch
unfoldable pub skip_until : ℕ → ℕ → ℕ → G ℕ
unfolding getch
skip_until zero end ch s = out_of_fuel
skip_until (suc f) end ch s =
    let go = (getch >>= λ c. skip_until f end c) s in if ch == end then pure ch s else go

-- A comment up to its closing parenthesis, after the first star
unfoldable pub comment : ℕ → ℕ → G ℕ
unfolding skip_until
comment zero ch s = out_of_fuel
comment (suc f) ch s =
    (skip_until f 42 ch >>= λ _.
    getch >>= λ c. λ t. let go = comment f c t in if c == 41 then pure c t else go)
      s

-- The characters of a string up to its quote, as bytes. A shell escape within it clears what was read.
unfoldable pub string_chars : ℕ → ℕ → List ℕ → G (List ℕ)
unfolding getch special
string_chars zero ch text s = out_of_fuel
string_chars (suc f) ch text s =
    let go = λ (c : ℕ) (old : List ℕ) (t : Source).
      (getch >>= λ d u. string_chars f d (kept t u (old ++ (c % 256 ∷ []))) u) t in
    let escape = (special >>= λ c t. go c (kept s t text) t) s in
    if ch == 34 then pure text s else if ch == 92 then escape else go ch text s

-- The next character of a string, and the rest, where `text` was read before
abbrev pub next_char : ℕ → List ℕ → G (List ℕ)
next_char f text t = (getch >>= λ d u. string_chars f d (kept t u text) u) t

abbrev pub in_word : ℕ → Bool
in_word ch = not (leb ch 32) && not (contains exclude ch)

-- while (ch > ' ' && !strchr(exclude, ch)): the character after the word, and the text
unfoldable pub word_chars : ℕ → ℕ → List ℕ → G (ℕ × List ℕ)
unfolding getch
word_chars zero ch text s = out_of_fuel
word_chars (suc f) ch text s =
    let go = (getch >>= λ c. word_chars f c (text ++ (ch ∷ []))) s in
    if in_word ch then go else pure (ch, text) s

-- A word as it was scanned: the character after it, its text, and whether it is a number or a float
pub record Word : Type 0 where
  pub after : ℕ
  pub text : List ℕ
  pub numeric : Bool
  pub has_point : Bool

abbrev pub plain_word : Bool → ℕ × List ℕ → Word
plain_word type (ch, text) = record { after = ch; text = text; numeric = type; has_point = false }

-- A full stop that ends the word is given back.
abbrev pub stop_word : Bool → ℕ → List ℕ → G Word
stop_word type ch text = ungetch ch >> pure (plain_word type (46, text))

abbrev pub point_word : ℕ → Bool → ℕ → List ℕ → G Word
point_word f type ch text = word_chars f ch (text ++ (46 ∷ [])) >>= λ (c, t).
    pure (record { after = c; text = t; numeric = type; has_point = type })

-- A full stop within a number needs a digit after it, and within a name what a name consists of, or the
-- character 0, which strchr finds at the end of `include`.
abbrev pub goes_on : Bool → ℕ → Bool
goes_on type ch = if type then isdigit ch else isalnum ch || ch == 0 || contains include ch

unfoldable pub after_word : ℕ → Bool → ℕ × List ℕ → G Word
unfolding getch ungetch word_chars
after_word f type (ch, text) s =
    if ch == 46
    then (getch >>= λ c. if goes_on type c then point_word f type c text else stop_word type c text)
        s
    else pure (plain_word type (ch, text)) s

-- The word that starts with `sign`; `before` stands in the buffer already.
unfoldable pub word : ℕ → List ℕ → ℕ → G Word
unfolding after_word word_chars getch
word f before sign = getch >>= λ ch.
    let type = isdigit sign || (sign == 45 && isdigit ch) in
    word_chars f ch (before ++ (sign ∷ [])) >>= after_word f type

-- INT64_MAX
abbrev pub maxint : ℤ
maxint = pos 9223372036854775807

abbrev pub is_maxint : ℤ → Bool
is_maxint (pos n) = n == 9223372036854775807
is_maxint (negsuc n) = false

-- What a conversion leaves of the text goes to `pushback`, and after it the character behind it.
abbrev pub push_back : List ℕ → ℕ → G ℕ
push_back [] ch s = pure ch s
push_back (c ∷ rest) ch s = getch (record s { pushback = (c ∷ rest) ++ (ch ∷ s.pushback) })

abbrev pub tail_of : List ℕ → List ℕ
tail_of [] = []
tail_of (_ ∷ s) = s

module _ (n : Numbers) where
  abbrev pub signed : Bool → ℤ → ℤ
  signed minus z = if minus then int64 (pos 0 -ℤ z) else z

  -- The symbol of a number and what is left of its text
  unfoldable pub number_symbol : Bool → Bool → List ℕ → Symbol × List ℕ
  number_symbol minus point text =
      let (d, used_d) = n.strtod text in
      let digits = (if minus then tail_of text else text) in
      let (z, used) = n.strtoll digits in
      if point || is_maxint z
      then (float d, drop used_d text)
      else (integer (signed minus z), drop used digits)

  abbrev pub read_number : Bool → Word → G (ℕ × Scanned)
  read_number minus w =
      let (symbol, rest) = number_symbol minus w.has_point w.text in
      push_back rest w.after >>= λ ch. pure (ch, one symbol)

  -- The second character tells whether the word can be a keyword.
  abbrev pub may_be_keyword : List ℕ → Bool
  may_be_keyword (_ ∷ c ∷ _) = isupper c || c == 61
  may_be_keyword _ = false

  abbrev pub keyword : List ℕ → Option Symbol
  keyword text = if may_be_keyword text then find_keyword keywords text else none

  abbrev pub matrix_or_name : ℕ → G (ℕ × Scanned)
  matrix_or_name next =
      if next == 91
      then (getch >>= λ ch. pure (ch, one mbracket))
      else (ungetch next >> pure (91, one (usr (codes "m"))))

  abbrev pub read_name : Word → G (ℕ × Scanned)
  read_name w =
      if same w.text (codes "v") && w.after == 91
      then (getch >>= λ ch. pure (ch, one vbracket))
      else if same w.text (codes "m") && w.after == 91
      then getch >>= matrix_or_name
      else pure (w.after, one (usr w.text))

  abbrev pub read_word : Option Symbol → Word → G (ℕ × Scanned)
  read_word (some symbol) w = pure (w.after, one symbol)
  read_word none w = read_name w

  -- A number or a name; `sign` is its first character, but for the `$` of a name.
  unfoldable pub identifier : ℕ → List ℕ → ℕ → G (ℕ × Scanned)
  unfolding word number_symbol
  identifier f before sign = word f before sign >>= λ w.
      if w.numeric then read_number (sign == 45) w else read_word (keyword w.text) w

  unfoldable pub dollar : ℕ → G (ℕ × Scanned)
  unfolding parse_interpolated_string identifier
  dollar f = getch >>= λ ch.
      let interpolation = parse_interpolated_string n f >>= λ (next, ts). pure (next, many ts) in
      let name = identifier f (36 ∷ []) ch in
      let alone = ungetch ch >> (getch >>= λ c. pure (c, one (usr (36 ∷ [])))) in
      if ch == 34 then interpolation else if in_word ch then name else alone

  unfoldable pub character : G (ℕ × Scanned)
  unfolding special
  character = getch >>= λ ch.
      (if ch == 92 then special else pure ch) >>= λ c. getch >>= λ next. pure (next, one (char c))

  unfoldable pub string_symbol : ℕ → G (ℕ × Scanned)
  unfolding string_chars
  string_symbol f =
      next_char f [] >>= λ text. getch >>= λ next. pure (next, one (string (c_string text)))

  abbrev pub other_symbol : ℕ → ℕ → G (ℕ × Scanned)
  other_symbol f ch =
      if ch == 39
      then character
      else if ch == 34
      then string_symbol f
      else if ch == 36
      then dollar f
      else identifier f [] ch

  abbrev pub symbol_of : ℕ → ℕ → Option Symbol → G (ℕ × Scanned)
  symbol_of f ch (some symbol) = getch >>= λ next. pure (next, one symbol)
  symbol_of f ch none = other_symbol f ch

  -- The result is the character after the symbol. Each loop of the scanner, `goto start` included, has
  -- the rest of the fuel.
  unfoldable pub my_getsym : ℕ → ℕ → G (ℕ × Scanned)
  unfolding skip_space skip_until comment identifier dollar character string_symbol
  my_getsym zero ch s = out_of_fuel
  my_getsym (suc f) ch s =
      let start = λ (c : ℕ). λ (t : Source). my_getsym f c t in
      let paren = getch >>= λ c.
      if c == 42
      then (getch >>= λ d. comment f d >>= λ _. getch >>= start)
      else pure (c, one lparen) in
      let line = getch >>= λ c. skip_until f 10 c >>= start in
      (skip_space f ch >>= λ c.
      if c == 40 then paren else if c == 35 then line else symbol_of f c (punctuation c))
        s
