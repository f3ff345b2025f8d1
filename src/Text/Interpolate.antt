-- ===== src/Text/Interpolate.antt =====
-- Interpolated strings: parse_interpolated_string of src/scan.c, that turns $"a ${x} b" into the
-- symbols "a " x unquoted concat " b" concat.
use joy.Prelude.{
  ℕ, ◌%◌, zero, suc, ◌-◌, Bool, false, ◌==◌, ◌&&◌, ◌||◌, ltb, if◌then◌else◌, List, [], ◌∷◌, ◌++◌,
  length,
}
use joy.Text.Chars.{codes, isdigit, contains, c_string}
use joy.Text.Symbol.{Symbol, Numbers, integer, string, float, usr}
use joy.Text.Source.{Source, kept, G, out_of_fuel, pure, ◌>>=◌, getch, special}

-- The symbols so far, the number of parts, and the characters of the part that is being read
pub record Parts : Type 0 where
  pub tokens : List Symbol
  pub count : ℕ
  pub text : List ℕ

abbrev pub no_parts : Parts
no_parts = record { tokens = []; count = 0; text = [] }

abbrev pub concat_token : ℕ → List Symbol
concat_token n = if n == 0 then [] else usr (codes "concat") ∷ []

-- A part with its symbols; it is joined to the parts before it.
abbrev pub add_part : List Symbol → Parts → Parts
add_part new p = record {
  tokens = p.tokens ++ (new ++ concat_token p.count);
  count = suc p.count;
  text = [];
}

abbrev pub emit_text : Parts → Parts
emit_text p = elim p.text [ [] ↦ p | (c ∷ s) ↦ add_part (string (c_string (c ∷ s)) ∷ []) p ]

abbrev pub push : ℕ → Parts → Parts
push c p = record p { text = p.text ++ (c % 256 ∷ []) }

-- A shell escape clears the part that is being read.
abbrev pub kept_parts : Source → Source → Parts → Parts
kept_parts s t p = record p { text = kept s t p.text }

-- A string within an expression, after its first quote; it is kept with its quotes and backslashes.
unfoldable pub inner_string : ℕ → ℕ → List ℕ → G (List ℕ)
unfolding getch
inner_string zero ch text s = out_of_fuel
inner_string (suc f) ch text s =
    let go = λ (t : List ℕ) (u : Source). (getch >>= λ d v. inner_string f d (kept u v t) v) u in
    let escape = (getch >>= λ c u. go (kept s u (text ++ (ch ∷ [])) ++ (c ∷ [])) u) s in
    let more = go (text ++ (ch ∷ [])) s in
    if ch == 34 then pure (text ++ (ch ∷ [])) s else if ch == 92 then escape else more

-- The text of an expression up to its closing brace, and the character after that
unfoldable pub expression : ℕ → ℕ → ℕ → List ℕ → G (ℕ × List ℕ)
unfolding getch inner_string
expression zero depth ch text s = out_of_fuel
expression (suc f) depth ch text s =
    let go =
      λ (d : ℕ) (t : List ℕ) (u : Source). (getch >>= λ c v. expression f d c (kept u v t) v) u in
    let quoted =
      (getch >>= λ c u. (inner_string f c (kept s u (text ++ (ch ∷ []))) >>= λ t. go depth t) u)
        s in
    if depth == 0
    then pure (ch, text) s
    else if ch == 123
    then go (suc depth) (text ++ (ch ∷ [])) s
    else if ch == 125
    then go (depth - 1) (if ltb 1 depth then text ++ (ch ∷ []) else text) s
    else if ch == 34
    then quoted
    else go depth (text ++ (ch ∷ [])) s

abbrev pub is_blank : ℕ → Bool
is_blank c = c == 32 || c == 9 || c == 10

abbrev pub skip_blanks : List ℕ → List ℕ
skip_blanks [] = []
skip_blanks (c ∷ s) = if is_blank c then skip_blanks s else c ∷ s

-- A word, and what follows it
abbrev pub word_of : List ℕ → List ℕ × List ℕ
word_of [] = ([], [])
word_of (c ∷ s) = let (w, rest) = word_of s in if is_blank c then ([], c ∷ s) else (c ∷ w, rest)

-- A string literal after its first quote
abbrev pub literal_of : List ℕ → List ℕ × List ℕ
literal_of [] = ([], [])
literal_of (c ∷ []) = (c ∷ [], [])
literal_of (c ∷ d ∷ s) =
    let (v, after) = literal_of s in
    let (w, rest) = literal_of (d ∷ s) in
    if c == 34 then (c ∷ [], d ∷ s) else if c == 92 then (c ∷ d ∷ v, after) else (c ∷ w, rest)

abbrev pub without_last : List ℕ → List ℕ
without_last [] = []
without_last (c ∷ []) = []
without_last (c ∷ d ∷ s) = c ∷ without_last (d ∷ s)

module _ (n : Numbers) where
  abbrev pub is_number : List ℕ → Bool
  is_number [] = false
  is_number (c ∷ []) = isdigit c
  is_number (c ∷ d ∷ s) = isdigit c || (c == 45 && isdigit d)

  -- The symbol of a word
  unfoldable pub word_symbol : List ℕ → Symbol
  word_symbol [] = usr []
  word_symbol (c ∷ s) =
      if c == 34
      then string (without_last s)
      else if is_number (c ∷ s)
      then (if contains (c ∷ s) 46 || contains (c ∷ s) 101 || contains (c ∷ s) 69
          then float (n.strtod (c ∷ s)).0
          else integer (n.strtoll_10 (c ∷ s)).0)
      else usr (c ∷ s)

  -- The words of an expression: `fuel` bounds their number.
  unfoldable pub words : ℕ → List ℕ → List Symbol
  unfolding word_symbol
  words zero s = []
  words (suc f) s = elim (skip_blanks s) [
    | [] ↦ []
    | (c ∷ r) ↦
        let (w, rest) = (if c == 34 then literal_of r else word_of r) in
        word_symbol (c ∷ w) ∷ words f rest
  ]

  abbrev pub add_expression : List ℕ → Parts → Parts
  add_expression text p =
      let expr = c_string text in
      add_part (words (length expr) expr ++ (usr (codes "unquoted") ∷ [])) p

  -- The rest of the string; the character is the first that is not used yet.
  unfoldable pub interpolated : ℕ → ℕ → Parts → G Parts
  unfolding getch special expression words
  interpolated zero ch p s = out_of_fuel
  interpolated (suc f) ch p s =
      let go =
        λ (q : Parts) (u : Source). (getch >>= λ c v. interpolated f c (kept_parts u v q) v) u in
      let braces = λ (q : Parts).
        (getch >>= λ c. expression f 1 c [] >>= λ (d, text).
        interpolated f d (add_expression text (emit_text q))) in
      let literal = λ (c : ℕ) (q : Parts).
        (if c == 34 then interpolated f c (push 36 q) else go (push c (push 36 q))) in
      let dollar = getch >>= λ c u.
      (if c == 123 then braces (kept_parts s u p) else literal c (kept_parts s u p)) u in
      let escape = special >>= λ c u. go (push c (kept_parts s u p)) u in
      if ch == 34
      then pure p s
      else if ch == 36
      then dollar s
      else if ch == 92
      then escape s
      else go (push ch p) s

  abbrev pub or_empty : Parts → List Symbol
  or_empty p = if p.count == 0 then string [] ∷ [] else p.tokens

  -- The symbols of an interpolated string, and the character after its closing quote
  unfoldable pub parse_interpolated_string : ℕ → G (ℕ × List Symbol)
  unfolding interpolated getch
  parse_interpolated_string f = getch >>= λ ch.
      interpolated f ch no_parts >>= λ p. getch >>= λ next. pure (next, or_empty (emit_text p))
