-- ===== src/Text/Returns.antt =====
-- The scanner returns: every call delivers a symbol, ends the input, or jumps back to `finclude`.
use joy.Prelude.{
  ℕ, zero, suc, ◌+◌, ◌-◌, ◌<◌, ◌≢◌, ◌==◌, ◌&&◌, ltb, if◌then◌else◌, List, [], ◌∷◌, ◌++◌, arith,
  if_keeps, Option, none, some,
}
use joy.Text.Symbol.{Symbol, Numbers, punctuation, usr}
use joy.Text.Chars.{codes}
use joy.Symbols.Names.{same}
use joy.Text.Source.{
  Source, kept, G, Got, ok, quit, finclude, out_of_fuel, pure, and_then, getch, ungetch, special,
}
use joy.Text.Interpolate.{Parts, expression, interpolated, parse_interpolated_string, no_parts}
use joy.Text.Scan.{
  Scanned, one, in_word, Word, push_back, read_name, read_word, matrix_or_name, keyword, identifier,
  dollar, character, string_symbol, other_symbol, symbol_of, my_getsym,
}
use joy.Text.Left.{left, Within, Within-mono, Within-bind, getch-Within, getch-bind, special-Within}
use joy.Text.Loops.{
  skip_space-Within, skip_until-Within, comment-Within, string_chars-Within, word-Within,
  inner_string-Within,
}

expression-Within :
    (f depth ch : ℕ) (text : List ℕ) (s : Source)
    → left s < f
    → Within (suc (left s)) (expression f depth ch text s)
unfolding expression
expression-Within zero depth ch text s h = elim h [ ]
expression-Within (suc f) depth ch text s h =
    let go = λ (d : ℕ) (t : List ℕ).
      getch-bind (suc (left s)) s (λ c u. expression f d c (kept s u t) u)
        λ c u l. Within-mono _ _ _ (omega arith) (expression-Within f d c _ u (omega arith)) in
    if_keeps (Within _) (depth == 0) _ _ (λ p. omega arith)
      (λ p.
        if_keeps (Within _) (ch == 123) _ _ (λ q. go (suc depth) (text ++ (ch ∷ [])))
          (λ q.
            if_keeps (Within _) (ch == 125) _ _
              (λ u. go (depth - 1) (if ltb 1 depth then text ++ (ch ∷ []) else text))
              (λ u.
                if_keeps (Within _) (ch == 34) _ _
                  (λ v. getch-bind _ s _ λ c t l.
                    Within-bind _ _ _ _ (inner_string-Within f c _ t (omega arith)) λ a w m.
                      getch-bind _ w _ λ d x n.
                        Within-mono _ _ _ (omega arith)
                          (expression-Within f depth d _ x (omega arith)))
                  (λ v. go depth (text ++ (ch ∷ []))))))

module _ (n : Numbers) where
  interpolated-Within :
      (f ch : ℕ) (p : Parts) (s : Source)
      → left s < f
      → Within (suc (left s)) (interpolated n f ch p s)
  unfolding interpolated
  interpolated-Within zero ch p s h = elim h [ ]
  interpolated-Within (suc f) ch p s h =
      if_keeps (Within _) (ch == 34) _ _ (λ e. omega arith)
        (λ e.
          if_keeps (Within _) (ch == 36) _ _
            (λ q. getch-bind _ s _ λ c t l.
              if_keeps (λ (g : G Parts). Within (suc (left s)) (g t)) (c == 123) _ _
                (λ u. getch-bind _ t _ λ d w m.
                  Within-bind _ _ _ _ (expression-Within f 1 d [] w (omega arith)) λ a x o.
                    Within-mono _ _ _ (omega arith) (interpolated-Within f a.0 _ x (omega arith)))
                (λ u.
                  if_keeps (λ (g : G Parts). Within (suc (left s)) (g t)) (c == 34) _ _
                    (λ v.
                      Within-mono _ _ _ (omega arith) (interpolated-Within f c _ t (omega arith)))
                    (λ v. getch-bind _ t _ λ d w m.
                      Within-mono _ _ _ (omega arith) (interpolated-Within f d _ w (omega arith)))))
            (λ q.
              if_keeps (Within _) (ch == 92) _ _
                (λ u. Within-bind _ _ _ _ (special-Within s) λ c t l. getch-bind _ t _ λ d w m.
                  Within-mono _ _ _ (omega arith) (interpolated-Within f d _ w (omega arith)))
                (λ u. getch-bind _ s _ λ d w m.
                  Within-mono _ _ _ (omega arith) (interpolated-Within f d _ w (omega arith)))))

-- A reading that returns or ends the input
abbrev Returns : {A : Type 0} → Got A → Type 0
Returns out_of_fuel = ⊥
Returns _ = Unit

Returns-bind :
    {A B : Type 0} (m : ℕ) (r : Got A) (k : A → Source → Got B)
    → Within m r
    → ((a : A) (s : Source) → left s < m → Returns (k a s))
    → Returns (and_then r k)
Returns-bind m (ok a s) k w h = h a s w
Returns-bind m (quit s) k w h = tt
Returns-bind m (finclude s) k w h = tt
Returns-bind m out_of_fuel k w h = w

getch-Returns :
    {B : Type 0} (s : Source) (k : ℕ → Source → Got B)
    → ((c : ℕ) (t : Source) → left t < left s → Returns (k c t))
    → Returns (and_then (getch s) k)
getch-Returns s k h = Returns-bind (left s) (getch s) k (getch-Within s) h

Returns-pure :
    {A B : Type 0} (r : Got A) (k : A → Source → B)
    → Returns r
    → Returns (and_then r (λ a s. ok (k a s) s))
Returns-pure (ok a s) k h = tt
Returns-pure (quit s) k h = tt
Returns-pure (finclude s) k h = tt
Returns-pure out_of_fuel k h = h

Within-Returns : {A : Type 0} (m : ℕ) (r : Got A) → Within m r → Returns r
Within-Returns m (ok a s) w = tt
Within-Returns m (quit s) w = tt
Within-Returns m (finclude s) w = tt
Within-Returns m out_of_fuel w = w

-- The source that ungetch leaves
abbrev unread : ℕ → Source → Source
unread c s = record s {
  srcfile = c ∷ s.srcfile;
  linenum = if c == 10 then s.linenum - 1 else s.linenum;
  linepos = s.linepos - 1;
}

next-Returns :
    (x : Symbol) (s : Source)
    → Returns {A = ℕ × Scanned} (and_then (getch s) (λ c t. ok (c, one x) t))
next-Returns x s =
    Returns-pure {B = ℕ × Scanned} (getch s) (λ c t. (c, one x))
      (Within-Returns _ _ (getch-Within s))

push_back-Returns : (rest : List ℕ) (ch : ℕ) (s : Source) → Returns (push_back rest ch s)
push_back-Returns [] ch s = tt
push_back-Returns (c ∷ rest) ch s = Within-Returns _ _ (getch-Within _)

module _ (n : Numbers) where
  matrix_or_name-Returns : (next : ℕ) (s : Source) → Returns (matrix_or_name n next s)
  matrix_or_name-Returns next s =
      if_keeps (λ (g : G (ℕ × Scanned)). Returns (g s)) (next == 91) _ _
        (λ p. getch-Returns s _ (λ c t l. tt)) (λ p. unfold ungetch in tt)

  read_name-Returns : (w : Word) (s : Source) → Returns (read_name n w s)
  read_name-Returns w s =
      if_keeps (λ (g : G (ℕ × Scanned)). Returns (g s)) (same w.text (codes "v") && w.after == 91) _
        _ (λ p. getch-Returns s _ (λ c t l. tt))
        (λ p.
          if_keeps (λ (g : G (ℕ × Scanned)). Returns (g s))
            (same w.text (codes "m") && w.after == 91) _ _
            (λ q. getch-Returns s _ (λ c t l. matrix_or_name-Returns c t)) (λ q. tt))

  read_word-Returns : (o : Option Symbol) (w : Word) (s : Source) → Returns (read_word n o w s)
  read_word-Returns none w s = read_name-Returns w s
  read_word-Returns (some x) w s = tt

  identifier-Returns :
      (f : ℕ) (before : List ℕ) (sign : ℕ) (s : Source)
      → left s < f
      → Returns (identifier n f before sign s)
  unfolding identifier
  identifier-Returns f before sign s h = Returns-bind _ _ _ (word-Within f before sign s h) λ w t l.
      if_keeps (λ (g : G (ℕ × Scanned)). Returns (g t)) w.numeric _ _
        (λ p. Returns-pure _ _ (push_back-Returns _ w.after t))
        (λ p. read_word-Returns (keyword n w.text) w t)

  escaped-Within :
      (c : ℕ) (s : Source) → Within (suc (left s)) ((if c == 92 then special else pure c) s)
  escaped-Within c s =
      if_keeps (λ (g : G ℕ). Within (suc (left s)) (g s)) (c == 92) special (pure c)
        (λ p. Within-mono _ _ _ (omega arith) (special-Within s)) (λ p. omega arith)

  character-Returns : (s : Source) → Returns (character n s)
  unfolding character
  character-Returns s =
      getch-Returns s _
        λ c t l. Returns-bind _ _ _ (escaped-Within c t) λ d u m. getch-Returns u _ (λ e w o. tt)

  string_symbol-Returns : (f : ℕ) (s : Source) → left s < f → Returns (string_symbol n f s)
  unfolding string_symbol
  string_symbol-Returns f s h =
      Returns-bind (suc (left s)) _ _
        (getch-bind _ s _
          λ c t l. Within-mono _ _ _ (omega arith) (string_chars-Within f c _ t (omega arith)))
        λ text u m. getch-Returns u _ (λ e w o. tt)

  interpolation-Returns :
      (f : ℕ) (s : Source) → left s < f → Returns (parse_interpolated_string n f s)
  unfolding parse_interpolated_string
  interpolation-Returns f s h = getch-Returns s _ λ c t l.
      Returns-bind _ _ _ (interpolated-Within n f c no_parts t (omega arith))
        λ text u m. getch-Returns u _ (λ e w o. tt)

  dollar-Returns : (f : ℕ) (s : Source) → left s < f → Returns (dollar n f s)
  unfolding dollar ungetch
  dollar-Returns f s h = getch-Returns s _ λ c t l.
      if_keeps (λ (g : G (ℕ × Scanned)). Returns (g t)) (c == 34) _ _
        (λ p. Returns-pure _ _ (interpolation-Returns f t (omega arith)))
        (λ p.
          if_keeps (λ (g : G (ℕ × Scanned)). Returns (g t)) (in_word c) _ _
            (λ q. identifier-Returns f (36 ∷ []) c t (omega arith))
            (λ q. next-Returns (usr (36 ∷ [])) (unread c t)))

  other_symbol-Returns : (f ch : ℕ) (s : Source) → left s < f → Returns (other_symbol n f ch s)
  other_symbol-Returns f ch s h =
      if_keeps (λ (g : G (ℕ × Scanned)). Returns (g s)) (ch == 39) _ _ (λ p. character-Returns s)
        (λ p.
          if_keeps (λ (g : G (ℕ × Scanned)). Returns (g s)) (ch == 34) _ _
            (λ q. string_symbol-Returns f s h)
            (λ q.
              if_keeps (λ (g : G (ℕ × Scanned)). Returns (g s)) (ch == 36) _ _
                (λ u. dollar-Returns f s h) (λ u. identifier-Returns f [] ch s h)))

  symbol_of-Returns :
      (f ch : ℕ) (o : Option Symbol) (s : Source) → left s < f → Returns (symbol_of n f ch o s)
  symbol_of-Returns f ch none s h = other_symbol-Returns f ch s h
  symbol_of-Returns f ch (some x) s h = getch-Returns s _ (λ c t l. tt)

  my_getsym-Returns : (f ch : ℕ) (s : Source) → left s + 1 < f → Returns (my_getsym n f ch s)
  unfolding my_getsym
  my_getsym-Returns zero ch s h = elim h [ ]
  my_getsym-Returns (suc f) ch s h =
      Returns-bind _ _ _ (skip_space-Within f ch s (omega arith)) λ c t l.
        if_keeps (λ (g : G (ℕ × Scanned)). Returns (g t)) (c == 40) _ _
          (λ p. getch-Returns t _ λ d u m.
            if_keeps (λ (g : G (ℕ × Scanned)). Returns (g u)) (d == 42) _ _
              (λ q. getch-Returns u _ λ e w o.
                Returns-bind _ _ _ (comment-Within f e w (omega arith))
                  λ a x i. getch-Returns x _ λ b y j. my_getsym-Returns f b y (omega arith))
              (λ q. tt))
          (λ p.
            if_keeps (λ (g : G (ℕ × Scanned)). Returns (g t)) (c == 35) _ _
              (λ q. getch-Returns t _ λ d u m.
                Returns-bind _ _ _ (skip_until-Within f 10 d u (omega arith))
                  λ a x i. my_getsym-Returns f a x (omega arith))
              (λ q. symbol_of-Returns f c (punctuation c) t (omega arith)))

Returns-ne : {A : Type 0} (r : Got A) → Returns r → r ≢ out_of_fuel
Returns-ne (ok a s) h = cc
Returns-ne (quit s) h = cc
Returns-ne (finclude s) h = cc
Returns-ne out_of_fuel h = absurd h

-- A call of the scanner ends from every input, whatever the conversions of numbers give: with fuel above
-- the number of the characters and files that are left plus one, it returns a symbol, or ends the
-- interpreter at the end of the input, or jumps back at the end of an included file.
pub my_getsym-returns :
    (n : Numbers) (f ch : ℕ) (s : Source) → left s + 1 < f → my_getsym n f ch s ≢ out_of_fuel
my_getsym-returns n f ch s h = Returns-ne (my_getsym n f ch s) (my_getsym-Returns n f ch s h)
