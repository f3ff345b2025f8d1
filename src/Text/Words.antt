-- ===== src/Text/Words.antt =====
-- The scanner at a symbol that is followed by a space or a bracket.
use mathlib.Core.List.{append_assoc}
use joy.Prelude.{
  ℕ, zero, suc, ◌<◌, ◌≡◌, refl, true, false, ◌==◌, leb, List, [], ◌∷◌, ◌++◌, length, arith, ap, ◌∙◌,
  some, none,
}
use joy.Text.Symbol.{Symbol, Numbers, punctuation}
use joy.Text.Source.{Source, ok}
use joy.Text.Scan.{
  one, in_word, skip_space, word_chars, other_symbol, identifier, character, string_symbol,
  my_getsym,
}
use joy.Text.Getch.{at, bump, getch-at}

-- The character after a symbol
pub record IsDelim (d : ℕ) : Type 0 where
  pub no_word : in_word d ≡ false
  pub no_stop : (d == 46) ≡ false
  pub no_line : (d == 10) ≡ false
  pub no_brack : (d == 91) ≡ false

pub space-IsDelim : IsDelim 32
space-IsDelim = record { no_word = refl; no_stop = refl; no_line = refl; no_brack = refl }

pub rbrack-IsDelim : IsDelim 93
rbrack-IsDelim = record { no_word = refl; no_stop = refl; no_line = refl; no_brack = refl }

pub rbrace-IsDelim : IsDelim 125
rbrace-IsDelim = record { no_word = refl; no_stop = refl; no_line = refl; no_brack = refl }

-- A text that starts a symbol and holds it whole: the scanner reads the symbol, and the character
-- after it.
pub record Scans (n : Numbers) (text : List ℕ) (x : Symbol) : Type 0 where
  pub first : ℕ
  pub rest : List ℕ
  pub starts : text ≡ first ∷ rest
  pub visible : leb first 32 ≡ false
  pub reads :
      (s : Source) (f k d : ℕ) (more : List ℕ)
      → IsDelim d
      → length rest < f
      → (k' : ℕ) × (my_getsym n (suc (suc f)) first (at s k (rest ++ (d ∷ more)))
          ≡ ok (d, one x) (at s k' more))

abbrev pub AllWord : List ℕ → Type 0
AllWord [] = Unit
AllWord (c ∷ w) = (in_word c ≡ true) × AllWord w

pub no_line_of : (c : ℕ) → in_word c ≡ true → (c == 10) ≡ false
no_line_of c h = ground arith

pub visible_of : (c : ℕ) → in_word c ≡ true → leb c 32 ≡ false
visible_of c h = ground arith

word_chars-step :
    (s : Source) (f k c e : ℕ) (acc text : List ℕ)
    → in_word c ≡ true
    → (e == 10) ≡ false
    → word_chars (suc f) c acc (at s k (e ∷ text))
      ≡ word_chars f e (acc ++ (c ∷ [])) (at s (bump k) text)
unfolding word_chars
word_chars-step s f k c e acc text q h = rw (q, getch-at s k e text h)

pub word_chars-stop :
    (s : Source) (f d : ℕ) (acc : List ℕ)
    → in_word d ≡ false
    → word_chars (suc f) d acc s ≡ ok (d, acc) s
unfolding word_chars
word_chars-stop s f d acc h = rw h

pub word_chars-at :
    (s : Source) (w : List ℕ) (f k c d : ℕ) (acc more : List ℕ)
    → IsDelim d
    → in_word c ≡ true
    → AllWord w
    → length w < f
    → (k' : ℕ) × (word_chars (suc f) c acc (at s k (w ++ (d ∷ more)))
        ≡ ok (d, acc ++ (c ∷ w)) (at s k' more))
word_chars-at s w zero k c d acc more p q a l = elim l [ ]
word_chars-at s [] (suc f) k c d acc more p q a l = (
  bump k,
  word_chars-step s (suc f) k c d acc more q p.no_line
      ∙ word_chars-stop (at s (bump k) more) f d (acc ++ (c ∷ [])) p.no_word,
)
word_chars-at s (e ∷ w) (suc f) k c d acc more p q a l =
    let ih = word_chars-at s w f (bump k) e d (acc ++ (c ∷ [])) more p a.0 a.1 (omega arith) in
    (
      ih.0,
      word_chars-step s (suc f) k c e acc (w ++ (d ∷ more)) q (no_line_of e a.0)
          ∙ ih.1
          ∙ ap (λ t. ok (d, t) (at s ih.0 more)) (append_assoc acc (c ∷ []) (e ∷ w)),
    )

pub skip_space-stop : (s : Source) (f c : ℕ) → leb c 32 ≡ false → skip_space (suc f) c s ≡ ok c s
unfolding skip_space
skip_space-stop s f c h = rw h

-- A space before a symbol is skipped.
pub my_getsym-space :
    (n : Numbers) (s : Source) (f k c : ℕ) (text : List ℕ)
    → leb c 32 ≡ false
    → (c == 10) ≡ false
    → my_getsym n (suc (suc (suc f))) 32 (at s k (c ∷ text))
      ≡ my_getsym n (suc (suc (suc f))) c (at s (bump k) text)
unfolding my_getsym skip_space
my_getsym-space n s f k c text v h = rw (getch-at s k c text h, v)

-- A bracket
pub my_getsym-bracket :
    (n : Numbers) (s : Source) (f k c d : ℕ) (text : List ℕ) {x : Symbol}
    → leb c 32 ≡ false
    → (c == 40) ≡ false
    → (c == 35) ≡ false
    → punctuation c ≡ some x
    → (d == 10) ≡ false
    → my_getsym n (suc (suc f)) c (at s k (d ∷ text)) ≡ ok (d, one x) (at s (bump k) text)
unfolding my_getsym
my_getsym-bracket n s f k c d text v p q e h =
    rw (skip_space-stop (at s k (d ∷ text)) f c v, p, q, e, getch-at s k d text h)

pub my_getsym-other :
    (n : Numbers) (s : Source) (f c : ℕ)
    → leb c 32 ≡ false
    → (c == 40) ≡ false
    → (c == 35) ≡ false
    → punctuation c ≡ none
    → my_getsym n (suc (suc f)) c s ≡ other_symbol n (suc f) c s
unfolding my_getsym
my_getsym-other n s f c v p q e = rw (skip_space-stop s f c v, p, q, e)

punctuation-none : (c : ℕ) → in_word c ≡ true → punctuation c ≡ none
punctuation-none c h = ground arith

-- A word starts.
pub my_getsym-word :
    (n : Numbers) (s : Source) (f c : ℕ)
    → in_word c ≡ true
    → (c == 36) ≡ false
    → my_getsym n (suc (suc f)) c s ≡ identifier n (suc f) [] c s
my_getsym-word n s f c q h =
    my_getsym-other n s f c (visible_of c q) (ground arith) (ground arith) (punctuation-none c q)
    ∙ rw (quote c q, double_quote c q, h)
  where
    quote : (c : ℕ) → in_word c ≡ true → (c == 39) ≡ false
    quote c q = ground arith

    double_quote : (c : ℕ) → in_word c ≡ true → (c == 34) ≡ false
    double_quote c q = ground arith

-- A character constant or a string starts.
pub my_getsym-quote :
    (n : Numbers) (s : Source) (f : ℕ) → my_getsym n (suc (suc f)) 39 s ≡ character n s
my_getsym-quote n s f = my_getsym-other n s f 39 refl refl refl refl

pub my_getsym-string :
    (n : Numbers) (s : Source) (f : ℕ) → my_getsym n (suc (suc f)) 34 s ≡ string_symbol n (suc f) s
my_getsym-string n s f = my_getsym-other n s f 34 refl refl refl refl

-- A text that starts with a visible character
pub record IsVisible (text : List ℕ) : Type 0 where
  pub head : ℕ
  pub tail : List ℕ
  pub starts : text ≡ head ∷ tail
  pub visible : leb head 32 ≡ false

pub append-IsVisible : {text : List ℕ} (more : List ℕ) → IsVisible text → IsVisible (text ++ more)
append-IsVisible more v = record {
  head = v.head;
  tail = v.tail ++ more;
  starts = ap (λ t. t ++ more) v.starts;
  visible = v.visible;
}

pub Scans-IsVisible : (n : Numbers) (text : List ℕ) (x : Symbol) → Scans n text x → IsVisible text
Scans-IsVisible n text x scans = record {
  head = scans.first;
  tail = scans.rest;
  starts = scans.starts;
  visible = scans.visible;
}
