-- ===== src/Text/Loops.antt =====
-- Each loop of the scanner returns, where its fuel is above what is left to read.
use joy.Prelude.{ℕ, zero, suc, ◌+◌, ◌<◌, Bool, ◌==◌, leb, List, [], ◌∷◌, ◌++◌, arith, if_keeps}
use joy.Text.Source.{Source, G, ungetch}
use joy.Text.Interpolate.{inner_string}
use joy.Text.Scan.{
  skip_space, skip_until, comment, in_word, string_chars, word_chars, after_word, goes_on, word,
  Word,
}
use joy.Text.Left.{left, Within, Within-mono, Within-bind, getch-bind, special-Within}

pub skip_space-Within :
    (f ch : ℕ) (s : Source) → left s < f → Within (suc (left s)) (skip_space f ch s)
unfolding skip_space
skip_space-Within zero ch s h = elim h [ ]
skip_space-Within (suc f) ch s h =
    if_keeps (Within _) (leb ch 32) _ _
      (λ p.
        getch-bind _ s _
          λ c t l. Within-mono _ _ _ (omega arith) (skip_space-Within f c t (omega arith)))
      (λ p. omega arith)

pub skip_until-Within :
    (f end ch : ℕ) (s : Source) → left s < f → Within (suc (left s)) (skip_until f end ch s)
unfolding skip_until
skip_until-Within zero end ch s h = elim h [ ]
skip_until-Within (suc f) end ch s h =
    if_keeps (Within _) (ch == end) _ _ (λ p. omega arith)
      (λ p.
        getch-bind _ s _
          λ c t l. Within-mono _ _ _ (omega arith) (skip_until-Within f end c t (omega arith)))

pub comment-Within :
    (f ch : ℕ) (s : Source) → left s + 1 < f → Within (suc (left s)) (comment f ch s)
unfolding comment
comment-Within zero ch s h = elim h [ ]
comment-Within (suc f) ch s h =
    Within-bind _ _ _ _ (skip_until-Within f 42 ch s (omega arith)) λ a t l.
      getch-bind _ t _ λ c u m.
        if_keeps (Within (suc (left s))) (c == 41) _ _ (λ p. omega arith)
          (λ p. Within-mono _ _ _ (omega arith) (comment-Within f c u (omega arith)))

pub string_chars-Within :
    (f ch : ℕ) (text : List ℕ) (s : Source)
    → left s < f
    → Within (suc (left s)) (string_chars f ch text s)
unfolding string_chars
string_chars-Within zero ch text s h = elim h [ ]
string_chars-Within (suc f) ch text s h =
    if_keeps (Within _) (ch == 34) _ _ (λ p. omega arith)
      (λ p.
        if_keeps (Within _) (ch == 92) _ _
          (λ q. Within-bind _ _ _ _ (special-Within s) λ c t l.
            getch-bind _ t _
              λ d u m. Within-mono _ _ _ (omega arith) (string_chars-Within f d _ u (omega arith)))
          (λ q.
            getch-bind _ s _
              λ d u m. Within-mono _ _ _ (omega arith) (string_chars-Within f d _ u (omega arith))))

pub word_chars-Within :
    (f ch : ℕ) (text : List ℕ) (s : Source)
    → left s < f
    → Within (suc (left s)) (word_chars f ch text s)
unfolding word_chars
word_chars-Within zero ch text s h = elim h [ ]
word_chars-Within (suc f) ch text s h =
    if_keeps (Within _) (in_word ch) _ _
      (λ p. getch-bind _ s _ λ c t l.
        Within-mono _ _ _ (omega arith) (word_chars-Within f c (text ++ (ch ∷ [])) t (omega arith)))
      (λ p. omega arith)

after_word-Within :
    (f : ℕ) (type : Bool) (ch : ℕ) (text : List ℕ) (s : Source)
    → left s < f
    → Within (suc (left s)) (after_word f type (ch, text) s)
unfolding after_word ungetch
after_word-Within f type ch text s h =
    if_keeps (Within _) (ch == 46) _ _
      (λ p. getch-bind _ s _ λ c t l.
        if_keeps (λ (g : G Word). Within (suc (left s)) (g t)) (goes_on type c) _ _
          (λ q.
            Within-bind _ _ _ _ (word_chars-Within f c (text ++ (46 ∷ [])) t (omega arith))
              λ a u m. omega arith)
          (λ q. omega arith))
      (λ p. omega arith)

pub word-Within :
    (f : ℕ) (before : List ℕ) (sign : ℕ) (s : Source)
    → left s < f
    → Within (left s) (word f before sign s)
unfolding word
word-Within f before sign s h = getch-bind _ s _ λ c t l.
    Within-bind _ _ _ _ (word_chars-Within f c (before ++ (sign ∷ [])) t (omega arith))
      λ a u m. Within-mono _ _ _ (omega arith) (after_word-Within f _ a.0 a.1 u (omega arith))

pub inner_string-Within :
    (f ch : ℕ) (text : List ℕ) (s : Source)
    → left s < f
    → Within (suc (left s)) (inner_string f ch text s)
unfolding inner_string
inner_string-Within zero ch text s h = elim h [ ]
inner_string-Within (suc f) ch text s h =
    if_keeps (Within _) (ch == 34) _ _ (λ p. omega arith)
      (λ p.
        if_keeps (Within _) (ch == 92) _ _
          (λ q. getch-bind _ s _ λ c t l.
            getch-bind _ t _
              λ d u m. Within-mono _ _ _ (omega arith) (inner_string-Within f d _ u (omega arith)))
          (λ q.
            getch-bind _ s _
              λ d u m. Within-mono _ _ _ (omega arith) (inner_string-Within f d _ u (omega arith))))
