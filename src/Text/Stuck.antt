-- ===== src/Text/Stuck.antt =====
-- A word that starts with `$` and a digit: the scanner never gets past it.
use joy.Prelude.{
  ℕ, zero, suc, ◌<◌, ◌≡◌, refl, true, false, ◌==◌, List, [], ◌∷◌, ◌++◌, length, arith, ap, ◌∙◌,
}
use joy.Prelude.Int.{pos}
use mathlib.Core.List.{append_assoc}
use joy.Text.Chars.{isdigit}
use joy.Text.Symbol.{Numbers, integer}
use joy.Text.Source.{Source, ok}
use joy.Text.Scan.{
  one, in_word, word_chars, after_word, word, plain_word, number_symbol, identifier, dollar,
  my_getsym,
}
use joy.Text.Words.{IsDelim, AllWord, word_chars-stop, my_getsym-other}
use joy.Text.Numerals.{digit_word}

-- The source with characters that are pushed back
abbrev pub pushed : Source → List ℕ → Source
pushed s text = record s { pushback = text }

word_chars-pushed :
    (s : Source) (w : List ℕ) (f c d : ℕ) (acc : List ℕ)
    → in_word d ≡ false
    → in_word c ≡ true
    → AllWord w
    → length w < f
    → word_chars (suc f) c acc (pushed s (w ++ (d ∷ []))) ≡ ok (d, acc ++ (c ∷ w)) (pushed s [])
unfolding word_chars
word_chars-pushed s w zero c d acc p q a l = elim l [ ]
word_chars-pushed s [] (suc f) c d acc p q a l =
    rw q (word_chars-stop (pushed s []) f d (acc ++ (c ∷ [])) p)
word_chars-pushed s (e ∷ w) (suc f) c d acc p q a l = rw q (
    word_chars-pushed s w f e d (acc ++ (c ∷ [])) p a.0 a.1 (omega arith)
    ∙ ap (λ t. ok (d, t) (pushed s [])) (append_assoc acc (c ∷ []) (e ∷ w)))

after_word-pushed :
    (s : Source) (f d : ℕ) (text : List ℕ)
    → (d == 46) ≡ false
    → after_word f true (d, text) s ≡ ok (plain_word true (d, text)) s
unfolding after_word
after_word-pushed s f d text h = rw h

word-pushed :
    (s : Source) (w : List ℕ) (f c d : ℕ)
    → IsDelim d
    → isdigit c ≡ true
    → AllWord w
    → length w < f
    → word f (36 ∷ []) c (pushed s (w ++ (d ∷ [])))
      ≡ ok (plain_word true (d, 36 ∷ c ∷ w)) (pushed s [])
unfolding word
word-pushed s w zero c d p q a l = elim l [ ]
word-pushed s [] (suc f) c d p q a l =
    rw (q, word_chars-stop (pushed s []) f d (36 ∷ c ∷ []) p.no_word)
      (after_word-pushed (pushed s []) (suc f) d (36 ∷ c ∷ []) p.no_stop)
word-pushed s (e ∷ w) (suc f) c d p q a l =
    rw (q, word_chars-pushed s w f e d (36 ∷ c ∷ []) p.no_word a.0 a.1 (omega arith))
      (after_word-pushed (pushed s []) (suc f) d (36 ∷ c ∷ e ∷ w) p.no_stop)

-- `strtoll` of the C library uses nothing of a text that starts with `$`, and returns 0.
abbrev pub RefusesDollar : Numbers → Type 0
RefusesDollar n = (text : List ℕ) → n.strtoll (36 ∷ text) ≡ (pos 0, 0)

module _ (n : Numbers) (law : RefusesDollar n) where
  number_symbol-dollar :
      (text : List ℕ) → number_symbol n false false (36 ∷ text) ≡ (integer (pos 0), 36 ∷ text)
  unfolding number_symbol
  number_symbol-dollar text = rw (law text)

  no_minus : (c : ℕ) → isdigit c ≡ true → (c == 45) ≡ false
  no_minus c h = ground arith

  identifier-pushed :
      (s : Source) (w : List ℕ) (f c d : ℕ)
      → IsDelim d
      → isdigit c ≡ true
      → AllWord w
      → length w < f
      → identifier n f (36 ∷ []) c (pushed s (w ++ (d ∷ [])))
        ≡ ok (36, one (integer (pos 0))) (pushed s (c ∷ (w ++ (d ∷ []))))
  unfolding identifier
  identifier-pushed s w f c d p q a l =
      rw (word-pushed s w f c d p q a l, no_minus c q, number_symbol-dollar (c ∷ w))

  no_quote : (c : ℕ) → isdigit c ≡ true → (c == 34) ≡ false
  no_quote c h = ground arith

  dollar-pushed :
      (s : Source) (w : List ℕ) (f c d : ℕ)
      → IsDelim d
      → isdigit c ≡ true
      → AllWord w
      → length w < f
      → dollar n f (pushed s (c ∷ (w ++ (d ∷ []))))
        ≡ ok (36, one (integer (pos 0))) (pushed s (c ∷ (w ++ (d ∷ []))))
  unfolding dollar
  dollar-pushed s w f c d p q a l =
      rw (digit_word c q, no_quote c q) (identifier-pushed s w f c d p q a l)

  -- Where `strtoll` uses nothing of a text that starts with `$`: at `$`, with a digit, more characters of
  -- a word and a delimiter pushed back, the scanner delivers the integer 0 and is at the same `$`, with
  -- the same characters pushed back. So each further call delivers 0 as well, and nothing is read.
  pub dollar_digit-stuck :
      (s : Source) (w : List ℕ) (f c d : ℕ)
      → IsDelim d
      → isdigit c ≡ true
      → AllWord w
      → length w < f
      → my_getsym n (suc (suc f)) 36 (pushed s (c ∷ (w ++ (d ∷ []))))
        ≡ ok (36, one (integer (pos 0))) (pushed s (c ∷ (w ++ (d ∷ []))))
  dollar_digit-stuck s w f c d p q a l =
      my_getsym-other n (pushed s (c ∷ (w ++ (d ∷ [])))) f 36 refl refl refl refl
      ∙ dollar-pushed s w (suc f) c d p q a (omega arith)
