-- ===== src/Text/Names.antt =====
-- The scanner at a name.
use joy.Prelude.{
  ℕ, suc, ◌≡◌, Bool, true, false, ◌==◌, ◌&&◌, List, [], ◌∷◌, ◌++◌, none, arith, ◌∙◌, refl,
}
use joy.Symbols.Names.{same, starts_with_digit}
use joy.Text.Chars.{codes, isdigit}
use joy.Text.Symbol.{Numbers, usr}
use joy.Text.Source.{Source, ok}
use joy.Text.Scan.{one, in_word, word, plain_word, identifier, keyword}
use joy.Text.Getch.{at}
use joy.Text.Words.{IsDelim, Scans, AllWord, visible_of, my_getsym-word}
use joy.Text.Numerals.{is_numeric, word-at, digit_word}

-- A name: characters of a word, of which the first is no digit and no `$`, not a minus sign before a
-- digit, and not a keyword.
pub record IsName (n : Numbers) (text : List ℕ) : Type 0 where
  pub first : ℕ
  pub rest : List ℕ
  pub starts : text ≡ first ∷ rest
  pub in_words : AllWord (first ∷ rest)
  pub no_digit : isdigit first ≡ false
  pub no_dollar : (first == 36) ≡ false
  pub no_minus : (first == 45) && starts_with_digit rest ≡ false
  pub no_keyword : keyword n (first ∷ rest) ≡ none

and-false : (b : Bool) → b && false ≡ false
and-false true = refl
and-false false = refl

delim_no_digit : (d : ℕ) → in_word d ≡ false → isdigit d ≡ false
delim_no_digit d h = ground (arith, digit_word d)

not_numeric :
    (c : ℕ) (w : List ℕ) (d : ℕ)
    → IsDelim d
    → isdigit c ≡ false
    → (c == 45) && starts_with_digit w ≡ false
    → is_numeric c w d ≡ false
not_numeric c [] d p h m = rw (h, delim_no_digit d p.no_word) (and-false (c == 45))
not_numeric c (e ∷ w) d p h m = rw h m

identifier-name :
    (n : Numbers) (s t : Source) (f c d : ℕ) (w : List ℕ) {type : Bool}
    → type ≡ false
    → (d == 91) ≡ false
    → word f [] c s ≡ ok (plain_word type (d, c ∷ w)) t
    → keyword n (c ∷ w) ≡ none
    → identifier n f [] c s ≡ ok (d, one (usr (c ∷ w))) t
unfolding identifier
identifier-name n s t f c d w numeric bracket scanned key = rw (
  scanned,
  numeric,
  key,
  bracket,
  and-false (same (c ∷ w) (codes "v")),
  and-false (same (c ∷ w) (codes "m")),
)

-- A name is scanned as it is written.
pub name-Scans : (n : Numbers) (text : List ℕ) → IsName n text → Scans n text (usr text)
name-Scans n text i = rw i.starts (record {
  first = i.first;
  rest = i.rest;
  starts = refl;
  visible = visible_of i.first i.in_words.0;
  reads = λ s f k d more p l.
      let scanned = word-at s i.rest (suc f) k i.first d more p i.in_words.1 (omega arith) in
      (
        scanned.0,
        my_getsym-word n (at s k (i.rest ++ (d ∷ more))) f i.first i.in_words.0 i.no_dollar
            ∙ identifier-name n (at s k (i.rest ++ (d ∷ more))) (at s scanned.0 more) (suc f)
                i.first d i.rest (not_numeric i.first i.rest d p i.no_digit i.no_minus) p.no_brack
                scanned.1 i.no_keyword,
      );
})
