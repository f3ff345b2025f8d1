-- ===== src/Text/Numerals.antt =====
-- The scanner at a word without full stop, and at the decimal numeral of an integer.
use joy.Prelude.{
  ℕ, zero, suc, ◌+◌, ◌/◌, ◌%◌, ◌<◌, ◌≡◌, refl, Bool, true, false, ◌==◌, ◌&&◌, ◌||◌, ltb, List, [],
  ◌∷◌, ◌++◌, drop, length, arith, ◌∙◌, if_keeps,
}
use joy.Prelude.Int.{ℤ, pos, negsuc, ◌-ℤ◌}
use joy.Word.{int64}
use joy.Word.Wrap.{int64_of_fits}
use joy.Symbols.Names.{decimal, digits, decimal-start, starts_with_digit}
use joy.Text.Chars.{isdigit}
use joy.Text.Symbol.{Numbers, integer}
use joy.Text.Source.{Source, ok}
use joy.Text.Scan.{one, in_word, word, after_word, plain_word, identifier, number_symbol}
use joy.Text.Writer.{number}
use joy.Text.Getch.{at, bump, getch-at}
use joy.Text.Words.{
  IsDelim, Scans, AllWord, no_line_of, visible_of, word_chars-at, word_chars-stop, my_getsym-word,
}

-- The character after the first
abbrev pub second : List ℕ → ℕ → ℕ
second [] d = d
second (e ∷ w) d = e

abbrev pub is_numeric : ℕ → List ℕ → ℕ → Bool
is_numeric c w d = isdigit c || (c == 45 && isdigit (second w d))

after_word-plain :
    (s : Source) (f : ℕ) (type : Bool) (d : ℕ) (text : List ℕ)
    → (d == 46) ≡ false
    → after_word f type (d, text) s ≡ ok (plain_word type (d, text)) s
unfolding after_word
after_word-plain s f type d text h = rw h

pub word-at :
    (s : Source) (w : List ℕ) (f k c d : ℕ) (more : List ℕ)
    → IsDelim d
    → AllWord w
    → length w < f
    → (k' : ℕ) × (word f [] c (at s k (w ++ (d ∷ more)))
        ≡ ok (plain_word (is_numeric c w d) (d, c ∷ w)) (at s k' more))
unfolding word
word-at s w zero k c d more p a l = elim l [ ]
word-at s [] (suc f) k c d more p a l = (
  bump k,
  rw (getch-at s k d more p.no_line, word_chars-stop (at s (bump k) more) f d (c ∷ []) p.no_word)
      (after_word-plain (at s (bump k) more) (suc f) (is_numeric c [] d) d (c ∷ []) p.no_stop),
)
word-at s (e ∷ w) (suc f) k c d more p a l =
    let tail = word_chars-at s w f (bump k) e d (c ∷ []) more p a.0 a.1 (omega arith) in
    (
      tail.0,
      rw (getch-at s k e (w ++ (d ∷ more)) (no_line_of e a.0), tail.1)
          (after_word-plain (at s tail.0 more) (suc f) (is_numeric c (e ∷ w) d) d (c ∷ e ∷ w)
            p.no_stop),
    )

pub digit_word : (c : ℕ) → isdigit c ≡ true → in_word c ≡ true
digit_word c h = ground arith

AllWord-append : (v w : List ℕ) → AllWord v → AllWord w → AllWord (v ++ w)
AllWord-append [] w p q = q
AllWord-append (c ∷ v) w p q = (p.0, AllWord-append v w p.1 q)

digits-AllWord : (fuel n : ℕ) → AllWord (digits fuel n)
unfolding digits
digits-AllWord zero n = tt
digits-AllWord (suc fuel) n =
    if_keeps AllWord (ltb n 10) ((n + 48) ∷ []) (digits fuel (n / 10) ++ ((n % 10 + 48) ∷ []))
      (λ p. (digit_word (n + 48) (ground arith), tt))
      (λ p.
        AllWord-append (digits fuel (n / 10)) _ (digits-AllWord fuel (n / 10))
          (digit_word (n % 10 + 48) (ground arith), tt))

-- A numeral is a digit and more characters of a word.
pub record Numeral (text : List ℕ) : Type 0 where
  pub first : ℕ
  pub rest : List ℕ
  pub starts : text ≡ first ∷ rest
  pub is_digit : isdigit first ≡ true
  pub in_words : AllWord rest

Numeral-of : (text : List ℕ) → starts_with_digit text ≡ true → AllWord text → Numeral text
Numeral-of [] h a = cc
Numeral-of (c ∷ w) h a = record { first = c; rest = w; starts = refl; is_digit = h; in_words = a.1 }

pub decimal-Numeral : (n : ℕ) → Numeral (decimal n)
unfolding decimal
decimal-Numeral n = Numeral-of (decimal n) (decimal-start n) (digits-AllWord (suc n) n)

drop-length : (text : List ℕ) → drop (length text) text ≡ []
drop-length [] = refl
drop-length (c ∷ text) = drop-length text

-- `strtoll` of the C library converts a decimal numeral that fits, and uses all of it.
abbrev pub ReadsDecimal : Numbers → Type 0
ReadsDecimal n =
    (m : ℕ) → m < 9223372036854775808 → n.strtoll (decimal m) ≡ (pos m, length (decimal m))

not_maxint : (m : ℕ) → m < 9223372036854775807 → (m == 9223372036854775807) ≡ false
not_maxint m h = ground arith

opposite : (m : ℕ) → pos 0 -ℤ pos (suc m) ≡ negsuc m
unfolding ◌-ℤ◌
opposite m = ground arith

negated : (m : ℕ) → suc m < 9223372036854775807 → int64 (pos 0 -ℤ pos (suc m)) ≡ negsuc m
negated m h = rw (opposite m) (int64_of_fits (negsuc m) (omega arith))

module _ (n : Numbers) (law : ReadsDecimal n) (m : ℕ) where
  number_symbol-pos :
      m < 9223372036854775807 → number_symbol n false false (decimal m) ≡ (integer (pos m), [])
  unfolding number_symbol
  number_symbol-pos h = rw (law m (omega arith), drop-length (decimal m), not_maxint m h)

  number_symbol-neg :
      suc m < 9223372036854775807
      → number_symbol n true false (45 ∷ decimal (suc m)) ≡ (integer (negsuc m), [])
  unfolding number_symbol
  number_symbol-neg h =
      rw (
        law (suc m) (omega arith),
        drop-length (decimal (suc m)),
        not_maxint (suc m) h,
        negated m h,
      )

-- The integers that the scanner reads as integers: INT64_MAX is read as a float.
abbrev pub IsShort : ℤ → Type 0
IsShort (pos m) = m < 9223372036854775807
IsShort (negsuc m) = suc m < 9223372036854775807

identifier-numeric :
    (n : Numbers) (s t : Source) (f c d : ℕ) (w : List ℕ) (z : ℤ) {type : Bool}
    → type ≡ true
    → word f [] c s ≡ ok (plain_word type (d, c ∷ w)) t
    → number_symbol n (c == 45) false (c ∷ w) ≡ (integer z, [])
    → identifier n f [] c s ≡ ok (d, one (integer z)) t
unfolding identifier
identifier-numeric n s t f c d w z numeric scanned converts = rw (scanned, numeric, converts)

-- A word that is a number is converted as a whole.
numeric-Scans :
    (n : Numbers) (c : ℕ) (w : List ℕ) (z : ℤ)
    → in_word c ≡ true
    → (c == 36) ≡ false
    → AllWord w
    → ((d : ℕ) → is_numeric c w d ≡ true)
    → number_symbol n (c == 45) false (c ∷ w) ≡ (integer z, [])
    → Scans n (c ∷ w) (integer z)
numeric-Scans n c w z q dollar a numeric converts = record {
  first = c;
  rest = w;
  starts = refl;
  visible = visible_of c q;
  reads = λ s f k d more p l.
      let scanned = word-at s w (suc f) k c d more p a (omega arith) in
      (
        scanned.0,
        my_getsym-word n (at s k (w ++ (d ∷ more))) f c q dollar
            ∙ identifier-numeric n (at s k (w ++ (d ∷ more))) (at s scanned.0 more) (suc f) c d w z
                (numeric d) scanned.1 converts,
      );
}

digit_numeric : (c : ℕ) (w : List ℕ) (d : ℕ) → isdigit c ≡ true → is_numeric c w d ≡ true
digit_numeric c w d h = rw h

pub digit_no_dollar : (c : ℕ) → isdigit c ≡ true → (c == 36) ≡ false
digit_no_dollar c h = ground arith

digit_no_minus : (c : ℕ) → isdigit c ≡ true → (c == 45) ≡ false
digit_no_minus c h = ground arith

-- An integer is scanned as it is written.
pub number-Scans :
    (n : Numbers) → ReadsDecimal n → (z : ℤ) → IsShort z → Scans n (number z) (integer z)
number-Scans n law (pos m) h =
    let t = decimal-Numeral m in
    rw t.starts (
      numeric-Scans n t.first t.rest (pos m) (digit_word t.first t.is_digit)
        (digit_no_dollar t.first t.is_digit) t.in_words
        (λ d. digit_numeric t.first t.rest d t.is_digit)
        (rw (digit_no_minus t.first t.is_digit, ← t.starts) (number_symbol-pos n law m h)))
number-Scans n law (negsuc m) h =
    let t = decimal-Numeral (suc m) in
    rw t.starts (
      numeric-Scans n 45 (t.first ∷ t.rest) (negsuc m) refl refl
        (digit_word t.first t.is_digit, t.in_words) (λ d. t.is_digit)
        (rw (← t.starts) (number_symbol-neg n law m h)))
