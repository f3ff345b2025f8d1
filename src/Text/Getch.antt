-- ===== src/Text/Getch.antt =====
-- Reading from a source at whose line a character has been read, and to which none is pushed back.
use joy.Prelude.{
  ℕ, suc, ◌+◌, ◌-◌, ◌*◌, ◌<◌, ◌≡◌, true, false, ◌==◌, ltb, if◌then◌else◌, List, [], ◌∷◌, arith,
}
use joy.Text.Chars.{isdigit}
use joy.Text.Source.{
  Source, ok, getch, getch_within, special, more_digits, next_pos, inplinemax, escaped,
}

-- The source `s` with the text that is left; the position in the line is k + 1.
abbrev pub at : Source → ℕ → List ℕ → Source
at s k text = record s { pushback = []; srcfile = text; linepos = suc k }

abbrev pub bump : ℕ → ℕ
bump k = if ltb (suc k) inplinemax then suc k else k

next_pos-suc : (k : ℕ) → next_pos (suc k) ≡ suc (bump k)
next_pos-suc k = ground arith

not_first : (k : ℕ) → (suc k == 0) ≡ false
not_first k = ground arith

pub getch-at :
    (s : Source) (k c : ℕ) (rest : List ℕ)
    → (c == 10) ≡ false
    → getch (at s k (c ∷ rest)) ≡ ok c (at s (bump k) rest)
unfolding getch getch_within
getch-at s k c rest h = rw (not_first k, h, next_pos-suc k)

-- A character that starts no number
pub special-letter :
    (s : Source) (k c : ℕ) (rest : List ℕ)
    → (c == 10) ≡ false
    → isdigit c ≡ false
    → special (at s k (c ∷ rest)) ≡ ok (escaped c) (at s (bump k) rest)
unfolding special
special-letter s k c rest h d = rw (getch-at s k c rest h, d)

abbrev IsDigit : ℕ → Type 0
IsDigit c = (c == 10) ≡ false × (isdigit c ≡ true)

small-IsDigit : (n : ℕ) → n < 10 → IsDigit (n + 48)
small-IsDigit n h = (ground arith, ground arith)

value :
    (a b c : ℕ) → 10 * (10 * (a + 48 - 48) + (b + 48 - 48)) + (c + 48 - 48) ≡ 100 * a + 10 * b + c
value a b c = omega arith

-- The number of three digits
pub special-digits :
    (s : Source) (k a b c : ℕ) (rest : List ℕ)
    → a < 10
    → b < 10
    → c < 10
    → special (at s k ((a + 48) ∷ (b + 48) ∷ (c + 48) ∷ rest))
      ≡ ok (100 * a + 10 * b + c) (at s (bump (bump (bump k))) rest)
unfolding special more_digits
special-digits s k a b c rest p q r =
    rw
      (
        getch-at s k (a + 48) ((b + 48) ∷ (c + 48) ∷ rest) (small-IsDigit a p).0,
        (small-IsDigit a p).1,
        getch-at s (bump k) (b + 48) ((c + 48) ∷ rest) (small-IsDigit b q).0,
        (small-IsDigit b q).1,
        getch-at s (bump (bump k)) (c + 48) rest (small-IsDigit c r).0,
        (small-IsDigit c r).1,
      )
      (rw (value a b c))
