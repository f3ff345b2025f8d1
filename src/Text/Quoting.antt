-- ===== src/Text/Quoting.antt =====
-- The two writers quote each byte so that the scanner reads it, but for the backslash in src/write.c.
use joy.Prelude.{
  ℕ, ◌<◌, ◌≡◌, ◌≢◌, refl, true, false, ◌==◌, ◌&&◌, ◌||◌, leb, List, [], ◌∷◌, arith, if_keeps, ◌⊎◌,
  inl, inr,
}
use joy.Prelude.Int.{pos}
use joy.Word.{byte}
use joy.Text.Chars.{iscntrl}
use joy.Text.Writer.{char_text, byte_text, escape_letter, three_digits}
use joy.Text.Stringify.{stringify_char, stringify_byte}
use joy.Text.Quotes.{Quoted, plain, letter, digits}

eq_of_test : (a b : ℕ) → (a == b) ≡ true → b ≡ a
eq_of_test a b h = ground arith

-- The bytes that toString writes
abbrev pub IsByte : ℕ → Type 0
IsByte c = (0 < c) × (c < 256)

pub stringify_byte-Quoted : (c : ℕ) → Quoted 34 c (stringify_byte c)
unfolding stringify_byte
stringify_byte-Quoted c =
    if_keeps (Quoted 34 c) (c == 34) _ _ (λ p. letter 34 refl refl (eq_of_test c 34 p))
      (λ quote.
        if_keeps (Quoted 34 c) (c == 92) _ _ (λ p. letter 92 refl refl (eq_of_test c 92 p))
          (λ back.
            if_keeps (Quoted 34 c) (c == 10) _ _ (λ p. letter 110 refl refl (eq_of_test c 10 p))
              (λ line.
                if_keeps (Quoted 34 c) (c == 9) _ _ (λ p. letter 116 refl refl (eq_of_test c 9 p))
                  (λ tab. plain line back quote))))

byte_of : (n : ℕ) → n < 256 → byte (pos n) ≡ n
unfolding byte
byte_of n h = omega arith

pub stringify_char-Quoted : (n : ℕ) → IsByte n → Quoted 0 n (stringify_char (pos n))
unfolding stringify_char
stringify_char-Quoted n h = rw (byte_of n h.1) (
    if_keeps (Quoted 0 n) (n == 10) _ _ (λ p. letter 110 refl refl (eq_of_test n 10 p))
      (λ line.
        if_keeps (Quoted 0 n) (n == 9) _ _ (λ p. letter 116 refl refl (eq_of_test n 9 p))
          (λ tab.
            if_keeps (Quoted 0 n) (n == 92) _ _ (λ p. letter 92 refl refl (eq_of_test n 92 p))
              (λ back.
                if_keeps (Quoted 0 n) (n == 39) _ _ (λ p. letter 39 refl refl (eq_of_test n 39 p))
                  (λ quote. plain line back (ground arith))))))

-- The bytes that write.c writes as they can be read: no backslash
abbrev pub IsPlain : ℕ → Type 0
IsPlain c = (0 < c) × (c < 256) × (c ≢ 92)

-- The six letters
letters :
    (c : ℕ)
    → leb 8 c && leb c 13 ≡ true
    → (c ≡ 8) ⊎ (c ≡ 9) ⊎ (c ≡ 10) ⊎ (c ≡ 11) ⊎ (c ≡ 12) ⊎ (c ≡ 13)
letters c h = ground arith

letter-Quoted : (end c : ℕ) → leb 8 c && leb c 13 ≡ true → Quoted end c (92 ∷ escape_letter c ∷ [])
letter-Quoted end c h = elim (letters c h) [
  | inl e ↦ rw e (letter 98 refl refl refl)
  | inr (inl e) ↦ rw e (letter 116 refl refl refl)
  | inr (inr (inl e)) ↦ rw e (letter 110 refl refl refl)
  | inr (inr (inr (inl e))) ↦ rw e (letter 118 refl refl refl)
  | inr (inr (inr (inr (inl e)))) ↦ rw e (letter 102 refl refl refl)
  | inr (inr (inr (inr (inr e)))) ↦ rw e (letter 114 refl refl refl)
]

-- A control character has a small number.
control-small : (c : ℕ) → iscntrl c ≡ true → c < 1000
control-small c h = ground arith

blank-small : (c : ℕ) → iscntrl c || c == 32 ≡ true → c < 1000
blank-small c h = ground arith

other_line : (c : ℕ) → leb 8 c && leb c 13 ≡ false → (c == 10) ≡ false
other_line c h = ground arith

pub byte_text-Quoted : (c : ℕ) → c ≢ 92 → Quoted 34 c (byte_text c)
unfolding byte_text
byte_text-Quoted c h =
    if_keeps (Quoted 34 c) (c == 34) _ _ (λ p. letter 34 refl refl (eq_of_test c 34 p))
      (λ quote.
        if_keeps (Quoted 34 c) (leb 8 c && leb c 13) _ _ (λ p. letter-Quoted 34 c p)
          (λ space.
            if_keeps (Quoted 34 c) (iscntrl c) _ _ (λ p. digits (control-small c p))
              (λ control. plain (other_line c space) (ground arith) quote)))

pub char_text-Quoted :
    (n : ℕ) → IsPlain n → (t : List ℕ) × (char_text (pos n) ≡ 39 ∷ t) × Quoted 0 n t
unfolding char_text
char_text-Quoted n h = rw (byte_of n h.1) (
    if_keeps Starts (leb 8 n && leb n 13) _ _
      (λ p. (92 ∷ escape_letter n ∷ [], refl, letter-Quoted 0 n p))
      (λ space.
        if_keeps Starts (iscntrl n || n == 32) _ _
          (λ p. (92 ∷ three_digits n, refl, digits (blank-small n p)))
          (λ control. (n ∷ [], refl, plain (other_line n space) (ground arith) (ground arith)))))
  where
    Starts : List ℕ → Type 0
    Starts text = (t : List ℕ) × (text ≡ 39 ∷ t) × Quoted 0 n t
