-- ===== src/Text/Left.antt =====
-- Every character that is read makes the source shorter, so that the loops of the scanner end.
use joy.Prelude.{
  ℕ, zero, suc, ◌+◌, ◌*◌, ◌-◌, ◌<◌, ◌≤◌, Bool, ◌==◌, ◌&&◌, List, [], ◌∷◌, length, arith, if_keeps,
}
use joy.Text.Chars.{isdigit}
use joy.Text.Source.{
  Source, Include, Got, ok, quit, finclude, out_of_fuel, G, and_then, getch, getch_within, ungetch,
  error, special, more_digits, size, size_files, after_line, after_escape,
}

-- The characters and files that are left to read
abbrev pub left : Source → ℕ
left s = length s.pushback + size s

-- A reading that returns or ends the input, and leaves less than `n`
abbrev pub Within : {A : Type 0} → ℕ → Got A → Type 0
Within n (ok a s) = left s < n
Within n (quit s) = Unit
Within n (finclude s) = Unit
Within n out_of_fuel = ⊥

pub Within-mono : {A : Type 0} (m n : ℕ) (r : Got A) → m ≤ n → Within m r → Within n r
Within-mono m n (ok a s) l w = omega arith
Within-mono m n (quit s) l w = tt
Within-mono m n (finclude s) l w = tt
Within-mono m n out_of_fuel l w = w

pub Within-bind :
    {A B : Type 0} (m n : ℕ) (r : Got A) (k : A → Source → Got B)
    → Within m r
    → ((a : A) (s : Source) → left s < m → Within n (k a s))
    → Within n (and_then r k)
Within-bind m n (ok a s) k w h = h a s w
Within-bind m n (quit s) k w h = tt
Within-bind m n (finclude s) k w h = tt
Within-bind m n out_of_fuel k w h = w

length-after_line : (s : List ℕ) → length (after_line s) ≤ length s
length-after_line [] = omega arith
length-after_line (c ∷ s) =
    if_keeps (λ t. length t ≤ suc (length s)) (c == 10) _ _ (λ p. omega arith)
      (λ p. omega (arith, length-after_line s))

length-after_escape : (c : ℕ) (s : List ℕ) → length (after_escape (c ∷ s)) ≤ length s
length-after_escape c s = length-after_line s

abbrev source : List ℕ → List ℕ → List Include → ℕ → ℕ → Bool → ℕ → ℕ → Source
source pb src files n k busy m x = record {
  pushback = pb;
  srcfile = src;
  infile = files;
  linenum = n;
  linepos = k;
  finclude_busy = busy;
  messages = m;
  escapes = x;
}

getch_within-source :
    (f : ℕ) (pb src : List ℕ) (files : List Include) (n k : ℕ) (busy : Bool) (m x : ℕ)
    → length src + size_files files < f
    → Within
        (length pb + (length src + size_files files))
        (getch_within f (source pb src files n k busy m x))
unfolding getch_within
getch_within-source zero pb src files n k busy m x h = absurd (omega arith)
getch_within-source (suc f) (c ∷ pb) src files n k busy m x h = omega arith
getch_within-source (suc f) [] [] [] n k busy m x h = tt
getch_within-source (suc f) [] [] (i ∷ files) n k busy m x h =
    if_keeps (Within _) busy _ _ (λ p. tt)
      (λ p.
        Within-mono _ _ _ (omega arith)
          (getch_within-source f [] i.fp files i.line k busy m x (omega arith)))
getch_within-source (suc f) [] (c ∷ []) files n k busy m x h =
    if_keeps (Within _) (k == 0 && c == 36) _ _
      (λ p.
        Within-mono _ _ _ (omega arith)
          (getch_within-source f [] [] files n k busy m (x + 1) (omega arith)))
      (λ p. if_keeps (Within _) (c == 10) _ _ (λ q. omega arith) (λ q. omega arith))
getch_within-source (suc f) [] (c ∷ d ∷ src) files n k busy m x h =
    let shorter = length-after_escape d src in
    if_keeps (Within _) (k == 0 && c == 36) _ _
      (λ p.
        if_keeps (Within _) (d == 34) _ _ (λ q. omega arith)
          (λ q. Within-mono _ _ _ (omega arith) (
            getch_within-source f [] (after_escape (d ∷ src)) files n k busy m (x + 1)
              (omega arith))))
      (λ p. if_keeps (Within _) (c == 10) _ _ (λ q. omega arith) (λ q. omega arith))

pub getch-Within : (s : Source) → Within (left s) (getch s)
unfolding getch
getch-Within s =
    getch_within-source (suc (size s)) s.pushback s.srcfile s.infile s.linenum s.linepos
      s.finclude_busy s.messages s.escapes (omega arith)

-- The first character, and then the rest
pub getch-bind :
    {B : Type 0} (n : ℕ) (s : Source) (k : ℕ → Source → Got B)
    → ((c : ℕ) (t : Source) → left t < left s → Within n (k c t))
    → Within n (and_then (getch s) k)
getch-bind n s k h = Within-bind (left s) n (getch s) k (getch-Within s) h

more_digits-Within : (n num : ℕ) (s : Source) → Within (suc (left s)) (more_digits n num s)
unfolding more_digits error ungetch
more_digits-Within zero num s = omega arith
more_digits-Within (suc n) num s = getch-bind (suc (left s)) s _ λ c t l.
    if_keeps (λ (g : G ℕ). Within (suc (left s)) (g t)) (isdigit c) _ _
      (λ p. Within-mono _ _ _ (omega arith) (more_digits-Within n (10 * num + (c - 48)) t))
      (λ p. omega arith)

pub special-Within : (s : Source) → Within (left s) (special s)
unfolding special
special-Within s = getch-bind (left s) s _ λ c t l.
    if_keeps (λ (g : G ℕ). Within (left s) (g t)) (isdigit c) _ _
      (λ p. Within-mono _ _ _ (omega arith) (more_digits-Within 2 (c - 48) t)) (λ p. omega arith)
