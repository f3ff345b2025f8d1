-- ===== src/Symbols/Names.antt =====
-- Names as the symbol table stores them: strings of bytes, with the C functions that the code uses on
-- them (strcmp as a test, strchr, snprintf with %d and with %s.%s).
use joy.Prelude.{
  ℕ, zero, suc, ◌+◌, ◌-◌, ◌*◌, ◌/◌, ◌%◌, ◌<◌, ◌≡◌, ◌≢◌, refl, ap, sym, ◌∙◌, Bool, true, false, ◌&&◌,
  ◌||◌, ◌==◌, ltb, leb, if◌then◌else◌, List, [], ◌∷◌, ◌++◌, arith,
}

-- strcmp(s, t) == 0
abbrev pub same : List ℕ → List ℕ → Bool
same [] [] = true
same [] (_ ∷ _) = false
same (_ ∷ _) [] = false
same (a ∷ s) (b ∷ t) = (a == b) && same s t

-- strchr(name, '.') != 0
abbrev pub has_dot : List ℕ → Bool
has_dot [] = false
has_dot (a ∷ s) = (a == 46) || has_dot s

-- snprintf(str, leng, "%s.%s", buf, name)
abbrev pub dotted : List ℕ → List ℕ → List ℕ
dotted buf name = buf ++ (46 ∷ name)

-- snprintf(temp, MAXNUM, "%d", n): `fuel` bounds the number of digits.
unfoldable pub digits : ℕ → ℕ → List ℕ
digits zero n = []
digits (suc fuel) n =
    let high = digits fuel (n / 10) in
    if ltb n 10 then (n + 48) ∷ [] else high ++ ((n % 10 + 48) ∷ [])

unfoldable pub decimal : ℕ → List ℕ
unfolding digits
decimal n = digits (suc n) n

pub same_self : (s : List ℕ) → same s s ≡ true
same_self [] = refl
same_self (a ∷ s) = ground (arith, same_self s)

pub eq_of_same : (s t : List ℕ) → same s t ≡ true → s ≡ t
eq_of_same [] [] h = refl
eq_of_same [] (b ∷ t) h = cc
eq_of_same (a ∷ s) [] h = cc
eq_of_same (a ∷ s) (b ∷ t) h = λ i. heads (a == b) refl h i ∷ eq_of_same s t (tails (a == b) h) i
  where
    tails : (e : Bool) → e && same s t ≡ true → same s t ≡ true
    tails true h = h
    tails false h = cc

    heads : (e : Bool) → (a == b) ≡ e → e && same s t ≡ true → a ≡ b
    heads true p h = ground (arith, p)
    heads false p h = cc

pub not-same : (s t : List ℕ) → s ≢ t → same s t ≡ false
not-same s t h = decided (same s t) refl
  where
    decided : (b : Bool) → same s t ≡ b → b ≡ false
    decided true p = absurd (h (eq_of_same s t p))
    decided false p = refl

pub has_dot-dotted : (buf name : List ℕ) → has_dot (dotted buf name) ≡ true
has_dot-dotted [] name = refl
has_dot-dotted (a ∷ buf) name = ground (arith, has_dot-dotted buf name)

-- The first byte is a digit, as that of no module name is.
abbrev pub starts_with_digit : List ℕ → Bool
starts_with_digit [] = false
starts_with_digit (a ∷ s) = leb 48 a && leb a 57

abbrev pub value : ℕ → List ℕ → ℕ
value n [] = n
value n (d ∷ s) = value (10 * n + (d - 48)) s

value-append : (n : ℕ) (s t : List ℕ) → value n (s ++ t) ≡ value (value n s) t
value-append n [] t = refl
value-append n (d ∷ s) t = value-append (10 * n + (d - 48)) s t

value-digits : (fuel n : ℕ) → n < fuel → value 0 (digits fuel n) ≡ n
unfolding digits
value-digits zero n h = absurd (omega arith)
value-digits (suc fuel) n h = last (ltb n 10) refl (λ p. value-digits fuel (n / 10) p)
  where
    last :
        (b : Bool)
        → ltb n 10 ≡ b
        → (n / 10 < fuel → value 0 (digits fuel (n / 10)) ≡ n / 10)
        → value 0 (if b then (n + 48) ∷ [] else digits fuel (n / 10) ++ ((n % 10 + 48) ∷ [])) ≡ n
    last true p r = ground arith
    last false p r =
        rw (value-append 0 (digits fuel (n / 10)) ((n % 10 + 48) ∷ []), r (ground arith))
          (omega arith)

pub value-decimal : (n : ℕ) → value 0 (decimal n) ≡ n
unfolding decimal
value-decimal n = value-digits (suc n) n (omega arith)

pub decimal-injective : (m n : ℕ) → decimal m ≡ decimal n → m ≡ n
unfolding decimal
decimal-injective m n h =
    sym (value-digits (suc m) m (omega arith))
    ∙ ap (value 0) h
    ∙ value-digits (suc n) n (omega arith)

-- A digit is no full stop.
append-no_dot :
    (s : List ℕ) (d : ℕ) → has_dot s ≡ false → has_dot (s ++ ((d % 10 + 48) ∷ [])) ≡ false
append-no_dot [] d h = ground arith
append-no_dot (a ∷ s) d h = rest (a == 46) h (λ p. append-no_dot s d p)
  where
    rest :
        (e : Bool)
        → e || has_dot s ≡ false
        → (has_dot s ≡ false → has_dot (s ++ ((d % 10 + 48) ∷ [])) ≡ false)
        → e || has_dot (s ++ ((d % 10 + 48) ∷ [])) ≡ false
    rest true p r = p
    rest false p r = r p

digits-no_dot : (fuel n : ℕ) → has_dot (digits fuel n) ≡ false
unfolding digits
digits-no_dot zero n = refl
digits-no_dot (suc fuel) n = last (ltb n 10) refl (digits-no_dot fuel (n / 10))
  where
    last :
        (b : Bool)
        → ltb n 10 ≡ b
        → has_dot (digits fuel (n / 10)) ≡ false
        → has_dot (if b then (n + 48) ∷ [] else digits fuel (n / 10) ++ ((n % 10 + 48) ∷ []))
          ≡ false
    last true p r = ground arith
    last false p r = append-no_dot (digits fuel (n / 10)) n r

pub decimal-no_dot : (n : ℕ) → has_dot (decimal n) ≡ false
unfolding decimal
decimal-no_dot n = digits-no_dot (suc n) n

-- What stands before the first full stop is the prefix.
abbrev prefix : List ℕ → List ℕ
prefix [] = []
prefix (a ∷ s) = if a == 46 then [] else a ∷ prefix s

abbrev suffix : List ℕ → List ℕ
suffix [] = []
suffix (a ∷ s) = if a == 46 then s else suffix s

prefix-dotted : (buf name : List ℕ) → has_dot buf ≡ false → prefix (dotted buf name) ≡ buf
prefix-dotted [] name h = refl
prefix-dotted (a ∷ buf) name h = step (a == 46) h (λ p. prefix-dotted buf name p)
  where
    step :
        (e : Bool)
        → e || has_dot buf ≡ false
        → (has_dot buf ≡ false → prefix (dotted buf name) ≡ buf)
        → (if e then [] else a ∷ prefix (dotted buf name)) ≡ a ∷ buf
    step true p r = cc
    step false p r = ap (λ s. a ∷ s) (r p)

suffix-dotted : (buf name : List ℕ) → has_dot buf ≡ false → suffix (dotted buf name) ≡ name
suffix-dotted [] name h = refl
suffix-dotted (a ∷ buf) name h = step (a == 46) h (λ p. suffix-dotted buf name p)
  where
    step :
        (e : Bool)
        → e || has_dot buf ≡ false
        → (has_dot buf ≡ false → suffix (dotted buf name) ≡ name)
        → (if e then dotted buf name else suffix (dotted buf name)) ≡ name
    step true p r = cc
    step false p r = r p

module _ (buf other name found : List ℕ) (p : has_dot buf ≡ false) (q : has_dot other ≡ false)
    (h : dotted buf name ≡ dotted other found) where
  pub dotted-prefix : buf ≡ other
  dotted-prefix = sym (prefix-dotted buf name p) ∙ ap prefix h ∙ prefix-dotted other found q

  pub dotted-suffix : name ≡ found
  dotted-suffix = sym (suffix-dotted buf name p) ∙ ap suffix h ∙ suffix-dotted other found q

-- A number starts with a digit.
digits-start : (fuel n : ℕ) → starts_with_digit (digits (suc fuel) n) ≡ true
unfolding digits
digits-start zero n = last (ltb n 10) refl
  where
    last :
        (b : Bool)
        → ltb n 10 ≡ b
        → starts_with_digit (if b then (n + 48) ∷ [] else [] ++ ((n % 10 + 48) ∷ [])) ≡ true
    last true p = ground arith
    last false p = ground arith
digits-start (suc fuel) n = last (ltb n 10) refl (digits-start fuel (n / 10))
  where
    after : (s t : List ℕ) → starts_with_digit s ≡ true → starts_with_digit (s ++ t) ≡ true
    after [] t h = cc
    after (a ∷ s) t h = h

    last :
        (b : Bool)
        → ltb n 10 ≡ b
        → starts_with_digit (digits (suc fuel) (n / 10)) ≡ true
        → starts_with_digit
            (if b then (n + 48) ∷ [] else digits (suc fuel) (n / 10) ++ ((n % 10 + 48) ∷ []))
          ≡ true
    last true p r = ground arith
    last false p r = after (digits (suc fuel) (n / 10)) _ r

pub decimal-start : (n : ℕ) → starts_with_digit (decimal n) ≡ true
unfolding decimal
decimal-start n = digits-start n n
