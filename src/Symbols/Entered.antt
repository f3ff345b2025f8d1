-- ===== src/Symbols/Entered.antt =====
-- The names that `qualify` tries, as the entering of a name changes what they find.
use joy.Prelude.{
  ℕ, zero, suc, ◌<◌, ◌≡◌, ◌≢◌, refl, Bool, true, false, ◌&&◌, ◌||◌, ltb, lt→ltb, if◌then◌else◌,
  List, [], ◌∷◌, ◌++◌, Option, none, some, Bool-cases, inl, inr, arith,
}
use joy.Symbols.Names.{same, same_self, has_dot, dotted, decimal, has_dot-dotted}
use joy.Symbols.Scope.{Scope, Module, top, classify, hidden_name, module_name}
use joy.Symbols.Table.{or_else, or_zero, limit, limit_of}
use joy.Symbols.Search.{find_first, section_names, member_names, ahead, candidates}

abbrev pub member : List ℕ → List (List ℕ) → Bool
member full [] = false
member full (c ∷ cs) = same full c || member full cs

abbrev all_dotted : List (List ℕ) → Bool
all_dotted [] = true
all_dotted (c ∷ cs) = has_dot c && all_dotted cs

pub member-middle : (full : List ℕ) (cs ds : List (List ℕ)) → member full (cs ++ (full ∷ ds)) ≡ true
member-middle full [] ds = rw (same_self full) refl
member-middle full (c ∷ cs) ds = elim (Bool-cases (same full c)) [
  | inl e ↦ rw e refl
  | inr e ↦ rw e (member-middle full cs ds)
]

member-append :
    (full : List ℕ) (cs ds : List (List ℕ)) → member full cs ≡ true → member full (cs ++ ds) ≡ true
member-append full [] ds p = cc
member-append full (c ∷ cs) ds p = elim (Bool-cases (same full c)) [
  | inl e ↦ rw e refl
  | inr e ↦ rw e (member-append full cs ds (rw e at p))
]

pub some_injective {ℓ} : {A : Type ℓ} {a b : A} → some a ≡ some b → a ≡ b
some_injective h = cc

-- A name that is put is found where it is tried, after names that the table does not have.
module _ (get got : List ℕ → Option ℕ) (full name : List ℕ) (i : ℕ)
    (put : (m : List ℕ) → got m ≡ (if same full m then some i else get m)) where
  pub find_first-put :
      (cs : List (List ℕ))
      → find_first get cs ≡ none
      → member full (cs ++ (name ∷ [])) ≡ true
      → find_first got (cs ++ (name ∷ [])) ≡ some i
  find_first-put [] h k = rw (put name) (step (same full name) k)
    where
      step : (e : Bool) → e || false ≡ true → or_else (if e then some i else get name) none ≡ some i
      step true p = refl
      step false p = cc
  find_first-put (c ∷ cs) h k =
      rw (put c) (step (same full c) (get c) h k (λ h k. find_first-put cs h k))
    where
      step :
          (e : Bool) (o : Option ℕ)
          → or_else o (find_first get cs) ≡ none
          → e || member full (cs ++ (name ∷ [])) ≡ true
          → (find_first get cs ≡ none
              → member full (cs ++ (name ∷ [])) ≡ true
              → find_first got (cs ++ (name ∷ [])) ≡ some i)
          → or_else (if e then some i else o) (find_first got (cs ++ (name ∷ []))) ≡ some i
      step true o p q r = refl
      step false none p q r = r p q
      step false (some j) p q r = cc

pub find_first-zero :
    (get : List ℕ → Option ℕ) (cs : List (List ℕ)) (name : List ℕ)
    → ((m : List ℕ) → has_dot m ≡ true → get m ≢ some 0)
    → all_dotted cs ≡ true
    → or_zero (find_first get (cs ++ (name ∷ []))) ≡ 0
    → find_first get cs ≡ none
find_first-zero get [] name h d z = refl
find_first-zero get (c ∷ cs) name h d z =
    step (has_dot c) (get c) (h c) d z (λ d z. find_first-zero get cs name h d z)
  where
    step :
        (e : Bool) (o : Option ℕ)
        → (e ≡ true → o ≢ some 0)
        → e && all_dotted cs ≡ true
        → or_zero (or_else o (find_first get (cs ++ (name ∷ [])))) ≡ 0
        → (all_dotted cs ≡ true
            → or_zero (find_first get (cs ++ (name ∷ []))) ≡ 0
            → find_first get cs ≡ none)
        → or_else o (find_first get cs) ≡ none
    step true none g p q r = r p q
    step true (some zero) g p q r = absurd (g refl refl)
    step true (some (suc j)) g p q r = absurd (omega (arith, q))
    step false o g p q r = cc

-- Every name that is tried before the plain one has a full stop.
all_dotted-append :
    (cs ds : List (List ℕ))
    → all_dotted cs ≡ true
    → all_dotted ds ≡ true
    → all_dotted (cs ++ ds) ≡ true
all_dotted-append [] ds p q = q
all_dotted-append (c ∷ cs) ds p q = ground (arith, all_dotted-append cs ds)

section_names-dotted :
    (name : List ℕ) (stack : ℕ → ℕ) (limit i : ℕ)
    → all_dotted (section_names name stack limit i) ≡ true
section_names-dotted name stack limit zero = refl
section_names-dotted name stack limit (suc i) = elim (Bool-cases (ltb limit (suc i))) [
  | inl e ↦
      rw (e, has_dot-dotted (decimal (stack i)) name) (section_names-dotted name stack limit i)
  | inr e ↦ rw e refl
]

member_names-dotted : (name : List ℕ) (m : Option Module) → all_dotted (member_names name m) ≡ true
member_names-dotted name none = refl
member_names-dotted name (some m) = rw (has_dot-dotted m.name name) refl

pub ahead-dotted : (s : Scope) (name : List ℕ) → all_dotted (ahead s name) ≡ true
ahead-dotted s name = elim (Bool-cases (has_dot name)) [
  | inl e ↦ rw e refl
  | inr e ↦ rw e (
      all_dotted-append (section_names name s.hide_stack (limit s) s.hide_index)
        (member_names name (top s.module_index s.module_stack))
        (section_names-dotted name s.hide_stack (limit s) s.hide_index)
        (member_names-dotted name (top s.module_index s.module_stack)))
]

-- A private section is in the reach of the active module.
abbrev pub InReach : Scope → Type 0
InReach s = s.inside_hide ≡ true → limit s < s.hide_index

-- The name that `classify` builds is one that `qualify` tries.
pub member-classify :
    (s : Scope) (name full : List ℕ)
    → InReach s
    → classify s name ≡ some full
    → member full (candidates s name) ≡ true
unfolding classify candidates
member-classify s name full r h =
    step (has_dot name) s.inside_hide s.hide_index (top s.module_index s.module_stack) r h
  where
    own : (cs : List (List ℕ)) (e : List ℕ) → e ≡ full → member full (cs ++ (e ∷ [])) ≡ true
    own cs e p = rw p (member-middle full cs [])

    step :
        (dot inside : Bool) (hi : ℕ) (m : Option Module)
        → (inside ≡ true → limit_of m < hi)
        → (if dot
            then some name
            else if inside
            then hidden_name name (top hi s.hide_stack)
            else some (module_name name m))
          ≡ some full
        → member full (
            (if dot
              then []
              else section_names name s.hide_stack (limit_of m) hi ++ member_names name m)
            ++ (name ∷ []))
          ≡ true
    step true inside hi m r h = own [] name (some_injective h)
    step false true zero m r h = absurd (omega (arith, r refl))
    step false true (suc i) m r h =
        rw (lt→ltb (limit_of m) (suc i) (r refl), some_injective h, same_self full) refl
    step false false hi none r h =
        own (section_names name s.hide_stack 0 hi ++ []) name (some_injective h)
    step false false hi (some m) r h =
        member-append full (section_names name s.hide_stack m.hide hi ++ (dotted m.name name ∷ []))
          (name ∷ [])
          (own (section_names name s.hide_stack m.hide hi) (dotted m.name name) (some_injective h))
