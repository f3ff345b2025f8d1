-- ===== src/Symbols/Nesting.antt =====
-- Sections within sections and modules: what the operations of src/module.c restore.
use joy.Prelude.{
  sym, ap, [], ◌∷◌, ◌++◌, true-false, if_keeps, ℕ, suc, ◌-◌, ◌≤◌, ◌<◌, ◌≡◌, refl, ◌∙◌, Bool, true,
  false, ◌==◌, if◌then◌else◌, List, none, some, arith,
}
use mathlib.Core.Path.{subst}
use joy.Symbols.Entered.{some_injective}
use joy.Symbols.Names.{has_dot}
use joy.Symbols.Scope.{
  Scope, display_max, store, initmod, initpriv, stoppriv, exitpriv, exitmod, classify, top,
}

-- One operation of a scope
pub data Step : Scope → Scope → Type 0 where
  start_module : (name : List ℕ) (s t : Scope) → initmod name s ≡ some t → Step s t
  start_private : (s t : Scope) → initpriv s ≡ some t → Step s t
  start_public : (s : Scope) → Step s (stoppriv s)
  end_private : (s : Scope) → Step s (exitpriv s)
  end_module : (s : Scope) → Step s (exitmod s)

-- The stacks are not left, and no open section has a number that is still to be given.
pub record Fits (s : Scope) : Type 0 where
  pub hides : s.hide_index ≤ display_max
  pub modules : s.module_index ≤ display_max
  pub numbers : (i : ℕ) → i < s.hide_index → s.hide_stack i ≤ s.hide_count

-- An operation that may report an error
pub some_keeps :
    {A : Type 0} (P : A → Type 0) (b : Bool) (x t : A)
    → (if b then none else some x) ≡ some t
    → (b ≡ false → P x)
    → P t
some_keeps P true x t p h = cc
some_keeps P false x t p h = subst P (some_injective p) (h refl)

exitpriv-Fits : (s : Scope) → Fits s → Fits (exitpriv s)
unfolding exitpriv
exitpriv-Fits s w =
    if_keeps Fits s.been_inside _ _
      (λ e. record {
        hides = omega (arith, w.hides);
        modules = w.modules;
        numbers = λ i l. w.numbers i (omega (arith, l));
      })
      (λ e. w)

-- Each of initmod, initpriv, stoppriv, exitpriv and exitmod, where it gives no message, keeps the
-- indices of both stacks within DISPLAYMAX, and the numbers of the open sections at most the number given
-- last, where they are so before. (undomod, which puts saved indices back, is not among them.)
pub Step-Fits : (s t : Scope) → Step s t → Fits s → Fits t
unfolding initmod initpriv stoppriv exitmod
Step-Fits s t (start_module name _ _ p) w =
    some_keeps Fits (s.module_index == display_max) _ t p
      λ e. record { hides = w.hides; modules = ground (arith, e, w.modules); numbers = w.numbers }
Step-Fits s t (start_private _ _ p) w = some_keeps Fits (s.hide_index == display_max) _ t p λ e.
    record {
      hides = ground (arith, e, w.hides);
      modules = w.modules;
      numbers = λ i l.
          if_keeps (λ v. v ≤ suc s.hide_count) (i == s.hide_index) _ _ (λ _. omega arith)
            (λ n. omega (arith, w.numbers i (ground (arith, l, n))));
    }
Step-Fits s t (start_public _) w = record {
  hides = w.hides;
  modules = w.modules;
  numbers = w.numbers;
}
Step-Fits s t (end_private _) w = exitpriv-Fits s w
Step-Fits s t (end_module _) w =
    let popped = record s { module_index = s.module_index - 1 } in
    let fits : Fits popped = record {
      hides = w.hides;
      modules = omega (arith, w.modules);
      numbers = w.numbers;
    } in
    if_keeps Fits (popped.module_index == 0) _ _ (λ _. exitpriv-Fits popped fits) (λ _. fits)

-- The definitions between two states: private sections with a private and a public part, of which
-- the public one has neither a section nor a module of its own, and modules, each with what stands in it.
pub data Runs : Scope → Scope → Type 0 where
  done : (s : Scope) → Runs s s
  section :
      (s t u v : Scope) → initpriv s ≡ some t → Runs t u → Runs (exitpriv (stoppriv u)) v → Runs s v
  module_ :
      (name : List ℕ) (s t u v : Scope)
      → initmod name s ≡ some t
      → Runs t u
      → Runs (exitmod u) v
      → Runs s v

-- The stacks are as they were, up to what was pushed on them and popped.
pub record Restored (s t : Scope) : Type 0 where
  pub hides : t.hide_index ≡ s.hide_index
  pub modules : t.module_index ≡ s.module_index
  pub outside : t.been_inside ≡ false
  pub count : s.hide_count ≤ t.hide_count
  pub numbers : (i : ℕ) → i < s.hide_index → t.hide_stack i ≡ s.hide_stack i
  pub names : (i : ℕ) → i < s.module_index → t.module_stack i ≡ s.module_stack i

Restored-trans : (s t u : Scope) → Restored s t → Restored t u → Restored s u
Restored-trans s t u v w = record {
  hides = w.hides ∙ v.hides;
  modules = w.modules ∙ v.modules;
  outside = w.outside;
  count = omega (arith, v.count, w.count);
  numbers = λ i l. w.numbers i (omega (arith, v.hides)) ∙ v.numbers i l;
  names = λ i l. w.names i (omega (arith, v.modules)) ∙ v.names i l;
}

pub store_below : {A : Type 0} (f : ℕ → A) (k : ℕ) (v : A) (i : ℕ) → i < k → store f k v i ≡ f i
store_below f k v i l =
    if_keeps (λ x. x ≡ f i) (i == k) _ _ (λ e. absurd (ground (arith, e, l))) (λ _. refl)

pub store_self : {A : Type 0} (f : ℕ → A) (k : ℕ) (v : A) → store f k v k ≡ v
store_self f k v = if_keeps (λ x. x ≡ v) (k == k) _ _ (λ _. refl) (λ e. absurd (ground (arith, e)))

-- A section around definitions that restore the stacks restores them.
section-Restored :
    (s t u : Scope)
    → initpriv s ≡ some t
    → (t.been_inside ≡ s.been_inside → Restored t u)
    → Restored s (exitpriv (stoppriv u))
unfolding initpriv stoppriv exitpriv
section-Restored s t u p r =
    some_keeps
      (λ t. (t.been_inside ≡ s.been_inside → Restored t u) → Restored s (exitpriv (stoppriv u)))
      (s.hide_index == display_max) _ t p
      (λ e r.
        let v = r refl in
        record {
          hides = omega (arith, v.hides);
          modules = v.modules;
          outside = refl;
          count = omega (arith, v.count);
          numbers = λ i l. v.numbers i (omega (arith, l)) ∙ store_below s.hide_stack _ _ i l;
          names = v.names;
        })
      r

module-Restored :
    (name : List ℕ) (s t u : Scope)
    → initmod name s ≡ some t
    → (t.been_inside ≡ s.been_inside → Restored t u)
    → Restored s (exitmod u)
unfolding initmod exitmod exitpriv
module-Restored name s t u p r =
    some_keeps (λ t. (t.been_inside ≡ s.been_inside → Restored t u) → Restored s (exitmod u))
      (s.module_index == display_max) _ t p
      (λ e r.
        let v = r refl in
        let popped : Restored s (record u { module_index = u.module_index - 1 }) = record {
          hides = v.hides;
          modules = omega (arith, v.modules);
          outside = v.outside;
          count = v.count;
          numbers = v.numbers;
          names = λ i l. v.names i (omega (arith, l)) ∙ store_below s.module_stack _ _ i l;
        } in
        if_keeps (Restored s) ((u.module_index - 1) == 0) _ _
          (λ _.
            if_keeps (Restored s) u.been_inside _ _ (λ b. absurd (true-false b v.outside))
              (λ _. popped))
          (λ _. popped))
      r

-- The numbers that private sections get, in the order in which the sections start
abbrev pub given : {s t : Scope} → Runs s t → List ℕ
given (done _) = []
given (section _ t _ _ _ inner rest) = t.hide_stack (t.hide_index - 1) ∷ (given inner ++ given rest)
given (module_ _ _ _ _ _ _ inner rest) = given inner ++ given rest

-- Numbers that ascend, the first above `low` and the last at most `high`
abbrev pub Ascending : ℕ → List ℕ → ℕ → Type 0
Ascending low [] high = low ≤ high
Ascending low (x ∷ xs) high = (low < x) × Ascending x xs high

append-Ascending :
    (low mid high : ℕ) (xs ys : List ℕ)
    → Ascending low xs mid
    → Ascending mid ys high
    → Ascending low (xs ++ ys) high
append-Ascending low mid high [] [] a b = omega (arith, a, b)
append-Ascending low mid high [] (y ∷ ys) a b = (omega (arith, a, b.0), b.1)
append-Ascending low mid high (x ∷ xs) ys a b = (a.0, append-Ascending x mid high xs ys a.1 b)

-- The number of a new section is the next one, and it is the number given last.
initpriv-number :
    (s t : Scope)
    → initpriv s ≡ some t
    → (t.hide_stack (t.hide_index - 1) ≡ suc s.hide_count) × (t.hide_count ≡ suc s.hide_count)
unfolding initpriv
initpriv-number s t p =
    some_keeps
      (λ t.
        (t.hide_stack (t.hide_index - 1) ≡ suc s.hide_count) × (t.hide_count ≡ suc s.hide_count))
      (s.hide_index == display_max) _ t p
      (λ e. (
        ap (store s.hide_stack s.hide_index (suc s.hide_count)) (omega arith)
            ∙ store_self s.hide_stack s.hide_index (suc s.hide_count),
        refl,
      ))

initmod-count :
    (name : List ℕ) (s t : Scope) → initmod name s ≡ some t → t.hide_count ≡ s.hide_count
unfolding initmod
initmod-count name s t p =
    some_keeps (λ t. t.hide_count ≡ s.hide_count) (s.module_index == display_max) _ t p (λ e. refl)

exitpriv-count : (s : Scope) → (exitpriv s).hide_count ≡ s.hide_count
unfolding exitpriv
exitpriv-count s =
    if_keeps (λ (t : Scope). t.hide_count ≡ s.hide_count) s.been_inside _ _ (λ _. refl) (λ _. refl)

stoppriv-count : (s : Scope) → (exitpriv (stoppriv s)).hide_count ≡ s.hide_count
unfolding stoppriv
stoppriv-count s = exitpriv-count (stoppriv s)

exitmod-count : (s : Scope) → (exitmod s).hide_count ≡ s.hide_count
unfolding exitmod
exitmod-count s =
    let popped = record s { module_index = s.module_index - 1 } in
    if_keeps (λ (t : Scope). t.hide_count ≡ s.hide_count) (popped.module_index == 0) _ _
      (λ _. exitpriv-count popped) (λ _. refl)

given-Ascending : (s t : Scope) (r : Runs s t) → Ascending s.hide_count (given r) t.hide_count
given-Ascending s t (done _) = omega arith
given-Ascending s t (section _ m u _ p inner rest) =
    let (number, count) = initpriv-number s m p in
    let within = given-Ascending m u inner in
    let after =
      subst (λ c. Ascending c (given rest) t.hide_count) (stoppriv-count u)
        (given-Ascending (exitpriv (stoppriv u)) t rest) in
    (
      omega (arith, number),
      subst (λ c. Ascending c (given inner ++ given rest) t.hide_count) (count ∙ sym number)
          (append-Ascending m.hide_count u.hide_count t.hide_count (given inner) (given rest) within
            after),
    )
given-Ascending s t (module_ name _ m u _ p inner rest) =
    let within =
      subst (λ c. Ascending c (given inner) u.hide_count) (initmod-count name s m p)
        (given-Ascending m u inner) in
    append-Ascending s.hide_count u.hide_count t.hide_count (given inner) (given rest) within (
      subst (λ c. Ascending c (given rest) t.hide_count) (exitmod-count u)
        (given-Ascending (exitmod u) t rest))

Runs-same : (s t : Scope) → Runs s t → s.been_inside ≡ false → Restored s t
Runs-same s t (done _) b = record {
  hides = refl;
  modules = refl;
  outside = b;
  count = omega arith;
  numbers = λ i l. refl;
  names = λ i l. refl;
}
Runs-same s t (section _ m u _ p inner rest) b =
    let around = section-Restored s m u p (λ e. Runs-same m u inner (e ∙ b)) in
    Restored-trans s (exitpriv (stoppriv u)) t around
      (Runs-same (exitpriv (stoppriv u)) t rest around.outside)
Runs-same s t (module_ name _ m u _ p inner rest) b =
    let around = module-Restored name s m u p (λ e. Runs-same m u inner (e ∙ b)) in
    Restored-trans s (exitmod u) t around (Runs-same (exitmod u) t rest around.outside)

-- Definitions leave the sections and the modules that are open as they found them, with their numbers
-- and names; and the numbers that their private sections get ascend, above the number given last before,
-- so that no number is given twice. This is where no section is between its private and public part, the
-- public parts have neither sections nor modules, and no message of a full stack is given.
pub Runs-Restored :
    (s t : Scope) (r : Runs s t)
    → s.been_inside ≡ false
    → Restored s t × Ascending s.hide_count (given r) t.hide_count
Runs-Restored s t r b = (Runs-same s t r b, given-Ascending s t r)

pub initpriv-indices :
    (s t : Scope)
    → initpriv s ≡ some t
    → (t.hide_index ≡ suc s.hide_index) × (t.module_index ≡ s.module_index)
unfolding initpriv
initpriv-indices s t p =
    some_keeps (λ t. (t.hide_index ≡ suc s.hide_index) × (t.module_index ≡ s.module_index))
      (s.hide_index == display_max) _ t p (λ e. (refl, refl))

-- A section within the public part of another: when both have ended, the outer one is still open.
pub exitpriv-nested :
    (s t u : Scope)
    → initpriv s ≡ some t
    → initpriv (stoppriv t) ≡ some u
    → (exitpriv (exitpriv (stoppriv u))).hide_index ≡ suc s.hide_index
unfolding initpriv stoppriv exitpriv
exitpriv-nested s t u p q =
    let (outer, _) = initpriv-indices s t p in
    let (inner, _) = initpriv-indices (stoppriv t) u q in omega (arith, outer, inner)

-- A section within the private part of another: the names that follow it there are entered without
-- the number of the section, as public names are, although the private part has not ended.
pub classify-nested :
    (s t u : Scope) (name : List ℕ)
    → s.module_index ≡ 0
    → initpriv s ≡ some t
    → initpriv t ≡ some u
    → (classify (exitpriv (stoppriv u)) name ≡ some name)
      × ((exitpriv (stoppriv u)).hide_index ≡ suc s.hide_index)
unfolding initpriv stoppriv exitpriv classify
classify-nested s t u name m p q =
    let (outer, same_module) = initpriv-indices s t p in
    let (inner, still) = initpriv-indices t u q in
    let outside : top u.module_index u.module_stack ≡ none = rw (still ∙ same_module ∙ m) refl in
    (
      if_keeps (λ o. o ≡ some name) (has_dot name) _ _ (λ _. refl) (λ _. rw outside refl),
      omega (arith, outer, inner),
    )
