-- ===== src/Combinators/Restore.antt =====
-- `let` puts the bindings of its names back.
use mathlib.Core.List.{reverse}
use mathlib.Core.Path.{subst}
use joy.Prelude.{ℕ, zero, suc, ◌≡◌, refl, ap, ◌∙◌, List, [], ◌∷◌, Option, none, some}
use joy.Syntax.{Term, nil, ◌⊳◌, list, usr, anon_funct}
use joy.Machine.{Entry, Env, Outcome, ok, error, fault, out_of_fuel, and_then, M}
use joy.Machine.Macros.{macros}
use joy.Comparison.{get_symtab}
use joy.Aggregate.Variables.{modify_at}
use joy.Combinators.Let.{let_names, bound, set_symtab, entry_at, put_back, restore, bind_loop, let_}
use joy.Combinators.Reads.{on}

-- A property of the result and the state where a command returns.
abbrev pub Returns : {A : Type 0} → (A → Env → Type 0) → Outcome A → Type 0
Returns P (ok a e) = P a e
Returns P _ = Unit {0}

Returns-and_then :
    {A B : Type 0} (P : A → Env → Type 0) (Q : B → Env → Type 0) (r : Outcome A) (k : A → M B)
    → Returns P r
    → ((a : A) (e : Env) → P a e → Returns Q (k a e))
    → Returns Q (and_then r k)
Returns-and_then P Q (ok a e) k h f = f a e h
Returns-and_then P Q (error x e) k h f = tt
Returns-and_then P Q fault k h f = tt
Returns-and_then P Q out_of_fuel k h f = tt

abbrev undo : ℕ → Option Entry → List Entry → List Entry
undo i none t = t
undo i (some x) t = modify_at i (λ _. x) t

undo-modify_at :
    (i : ℕ) (f : Entry → Entry) (t : List Entry) → undo i (entry_at t i) (modify_at i f t) ≡ t
undo-modify_at i f [] = refl
undo-modify_at zero f (x ∷ t) = refl
undo-modify_at (suc i) f (x ∷ t) = under (entry_at t i) ∙ ap (λ t'. x ∷ t') (undo-modify_at i f t)
  where
    under :
        (o : Option Entry) → undo (suc i) o (x ∷ modify_at i f t) ≡ x ∷ undo i o (modify_at i f t)
    under none = refl
    under (some y) = refl

put_back-undo :
    (i : ℕ) (o : Option Entry) (kept : List (ℕ × Option Entry)) (t : List Entry)
    → put_back ((i, o) ∷ kept) t ≡ put_back kept (undo i o t)
put_back-undo i none kept t = refl
put_back-undo i (some x) kept t = refl

-- The symbol table `t` is the one that comes back.
abbrev Undoes : List Entry → List (ℕ × Option Entry) → Env → Type 0
Undoes t kept e = put_back kept e.symtab ≡ t

bind_loop-Undoes :
    (names : List ℕ) (kept : List (ℕ × Option Entry)) (e : Env) (s : Term)
    → Returns (Undoes (put_back kept e.symtab)) (bind_loop names kept (on e s))
unfolding bind_loop restore set_symtab get_symtab macros
bind_loop-Undoes [] kept e s = refl
bind_loop-Undoes (i ∷ names) kept e nil = tt
bind_loop-Undoes (i ∷ names) kept e (x ⊳ s) =
    let t : List Entry = modify_at i (bound x) e.symtab in
    subst
      (λ t'.
        Returns (Undoes t')
          (bind_loop names ((i, entry_at e.symtab i) ∷ kept) (record e { stck = s; symtab = t })))
      (put_back-undo i (entry_at e.symtab i) kept t
        ∙ ap (put_back kept) (undo-modify_at i (bound x) e.symtab))
      (bind_loop-Undoes names ((i, entry_at e.symtab i) ∷ kept) (record e { symtab = t }) s)

let_names-Returns : (t : Term) (e : Env) → Returns (λ names e'. e' ≡ e) (let_names t e)
unfolding let_names macros
let_names-Returns nil e = refl
let_names-Returns (usr i ⊳ t) e =
    Returns-and_then _ (λ names e'. e' ≡ e) (let_names t e) _ (let_names-Returns t e)
      (λ names e' h. h)
let_names-Returns (anon_funct _ ⊳ _) e = tt
let_names-Returns (_ ⊳ _) e = tt

-- Where the body leaves the symbol table as it finds it, so does `let`: when it returns, every name has
-- the entry that it had before, also if a name was bound twice.
pub let-restores :
    (exec : Term → M (Unit {0})) (e : Env) (body names s : Term)
    → ((e' : Env) → Returns (λ _ e''. e''.symtab ≡ e'.symtab) (exec body e'))
    → Returns (λ _ e''. e''.symtab ≡ e.symtab) (let_ exec (on e (list body ⊳ list names ⊳ s)))
unfolding let_ restore set_symtab get_symtab macros
let-restores exec e body names s h =
    let Same : (Unit {0} → Env → Type 0) = λ _ e''. e''.symtab ≡ e.symtab in
    Returns-and_then _ Same (let_names names (on e s)) _ (let_names-Returns names (on e s))
      λ ns e1 p.
        Returns-and_then (Undoes e1.symtab) Same (bind_loop (reverse ns) [] e1) _
          (bind_loop-Undoes (reverse ns) [] e1 e1.stck)
          λ kept e2 u.
            Returns-and_then (λ _ e3. e3.symtab ≡ e2.symtab) Same (exec body e2) _ (h e2)
              λ _ e3 w. ap (put_back kept) w ∙ u ∙ ap (λ e'. e'.symtab) p
