-- ===== src/Aggregate/Bounds.antt =====
-- `take` and `drop` cut an aggregate in two, and the index of `at` is an `int`.
use joy.Prelude.{
  ltb, if◌then◌else◌, ℕ, zero, suc, ◌+◌, ◌<◌, ◌≡◌, refl, ap, ◌∙◌, Bool, true, false, arith,
}
use joy.Prelude.Int.{ℤ, pos}
use joy.Word.{int32}
use joy.Word.Wrap.{int32_of_fits}
use joy.Syntax.{Factor, Term, nil, ◌⊳◌, integer, list, append, node}
use joy.Machine.{Error, error, Env, ok}
use joy.Combinators.Reads.{on}
use joy.Aggregate.{
  aggregate_code, take, drop, at, take_list, drop_list, size_of, at_index, nth_node,
}

append-take-drop : (n : ℕ) (t : Term) → append (take_list n t) (drop_list n t) ≡ t
append-take-drop zero t = refl
append-take-drop (suc n) nil = refl
append-take-drop (suc n) (x ⊳ t) = ap (λ t'. x ⊳ t') (append-take-drop n t)

-- For an index that an `int` holds, `take` and `drop` leave two parts of a list of which the list is
-- the concatenation.
pub take-drop :
    (e : Env) (n : ℕ) (t s : Term)
    → n < 2147483648
    → (front : Term) × (back : Term) × take (on e (integer (pos n) ⊳ list t ⊳ s))
        ≡ ok tt (on e (list front ⊳ s))
      × drop (on e (integer (pos n) ⊳ list t ⊳ s)) ≡ ok tt (on e (list back ⊳ s))
      × append front back ≡ t
unfolding aggregate_code
take-drop e n t s h = (
  take_list n t,
  drop_list n t,
  rw (int32_of_fits (pos n) h) refl,
  rw (int32_of_fits (pos n) h) refl,
  append-take-drop n t,
)

-- Whether a chain has a node at an index; the first is taken for granted.
abbrev has_index : ℕ → Term → Bool
has_index zero t = true
has_index (suc n) nil = false
has_index (suc n) (x ⊳ nil) = false
has_index (suc n) (x ⊳ y ⊳ t) = has_index n (y ⊳ t)

has_index_lem : (n : ℕ) (x : Factor) (t : Term) → has_index n (x ⊳ t) ≡ ltb n (size_of (x ⊳ t))
has_index_lem zero x t = ground arith
has_index_lem (suc n) x nil = ground arith
has_index_lem (suc n) x (y ⊳ t) = ground (arith, has_index_lem n y t)

nth_node-drop :
    (e : Env) (n : ℕ) (t s : Term) (x y : Factor)
    → nth_node n t (on e (x ⊳ y ⊳ s)) ≡ (
        if has_index n t
        then ok tt (on e (node (drop_list n t) ⊳ s))
        else error Error.smaller_index (on e (x ⊳ y ⊳ s)))
unfolding aggregate_code
nth_node-drop e zero t s x y = refl
nth_node-drop e (suc n) nil s x y = refl
nth_node-drop e (suc n) (z ⊳ nil) s x y = refl
nth_node-drop e (suc n) (z ⊳ w ⊳ t) s x y = nth_node-drop e n (w ⊳ t) s x y

-- Where the index fits an `int`, `at` on a list that is not empty leaves the member at that index, and
-- where the list has no such member it reports a smaller index as needed, with the stack as it was.
pub at_lem :
    (e : Env) (n : ℕ) (x : Factor) (t s : Term)
    → n < 2147483648
    → at (on e (integer (pos n) ⊳ list (x ⊳ t) ⊳ s)) ≡ (
        if ltb n (size_of (x ⊳ t))
        then ok tt (on e (node (drop_list n (x ⊳ t)) ⊳ s))
        else error Error.smaller_index (on e (integer (pos n) ⊳ list (x ⊳ t) ⊳ s)))
unfolding aggregate_code
at_lem e n x t s h =
    let all : Term = integer (pos n) ⊳ list (x ⊳ t) ⊳ s in
    ap (λ i. at_index i (list (x ⊳ t)) (on e all)) (int32_of_fits (pos n) h)
    ∙ nth_node-drop e n (x ⊳ t) s (integer (pos n)) (list (x ⊳ t))
    ∙ ap
        (λ b.
          if b
          then ok tt (on e (node (drop_list n (x ⊳ t)) ⊳ s))
          else error Error.smaller_index (on e all))
        (has_index_lem n x t)

-- An index that is too large by 2^32 is converted to `int`: `at` leaves the member at the smaller
-- index, although the list need not have that many members.
pub at_wraps :
    (e : Env) (n : ℕ) (x : Factor) (t s : Term)
    → n < 2147483648
    → n < size_of (x ⊳ t)
    → at (on e (integer (pos (n + 4294967296)) ⊳ list (x ⊳ t) ⊳ s))
      ≡ ok tt (on e (node (drop_list n (x ⊳ t)) ⊳ s))
unfolding aggregate_code
at_wraps e n x t s h l =
    let big : ℤ = pos (n + 4294967296) in
    ap (λ i. at_index i (list (x ⊳ t)) (on e (integer big ⊳ list (x ⊳ t) ⊳ s))) (wrapped n h)
    ∙ nth_node-drop e n (x ⊳ t) s (integer big) (list (x ⊳ t))
    ∙ ap
        (λ b.
          if b
          then ok tt (on e (node (drop_list n (x ⊳ t)) ⊳ s))
          else error Error.smaller_index (on e (integer big ⊳ list (x ⊳ t) ⊳ s)))
        (has_index_lem n x t ∙ below n (size_of (x ⊳ t)) l)
  where
    wrapped : (n : ℕ) → n < 2147483648 → int32 (pos (n + 4294967296)) ≡ pos n
    wrapped n h = unfold int32 in ground arith

    below : (n m : ℕ) → n < m → ltb n m ≡ true
    below n m h = ground arith
