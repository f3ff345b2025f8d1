-- ===== src/Combinators/Counting.antt =====
-- What `primrec` does on an integer.
use joy.Prelude.{ℕ, zero, suc, ◌<◌, ◌≡◌, refl, ap, ◌∙◌, sym}
use joy.Prelude.Int.{pos, pos_part}
use joy.Word.Wrap.{int32_of_fits}
use joy.Syntax.{Term, ◌⊳◌, list, integer, nextnode1}
use joy.Machine.{Env, ok, and_then, M, ◌>>◌}
use joy.Machine.Host.{Host}
use joy.Machine.Macros.{pop_dump}
use joy.Machine.Keeps.{Keeps}
use joy.Combinators.Members.{exec_saved}
use joy.Combinators.Loops.{primrec, push_all, times_term, count_down, primrec_members}
use joy.Combinators.Reads.{
  combinators_code, on, within, and_then-saved, and_then-saving, and_then-cong,
}
use joy.Combinators.Iteration.{repeated}

-- The integers from `n` down to 1 on a stack, 1 on top.
abbrev pub counted : ℕ → Term → Term
counted zero s = s
counted (suc n) s = counted n (integer (pos (suc n)) ⊳ s)

module _ (host : Host) (exec : Term → M (Unit {0})) (kexec : (t : Term) → Keeps (exec t)) where
  push_all-counted :
      (n : ℕ) (e : Env)
      → push_all host exec (count_down host exec n) e ≡ ok tt (on e (counted n e.stck))
  unfolding combinators_code push_all count_down
  push_all-counted zero e = refl
  push_all-counted (suc n) e = push_all-counted n (on e (integer (pos (suc n)) ⊳ e.stck))

  times_term-repeated :
      (c d : Term) (n : ℕ) (e : Env)
      → let e' : Env = record e { dump = list (list c ⊳ d) ⊳ e.dump } in
        times_term host exec (count_down host exec n) e' ≡ repeated (exec c) n e'
  unfolding combinators_code times_term count_down
  times_term-repeated c d zero e = refl
  times_term-repeated c d (suc n) e =
      let top : Term = list (list c ⊳ d) ⊳ e.dump in
      let kept_top = (kexec c).at (record e { dump = top }) in
      and_then-saved top _ _ kept_top
      ∙ and_then-cong (exec c (record e { dump = top }))
          (λ _ e'. times_term-repeated c d n (record e' { dump = e.dump }))
      ∙ sym (and_then-saved top _ (λ _. repeated (exec c) n) kept_top)

  -- Where programs leave the saved stacks as they were, on an integer N that an `int` holds and that is
  -- not negative, `primrec` pushes the integers from N
  -- down to 1 onto the stack below its parameters, executes the second quotation once, and then
  -- the first quotation N times.
  pub primrec_lem :
      (e : Env) (c i : Term) (n : ℕ) (s : Term)
      → n < 2147483648
      → let all : Term = list c ⊳ list i ⊳ integer (pos n) ⊳ s in
        primrec host exec (on e all)
        ≡ and_then (exec i (within e all (counted n s))) (λ _ e'.
          and_then (repeated (exec c) n (record e' { dump = list all ⊳ e.dump })) (λ _. pop_dump))
  unfolding combinators_code primrec primrec_members
  primrec_lem e c i n s h =
      let all : Term = list c ⊳ list i ⊳ integer (pos n) ⊳ s in
      let top : Term = list all ⊳ e.dump in
      ap
        (λ z.
          and_then
            (and_then (push_all host exec (count_down host exec (pos_part z)) (within e all s))
              (λ _.
                exec_saved exec nextnode1
                >> times_term host exec (count_down host exec (pos_part z))))
            (λ _. pop_dump))
        (int32_of_fits (pos n) h)
      ∙ ap
          (λ r.
            and_then
              (and_then r
                (λ _. exec_saved exec nextnode1 >> times_term host exec (count_down host exec n)))
              (λ _. pop_dump))
          (push_all-counted n (within e all s))
      ∙ and_then-saving top _ _ _ ((kexec i).at (within e all (counted n s)))
      ∙ and_then-cong (exec i (within e all (counted n s))) (λ _ e'.
        ap (λ r. and_then r (λ _. pop_dump))
          (times_term-repeated c (list i ⊳ integer (pos n) ⊳ s) n (record e' { dump = e.dump })))
