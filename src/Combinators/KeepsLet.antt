-- ===== src/Combinators/KeepsLet.antt =====
-- `let` leaves the saved stacks alone if its body does.
use joy.Prelude.{ℕ, List, [], ◌∷◌, refl, Option}
use joy.Syntax.{is_nil, Term, nil, ◌⊳◌, usr, anon_funct}
use joy.Machine.{Entry, M}
use joy.Machine.Keeps.{
  Keeps, Keeps-bind, Keeps-if, Keeps-pure, Keeps-raise, Keeps-get_stack, Keeps-pop_stack,
}
use joy.Comparison.Keeps.{Keeps-get_symtab}
use joy.Combinators.KeepsMembers.{combinator_rules}
use joy.Combinators.Let.{let_names, set_symtab, restore, bind_loop, let_, entry_at}

Keeps-let_names : (t : Term) → Keeps (let_names t)
unfolding let_names
Keeps-let_names nil = Keeps-pure _
Keeps-let_names (usr i ⊳ t) = Keeps-bind _ _ (Keeps-let_names t) λ others. Keeps-pure _
Keeps-let_names (anon_funct _ ⊳ _) = Keeps-raise _
Keeps-let_names (_ ⊳ _) = Keeps-raise _

Keeps-set_symtab : (t : List Entry) → Keeps (set_symtab t)
unfolding set_symtab
Keeps-set_symtab t = record { at = λ e. refl }

Keeps-restore : (kept : List (ℕ × Option Entry)) → Keeps (restore kept)
unfolding restore
Keeps-restore kept = search (combinator_rules, Keeps-set_symtab) depth 60

Keeps-bind_loop : (names : List ℕ) (kept : List (ℕ × Option Entry)) → Keeps (bind_loop names kept)
unfolding bind_loop
Keeps-bind_loop [] kept = Keeps-pure kept
Keeps-bind_loop (i ∷ names) kept = Keeps-bind _ _ Keeps-get_stack λ s.
    Keeps-if (is_nil s) _ _ (Keeps-bind _ _ (Keeps-restore _) λ _. Keeps-raise _) (
      Keeps-bind _ _ Keeps-pop_stack λ _. Keeps-bind _ _ Keeps-get_symtab λ t.
        Keeps-bind _ _ (Keeps-set_symtab _) λ _. Keeps-bind_loop names ((i, entry_at t i) ∷ kept))

pub Keeps-let : (exec : Term → M (Unit {0})) → ((t : Term) → Keeps (exec t)) → Keeps (let_ exec)
unfolding let_
Keeps-let exec kexec =
    search (combinator_rules, Keeps-let_names, Keeps-bind_loop, Keeps-restore) depth 60
