-- ===== src/Sets/Keeps.antt =====
-- The set operators leave the saved stacks alone.
use joy.Prelude.{ℕ, Bool}
use joy.Prelude.Int.{ℤ}
use joy.Syntax.{Factor, Term, boolean, char, integer, set}
use joy.Machine.Host.{Host}
use joy.Machine.Keeps.{Keeps}
use joy.Machine.KeepsChecks.{check_rules}
use joy.Comparison.Keeps.{Keeps-get_symtab}
use joy.Syntax.Ops.{SetOp}
use joy.Sets.{run, combine, andorxor, found_in, has, in_, complement}

ruleset set_rules = (check_rules, Keeps-get_symtab)

Keeps-combine : (f : ℕ → ℕ → ℕ) (g : ℤ → ℤ → Bool) (b a : Factor) → Keeps (combine f g b a)
unfolding combine
Keeps-combine f g (set b) (set a) = search set_rules depth 40
Keeps-combine f g (boolean b) (boolean a) = search set_rules depth 40
Keeps-combine f g (char b) (char a) = search set_rules depth 40
Keeps-combine f g (integer b) (integer a) = search set_rules depth 40
Keeps-combine f g _ _ = search set_rules depth 40

Keeps-found_in : (host : Host) (f : Factor) (elem : Term) → Keeps (found_in host f elem)
unfolding found_in
Keeps-found_in host (set a) elem = search set_rules depth 40
Keeps-found_in host _ elem = search set_rules depth 40

Keeps-complement : (f : Factor) → Keeps (complement f)
unfolding complement
Keeps-complement (set a) = search set_rules depth 40
Keeps-complement _ = search set_rules depth 40

Keeps-andorxor : (f : ℕ → ℕ → ℕ) (g : ℤ → ℤ → Bool) → Keeps (andorxor f g)
unfolding andorxor
Keeps-andorxor f g = search (set_rules, Keeps-combine) depth 40

Keeps-has : (host : Host) → Keeps (has host)
unfolding has
Keeps-has host = search (set_rules, Keeps-found_in) depth 40

Keeps-in : (host : Host) → Keeps (in_ host)
unfolding in_
Keeps-in host = search (set_rules, Keeps-found_in) depth 40

pub Keeps-run : (host : Host) (op : SetOp) → Keeps (run host op)
unfolding run
Keeps-run host SetOp.false =
    search (set_rules, Keeps-andorxor, Keeps-has, Keeps-in, Keeps-complement) depth 40
Keeps-run host _ =
    search (set_rules, Keeps-andorxor, Keeps-has, Keeps-in, Keeps-complement) depth 40
