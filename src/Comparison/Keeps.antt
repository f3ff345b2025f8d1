-- ===== src/Comparison/Keeps.antt =====
-- The comparisons leave the saved stacks alone.
use joy.Prelude.{ℕ, refl, Bool}
use joy.Prelude.Int.{ℤ}
use joy.Syntax.{Factor, Term, ◌⊳◌, anon_funct}
use joy.Machine.Host.{Host}
use joy.Machine.Keeps.{Keeps}
use joy.Machine.KeepsChecks.{check_rules}
use joy.Syntax.Ops.{ComparisonOp}
use joy.Comparison.{run, get_symtab, same_type, comprel, comprel2, equal, sametype}

pub Keeps-get_symtab : Keeps get_symtab
unfolding get_symtab
Keeps-get_symtab = record { at = λ e. refl }

pub Keeps-same_type : (s t : Term) → Keeps (same_type s t)
unfolding same_type
Keeps-same_type (anon_funct f ⊳ _) (anon_funct g ⊳ _) = search check_rules depth 40
Keeps-same_type (anon_funct f ⊳ _) _ = search check_rules depth 40
Keeps-same_type _ _ = search check_rules depth 40

ruleset comparison_rules = (check_rules, Keeps-get_symtab, Keeps-same_type)

pub Keeps-comprel :
    (host : Host) (opr : ℤ → Bool) (setcmp : ℕ → ℕ → Bool) → Keeps (comprel host opr setcmp)
unfolding comprel
Keeps-comprel host opr setcmp = search comparison_rules depth 40

pub Keeps-comprel2 : (host : Host) (result : ℤ → Factor) → Keeps (comprel2 host result)
unfolding comprel2
Keeps-comprel2 host result = search comparison_rules depth 40

pub Keeps-equal : (host : Host) → Keeps (equal host)
unfolding equal
Keeps-equal host = search comparison_rules depth 40

pub Keeps-sametype : Keeps sametype
unfolding sametype
Keeps-sametype = search comparison_rules depth 40

pub Keeps-run : (host : Host) (op : ComparisonOp) → Keeps (run host op)
unfolding run
Keeps-run host ComparisonOp.compare =
    search (Keeps-comprel, Keeps-comprel2, Keeps-equal, Keeps-sametype) depth 40
Keeps-run host _ = search (Keeps-comprel, Keeps-comprel2, Keeps-equal, Keeps-sametype) depth 40
