-- ===== src/Combinators/KeepsMembers.antt =====
-- What the combinators share leaves the saved stacks alone.
use joy.Syntax.{Term}
use joy.Machine.{M}
use joy.Machine.Host.{Host}
use joy.Machine.Keeps.{Keeps}
use joy.Machine.KeepsChecks.{check_rules}
use joy.Comparison.Keeps.{Keeps-get_symtab, Keeps-same_type}
use joy.Stacks.Keeps.{stack_rules}
use joy.Combinators.Members.{exec_saved, result}

pub Keeps-exec_saved :
    (exec : Term → M (Unit {0})) (position : Term → Term)
    → ((t : Term) → Keeps (exec t))
    → Keeps (exec_saved exec position)
unfolding exec_saved
Keeps-exec_saved exec position kexec = search check_rules depth 60

pub Keeps-result : (host : Host) → Keeps (result host)
unfolding result
Keeps-result host = search check_rules depth 60

pub ruleset combinator_rules =
    (check_rules, stack_rules, Keeps-get_symtab, Keeps-same_type, Keeps-exec_saved, Keeps-result)
