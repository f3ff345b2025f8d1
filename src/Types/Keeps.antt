-- ===== src/Types/Keeps.antt =====
-- The type tests leave the saved stacks alone.
use joy.Prelude.{ℕ, Bool}
use joy.Prelude.Int.{ℤ}
use joy.Syntax.{Factor}
use joy.Machine.Keeps.{Keeps}
use joy.Machine.KeepsChecks.{check_rules}
use joy.Syntax.Ops.{TypeOp}
use joy.Types.{run, type_test, ordchr}

Keeps-type_test : (rel : ℕ → Bool) → Keeps (type_test rel)
unfolding type_test
Keeps-type_test rel = search check_rules depth 40

Keeps-ordchr : (result : ℤ → Factor) → Keeps (ordchr result)
unfolding ordchr
Keeps-ordchr result = search check_rules depth 40

pub Keeps-run : (op : TypeOp) → Keeps (run op)
unfolding run
Keeps-run TypeOp.char = search (check_rules, Keeps-type_test, Keeps-ordchr) depth 40
Keeps-run _ = search (check_rules, Keeps-type_test, Keeps-ordchr) depth 40
