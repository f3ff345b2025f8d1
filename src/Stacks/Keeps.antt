-- ===== src/Stacks/Keeps.antt =====
-- The operators of stacks.c leave the saved stacks alone.
use joy.Machine.{M}
use joy.Machine.Keeps.{Keeps}
use joy.Machine.KeepsChecks.{check_rules}
use joy.Syntax.Ops.{StackOp}
use joy.Stacks.{
  run, dipped, dup, id, over, pop, pick, rolldown, rollup, rotate, stack, swap, unstack, dupd, popd,
  rolldownd, rollupd, rotated, swapd,
}

pub Keeps-dup : Keeps dup
unfolding dup
Keeps-dup = search (check_rules) depth 40

pub Keeps-id : Keeps id
unfolding id
Keeps-id = search (check_rules) depth 40

pub Keeps-over : Keeps over
unfolding over
Keeps-over = search (check_rules) depth 40

pub Keeps-pop : Keeps pop
unfolding pop
Keeps-pop = search (check_rules) depth 40

pub Keeps-pick : Keeps pick
unfolding pick
Keeps-pick = search (check_rules) depth 40

pub Keeps-rolldown : Keeps rolldown
unfolding rolldown
Keeps-rolldown = search (check_rules) depth 40

pub Keeps-rollup : Keeps rollup
unfolding rollup
Keeps-rollup = search (check_rules) depth 40

pub Keeps-rotate : Keeps rotate
unfolding rotate
Keeps-rotate = search (check_rules) depth 40

pub Keeps-stack : Keeps stack
unfolding stack
Keeps-stack = search (check_rules) depth 40

pub Keeps-swap : Keeps swap
unfolding swap
Keeps-swap = search (check_rules) depth 40

pub Keeps-unstack : Keeps unstack
unfolding unstack
Keeps-unstack = search (check_rules) depth 40

Keeps-dipped :
    (paramcount argument : M (Unit {0}))
    → Keeps paramcount
    → Keeps argument
    → Keeps (dipped paramcount argument)
unfolding dipped
Keeps-dipped p m kp km = search check_rules depth 40

pub Keeps-dupd : Keeps dupd
unfolding dupd
Keeps-dupd =
    search
      (
        check_rules, Keeps-dipped, Keeps-dup, Keeps-pop, Keeps-rolldown, Keeps-rollup, Keeps-rotate,
        Keeps-swap,
      )
      depth 40

pub Keeps-popd : Keeps popd
unfolding popd
Keeps-popd =
    search
      (
        check_rules, Keeps-dipped, Keeps-dup, Keeps-pop, Keeps-rolldown, Keeps-rollup, Keeps-rotate,
        Keeps-swap,
      )
      depth 40

pub Keeps-rolldownd : Keeps rolldownd
unfolding rolldownd
Keeps-rolldownd =
    search
      (
        check_rules, Keeps-dipped, Keeps-dup, Keeps-pop, Keeps-rolldown, Keeps-rollup, Keeps-rotate,
        Keeps-swap,
      )
      depth 40

pub Keeps-rollupd : Keeps rollupd
unfolding rollupd
Keeps-rollupd =
    search
      (
        check_rules, Keeps-dipped, Keeps-dup, Keeps-pop, Keeps-rolldown, Keeps-rollup, Keeps-rotate,
        Keeps-swap,
      )
      depth 40

pub Keeps-rotated : Keeps rotated
unfolding rotated
Keeps-rotated =
    search
      (
        check_rules, Keeps-dipped, Keeps-dup, Keeps-pop, Keeps-rolldown, Keeps-rollup, Keeps-rotate,
        Keeps-swap,
      )
      depth 40

pub Keeps-swapd : Keeps swapd
unfolding swapd
Keeps-swapd =
    search
      (
        check_rules, Keeps-dipped, Keeps-dup, Keeps-pop, Keeps-rolldown, Keeps-rollup, Keeps-rotate,
        Keeps-swap,
      )
      depth 40

pub ruleset stack_rules = (
  Keeps-dup, Keeps-id, Keeps-over, Keeps-pop, Keeps-pick, Keeps-rolldown, Keeps-rollup,
  Keeps-rotate, Keeps-stack, Keeps-swap, Keeps-unstack, Keeps-dupd, Keeps-popd, Keeps-rolldownd,
  Keeps-rollupd, Keeps-rotated, Keeps-swapd,
)

pub Keeps-run : (op : StackOp) → Keeps (run op)
unfolding run
Keeps-run StackOp.dup = search stack_rules depth 40
Keeps-run _ = search stack_rules depth 40
