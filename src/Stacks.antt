-- ===== src/Stacks.antt =====
-- src/builtin/stacks.c: the operators that shuffle the stack.
pub mod Effect
pub mod Keeps
use joy.Prelude.{ℕ, zero, suc}
use joy.Prelude.Int.{ℤ, pos, negsuc, pos_part}
use joy.Word.{int32}
use joy.Syntax.{Factor, Term, nil, ◌⊳◌, integer, list, nextnode1, nextnode2}
use joy.Syntax.Ops.{StackOp}
use joy.Machine.{Error, M, pure, raise, ◌>>=◌, ◌>>◌}
use joy.Machine.Macros.{
  macros, get_stack, set_stack, nullary, gnullary, gbinary, gternary, pop_stack, one_param,
  two_params, three_params, four_params, lis, saving, saved, check, is_list, num, integer_top,
  list_top,
}

unfoldable pub dup : M (Unit {0})
dup = do one_param; gnullary (← get_stack)

unfoldable pub id : M (Unit {0})
id = pure tt

unfoldable pub over : M (Unit {0})
over = do two_params; gnullary (nextnode1 (← get_stack))

unfoldable pub pop : M (Unit {0})
pop = do one_param; pop_stack

-- for (i = 0; i < size && nextnode1(item); i++): `size - i` rounds are left.
unfoldable pub nth_or_last : ℕ → Term → Term
nth_or_last (suc n) (y ⊳ z ⊳ t) = nth_or_last n (z ⊳ t)
nth_or_last _ item = item

unfoldable pub pick : M (Unit {0})
pick = do
  four_params
  integer_top
  size ← num (← get_stack)
  pop_stack
  item ← get_stack
  gnullary (nth_or_last (pos_part (int32 size)) item)

unfoldable pub rolldown : M (Unit {0})
rolldown = do
  three_params
  saving do gternary (nextnode1 (← saved)); gnullary (← saved); gnullary (nextnode2 (← saved))

unfoldable pub rollup : M (Unit {0})
rollup = do
  three_params
  saving do gternary (← saved); gnullary (nextnode2 (← saved)); gnullary (nextnode1 (← saved))

unfoldable pub rotate : M (Unit {0})
rotate = do
  three_params
  saving do gternary (← saved); gnullary (nextnode1 (← saved)); gnullary (nextnode2 (← saved))

unfoldable pub stack : M (Unit {0})
stack = do nullary (list (← get_stack))

unfoldable pub swap : M (Unit {0})
swap = do two_params; saving do gbinary (← saved); gnullary (nextnode1 (← saved))

unfoldable pub unstack : M (Unit {0})
unstack = do one_param; list_top; set_stack (← lis (← get_stack))

-- DIPPED(PROCEDURE, NAME, PARAMCOUNT, ARGUMENT)
unfoldable pub dipped : M (Unit {0}) → M (Unit {0}) → M (Unit {0})
dipped paramcount argument = do paramcount; saving do pop_stack; argument; gnullary (← saved)

unfoldable pub dupd : M (Unit {0})
dupd = dipped two_params dup

unfoldable pub popd : M (Unit {0})
popd = dipped two_params pop

unfoldable pub rolldownd : M (Unit {0})
rolldownd = dipped four_params rolldown

unfoldable pub rollupd : M (Unit {0})
rollupd = dipped four_params rollup

unfoldable pub rotated : M (Unit {0})
rotated = dipped four_params rotate

unfoldable pub swapd : M (Unit {0})
swapd = dipped three_params swap

unfoldable pub run : StackOp → M (Unit {0})
run StackOp.dup = dup
run StackOp.dupd = dupd
run StackOp.id = id
run StackOp.over = over
run StackOp.pick = pick
run StackOp.pop = pop
run StackOp.popd = popd
run StackOp.rolldown = rolldown
run StackOp.rolldownd = rolldownd
run StackOp.rollup = rollup
run StackOp.rollupd = rollupd
run StackOp.rotate = rotate
run StackOp.rotated = rotated
run StackOp.stack = stack
run StackOp.swap = swap
run StackOp.swapd = swapd
run StackOp.unstack = unstack

unfoldable pub stacks_code : Unit {0}
unfolding macros dup dupd id over pick pop popd rolldown rolldownd rollup rollupd rotate rotated
    stack swap swapd unstack dipped run nth_or_last int32
stacks_code = tt
