-- ===== src/Combinators.antt =====
-- The builtins that execute quotations: src/builtin/control.c, combinators.c, n_ary.c, recursion.c,
-- `some`, `all` and `split`. They take what executes a term, `exec_term`, as an argument, and the
-- number of rounds that a loop without a bound may make.
pub mod Members
pub mod Control
pub mod Reads
pub mod Branching
pub mod Iteration
pub mod Search
pub mod Restore
pub mod Counting
pub mod Nary
pub mod Loops
pub mod Let
pub mod Recursion
pub mod Dispatch
pub mod KeepsMembers
pub mod KeepsControl
pub mod KeepsNary
pub mod KeepsLoops
pub mod KeepsLet
pub mod KeepsRecursion
pub mod KeepsDispatch
