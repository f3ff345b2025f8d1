-- ===== src/Syntax/Ops.antt =====
-- The builtins that are modelled, by the file of src/builtin that defines them; `other` stands for
-- the rest. A node for a builtin holds the address of its procedure, in the model its name here.
use joy.Prelude.{ℕ, ℕ_discrete}

pub data StackOp : Type 0 where
  dup dupd id over pick pop popd rolldown rolldownd rollup rollupd : StackOp
  rotate rotated stack swap swapd unstack : StackOp

pub data ArithmeticOp : Type 0 where
  abs ceil div divide floor max min minus mul neg plus pred rem round sign succ trunc : ArithmeticOp

pub data SetOp : Type 0 where
  false and has in_ not or true xor : SetOp

pub data ComparisonOp : Type 0 where
  compare eql equal geql greater leql less neql sametype : ComparisonOp

pub data AggregateOp : Type 0 where
  assign at concat cons drop enconcat first null of rest size small swons take unassign uncons
        unswons :
      AggregateOp

pub data TypeOp : Type 0 where
  char chr file float integer leaf list logical ord set string typeof user : TypeOp

pub data Combinator : Type 0 where
  all app1 app11 app12 app2 app3 app4 binary binrec branch case choice cleave cond condlinrec
        condnestrec construct dip filter fold genrec genrecaux i :
      Combinator
  ifchar iffile iffloat ifinteger iflist iflogical ifset ifstring ifte infra let_ linrec map nullary
        opcase primrec some split step tailrec ternary times treegenrec treegenrecaux treerec
        treerecaux treestep unary unary2 unary3 unary4 x :
      Combinator

pub data Builtin : Type 0 where
  stacks : StackOp → Builtin
  arithmetic : ArithmeticOp → Builtin
  sets : SetOp → Builtin
  comparison : ComparisonOp → Builtin
  aggregate : AggregateOp → Builtin
  types : TypeOp → Builtin
  combinator : Combinator → Builtin
  other : ℕ → Builtin

pub Builtin-discrete : Discrete Builtin
Builtin-discrete = hlevel ℕ_discrete
