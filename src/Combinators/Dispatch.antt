-- ===== src/Combinators/Dispatch.antt =====
-- Every combinator, by its name, and those that are defined by others.
use joy.Prelude.{ℕ, true, false}
use joy.Syntax.{Term, nextnode1, nextnode2, nextnode3, nextnode4}
use joy.Syntax.Ops.{Combinator}
use joy.Machine.{M, ◌>>◌}
use joy.Machine.Host.{Host}
use joy.Machine.Macros.{one_param, two_params, three_params, four_params, one_quote}
use joy.Stacks
use joy.Combinators.Control
use joy.Combinators.Nary
use joy.Combinators.Loops
use joy.Combinators.Let.{let_}
use joy.Combinators.Recursion

module _ (exec : Term → M (Unit {0})) (host : Host) where
  unfoldable pub app11 : M (Unit {0})
  app11 = do three_params; one_quote; Control.i host exec; Stacks.popd

  unfoldable pub app12 : M (Unit {0})
  app12 = do four_params; Nary.unary2 exec; Stacks.rolldown; Stacks.pop

  unfoldable pub run : ℕ → Combinator → M (Unit {0})
  run fuel Combinator.all = Loops.someall host exec true
  run fuel Combinator.app1 = Nary.app1 exec
  run fuel Combinator.app11 = app11
  run fuel Combinator.app12 = app12
  run fuel Combinator.app2 = Nary.unary2 exec
  run fuel Combinator.app3 = Nary.unary3 exec
  run fuel Combinator.app4 = Nary.unary4 exec
  run fuel Combinator.binary = Nary.n_ary exec three_params nextnode3
  run fuel Combinator.binrec = Recursion.binrec host exec fuel
  run fuel Combinator.branch = Control.branch host exec
  run fuel Combinator.case = Control.case host exec
  run fuel Combinator.choice = Control.choice host exec
  run fuel Combinator.cleave = Nary.cleave exec
  run fuel Combinator.cond = Control.cond host exec
  run fuel Combinator.condlinrec = Recursion.condnestrec host exec fuel
  run fuel Combinator.condnestrec = Recursion.condnestrec host exec fuel
  run fuel Combinator.construct = Nary.construct exec
  run fuel Combinator.dip = Nary.dip exec
  run fuel Combinator.filter = Loops.filter host exec
  run fuel Combinator.fold = Loops.fold host exec
  run fuel Combinator.genrec = Recursion.genrec host exec
  run fuel Combinator.genrecaux = Recursion.genrecaux host exec
  run fuel Combinator.i = Control.i host exec
  run fuel Combinator.ifchar = Control.if_type host exec 5
  run fuel Combinator.iffile = Control.if_type host exec 11
  run fuel Combinator.iffloat = Control.if_type host exec 10
  run fuel Combinator.ifinteger = Control.if_type host exec 6
  run fuel Combinator.iflist = Control.if_type host exec 9
  run fuel Combinator.iflogical = Control.if_type host exec 4
  run fuel Combinator.ifset = Control.if_type host exec 7
  run fuel Combinator.ifstring = Control.if_type host exec 8
  run fuel Combinator.ifte = Control.ifte host exec
  run fuel Combinator.infra = Nary.infra exec
  run fuel Combinator.let_ = let_ exec
  run fuel Combinator.linrec = Recursion.linrec host exec fuel
  run fuel Combinator.map = Loops.map host exec
  run fuel Combinator.nullary = Nary.n_ary exec one_param nextnode1
  run fuel Combinator.opcase = Control.opcase host exec
  run fuel Combinator.primrec = Loops.primrec host exec
  run fuel Combinator.some = Loops.someall host exec false
  run fuel Combinator.split = Loops.split host exec
  run fuel Combinator.step = Loops.step host exec
  run fuel Combinator.tailrec = Recursion.tailrec host exec fuel
  run fuel Combinator.ternary = Nary.n_ary exec four_params nextnode4
  run fuel Combinator.times = Loops.times host exec
  run fuel Combinator.treegenrec = Recursion.treegenrec host exec
  run fuel Combinator.treegenrecaux = Recursion.treegenrecaux host exec
  run fuel Combinator.treerec = Recursion.treerec host exec
  run fuel Combinator.treerecaux = Recursion.treerecaux host exec
  run fuel Combinator.treestep = Recursion.treestep host exec
  run fuel Combinator.unary = Nary.n_ary exec two_params nextnode2
  run fuel Combinator.unary2 = Nary.unary2 exec
  run fuel Combinator.unary3 = Nary.unary3 exec
  run fuel Combinator.unary4 = Nary.unary4 exec
  run fuel Combinator.x = Control.x host exec
