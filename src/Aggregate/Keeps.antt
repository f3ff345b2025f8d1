-- ===== src/Aggregate/Keeps.antt =====
-- The operators of aggregate.c leave the saved stacks alone.
use joy.Prelude.{ℕ, zero, suc, [], ◌∷◌, refl, Option, none, some}
use joy.Prelude.Int.{ℤ, pos, negsuc}
use joy.Syntax.{is_nil, nextnode1, Factor, Term, nil, ◌⊳◌, usr, set, string, list}
use joy.Machine.{M, raise, Error}
use joy.Machine.Host.{Host}
use joy.Machine.Keeps.{Keeps, Keeps-if, Keeps-raise}
use joy.Machine.KeepsChecks.{check_rules}
use joy.Syntax.Ops.{AggregateOp}
use joy.Stacks.Keeps.{stack_rules}
use joy.Aggregate.Variables.{user_name, set_variable, clear_variable, assign, unassign}
use joy.Aggregate.{
  chosen, run, cons_to, concat_of, take_from, drop_from, nth_node, at_index, first_of, rest_of,
  uncons_of, unswons_of, size_at, small_at, cons, swons, concat, drop, take, first, rest, uncons,
  unswons, at, of, size, small, enconcat, null,
}

Keeps-cons_to : (f : Factor) (elem : Term) → Keeps (cons_to f elem)
unfolding cons_to
Keeps-cons_to (list t) elem = search check_rules depth 40
Keeps-cons_to _ elem = search check_rules depth 40

Keeps-concat_of : (g f : Factor) → Keeps (concat_of g f)
unfolding concat_of
Keeps-concat_of (set b) (set a) = search check_rules depth 40
Keeps-concat_of (string b) (string a) = search check_rules depth 40
Keeps-concat_of (list b) (list a) = search check_rules depth 40
Keeps-concat_of _ _ = search check_rules depth 40

Keeps-take_from : (n : ℤ) (f : Factor) → Keeps (take_from n f)
unfolding take_from
Keeps-take_from (pos n) (set a) = search check_rules depth 40
Keeps-take_from (negsuc n) (set a) = search check_rules depth 40
Keeps-take_from (pos n) _ = search check_rules depth 40
Keeps-take_from (negsuc n) _ = search check_rules depth 40

Keeps-drop_from : (n : ℤ) (f : Factor) → Keeps (drop_from n f)
unfolding drop_from
Keeps-drop_from n (set a) = search check_rules depth 40
Keeps-drop_from n _ = search check_rules depth 40

Keeps-nth_node : (n : ℕ) (t : Term) → Keeps (nth_node n t)
unfolding nth_node
Keeps-nth_node zero t = search check_rules depth 40
Keeps-nth_node (suc n) t =
    Keeps-if (is_nil (nextnode1 t)) (raise {A = Unit {0}} Error.smaller_index) _ (Keeps-raise _)
      (Keeps-nth_node n (nextnode1 t))

Keeps-chosen :
    (o : Option ℕ) (m : M (Unit {0})) (k : ℕ → M (Unit {0}))
    → Keeps m
    → ((i : ℕ) → Keeps (k i))
    → Keeps (chosen o m k)
Keeps-chosen none m k km kk = km
Keeps-chosen (some i) m k km kk = kk i

Keeps-at_index : (n : ℤ) (f : Factor) → Keeps (at_index n f)
unfolding at_index
Keeps-at_index (pos n) (set a) = search (check_rules, Keeps-chosen) depth 40
Keeps-at_index (negsuc n) (set a) = search check_rules depth 40
Keeps-at_index (pos n) _ = search (check_rules, Keeps-nth_node, Keeps-chosen) depth 40
Keeps-at_index (negsuc n) _ = search (check_rules, Keeps-nth_node) depth 40

Keeps-first_of : (f : Factor) → Keeps (first_of f)
unfolding first_of
Keeps-first_of (set a) = search check_rules depth 40
Keeps-first_of (string []) = search check_rules depth 40
Keeps-first_of (string (c ∷ s)) = search check_rules depth 40
Keeps-first_of _ = search check_rules depth 40

Keeps-rest_of : (f : Factor) → Keeps (rest_of f)
unfolding rest_of
Keeps-rest_of (set a) = search check_rules depth 40
Keeps-rest_of (string []) = search check_rules depth 40
Keeps-rest_of (string (c ∷ s)) = search check_rules depth 40
Keeps-rest_of _ = search check_rules depth 40

Keeps-uncons_of : (f : Factor) → Keeps (uncons_of f)
unfolding uncons_of
Keeps-uncons_of (set a) = search check_rules depth 40
Keeps-uncons_of (string []) = search check_rules depth 40
Keeps-uncons_of (string (c ∷ s)) = search check_rules depth 40
Keeps-uncons_of _ = search check_rules depth 40

Keeps-unswons_of : (f : Factor) → Keeps (unswons_of f)
unfolding unswons_of
Keeps-unswons_of (set a) = search check_rules depth 40
Keeps-unswons_of (string []) = search check_rules depth 40
Keeps-unswons_of (string (c ∷ s)) = search check_rules depth 40
Keeps-unswons_of _ = search check_rules depth 40

Keeps-size_at : (f : Factor) → Keeps (size_at f)
unfolding size_at
Keeps-size_at (set a) = search check_rules depth 40
Keeps-size_at _ = search check_rules depth 40

Keeps-small_at : (f : Factor) → Keeps (small_at f)
unfolding small_at
Keeps-small_at (set a) = search check_rules depth 40
Keeps-small_at _ = search check_rules depth 40

ruleset aggregate_rules = (
  check_rules, stack_rules, Keeps-cons_to, Keeps-concat_of, Keeps-take_from, Keeps-drop_from,
  Keeps-at_index, Keeps-first_of, Keeps-rest_of, Keeps-uncons_of, Keeps-unswons_of, Keeps-size_at,
  Keeps-small_at,
)

pub Keeps-cons : Keeps cons
unfolding cons
Keeps-cons = search (aggregate_rules) depth 40

pub Keeps-swons : Keeps swons
unfolding swons
Keeps-swons = search (aggregate_rules) depth 40

pub Keeps-concat : Keeps concat
unfolding concat
Keeps-concat = search (aggregate_rules) depth 40

pub Keeps-drop : Keeps drop
unfolding drop
Keeps-drop = search (aggregate_rules) depth 40

pub Keeps-take : Keeps take
unfolding take
Keeps-take = search (aggregate_rules) depth 40

pub Keeps-first : Keeps first
unfolding first
Keeps-first = search (aggregate_rules) depth 40

pub Keeps-rest : Keeps rest
unfolding rest
Keeps-rest = search (aggregate_rules) depth 40

pub Keeps-uncons : Keeps uncons
unfolding uncons
Keeps-uncons = search (aggregate_rules) depth 40

pub Keeps-unswons : Keeps unswons
unfolding unswons
Keeps-unswons = search (aggregate_rules) depth 40

pub Keeps-at : Keeps at
unfolding at
Keeps-at = search (aggregate_rules) depth 40

pub Keeps-of : Keeps of
unfolding of
Keeps-of = search (aggregate_rules) depth 40

pub Keeps-size : Keeps size
unfolding size
Keeps-size = search (aggregate_rules) depth 40

pub Keeps-small : Keeps small
unfolding small
Keeps-small = search (aggregate_rules) depth 40

pub Keeps-enconcat : Keeps enconcat
unfolding enconcat
Keeps-enconcat = search (aggregate_rules, Keeps-cons, Keeps-concat) depth 40

pub Keeps-null : (host : Host) → Keeps (null host)
unfolding null
Keeps-null host = search (aggregate_rules) depth 40

Keeps-user_name : (t : Term) → Keeps (user_name t)
unfolding user_name
Keeps-user_name nil = search check_rules depth 40
Keeps-user_name (usr i ⊳ _) = record { at = λ e. refl }
Keeps-user_name (_ ⊳ _) = search check_rules depth 40

Keeps-set_variable : (i : ℕ) (body : Term) → Keeps (set_variable i body)
unfolding set_variable
Keeps-set_variable i body = record { at = λ e. refl }

Keeps-clear_variable : (i : ℕ) → Keeps (clear_variable i)
unfolding clear_variable
Keeps-clear_variable i = record { at = λ e. refl }

ruleset variable_rules = (check_rules, Keeps-user_name, Keeps-set_variable, Keeps-clear_variable)

pub Keeps-assign : Keeps assign
unfolding assign
Keeps-assign = search (variable_rules) depth 40

pub Keeps-unassign : Keeps unassign
unfolding unassign
Keeps-unassign = search (variable_rules) depth 40

ruleset operator_rules = (
  Keeps-cons, Keeps-swons, Keeps-concat, Keeps-drop, Keeps-take, Keeps-first, Keeps-rest,
  Keeps-uncons, Keeps-unswons, Keeps-at, Keeps-of, Keeps-size, Keeps-small, Keeps-enconcat,
  Keeps-null, Keeps-assign, Keeps-unassign,
)

pub Keeps-run : (host : Host) (op : AggregateOp) → Keeps (run host op)
unfolding run
Keeps-run host AggregateOp.assign = search operator_rules depth 40
Keeps-run host _ = search operator_rules depth 40
