-- ===== src/Machine/KeepsChecks.antt =====
-- The checks on operands leave the saved stacks alone.
use joy.Prelude.{ℕ}
use joy.Syntax.{Term, nil, ◌⊳◌, float, integer}
use joy.Machine.Host.{Host}
use joy.Machine.Keeps.{Keeps, macro_rules, Keeps-pure, Keeps-raise, Keeps-check}
use joy.Machine.Checks.{
  floatval, same_types, two_integers, integer_second, numeric_type, numeric2, float_top, check_zero,
  check_divisor, list_second, check_list, check_set_member, check_character, positive_index,
  check_stack, check_value,
}

pub Keeps-floatval : (host : Host) (t : Term) → Keeps (floatval host t)
unfolding floatval
Keeps-floatval host nil = search macro_rules depth 40
Keeps-floatval host (float d ⊳ _) = search macro_rules depth 40
Keeps-floatval host (_ ⊳ _) = search macro_rules depth 40

pub Keeps-check_set_member : (t : Term) → Keeps (check_set_member t)
unfolding check_set_member
Keeps-check_set_member nil = search macro_rules depth 40
Keeps-check_set_member (integer z ⊳ _) = search macro_rules depth 40
Keeps-check_set_member (_ ⊳ _) = search macro_rules depth 40

pub Keeps-positive_index : (t : Term) → Keeps (positive_index t)
unfolding positive_index
Keeps-positive_index nil = search macro_rules depth 40
Keeps-positive_index (integer z ⊳ _) = search macro_rules depth 40
Keeps-positive_index (_ ⊳ _) = search macro_rules depth 40

pub Keeps-same_types : Keeps same_types
unfolding same_types
Keeps-same_types = search macro_rules depth 40

pub Keeps-two_integers : Keeps two_integers
unfolding two_integers
Keeps-two_integers = search macro_rules depth 40

pub Keeps-integer_second : Keeps integer_second
unfolding integer_second
Keeps-integer_second = search macro_rules depth 40

pub Keeps-numeric_type : Keeps numeric_type
unfolding numeric_type
Keeps-numeric_type = search macro_rules depth 40

pub Keeps-numeric2 : Keeps numeric2
unfolding numeric2
Keeps-numeric2 = search macro_rules depth 40

pub Keeps-float_top : Keeps float_top
unfolding float_top
Keeps-float_top = search macro_rules depth 40

pub Keeps-check_zero : Keeps check_zero
unfolding check_zero
Keeps-check_zero = search macro_rules depth 40

pub Keeps-list_second : Keeps list_second
unfolding list_second
Keeps-list_second = search macro_rules depth 40

pub Keeps-check_stack : Keeps check_stack
unfolding check_stack
Keeps-check_stack = search macro_rules depth 40

pub Keeps-check_value : Keeps check_value
unfolding check_value
Keeps-check_value = search macro_rules depth 40

pub Keeps-check_divisor : (host : Host) → Keeps (check_divisor host)
unfolding check_divisor
Keeps-check_divisor host = search macro_rules depth 40

pub Keeps-check_list : (opr : ℕ) → Keeps (check_list opr)
unfolding check_list
Keeps-check_list opr = search macro_rules depth 40

pub Keeps-check_character : (t : Term) → Keeps (check_character t)
unfolding check_character
Keeps-check_character t = search macro_rules depth 40

pub ruleset check_rules = (
  macro_rules, Keeps-floatval, Keeps-check_set_member, Keeps-positive_index, Keeps-same_types,
  Keeps-two_integers, Keeps-integer_second, Keeps-numeric_type, Keeps-numeric2, Keeps-float_top,
  Keeps-check_zero, Keeps-list_second, Keeps-check_stack, Keeps-check_value, Keeps-check_divisor,
  Keeps-check_list, Keeps-check_character,
)
