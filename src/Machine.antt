-- ===== src/Machine.antt =====
-- The state of the interpreter, `Env` of include/globals.h, and the commands that change it.
pub mod Macros
pub mod Host
pub mod Checks
pub mod Keeps
pub mod KeepsChecks
use joy.Prelude.{ℕ, ◌≡◌, Bool, true, false, List, if◌then◌else◌}
use joy.Syntax.{Term, nil}

-- An entry of the symbol table. The body 0 of an undefined name is `nil`.
pub record Entry : Type 0 where
  pub name : List ℕ
  pub is_user : Bool
  pub is_root : Bool
  pub is_last : Bool
  pub immediate : Bool
  pub body : Term

-- `dump` is the chain of saved stacks, each a list node (SAVESTACK). `dump1` to `dump5` keep local
-- variables of a running builtin where the collector finds them; they are local values here.
pub record Env : Type 0 where
  pub stck : Term
  pub dump : Term
  pub symtab : List Entry
  pub undeferror : Bool
  pub variable_busy : Bool

-- The messages of `execerror`, in the order of include/runtime.h.
pub data Error : Type 0 where
  one_parameter two_parameters three_parameters four_parameters five_parameters : Error
  quotation_top quotation_second quotation_third quotation_fourth : Error
  same_types integer_needed integer_second two_integers numeric numeric_second : Error
  float_or_integer non_zero_operand non_zero_divisor list_needed list_second : Error
  user_defined internal_list small_numeric character non_empty_set non_empty_string : Error
  non_empty_list non_empty_stack value_to_push non_negative_integer smaller_index : Error
  aggregate_parameter different_type definition non_native_type : Error
  builtin_name not_a_symbol too_few_values valid_factor : Error

-- A command returns, reports an error (`longjmp`, with the stack as it stands), meets what C leaves
-- undefined, or exceeds the depth that it is given.
pub data Outcome (A : Type 0) : Type 0 where
  ok : A → Env → Outcome A
  error : Error → Env → Outcome A
  fault : Outcome A
  out_of_fuel : Outcome A

abbrev pub M : Type 0 → Type 0
M A = Env → Outcome A

abbrev pub and_then : {A B : Type 0} → Outcome A → (A → M B) → Outcome B
and_then (ok a e) k = k a e
and_then (error x e) k = error x e
and_then fault k = fault
and_then out_of_fuel k = out_of_fuel

unfoldable pub pure : {A : Type 0} → A → M A
pure a e = ok a e

-- `execerror`, which does not return.
unfoldable pub raise : {A : Type 0} → Error → M A
raise x e = error x e

unfoldable pub undefined : {A : Type 0} → M A
undefined e = fault

infixl 5 ◌>>=◌ ◌>>◌
unfoldable pub ◌>>=◌ : {A B : Type 0} → M A → (A → M B) → M B
unfolding pure raise undefined
◌>>=◌ m k e = and_then (m e) k

abbrev pub ◌>>◌ : {B : Type 0} → M (Unit {0}) → M B → M B
m >> n = m >>= λ _. n
