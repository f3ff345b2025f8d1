-- ===== src/Machine/Keeps.antt =====
-- Commands that leave the saved stacks as they found them, one rule for each way to build a command.
use joy.Prelude.{◌≡◌, refl, ◌∙◌, Bool, true, false, if◌then◌else◌, ap}
use joy.Syntax.{
  Factor, Term, nil, ◌⊳◌, nextnode1, list, illegal, boolean, char, integer, set, float,
}
use joy.Machine.{
  Env, Error, Outcome, ok, error, fault, out_of_fuel, M, and_then, pure, raise, undefined, ◌>>=◌,
}
use joy.Machine.Macros.{
  macros, get_stack, set_stack, nullary, unary, binary, gnullary, gunary, gbinary, gternary,
  pop_stack, check, one_param, two_params, three_params, four_params, five_params, one_quote,
  two_quotes, three_quotes, four_quotes, lis, get_dump, pop_dump, saved, saving, num, integer_top,
  list_top,
}

-- The chain of saved stacks where a command returns.
abbrev pub Post : {A : Type 0} → Term → Outcome A → Type 0
Post d (ok a e) = e.dump ≡ d
Post d _ = Unit {0}

-- The same below the stack that was saved last.
abbrev pub Below : {A : Type 0} → Term → Outcome A → Type 0
Below d (ok a e) = nextnode1 e.dump ≡ d
Below d _ = Unit {0}

pub record Keeps {A : Type 0} (m : M A) : Type 0 where
  pub at : (e : Env) → Post e.dump (m e)

pub Keeps-pure : {A : Type 0} (a : A) → Keeps (pure a)
unfolding pure
Keeps-pure a = record { at = λ e. refl }

pub Keeps-raise : {A : Type 0} (x : Error) → Keeps (raise {A = A} x)
unfolding raise
Keeps-raise x = record { at = λ e. tt }

pub Keeps-undefined : {A : Type 0} → Keeps (undefined {A = A})
unfolding undefined
Keeps-undefined = record { at = λ e. tt }

pub Keeps-out_of_fuel : {A : Type 0} → Keeps {A = A} (λ e. out_of_fuel)
Keeps-out_of_fuel = record { at = λ e. tt }

pub Keeps-if : {A : Type 0} (b : Bool) (m n : M A) → Keeps m → Keeps n → Keeps (if b then m else n)
Keeps-if true m n km kn = km
Keeps-if false m n km kn = kn

module _ {A B : Type 0} where
  after :
      (d : Term) (r : Outcome A) (k : A → M B)
      → Post d r
      → ((a : A) → Keeps (k a))
      → Post d (and_then r k)
  after d (ok a e) k h kk = weaken (k a e) ((kk a).at e)
    where
      weaken : (r : Outcome B) → Post e.dump r → Post d r
      weaken (ok b e') q = q ∙ h
      weaken (error x e') q = tt
      weaken fault q = tt
      weaken out_of_fuel q = tt
  after d (error x e) k h kk = tt
  after d fault k h kk = tt
  after d out_of_fuel k h kk = tt

  pub Keeps-bind : (m : M A) (k : A → M B) → Keeps m → ((a : A) → Keeps (k a)) → Keeps (m >>= k)
  unfolding ◌>>=◌
  Keeps-bind m k km kk = record { at = λ e. after e.dump (m e) k (km.at e) kk }

pub ruleset command_rules =
    (Keeps-pure, Keeps-raise, Keeps-undefined, Keeps-out_of_fuel, Keeps-if, Keeps-bind)

pub Keeps-get_stack : Keeps get_stack
unfolding get_stack
Keeps-get_stack = record { at = λ e. refl }

pub Keeps-set_stack : (s : Term) → Keeps (set_stack s)
unfolding set_stack
Keeps-set_stack s = record { at = λ e. refl }

pub Keeps-get_dump : Keeps get_dump
unfolding get_dump
Keeps-get_dump = record { at = λ e. refl }

pub Keeps-check : (b : Bool) (x : Error) → Keeps (check b x)
unfolding macros
Keeps-check true x = record { at = λ e. refl }
Keeps-check false x = record { at = λ e. tt }

pub ruleset basic = (command_rules, Keeps-get_stack, Keeps-set_stack, Keeps-get_dump, Keeps-check)

pub Keeps-nullary : (f : Factor) → Keeps (nullary f)
unfolding macros
Keeps-nullary f = record { at = λ e. refl }

pub Keeps-unary : (f : Factor) → Keeps (unary f)
unfolding macros
Keeps-unary f = record { at = λ e. refl }

pub Keeps-binary : (f : Factor) → Keeps (binary f)
unfolding macros
Keeps-binary f = record { at = λ e. refl }

pub Keeps-gnullary : (t : Term) → Keeps (gnullary t)
unfolding macros
Keeps-gnullary t = record { at = λ e. refl }

pub Keeps-gunary : (t : Term) → Keeps (gunary t)
unfolding macros
Keeps-gunary t = record { at = λ e. refl }

pub Keeps-gbinary : (t : Term) → Keeps (gbinary t)
unfolding macros
Keeps-gbinary t = record { at = λ e. refl }

pub Keeps-gternary : (t : Term) → Keeps (gternary t)
unfolding macros
Keeps-gternary t = record { at = λ e. refl }

pub Keeps-pop_stack : Keeps pop_stack
unfolding macros
Keeps-pop_stack = record { at = λ e. refl }

pub Keeps-lis : (t : Term) → Keeps (lis t)
unfolding lis
Keeps-lis nil = Keeps-pure nil
Keeps-lis (list t ⊳ _) = Keeps-pure t
Keeps-lis (_ ⊳ _) = Keeps-undefined

pub Keeps-num : (t : Term) → Keeps (num t)
unfolding num
Keeps-num nil = Keeps-pure _
Keeps-num (boolean z ⊳ _) = Keeps-pure z
Keeps-num (char z ⊳ _) = Keeps-pure z
Keeps-num (integer z ⊳ _) = Keeps-pure z
Keeps-num (set b ⊳ _) = Keeps-pure _
Keeps-num (float b ⊳ _) = Keeps-pure _
Keeps-num (illegal ⊳ _) = Keeps-pure _
Keeps-num (_ ⊳ _) = Keeps-undefined

pub Keeps-one_param : Keeps one_param
unfolding one_param
Keeps-one_param = search basic

pub Keeps-two_params : Keeps two_params
unfolding two_params
Keeps-two_params = search basic

pub Keeps-three_params : Keeps three_params
unfolding three_params
Keeps-three_params = search basic

pub Keeps-four_params : Keeps four_params
unfolding four_params
Keeps-four_params = search basic

pub Keeps-five_params : Keeps five_params
unfolding five_params
Keeps-five_params = search basic

pub Keeps-one_quote : Keeps one_quote
unfolding one_quote
Keeps-one_quote = search basic

pub Keeps-integer_top : Keeps integer_top
unfolding integer_top
Keeps-integer_top = search basic

pub Keeps-list_top : Keeps list_top
unfolding list_top
Keeps-list_top = search basic

pub Keeps-two_quotes : Keeps two_quotes
unfolding two_quotes
Keeps-two_quotes = search (basic, Keeps-one_quote)

pub Keeps-three_quotes : Keeps three_quotes
unfolding three_quotes
Keeps-three_quotes = search (basic, Keeps-two_quotes)

pub Keeps-four_quotes : Keeps four_quotes
unfolding four_quotes
Keeps-four_quotes = search (basic, Keeps-three_quotes)

pub Keeps-saved : Keeps saved
unfolding saved
Keeps-saved = search (basic, Keeps-lis)

-- What runs between SAVESTACK and POP(env->dump) may write to the saved stack, but not below it.
pub record KeepsBelow {A : Type 0} (m : M A) : Type 0 where
  pub at : (e : Env) → Below (nextnode1 e.dump) (m e)

pub Keeps-saving_below : (m : M (Unit {0})) → KeepsBelow m → Keeps (saving m)
unfolding saving
Keeps-saving_below m km = record {
  at = λ e.
      let e' : Env = record e { dump = list e.stck ⊳ e.dump } in restored e.dump (m e') (km.at e');
}
  where
    restored : (d : Term) (r : Outcome (Unit {0})) → Below d r → Post d (and_then r (λ _. pop_dump))
    restored d (ok a e') h = h
    restored d (error x e') h = tt
    restored d fault h = tt
    restored d out_of_fuel h = tt

pub KeepsBelow-of_Keeps : {A : Type 0} (m : M A) → Keeps m → KeepsBelow m
KeepsBelow-of_Keeps {A} m km = record { at = λ e. lower e.dump (m e) (km.at e) }
  where
    lower : (d : Term) (r : Outcome A) → Post d r → Below (nextnode1 d) r
    lower d (ok a e') h = ap nextnode1 h
    lower d (error x e') h = tt
    lower d fault h = tt
    lower d out_of_fuel h = tt

pub Keeps-saving : (m : M (Unit {0})) → Keeps m → Keeps (saving m)
Keeps-saving m km = Keeps-saving_below m (KeepsBelow-of_Keeps m km)

pub ruleset macro_rules = (
  basic, Keeps-nullary, Keeps-unary, Keeps-binary, Keeps-gnullary, Keeps-gunary, Keeps-gbinary,
  Keeps-gternary, Keeps-pop_stack, Keeps-lis, Keeps-num, Keeps-saved, Keeps-saving, Keeps-one_param,
  Keeps-two_params, Keeps-three_params, Keeps-four_params, Keeps-five_params, Keeps-one_quote,
  Keeps-integer_top, Keeps-list_top, Keeps-two_quotes, Keeps-three_quotes, Keeps-four_quotes,
)
