-- ===== src/Combinators/Members.antt =====
-- The members of an aggregate, in the order in which the loops of the combinators visit them, and
-- the steps that all combinators share.
use joy.Prelude.{ℕ, zero, suc, ◌+◌, if◌then◌else◌, Bool, List, [], ◌∷◌, Option, none, some}
use joy.Prelude.Int.{pos}
use joy.Word.{of_byte}
use joy.Bits.{test, setsize}
use joy.Syntax.{Factor, Term, nil, ◌⊳◌, char, integer, set, string, list}
use joy.Machine.{M, pure, ◌>>=◌}
use joy.Machine.Host.{Host}
use joy.Machine.Macros.{get_stack, saved, lis}
use joy.Compare.{get_boolean}

-- for (i = 0; i < SETSIZE; i++) if (set & 1 << i) …: `w` rounds are left.
unfoldable pub set_members : ℕ → ℕ → ℕ → Term
set_members zero i a = nil
set_members (suc w) i a =
    let others = set_members w (i + 1) a in if test i a then integer (pos i) ⊳ others else others

abbrev pub string_members : List ℕ → Term
string_members [] = nil
string_members (c ∷ s) = char (of_byte c) ⊳ string_members s

-- `none` for what is no aggregate.
unfoldable pub members : Factor → Option Term
members (list t) = some t
members (string s) = some (string_members s)
members (set a) = some (set_members setsize 0 a)
members _ = none

-- exec_term(env, nodevalue(SAVEDk).lis)
unfoldable pub exec_saved : (Term → M (Unit {0})) → (Term → Term) → M (Unit {0})
exec_saved exec position = do s ← saved; q ← lis (position s); exec q

-- result = get_boolean(env, env->stck)
unfoldable pub result : Host → M Bool
result host = do s ← get_stack; pure (get_boolean host s)
