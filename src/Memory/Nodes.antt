-- ===== src/Memory/Nodes.antt =====
-- The array of nodes of src/utils.c, for the values that take one node each.
use joy.Prelude.{ℕ, ◌≡◌, refl, Bool, true, false, ◌==◌, if◌then◌else◌}
use joy.Syntax.{Factor, illegal, string, bignum, list}

-- The values that are more than their node: a list has a chain of its own, and the bytes of a string or
-- a big number go on in the nodes after it.
abbrev pub is_compound : Factor → Bool
is_compound (list _) = true
is_compound (string _) = true
is_compound (bignum _) = true
is_compound _ = false

-- The operator of a node with its value: LIST_ with the index of a chain, COPIED_ with the index of the
-- node's copy, and each other operator with the value that it has as a `Factor`. STRING_ and BIGNUM_,
-- which take more nodes, are left out.
pub data Value : Type 0 where
  atom : (x : Factor) → is_compound x ≡ false → Value
  lis : ℕ → Value
  copied : ℕ → Value

pub record Node : Type 0 where
  pub value : Value
  pub next : ℕ

abbrev pub Memory : Type 0
Memory = ℕ → Node

-- memory[n] = x
abbrev pub store : Memory → ℕ → Node → Memory
store m n x i = if i == n then x else m i

-- What `calloc` leaves in a node
abbrev pub zero_node : Node
zero_node = record { value = atom illegal refl; next = 0 }
