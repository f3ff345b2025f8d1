-- ===== src/Examples/Nodes.antt =====
-- The theorems on the node array at an array of four nodes, of which one is a definition and one is
-- garbage: `[7 1] 7 1`, where the list and the rest share their nodes.
use joy.Memory.Variables.{Variable}
use joy.Prelude.{ℕ, ◌≡◌, refl, true, false, List, [], ◌∷◌, some}
use joy.Prelude.Int.{pos}
use joy.Syntax.{Term, nil, ◌⊳◌, integer, list}
use joy.Memory.Nodes.{Value, atom, lis, Memory, store, zero_node}
use joy.Memory.Represents.{Represents}
use joy.Memory.Allocate.{Space, ensure_capacity}
use joy.Memory.Cons.{Terms}

abbrev num : ℕ → Value
num n = atom (integer (pos n)) refl

abbrev definition : Memory
definition = store (λ i. zero_node) 1 (record { value = num 1; next = 0 })

abbrev garbage : Memory
garbage = store definition 2 (record { value = num 9; next = 0 })

abbrev chain : Memory
chain = store garbage 3 (record { value = num 7; next = 1 })

abbrev array : Memory
array = store chain 4 (record { value = lis 3; next = 3 })

abbrev rest : Term
rest = integer (pos 7) ⊳ integer (pos 1) ⊳ nil

-- A variable that holds the list, marked as the last, and a builtin
abbrev variables : List Variable
variables =
    record { is_user = true; is_root = true; is_last = true; body = 4 }
    ∷ record { is_user = false; is_root = false; is_last = false; body = 0 }
    ∷ []

-- A full array, whose register is the list
abbrev full : Space
full = record {
  memory = array;
  index = 5;
  max = 6;
  busy = false;
  roots = 4 ∷ [];
  variable_busy = true;
  variables = variables;
}

abbrev terms : Terms
terms = record { registers = (list rest ⊳ rest) ∷ []; variables = (list rest ⊳ rest) ∷ nil ∷ [] }

-- Ten nodes of garbage in an array of 1100, where 2185 nodes are asked for: the array is enlarged to
-- 2200 nodes and, as it is nearly empty after the collection, reduced to 1980.
abbrev mostly_free : Space
mostly_free = record {
  memory = λ i. zero_node;
  index = 10;
  max = 1100;
  busy = false;
  roots = [];
  variable_busy = false;
  variables = [];
}

ensure_capacity_falls_short :
    (l : Space) × (ensure_capacity 1 1 mostly_free 2185 ≡ some l) × (l.index ≡ 1) × (l.max ≡ 1980)
unfolding ensure_capacity
ensure_capacity_falls_short = (_, refl, refl, refl)
