-- ===== src/Memory/Allocate.antt =====
-- newnode of src/utils.c, with count and gc2.
use joy.Prelude.{
  ℕ, zero, suc, ◌+◌, ◌*◌, ◌/◌, ltb, Bool, if◌then◌else◌, List, [], ◌∷◌, Option, none, some,
}
use joy.Memory.Nodes.{Value, lis, Memory, store}
use joy.Memory.Collector.{Heap}
use joy.Memory.Variables.{Variable, gc1_variables}

-- memory, memoryindex, memorymax, flibrary_busy, the registers that gc1 copies, and the
-- entries of the symbol table from the last one down, of which gc1 copies variables
pub record Space : Type 0 where
  pub memory : Memory
  pub index : ℕ
  pub max : ℕ
  pub busy : Bool
  pub roots : List ℕ
  pub variable_busy : Bool
  pub variables : List Variable

-- while (needed >= memorymax) memorymax *= 2
unfoldable pub doubled : ℕ → ℕ → ℕ → ℕ
doubled zero needed max = max
doubled (suc fuel) needed max =
    let rest = doubled fuel needed (2 * max) in if ltb needed max then max else rest

abbrev pub enlarged : ℕ → ℕ → ℕ
enlarged needed max = doubled (suc needed) needed max

-- The check of memorymax in gc2
unfoldable pub resized : ℕ → ℕ → ℕ
resized index max =
    if ltb (index * 100) (max * 10)
    then max * 9 / 10
    else if ltb (max * 90) (index * 100)
    then max * 2
    else max

-- The node at the index is filled.
unfoldable pub place : Space → Value → ℕ → ℕ × Space
place s v r = (
  s.index,
  record s {
    memory = store s.memory s.index (record { value = v; next = r });
    index = s.index + 1;
  },
)

-- The parameters of newnode that gc1 copies: those of a list, and the successor
abbrev pub params_of : Value → ℕ → List ℕ
params_of (lis q) r = q ∷ r ∷ []
params_of _ r = r ∷ []

abbrev pub place_list : Space → List ℕ → Option (ℕ × Space)
place_list s (q ∷ r ∷ []) = some (place s (lis q) r)
place_list s _ = none

abbrev pub place_atom : Space → Value → List ℕ → Option (ℕ × Space)
place_atom s v (r ∷ []) = some (place s v r)
place_atom s v _ = none

abbrev pub place_moved : Space → Value → List ℕ → Option (ℕ × Space)
place_moved s (lis _) params = place_list s params
place_moved s v params = place_atom s v params

abbrev pub plus : ℕ → Option ℕ → Option ℕ
plus n none = none
plus n (some k) = some (n + k)

abbrev pub add : Option ℕ → Option ℕ → Option ℕ
add none k = none
add (some n) k = plus n k

-- The array after gc1, and its size after gc2
abbrev pub after_gc : Space → List ℕ → List Variable → Heap → Space
after_gc s roots xs c = record s {
  memory = c.memory;
  index = c.index;
  max = resized c.index s.max;
  roots = roots;
  variables = xs;
}

module _ (mem_low : ℕ) where
  abbrev pub count_value : (ℕ → Option ℕ) → Value → Option ℕ
  count_value inside (lis q) = plus 1 (inside q)
  count_value inside v = some 1

  -- The successor is not followed.
  unfoldable pub count : ℕ → Memory → ℕ → Option ℕ
  count zero m n = none
  count (suc fuel) m n =
      let inside = count_value (λ q. count fuel m q) (m n).value in
      if ltb n mem_low then some 0 else inside

  -- numgc
  abbrev pub count_all : ℕ → Memory → ℕ → List ℕ → Option ℕ
  count_all fuel m num [] = some num
  count_all fuel m num (p ∷ ps) = add (count fuel m p) (count_all fuel m num ps)

  -- gc2, and the new node
  abbrev pub collected :
      Space → Value → Option (List ℕ × List ℕ × List Variable × Heap) → Option (ℕ × Space)
  collected s v none = none
  collected s v (some (roots, params, xs, c)) = place_moved (after_gc s roots xs c) v params

  -- memorymax is enlarged first, and the new array has that size.
  abbrev pub with_room : ℕ → Space → Value → ℕ → Option ℕ → Option (ℕ × Space)
  with_room fuel s v r none = none
  with_room fuel s v r (some numgc) =
      collected (record s { max = enlarged (s.index + numgc) s.max }) v
        (gc1_variables mem_low fuel s.memory s.roots (params_of v r) s.variable_busy s.variables)

  unfoldable pub newnode : ℕ → Space → Value → ℕ → Option (ℕ × Space)
  unfolding place gc1_variables count doubled resized
  newnode fuel s v r =
      if ltb (s.index + 1) s.max
      then some (place s v r)
      else if s.busy
      then some (place (record s { max = enlarged (s.index + 1) s.max }) v r)
      else with_room fuel s v r (count_all fuel s.memory 1 (params_of v r))

  unfoldable pub newnode2 : ℕ → Space → ℕ → ℕ → Option (ℕ × Space)
  unfolding newnode
  newnode2 fuel s p r = newnode fuel s (s.memory p).value r

  abbrev pub roots_collected :
      Space → Option (List ℕ × List ℕ × List Variable × Heap) → Option Space
  roots_collected s none = none
  roots_collected s (some (roots, _, xs, c)) = some (after_gc s roots xs c)

  unfoldable pub gc_collect : ℕ → Space → Option Space
  unfolding gc1_variables resized
  gc_collect fuel s =
      roots_collected s (gc1_variables mem_low fuel s.memory s.roots [] s.variable_busy s.variables)

  unfoldable pub ensure_capacity : ℕ → Space → ℕ → Option Space
  unfolding gc1_variables doubled resized
  ensure_capacity fuel s num =
      let larger = record s { max = enlarged (s.index + num) s.max } in
      if ltb (s.index + num) s.max
      then some s
      else if s.busy
      then some larger
      else roots_collected larger
          (gc1_variables mem_low fuel s.memory s.roots [] s.variable_busy s.variables)
