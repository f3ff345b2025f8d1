-- ===== src/Memory/NewNode.antt =====
-- newnode of src/utils.c on all its branches: with room, with a larger array, and with a collection.
use mathlib.Core.Path.{subst}
use joy.Prelude.{ℕ, ◌+◌, ◌≤◌, ◌<◌, ◌≡◌, refl, sym, false, ltb, if_keeps, List, [], ◌∷◌, some, arith}
use joy.Syntax.{Factor, Term, ◌⊳◌, list}
use joy.Memory.Nodes.{is_compound, Value, atom, lis}
use joy.Memory.Allocate.{
  Space, params_of, place_list, place_atom, place_moved, count, count_all, after_gc, collected,
  with_room, enlarged, newnode, newnode2,
}
use joy.Memory.Represents.{
  Represents-cell, Represents, Holds, holds_list, holds_atom, size, factor_size,
}
use joy.Memory.Preserve.{AllRepresent, AllBelow}
use joy.Memory.Scan.{gc1_variables-Represents}
use joy.Memory.Cons.{Terms, Keeps, Made, place-Made, Counts, count-Counts, add-Counts}

module _ (low fuel : ℕ) (s : Space) (ts : Terms) (t : Term) (r : ℕ) (k : Keeps low s ts)
    (g : Represents s.memory s.index t r) (below : AllBelow fuel ts.registers)
    (variables_below : AllBelow fuel ts.variables) (enough : size t < fuel) where
  count_r : Counts low (count low fuel s.memory r)
  count_r = count-Counts low s.memory s.index k.ready.positive fuel t r g enough

  -- The parameters have moved, and the node is made of them.
  placed_list :
      (l : Space) (u : Term) (q : ℕ) (params : List ℕ)
      → Keeps low l ts
      → AllRepresent l.memory l.index (u ∷ t ∷ []) params
      → Made low ts (list u) t (place_list l params)
  placed_list l u q [] w h = absurd h
  placed_list l u q (p ∷ []) w (_, h) = absurd h
  placed_list l u q (p ∷ n ∷ []) w (h, (i, _)) =
      place-Made low l ts (list u) t (lis p) n w (holds_list u (lis p) p refl h) i
  placed_list l u q (p ∷ n ∷ m ∷ ps) w (_, (_, h)) = absurd h

  placed_atom :
      (l : Space) (x : Factor) (params : List ℕ) (a : is_compound x ≡ false)
      → Keeps low l ts
      → AllRepresent l.memory l.index (t ∷ []) params
      → Made low ts x t (place_atom l (atom x a) params)
  placed_atom l x [] a w h = absurd h
  placed_atom l x (n ∷ []) a w (i, _) =
      place-Made low l ts x t (atom x a) n w (holds_atom x (atom x a) a refl) i
  placed_atom l x (n ∷ m ∷ ps) a w (_, h) = absurd h

  -- A collection, with the terms of the parameters
  room :
      (v : Value) (x : Factor) (us : List Term)
      → AllRepresent s.memory s.index us (params_of v r)
      → AllBelow fuel us
      → Counts low (count_all low fuel s.memory 1 (params_of v r))
      → ((l : Space) (params : List ℕ)
          → Keeps low l ts
          → AllRepresent l.memory l.index us params
          → Made low ts x t (place_moved l v params))
      → Made low ts x t (with_room low fuel s v r (count_all low fuel s.memory 1 (params_of v r)))
  unfolding Counts
  room v x us h l (numgc, e) place_it =
      let (moved, others, xs, c, eq, roots, params, variables, ready, reached) =
        gc1_variables-Represents s.memory s.index low k.ready fuel ts.registers us ts.variables
          s.roots (params_of v r) s.variable_busy s.variables k.roots h k.variables below l
          variables_below in
      let larger = record s { max = enlarged (s.index + numgc) s.max } in
      subst (λ o. Made low ts x t (with_room low fuel s v r o)) (sym e)
        (subst (λ o. Made low ts x t (collected low larger v o)) (sym eq)
          (place_it (after_gc larger moved xs c) others
            (record { ready = ready; reached = reached; roots = roots; variables = variables })
            params))

  collected-Made :
      (x : Factor) (v : Value)
      → Holds s.memory s.index x v
      → factor_size x ≤ fuel
      → Made low ts x t (with_room low fuel s v r (count_all low fuel s.memory 1 (params_of v r)))
  unfolding Counts size
  collected-Made x v (holds_list u _ q e h) l =
      subst
        (λ v.
          Made low ts (list u) t
            (with_room low fuel s v r (count_all low fuel s.memory 1 (params_of v r))))
        (sym e)
        (room (lis q) (list u) (u ∷ t ∷ []) (h, (g, tt)) (omega (arith, l), (enough, tt))
          (add-Counts low (count low fuel s.memory q) _
            (count-Counts low s.memory s.index k.ready.positive fuel u q h (omega (arith, l)))
            (add-Counts low (count low fuel s.memory r) _ count_r (1, refl)))
          (λ l ps w h. placed_list l u q ps w h))
  collected-Made x v (holds_atom _ _ a e) l =
      subst
        (λ v.
          Made low ts x t
            (with_room low fuel s v r (count_all low fuel s.memory 1 (params_of v r))))
        (sym e)
        (room (atom x a) x (t ∷ []) (g, tt) (enough, tt)
          (add-Counts low (count low fuel s.memory r) _ count_r (1, refl))
          (λ l ps w h. placed_atom l x ps a w h))

  pub newnode-Represents :
      (x : Factor) (v : Value)
      → Holds s.memory s.index x v
      → factor_size x ≤ fuel
      → (p : ℕ) × (s' : Space) × (newnode low fuel s v r ≡ some (p, s'))
        × Represents s'.memory s'.index (x ⊳ t) p
        × Keeps low s' ts
  unfolding newnode
  newnode-Represents x v h l =
      if_keeps (Made low ts x t) (ltb (s.index + 1) s.max) _ _
        (λ _. place-Made low s ts x t v r k h g)
        (λ _.
          if_keeps (Made low ts x t) s.busy _ _
            (λ _.
              place-Made low (record s { max = enlarged (s.index + 1) s.max }) ts x t v r
                (record {
                  ready = k.ready;
                  reached = k.reached;
                  roots = k.roots;
                  variables = k.variables;
                })
                h g)
            (λ _. collected-Made x v h l))

  -- Under the same conditions, newnode2 returns an index that stands for the first value of what `p`
  -- stands for, followed by what `r` stands for, in a space in which the registers and the variables in
  -- use stand for what they stood for, where the fuel is above the sizes of the terms.
  pub newnode2-Represents :
      (x : Factor) (u : Term) (p : ℕ)
      → Represents s.memory s.index (x ⊳ u) p
      → factor_size x ≤ fuel
      → (q : ℕ) × (s' : Space) × (newnode2 low fuel s p r ≡ some (q, s'))
        × Represents s'.memory s'.index (x ⊳ t) q
        × Keeps low s' ts
  unfolding newnode2
  newnode2-Represents x u p h l =
      let (_, _, own, _) = Represents-cell s.memory s.index x u p h in
      newnode-Represents x (s.memory p).value own l
