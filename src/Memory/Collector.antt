-- ===== src/Memory/Collector.antt =====
-- The collector of src/utils.c: copy_one, copy, and the roots in gc1.
use joy.Prelude.{
  ℕ, zero, suc, ◌==◌, ltb, ◌&&◌, not, if◌then◌else◌, List, [], ◌∷◌, Option, none, some,
}
use joy.Memory.Nodes.{Value, lis, copied, Node, Memory, store, zero_node}

-- old_memory, memory and memoryindex
pub record Heap : Type 0 where
  pub old : Memory
  pub memory : Memory
  pub index : ℕ

-- A copy runs on fuel; without enough there is no result.
abbrev pub Copier : Type 0
Copier = Heap → ℕ → Option (ℕ × Heap)

abbrev pub copied_to : Value → Option ℕ
copied_to (copied f) = some f
copied_to _ = none

-- memory[temp = memoryindex++] = old_memory[n]
unfoldable pub allocate : Heap → Node → Heap
allocate c x = record c { memory = store c.memory c.index x; index = suc c.index }

-- old_memory[n].op = COPIED_, old_memory[n].u.lis = temp
unfoldable pub mark : ℕ → ℕ → Heap → Heap
mark n temp c = record c { old = store c.old n (record (c.old n) { value = copied temp }) }

unfoldable pub set_lis : ℕ → ℕ → Heap → Heap
set_lis temp q c = record c {
  memory = store c.memory temp (record (c.memory temp) { value = lis q });
}

unfoldable pub set_next : ℕ → ℕ → Heap → Heap
set_next tail p c = record c { memory = store c.memory tail (record (c.memory tail) { next = p }) }

abbrev pub with_list : ℕ → ℕ → Option (ℕ × Heap) → Option (ℕ × Heap)
with_list n temp none = none
with_list n temp (some (q, c)) = some (temp, mark n temp (set_lis temp q c))

-- The rest of copy_one: the list of a LIST_ node is copied, and the old node is marked.
abbrev pub copy_value : Copier → Heap → ℕ → ℕ → Value → Option (ℕ × Heap)
copy_value copy c n temp (lis q) = with_list n temp (copy c q)
copy_value copy c n temp _ = some (temp, mark n temp c)

abbrev pub with_root : ℕ → Option (List ℕ × Heap) → Option (List ℕ × Heap)
with_root p none = none
with_root p (some (ps, c)) = some (p ∷ ps, c)

module _ (mem_low : ℕ) where
  abbrev pub copy_new : Copier → Heap → ℕ → Option ℕ → Option (ℕ × Heap)
  copy_new copy c n (some f) = some (f, c)
  copy_new copy c n none = copy_value copy (allocate c (c.old n)) n c.index (c.old n).value

  unfoldable pub copy_one : Copier → Copier
  unfolding allocate mark set_lis
  copy_one copy c n =
      if ltb n mem_low then some (n, c) else copy_new copy c n (copied_to (c.old n).value)

  -- `tail` is linked to the node, or the node is the head.
  abbrev pub link : ℕ → ℕ → Heap → Heap
  link tail p c = if tail == 0 then c else set_next tail p c

  abbrev pub or_head : ℕ → ℕ → ℕ
  or_head head p = if head == 0 then p else head

  -- The chain ends in the space of the definitions.
  abbrev pub finish : ℕ → ℕ → ℕ → Heap → ℕ × Heap
  finish head tail current c =
      (head, if not (current == 0) && not (tail == 0) then set_next tail current c else c)

  -- A node that is copied is appended, with no successor yet.
  abbrev pub append_node : ℕ → ℕ → ℕ → Heap → Heap
  append_node head tail p c = set_next p 0 (if head == 0 then c else set_next tail p c)

  abbrev pub appended :
      ℕ → ℕ → ℕ → (ℕ → ℕ → ℕ → Heap → Option (ℕ × Heap)) → Option (ℕ × Heap) → Option (ℕ × Heap)
  appended head tail next more none = none
  appended head tail next more (some (p, c)) =
      more (or_head head p) p next (append_node head tail p c)

  abbrev pub loop_at :
      ℕ
      → ℕ
      → ℕ
      → Heap
      → (ℕ → ℕ → ℕ → Heap → Option (ℕ × Heap))
      → Option (ℕ × Heap)
      → Option ℕ
      → Option (ℕ × Heap)
  loop_at head tail current c more one (some f) =
      some (if tail == 0 then f else head, link tail f c)
  loop_at head tail current c more one none = appended head tail (c.old current).next more one

  -- The loop of copy, with head, tail and current. The successor is read before the node is copied.
  unfoldable pub copy_loop : Copier → ℕ → ℕ → ℕ → ℕ → Heap → Option (ℕ × Heap)
  unfolding copy_one set_next
  copy_loop copy zero head tail current c = none
  copy_loop copy (suc fuel) head tail current c =
      if ltb current mem_low
      then some (finish head tail current c)
      else loop_at head tail current c (λ h t n d. copy_loop copy fuel h t n d)
          (copy_one copy c current) (copied_to (c.old current).value)

  abbrev pub copy_from : Heap → ℕ → Option (ℕ × Heap) → Option ℕ → Option (ℕ × Heap)
  copy_from c n chain (some f) = some (f, c)
  copy_from c n chain none = chain

  -- The lists within a chain are copied with one unit of fuel less.
  unfoldable pub copy : ℕ → Copier
  unfolding copy_loop
  copy zero c n = none
  copy (suc fuel) c n =
      let chain = copy_loop (λ d q. copy fuel d q) (suc fuel) 0 0 n c in
      if ltb n mem_low then some (n, c) else copy_from c n chain (copied_to (c.old n).value)

  abbrev pub cons_root :
      Option (ℕ × Heap) → (Heap → Option (List ℕ × Heap)) → Option (List ℕ × Heap)
  cons_root none more = none
  cons_root (some (p, c)) more = with_root p (more c)

  -- COP2, of one root after the other
  unfoldable pub copy_roots : ℕ → List ℕ → Heap → Option (List ℕ × Heap)
  unfolding copy
  copy_roots fuel [] c = some ([], c)
  copy_roots fuel (r ∷ rs) c =
      cons_root (if r == 0 then some (0, c) else copy fuel c r) (λ d. copy_roots fuel rs d)

  -- The nodes of the definitions, and cleared nodes after them
  abbrev pub definitions : Memory → Memory
  definitions m i = if ltb i mem_low then m i else zero_node

  abbrev pub with_params : List ℕ → Option (List ℕ × Heap) → Option (List ℕ × List ℕ × Heap)
  with_params roots none = none
  with_params roots (some (params, c)) = some (roots, params, c)

  abbrev pub then_params :
      Option (List ℕ × Heap) → (Heap → Option (List ℕ × Heap)) → Option (List ℕ × List ℕ × Heap)
  then_params none more = none
  then_params (some (roots, c)) more = with_params roots (more c)

  -- gc1: the stack, the program, conts and the dumps are the roots, and then come the parameters of
  -- newnode. The array that they are copied to is cleared but for the definitions.
  unfoldable pub gc1 : ℕ → Memory → List ℕ → List ℕ → Option (List ℕ × List ℕ × Heap)
  unfolding copy_roots
  gc1 fuel m roots params =
      then_params
        (copy_roots fuel roots (record { old = m; memory = definitions m; index = mem_low }))
        (λ c. copy_roots fuel params c)
