-- ===== src/Memory/Variables.antt =====
-- The variables among the roots: scan_roots of src/utils.c, at the end of gc1.
use joy.Prelude.{ℕ, ◌==◌, Bool, ◌&&◌, not, if◌then◌else◌, List, [], ◌∷◌, Option, none, some}
use joy.Memory.Nodes.{Memory}
use joy.Memory.Collector.{Heap, copy, gc1}

-- What is read of an entry of the symbol table
pub record Variable : Type 0 where
  pub is_user : Bool
  pub is_root : Bool
  pub is_last : Bool
  pub body : ℕ

module _ (mem_low : ℕ) where
  -- The body of a variable is copied, when it has one.
  abbrev pub copy_body : ℕ → Variable → Heap → Option (ℕ × Heap)
  copy_body fuel x c =
      if x.is_root && not (x.body == 0) then copy mem_low fuel c x.body else some (x.body, c)

  abbrev pub with_variable :
      Variable → Option (List Variable × Heap) → Option (List Variable × Heap)
  with_variable x none = none
  with_variable x (some (xs, c)) = some (x ∷ xs, c)

  -- The loop stops at the variable that is marked as the last.
  abbrev pub scanned :
      Variable
      → List Variable
      → (Heap → Option (List Variable × Heap))
      → Option (ℕ × Heap)
      → Option (List Variable × Heap)
  scanned x xs more none = none
  scanned x xs more (some (p, c)) =
      if x.is_last
      then some (record x { body = p } ∷ xs, c)
      else with_variable (record x { body = p }) (more c)

  -- The entries of the symbol table from the last one down to that with index 1. The loop stops at a
  -- builtin.
  unfoldable pub scan_roots : ℕ → List Variable → Heap → Option (List Variable × Heap)
  unfolding copy
  scan_roots fuel [] c = some ([], c)
  scan_roots fuel (x ∷ xs) c =
      let after = scanned x xs (λ d. scan_roots fuel xs d) (copy_body fuel x c) in
      if x.is_user then after else some (x ∷ xs, c)

  abbrev pub with_roots :
      List ℕ
      → List ℕ
      → Option (List Variable × Heap)
      → Option (List ℕ × List ℕ × List Variable × Heap)
  with_roots roots params none = none
  with_roots roots params (some (xs, c)) = some (roots, params, xs, c)

  abbrev pub then_variables :
      Option (List ℕ × List ℕ × Heap)
      → (Heap → Option (List Variable × Heap))
      → Option (List ℕ × List ℕ × List Variable × Heap)
  then_variables none scan = none
  then_variables (some (roots, params, c)) scan = with_roots roots params (scan c)

  -- gc1 with its last step, where `busy` is variable_busy
  unfoldable pub gc1_variables :
      ℕ
      → Memory
      → List ℕ
      → List ℕ
      → Bool
      → List Variable
      → Option (List ℕ × List ℕ × List Variable × Heap)
  unfolding gc1 scan_roots
  gc1_variables fuel m roots params busy xs =
      then_variables (gc1 mem_low fuel m roots params)
        (λ c. if busy then scan_roots fuel xs c else some (xs, c))
