-- ===== src/Memory/Capacity.antt =====
-- The size of the array: the loops that double memorymax, and ensure_capacity of src/utils.c.
use joy.Prelude.{
  ℕ, zero, suc, ◌+◌, ◌*◌, ◌<◌, ◌≡◌, ◌⊎◌, inl, inr, refl, true, false, ltb, if_keeps, Option, some,
  arith,
}
use joy.Memory.Allocate.{Space, doubled, enlarged, ensure_capacity, newnode, place}
use joy.Memory.Nodes.{Value}

doubled-lt :
    (fuel needed max : ℕ) → 0 < max → needed < fuel + max → needed < doubled fuel needed max
unfolding doubled
doubled-lt zero needed max p h = omega (arith, h)
doubled-lt (suc fuel) needed max p h =
    if_keeps (λ n. needed < n) (ltb needed max) _ _ (λ b. ground (arith, b))
      (λ _. doubled-lt fuel needed (2 * max) (omega (arith, p)) (omega (arith, p, h)))

-- An array that is not empty is doubled until it is larger than what is needed: the loop ends.
pub enlarged-lt : (needed max : ℕ) → 0 < max → needed < enlarged needed max
enlarged-lt needed max p = doubled-lt (suc needed) needed max p (omega (arith, p))

module _ (low fuel : ℕ) (s : Space) where
  -- Where the array is not empty, and there is room or the collector is disabled, ensure_capacity
  -- returns a space with room for the nodes, with the same nodes and registers.
  pub ensure_capacity-room :
      (num : ℕ)
      → 0 < s.max
      → (s.index + num < s.max) ⊎ (s.busy ≡ true)
      → (l : Space) × (ensure_capacity low fuel s num ≡ some l)
        × (l.index + num < l.max)
        × (l.memory ≡ s.memory)
        × (l.roots ≡ s.roots)
  unfolding ensure_capacity
  ensure_capacity-room num p h =
      if_keeps Room (ltb (s.index + num) s.max) _ _ (λ b. (s, refl, ground (arith, b), refl, refl))
        (λ b.
          if_keeps Room s.busy _ _
            (λ _. (
              record s { max = enlarged (s.index + num) s.max },
              refl,
              enlarged-lt (s.index + num) s.max p,
              refl,
              refl,
            ))
            (λ d. absurd (excluded h b d)))
    where
      Room : Option Space → Type 0
      Room o =
          (l : Space) × (o ≡ some l)
          × (l.index + num < l.max)
          × (l.memory ≡ s.memory)
          × (l.roots ≡ s.roots)

      excluded :
          (s.index + num < s.max) ⊎ (s.busy ≡ true)
          → ltb (s.index + num) s.max ≡ false
          → s.busy ≡ false
          → ⊥
      excluded (inl l) b d = ground (arith, l, b)
      excluded (inr e) b d = cc

  -- Where the array is not empty and there is room or the collector is disabled, the nodes of the new
  -- value lie within the array of newnode.
  pub newnode-room :
      (v : Value) (r : ℕ)
      → 0 < s.max
      → (s.index + 1 < s.max) ⊎ (s.busy ≡ true)
      → (l : Space) × (newnode low fuel s v r ≡ some (s.index, l))
        × (l.index ≡ s.index + 1)
        × (l.index < l.max)
  unfolding newnode place
  newnode-room v r p h =
      if_keeps Room (ltb (s.index + 1) s.max) _ _ (λ b. (_, refl, refl, ground (arith, b)))
        (λ b.
          if_keeps Room s.busy _ _ (λ _. (_, refl, refl, enlarged-lt (s.index + 1) s.max p))
            (λ d. absurd (excluded h b d)))
    where
      Room : Option (ℕ × Space) → Type 0
      Room o = (l : Space) × (o ≡ some (s.index, l)) × (l.index ≡ s.index + 1) × (l.index < l.max)

      excluded :
          (s.index + 1 < s.max) ⊎ (s.busy ≡ true)
          → ltb (s.index + 1) s.max ≡ false
          → s.busy ≡ false
          → ⊥
      excluded (inl l) b d = ground (arith, l, b)
      excluded (inr e) b d = cc
