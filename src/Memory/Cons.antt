-- ===== src/Memory/Cons.antt =====
-- newnode of src/utils.c makes the cell that the terms of Syntax call `x ⊳ t`.
use mathlib.Core.Path.{subst}
use joy.Prelude.{
  true, ℕ, zero, suc, ◌+◌, ◌≤◌, ◌<◌, ◌≡◌, ◌≢◌, refl, sym, ap, ◌∙◌, ltb, if_keeps, List, [], ◌∷◌,
  Option, some, arith,
}
use joy.Syntax.{Factor, Term, ◌⊳◌}
use joy.Memory.Nodes.{Value, copied, Node, Memory, store}
use joy.Memory.Allocate.{Space, place, count, count_value, add, plus}
use joy.Memory.Represents.{
  Represents, empty, cell, Holds, holds_list, holds_atom, size, factor_size, Represents-agree,
  Holds-agree,
}
use joy.Memory.Forward.{store_same, store_other, store_keeps}
use joy.Memory.Variables.{Variable}
use joy.Memory.Scan.{VariablesRepresent}
use joy.Memory.Preserve.{AllRepresent, IsReady}

pub AllRepresent-agree :
    (m n : Memory) (low high : ℕ)
    → low ≤ high
    → ((i : ℕ) → i < low → n i ≡ m i)
    → (ts : List Term) (ps : List ℕ) → AllRepresent m low ts ps
    → AllRepresent n high ts ps
AllRepresent-agree m n low high le agree [] [] h = tt
AllRepresent-agree m n low high le agree [] (p ∷ ps) h = absurd h
AllRepresent-agree m n low high le agree (t ∷ ts) [] h = absurd h
AllRepresent-agree m n low high le agree (t ∷ ts) (p ∷ ps) (h, hs) = (
  Represents-agree m n low high le agree t p h,
  AllRepresent-agree m n low high le agree ts ps hs,
)

VariablesRepresent-agree :
    (m n : Memory) (low high : ℕ)
    → low ≤ high
    → ((i : ℕ) → i < low → n i ≡ m i)
    → (ts : List Term) (xs : List Variable) → VariablesRepresent m low ts xs
    → VariablesRepresent n high ts xs
VariablesRepresent-agree m n low high le agree [] [] h = tt
VariablesRepresent-agree m n low high le agree [] (x ∷ xs) h = absurd h
VariablesRepresent-agree m n low high le agree (t ∷ ts) [] h = absurd h
VariablesRepresent-agree m n low high le agree (t ∷ ts) (x ∷ xs) h = λ u.
    let (own, others) = h u in
    (
      (λ r. Represents-agree m n low high le agree t x.body (own r)),
      (λ l. VariablesRepresent-agree m n low high le agree ts xs (others l)),
    )

-- The terms that the registers and the variables stand for
pub record Terms : Type 0 where
  pub registers : List Term
  pub variables : List Term

-- What a space keeps: its registers and variables stand for the terms.
pub record Keeps (low : ℕ) (s : Space) (ts : Terms) : Type 0 where
  pub ready : IsReady s.memory low
  pub reached : low ≤ s.index
  pub roots : AllRepresent s.memory s.index ts.registers s.roots
  pub variables :
      s.variable_busy ≡ true → VariablesRepresent s.memory s.index ts.variables s.variables

module _ (low : ℕ) where
  -- The new index stands for the cell.
  abbrev pub Made : Terms → Factor → Term → Option (ℕ × Space) → Type 0
  Made ts x t o =
      (p : ℕ) × (s : Space) × (o ≡ some (p, s))
      × Represents s.memory s.index (x ⊳ t) p
      × Keeps low s ts

  Holds-uncopied :
      (m : Memory) (b : ℕ) (x : Factor) (v : Value) → Holds m b x v → (f : ℕ) → v ≢ copied f
  Holds-uncopied m b x v (holds_list t _ q e r) f g = let clash = sym e ∙ g in cc
  Holds-uncopied m b x v (holds_atom _ _ a e) f g = let clash = sym e ∙ g in cc

  pub place-Made :
      (s : Space) (ts : Terms) (x : Factor) (t : Term) (v : Value) (r : ℕ)
      → Keeps low s ts
      → Holds s.memory s.index x v
      → Represents s.memory s.index t r
      → Made ts x t (some (place s v r))
  unfolding place
  place-Made s ts x t v r k h g = (
    s.index,
    record s { memory = m; index = s.index + 1 },
    refl,
    cell x t s.index (λ z. omega (arith, k.reached, k.ready.positive, z)) (omega arith)
        (subst (λ (y : Node). Holds m (s.index + 1) x y.value)
          (sym (store_same s.memory s.index new))
          (Holds-agree s.memory m s.index (s.index + 1) (omega arith) below x v h))
        (subst (λ (y : Node). Represents m (s.index + 1) t y.next)
          (sym (store_same s.memory s.index new))
          (Represents-agree s.memory m s.index (s.index + 1) (omega arith) below t r g)),
    record {
      ready = record {
        positive = k.ready.positive;
        uncopied = λ a f.
            store_keeps (λ y. y.value ≢ copied f) s.memory s.index new a
              (λ _. Holds-uncopied s.memory s.index x v h f) (λ _. k.ready.uncopied a f);
        next_closed = λ p l.
            subst (λ (y : Node). y.next < low) (sym (below p (omega (arith, l, k.reached))))
              (k.ready.next_closed p l);
        list_closed = λ p q l e.
            k.ready.list_closed p q l
              (ap (λ (y : Node). y.value) (sym (below p (omega (arith, l, k.reached)))) ∙ e);
      };
      reached = omega (arith, k.reached);
      roots =
          AllRepresent-agree s.memory m s.index (s.index + 1) (omega arith) below ts.registers
            s.roots k.roots;
      variables = λ b.
          VariablesRepresent-agree s.memory m s.index (s.index + 1) (omega arith) below ts.variables
            s.variables (k.variables b);
    },
  )
    where
      new : Node
      new = record { value = v; next = r }

      m : Memory
      m = store s.memory s.index new

      below : (i : ℕ) → i < s.index → m i ≡ s.memory i
      below i l = store_other s.memory s.index new i (λ e. omega (arith, l, e))

  -- count returns where the fuel is above the size of the term.
  unfoldable pub Counts : Option ℕ → Type 0
  Counts o = (n : ℕ) × (o ≡ some n)

  pub plus-Counts : (n : ℕ) (o : Option ℕ) → Counts o → Counts (plus n o)
  unfolding Counts
  plus-Counts n o (k, e) = (n + k, ap (plus n) e)

  pub add-Counts : (o u : Option ℕ) → Counts o → Counts u → Counts (add o u)
  unfolding Counts
  add-Counts o u (n, e) (k, f) = (n + k, ap (λ z. add z u) e ∙ ap (plus n) f)

  module _ (m : Memory) (bound : ℕ) (positive : 0 < low) where
    mutual
      unfolding count Counts size factor_size

      pub count-Counts :
          (fuel : ℕ) (t : Term) (n : ℕ)
          → Represents m bound t n
          → size t < fuel
          → Counts (count low fuel m n)
      count-Counts zero t n r l = absurd (omega (arith, l))
      count-Counts (suc fuel) t n (empty _ e) l =
          if_keeps Counts (ltb n low) _ _ (λ _. (0, refl))
            (λ b. absurd (ground (arith, b, e, positive)))
      count-Counts (suc fuel) t n (cell x u _ z b h r) l =
          if_keeps Counts (ltb n low) _ _ (λ _. (0, refl))
            (λ _. count_value-Counts fuel x (m n).value h (omega (arith, l)))

      count_value-Counts :
          (fuel : ℕ) (x : Factor) (v : Value)
          → Holds m bound x v
          → factor_size x ≤ fuel
          → Counts (count_value low (λ q. count low fuel m q) v)
      count_value-Counts fuel x v (holds_list t _ q e r) l =
          subst (λ v. Counts (count_value low (λ q. count low fuel m q) v)) (sym e)
            (plus-Counts 1 (count low fuel m q) (count-Counts fuel t q r (omega (arith, l))))
      count_value-Counts fuel x v (holds_atom _ _ a e) l =
          subst (λ v. Counts (count_value low (λ q. count low fuel m q) v)) (sym e) (1, refl)
