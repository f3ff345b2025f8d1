-- ===== src/Memory/Forward.antt =====
-- The invariant of the collector: every node that is marked has a copy, with forwarded indices.
use mathlib.Core.Path.{subst}
use joy.Prelude.{
  ℕ, ◌≤◌, ◌<◌, ◌≡◌, ◌≢◌, ◌⊎◌, inl, inr, refl, sym, ap, Bool, true, false, ◌==◌, if◌then◌else◌,
  arith,
}
use joy.Syntax.{Term}
use joy.Memory.Nodes.{Value, atom, lis, copied, Node, Memory, store}
use joy.Memory.Collector.{Heap}
use joy.Memory.Represents.{Represents, size}

pub store_same : (m : Memory) (n : ℕ) (x : Node) → store m n x n ≡ x
store_same m n x = decided (n == n) (ground arith)
  where
    decided : (e : Bool) → e ≡ true → (if e then x else m n) ≡ x
    decided true p = refl
    decided false p = cc

pub store_other : (m : Memory) (n : ℕ) (x : Node) (i : ℕ) → i ≢ n → store m n x i ≡ m i
store_other m n x i h = decided (i == n) refl
  where
    decided : (e : Bool) → (i == n) ≡ e → (if e then x else m i) ≡ m i
    decided true p = absurd (h (ground (arith, p)))
    decided false p = refl

pub store_keeps :
    (P : Node → Type 0) (m : Memory) (n : ℕ) (x : Node) (i : ℕ)
    → (i ≡ n → P x)
    → (i ≢ n → P (m i))
    → P (store m n x i)
store_keeps P m n x i f g = decided (i == n) refl
  where
    decided : (e : Bool) → (i == n) ≡ e → P (if e then x else m i)
    decided true p = f (ground (arith, p))
    decided false p = g (λ q. ground (arith, p, q))

pub eq_cases : (a b : ℕ) → (a ≡ b) ⊎ (a ≢ b)
eq_cases a b = decided (a == b) refl
  where
    decided : (e : Bool) → (a == b) ≡ e → (a ≡ b) ⊎ (a ≢ b)
    decided true p = inl (ground (arith, p))
    decided false p = inr (λ q. ground (arith, p, q))

abbrev copy_index : Value → ℕ
copy_index (copied f) = f
copy_index _ = 0

pub copied_injective : {f g : ℕ} → copied f ≡ copied g → f ≡ g
copied_injective e = ap copy_index e

abbrev pub Marked : Heap → ℕ → ℕ → Type 0
Marked c a f = (c.old a).value ≡ copied f

-- `memory` is the array before the collection, `low` is mem_low, and chains lie below `bound`.
module _ (memory : Memory) (bound low : ℕ) where
  -- Where an index leads after the copy: an index of a definition stays.
  abbrev pub Forwarded : Heap → ℕ → ℕ → Type 0
  Forwarded c a f = ((a < low) × (f ≡ a)) ⊎ ((low ≤ a) × Marked c a f)

  abbrev pub ValueOf : Heap → Value → Value → Type 0
  ValueOf c (atom x a) w = w ≡ atom x a
  ValueOf c (lis q) w = (r : ℕ) × (w ≡ lis r) × Forwarded c q r
  ValueOf c (copied _) w = ⊥

  -- A node and its copy; the nodes of `P` have no successor yet.
  pub record IsCopy (P : ℕ → Type 0) (c : Heap) (a f : ℕ) : Type 0 where
    pub source : low ≤ a
    pub target : low ≤ f
    pub below : f < c.index
    pub value : ValueOf c (memory a).value (c.memory f).value
    pub next : P a ⊎ Forwarded c (memory a).next (c.memory f).next

  pub record Invariant (P : ℕ → Type 0) (c : Heap) : Type 0 where
    pub reached : low ≤ c.index
    pub nexts : (a : ℕ) → (c.old a).next ≡ (memory a).next
    pub values : (a : ℕ) → ((c.old a).value ≡ (memory a).value) ⊎ ((f : ℕ) × Marked c a f)
    pub fixed : (i : ℕ) → i < low → c.memory i ≡ memory i
    pub clean : (i f : ℕ) → (c.memory i).value ≢ copied f
    pub copies : (a f : ℕ) → Marked c a f → IsCopy P c a f
    pub single : (a b f : ℕ) → Marked c a f → Marked c b f → a ≡ b

  -- Some term of at most the size
  abbrev pub Within : ℕ → ℕ → Type 0
  Within n a = (t : Term) × Represents memory bound t a × (size t ≤ n)

  -- From one state to a later one: a node that is copied stays so, and what was written below the
  -- index stays, but for node `tail`. The nodes copied in between stand for terms of at most size `n`.
  pub record Grows (tail n : ℕ) (c d : Heap) : Type 0 where
    pub later : c.index ≤ d.index
    pub marks : (a f : ℕ) → Marked c a f → Marked d a f
    pub kept : (i : ℕ) → i < c.index → i ≢ tail → d.memory i ≡ c.memory i
    pub fresh : (a f : ℕ) → Marked d a f → Marked c a f ⊎ ((c.index ≤ f) × Within n a)

  pub Forwarded-mono :
      (c d : Heap) (a f : ℕ)
      → ((b g : ℕ) → Marked c b g → Marked d b g)
      → Forwarded c a f
      → Forwarded d a f
  Forwarded-mono c d a f m (inl p) = inl p
  Forwarded-mono c d a f m (inr (l, p)) = inr (l, m a f p)

  pub ValueOf-mono :
      (c d : Heap) (v w : Value)
      → ((b g : ℕ) → Marked c b g → Marked d b g)
      → ValueOf c v w
      → ValueOf d v w
  ValueOf-mono c d (atom x a) w m h = h
  ValueOf-mono c d (lis q) w m (r, e, h) = (r, e, Forwarded-mono c d q r m h)
  ValueOf-mono c d (copied f) w m h = h

  -- A copy that is not written to stays a copy.
  pub IsCopy-mono :
      (P Q : ℕ → Type 0) (c d : Heap) (a f : ℕ)
      → ((b g : ℕ) → Marked c b g → Marked d b g)
      → d.memory f ≡ c.memory f
      → c.index ≤ d.index
      → (P a → Q a)
      → IsCopy P c a f
      → IsCopy Q d a f
  IsCopy-mono P Q c d a f m e l pq h = record {
    source = h.source;
    target = h.target;
    below = omega (arith, h.below);
    value =
        subst (λ (x : Node). ValueOf d (memory a).value x.value) (sym e)
          (ValueOf-mono c d (memory a).value (c.memory f).value m h.value);
    next = follows h.next;
  }
    where
      follows :
          P a ⊎ Forwarded c (memory a).next (c.memory f).next
          → Q a ⊎ Forwarded d (memory a).next (d.memory f).next
      follows (inl p) = inl (pq p)
      follows (inr g) = inr (
          subst (λ (x : Node). Forwarded d (memory a).next x.next) (sym e)
            (Forwarded-mono c d (memory a).next (c.memory f).next m g))
