-- ===== src/Syntax.antt =====
-- The values of Joy: `Node` of include/globals.h, read as trees.
-- A node of the interpreter holds an operator, a value and the index of the next node. An index
-- stands here for the chain of nodes that it leads to, a `Term`; index 0 is `nil`. So a list, a
-- quotation, the stack and a dump are all terms, as they are all chains of nodes in the source.
pub mod Ops
use Ops.{Builtin}
use joy.Prelude.{ℕ, Bool, true, false, List}
use joy.Prelude.Int.{ℤ}

-- `boolean`, `char` and `integer` hold the 64-bit `num`, `set` a 64-bit mask, `float` the 64 bits
-- of a double, `string` and `bignum` bytes. What has no meaning inside the interpreter, as a file
-- or a hash table, is a handle.
infixr 67 ◌⊳◌
mutual
  pub data Factor : Type 0 where
    illegal : Factor
    usr : ℕ → Factor
    anon_funct : Builtin → Factor
    boolean : ℤ → Factor
    char : ℤ → Factor
    integer : ℤ → Factor
    set : ℕ → Factor
    string : List ℕ → Factor
    list : Term → Factor
    float : ℕ → Factor
    file : ℕ → Factor
    bignum : List ℕ → Factor
    vector : ℕ → Factor
    dict : ℕ → Factor
    matrix : ℕ → Factor

  pub data Term : Type 0 where
    nil : Term
    ◌⊳◌ : Factor → Term → Term

-- The position of an operator in the enumeration of globals.h.
abbrev pub operator : Factor → ℕ
operator illegal = 0
operator (usr _) = 2
operator (anon_funct _) = 3
operator (boolean _) = 4
operator (char _) = 5
operator (integer _) = 6
operator (set _) = 7
operator (string _) = 8
operator (list _) = 9
operator (float _) = 10
operator (file _) = 11
operator (bignum _) = 12
operator (vector _) = 13
operator (dict _) = 14
operator (matrix _) = 15

-- Node 0 is allocated by `calloc`: it is illegal, and its next index is 0.
abbrev pub nodetype : Term → ℕ
nodetype nil = 0
nodetype (x ⊳ _) = operator x

abbrev pub nextnode1 : Term → Term
nextnode1 nil = nil
nextnode1 (_ ⊳ t) = t

abbrev pub nextnode2 : Term → Term
nextnode2 t = nextnode1 (nextnode1 t)

abbrev pub nextnode3 : Term → Term
nextnode3 t = nextnode1 (nextnode2 t)

abbrev pub nextnode4 : Term → Term
nextnode4 t = nextnode1 (nextnode3 t)

-- The node that an index leads to.
abbrev pub node : Term → Factor
node nil = illegal
node (x ⊳ _) = x

-- An index is a truth value in C.
abbrev pub is_nil : Term → Bool
is_nil nil = true
is_nil (_ ⊳ _) = false

abbrev pub append : Term → Term → Term
append nil t = t
append (x ⊳ s) t = x ⊳ append s t
