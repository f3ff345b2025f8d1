-- ===== src/Text/Symbol.antt =====
-- What the scanner delivers: the symbols of src/scan.c with their values, and the functions of the C
-- library that convert numbers.
use joy.Prelude.{ℕ, Bool, true, false, ◌==◌, if◌then◌else◌, List, [], ◌∷◌, Option, none, some}
use joy.Prelude.Int.{ℤ}
use joy.Symbols.Names.{same}
use joy.Text.Chars.{codes}

pub data Symbol : Type 0 where
  lparen rparen lbrack rbrack lbrace rbrace period semicol : Symbol
  libra hide in_ module_ private public const eqdef : Symbol
  vbracket mbracket : Symbol
  char : ℕ → Symbol
  integer : ℤ → Symbol
  string : List ℕ → Symbol
  float : ℕ → Symbol
  usr : List ℕ → Symbol

-- A conversion by the C library: the value, and the number of characters that it used. `strtoll` takes
-- the base from the text, `strtoll_10` is that of base 10.
pub record Numbers : Type 0 where
  pub strtoll : List ℕ → ℤ × ℕ
  pub strtoll_10 : List ℕ → ℤ × ℕ
  pub strtod : List ℕ → ℕ × ℕ

abbrev pub keywords : List (List ℕ × Symbol)
keywords =
    (codes "LIBRA", libra)
    ∷ (codes "DEFINE", libra)
    ∷ (codes "HIDE", hide)
    ∷ (codes "IN", in_)
    ∷ (codes "END", period)
    ∷ (codes "MODULE", module_)
    ∷ (codes "PRIVATE", private)
    ∷ (codes "PUBLIC", public)
    ∷ (codes "CONST", const)
    ∷ (codes "INLINE", const)
    ∷ (codes "==", eqdef)
    ∷ []

abbrev pub find_keyword : List (List ℕ × Symbol) → List ℕ → Option Symbol
find_keyword [] name = none
find_keyword ((key, symbol) ∷ rest) name =
    if same name key then some symbol else find_keyword rest name

-- The symbol that a character is by itself
abbrev pub punctuation : ℕ → Option Symbol
punctuation ch =
    if ch == 41
    then some rparen
    else if ch == 91
    then some lbrack
    else if ch == 93
    then some rbrack
    else if ch == 123
    then some lbrace
    else if ch == 125
    then some rbrace
    else if ch == 46
    then some period
    else if ch == 59
    then some semicol
    else none

-- readterm stops at these: ".;]}" and LIBRA to CONST_.
abbrev pub ends_term : Symbol → Bool
ends_term period = true
ends_term semicol = true
ends_term rbrack = true
ends_term rbrace = true
ends_term libra = true
ends_term hide = true
ends_term in_ = true
ends_term module_ = true
ends_term private = true
ends_term public = true
ends_term const = true
ends_term eqdef = true
ends_term _ = false
