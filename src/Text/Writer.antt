-- ===== src/Text/Writer.antt =====
-- Values as text: writefactor and writeterm of src/write.c. The text is what is written to the file.
use joy.Prelude.{
  ℕ, zero, suc, ◌+◌, ◌-◌, ◌/◌, ◌%◌, not, ◌&&◌, ◌||◌, ◌==◌, leb, if◌then◌else◌, List, [], ◌∷◌, ◌++◌,
  get_or,
}
use joy.Prelude.Int.{ℤ, pos, negsuc}
use joy.Word.{byte}
use joy.Bits.{test, single, bit_clear, setsize}
use joy.Syntax.{
  Factor, Term, nil, ◌⊳◌, illegal, usr, anon_funct, boolean, char, integer, string, list, float,
  file, bignum, vector, dict, matrix,
}
use joy.Syntax.Ops.{Builtin}
use joy.Symbols.Names.{decimal}
use joy.Text.Chars.{codes, isdigit, iscntrl, contains}

pub record Matrix : Type 0 where
  pub rows : ℕ
  pub cols : ℕ
  pub values : List ℕ

-- What the writer asks of others: the names of the symbol table and of the operators, `%g`, the name
-- of a file, the contents of vectors and matrices, and of a dictionary as it is written.
pub record Printer : Type 0 where
  pub name : ℕ → List ℕ
  pub opername : Builtin → List ℕ
  pub format_g : ℕ → List ℕ
  pub file_name : ℕ → List ℕ
  pub vector_data : ℕ → List ℕ
  pub matrix_data : ℕ → Matrix
  pub dict_text : ℕ → List ℕ

-- "%lld"
abbrev pub number : ℤ → List ℕ
number (pos n) = decimal n
number (negsuc n) = 45 ∷ decimal (suc n)

-- "%03d", of a number below 1000
abbrev pub three_digits : ℕ → List ℕ
three_digits n = (n / 100 + 48) ∷ (n / 10 % 10 + 48) ∷ (n % 10 + 48) ∷ []

-- "btnvfr"[c - 8]
abbrev pub escape_letter : ℕ → ℕ
escape_letter c = get_or (codes "btnvfr") (c - 8) 0

-- A character constant in write.c; `c` is the number as `%c` converts it.
unfoldable pub char_text : ℤ → List ℕ
unfolding byte
char_text (pos n) =
    if leb 8 n && leb n 13
    then 39 ∷ 92 ∷ escape_letter n ∷ []
    else if iscntrl n || n == 32
    then 39 ∷ 92 ∷ three_digits n
    else 39 ∷ byte (pos n) ∷ []
char_text (negsuc n) = 39 ∷ byte (negsuc n) ∷ []

-- A byte of a string in write.c
unfoldable pub byte_text : ℕ → List ℕ
byte_text c =
    if c == 34
    then 92 ∷ 34 ∷ []
    else if leb 8 c && leb c 13
    then 92 ∷ escape_letter c ∷ []
    else if iscntrl c
    then 92 ∷ three_digits c
    else c ∷ []

abbrev pub each_byte : (ℕ → List ℕ) → List ℕ → List ℕ
each_byte f [] = []
each_byte f (c ∷ s) = f c ++ each_byte f s

-- The members of a set from `i` on: a member that is written is taken out, and a space follows if
-- one is left.
unfoldable pub members_text : ℕ → ℕ → ℕ → List ℕ
members_text zero i s = []
members_text (suc k) i s =
    let left = bit_clear s (single i) in
    let rest = members_text k (suc i) (if test i s then left else s) in
    if test i s then decimal i ++ ((if left == 0 then [] else 32 ∷ []) ++ rest) else rest

-- The last character; buf is never empty.
abbrev pub last_char : List ℕ → ℕ
last_char [] = 0
last_char (c ∷ []) = c
last_char (_ ∷ c ∷ s) = last_char (c ∷ s)

-- From the exponent on, and what stands before it
abbrev pub from_exponent : List ℕ → List ℕ
from_exponent [] = []
from_exponent (c ∷ s) = if c == 101 then c ∷ s else from_exponent s

abbrev pub before_exponent : List ℕ → List ℕ
before_exponent [] = []
before_exponent (c ∷ s) = if c == 101 then [] else c ∷ before_exponent s

-- A float, with a decimal point
unfoldable pub float_text : List ℕ → List ℕ
float_text buf =
    if contains buf 46
    then buf
    else if contains buf 101
    then before_exponent buf ++ (codes ".0" ++ from_exponent buf)
    else if isdigit (last_char buf)
    then buf ++ codes ".0"
    else buf

-- A component of a vector or a matrix: no point is added before an exponent.
unfoldable pub component_text : List ℕ → List ℕ
component_text buf =
    if not (contains buf 46) && not (contains buf 101) && isdigit (last_char buf)
    then buf ++ codes ".0"
    else buf

module _ (p : Printer) where
  open p use {name, opername, format_g, file_name, vector_data, matrix_data, dict_text}

  abbrev pub components : List ℕ → List ℕ
  components [] = []
  components (d ∷ []) = component_text (format_g d)
  components (d ∷ e ∷ ds) = component_text (format_g d) ++ (32 ∷ components (e ∷ ds))

  -- One row of a matrix, and what follows it
  abbrev pub row : ℕ → List ℕ → List ℕ
  row zero ds = []
  row (suc c) [] = []
  row (suc c) (d ∷ ds) = d ∷ row c ds

  abbrev pub after_row : ℕ → List ℕ → List ℕ
  after_row zero ds = ds
  after_row (suc c) [] = []
  after_row (suc c) (d ∷ ds) = after_row c ds

  abbrev pub rows_text : ℕ → ℕ → List ℕ → List ℕ
  rows_text zero cols ds = []
  rows_text (suc r) cols ds =
      91 ∷ (components (row cols ds) ++ (93 ∷ rows_text r cols (after_row cols ds)))

  unfoldable mutual
    unfolding char_text byte_text members_text float_text component_text

    pub writefactor : Factor → List ℕ
    writefactor illegal = []
    writefactor (usr i) = name i
    writefactor (anon_funct f) = opername f
    writefactor (boolean (pos zero)) = codes "false"
    writefactor (boolean _) = codes "true"
    writefactor (char c) = char_text c
    writefactor (integer n) = number n
    writefactor (Factor.set s) = 123 ∷ (members_text setsize 0 s ++ (125 ∷ []))
    writefactor (string s) = 34 ∷ (each_byte byte_text s ++ (34 ∷ []))
    writefactor (list t) = 91 ∷ (writeterm t ++ (93 ∷ []))
    writefactor (float d) = float_text (format_g d)
    writefactor (file f) = file_name f
    writefactor (bignum s) = s
    writefactor (dict d) = dict_text d
    writefactor (vector v) = codes "v[" ++ (components (vector_data v) ++ (93 ∷ []))
    writefactor (matrix m) =
        codes "m["
        ++ (rows_text (matrix_data m).rows (matrix_data m).cols (matrix_data m).values ++ (93 ∷ []))

    pub writeterm : Term → List ℕ
    writeterm nil = []
    writeterm (x ⊳ t) = writefactor x ++ then_space t (writeterm t)

    -- A space stands between two factors.
    pub then_space : Term → List ℕ → List ℕ
    then_space nil s = s
    then_space (_ ⊳ _) s = 32 ∷ s
