-- ===== src/Text/Stringify.antt =====
-- toString and unquoted of src/builtin/tostring.c. They share nothing with the writer of src/write.c,
-- and differ from it in the escapes of characters and strings.
use joy.Prelude.{zero, suc, not, ◌&&◌, ◌==◌, if◌then◌else◌, ℕ, List, [], ◌∷◌, ◌++◌}
use joy.Prelude.Int.{ℤ, pos, negsuc}
use joy.Word.{byte}
use joy.Bits.{test, setsize}
use joy.Syntax.{
  Factor, Term, nil, ◌⊳◌, illegal, usr, anon_funct, boolean, char, integer, string, list, float,
  file, bignum, vector, dict, matrix, node,
}
use joy.Machine.{M, pure, ◌>>=◌, ◌>>◌}
use joy.Machine.Macros.{get_stack, one_param, unary}
use joy.Symbols.Names.{decimal}
use joy.Text.Chars.{codes, contains, c_string}
use joy.Text.Writer.{Printer, number, each_byte}

-- After the quote of a character constant
unfoldable pub stringify_char : ℤ → List ℕ
unfolding byte
stringify_char (pos n) =
    if n == 10
    then codes "\\n"
    else if n == 9
    then codes "\\t"
    else if n == 92
    then codes "\\\\"
    else if n == 39
    then codes "\\'"
    else byte (pos n) ∷ []
stringify_char (negsuc n) = byte (negsuc n) ∷ []

unfoldable pub stringify_byte : ℕ → List ℕ
stringify_byte c =
    if c == 34
    then 92 ∷ 34 ∷ []
    else if c == 92
    then 92 ∷ 92 ∷ []
    else if c == 10
    then codes "\\n"
    else if c == 9
    then codes "\\t"
    else c ∷ []

-- The members of a set from `i` on, with a space before each but the first
unfoldable pub stringify_members : ℕ → ℕ → ℕ → List ℕ → List ℕ
stringify_members zero i s gap = []
stringify_members (suc k) i s gap =
    let rest = stringify_members k (suc i) s (if test i s then 32 ∷ [] else gap) in
    if test i s then gap ++ (decimal i ++ rest) else rest

abbrev pub stringify_float : List ℕ → List ℕ
stringify_float buf =
    if not (contains buf 46) && not (contains buf 101) && not (contains buf 69)
    then buf ++ codes ".0"
    else buf

module _ (p : Printer) where
  open p use {name, format_g, file_name, dict_text}

  unfoldable mutual
    unfolding stringify_char stringify_byte stringify_members

    pub stringify_value : Factor → List ℕ
    stringify_value illegal = 63 ∷ []
    stringify_value (usr i) = name i
    stringify_value (anon_funct f) = 63 ∷ []
    stringify_value (boolean (pos zero)) = codes "false"
    stringify_value (boolean _) = codes "true"
    stringify_value (char c) = 39 ∷ stringify_char c
    stringify_value (integer n) = number n
    stringify_value (Factor.set s) = 123 ∷ (stringify_members setsize 0 s [] ++ (125 ∷ []))
    stringify_value (string s) = 34 ∷ (each_byte stringify_byte s ++ (34 ∷ []))
    stringify_value (list t) = 91 ∷ (stringify_term [] t ++ (93 ∷ []))
    stringify_value (float d) = stringify_float (format_g d)
    stringify_value (file f) = file_name f
    stringify_value (bignum s) = s
    stringify_value (dict d) = dict_text d
    stringify_value (vector v) = 63 ∷ []
    stringify_value (matrix m) = 63 ∷ []

    -- `gap` stands before the next value: nothing before the first, a space before the others.
    pub stringify_term : List ℕ → Term → List ℕ
    stringify_term gap nil = []
    stringify_term gap (x ⊳ t) = gap ++ (stringify_value x ++ stringify_term (32 ∷ []) t)

  abbrev pub to_string_value : Factor → M (Unit {0})
  to_string_value (string s) = pure tt
  to_string_value x = unary (string (c_string (stringify_value x)))

  unfoldable pub to_string : M (Unit {0})
  unfolding stringify_value one_param
  to_string = do one_param; s ← get_stack; to_string_value (node s)

  abbrev pub unquoted_value : Factor → M (Unit {0})
  unquoted_value (string s) = pure tt
  unquoted_value (char c) = unary (string (c_string (byte c ∷ [])))
  unquoted_value x = unary (string (c_string (stringify_value x)))

  unfoldable pub unquoted : M (Unit {0})
  unfolding stringify_value one_param
  unquoted = do one_param; s ← get_stack; unquoted_value (node s)
