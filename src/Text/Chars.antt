-- ===== src/Text/Chars.antt =====
-- The characters that the scanner and the writer tell apart: the tests of ctype.h in the C locale,
-- and the two strings of characters in `my_getsym`.
use Prim.Native.String.{String}
use Prim.Native.Char.{code}
use joy.Prelude.{ℕ, Bool, false, ◌&&◌, ◌||◌, ◌==◌, ltb, leb, if◌then◌else◌, List, [], ◌∷◌}

-- The code points of a text: its bytes, if it is ASCII.
abbrev pub codes : String → List ℕ
codes String.[] = []
codes (String.◌∷◌ c s) = code c ∷ codes s

abbrev pub isdigit : ℕ → Bool
isdigit c = leb 48 c && leb c 57

abbrev pub isupper : ℕ → Bool
isupper c = leb 65 c && leb c 90

abbrev pub isalnum : ℕ → Bool
isalnum c = isdigit c || isupper c || (leb 97 c && leb c 122)

abbrev pub iscntrl : ℕ → Bool
iscntrl c = ltb c 32 || c == 127

-- strchr(s, c) != 0, for a character that is not 0
abbrev pub contains : List ℕ → ℕ → Bool
contains [] c = false
contains (a ∷ s) c = c == a || contains s c

-- The characters that end a name: "#'().;[]{}
abbrev pub exclude : List ℕ
exclude = 34 ∷ 35 ∷ 39 ∷ 40 ∷ 41 ∷ 46 ∷ 59 ∷ 91 ∷ 93 ∷ 123 ∷ 125 ∷ []

-- The characters that may follow the full stop in a name: -=_
abbrev pub include : List ℕ
include = 45 ∷ 61 ∷ 95 ∷ []

-- A buffer as a string of C: up to the first 0.
abbrev pub c_string : List ℕ → List ℕ
c_string [] = []
c_string (c ∷ s) = if c == 0 then [] else c ∷ c_string s
