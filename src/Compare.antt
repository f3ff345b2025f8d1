-- ===== src/Compare.antt =====
-- `get_boolean`, `is_null` and `Compare` of src/builtin/builtin_macros.h, and `equal_aux` of
-- src/builtin/comparison.c. An index that may be 0 is a term, as everywhere.
pub mod Order
use joy.Prelude.{
  ℕ, zero, suc, ◌==◌, ltb, Bool, true, false, not, ◌&&◌, ◌||◌, if◌then◌else◌, List, [], ◌∷◌, Option,
  none, some,
}
use joy.Prelude.Int.{ℤ, pos, negsuc, ltb_ℤ}
use joy.Word.{of_bits}
use joy.Syntax.{
  Factor, Term, nil, ◌⊳◌, illegal, usr, anon_funct, boolean, char, integer, set, string, list,
  float, file, bignum, vector, dict, matrix, is_nil, nextnode1,
}
use joy.Machine.{Entry}
use joy.Machine.Host.{Host}

abbrev pub is_zero : ℤ → Bool
is_zero (pos n) = n == 0
is_zero (negsuc n) = false

abbrev pub is_empty : List ℕ → Bool
is_empty [] = true
is_empty (_ ∷ _) = false

abbrev pub name_at : List Entry → ℕ → List ℕ
name_at [] i = []
name_at (e ∷ t) zero = e.name
name_at (e ∷ t) (suc i) = name_at t i

module _ (host : Host) where
  unfoldable pub get_boolean : Term → Bool
  get_boolean (usr _ ⊳ _) = true
  get_boolean (anon_funct _ ⊳ _) = true
  get_boolean (boolean z ⊳ _) = not (is_zero z)
  get_boolean (char z ⊳ _) = not (is_zero z)
  get_boolean (integer z ⊳ _) = not (is_zero z)
  get_boolean (set b ⊳ _) = not (b == 0)
  get_boolean (string s ⊳ _) = not (is_empty s)
  get_boolean (bignum s ⊳ _) = not (is_empty s)
  get_boolean (list t ⊳ _) = not (is_nil t)
  get_boolean (float d ⊳ _) = not (host.float_is_zero d)
  get_boolean (file f ⊳ _) = not (f == 0)
  get_boolean (dict d ⊳ _) = not (d == 0)
  get_boolean _ = false

  unfoldable pub is_null : Term → Bool
  is_null (boolean z ⊳ _) = is_zero z
  is_null (char z ⊳ _) = is_zero z
  is_null (integer z ⊳ _) = is_zero z
  is_null (set b ⊳ _) = b == 0
  is_null (string s ⊳ _) = is_empty s
  is_null (bignum s ⊳ _) = is_empty s
  is_null (list t ⊳ _) = is_nil t
  is_null (float d ⊳ _) = host.float_is_zero d
  is_null (file f ⊳ _) = f == 0
  is_null (dict d ⊳ _) = d == 0 || host.dict_is_empty d
  is_null _ = false

-- The cases of the outer and the inner switch that lead to one comparison.
pub data Kind : Type 0 where
  text : List ℕ → Kind
  number : ℤ → Kind
  mask : ℕ → Kind
  double : ℕ → Kind
  file_handle : ℕ → Kind
  dict_handle : ℕ → Kind
  incomparable : Kind

-- num1 < num2 ? -1 : num1 > num2
abbrev pub sign_of : Bool → Bool → ℤ
sign_of less more = if less then negsuc 0 else if more then pos 1 else pos 0

unfoldable pub compare_num : ℤ → ℤ → ℤ
compare_num a b = sign_of (ltb_ℤ a b) (ltb_ℤ b a)

-- strcmp, on bytes; the code reads the sign of its result only.
unfoldable pub strcmp : List ℕ → List ℕ → ℤ
strcmp [] [] = pos 0
strcmp [] (b ∷ t) = negsuc 0
strcmp (a ∷ s) [] = pos 1
strcmp (a ∷ s) (b ∷ t) =
    let rest = strcmp s t in if a == b then rest else sign_of (ltb a b) (ltb b a)

module _ (host : Host) (symtab : List Entry) where
  unfoldable pub kind : Term → Kind
  kind (usr i ⊳ _) = text (name_at symtab i)
  kind (anon_funct f ⊳ _) = text (host.nickname f)
  kind (boolean z ⊳ _) = number z
  kind (char z ⊳ _) = number z
  kind (integer z ⊳ _) = number z
  kind (set b ⊳ _) = mask b
  kind (string s ⊳ _) = text s
  kind (bignum s ⊳ _) = text s
  kind (float d ⊳ _) = double d
  kind (file f ⊳ _) = file_handle f
  kind (dict d ⊳ _) = dict_handle d
  kind _ = incomparable

  unfoldable pub compare_kinds : Kind → Kind → ℤ
  unfolding strcmp compare_num
  compare_kinds (text s) (text t) = strcmp s t
  compare_kinds (number a) (number b) = compare_num a b
  compare_kinds (number a) (mask b) = compare_num a (of_bits 63 b)
  compare_kinds (number a) (double d) =
      sign_of (host.float_lt (host.float_of a) d) (host.float_lt d (host.float_of a))
  compare_kinds (mask a) (number b) = compare_num (of_bits 63 a) b
  compare_kinds (mask a) (mask b) = compare_num (of_bits 63 a) (of_bits 63 b)
  compare_kinds (mask a) (double d) = compare_num (of_bits 63 a) (of_bits 63 d)
  compare_kinds (double d) (number b) =
      sign_of (host.float_lt d (host.float_of b)) (host.float_lt (host.float_of b) d)
  compare_kinds (double d) (mask b) = compare_num (of_bits 63 d) (of_bits 63 b)
  compare_kinds (double c) (double d) = sign_of (host.float_lt c d) (host.float_lt d c)
  compare_kinds (file_handle f) (file_handle g) = sign_of (ltb f g) (ltb g f)
  compare_kinds (dict_handle f) (dict_handle g) = sign_of (ltb f g) (ltb g f)
  compare_kinds _ _ = pos 1

  unfoldable pub compare : Term → Term → ℤ
  unfolding is_null kind compare_kinds
  compare first second =
      if is_null host first && is_null host second
      then pos 0
      else compare_kinds (kind first) (kind second)

  -- equal_list_aux, with the test of `equal_aux` on two nodes
  unfoldable mutual
    unfolding compare

    pub equal_factor : Factor → Factor → Bool
    equal_factor (list s) (list t) = equal_list s t
    equal_factor x y = is_zero (compare (x ⊳ nil) (y ⊳ nil))

    pub equal_list : Term → Term → Bool
    equal_list nil nil = true
    equal_list nil (_ ⊳ _) = false
    equal_list (_ ⊳ _) nil = false
    equal_list (x ⊳ s) (y ⊳ t) = equal_factor x y && equal_list s t
