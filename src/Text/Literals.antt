-- ===== src/Text/Literals.antt =====
-- Vector and matrix literals: the cases VBRACKET and MBRACKET of readfactor in src/factor.c. The scanner
-- has no symbol for a minus sign alone, so that the branches of the source for it are not taken.
use joy.Prelude.{
  ℕ, zero, suc, Bool, true, false, ◌==◌, if◌then◌else◌, List, [], ◌∷◌, ◌++◌, length, Option, none,
  some,
}
use joy.Syntax.{vector, matrix}
use joy.Symbols.Table.{Hash}
use joy.Text.Symbol.{Symbol}
use joy.Text.Reader.{Calls, Reader, Read, ok, out_of_fuel, and_then, message, push_stack, getsym}

abbrev pub is_rbrack : Symbol → Bool
is_rbrack Symbol.rbrack = true
is_rbrack _ = false

abbrev pub is_lbrack : Symbol → Bool
is_lbrack Symbol.lbrack = true
is_lbrack _ = false

-- The length of the first row, or that of the rows before
abbrev pub row_length : Option ℕ → List ℕ → ℕ
row_length none row = length row
row_length (some n) row = n

abbrev pub double_value : Calls → Symbol → Option ℕ
double_value c (Symbol.integer z) = some (c.double_of z)
double_value c (Symbol.float d) = some d
double_value c _ = none

module _ {h : Hash} where
  -- `error` and no factor
  abbrev pub no_factor : {A : Type 0} → A → Reader h → Read h A
  no_factor a r = and_then (message r) (λ _ s. ok a s)

module _ {h : Hash} (c : Calls) where
  -- The numbers up to a closing bracket; `none` is a message and no factor.
  unfoldable pub read_values : ℕ → ℕ → List ℕ → Reader h → Read h (ℕ × Option (List ℕ))
  unfolding getsym
  read_values zero ch values r = out_of_fuel
  read_values (suc f) ch values r =
      let more =
        λ (d : ℕ). and_then (getsym c ch r) (λ e s. read_values f e (values ++ (d ∷ [])) s) in
      if is_rbrack r.sym
      then ok (ch, some values) r
      else elim (double_value c r.sym) [ none ↦ no_factor (ch, none) r | some d ↦ more d ]

  abbrev pub read_vector : ℕ × Option (List ℕ) → Reader h → Read h (ℕ × Bool)
  read_vector (ch, none) r = ok (ch, false) r
  read_vector (ch, some values) r =
      and_then (push_stack (vector (c.new_vector values)) r) (λ _ s. ok (ch, true) s)

  -- What follows a row: another row, or the end of the matrix
  abbrev pub after_row :
      (ℕ → Reader h → Read h (ℕ × Bool)) → ℕ → ℕ → List ℕ → ℕ → Reader h → Read h (ℕ × Bool)
  after_row again rows n values ch r =
      let made =
        and_then (push_stack (matrix (c.new_matrix rows n values)) r) (λ _ s. ok (ch, true) s) in
      let row = and_then (getsym c ch r) again in
      if is_lbrack r.sym then row else if is_rbrack r.sym then made else no_factor (ch, false) r

  abbrev pub check_row :
      (ℕ → List ℕ → ℕ → Reader h → Read h (ℕ × Bool))
      → Option ℕ
      → ℕ
      → List ℕ
      → ℕ × Option (List ℕ)
      → Reader h
      → Read h (ℕ × Bool)
  check_row again cols rows values (ch, none) r = ok (ch, false) r
  check_row again cols rows values (ch, some row) r =
      let n = row_length cols row in
      let next =
        and_then (getsym c ch r)
          (after_row (again n (values ++ row)) (suc rows) n (values ++ row)) in
      if length row == n then next else no_factor (ch, false) r

  -- The rows of a matrix from the first number on; `cols` is `none` at the first row.
  unfoldable pub read_rows : ℕ → ℕ → Option ℕ → ℕ → List ℕ → Reader h → Read h (ℕ × Bool)
  unfolding read_values getsym
  read_rows zero ch cols rows values r = out_of_fuel
  read_rows (suc f) ch cols rows values r =
      let again =
        λ (n : ℕ) (all : List ℕ) (d : ℕ) (s : Reader h). read_rows f d (some n) (suc rows) all s in
      and_then (read_values f ch [] r) (check_row again cols rows values)
