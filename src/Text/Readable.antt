-- ===== src/Text/Readable.antt =====
-- The values whose text stands for them, and the factors that names are read as.
use joy.Prelude.{
  ℕ, suc, ◌<◌, ◌≡◌, ◌≢◌, refl, Bool, true, false, ◌==◌, List, [], ◌∷◌, get_elem?, some, arith,
  if◌then◌else◌,
}
use joy.Prelude.Int.{pos, negsuc}
use joy.Syntax.{Factor, Term, nil, ◌⊳◌, usr, anon_funct, boolean, char, integer, string, list}
use joy.Syntax.Ops.{Builtin}
use joy.Machine.{Entry, Outcome}
use joy.Symbols.Table.{Hash, lookup}
use joy.Text.Chars.{codes}
use joy.Text.Symbol.{Symbol}
use joy.Text.Source.{Source}
use joy.Text.Reader.{Calls, Reader, ok, symbols_of}
use joy.Text.Factor.{readfactor, read_name}
use joy.Text.Names.{IsName}
use joy.Text.Numerals.{IsShort}
use joy.Text.Spells.{rd, Gives}

abbrev pub AllBytes : (ℕ → Type 0) → List ℕ → Type 0
AllBytes P [] = Unit
AllBytes P (b ∷ s) = P b × AllBytes P s

module _ {h : Hash} (c : Calls) (r : Reader h) where
  -- What an entry of the symbol table is read as: a name of the user, a builtin, or a builtin that is
  -- executed when it is read, and pushes a value.
  pub data ReadAs (index : ℕ) (ent : Entry) : Factor → Type 0 where
    user : ent.is_user ≡ true → ent.immediate ≡ false → ReadAs index ent (usr index)
    builtin :
        ent.is_user ≡ false → ent.immediate ≡ false → ReadAs index ent (anon_funct (c.proc index))
    immediate :
        {v : Factor}
        → ent.is_user ≡ false
        → ent.immediate ≡ true
        → ((st : Term)
            → c.call (c.proc index) (record r.env { stck = st })
              ≡ Outcome.ok tt (record r.env { stck = v ⊳ st }))
        → ReadAs index ent v

  -- A text that is a name, which stands for a factor
  pub record Named (text : List ℕ) (v : Factor) : Type 0 where
    pub is_name : IsName c.numbers text
    pub index : ℕ
    pub ent : Entry
    pub found : lookup h (symbols_of r) text ≡ (index, symbols_of r)
    pub not_zero : (index == 0) ≡ false
    pub entry : get_elem? r.env.symtab index ≡ some ent
    pub read_as : ReadAs index ent v

  read_name-as :
      (text : List ℕ) (index ch : ℕ) (ent : Entry) (s : Source) (y : Symbol) (st : Term)
      (v : Factor)
      → lookup h (symbols_of r) text ≡ (index, symbols_of r)
      → (index == 0) ≡ false
      → get_elem? r.env.symtab index ≡ some ent
      → ReadAs index ent v
      → read_name c text ch (rd c r s y st) ≡ ok (ch, true) (rd c r s y (v ⊳ st))
  unfolding read_name
  read_name-as text index ch ent s y st _ found not_zero entry (user p q) =
      rw (found, not_zero, entry, q, p)
  read_name-as text index ch ent s y st _ found not_zero entry (builtin p q) =
      rw (found, not_zero, entry, q, p)
  read_name-as text index ch ent s y st v found not_zero entry (immediate p q pushes) =
      rw (found, not_zero, entry, q, p, pushes st)

  pub Named-Gives : (text : List ℕ) (v : Factor) → Named text v → Gives c r (Symbol.usr text) v
  unfolding readfactor
  Named-Gives text v m = record {
    no_section = refl;
    no_end = refl;
    gives = λ f ch s y st.
        read_name-as text m.index ch m.ent s y st v m.found m.not_zero m.entry m.read_as;
  }

  pub integer-Gives : (z : joy.Prelude.Int.ℤ) → Gives c r (Symbol.integer z) (integer z)
  unfolding readfactor
  integer-Gives z = record { no_section = refl; no_end = refl; gives = λ f ch s y st. refl }

  pub char-Gives : (n : ℕ) → Gives c r (Symbol.char n) (char (pos n))
  unfolding readfactor
  char-Gives n = record { no_section = refl; no_end = refl; gives = λ f ch s y st. refl }

  pub string-Gives : (t : List ℕ) → Gives c r (Symbol.string t) (string t)
  unfolding readfactor
  string-Gives t = record { no_section = refl; no_end = refl; gives = λ f ch s y st. refl }

  -- The values that are read back from their text, where `names` and `operators` are the names that the
  -- writer has for entries and builtins, and `is_byte` holds of the bytes that it writes as they should
  -- be in a string and in a character constant.
  module _ (is_byte : ℕ → Type 0) (names : ℕ → List ℕ) (operators : Builtin → List ℕ) where
    abbrev pub IsWord : Factor → Type 0
    IsWord (usr i) = Named (names i) (usr i)
    IsWord (anon_funct f) = Named (operators f) (anon_funct f)
    IsWord (boolean (pos b)) =
        (b < 2) × Named (if b == 0 then codes "false" else codes "true") (boolean (pos b))
    IsWord (char (pos n)) = is_byte n
    IsWord (integer z) = IsShort z
    IsWord (string s) = AllBytes is_byte s
    IsWord _ = ⊥

    mutual
      pub data IsReadable : Factor → Type 0 where
        word : {v : Factor} → IsWord v → IsReadable v
        items : {t : Term} → AreReadable t → IsReadable (list t)
        members : {m : ℕ} → m < 18446744073709551616 → IsReadable (Factor.set m)

      pub data AreReadable : Term → Type 0 where
        end : AreReadable nil
        item : {v : Factor} {t : Term} → IsReadable v → AreReadable t → AreReadable (v ⊳ t)
