-- ===== src/Examples/Texts.antt =====
-- The theorems on texts at a value that is written and read again, and the runs that show what the
-- writer and the scanner do to other values.
use joy.Prelude.{
  ℕ, ◌+◌, ◌*◌, ◌<◌, ◌≡◌, ◌≢◌, refl, Bool, true, false, ◌==◌, if◌then◌else◌, List, [], ◌∷◌, ◌++◌,
  length, Option, none, some, arith, ap, ◌∙◌,
}
use joy.Prelude.Int.{ℤ, pos, negsuc}
use joy.Syntax.{Factor, Term, nil, ◌⊳◌, anon_funct, char, integer, string, list}
use joy.Syntax.Ops.{stacks, StackOp}
use joy.Machine
use joy.Symbols.Names.{decimal, value, value-decimal}
use joy.Symbols.Table.{Hash, new_entry}
use joy.Text.Chars.{codes}
use joy.Text.Symbol.{Symbol, Numbers}
use joy.Text.Source
use joy.Text.Source.{Source, out_of_fuel}
use joy.Text.Scan.{one, my_getsym}
use joy.Text.Reader.{Calls, Reader, Read, ok, getsym}
use joy.Text.Writer.{Printer, writefactor, members_text}
use joy.Text.Stringify.{stringify_value, stringify_members}
use joy.Text.Getch.{at}
use joy.Text.Words.{space-IsDelim}
use joy.Text.Numerals.{ReadsDecimal, Numeral, decimal-Numeral, digit_no_dollar}
use joy.Text.Spells.{rd}
use joy.Text.Accepts.{next_factor}
use joy.Text.Readable.{word, items, members, end, item}
use joy.Text.RoundTrip.{writefactor-read}
use joy.Text.SetWriter.{members_text-stringify}
use joy.Text.Stuck.{RefusesDollar, pushed, dollar_digit-stuck}
use joy.Text.Returns.{my_getsym-returns}
use joy.Text.Factor.{readfactor}
use joy.Examples.Scopes.{list_hash, blank, start}

-- The digits of a text that does not start with `$`
abbrev to_integer : List ℕ → ℤ × ℕ
to_integer [] = (pos 0, 0)
to_integer (c ∷ text) =
    if c == 36 then (pos 0, 0) else (pos (value 0 (c ∷ text)), length (c ∷ text))

abbrev numbers : Numbers
numbers = record {
  strtoll = to_integer;
  strtoll_10 = to_integer;
  strtod = λ text. (0, length text);
}

plain-converts :
    (c : ℕ) (w : List ℕ)
    → (c == 36) ≡ false
    → to_integer (c ∷ w) ≡ (pos (value 0 (c ∷ w)), length (c ∷ w))
plain-converts c w h = rw h

Numeral-converts :
    (text : List ℕ) → Numeral text → to_integer text ≡ (pos (value 0 text), length text)
Numeral-converts text t =
    rw t.starts (plain-converts t.first t.rest (digit_no_dollar t.first t.is_digit))

numbers-ReadsDecimal : ReadsDecimal numbers
numbers-ReadsDecimal m l =
    Numeral-converts (decimal m) (decimal-Numeral m)
    ∙ ap (λ v. (pos v, length (decimal m))) (value-decimal m)

numbers-RefusesDollar : RefusesDollar numbers
numbers-RefusesDollar text = refl

abbrev printer : Printer
printer = record {
  name = λ i. codes "x";
  opername = λ f. codes "dup";
  format_g = λ d. codes "0";
  file_name = λ f. [];
  vector_data = λ v. [];
  matrix_data = λ m. record { rows = 0; cols = 0; values = [] };
  dict_text = λ d. [];
}

abbrev calls : Calls
calls = record {
  numbers = numbers;
  exec_term = λ t e. Machine.ok tt e;
  call = λ f e. Machine.ok tt e;
  proc = λ i. stacks StackOp.dup;
  double_of = λ z. 0;
  new_vector = λ v. 0;
  new_matrix = λ rows cols v. 0;
  steps = 100;
}

abbrev blank_source : Source
blank_source = record {
  pushback = [];
  srcfile = [];
  infile = [];
  linenum = 1;
  linepos = 0;
  finclude_busy = false;
  messages = 0;
  escapes = 0;
}

abbrev reader : Reader list_hash
reader = record {
  source = blank_source;
  sym = Symbol.semicol;
  tokens = [];
  scope = blank;
  hash = [];
  inlining = false;
  env = record {
    stck = nil;
    dump = nil;
    symtab = start.symtab;
    undeferror = false;
    variable_busy = false;
  };
}

-- [-3 'a "a{10}" {0 2}]
abbrev sample : Factor
sample = list (integer (negsuc 2) ⊳ char (pos 97) ⊳ string (97 ∷ 10 ∷ []) ⊳ Factor.set 5 ⊳ nil)

sample_written : writefactor printer sample ≡ codes "[-3 'a \"a\\n\" {0 2}]"
unfolding writefactor joy.Symbols.Names.decimal joy.Bits.test joy.Bits.bit_clear joy.Bits.single
    joy.Word.byte
sample_written = refl

written_length : length (writefactor printer sample) ≡ 19
written_length = ap length sample_written

writefactor-read_example :
    (k' : ℕ) × (y' : Symbol) × (next_factor calls 50 32 (
        rd calls reader
          (at blank_source 0 (writefactor printer sample ++ (32 ∷ [])))
          Symbol.semicol
          nil)
      ≡ ok (32, true) (rd calls reader (at blank_source k' []) y' (sample ⊳ nil)))
writefactor-read_example =
    writefactor-read calls reader numbers-ReadsDecimal printer blank_source 50 0 32 []
      Symbol.semicol nil space-IsDelim sample
      (items (
        item (word (omega arith)) (
          item (word (omega arith, omega arith, other 97 refl)) (
            item
              (word (
                (omega arith, omega arith, other 97 refl),
                ((omega arith, omega arith, other 10 refl), tt),
              ))
              (item (members (omega arith)) end)))))
      (omega (arith, written_length)) (omega (arith, written_length))
  where
    other : (c : ℕ) → (c == 92) ≡ false → c ≢ 92
    other c h = ground arith

members_text-stringify_example : members_text 64 0 5 ≡ stringify_members 64 0 5 []
members_text-stringify_example =
    members_text-stringify 64 0 5 refl (omega arith) (λ j h. absurd (omega arith))

-- $5 and a space
dollar_digit-stuck_example :
    my_getsym numbers 4 36 (pushed blank_source (53 ∷ ([] ++ (32 ∷ []))))
    ≡ Source.ok (36, one (Symbol.integer (pos 0))) (pushed blank_source (53 ∷ ([] ++ (32 ∷ []))))
dollar_digit-stuck_example =
    dollar_digit-stuck numbers numbers-RefusesDollar blank_source [] 2 53 32 space-IsDelim refl tt
      (omega arith)

my_getsym-returns_example : my_getsym numbers 6 32 (at blank_source 0 (codes "ab 1")) ≢ out_of_fuel
my_getsym-returns_example =
    my_getsym-returns numbers 6 32 (at blank_source 0 (codes "ab 1")) (omega arith)

abbrev stack_of : Read list_hash (ℕ × Bool) → Term
stack_of (ok a r) = r.env.stck
stack_of _ = nil

abbrev tokens_of : Read list_hash ℕ → List Symbol
tokens_of (ok a r) = r.tokens
tokens_of _ = []

-- writefactor leaves a backslash as it is: the string of a backslash and `n` is read back as a newline.
backslash_lost :
    stack_of (
      next_factor calls 20 32 (record reader {
        source = at blank_source 0 (writefactor printer (string (92 ∷ 110 ∷ [])) ++ (32 ∷ []));
      }))
    ≡ string (10 ∷ []) ⊳ nil
unfolding joy.Text.Factor.readfactor joy.Text.Reader.getsym writefactor joy.Word.int64
backslash_lost = refl

-- toString does not write the names of builtins.
builtins_lost : stringify_value printer (list (anon_funct (stacks StackOp.dup) ⊳ nil)) ≡ codes "[?]"
unfolding stringify_value
builtins_lost = refl

-- The largest integer is read as a float.
largest_is_float :
    my_getsym numbers 30 57 (at blank_source 0 (codes "223372036854775807 "))
    ≡ Source.ok (32, one (Symbol.float 0)) (at blank_source 19 [])
unfolding my_getsym joy.Word.int64
largest_is_float = refl

-- A shell escape of an empty line takes the next line with it, and the lines are not counted.
shell_line :
    Source.getch (record blank_source { srcfile = 36 ∷ 10 ∷ 97 ∷ 10 ∷ 98 ∷ [] })
    ≡ Source.ok 98 (record blank_source { linepos = 1; escapes = 1 })
unfolding Source.getch
shell_line = refl

-- An interpolated string in a private section: its symbols come in the reverse order, and the symbol
-- before it comes again.
interpolated_reversed :
    tokens_of (
      getsym calls 32 (record reader {
        source = at blank_source 0 (codes "HIDE f == $\"a${x}\" ; IN g == 1 END ");
      }))
    ≡ Symbol.usr (codes "f")
      ∷ Symbol.eqdef
      ∷ Symbol.usr (codes "concat")
      ∷ Symbol.usr (codes "unquoted")
      ∷ Symbol.usr (codes "x")
      ∷ Symbol.string (codes "a")
      ∷ Symbol.eqdef
      ∷ Symbol.semicol
      ∷ Symbol.in_
      ∷ Symbol.usr (codes "g")
      ∷ Symbol.eqdef
      ∷ Symbol.integer (pos 1)
      ∷ Symbol.period
      ∷ []
unfolding getsym joy.Word.int64 joy.Prelude.Int.◌-ℤ◌ joy.Symbols.Names.decimal
    joy.Symbols.Table.enteratom
interpolated_reversed = refl

-- Outside of such a section its symbols come in their order.
interpolated_order :
    tokens_of
      (getsym calls 32 (record reader { source = at blank_source 0 (codes "$\"a ${x} b\" ") }))
    ≡ Symbol.usr (codes "x")
      ∷ Symbol.usr (codes "unquoted")
      ∷ Symbol.usr (codes "concat")
      ∷ Symbol.string (codes " b")
      ∷ Symbol.usr (codes "concat")
      ∷ []
unfolding getsym joy.Word.int64
interpolated_order = refl

-- A vector literal v[a], after its bracket: a message, and no factor
abbrev reader_after : Read list_hash (ℕ × Bool) → Reader list_hash
reader_after (ok a r) = r
reader_after _ = reader

abbrev malformed : Reader list_hash
malformed = record reader {
  source = at blank_source 0 (codes "] ");
  env = record reader.env { stck = char (pos 98) ⊳ nil };
}

-- `CONST two == 1 2`: of the two values, the last is in the list, and the other is above it.
abbrev two : Reader list_hash
two = record reader {
  source = at blank_source 0 (codes "two 7 ] ");
  hash = (codes "two", 1) ∷ [];
  env = record reader.env {
    stck = char (pos 98) ⊳ nil;
    symtab =
        start.symtab
        ++ (record (new_entry false (codes "two")) {
          is_user = true;
          immediate = true;
          body = integer (pos 1) ⊳ integer (pos 2) ⊳ nil;
        }
            ∷ []);
  };
}

abbrev pushing : Calls
pushing = record calls {
  exec_term = λ t e. Machine.ok tt (record e { stck = integer (pos 2) ⊳ integer (pos 1) ⊳ e.stck });
}

constant_of_two :
    (reader_after (readfactor pushing 5 Symbol.lbrack 32 two)).env.stck
    ≡ integer (pos 1) ⊳ list (integer (pos 2) ⊳ integer (pos 7) ⊳ nil) ⊳ char (pos 98) ⊳ nil
unfolding readfactor getsym joy.Text.Factor.read_name joy.Word.int64 joy.Symbols.Table.lookup
    joy.Text.Factor.Term-discrete joy.Prelude.ℕ_discrete
constant_of_two = refl
