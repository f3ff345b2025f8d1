-- ===== src/Lib.antt =====
-- Joy, an interpreter for a concatenative language, written in C: a model of its evaluator and of
-- the builtins that are the language proper, with the theorems that make them correct.
--
-- The parts and how they interact. A program is a chain of nodes. `exec_term` (src/interp.c) walks
-- along it: a literal is pushed, a name has its body executed, a builtin is called. A builtin works on
-- the stack of the interpreter; a combinator executes quotations from the stack by calling `exec_term`
-- again, between SAVESTACK, which puts the stack onto the chain of saved stacks `dump`, and
-- POP(env->dump).
--
-- - Word, Bits: 64-bit and 32-bit integers with their wrap-around, and the masks of sets.
-- - Syntax: the nodes of include/globals.h. Syntax.Ops names the builtins, one enumeration for each file.
-- - Machine: `Env` and what a command can do (`Outcome`). Machine.Macros and Machine.Checks are
--   include/macros.h and include/runtime.h, one definition for each macro, with the name of the macro
--   in lower case (ONEPARAM is `one_param`, SAVESTACK with its POP is `saving`). Machine.Host is what
--   the modelled code calls and this library does not define. Machine.Keeps is the predicate that the
--   saved stacks are left alone.
-- - Stacks, Arithmetic, Sets, Types, Aggregate, Compare, Comparison: src/builtin/stacks.c, arithmetic.c,
--   sets.c with boolean.c, type.c with strings.c, aggregate.c, and comparison.c with its part of
--   builtin_macros.h. `swap_` is `Stacks.swap`, and so on; `run` gives the command of each name.
-- - Combinators: src/builtin/control.c, n_ary.c, combinators.c and recursion.c. They take `exec_term` as
--   an argument.
-- - Interp: src/interp.c, which ties the knot.
-- - Symbols: the symbol table. Symbols.Scope is src/module.c, whose static variables are a record;
--   Symbols.Table is `qualify` with src/symbol.c and `addsymbol` of src/optable.c; Symbols.Declare is the
--   first reading of `getsym` in src/scan.c, that declares the names of a module or a private section.
--   Symbols.Names has the C functions on strings. The hash table of khash.h is an interface, `Hash`,
--   with one law. Search, Entered, Indexed, Lookup, Nesting, Declared, Fresh and Private are proofs.
-- - Memory: the node array of src/utils.c and its copying collector. Memory.Nodes is the array,
--   Memory.Collector is copy_one, copy and gc1, and Memory.Allocate is newnode, count, gc2, gc_collect
--   and ensure_capacity. Memory.Variables is scan_roots, the last step of gc1. Memory.Represents says
--   which term the chain at an index stands for: it relates the array to the terms that all other parts
--   work on. Forward, Writes, Mark, CopyNode, CopyChain, CopyLoop, Copy, Preserve, Scan, Cons, NewNode
--   and Capacity are proofs.
-- - Text: values as text and text as values. Text.Writer is src/write.c and Text.Stringify is
--   src/builtin/tostring.c; Text.Source is getch, ungetch and `special` of src/scan.c, Text.Symbol the
--   symbols and keywords, Text.Interpolate is parse_interpolated_string, Text.Scan is my_getsym, and
--   Text.Reader is getsym, which reads a module or a private section twice. Text.Factor and
--   Text.Literals are src/factor.c: readfactor, readterm and list2set, with vector and matrix literals.
--   Text.Chars has the C functions on characters. Spells is the concrete syntax of values as a relation,
--   that the reader accepts (Words, Names, Numerals, Quotes, Quoting, SetText, ReadBack, Accepts) and that
--   the writers produce (Written, Stringified); Readable says which values this holds of. Getch, SetWriter,
--   RoundTrip, Stuck, Left, Loops, Returns, Kept, Pushed and Pushes are proofs.
-- - Examples: the theorems at concrete programs and values.
--
-- How the state corresponds. An index of a node is the chain that it leads to, a `Term`, and index 0
-- is `nil` (Memory.Represents): the modelled builtins build new nodes and do not write to old ones.
-- The one combinator that does, `while_`, is not modelled: its write to SAVED3 changes the successor of
-- a node that stacks saved by enclosing combinators share. `dump1` to `dump5` and `conts`, which keep
-- local variables where the collector finds them, are local values. A double is its 64 bits, and the
-- operations on it are fields of Host. Signed overflow wraps round. What C leaves undefined is the outcome `fault`. An error carries the state in which `execerror` was called.
--
-- In a Scope the indices `hide_index` and `module_index` are one more than in the source, where -1
-- stands for no section; `hide_count` does not overflow, and memory is not exhausted. The node array is
-- that of the build with NOBDW. Its nodes hold values of one node each: strings and big numbers, whose
-- bytes go on in the nodes after their first, are left out of Memory.Nodes.Value, with the part of
-- copy_one, count and newnode that serves them. A write at or above memorymax is not told from another.
--
-- A node of an illegal operator ends the run of its term, as ILLEGAL_ and COPIED_ end `exec_term`.
--
-- Fuel. `exec_term` takes the depth of nested calls as a number, and a loop without a bound of its own
-- (`linrec`, `tailrec`, `binrec`, `condlinrec`, `condnestrec`) makes at most as many rounds as
-- depth is left. A program that needs more ends in `out_of_fuel`, a value of its own, which no theorem
-- takes for a result; where a theorem says that a run returns, the depth that is enough is written out.
--
-- `copy` and `count` take the depth of nested lists, and the loop of `copy` the number of nodes, as
-- fuel; a size of the term is enough (Memory.Represents.size).
--
-- The loops of the scanner take as fuel the number of steps that they may make (`steps` of Calls): more
-- than the characters and files that are left to read, plus one (Text.Left.left), is enough. The fuel of
-- readfactor and readterm bounds the depth and the length of lists.
--
-- The reader is the version of readterm without NOBDW. A name within a list may be executed when it is
-- read, and then push any number of values: all but the last stay above the list, whose chain goes on
-- with them, as readterm links them. Where the name pushes nothing or takes values off the stack that
-- were there before, the source writes into the nodes of these, and the outcome is `bad_immediate`. That
-- a value it pushes shares the last node of the list being read is not seen here. A shell escape empties
-- the string that the scanner collects, also in the middle of a string (`escapes` of Source counts them).
-- The end of the input is the outcome `quit`, and the end of an included file while `finclude` waits for
-- it the outcome `finclude`.
--
-- What is taken from elsewhere. The conversions of numbers by the C library are parameters: `Numbers` has
-- strtoll and strtod, and `Printer` has the text of a float by %g, the names of builtins, and what stands
-- behind a file, a vector, a matrix or a dictionary. `Calls` has what the reader calls for a name that is
-- executed when it is read. iscntrl, isdigit, isupper and isalnum are those of the C locale.
--
-- What is not modelled: the conservative collector gc.c, the start of a reading (inimem1 and inimem2),
-- the line buffer and the positions of the scanner, which serve messages and the echo, `include` and
-- `redirect`, the shell commands that an escape executes, compound_def, defsequence and definition as
-- readers of tokens, the table of a dictionary, the operators on dictionaries and vectors, JSON, files,
-- time and threads, `while`, `casting`, `strtod` and `strtol` as builtins, `frexp`, `ldexp` and `modf`.
-- Such a builtin is `other`, a field of Host. The third-party code of the repository is left out.
mod Prelude
pub mod Word
pub mod Bits
pub mod Syntax
pub mod Machine
pub mod Compare
pub mod Stacks
pub mod Comparison
pub mod Arithmetic
pub mod Sets
pub mod Types
pub mod Aggregate
pub mod Combinators
pub mod Interp
pub mod Symbols
pub mod Text
pub mod Memory
mod Examples
