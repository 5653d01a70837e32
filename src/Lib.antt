-- ===== src/Lib.antt =====
-- A model of two programs of the dacelo compiler chain: the tree-walking interpreter of generation
-- 0 (gen0-interp-rs) and the ARM64 back end of the generation 2 compiler (gen2-dcc-rs).
--
-- The parts, and the files that model them:
--   gen0-interp-rs/src/lexer.rs   Lexer: `Tok`, `Token` and `lex`, whose loop is `lex_loop` and whose
--     rounds are `lex_round`; a `Cursor` holds the characters left, the line and the column.
--   gen0-interp-rs/src/ast.rs     Syntax: the tree. A `Vec` of trees inside a tree is a data type of
--     its own (`Patterns`, `Exprs`, `Branches`, `TyAsts`).
--   gen0-interp-rs/src/parser.rs  Parser: a method of `Parser` is a function from the tokens left to a
--     result and the tokens left then; the loops that its methods share. Parser/Types, Parser/Patterns
--     and Parser/Exprs the parsers of those, Parser/Items `parse`. Parser/Reads what they read.
--     Parser/Display the texts of types and tokens in messages, `Display` of lexer.rs included.
--   gen0-interp-rs/src/infer.rs   Infer: types, schemes and the state of inference. A type variable is its
--     `id`, and its cell is an entry of the list `links`. Infer/Unify `prune`, `occurs` and `unify`,
--     Infer/Schemes free variables, `generalize` and `inst`, Infer/Annotations `resolve_tyast`,
--     Infer/Exprs `pat_type` and `expr_type`, Infer/TypeDefs `check_tydef`, Infer/Items
--     `infer_def_group`, `check_program` and `Infer::new`.
--   gen0-interp-rs/src/eval.rs    Eval: values, environments and the machine's state; Eval/Numbers the
--     64-bit operations, Eval/Show `show_value`, Eval/Match `pat_match` and `eq_value`, Eval/Builtins
--     `call_builtin` and `binop`, Eval/Steps the parts of evaluation that call no evaluation,
--     Eval/Interp `eval`, `apply`, `define_rec_group` and `run_items`.
--   gen0-interp-rs/src/lib.rs     Pipeline: `run_source`, the four stages one after the other.
--   gen2-dcc-rs/src/encoder.rs    Encoder: `CodeBuf` with its labels and GOT slots;
--     Encoder/Instructions the emitters, Encoder/Finish `finish`, Encoder/Program the emitters as one
--     data type of operations. Encoder/Machine reads words back as instructions, for the theorems, with register 31 as the zero
--     register.
--   gen2-dcc-rs/src/macho.rs      Macho: `ObjectBuilder`; Macho/Symbols the symbol table and the
--     relocations, Macho/Headers the section and segment headers, Macho/Writer `finish`. Macho/Fields reads the
--     headers back at the places of the Mach-O format, for the theorems.
--   gen2-dcc-rs/src/codegen.rs    Codegen: the state with the frame of the function that is compiled, and
--     the calls of the runtime; a method is a function from a state to a result and a state, and the
--     calls of the encoder go through Encoder/Program. Codegen/Data the constants, Codegen/Frames
--     prologues, epilogues, closures and variables, Codegen/Patterns `match_pat`, Codegen/Arith
--     `int_arith`, Codegen/Exprs `expr`, Codegen/Functions the functions that are compiled later and
--     the entry points, Codegen/Object `Codegen::new` and `compile_program`. Codegen/Framed what the
--     methods do to the state, Codegen/Strings the string constants in the data, Codegen/Machine what
--     the code of arithmetic and of closures does to registers, slots and memory.
--   gen2-dcc-rs/src/main.rs       Compiler: the stages from the text to the bytes of the object file.
-- Base holds what they share: tests and lists on native numbers, texts, decimal numbers, integers.
-- Tests runs the model on small inputs and applies the theorems to them.
--
-- How the code is read. A `String` is the list of its characters, with its UTF-8 bytes computed
-- where the source counts bytes. An `i64` is an integer and every operation that wraps around says
-- so (`wrap64`); a shift or a cast of a `u32` is cut to its width. A failed assertion, an
-- `unreachable!` and an index out of range are outcomes of their own. The shared cell of a recursive
-- group of functions is an index into the machine's list `cells`. A `HashMap` is an association
-- list. A counter of the code generator panics when it passes 32 bits, as in a build with overflow
-- checks. The lines and columns of the lexer and the tags of the inference, a `u32` each in the source, are
-- natural numbers, so texts with 2^32 lines or columns and programs with 2^32 constructors are not covered. Files, program arguments, commands and `{:?}` of a string are the fields of a `Host`.
--
-- Fuel. `lex` runs its loop on one unit for each character and one more, since every round
-- reads a character. `parse` runs on one unit for each token: a loop spends one for each round and
-- `parse_expr`, `parse_pattern` and `parse_type` one for each call, and all of these read a token
-- first, the last token never being passed. The walks over types in the inference run on an amount
-- that they are given, one unit for each link and each step into a type. `drain_pending` runs on
-- one unit more than there are nodes in the functions that are left, since compiling a function
-- leaves less than itself for later. `eval` and `apply` spend one unit for each call, since a
-- program need not stop. The decimal printer runs on one more than
-- the number.
--
-- Not modelled: what the inference prints (`show_ty`, `scan_leaks`, the debugging that environment
-- variables turn on), the command lines, the files and the calls of the C compiler and the linker,
-- the runtime in C and what the emitted code computes with it, the compilers that are written in dacelo itself, the output to the terminal (what is printed is the
-- list `out`), and the texts of the errors of the evaluator and the inference.
pub mod Base
pub mod Encoder
pub mod Macho
pub mod Lexer
pub mod Syntax
pub mod Parser
pub mod Infer
pub mod Eval
pub mod Codegen
pub mod Compiler
pub mod Pipeline
mod Tests
