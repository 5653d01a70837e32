-- ===== src/Compiler.antt =====
-- gen2-dcc-rs/src/main.rs: the driver of the native compiler, from the text of a program to the
-- bytes of the object file.
pub mod Stages
use dacelo.Base.{ℕ, List, [], ◌∷◌, leb, if◌then◌else◌, map}
use dacelo.Base.Text.{Text}
use dacelo.Codegen.{Codegen, Gen, GenPanic}
use dacelo.Codegen.Object.{compile_program, new}
use dacelo.Infer.{InferError, Inferred, Infer, Names, insert}
use dacelo.Infer.Items
use dacelo.Infer.Items.{check_program}
use dacelo.Lexer.{Token, LexError, Lexed, lex}
use dacelo.Macho.{ObjectBuilder, Built}
use dacelo.Macho.Writer.{finish}
use dacelo.Parser.{Problem, Parsed}
use dacelo.Parser.Items.{parse}
use dacelo.Syntax.{TyAst, Program}

-- What the compiler comes to: the error of the stage that fails, or the bytes of the object file. The
-- last six are the panics and the ends of the fuel of the stages other than the code generator.
pub data Compilation : Type 0 where
  lex_failed : LexError → Compilation
  parse_failed : Problem → Token → Compilation
  bad_type_application : TyAst → Compilation
  type_failed : InferError → Compilation
  generator_panic : GenPanic → Compilation
  unknown_symbol : Text → Compilation
  object_file : List ℕ → Compilation
  read_panic read_timeout check_panic check_timeout generator_timeout write_panic : Compilation

-- An entry of the table of constructors: the name, the tag and the arity.
abbrev pub Entry : Type 0
Entry = Text × (ℕ × ℕ)

unfoldable pub insert_entry : Entry → List Entry → List Entry
insert_entry e [] = e ∷ []
insert_entry e (d ∷ entries) =
    let later = insert_entry e entries in if leb e.1.0 d.1.0 then e ∷ d ∷ entries else d ∷ later

-- `sort_by_key`, which is stable, by the tag. The order in which a `HashMap` gives its entries is
-- not fixed; it shows only where two tags are the same.
unfoldable pub sort_entries : List Entry → List Entry
unfolding insert_entry
sort_entries [] = []
sort_entries (e ∷ entries) = insert_entry e (sort_entries entries)

unfoldable pub entry_arities : List Entry → Names ℕ
unfolding insert
entry_arities [] = []
entry_arities ((name, (tag, arity)) ∷ entries) = insert (entry_arities entries) name arity

unfoldable pub entry_names : List Entry → List Text
entry_names entries = map (λ e. e.0) entries

unfoldable pub after_object : Built (List ℕ) → Compilation
after_object (Built.ok bytes) = object_file bytes
after_object (Built.unknown_symbol n) = unknown_symbol n
after_object Built.panic = write_panic

unfoldable pub after_program : Gen (ObjectBuilder × Codegen) → Compilation
unfolding after_object finish
after_program (Gen.ok (obj, g)) = after_object (finish obj)
after_program (Gen.panic p) = generator_panic p
after_program Gen.timeout = generator_timeout

unfoldable pub after_new : Program → Gen (Unit {0} × Codegen) → Compilation
unfolding after_program compile_program
after_new prog (Gen.ok (u, g)) = after_program (compile_program prog g)
after_new prog (Gen.panic p) = generator_panic p
after_new prog Gen.timeout = generator_timeout

unfoldable pub after_check : Program → Inferred (Unit {0} × Infer) → Compilation
unfolding after_new new sort_entries entry_arities entry_names
after_check prog (Inferred.ok (u, inf)) =
    let entries = sort_entries inf.ctors in
    after_new prog (new (entry_names entries) (entry_arities entries))
after_check prog (Inferred.err e) = type_failed e
after_check prog Inferred.panic = check_panic
after_check prog Inferred.timeout = check_timeout

unfoldable pub after_parse : ℕ → Parsed Program → Compilation
unfolding after_check check_program Items.new
after_parse f (Parsed.ok prog) = after_check prog (check_program f prog Items.new)
after_parse f (Parsed.err p t) = parse_failed p t
after_parse f (Parsed.bad_type_application t) = bad_type_application t
after_parse f Parsed.panic = read_panic
after_parse f Parsed.timeout = read_timeout

unfoldable pub after_lex : ℕ → Lexed (List Token) → Compilation
unfolding after_parse parse
after_lex f (Lexed.ok toks) = after_parse f (parse toks)
after_lex f (Lexed.err e) = lex_failed e
after_lex f Lexed.unreachable = read_panic
after_lex f Lexed.timeout = read_timeout

-- The compiler on the text of a program; `f` is the fuel of the check of types.
unfoldable pub compile_source : ℕ → Text → Compilation
unfolding after_lex lex
compile_source f src = after_lex f (lex src)
