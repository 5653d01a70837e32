-- ===== src/Compiler/Stages.antt =====
-- How the stages of the driver, gen2-dcc-rs/src/main.rs, come to what `compile_source` gives.
use dacelo.Base.{none, ℕ, ◌≡◌, List}
use dacelo.Base.Text.{Text}
use dacelo.Codegen.{Codegen, Gen, GenPanic}
use dacelo.Codegen.Framed.Object.{ObjectOf}
use dacelo.Codegen.Object.{compile_program, new}
use dacelo.Infer.{InferError, Inferred, Infer}
use dacelo.Infer.Items
use dacelo.Infer.Items.{check_program}
use dacelo.Lexer.{Token, LexError, Lexed, lex}
use dacelo.Macho.{ObjectBuilder, Built}
use dacelo.Macho.Layout.{FileOf}
use dacelo.Macho.Symbols.{symbols, index_of}
use dacelo.Macho.Writer.{finish}
use dacelo.Parser.{Problem, Parsed}
use dacelo.Parser.Items.{parse}
use dacelo.Syntax.{TyAst, Program}
use dacelo.Compiler.{
  Compilation, lex_failed, parse_failed, bad_type_application, type_failed, generator_panic,
  unknown_symbol, object_file, check_panic, check_timeout, sort_entries, entry_arities, entry_names,
}

-- How a compilation of `src` comes about. No constructor is for a panic or for the end of the fuel
-- while the text is read or the file is written, or for the end of the generator's fuel.
module _ (f : ℕ) (src : Text) where
  -- The state of inference with which the check of `prog` ends, and the state that the generator
  -- starts from.
  pub record Ready (prog : Program) (g : Codegen) : Type 0 where
    pub toks : List Token
    pub inf : Infer
    pub is_lexed : lex src ≡ Lexed.ok toks
    pub is_parsed : parse toks ≡ Parsed.ok prog
    pub is_checked : check_program f prog Items.new ≡ Inferred.ok (tt, inf)
    pub starts :
        new (entry_names (sort_entries inf.ctors)) (entry_arities (sort_entries inf.ctors))
        ≡ Gen.ok (tt, g)

  pub data Explained : Compilation → Type 0 where
    at_lex : {e : LexError} → lex src ≡ Lexed.err e → Explained (lex_failed e)
    at_parse :
        {toks : List Token} {p : Problem} {t : Token}
        → lex src ≡ Lexed.ok toks
        → parse toks ≡ Parsed.err p t
        → Explained (parse_failed p t)
    at_application :
        {toks : List Token} {t : TyAst}
        → lex src ≡ Lexed.ok toks
        → parse toks ≡ Parsed.bad_type_application t
        → Explained (bad_type_application t)
    at_check :
        {toks : List Token} {prog : Program} {e : InferError}
        → lex src ≡ Lexed.ok toks
        → parse toks ≡ Parsed.ok prog
        → check_program f prog Items.new ≡ Inferred.err e
        → Explained (type_failed e)
    check_panics :
        {toks : List Token} {prog : Program}
        → lex src ≡ Lexed.ok toks
        → parse toks ≡ Parsed.ok prog
        → check_program f prog Items.new ≡ Inferred.panic
        → Explained check_panic
    check_stops :
        {toks : List Token} {prog : Program}
        → lex src ≡ Lexed.ok toks
        → parse toks ≡ Parsed.ok prog
        → check_program f prog Items.new ≡ Inferred.timeout
        → Explained check_timeout
    new_panics :
        {toks : List Token} {prog : Program} {inf : Infer} {p : GenPanic}
        → lex src ≡ Lexed.ok toks
        → parse toks ≡ Parsed.ok prog
        → check_program f prog Items.new ≡ Inferred.ok (tt, inf)
        → new (entry_names (sort_entries inf.ctors)) (entry_arities (sort_entries inf.ctors))
          ≡ Gen.panic p
        → Explained (generator_panic p)
    in_generator :
        {prog : Program} {g : Codegen} {p : GenPanic}
        → Ready prog g
        → compile_program prog g ≡ Gen.panic p
        → Explained (generator_panic p)
    at_symbol :
        {prog : Program} {g : Codegen} {obj : ObjectBuilder} {n : Text}
        → Ready prog g
        → ObjectOf prog g obj
        → index_of n (symbols obj).sym_index ≡ none
        → Explained (unknown_symbol n)
    made :
        {prog : Program} {g : Codegen} {obj : ObjectBuilder} {bytes : List ℕ}
        → Ready prog g
        → ObjectOf prog g obj
        → finish obj ≡ Built.ok bytes
        → FileOf obj (Built.ok bytes)
        → Explained (object_file bytes)
