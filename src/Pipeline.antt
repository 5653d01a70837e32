-- ===== src/Pipeline.antt =====
-- gen0-interp-rs/src/lib.rs: the stages of the interpreter one after the other.
use dacelo.Base.{ℕ, ◌≡◌, refl, List, length}
use dacelo.Base.Text.{Text}
use dacelo.Lexer.{Token, LexError, Lexed, lex}
use dacelo.Lexer.Sound.{Ensures, good, bad, Tokens, lex-Ensures}
use dacelo.Syntax.{TyAst, Program}
use dacelo.Parser.{Problem, Parsed}
use dacelo.Parser.Items.{parse}
use dacelo.Parser.Reads.Items.{Answer, program, problem, bad_application, parse-lex}
use dacelo.Infer.{InferError, Inferred, Infer}
use dacelo.Infer.Items.{check_program, new}
use dacelo.Eval.{Host, Outcome, Value}
use dacelo.Eval.Steps.{new as new_machine}
use dacelo.Eval.Interp.{run_items}

-- What a run comes to: the error of the stage that fails, or what evaluation gives. The last four are
-- a panic and the end of the fuel before evaluation, in the stages that read the text and in the
-- check of types.
pub data Run (W : Type 0) : Type 0 where
  lex_failed : LexError → Run W
  parse_failed : Problem → Token → Run W
  bad_type_application : TyAst → Run W
  type_failed : InferError → Run W
  evaluated : Outcome W Value → Run W
  read_panic read_timeout check_panic check_timeout : Run W

module _ (h : Host) (f : ℕ) (world : Host.World h) where
  unfoldable pub after_check : Program → Inferred (Unit {0} × Infer) → Run (Host.World h)
  unfolding run_items new_machine
  after_check prog (Inferred.ok (u, inf)) =
      evaluated (run_items h f prog (new_machine inf.ctors world))
  after_check prog (Inferred.err e) = type_failed e
  after_check prog Inferred.panic = check_panic
  after_check prog Inferred.timeout = check_timeout

  unfoldable pub after_parse : Parsed Program → Run (Host.World h)
  unfolding after_check check_program new
  after_parse (Parsed.ok prog) = after_check prog (check_program f prog new)
  after_parse (Parsed.err p t) = parse_failed p t
  after_parse (Parsed.bad_type_application t) = bad_type_application t
  after_parse Parsed.panic = read_panic
  after_parse Parsed.timeout = read_timeout

  unfoldable pub after_lex : Lexed (List Token) → Run (Host.World h)
  unfolding after_parse parse
  after_lex (Lexed.ok toks) = after_parse (parse toks)
  after_lex (Lexed.err e) = lex_failed e
  after_lex Lexed.unreachable = read_panic
  after_lex Lexed.timeout = read_timeout

  -- `run_source`, with what is printed in the machine that evaluation gives.
  unfoldable pub run_source : Text → Run (Host.World h)
  unfolding after_lex lex
  run_source src = after_lex (lex src)

  -- How a run comes about. No constructor is for a panic or for the end of the fuel while the text is
  -- read, and evaluation has the constructors of the check of the same program.
  pub data Explained (src : Text) : Run (Host.World h) → Type 0 where
    at_lex : {e : LexError} → lex src ≡ Lexed.err e → Explained src (lex_failed e)
    at_parse :
        {toks : List Token} {p : Problem} {t : Token}
        → lex src ≡ Lexed.ok toks
        → parse toks ≡ Parsed.err p t
        → Explained src (parse_failed p t)
    at_application :
        {toks : List Token} {t : TyAst}
        → lex src ≡ Lexed.ok toks
        → parse toks ≡ Parsed.bad_type_application t
        → Explained src (bad_type_application t)
    at_check :
        {toks : List Token} {prog : Program} {e : InferError}
        → lex src ≡ Lexed.ok toks
        → parse toks ≡ Parsed.ok prog
        → check_program f prog new ≡ Inferred.err e
        → Explained src (type_failed e)
    check_panics :
        {toks : List Token} {prog : Program}
        → lex src ≡ Lexed.ok toks
        → parse toks ≡ Parsed.ok prog
        → check_program f prog new ≡ Inferred.panic
        → Explained src check_panic
    check_stops :
        {toks : List Token} {prog : Program}
        → lex src ≡ Lexed.ok toks
        → parse toks ≡ Parsed.ok prog
        → check_program f prog new ≡ Inferred.timeout
        → Explained src check_timeout
    runs :
        {toks : List Token} {prog : Program} {inf : Infer}
        → lex src ≡ Lexed.ok toks
        → parse toks ≡ Parsed.ok prog
        → check_program f prog new ≡ Inferred.ok (tt, inf)
        → Explained src (evaluated (run_items h f prog (new_machine inf.ctors world)))

  check-Explained :
      {src : Text} {toks : List Token} {prog : Program} (r : Inferred (Unit {0} × Infer))
      → lex src ≡ Lexed.ok toks
      → parse toks ≡ Parsed.ok prog
      → check_program f prog new ≡ r
      → Explained src (after_check prog r)
  unfolding after_check
  check-Explained (Inferred.ok (u, inf)) l p c = runs l p c
  check-Explained (Inferred.err e) l p c = at_check l p c
  check-Explained Inferred.panic l p c = check_panics l p c
  check-Explained Inferred.timeout l p c = check_stops l p c

  parse-Explained :
      (src : Text) (toks : List Token)
      → lex src ≡ Lexed.ok toks
      → (r : Parsed Program) → parse toks ≡ r
      → Answer r
      → Explained src (after_parse r)
  unfolding after_parse
  parse-Explained src toks e _ e' (program {a}) = check-Explained (check_program f a new) e e' refl
  parse-Explained src toks e _ e' problem = at_parse e e'
  parse-Explained src toks e _ e' bad_application = at_application e e'

  lex-Explained :
      (src : Text) (r : Lexed (List Token))
      → lex src ≡ r
      → Ensures (Tokens src (length src)) r
      → Explained src (after_lex r)
  unfolding after_lex
  lex-Explained src _ e (good {a} t) = parse-Explained src a e (parse a) refl (parse-lex src a e)
  lex-Explained src _ e bad = at_lex e

  -- For every text, `run_source` ends with the error of `lex`, of `parse` or of `check_program`, with the
  -- panic or the end of the fuel of `check_program`, or with what `run_items` gives for the program
  -- that `parse` gives, from a machine with the constructors that the check of that program collects. It
  -- never panics and never runs out of fuel while it reads the text.
  pub run_source-Explained : (src : Text) → Explained src (run_source src)
  unfolding run_source
  run_source-Explained src = lex-Explained src (lex src) refl (lex-Ensures src)
