-- ===== src/Tests/PipelineTests.antt =====
-- Tests of the model of gen0-interp-rs/src/lib.rs.
use dacelo.Base.{◌≡◌, refl, [], none}
use dacelo.Base.Int.{pos}
use dacelo.Base.Text.{Text, codes}
use dacelo.Lexer.{
  unterminated, is_whitespace, starts_ident, in_ident, bump, escaped, lex_string, lex_sym1, lex_sym,
  lex_round, lex_loop, lex,
}
use dacelo.Eval.{Host}
use dacelo.Pipeline.{lex_failed, after_lex, run_source, Explained, run_source-Explained}

-- A host with no files and no arguments.
abbrev host : Host
host = record {
  World = Unit {0};
  read_to_string = λ p w. none;
  write = λ p s w. none;
  nth_arg = λ n w. [];
  run_command = λ s w. (pos 0, w);
  debug = λ s. s;
}

run_open_string : run_source host 40 tt (codes "\"ab") ≡ lex_failed (unterminated 1 1)
unfolding run_source after_lex lex lex_loop lex_round lex_sym lex_sym1 lex_string escaped bump
    in_ident starts_ident is_whitespace
run_open_string = refl

abbrev source : Text
source = codes "let main u = print_int (1 + 2)"

run_source-Explained_example : Explained host 40 tt source (run_source host 40 tt source)
run_source-Explained_example = run_source-Explained host 40 tt source
