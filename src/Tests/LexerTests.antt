-- ===== src/Tests/LexerTests.antt =====
-- Tests of the model of gen0-interp-rs/src/lexer.rs.
use dacelo.Base.{ℕ, ◌≡◌, refl, [], ◌∷◌}
use dacelo.Base.Int.{pos}
use dacelo.Base.Decimal.{digits_value, parse_number}
use dacelo.Base.Text.{Text, codes, text_eq}
use dacelo.Lexer.{
  Tok, Token, ok, err, unterminated, contains, member, is_whitespace, starts_ident, in_ident,
  Cursor, bump, bump_while, escaped, lex_string, lex_int, starts_upper, word_tok, lex_word,
  lex_sym1, lex_sym, lex_round, lex_loop, lex,
}
use dacelo.Lexer.Strings.{quote_onto, Reads, lex_string-quote_onto}

abbrev source : Text
source = codes "let _ = 12 -- c\n  a->\"\\n\""

abbrev at : Tok → ℕ → ℕ → Token
at t l c = record { tok = t; line = l; col = c }

lex-source :
    lex source
    ≡ ok (
        at (Tok.kw (codes "let")) 1 1
        ∷ at (Tok.ident (codes "_")) 1 5
        ∷ at (Tok.sym (codes "=")) 1 7
        ∷ at (Tok.int (pos 12)) 1 9
        ∷ at (Tok.ident (codes "a")) 2 3
        ∷ at (Tok.sym (codes "->")) 2 4
        ∷ at (Tok.str (b'\n' ∷ [])) 2 6
        ∷ at Tok.eof 2 10
        ∷ [])
unfolding lex lex_loop lex_round lex_sym lex_sym1 lex_word lex_int lex_string word_tok starts_upper
    escaped bump_while bump in_ident starts_ident is_whitespace member contains text_eq digits_value
    parse_number
lex-source = refl

lex_open_string : lex (codes "\"ab") ≡ err (unterminated 1 1)
unfolding lex lex_loop lex_round lex_sym lex_sym1 lex_string escaped bump in_ident starts_ident
    is_whitespace
lex_open_string = refl

abbrev start : Cursor
start = record { rest = []; line = 1; col = 2 }

lex_string-quote_onto_example :
    Reads 1 1 (quote_onto (codes "a\"\n") (b'"' ∷ codes " x")) start (codes "a\"\n") (codes " x")
lex_string-quote_onto_example = lex_string-quote_onto 1 1 (codes "a\"\n") (codes " x") start
