-- ===== src/Parser/Display.antt =====
-- gen0-interp-rs/src/parser.rs and lexer.rs: the texts of types and of tokens in the messages of the
-- parser. `debug` is `{:?}` of a string.
use dacelo.Base.{List, [], ◌∷◌, ◌++◌}
use dacelo.Base.Text.{Text, codes}
use dacelo.Lexer.{Tok}
use dacelo.Syntax.{TyAst, TyAsts, t_var, t_con, arrow, t_tuple, t_nil, t_cons}
use dacelo.Eval.Show.{join, int_text}

-- A name with the texts of its arguments, if it has any.
unfoldable pub applied_text : Text → List Text → Text
unfolding join
applied_text name [] = name
applied_text name (a ∷ args) = name ++ codes " " ++ join (codes " ") (a ∷ args)

unfoldable mutual
  unfolding applied_text join

  pub format_tyast : TyAst → Text
  format_tyast (t_var v) = v
  format_tyast (t_con name args) = applied_text name (format_tyasts args)
  format_tyast (arrow a b) = format_tyast a ++ codes " -> " ++ format_tyast b
  format_tyast (t_tuple ts) = codes "(" ++ join (codes ", ") (format_tyasts ts) ++ codes ")"

  pub format_tyasts : TyAsts → List Text
  format_tyasts t_nil = []
  format_tyasts (t_cons t ts) = format_tyast t ∷ format_tyasts ts

-- `Display` of a token.
unfoldable pub tok_text : (Text → Text) → Tok → Text
unfolding int_text
tok_text debug (Tok.int n) = codes "int " ++ int_text n
tok_text debug (Tok.str s) = codes "string " ++ debug s
tok_text debug (Tok.ident s) = codes "ident `" ++ s ++ codes "`"
tok_text debug (Tok.upper s) = codes "ctor `" ++ s ++ codes "`"
tok_text debug (Tok.kw s) = codes "keyword `" ++ s ++ codes "`"
tok_text debug (Tok.sym s) = codes "`" ++ s ++ codes "`"
tok_text debug Tok.eof = codes "end of input"
