-- ===== src/Parser/Types.antt =====
-- gen0-interp-rs/src/parser.rs: the parsers of types. Each takes the parser of the types inside.
use dacelo.Base.{ℕ, zero, suc, Bool, true, ◌||◌, List, [], ◌∷◌, if◌then◌else◌}
use dacelo.Base.Text.{codes}
use dacelo.Lexer.{Tok}
use dacelo.Syntax.{TyAst, t_var, t_con, arrow, t_tuple, TyAsts, t_nil, t_cons, list}
use dacelo.Parser.{
  expected_type, bad_type_application, P, ◌>>=◌, ◌>>◌, return, out_of_fuel, next, fail, on_peek,
  is_sym, if_sym, expect_sym, many, in_parens,
}

unfoldable pub ty_asts : List TyAst → TyAsts
ty_asts [] = t_nil
ty_asts (t ∷ ts) = t_cons t (ty_asts ts)

unfoldable pub starts_type_atom : Tok → Bool
unfolding is_sym
starts_type_atom (Tok.ident v) = true
starts_type_atom (Tok.upper c) = true
starts_type_atom t = is_sym (codes "(") t || is_sym (codes "[") t

unfoldable pub in_list : P TyAst → P TyAst
unfolding expect_sym
in_list type_of = do _ ← next; t ← type_of; _ ← expect_sym (codes "]"); return (list t)

unfoldable pub atomty_at : ℕ → P TyAst → Tok → P TyAst
unfolding in_parens in_list is_sym
atomty_at f type_of (Tok.ident v) = next >> return (t_var v)
atomty_at f type_of (Tok.upper c) = next >> return (t_con c t_nil)
atomty_at f type_of (Tok.sym s) =
    if is_sym (codes "(") (Tok.sym s)
    then in_parens f type_of (t_con (codes "Unit") t_nil) (λ ts. t_tuple (ty_asts ts))
    else if is_sym (codes "[") (Tok.sym s)
    then in_list type_of
    else fail expected_type
atomty_at f type_of _ = fail expected_type

unfoldable pub parse_atomty : ℕ → P TyAst → P TyAst
unfolding on_peek atomty_at
parse_atomty f type_of = on_peek (atomty_at f type_of)

unfoldable pub apply_ty : TyAst → List TyAst → P TyAst
apply_ty head [] = return head
apply_ty (t_con name t_nil) (a ∷ args) = return (t_con name (ty_asts (a ∷ args)))
apply_ty head (a ∷ args) = λ ts. bad_type_application head

unfoldable pub parse_app_ty : ℕ → P TyAst → P TyAst
unfolding parse_atomty many apply_ty starts_type_atom
parse_app_ty f type_of = do
  head ← parse_atomty f type_of
  args ← many f starts_type_atom (parse_atomty f type_of)
  apply_ty head args

unfoldable pub parse_type : ℕ → P TyAst
unfolding parse_app_ty if_sym
parse_type zero = out_of_fuel
parse_type (suc f) =
    let type_of = parse_type f in
    parse_app_ty f type_of >>= λ l.
    if_sym (codes "->") (type_of >>= λ r. return (arrow l r)) (return l)
