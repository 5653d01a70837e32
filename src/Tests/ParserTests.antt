-- ===== src/Tests/ParserTests.antt =====
-- Tests of the model of gen0-interp-rs/src/parser.rs.
use dacelo.Base.{ℕ, ◌≡◌, refl, false, List, [], ◌∷◌, none}
use dacelo.Base.Int.{pos, negsuc}
use dacelo.Base.Decimal.{digits_value, parse_number}
use dacelo.Base.Text.{Text, codes, text_eq}
use dacelo.Lexer.{
  Tok, Token, Lexed, contains, member, is_whitespace, starts_ident, in_ident, bump, bump_while,
  lex_int, starts_upper, word_tok, lex_word, lex_sym1, lex_sym, lex_round, lex_loop, lex,
}
use dacelo.Syntax.{
  list, t_var, arrow, Lit, Pattern, p_tuple, p_nil, p_cons, BinOp, Expr, lit, ctor, app, bin, Item,
  Def,
}
use dacelo.Eval.Numbers.{wrap64, ◌-ℤ◌, wrapping_sub}
use dacelo.Parser.{
  Parsed, and_without_rec, bind, ◌>>=◌, return, out_of_fuel, next, fail, on_peek, on_peek2, is_sym,
  is_kw, if_peek, if_next, if_sym, if_kw, expect_sym, expect_kw, ident_at, parse_ident, upper_at,
  parse_upper, many, sep_by, left_step, left_assoc, eat_sym, eat_kw, parens_rest, in_parens,
  in_brackets,
}
use dacelo.Parser.Types.{
  ty_asts, starts_type_atom, in_list, atomty_at, parse_atomty, apply_ty, parse_app_ty, parse_type,
}
use dacelo.Parser.Patterns.{
  patterns, pat_nil, pat_cons, pat_list, starts_atom, pat_atom_at, pat_atom, pat_app_at,
  parse_pat_app, parse_pattern, parse_pat_atom,
}
use dacelo.Parser.Exprs.{
  exprs, branches, wrap_params, nil, cons, expr_list, apps, op_in, negated, minus_at, starts_param,
  atom_at, parse_atom, parse_app, parse_mul, parse_add, parse_cons, parse_cmp, parse_and, parse_or,
  parse_ann, parse_seq, parse_opt_ann, parse_let_tail, let_pattern, let_rest, let_def,
  parse_local_def, fun_expr, if_expr, branch, case_expr, expr_at, parse_expr,
}
use dacelo.Parser.Items.{
  is_ident, is_eof, ctor_decl, parse_tydef, let_tail, and_tails, let_group, let_item, item_at,
  parse_item, parse_items, parse,
}
use dacelo.Parser.Reads.{last, more}
use dacelo.Parser.Display.{applied_text, format_tyast, format_tyasts, tok_text}
use dacelo.Eval.Show.{join}
use dacelo.Parser.Reads.Items.{Answer, parse-Answer, parse-lex}

abbrev at : Tok → ℕ → Token
at t c = record { tok = t; line = 1; col = c }

abbrev source : Text
source = codes "let f (x, _) = x - 2 - f [-1] :: A"

abbrev tokens : List Token
tokens =
    at (Tok.kw (codes "let")) 1
    ∷ at (Tok.ident (codes "f")) 5
    ∷ at (Tok.sym (codes "(")) 7
    ∷ at (Tok.ident (codes "x")) 8
    ∷ at (Tok.sym (codes ",")) 9
    ∷ at (Tok.ident (codes "_")) 11
    ∷ at (Tok.sym (codes ")")) 12
    ∷ at (Tok.sym (codes "=")) 14
    ∷ at (Tok.ident (codes "x")) 16
    ∷ at (Tok.sym (codes "-")) 18
    ∷ at (Tok.int (pos 2)) 20
    ∷ at (Tok.sym (codes "-")) 22
    ∷ at (Tok.ident (codes "f")) 24
    ∷ at (Tok.sym (codes "[")) 26
    ∷ at (Tok.sym (codes "-")) 27
    ∷ at (Tok.int (pos 1)) 28
    ∷ at (Tok.sym (codes "]")) 29
    ∷ at (Tok.sym (codes "::")) 31
    ∷ at (Tok.upper (codes "A")) 34
    ∷ at Tok.eof 35
    ∷ []

lex-source : lex source ≡ Lexed.ok tokens
unfolding lex lex_loop lex_round lex_sym lex_sym1 lex_word lex_int word_tok starts_upper bump_while
    bump in_ident starts_ident is_whitespace member contains text_eq digits_value parse_number
lex-source = refl

abbrev list_of_minus_one : Expr
list_of_minus_one = app (app (ctor (codes "Cons")) (lit (Lit.int (negsuc 0)))) (ctor (codes "Nil"))

-- `-` is left associative, and binds tighter than `::`.
abbrev def_f : Def
def_f = record {
  name = codes "f";
  params = p_tuple (p_cons (Pattern.var (codes "x")) (p_cons (Pattern.var (codes "_")) p_nil)) ∷ [];
  ann = none;
  body =
      bin BinOp.cons
        (bin BinOp.sub (bin BinOp.sub (Expr.var (codes "x")) (lit (Lit.int (pos 2))))
          (app (Expr.var (codes "f")) list_of_minus_one))
        (ctor (codes "A"));
  is_rec = false;
}

parse-tokens : parse tokens ≡ Parsed.ok (record { items = Item.def def_f ∷ [] })
unfolding bind ◌>>=◌ return out_of_fuel next fail on_peek on_peek2 is_sym is_kw if_peek if_next
    if_sym if_kw expect_sym expect_kw ident_at parse_ident upper_at parse_upper many sep_by
    left_step left_assoc eat_sym eat_kw parens_rest in_parens in_brackets ty_asts starts_type_atom
    in_list atomty_at parse_atomty apply_ty parse_app_ty parse_type patterns pat_nil pat_cons
    pat_list starts_atom pat_atom_at pat_atom pat_app_at parse_pat_app parse_pattern parse_pat_atom
    exprs branches wrap_params nil cons expr_list apps op_in negated minus_at starts_param atom_at
    parse_atom parse_app parse_mul parse_add parse_cons parse_cmp parse_and parse_or parse_ann
    parse_seq parse_opt_ann parse_let_tail let_pattern let_rest let_def parse_local_def fun_expr
    if_expr branch case_expr expr_at parse_expr is_ident is_eof ctor_decl parse_tydef let_tail
    and_tails let_group let_item item_at parse_item parse_items parse wrapping_sub wrap64 ◌-ℤ◌
    text_eq
parse-tokens = refl

-- `let a = b and`: a group without `rec`.
abbrev group_tokens : List Token
group_tokens =
    at (Tok.kw (codes "let")) 1
    ∷ at (Tok.ident (codes "a")) 5
    ∷ at (Tok.sym (codes "=")) 7
    ∷ at (Tok.ident (codes "b")) 9
    ∷ at (Tok.kw (codes "and")) 11
    ∷ at Tok.eof 14
    ∷ []

parse_and_without_rec :
    parse group_tokens ≡ Parsed.err and_without_rec (at (Tok.kw (codes "and")) 11)
unfolding bind ◌>>=◌ return out_of_fuel next fail on_peek on_peek2 is_sym is_kw if_peek if_next
    if_sym if_kw expect_sym expect_kw ident_at parse_ident upper_at parse_upper many sep_by
    left_step left_assoc eat_sym eat_kw parens_rest in_parens in_brackets ty_asts starts_type_atom
    in_list atomty_at parse_atomty apply_ty parse_app_ty parse_type patterns pat_nil pat_cons
    pat_list starts_atom pat_atom_at pat_atom pat_app_at parse_pat_app parse_pattern parse_pat_atom
    exprs branches wrap_params nil cons expr_list apps op_in negated minus_at starts_param atom_at
    parse_atom parse_app parse_mul parse_add parse_cons parse_cmp parse_and parse_or parse_ann
    parse_seq parse_opt_ann parse_let_tail let_pattern let_rest let_def parse_local_def fun_expr
    if_expr branch case_expr expr_at parse_expr is_ident is_eof ctor_decl parse_tydef let_tail
    and_tails let_group let_item item_at parse_item parse_items parse text_eq
parse_and_without_rec = refl

parse-Answer_example : Answer (parse group_tokens)
parse-Answer_example = parse-Answer group_tokens (more (more (more (more (more (last refl))))))

parse-lex_example : Answer (parse tokens)
parse-lex_example = parse-lex source tokens lex-source

-- The arguments of a type have no parentheses in a message.
format_tyast_nested :
    format_tyast (list (arrow (t_var (codes "a")) (list (t_var (codes "b")))))
    ≡ codes "List a -> List b"
unfolding format_tyast format_tyasts applied_text join list
format_tyast_nested = refl

tok_text_kw : tok_text (λ s. s) (Tok.kw (codes "in")) ≡ codes "keyword `in`"
unfolding tok_text
tok_text_kw = refl
