-- ===== src/Parser/Exprs.antt =====
-- gen0-interp-rs/src/parser.rs: the parsers of expressions. Each takes the parser of the expressions
-- inside; the types and the patterns inside have the same fuel.
use dacelo.Base.{
  ℕ, zero, suc, Bool, true, false, ◌||◌, List, [], ◌∷◌, Option, none, some, if◌then◌else◌,
}
use dacelo.Base.Int.{pos}
use dacelo.Base.Text.{Text, codes}
use dacelo.Lexer.{Tok}
use dacelo.Syntax.{
  Lit, Pattern, BinOp, TyAst, Expr, lit, ctor, lam, app, bin, if_else, case_of, let_in, seq, tuple,
  ann, Exprs, e_nil, e_cons, Branches, b_nil, b_cons, Def,
}
use dacelo.Eval.Numbers.{wrapping_sub}
use dacelo.Parser.{
  expected_expression, local_and_group, panic, P, ◌>>=◌, ◌>>◌, return, out_of_fuel, next, fail,
  on_peek, on_peek2, is_sym, is_kw, if_peek, if_sym, expect_sym, expect_kw, parse_ident, many,
  sep_by, left_step, left_assoc, eat_sym, eat_kw, in_parens, in_brackets,
}
use dacelo.Parser.Types.{parse_type}
use dacelo.Parser.Patterns.{starts_atom, parse_pattern, parse_pat_atom}

unfoldable pub exprs : List Expr → Exprs
exprs [] = e_nil
exprs (e ∷ es) = e_cons e (exprs es)

unfoldable pub branches : List (Pattern × Expr) → Branches
branches [] = b_nil
branches ((p, e) ∷ bs) = b_cons p e (branches bs)

unfoldable pub wrap_params : List Pattern → Expr → Expr
wrap_params [] body = body
wrap_params (p ∷ ps) body = lam p (wrap_params ps body)

unfoldable pub nil : Expr
nil = ctor (codes "Nil")

unfoldable pub cons : Expr → Expr → Expr
cons h t = app (app (ctor (codes "Cons")) h) t

-- `elems.into_iter().rev().fold(nil(), |acc, e| cons(e, acc))`
unfoldable pub expr_list : List Expr → Expr
unfolding nil cons
expr_list [] = nil
expr_list (e ∷ es) = cons e (expr_list es)

-- `e = Expr::App(e, arg)` for each argument.
unfoldable pub apps : Expr → List Expr → Expr
apps e [] = e
apps e (arg ∷ args) = apps (app e arg) args

-- The operator of a level that a token is.
unfoldable pub op_in : List (Text × BinOp) → Tok → Option BinOp
unfolding is_sym
op_in [] t = none
op_in ((s, op) ∷ ops) t = if is_sym s t then some op else op_in ops t

abbrev pub or_ops : List (Text × BinOp)
or_ops = (codes "||", BinOp.or) ∷ []

abbrev pub and_ops : List (Text × BinOp)
and_ops = (codes "&&", BinOp.and) ∷ []

abbrev pub cmp_ops : List (Text × BinOp)
cmp_ops =
    (codes "==", BinOp.eq)
    ∷ (codes "!=", BinOp.neq)
    ∷ (codes "<", BinOp.lt)
    ∷ (codes ">", BinOp.gt)
    ∷ (codes "<=", BinOp.le)
    ∷ (codes ">=", BinOp.ge)
    ∷ []

abbrev pub cons_ops : List (Text × BinOp)
cons_ops = (codes "::", BinOp.cons) ∷ (codes "++", BinOp.concat) ∷ []

abbrev pub add_ops : List (Text × BinOp)
add_ops = (codes "+", BinOp.add) ∷ (codes "-", BinOp.sub) ∷ []

abbrev pub mul_ops : List (Text × BinOp)
mul_ops = (codes "*", BinOp.mul) ∷ (codes "/", BinOp.div) ∷ (codes "%", BinOp.rem) ∷ []

-- `if let Tok::Int(n) = self.next().tok { ... } unreachable!()`
unfoldable pub negated : Tok → P Expr
unfolding wrapping_sub
negated (Tok.int n) = return (lit (Lit.int (wrapping_sub (pos 0) n)))
negated _ = λ ts. panic

-- The token behind a `-`.
unfoldable pub minus_at : Tok → P Expr
unfolding negated
minus_at (Tok.int n) = next >> next >>= λ t. negated t.tok
minus_at _ = fail expected_expression

unfoldable pub starts_param : Tok → Bool
unfolding is_sym
starts_param (Tok.ident x) = true
starts_param t = is_sym (codes "_") t || is_sym (codes "(") t

module _ (f : ℕ) (expr : P Expr) where
  unfoldable pub atom_at : Tok → P Expr
  unfolding is_kw is_sym minus_at on_peek2 in_parens in_brackets exprs expr_list
  atom_at (Tok.int n) = next >> return (lit (Lit.int n))
  atom_at (Tok.str s) = next >> return (lit (Lit.str s))
  atom_at (Tok.ident name) = next >> return (Expr.var name)
  atom_at (Tok.upper name) = next >> return (ctor name)
  atom_at (Tok.kw k) =
      if is_kw (codes "true") (Tok.kw k)
      then next >> return (lit (Lit.bool true))
      else if is_kw (codes "false") (Tok.kw k)
      then next >> return (lit (Lit.bool false))
      else fail expected_expression
  atom_at (Tok.sym s) =
      if is_sym (codes "-") (Tok.sym s)
      then on_peek2 minus_at
      else if is_sym (codes "(") (Tok.sym s)
      then in_parens f expr (lit Lit.unit) (λ es. tuple (exprs es))
      else if is_sym (codes "[") (Tok.sym s)
      then in_brackets f expr expr_list
      else fail expected_expression
  atom_at Tok.eof = fail expected_expression

  unfoldable pub parse_atom : P Expr
  unfolding on_peek atom_at
  parse_atom = on_peek atom_at

  unfoldable pub parse_app : P Expr
  unfolding parse_atom many starts_atom apps
  parse_app = do e ← parse_atom; args ← many f starts_atom parse_atom; return (apps e args)

  unfoldable pub parse_mul : P Expr
  unfolding parse_app left_assoc op_in
  parse_mul = parse_app >>= left_assoc f (op_in mul_ops) bin parse_app

  unfoldable pub parse_add : P Expr
  unfolding parse_mul left_assoc op_in
  parse_add = parse_mul >>= left_assoc f (op_in add_ops) bin parse_mul

  -- Its recursion has a fuel of its own.
  unfoldable pub parse_cons : ℕ → P Expr
  unfolding parse_add on_peek left_step op_in
  parse_cons zero = out_of_fuel
  parse_cons (suc g) =
      let right = parse_cons g in
      parse_add >>= λ l. on_peek λ t. left_step bin right return l (op_in cons_ops t)

  unfoldable pub parse_cmp : P Expr
  unfolding parse_cons on_peek left_step op_in
  parse_cmp =
      let operand = parse_cons (suc f) in
      operand >>= λ l. on_peek λ t. left_step bin operand return l (op_in cmp_ops t)

  unfoldable pub parse_and : P Expr
  unfolding parse_cmp left_assoc op_in
  parse_and = parse_cmp >>= left_assoc f (op_in and_ops) bin parse_cmp

  unfoldable pub parse_or : P Expr
  unfolding parse_and left_assoc op_in
  parse_or = parse_and >>= left_assoc f (op_in or_ops) bin parse_and

  unfoldable pub parse_ann : P Expr
  unfolding parse_or if_sym parse_type
  parse_ann =
      parse_or >>= λ l. if_sym (codes ":") (parse_type f >>= λ t. return (ann l t)) (return l)

  unfoldable pub parse_seq : P Expr
  unfolding parse_ann if_sym
  parse_seq = parse_ann >>= λ l. if_sym (codes ";") (expr >>= λ r. return (seq l r)) (return l)

  unfoldable pub parse_opt_ann : P (Option TyAst)
  unfolding if_sym parse_type
  parse_opt_ann = if_sym (codes ":") (parse_type f >>= λ t. return (some t)) (return none)

  unfoldable pub parse_let_tail : Bool → P Def
  unfolding parse_ident many starts_param parse_pat_atom parse_opt_ann expect_sym
  parse_let_tail is_rec = do
    name ← parse_ident
    params ← many f starts_param (parse_pat_atom f)
    annotation ← parse_opt_ann
    _ ← expect_sym (codes "=")
    body ← expr
    return (record { name = name; params = params; ann = annotation; body = body; is_rec = is_rec })

  -- `let (a, b) = rhs in body`
  unfoldable pub let_pattern : P Expr
  unfolding parse_pat_atom expect_sym expect_kw branches
  let_pattern = do
    pat ← parse_pat_atom f
    _ ← expect_sym (codes "=")
    rhs ← expr
    _ ← expect_kw (codes "in")
    body ← expr
    return (case_of rhs (branches ((pat, body) ∷ [])))

  unfoldable pub let_rest : Def → P Expr
  unfolding expect_kw wrap_params
  let_rest d = do
    _ ← expect_kw (codes "in")
    rest ← expr
    return (let_in d.is_rec d.name (wrap_params d.params d.body) rest)

  unfoldable pub let_def : P Expr
  unfolding eat_kw parse_let_tail if_peek let_rest is_kw
  let_def = do
    is_rec ← eat_kw (codes "rec")
    d ← parse_let_tail is_rec
    if_peek (is_kw (codes "and")) (fail local_and_group) (let_rest d)

  unfoldable pub parse_local_def : P Expr
  unfolding expect_kw if_peek let_pattern let_def is_sym
  parse_local_def = expect_kw (codes "let") >> if_peek (is_sym (codes "(")) let_pattern let_def

  unfoldable pub fun_expr : P Expr
  unfolding parse_pat_atom many starts_param expect_sym wrap_params
  fun_expr = do
    _ ← next
    p ← parse_pat_atom f
    ps ← many f starts_param (parse_pat_atom f)
    _ ← expect_sym (codes "->")
    body ← expr
    return (wrap_params (p ∷ ps) body)

  unfoldable pub if_expr : P Expr
  unfolding expect_kw
  if_expr = do
    _ ← next
    test ← expr
    _ ← expect_kw (codes "then")
    th ← expr
    _ ← expect_kw (codes "else")
    el ← expr
    return (if_else test th el)

  unfoldable pub branch : P (Pattern × Expr)
  unfolding parse_pattern expect_sym
  branch = do pat ← parse_pattern f; _ ← expect_sym (codes "->"); body ← expr; return (pat, body)

  unfoldable pub case_expr : P Expr
  unfolding expect_kw eat_sym sep_by branch branches
  case_expr = do
    _ ← next
    scrut ← expr
    _ ← expect_kw (codes "of")
    _ ← eat_sym (codes "|")
    bs ← sep_by f (codes "|") branch
    return (case_of scrut (branches bs))

  unfoldable pub expr_at : Tok → P Expr
  unfolding is_kw fun_expr if_expr case_expr parse_local_def parse_seq
  expr_at (Tok.kw k) =
      if is_kw (codes "fun") (Tok.kw k)
      then fun_expr
      else if is_kw (codes "if") (Tok.kw k)
      then if_expr
      else if is_kw (codes "case") (Tok.kw k)
      then case_expr
      else if is_kw (codes "let") (Tok.kw k)
      then parse_local_def
      else parse_seq
  expr_at _ = parse_seq

unfoldable pub parse_expr : ℕ → P Expr
unfolding on_peek expr_at
parse_expr zero = out_of_fuel
parse_expr (suc f) = on_peek (expr_at f (parse_expr f))
