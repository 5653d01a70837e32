-- ===== src/Parser/Reads/Forms.antt =====
-- gen0-interp-rs/src/parser.rs: what the parsers of definitions, of the forms with a keyword and of
-- a whole expression read.
use dacelo.Base.{ℕ, zero, suc, ◌≢◌, Bool, none}
use dacelo.Base.Text.{codes}
use dacelo.Lexer.{Tok}
use dacelo.Syntax.{Expr, Def}
use dacelo.Parser.{P, is_sym, is_kw, local_and_group, many}
use dacelo.Parser.Patterns.{parse_pat_atom}
use dacelo.Parser.Exprs.{
  starts_param, parse_opt_ann, parse_let_tail, let_pattern, let_rest, let_def, parse_local_def,
  fun_expr, if_expr, branch, case_expr, expr_at, parse_expr,
}
use dacelo.Parser.Reads.{
  Reads, ReadsAt, Reads-return, Reads-fail, Reads-zero, ReadsAt-Reads, Reads-take, Reads-bind,
  ReadsAt-if, Reads-on_peek, Reads-if_peek,
}
use dacelo.Parser.Reads.Symbols.{
  Reads-if_sym, Reads-expect_sym, Reads-expect_kw, Reads-eat_sym, Reads-eat_kw,
}
use dacelo.Parser.Reads.Loops.{ReadsAt-one, Reads-step, parse_ident-Reads, many-Reads, sep_by-Reads}
use dacelo.Parser.Reads.Types.{parse_type-Reads, parse_pattern-Reads, parse_pat_atom-Reads}
use dacelo.Parser.Reads.Exprs.{parse_seq-Reads}

params_Reads : (f : ℕ) → Reads 0 f (many f starts_param (parse_pat_atom f))
params_Reads f = many-Reads f starts_param (parse_pat_atom-Reads f)

module _ {f : ℕ} {expr : P Expr} (r : Reads 1 f expr) where
  parse_opt_ann-Reads : Reads 0 f (parse_opt_ann f expr)
  unfolding parse_opt_ann
  parse_opt_ann-Reads =
      Reads-if_sym (codes ":") (Reads-step (parse_type-Reads f) λ t. Reads-return _)
        (Reads-return none)

  pub parse_let_tail-Reads : (is_rec : Bool) → Reads 1 f (parse_let_tail f expr is_rec)
  unfolding parse_let_tail
  parse_let_tail-Reads is_rec = Reads-bind (parse_ident-Reads f) λ name.
      Reads-bind (params_Reads f) λ params. Reads-bind parse_opt_ann-Reads λ annotation.
        Reads-step (Reads-expect_sym (codes "=")) λ u. Reads-step r λ body. Reads-return _

  let_pattern-Reads : Reads 0 f (let_pattern f expr)
  unfolding let_pattern
  let_pattern-Reads = Reads-step (parse_pat_atom-Reads f) λ pat.
      Reads-step (Reads-expect_sym (codes "=")) λ u.
        Reads-step r
          λ rhs. Reads-step (Reads-expect_kw (codes "in")) λ u. Reads-step r λ body. Reads-return _

  let_rest-Reads : (d : Def) → Reads 0 f (let_rest f expr d)
  unfolding let_rest
  let_rest-Reads d =
      Reads-step (Reads-expect_kw (codes "in")) λ u. Reads-step r λ rest. Reads-return _

  let_def-Reads : Reads 0 f (let_def f expr)
  unfolding let_def
  let_def-Reads = Reads-bind (Reads-eat_kw (codes "rec")) λ is_rec.
      Reads-step (parse_let_tail-Reads is_rec) λ d.
        Reads-if_peek {test = is_kw (codes "and")}
          (λ t e. ReadsAt-Reads (Reads-fail local_and_group)) (let_rest-Reads d)

  parse_local_def-Reads : Reads 1 (suc f) (parse_local_def f expr)
  unfolding parse_local_def
  parse_local_def-Reads = Reads-take (Reads-expect_kw (codes "let")) λ u.
      Reads-if_peek {test = is_sym (codes "(")} (λ t e. ReadsAt-Reads let_pattern-Reads)
        let_def-Reads

  fun_expr-ReadsAt : {t : Tok} → t ≢ Tok.eof → ReadsAt 1 (suc f) t (fun_expr f expr)
  unfolding fun_expr
  fun_expr-ReadsAt h = ReadsAt-one h (
      Reads-step (parse_pat_atom-Reads f) λ p.
        Reads-bind (params_Reads f)
          λ ps. Reads-step (Reads-expect_sym (codes "->")) λ u. Reads-step r λ body. Reads-return _)

  if_expr-ReadsAt : {t : Tok} → t ≢ Tok.eof → ReadsAt 1 (suc f) t (if_expr f expr)
  unfolding if_expr
  if_expr-ReadsAt h = ReadsAt-one h (
      Reads-step r λ test. Reads-step (Reads-expect_kw (codes "then")) λ u.
        Reads-step r
          λ th. Reads-step (Reads-expect_kw (codes "else")) λ u. Reads-step r λ el. Reads-return _)

  branch-Reads : Reads 1 f (branch f expr)
  unfolding branch
  branch-Reads =
      Reads-bind (parse_pattern-Reads f)
        λ pat. Reads-step (Reads-expect_sym (codes "->")) λ u. Reads-step r λ body. Reads-return _

  case_expr-ReadsAt : {t : Tok} → t ≢ Tok.eof → ReadsAt 1 (suc f) t (case_expr f expr)
  unfolding case_expr
  case_expr-ReadsAt h = ReadsAt-one h (
      Reads-step r λ scrut. Reads-step (Reads-expect_kw (codes "of")) λ u.
        Reads-bind (Reads-eat_sym (codes "|"))
          λ b. Reads-step (sep_by-Reads f (codes "|") branch-Reads) λ bs. Reads-return _)

  expr_at-ReadsAt : (t : Tok) → ReadsAt 1 (suc f) t (expr_at f expr t)
  unfolding expr_at
  expr_at-ReadsAt (Tok.kw k) =
      ReadsAt-if (is_kw (codes "fun") (Tok.kw k)) (λ e. fun_expr-ReadsAt λ e. cc)
        λ e.
          ReadsAt-if (is_kw (codes "if") (Tok.kw k)) (λ e. if_expr-ReadsAt λ e. cc)
            λ e.
              ReadsAt-if (is_kw (codes "case") (Tok.kw k)) (λ e. case_expr-ReadsAt λ e. cc)
                λ e.
                  ReadsAt-if (is_kw (codes "let") (Tok.kw k))
                    (λ e. ReadsAt-Reads parse_local_def-Reads)
                    λ e. ReadsAt-Reads (parse_seq-Reads r)
  expr_at-ReadsAt _ = ReadsAt-Reads (parse_seq-Reads r)

pub parse_expr-Reads : (f : ℕ) → Reads 1 f (parse_expr f)
unfolding parse_expr
parse_expr-Reads zero = Reads-zero
parse_expr-Reads (suc f) = Reads-on_peek (expr_at-ReadsAt (parse_expr-Reads f))
