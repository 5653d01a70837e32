-- ===== src/Parser/Reads/Types.antt =====
-- gen0-interp-rs/src/parser.rs: what the parsers of types and of patterns read.
use dacelo.Base.{ℕ, zero, suc, ◌≢◌, List, [], ◌∷◌}
use dacelo.Base.Text.{codes}
use dacelo.Lexer.{Tok}
use dacelo.Syntax.{TyAst, t_con, t_nil, t_tuple, list, Pattern, p_tuple}
use dacelo.Parser.{P, is_sym, is_kw}
use dacelo.Parser.Types.{
  ty_asts, starts_type_atom, in_list, atomty_at, parse_atomty, apply_ty, parse_app_ty, parse_type,
}
use dacelo.Parser.Patterns.{
  patterns, pat_list, starts_atom, pat_atom_at, pat_atom, pat_app_at, parse_pat_app, parse_pattern,
  parse_pat_atom,
}
use dacelo.Parser.Reads.{
  Reads, ReadsAt, reads, bad_type, Reads-return, Reads-fail, Reads-zero, ReadsAt-Reads, Reads-take,
  Reads-bind, ReadsAt-if, Reads-on_peek,
}
use dacelo.Parser.Reads.Symbols.{Reads-if_sym, Reads-expect_sym}
use dacelo.Parser.Reads.Loops.{
  Reads-some, Reads-less, ReadsAt-one, ReadsAt-return, many-Reads, in_parens-ReadsAt,
  in_brackets-ReadsAt,
}

module _ {f : ℕ} {type_of : P TyAst} (r : Reads 1 f type_of) where
  in_list-ReadsAt : {t : Tok} → t ≢ Tok.eof → ReadsAt 1 (suc f) t (in_list type_of)
  unfolding in_list
  in_list-ReadsAt h = ReadsAt-one h (
      Reads-bind (Reads-some r)
        λ t. Reads-bind (Reads-some (Reads-expect_sym (codes "]"))) λ u. Reads-return (list t))

  atomty_at-ReadsAt : (t : Tok) → ReadsAt 1 (suc f) t (atomty_at f type_of t)
  unfolding atomty_at
  atomty_at-ReadsAt (Tok.ident v) = ReadsAt-return _ (λ e. cc)
  atomty_at-ReadsAt (Tok.upper c) = ReadsAt-return _ (λ e. cc)
  atomty_at-ReadsAt (Tok.sym s) =
      ReadsAt-if (is_sym (codes "(") (Tok.sym s))
        (λ e. in_parens-ReadsAt _ (λ ts. t_tuple (ty_asts ts)) (λ e. cc) r)
        λ e.
          ReadsAt-if (is_sym (codes "[") (Tok.sym s)) (λ e. in_list-ReadsAt λ e. cc)
            λ e. ReadsAt-Reads (Reads-fail _)
  atomty_at-ReadsAt _ = ReadsAt-Reads (Reads-fail _)

  pub parse_atomty-Reads : Reads 1 (suc f) (parse_atomty f type_of)
  unfolding parse_atomty
  parse_atomty-Reads = Reads-on_peek atomty_at-ReadsAt

  apply_ty-Reads : (head : TyAst) (args : List TyAst) → Reads 0 f (apply_ty head args)
  unfolding apply_ty
  apply_ty-Reads head [] = Reads-return head
  apply_ty-Reads (t_con name t_nil) (a ∷ args) = Reads-return _
  apply_ty-Reads head (a ∷ args) = reads λ ts x l. bad_type

  pub parse_app_ty-Reads : Reads 1 (suc f) (parse_app_ty f type_of)
  unfolding parse_app_ty
  parse_app_ty-Reads = Reads-take parse_atomty-Reads λ head.
      Reads-bind (many-Reads f starts_type_atom (Reads-less parse_atomty-Reads))
        λ args. apply_ty-Reads head args

pub parse_type-Reads : (f : ℕ) → Reads 1 f (parse_type f)
unfolding parse_type
parse_type-Reads zero = Reads-zero
parse_type-Reads (suc f) =
    let r = parse_type-Reads f in
    Reads-take (parse_app_ty-Reads r) λ l.
      Reads-if_sym (codes "->") (Reads-bind (Reads-some r) λ a. Reads-return _) (Reads-return l)

module _ {f : ℕ} {pattern_of : P Pattern} (r : Reads 1 f pattern_of) where
  pat_atom_at-ReadsAt : (t : Tok) → ReadsAt 1 (suc f) t (pat_atom_at f pattern_of t)
  unfolding pat_atom_at
  pat_atom_at-ReadsAt (Tok.ident x) = ReadsAt-return _ (λ e. cc)
  pat_atom_at-ReadsAt (Tok.int n) = ReadsAt-return _ (λ e. cc)
  pat_atom_at-ReadsAt (Tok.str s) = ReadsAt-return _ (λ e. cc)
  pat_atom_at-ReadsAt (Tok.kw k) =
      ReadsAt-if (is_kw (codes "true") (Tok.kw k)) (λ e. ReadsAt-return _ (λ e. cc))
        λ e.
          ReadsAt-if (is_kw (codes "false") (Tok.kw k)) (λ e. ReadsAt-return _ (λ e. cc))
            λ e. ReadsAt-Reads (Reads-fail _)
  pat_atom_at-ReadsAt (Tok.sym s) =
      ReadsAt-if (is_sym (codes "_") (Tok.sym s)) (λ e. ReadsAt-return _ (λ e. cc))
        λ e.
          ReadsAt-if (is_sym (codes "(") (Tok.sym s))
            (λ e. in_parens-ReadsAt _ (λ ps. p_tuple (patterns ps)) (λ e. cc) r)
            λ e.
              ReadsAt-if (is_sym (codes "[") (Tok.sym s))
                (λ e. in_brackets-ReadsAt pat_list (λ e. cc) r) λ e. ReadsAt-Reads (Reads-fail _)
  pat_atom_at-ReadsAt _ = ReadsAt-Reads (Reads-fail _)

  pub pat_atom-Reads : Reads 1 (suc f) (pat_atom f pattern_of)
  unfolding pat_atom
  pat_atom-Reads = Reads-on_peek pat_atom_at-ReadsAt

  pat_app_at-ReadsAt : (t : Tok) → ReadsAt 1 (suc f) t (pat_app_at f pattern_of t)
  unfolding pat_app_at
  pat_app_at-ReadsAt (Tok.upper c) =
      ReadsAt-one (λ e. cc)
        (Reads-bind (many-Reads f starts_atom (Reads-less pat_atom-Reads)) λ args. Reads-return _)
  pat_app_at-ReadsAt _ = ReadsAt-Reads pat_atom-Reads

  parse_pat_app-Reads : Reads 1 (suc f) (parse_pat_app f pattern_of)
  unfolding parse_pat_app
  parse_pat_app-Reads = Reads-on_peek pat_app_at-ReadsAt

pub parse_pattern-Reads : (f : ℕ) → Reads 1 f (parse_pattern f)
unfolding parse_pattern
parse_pattern-Reads zero = Reads-zero
parse_pattern-Reads (suc f) =
    let r = parse_pattern-Reads f in
    Reads-take (parse_pat_app-Reads r) λ l.
      Reads-if_sym (codes "::") (Reads-bind (Reads-some r) λ a. Reads-return _) (Reads-return l)

pub parse_pat_atom-Reads : (f : ℕ) → Reads 1 f (parse_pat_atom f)
unfolding parse_pat_atom
parse_pat_atom-Reads f = Reads-less (pat_atom-Reads (parse_pattern-Reads f))
