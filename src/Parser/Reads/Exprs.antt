-- ===== src/Parser/Reads/Exprs.antt =====
-- gen0-interp-rs/src/parser.rs: what the parsers of expressions read.
use dacelo.Base.{ℕ, zero, suc, ◌≤◌, ◌≡◌, refl, arith, List, [], ◌∷◌, none, length}
use dacelo.Base.Text.{Text, codes}
use dacelo.Lexer.{Tok, Token}
use dacelo.Syntax.{BinOp, Expr, bin, tuple}
use dacelo.Parser.{
  P, bind, ◌>>=◌, return, next, fail, on_peek, on_peek2, is_sym, is_kw, left_step, left_assoc,
}
use dacelo.Parser.Patterns.{starts_atom}
use dacelo.Parser.Exprs.{
  exprs, expr_list, op_in, or_ops, and_ops, cmp_ops, cons_ops, add_ops, mul_ops, negated, minus_at,
  atom_at, parse_atom, parse_app, parse_mul, parse_add, parse_cons, parse_cmp, parse_and, parse_or,
  parse_ann, parse_seq,
}
use dacelo.Parser.Reads.{
  EndsEof, last, more, Outcome, done, failed, Reads, ReadsAt, reads_at, Reads-fewer, Reads-return,
  Reads-fail, Reads-zero, ReadsAt-Reads, Reads-take, Reads-bind, ReadsAt-if, Reads-on_peek,
}
use dacelo.Parser.Reads.Symbols.{Reads-if_sym}
use dacelo.Parser.Reads.Loops.{
  Reads-some, Reads-less, ReadsAt-return, many-Reads, left_step-ReadsAt, left_assoc-Reads,
  in_parens-ReadsAt, in_brackets-ReadsAt,
}
use dacelo.Parser.Reads.Types.{parse_type-Reads}

-- `Tok::Eof` is no operator.
op_in_eof : (ops : List (Text × BinOp)) → op_in ops Tok.eof ≡ none
unfolding op_in is_sym
op_in_eof [] = refl
op_in_eof ((s, op) ∷ ops) = op_in_eof ops

-- The token behind a `-` is an integer, so it is not the last one, and it is the one that the code
-- calls unreachable unless it is an integer.
Outcome-minus_at :
    (u t : Token) (us : List Token) (k : Tok)
    → t.tok ≡ k
    → EndsEof (t ∷ us)
    → Outcome 1 (length (u ∷ t ∷ us)) (minus_at k (u ∷ t ∷ us))
unfolding minus_at negated ◌>>=◌ bind next fail return
Outcome-minus_at u t [] (Tok.int n) e (last i) = absurd (cc)
Outcome-minus_at u t [] (Tok.int n) e (more x) = elim x [ ]
Outcome-minus_at u t (v ∷ vs) (Tok.int n) e (more x) = rw e (done x (omega arith))
Outcome-minus_at u t us _ e x = failed

Outcome-minus_at_last :
    (u : Token) (k : Tok) → EndsEof (u ∷ []) → u.tok ≡ k → Outcome 1 1 (minus_at k (u ∷ []))
unfolding minus_at fail
Outcome-minus_at_last u (Tok.int n) (last i) e = absurd (cc)
Outcome-minus_at_last u (Tok.int n) (more x) e = elim x [ ]
Outcome-minus_at_last u _ x e = failed

Outcome-on_peek2 :
    (u : Token) (us : List Token)
    → EndsEof (u ∷ us)
    → Outcome 1 (length (u ∷ us)) (on_peek2 minus_at (u ∷ us))
unfolding on_peek2
Outcome-on_peek2 u [] x = Outcome-minus_at_last u u.tok x refl
Outcome-on_peek2 u (t ∷ us) (more x) = Outcome-minus_at u t us t.tok refl x

-- An operator, at most, and what stands on its right.
left_step-Reads :
    {right : P Expr} (g : ℕ) (ops : List (Text × BinOp)) (l : Expr)
    → Reads 0 g right
    → Reads 0 g (on_peek λ t. left_step bin right return l (op_in ops t))
left_step-Reads zero ops l h = Reads-zero
left_step-Reads (suc g) ops l h = Reads-on_peek λ t.
    left_step-ReadsAt bin l (op_in ops t) (λ e. let i = op_in_eof ops in cc) (Reads-less h)
      λ a. Reads-return a

module _ {f : ℕ} {expr : P Expr} (r : Reads 1 f expr) where
  expr-Reads : Reads 0 f expr
  expr-Reads = Reads-some r

  atom_at-ReadsAt : (t : Tok) → ReadsAt 1 (suc f) t (atom_at f expr t)
  unfolding atom_at
  atom_at-ReadsAt (Tok.int n) = ReadsAt-return _ (λ e. cc)
  atom_at-ReadsAt (Tok.str s) = ReadsAt-return _ (λ e. cc)
  atom_at-ReadsAt (Tok.ident x) = ReadsAt-return _ (λ e. cc)
  atom_at-ReadsAt (Tok.upper c) = ReadsAt-return _ (λ e. cc)
  atom_at-ReadsAt (Tok.kw k) =
      ReadsAt-if (is_kw (codes "true") (Tok.kw k)) (λ e. ReadsAt-return _ (λ e. cc))
        λ e.
          ReadsAt-if (is_kw (codes "false") (Tok.kw k)) (λ e. ReadsAt-return _ (λ e. cc))
            λ e. ReadsAt-Reads (Reads-fail _)
  atom_at-ReadsAt (Tok.sym s) =
      ReadsAt-if (is_sym (codes "-") (Tok.sym s))
        (λ e. reads_at λ u us i x l. Outcome-on_peek2 u us x)
        λ e.
          ReadsAt-if (is_sym (codes "(") (Tok.sym s))
            (λ e. in_parens-ReadsAt _ (λ es. tuple (exprs es)) (λ e. cc) r)
            λ e.
              ReadsAt-if (is_sym (codes "[") (Tok.sym s))
                (λ e. in_brackets-ReadsAt expr_list (λ e. cc) r) λ e. ReadsAt-Reads (Reads-fail _)
  atom_at-ReadsAt Tok.eof = ReadsAt-Reads (Reads-fail _)

  parse_atom-Reads : Reads 1 (suc f) (parse_atom f expr)
  unfolding parse_atom
  parse_atom-Reads = Reads-on_peek atom_at-ReadsAt

  parse_app-Reads : Reads 1 (suc f) (parse_app f expr)
  unfolding parse_app
  parse_app-Reads = Reads-take parse_atom-Reads λ e.
      Reads-bind (many-Reads f starts_atom (Reads-less parse_atom-Reads)) λ args. Reads-return _

  -- One level of the operators that are left associative.
  level_Reads :
      (ops : List (Text × BinOp)) {operand : P Expr}
      → Reads 1 (suc f) operand
      → Reads 1 (suc f) (operand >>= left_assoc f (op_in ops) bin operand)
  level_Reads ops h =
      Reads-take h λ l. left_assoc-Reads bin f (op_in ops) l (op_in_eof ops) (Reads-less h)

  parse_add-Reads : Reads 1 (suc f) (parse_add f expr)
  unfolding parse_add parse_mul
  parse_add-Reads = level_Reads add_ops (level_Reads mul_ops parse_app-Reads)

  parse_cons-Reads : (g : ℕ) → g ≤ suc f → Reads 1 g (parse_cons f expr g)
  unfolding parse_cons
  parse_cons-Reads zero h = Reads-zero
  parse_cons-Reads (suc g) h =
      let right = Reads-some (parse_cons-Reads g (omega arith)) in
      Reads-take (Reads-fewer h (omega arith) parse_add-Reads)
        λ l. left_step-Reads g cons_ops l right

  parse_cmp-Reads : Reads 1 (suc f) (parse_cmp f expr)
  unfolding parse_cmp
  parse_cmp-Reads =
      let operand = parse_cons-Reads (suc f) (omega arith) in
      Reads-take operand λ l. left_step-Reads f cmp_ops l (Reads-some (Reads-less operand))

  parse_or-Reads : Reads 1 (suc f) (parse_or f expr)
  unfolding parse_or parse_and
  parse_or-Reads = level_Reads or_ops (level_Reads and_ops parse_cmp-Reads)

  parse_ann-Reads : Reads 1 (suc f) (parse_ann f expr)
  unfolding parse_ann
  parse_ann-Reads = Reads-take parse_or-Reads λ l.
      Reads-if_sym (codes ":") (Reads-bind (Reads-some (parse_type-Reads f)) λ t. Reads-return _)
        (Reads-return l)

  pub parse_seq-Reads : Reads 1 (suc f) (parse_seq f expr)
  unfolding parse_seq
  parse_seq-Reads =
      Reads-take parse_ann-Reads
        λ l. Reads-if_sym (codes ";") (Reads-bind expr-Reads λ a. Reads-return _) (Reads-return l)
