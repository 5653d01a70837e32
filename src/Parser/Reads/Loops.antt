-- ===== src/Parser/Reads/Loops.antt =====
-- gen0-interp-rs/src/parser.rs: what the loops, the brackets and the names read.
use dacelo.Base.{ℕ, zero, suc, ◌≡◌, ◌≢◌, arith, Bool, List, [], ◌∷◌, Option, none, some}
use dacelo.Base.Text.{Text, codes}
use dacelo.Lexer.{Tok}
use dacelo.Parser.{
  P, ◌>>=◌, ◌>>◌, return, next, ident_at, parse_ident, upper_at, parse_upper, many, sep_by,
  left_step, left_assoc, parens_rest, in_parens, in_brackets,
}
use dacelo.Parser.Reads.{
  Reads, ReadsAt, Reads-fewer, Reads-return, Reads-fail, Reads-zero, ReadsAt-Reads, Reads-take,
  Reads-bind, ReadsAt-step, Reads-on_peek, Reads-if_peek,
}
use dacelo.Parser.Reads.Symbols.{ReadsAt-pass, Reads-if_sym, Reads-expect_sym}

-- By one token, and by none, less than before.
module _ {ℓ} {A : Type ℓ} where
  pub Reads-some : {f : ℕ} {p : P A} → Reads 1 f p → Reads 0 f p
  Reads-some = Reads-fewer (omega arith) (omega arith)

  pub Reads-less : {d f : ℕ} {p : P A} → Reads d (suc f) p → Reads d f p
  Reads-less = Reads-fewer (omega arith) (omega arith)

  pub ReadsAt-one :
      {f : ℕ} {t : Tok} {p : P A} → t ≢ Tok.eof → Reads 0 f p → ReadsAt 1 (suc f) t (next >> p)
  ReadsAt-one h r = ReadsAt-step h λ u. r

  pub ReadsAt-return :
      {f : ℕ} {t : Tok} (a : A) → t ≢ Tok.eof → ReadsAt 1 (suc f) t (next >> return a)
  ReadsAt-return a h = ReadsAt-one h (Reads-return a)

module _ {ℓ κ} {A : Type ℓ} {B : Type κ} where
  -- A step that reads a token, where it is enough to know that it reads.
  pub Reads-step :
      {f : ℕ} {p : P A} {q : A → P B}
      → Reads 1 f p
      → ((a : A) → Reads 0 f (q a))
      → Reads 0 f (p >>= q)
  Reads-step r = Reads-bind (Reads-some r)

ident_at-ReadsAt : {f : ℕ} (t : Tok) → ReadsAt 1 (suc f) t (ident_at t)
unfolding ident_at
ident_at-ReadsAt (Tok.ident s) = ReadsAt-return s (λ e. cc)
ident_at-ReadsAt _ = ReadsAt-Reads (Reads-fail _)

pub parse_ident-Reads : (f : ℕ) → Reads 1 f parse_ident
unfolding parse_ident
parse_ident-Reads zero = Reads-zero
parse_ident-Reads (suc f) = Reads-on_peek ident_at-ReadsAt

upper_at-ReadsAt : {f : ℕ} (t : Tok) → ReadsAt 1 (suc f) t (upper_at t)
unfolding upper_at
upper_at-ReadsAt (Tok.upper s) = ReadsAt-return s (λ e. cc)
upper_at-ReadsAt _ = ReadsAt-Reads (Reads-fail _)

pub parse_upper-Reads : (f : ℕ) → Reads 1 f parse_upper
unfolding parse_upper
parse_upper-Reads zero = Reads-zero
parse_upper-Reads (suc f) = Reads-on_peek upper_at-ReadsAt

module _ {ℓ} {A : Type ℓ} where
  pub many-Reads :
      (f : ℕ) (test : Tok → Bool) {item : P A} → Reads 1 f item → Reads 0 f (many f test item)
  unfolding many
  many-Reads zero test r = Reads-zero
  many-Reads (suc f) test r =
      Reads-if_peek
        (λ t e. ReadsAt-Reads (
          Reads-some (
            Reads-take r
              λ a. Reads-bind (many-Reads f test (Reads-less r)) λ rest. Reads-return (a ∷ rest))))
        (Reads-return [])

  pub sep_by-Reads : (f : ℕ) (s : Text) {item : P A} → Reads 1 f item → Reads 1 f (sep_by f s item)
  unfolding sep_by
  sep_by-Reads zero s r = Reads-zero
  sep_by-Reads (suc f) s r =
      let more = Reads-some (sep_by-Reads f s (Reads-less r)) in
      Reads-take r λ a.
        Reads-if_sym s (Reads-bind more λ rest. Reads-return (a ∷ rest)) (Reads-return (a ∷ []))

  module _ {κ} {O : Type κ} (join : O → A → A → A) where
    -- A step at a token that is no operator when it is `Tok::Eof`.
    pub left_step-ReadsAt :
        {f : ℕ} {t : Tok} {item : P A} {again : A → P A} (l : A) (op : Option O)
        → (t ≡ Tok.eof → op ≡ none)
        → Reads 0 f item
        → ((a : A) → Reads 0 f (again a))
        → ReadsAt 0 (suc f) t (left_step join item again l op)
    unfolding left_step
    left_step-ReadsAt l none h r s = ReadsAt-Reads (Reads-return l)
    left_step-ReadsAt l (some op) h r s =
        ReadsAt-pass (omega arith) (λ e. let i = h e in cc) (Reads-bind r λ a. s _)

    pub left_assoc-Reads :
        (f : ℕ) (op_of : Tok → Option O) {item : P A} (l : A)
        → op_of Tok.eof ≡ none
        → Reads 1 f item
        → Reads 0 f (left_assoc f op_of join item l)
    unfolding left_assoc
    left_assoc-Reads zero op_of l h r = Reads-zero
    left_assoc-Reads (suc f) op_of l h r = Reads-on_peek λ t.
        left_step-ReadsAt l (op_of t) (λ e. cc) (Reads-less (Reads-some r))
          λ a. left_assoc-Reads f op_of a h (Reads-less r)

  parens_rest-Reads :
      (f : ℕ) {item : P A} (tuple_of : List A → A) (e : A)
      → Reads 1 f item
      → Reads 0 f (parens_rest f item tuple_of e)
  unfolding parens_rest
  parens_rest-Reads f tuple_of e r =
      Reads-if_sym (codes ",")
        (Reads-bind (Reads-some (sep_by-Reads f (codes ",") r))
          λ rest. Reads-bind (Reads-some (Reads-expect_sym (codes ")"))) λ u. Reads-return _)
        (Reads-bind (Reads-some (Reads-expect_sym (codes ")"))) λ u. Reads-return e)

  pub in_parens-ReadsAt :
      {f : ℕ} {t : Tok} {item : P A} (empty : A) (tuple_of : List A → A)
      → t ≢ Tok.eof
      → Reads 1 f item
      → ReadsAt 1 (suc f) t (in_parens f item empty tuple_of)
  unfolding in_parens
  in_parens-ReadsAt {f} empty tuple_of h r = ReadsAt-one h (
      Reads-if_sym (codes ")") (Reads-return empty)
        (Reads-bind (Reads-some r) λ e. parens_rest-Reads f tuple_of e r))

  pub in_brackets-ReadsAt :
      {f : ℕ} {t : Tok} {item : P A} (list_of : List A → A)
      → t ≢ Tok.eof
      → Reads 1 f item
      → ReadsAt 1 (suc f) t (in_brackets f item list_of)
  unfolding in_brackets
  in_brackets-ReadsAt {f} list_of h r = ReadsAt-one h (
      Reads-if_sym (codes "]") (Reads-return (list_of [])) (
        Reads-bind (Reads-some (sep_by-Reads f (codes ",") r))
          λ elems. Reads-bind (Reads-some (Reads-expect_sym (codes "]"))) λ u. Reads-return _))
