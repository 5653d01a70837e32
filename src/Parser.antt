-- ===== src/Parser.antt =====
-- gen0-interp-rs/src/parser.rs: the parser's state and its steps. The state is the tokens from `pos`
-- on; the last token is never passed.
pub mod Types
pub mod Patterns
pub mod Exprs
pub mod Items
pub mod Reads
pub mod Display
use dacelo.Base.{ℕ, zero, suc, Bool, true, false, List, [], ◌∷◌, Option, none, some, if◌then◌else◌}
use dacelo.Base.Text.{Text, codes, text_eq}
use dacelo.Lexer.{Tok, Token}
use dacelo.Syntax.{TyAst}

-- What the message of an error says. `bad_type_application` is the one error with no position.
pub data Problem : Type 0 where
  expected_sym expected_kw : Text → Problem
  expected_item expected_expression expected_pattern expected_type : Problem
  expected_identifier expected_upper : Problem
  and_without_rec local_and_group : Problem

-- `panic` is an index into no tokens.
pub data Parsed {ℓ} (A : Type ℓ) : Type ℓ where
  ok : A → Parsed A
  err : Problem → Token → Parsed A
  bad_type_application : TyAst → Parsed A
  panic timeout : Parsed A

-- A method of `Parser` that returns a `PResult`.
abbrev pub P {ℓ} : Type ℓ → Type ℓ
P A = List Token → Parsed (A × List Token)

unfoldable pub bind {ℓ κ} : {A : Type ℓ} {B : Type κ} → Parsed A → (A → Parsed B) → Parsed B
bind (ok a) f = f a
bind (err p t) f = err p t
bind (bad_type_application t) f = bad_type_application t
bind panic f = panic
bind timeout f = timeout

infixl 5 ◌>>=◌ ◌>>◌
unfoldable pub ◌>>=◌ {ℓ κ} : {A : Type ℓ} {B : Type κ} → P A → (A → P B) → P B
unfolding bind
◌>>=◌ p f ts = bind (p ts) λ (a, rest). f a rest

abbrev pub ◌>>◌ {ℓ κ} : {A : Type ℓ} {B : Type κ} → P A → P B → P B
p >> q = p >>= λ _. q

unfoldable pub return {ℓ} : {A : Type ℓ} → A → P A
return a ts = ok (a, ts)

unfoldable pub out_of_fuel {ℓ} : {A : Type ℓ} → P A
out_of_fuel ts = timeout

unfoldable pub next : P Token
next [] = panic
next (t ∷ []) = ok (t, t ∷ [])
next (t ∷ u ∷ ts) = ok (t, u ∷ ts)

-- `self.err(msg)`
unfoldable pub fail {ℓ} : {A : Type ℓ} → Problem → P A
fail p [] = panic
fail p (t ∷ ts) = err p t

-- `match self.peek_tok() { ... }`
unfoldable pub on_peek {ℓ} : {A : Type ℓ} → (Tok → P A) → P A
on_peek f [] = panic
on_peek f (t ∷ ts) = f t.tok (t ∷ ts)

-- `match self.peek2_tok() { ... }`
unfoldable pub on_peek2 {ℓ} : {A : Type ℓ} → (Tok → P A) → P A
on_peek2 f [] = panic
on_peek2 f (t ∷ []) = f t.tok (t ∷ [])
on_peek2 f (t ∷ u ∷ ts) = f u.tok (t ∷ u ∷ ts)

-- `matches!(self.peek_tok(), Tok::Sym(s))`, and the same for a keyword.
unfoldable pub is_sym : Text → Tok → Bool
is_sym s (Tok.sym x) = text_eq x s
is_sym s _ = false

unfoldable pub is_kw : Text → Tok → Bool
is_kw k (Tok.kw x) = text_eq x k
is_kw k _ = false

-- `if test(self.peek_tok()) { hit } else { no }`
unfoldable pub if_peek {ℓ} : {A : Type ℓ} → (Tok → Bool) → P A → P A → P A
unfolding on_peek
if_peek test hit miss = on_peek λ t. if test t then hit else miss

-- `if test(self.peek_tok()) { self.next(); hit } else { no }`
unfoldable pub if_next {ℓ} : {A : Type ℓ} → (Tok → Bool) → P A → P A → P A
unfolding if_peek
if_next test hit miss = if_peek test (next >> hit) miss

-- `if self.eat_sym(s) { hit } else { no }`, and the same for `eat_kw`
unfoldable pub if_sym {ℓ} : {A : Type ℓ} → Text → P A → P A → P A
unfolding if_next
if_sym s = if_next (is_sym s)

unfoldable pub if_kw {ℓ} : {A : Type ℓ} → Text → P A → P A → P A
unfolding if_next
if_kw k = if_next (is_kw k)

unfoldable pub expect_sym : Text → P (Unit {0})
unfolding if_sym
expect_sym s = if_sym s (return tt) (fail (expected_sym s))

unfoldable pub expect_kw : Text → P (Unit {0})
unfolding if_kw
expect_kw k = if_kw k (return tt) (fail (expected_kw k))

unfoldable pub ident_at : Tok → P Text
ident_at (Tok.ident s) = next >> return s
ident_at _ = fail expected_identifier

unfoldable pub parse_ident : P Text
unfolding ident_at
parse_ident = on_peek ident_at

unfoldable pub upper_at : Tok → P Text
upper_at (Tok.upper s) = next >> return s
upper_at _ = fail expected_upper

unfoldable pub parse_upper : P Text
unfolding upper_at
parse_upper = on_peek upper_at

module _ {ℓ} {A : Type ℓ} where
  -- `while test(self.peek_tok()) { list.push(item()?); }`
  unfoldable pub many : ℕ → (Tok → Bool) → P A → P (List A)
  unfolding if_peek
  many zero test item = out_of_fuel
  many (suc f) test item =
      let more = item >>= λ a. many f test item >>= λ rest. return (a ∷ rest) in
      if_peek test more (return [])

  -- `loop { list.push(item()?); if !self.eat_sym(s) { break; } }`
  unfoldable pub sep_by : ℕ → Text → P A → P (List A)
  unfolding if_sym
  sep_by zero s item = out_of_fuel
  sep_by (suc f) s item =
      let more = sep_by f s item in
      item >>= λ a. if_sym s (more >>= λ rest. return (a ∷ rest)) (return (a ∷ []))

  -- `while let Some(op) = op_of(self.peek_tok()) { self.next(); l = join(op, l, item()?); }`, its
  -- body first.
  unfoldable pub left_step {κ} :
      {O : Type κ} → (O → A → A → A) → P A → (A → P A) → A → Option O → P A
  left_step join item again l none = return l
  left_step join item again l (some op) = next >> (item >>= λ r. again (join op l r))

  unfoldable pub left_assoc {κ} :
      {O : Type κ} → ℕ → (Tok → Option O) → (O → A → A → A) → P A → A → P A
  unfolding on_peek left_step
  left_assoc zero op_of join item l = out_of_fuel
  left_assoc (suc f) op_of join item l =
      let again = left_assoc f op_of join item in on_peek λ t. left_step join item again l (op_of t)

-- `self.eat_sym(s)` and `self.eat_kw(k)` where the result is kept or passed over.
unfoldable pub eat_sym : Text → P Bool
unfolding if_sym
eat_sym s = if_sym s (return true) (return false)

unfoldable pub eat_kw : Text → P Bool
unfolding if_kw
eat_kw k = if_kw k (return true) (return false)

module _ {ℓ} {A : Type ℓ} where
  -- The arms `Tok::Sym("(")` of the parsers of expressions, patterns and types, from behind the
  -- first of their items.
  unfoldable pub parens_rest : ℕ → P A → (List A → A) → A → P A
  unfolding if_sym expect_sym sep_by
  parens_rest f item tuple_of e =
      let more = do
        rest ← sep_by f (codes ",") item
        _ ← expect_sym (codes ")")
        return (tuple_of (e ∷ rest))
      in if_sym (codes ",") more (expect_sym (codes ")") >> return e)

  unfoldable pub in_parens : ℕ → P A → A → (List A → A) → P A
  unfolding if_sym parens_rest
  in_parens f item empty tuple_of =
      next >> if_sym (codes ")") (return empty) (item >>= parens_rest f item tuple_of)

  -- The arms `Tok::Sym("[")` of the parsers of expressions and patterns.
  unfoldable pub in_brackets : ℕ → P A → (List A → A) → P A
  unfolding if_sym expect_sym sep_by
  in_brackets f item list_of =
      let more = do
        elems ← sep_by f (codes ",") item
        _ ← expect_sym (codes "]")
        return (list_of elems)
      in next >> if_sym (codes "]") (return (list_of [])) more
