-- ===== src/Parser/Items.antt =====
-- gen0-interp-rs/src/parser.rs: the parsers of items and of a program. The fuel of `parse` is the
-- number of its tokens.
use dacelo.Base.{ℕ, Bool, true, false, not, List, ◌∷◌, if◌then◌else◌, length}
use dacelo.Base.Text.{codes}
use dacelo.Lexer.{Tok, Token}
use dacelo.Syntax.{Def, CtorDecl, Item, Program}
use dacelo.Parser.{
  expected_item, and_without_rec, Parsed, ok, P, bind, ◌>>=◌, ◌>>◌, return, next, fail, on_peek,
  is_kw, if_peek, expect_sym, parse_ident, parse_upper, many, sep_by, eat_sym, eat_kw,
}
use dacelo.Parser.Types.{ty_asts, starts_type_atom, parse_atomty, parse_type}
use dacelo.Parser.Exprs.{parse_let_tail, parse_expr}

unfoldable pub is_ident : Tok → Bool
is_ident (Tok.ident x) = true
is_ident _ = false

unfoldable pub is_eof : Tok → Bool
is_eof Tok.eof = true
is_eof _ = false

module _ (f : ℕ) where
  unfoldable pub ctor_decl : P CtorDecl
  unfolding parse_upper many starts_type_atom parse_atomty parse_type ty_asts
  ctor_decl = do
    name ← parse_upper
    fields ← many f starts_type_atom (parse_atomty f (parse_type f))
    return (record { name = name; fields = ty_asts fields })

  unfoldable pub parse_tydef : P Item
  unfolding eat_kw parse_upper many is_ident parse_ident expect_sym eat_sym sep_by ctor_decl
  parse_tydef = do
    _ ← eat_kw (codes "type")
    name ← parse_upper
    params ← many f is_ident parse_ident
    _ ← expect_sym (codes "=")
    _ ← eat_sym (codes "|")
    ctors ← sep_by f (codes "|") ctor_decl
    return (Item.ty (record { name = name; params = params; ctors = ctors }))

  unfoldable pub let_tail : Bool → P Def
  unfolding parse_let_tail parse_expr
  let_tail = parse_let_tail f (parse_expr f)

  -- `while self.eat_kw("and") { group.push(self.parse_let_tail(true)?); }`
  unfoldable pub and_tails : P (List Def)
  unfolding many is_kw let_tail
  and_tails = many f (is_kw (codes "and")) (next >> let_tail true)

  unfoldable pub let_group : Bool → Def → P Item
  unfolding and_tails if_peek is_kw
  let_group true first =
      if_peek (is_kw (codes "and")) (and_tails >>= λ group. return (Item.rec_group (first ∷ group)))
        (return (Item.def first))
  let_group false first =
      if_peek (is_kw (codes "and")) (fail and_without_rec) (return (Item.def first))

  unfoldable pub let_item : P Item
  unfolding eat_kw let_tail let_group
  let_item = do
    _ ← eat_kw (codes "let")
    is_rec ← eat_kw (codes "rec")
    first ← let_tail is_rec
    let_group is_rec first

  unfoldable pub item_at : Tok → P Item
  unfolding is_kw let_item parse_tydef
  item_at t =
      if is_kw (codes "let") t
      then let_item
      else if is_kw (codes "type") t
      then parse_tydef
      else fail expected_item

  unfoldable pub parse_item : P Item
  unfolding on_peek item_at
  parse_item = on_peek item_at

-- The loop of `parse`.
unfoldable pub parse_items : ℕ → P (List Item)
unfolding many is_eof parse_item
parse_items f = many f (λ t. not (is_eof t)) (parse_item f)

unfoldable pub parse : List Token → Parsed Program
unfolding parse_items bind
parse toks = bind (parse_items (length toks) toks) λ (items, rest). ok (record { items = items })
