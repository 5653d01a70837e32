-- ===== src/Parser/Patterns.antt =====
-- gen0-interp-rs/src/parser.rs: the parsers of patterns. Each takes the parser of the patterns
-- inside.
use dacelo.Base.{ℕ, zero, suc, Bool, true, false, ◌||◌, List, [], ◌∷◌, if◌then◌else◌}
use dacelo.Base.Text.{codes}
use dacelo.Lexer.{Tok}
use dacelo.Syntax.{Lit, Pattern, wildcard, p_lit, p_tuple, p_ctor, Patterns, p_nil, p_cons}
use dacelo.Parser.{
  expected_pattern, P, ◌>>=◌, ◌>>◌, return, out_of_fuel, next, fail, on_peek, is_sym, is_kw, if_sym,
  many, in_parens, in_brackets,
}

unfoldable pub patterns : List Pattern → Patterns
patterns [] = p_nil
patterns (p ∷ ps) = p_cons p (patterns ps)

unfoldable pub pat_nil : Pattern
pat_nil = p_ctor (codes "Nil") p_nil

-- `Pattern::PCtor("Cons".into(), vec![p, acc])`
unfoldable pub pat_cons : Pattern → Pattern → Pattern
pat_cons p acc = p_ctor (codes "Cons") (p_cons p (p_cons acc p_nil))

-- `elems.into_iter().rev().fold(pat_nil(), ...)`
unfoldable pub pat_list : List Pattern → Pattern
unfolding pat_nil pat_cons
pat_list [] = pat_nil
pat_list (p ∷ ps) = pat_cons p (pat_list ps)

-- The tests `starts_pat_atom` and `starts_atom`, which are the same.
unfoldable pub starts_atom : Tok → Bool
unfolding is_sym is_kw
starts_atom (Tok.int n) = true
starts_atom (Tok.str s) = true
starts_atom (Tok.ident x) = true
starts_atom (Tok.upper c) = true
starts_atom t =
    is_kw (codes "true") t
    || is_kw (codes "false") t
    || is_sym (codes "(") t
    || is_sym (codes "[") t

unfoldable pub pat_atom_at : ℕ → P Pattern → Tok → P Pattern
unfolding in_parens in_brackets patterns pat_list is_sym is_kw
pat_atom_at f pattern_of (Tok.ident x) = next >> return (Pattern.var x)
pat_atom_at f pattern_of (Tok.int n) = next >> return (p_lit (Lit.int n))
pat_atom_at f pattern_of (Tok.str s) = next >> return (p_lit (Lit.str s))
pat_atom_at f pattern_of (Tok.kw k) =
    if is_kw (codes "true") (Tok.kw k)
    then next >> return (p_lit (Lit.bool true))
    else if is_kw (codes "false") (Tok.kw k)
    then next >> return (p_lit (Lit.bool false))
    else fail expected_pattern
pat_atom_at f pattern_of (Tok.sym s) =
    if is_sym (codes "_") (Tok.sym s)
    then next >> return wildcard
    else if is_sym (codes "(") (Tok.sym s)
    then in_parens f pattern_of (p_lit Lit.unit) (λ ps. p_tuple (patterns ps))
    else if is_sym (codes "[") (Tok.sym s)
    then in_brackets f pattern_of pat_list
    else fail expected_pattern
pat_atom_at f pattern_of _ = fail expected_pattern

unfoldable pub pat_atom : ℕ → P Pattern → P Pattern
unfolding on_peek pat_atom_at
pat_atom f pattern_of = on_peek (pat_atom_at f pattern_of)

unfoldable pub pat_app_at : ℕ → P Pattern → Tok → P Pattern
unfolding pat_atom many starts_atom patterns
pat_app_at f pattern_of (Tok.upper c) = do
  _ ← next
  args ← many f starts_atom (pat_atom f pattern_of)
  return (p_ctor c (patterns args))
pat_app_at f pattern_of _ = pat_atom f pattern_of

unfoldable pub parse_pat_app : ℕ → P Pattern → P Pattern
unfolding on_peek pat_app_at
parse_pat_app f pattern_of = on_peek (pat_app_at f pattern_of)

unfoldable pub parse_pattern : ℕ → P Pattern
unfolding parse_pat_app if_sym pat_cons
parse_pattern zero = out_of_fuel
parse_pattern (suc f) =
    let pattern_of = parse_pattern f in
    parse_pat_app f pattern_of >>= λ l.
    if_sym (codes "::") (pattern_of >>= λ r. return (pat_cons l r)) (return l)

unfoldable pub parse_pat_atom : ℕ → P Pattern
unfolding pat_atom parse_pattern
parse_pat_atom f = pat_atom f (parse_pattern f)
