-- ===== src/Lexer/Strings.antt =====
-- String literals of gen0-interp-rs/src/lexer.rs read back: `quote` writes a text as the inside of
-- a literal, with an escape where the lexer has one.
use dacelo.Base.{
  ℕ, ◌≡◌, refl, arith, false, inl, inr, [], ◌∷◌, Option, none, some, ◌==◌, if◌then◌else◌,
  Option-cases,
}
use dacelo.Base.Text.{Text}
use dacelo.Lexer.{ok, Cursor, bump, escaped, lex_string}
use dacelo.Lexer.Positions.{bump-rest}

-- The letter that stands behind a backslash for `c`, if `c` is written so.
abbrev pub escape_of : ℕ → Option ℕ
escape_of c =
    if c == b'\n'
    then some b'n'
    else if c == b'\t'
    then some b't'
    else if c == b'\r'
    then some b'r'
    else if c == 0
    then some b'0'
    else if c == b'\\'
    then some b'\\'
    else if c == b'"'
    then some b'"'
    else none

abbrev quoted : ℕ → Option ℕ → Text → Text
quoted c none rest = c ∷ rest
quoted c (some d) rest = b'\\' ∷ d ∷ rest

-- `s` as the inside of a literal, with `rest` behind it.
pub quote_onto : Text → Text → Text
quote_onto [] rest = rest
quote_onto (c ∷ s) rest = quoted c (escape_of c) (quote_onto s rest)

escaped-escape_of : (c d : ℕ) → escape_of c ≡ some d → escaped d ≡ some c
unfolding escaped
escaped-escape_of c d h = ground arith

plain-escape_of : (c : ℕ) → escape_of c ≡ none → ((c == b'"') ≡ false) × ((c == b'\\') ≡ false)
plain-escape_of c h = ground arith

-- The literal that is read from `cs` is `s`, and `rest` is behind it.
abbrev pub Reads : ℕ → ℕ → Text → Cursor → Text → Text → Type 0
Reads l0 c0 cs k s rest = (k' : Cursor) × (lex_string l0 c0 cs k ≡ ok (s, k')) × (k'.rest ≡ rest)

module _ (l0 c0 : ℕ) where
  plain_step :
      (c d : ℕ) (cs : Text) (k : Cursor) {s rest : Text}
      → escape_of c ≡ none
      → Reads l0 c0 (d ∷ cs) (bump c (d ∷ cs) k) s rest
      → Reads l0 c0 (c ∷ d ∷ cs) k (c ∷ s) rest
  unfolding lex_string
  plain_step c d cs k h (k', e, r) = let p = plain-escape_of c h in (k', rw (p.0, p.1, e), r)

  escape_step :
      (c d : ℕ) (cs : Text) (k : Cursor) {s rest : Text}
      → escape_of c ≡ some d
      → Reads l0 c0 cs (bump d cs (bump b'\\' (d ∷ cs) k)) s rest
      → Reads l0 c0 (b'\\' ∷ d ∷ cs) k (c ∷ s) rest
  unfolding lex_string
  escape_step c d cs k h (k', e, r) = (k', rw (escaped-escape_of c d h, e), r)

  close : (rest : Text) (k : Cursor) → Reads l0 c0 (b'"' ∷ rest) k [] rest
  unfolding lex_string
  close [] k = (_, refl, bump-rest b'"' [] k)
  close (d ∷ cs) k = (_, refl, bump-rest b'"' (d ∷ cs) k)

  lex_string-nil-ne-ok : (k : Cursor) {r : Text × Cursor} → ¬ (lex_string l0 c0 [] k ≡ ok r)
  unfolding lex_string
  lex_string-nil-ne-ok k h = cc

  plain_step-quote_onto :
      (c : ℕ) (s rest : Text) (k : Cursor)
      → escape_of c ≡ none
      → ((k₁ : Cursor) → Reads l0 c0 (quote_onto s (b'"' ∷ rest)) k₁ s rest)
      → Reads l0 c0 (c ∷ quote_onto s (b'"' ∷ rest)) k (c ∷ s) rest
  plain_step-quote_onto c s rest k h ih = go (quote_onto s (b'"' ∷ rest)) ih
    where
      go :
          (t : Text)
          → ((k₁ : Cursor) → Reads l0 c0 t k₁ s rest)
          → Reads l0 c0 (c ∷ t) k (c ∷ s) rest
      go [] f = absurd (lex_string-nil-ne-ok k (f k).1)
      go (d ∷ cs) f = plain_step c d cs k h (f _)

  -- Every text, written as the inside of a literal with its closing quote, is read back, and what
  -- follows the quote is left.
  pub lex_string-quote_onto :
      (s rest : Text) (k : Cursor) → Reads l0 c0 (quote_onto s (b'"' ∷ rest)) k s rest
  unfolding quote_onto
  lex_string-quote_onto [] rest k = close rest k
  lex_string-quote_onto (c ∷ s) rest k = elim (Option-cases (escape_of c)) [
    | inl plain ↦ rw plain (plain_step-quote_onto c s rest k plain (lex_string-quote_onto s rest))
    | inr (d, special) ↦ rw special (escape_step c d _ k special (lex_string-quote_onto s rest _))
  ]
