-- ===== src/Lexer/Positions.antt =====
-- The cursor of gen0-interp-rs/src/lexer.rs against the text that it has read.
use dacelo.Base.{
  ℕ, suc, ◌+◌, ◌≤◌, ◌≡◌, refl, sym, ap, ◌∙◌, arith, Bool, Bool-cases, inl, inr, [], ◌∷◌, ◌++◌, ◌==◌,
  if◌then◌else◌, length,
}
use mathlib.Core.List.{append_assoc}
use dacelo.Base.Text.{Text}
use dacelo.Lexer.{Cursor, bump, bump_while}

abbrev pub count : ℕ → Text → ℕ
count b [] = 0
count b (c ∷ cs) = (if c == b then 1 else 0) + count b cs

-- The column behind a text, from the column before it.
abbrev pub column_from : ℕ → Text → ℕ
column_from n [] = n
column_from n (c ∷ cs) = column_from (if c == b'\n' then 1 else n + 1) cs

-- The position at which `rest` stands in `src`: lines and columns count from 1.
pub record StandsAt (src rest : Text) (line col : ℕ) : Type 0 where
  pub read : Text
  pub splits : src ≡ read ++ rest
  pub line_is : line ≡ suc (count b'\n' read)
  pub col_is : col ≡ column_from 1 read

abbrev pub At : Text → Cursor → Type 0
At src k = StandsAt src k.rest k.line k.col

count-concat : (b c : ℕ) (p : Text) → count b (p ++ c ∷ []) ≡ (if c == b then 1 else 0) + count b p
count-concat b c [] = omega arith
count-concat b c (x ∷ p) = omega (arith, count-concat b c p)

column_from-concat :
    (n c : ℕ) (p : Text)
    → column_from n (p ++ c ∷ []) ≡ (if c == b'\n' then 1 else column_from n p + 1)
column_from-concat n c [] = refl
column_from-concat n c (x ∷ p) = column_from-concat (if x == b'\n' then 1 else n + 1) c p

pub bump-At :
    (src : Text) (c : ℕ) (cs : Text) (k : Cursor)
    → k.rest ≡ c ∷ cs
    → At src k
    → At src (bump c cs k)
unfolding bump
bump-At src c cs k e a = elim (Bool-cases (c == b'\n')) [
  | inl nl ↦ rw nl (record {
    read = a.read ++ c ∷ [];
    splits = a.splits ∙ ap (λ (t : Text). a.read ++ t) e ∙ sym (append_assoc a.read (c ∷ []) cs);
    line_is = ground (arith, count-concat b'\n' c a.read, a.line_is);
    col_is = ground (arith, column_from-concat 1 c a.read);
  })
  | inr other ↦ rw other (record {
    read = a.read ++ c ∷ [];
    splits = a.splits ∙ ap (λ (t : Text). a.read ++ t) e ∙ sym (append_assoc a.read (c ∷ []) cs);
    line_is = ground (arith, count-concat b'\n' c a.read, a.line_is);
    col_is = ground (arith, column_from-concat 1 c a.read, a.col_is);
  })
]

pub bump-rest : (c : ℕ) (cs : Text) (k : Cursor) → (bump c cs k).rest ≡ cs
unfolding bump
bump-rest c cs k = ground arith

-- What `bump_while` passes is what it takes, and the cursor keeps its place.
pub bump_while-At :
    (src : Text) (test : ℕ → Bool) (cs : Text) (k : Cursor)
    → k.rest ≡ cs
    → At src k
    → At src (bump_while test cs k).1 × (length (bump_while test cs k).1.rest ≤ length cs)
unfolding bump_while
bump_while-At src test [] k e a = (a, omega (arith, ap length e))
bump_while-At src test (c ∷ cs) k e a = elim (Bool-cases (test c)) [
  | inl t ↦ rw t (
      let ih =
        bump_while-At src test cs (bump c cs k) (bump-rest c cs k) (bump-At src c cs k e a) in
      (ih.0, omega (arith, ih.1)))
  | inr f ↦ rw f (a, omega (arith, ap length e))
]
