-- ===== src/Lexer/Sound.antt =====
-- What `lex` of gen0-interp-rs/src/lexer.rs returns: its fuel is enough, the branch marked
-- unreachable is not reached, and each token stands where it says.
use dacelo.Base.{
  ℕ, zero, suc, ◌^◌, ◌≤◌, ◌<◌, ◌≡◌, ◌≢◌, refl, ap, arith, Bool, true, false, not, ◌&&◌, Bool-cases,
  inl, inr, List, [], ◌∷◌, Option, none, some, Option-cases, ◌==◌, ==_iff, if◌then◌else◌, length,
}
use dacelo.Base.Int.{pos}
use dacelo.Base.Decimal.{is_digit, parse_number, parse_number-lt}
use dacelo.Base.Text.{Text, codes}
use dacelo.Lexer.{
  Tok, Token, LexError, Lexed, ok, err, ◌>>=◌, keywords, syms2, syms1, contains, member,
  is_whitespace, starts_ident, in_ident, Cursor, bump, bump_while, escaped, lex_string, head_is,
  token, lex_int, word_tok, starts_upper, lex_word, lex_sym1, lex_sym, lex_round, lex_loop, add,
  lex,
}
use dacelo.Lexer.Positions.{StandsAt, At, bump-At, bump-rest, bump_while-At}

-- The run ended, and what it returned has `P`.
pub data Ensures {ℓ} {A : Type ℓ} (P : A → Type 0) : Lexed A → Type ℓ where
  good : {a : A} → P a → Ensures P (ok a)
  bad : {e : LexError} → Ensures P (err e)

module _ {ℓ} {A : Type ℓ} {P : A → Type 0} where
  Ensures-if :
      (b : Bool) {x y : Lexed A}
      → (b ≡ true → Ensures P x)
      → (b ≡ false → Ensures P y)
      → Ensures P (if b then x else y)
  Ensures-if true f g = f refl
  Ensures-if false f g = g refl

module _ {ℓ κ} {A : Type ℓ} {B : Type κ} {P : A → Type 0} {Q : B → Type 0} where
  Ensures-bind :
      {m : Lexed A} {f : A → Lexed B}
      → Ensures P m
      → ((a : A) → P a → Ensures Q (f a))
      → Ensures Q (m >>= f)
  Ensures-bind (good {a} p) h = h a p
  Ensures-bind bad h = bad

-- What each kind of token says of its text.
abbrev pub WellMade : Tok → Type 0
WellMade (Tok.int z) = (n : ℕ) × (z ≡ pos n) × (n < 2 ^ 63)
WellMade (Tok.str s) = Unit
WellMade (Tok.ident s) = (member keywords s ≡ false) × (starts_upper s ≡ false)
WellMade (Tok.upper s) = (member keywords s ≡ false) × (starts_upper s ≡ true)
WellMade (Tok.kw s) = member keywords s ≡ true
WellMade (Tok.sym s) = s ≢ codes "_"
WellMade Tok.eof = ⊥

-- After a cursor move to `k'`: no character is read twice, and `k'` knows its place.
abbrev Onward : Text → Text → Cursor → Type 0
Onward src cs k' = At src k' × (length k'.rest ≤ length cs)

module _ (src : Text) (l0 c0 : ℕ) where
  lex_string-Ensures :
      (cs : Text) (k : Cursor)
      → k.rest ≡ cs
      → At src k
      → Ensures (λ r. Onward src cs r.1) (lex_string l0 c0 cs k)
  unfolding lex_string
  lex_string-Ensures [] k e a = bad
  lex_string-Ensures (c ∷ []) k e a =
      Ensures-if (c == b'"')
        (λ _. good (bump-At src c [] k e a, omega (arith, ap length (bump-rest c [] k)))) (λ _. bad)
  lex_string-Ensures (c ∷ d ∷ cs) k e a =
      let behind = bump c (d ∷ cs) k in
      let e₁ = bump-rest c (d ∷ cs) k in
      let a₁ = bump-At src c (d ∷ cs) k e a in
      let e₂ = bump-rest d cs behind in
      let a₂ = bump-At src d cs behind e₁ a₁ in
      let plain = lex_string-Ensures (d ∷ cs) behind e₁ a₁ in
      let after = lex_string-Ensures cs (bump d cs behind) e₂ a₂ in
      Ensures-if (c == b'"') (λ _. good (a₁, omega (arith, ap length e₁)))
        (λ _.
          Ensures-if (c == b'\\')
            (λ _. elim (Option-cases (escaped d)) [
              | inl none_such ↦ rw none_such bad
              | inr (x, known) ↦
                  rw known (Ensures-bind after (λ r p. good (p.0, omega (arith, p.1))))
            ])
            (λ _. Ensures-bind plain (λ r p. good (p.0, omega (arith, p.1)))))

word_tok-WellMade : (s : Text) → WellMade (word_tok s)
unfolding word_tok
word_tok-WellMade s = elim (Bool-cases (member keywords s)) [
  | inl m ↦ rw m m
  | inr m ↦ rw m (elim (Bool-cases (starts_upper s)) [ inl u ↦ rw u (m, u) | inr l ↦ rw l (m, l) ])
]

space_is_whitespace : is_whitespace b' ' ≡ true
unfolding is_whitespace
space_is_whitespace = refl

underscore_starts_ident : starts_ident b'_' ≡ true
unfolding starts_ident
underscore_starts_ident = refl

starts_ident-in_ident : (c : ℕ) → starts_ident c ≡ true → in_ident c ≡ true
unfolding starts_ident in_ident
starts_ident-in_ident c h = ground arith

-- A token made in a round that began at `k`.
abbrev Placed : Cursor → Option Token → Type 0
Placed k none = Unit
Placed k (some t) = WellMade t.tok × (t.line ≡ k.line) × (t.col ≡ k.col)

abbrev RoundDone : Text → Text → Cursor → Option Token × Cursor → Type 0
RoundDone src cs k (t, k') = Placed k t × Onward src cs k'

module _ (src : Text) (c : ℕ) (cs : Text) (k : Cursor) (e : k.rest ≡ c ∷ cs) (a : At src k) where
  abbrev Done : Option Token × Cursor → Type 0
  Done = RoundDone src cs k

  bumped : Onward src cs (bump c cs k)
  bumped = (bump-At src c cs k e a, omega (arith, ap length (bump-rest c cs k)))

  -- A scan that passes the first character.
  scanned : (test : ℕ → Bool) → test c ≡ true → Onward src cs (bump_while test (c ∷ cs) k).1
  unfolding bump_while
  scanned test t =
      rw t (bump_while-At src test cs (bump c cs k) (bump-rest c cs k) (bump-At src c cs k e a))

  lex_int-Ensures : is_digit c ≡ true → Ensures Done (lex_int k (bump_while is_digit (c ∷ cs) k))
  unfolding lex_int
  lex_int-Ensures t =
      let s = (bump_while is_digit (c ∷ cs) k).0 in
      elim (Option-cases (parse_number (2 ^ 63) s)) [
        | inl large ↦ rw (large, lex_int) bad
        | inr (n, small) ↦
            rw (small, lex_int)
              (good (((n, refl, parse_number-lt (2 ^ 63) s small), refl, refl), scanned is_digit t))
      ]

  lex_word-Ensures : in_ident c ≡ true → Ensures Done (lex_word k (bump_while in_ident (c ∷ cs) k))
  unfolding lex_word
  lex_word-Ensures t =
      good ((word_tok-WellMade (bump_while in_ident (c ∷ cs) k).0, refl, refl), scanned in_ident t)

  lex_sym1-Ensures :
      is_whitespace c ≡ false → starts_ident c ≡ false → Ensures Done (lex_sym1 c cs k)
  unfolding lex_sym1
  lex_sym1-Ensures w i =
      Ensures-if (contains syms1 c)
        (λ _.
          Ensures-if (c == b' ') (λ s. absurd (no_space s))
            (λ _. good ((no_underscore, refl, refl), bumped)))
        (λ _. bad)
    where
      no_space : c == b' ' ≡ true → ⊥
      no_space s = let q = (==_iff c b' ').0 s in cc space_is_whitespace

      no_underscore : c ∷ [] ≢ codes "_"
      no_underscore q = cc underscore_starts_ident

  string-Ensures :
      Ensures Done (lex_string k.line k.col cs (bump c cs k) >>= λ (s, k'). token (Tok.str s) k k')
  string-Ensures =
      Ensures-bind
        (lex_string-Ensures src k.line k.col cs (bump c cs k) (bump-rest c cs k)
          (bump-At src c cs k e a))
        (λ r p. good ((tt, refl, refl), p))

module _ (src : Text) (c : ℕ) (k : Cursor) where
  lex_sym-Ensures :
      (cs : Text)
      → k.rest ≡ c ∷ cs
      → At src k
      → is_whitespace c ≡ false
      → starts_ident c ≡ false
      → Ensures (RoundDone src cs k) (lex_sym c cs k)
  unfolding lex_sym
  lex_sym-Ensures [] e a w i = lex_sym1-Ensures src c [] k e a w i
  lex_sym-Ensures (d ∷ cs) e a w i =
      let e₁ = bump-rest c (d ∷ cs) k in
      let a₁ = bump-At src c (d ∷ cs) k e a in
      Ensures-if (member syms2 (c ∷ d ∷ []))
        (λ _. good (
          ((λ q. cc), refl, refl),
          (
            bump-At src d cs (bump c (d ∷ cs) k) e₁ a₁,
            omega (arith, ap length (bump-rest d cs (bump c (d ∷ cs) k))),
          ),
        ))
        (λ _. lex_sym1-Ensures src c (d ∷ cs) k e a w i)

  lex_round-Ensures :
      (cs : Text) → k.rest ≡ c ∷ cs → At src k → Ensures (RoundDone src cs k) (lex_round c cs k)
  unfolding lex_round
  lex_round-Ensures cs e a =
      Ensures-if (is_whitespace c) (λ _. good (tt, bumped src c cs k e a))
        λ w.
          Ensures-if (c == b'-' && head_is b'-' cs)
            (λ t. good (tt, scanned src c cs k e a (λ x. not (x == b'\n')) (ground arith)))
            λ _. Ensures-if (is_digit c) (lex_int-Ensures src c cs k e a) λ _.
              Ensures-if (c == b'"') (λ _. string-Ensures src c cs k e a)
                λ _.
                  Ensures-if (starts_ident c)
                    (λ i. lex_word-Ensures src c cs k e a (starts_ident-in_ident c i))
                    λ i. lex_sym-Ensures cs e a w i

-- The tokens of `src` in order: each stands where it says, behind the one before it and with at most
-- `n` characters from its place on, and the last one, and no other, is the end of the input.
pub data Tokens (src : Text) : ℕ → List Token → Type 0 where
  last :
      {n : ℕ} {t : Token} → t.tok ≡ Tok.eof → StandsAt src [] t.line t.col → Tokens src n (t ∷ [])
  more :
      {n m : ℕ} {t : Token} {ts : List Token} (rest : Text)
      → length rest ≡ suc m
      → suc m ≤ n
      → WellMade t.tok
      → StandsAt src rest t.line t.col
      → Tokens src m ts
      → Tokens src n (t ∷ ts)

Tokens-le : {src : Text} {n n' : ℕ} {ts : List Token} → n ≤ n' → Tokens src n ts → Tokens src n' ts
Tokens-le h (last e s) = last e s
Tokens-le h (more rest l m w s t) = more rest l (omega arith) w s t

lex_loop-Ensures :
    (src : Text) (f : ℕ) (cs : Text) (k : Cursor)
    → length cs < f
    → k.rest ≡ cs
    → At src k
    → Ensures (Tokens src (length cs)) (lex_loop f cs k)
unfolding lex_loop
lex_loop-Ensures src zero cs k h e a = elim h [ ]
lex_loop-Ensures src (suc f) [] k h e a = good (last refl (rw e at a))
lex_loop-Ensures src (suc f) (c ∷ cs) k h e a =
    Ensures-bind (lex_round-Ensures src c k cs e a) λ (t, k') d.
      let fewer : length k'.rest < f = omega (arith, d.1.1) in
      Ensures-bind (lex_loop-Ensures src f k'.rest k' fewer refl d.1.0)
        λ ts later. good (ordered t ts d.0 (Tokens-le d.1.1 later))
  where
    ordered :
        (t : Option Token) (ts : List Token)
        → Placed k t
        → Tokens src (length cs) ts
        → Tokens src (length (c ∷ cs)) (add t ts)
    ordered none ts p q = Tokens-le (omega arith) q
    ordered (some t) ts p q = more k.rest (ap length e) (omega arith) p.0 (rw (p.1, p.2) a) q

-- `lex` does not run out of fuel, and its tokens are in order, each at its place.
pub lex-Ensures : (src : Text) → Ensures (Tokens src (length src)) (lex src)
unfolding lex
lex-Ensures src =
    lex_loop-Ensures src (suc (length src)) src (record { rest = src; line = 1; col = 1 })
      (omega arith) refl (record { read = []; splits = refl; line_is = refl; col_is = refl })
