-- ===== src/Eval/Builtins/Trim.antt =====
-- `string_to_int` and `int_to_string` of gen0-interp-rs/src/eval.rs.
use dacelo.Base.{ℕ, suc, ◌≡◌, refl, ap, ◌∙◌, arith, Bool, true, not, [], ◌∷◌, ◌++◌}
use mathlib.Core.List.{reverse, reverse-append, reverse-reverse, reverse-cons}
use dacelo.Base.Int.{ℤ, pos, negsuc}
use dacelo.Base.Decimal.{is_digit, to_decimal-Every}
use dacelo.Base.Text.{Text, Every}
use dacelo.Lexer.{is_whitespace}
use dacelo.Eval.{BuiltinKind, Host, Machine, Outcome, int, str, v_nil, v_cons}
use dacelo.Eval.Numbers.{IsI64}
use dacelo.Eval.Show.{int_text}
use dacelo.Eval.Builtins.{trim, trim_start, call_builtin}
use dacelo.Eval.Builtins.Slices.{parse_i64-int_text}

abbrev is_ink : ℕ → Bool
is_ink c = not (is_whitespace c)

digit_is_ink : (c : ℕ) → is_digit c ≡ true → is_ink c ≡ true
unfolding is_whitespace
digit_is_ink c h = ground arith

Every-ink : (t : Text) → Every is_digit t → Every is_ink t
Every-ink [] h = tt
Every-ink (c ∷ cs) h = (digit_is_ink c h.0, Every-ink cs h.1)

minus_is_ink : is_ink b'-' ≡ true
unfolding is_whitespace
minus_is_ink = refl

int_text-Every : (n : ℤ) → Every is_ink (int_text n)
unfolding int_text
int_text-Every (pos n) = Every-ink _ (to_decimal-Every n)
int_text-Every (negsuc n) = (minus_is_ink, Every-ink _ (to_decimal-Every (suc n)))

module _ (p : ℕ → Bool) where
  Every-append : (s t : Text) → Every p s → Every p t → Every p (s ++ t)
  Every-append [] t h k = k
  Every-append (c ∷ s) t h k = (h.0, Every-append s t h.1 k)

  Every-reverse : (t : Text) → Every p t → Every p (reverse t)
  Every-reverse [] h = tt
  Every-reverse (c ∷ t) h =
      rw (reverse-cons c t) (Every-append (reverse t) (c ∷ []) (Every-reverse t h.1) (h.0, tt))

trim_start-blank :
    (blank t : Text) → Every is_whitespace blank → trim_start (blank ++ t) ≡ trim_start t
unfolding trim_start
trim_start-blank [] t h = refl
trim_start-blank (c ∷ blank) t h = rw h.0 (trim_start-blank blank t h.1)

-- With text that is not blank, there is nothing to trim behind the blanks.
trim_start-ink : (c : ℕ) (t u : Text) → is_ink c ≡ true → trim_start (c ∷ t ++ u) ≡ c ∷ t ++ u
unfolding trim_start
trim_start-ink c t u h = ground arith

trim_start-Every : (t : Text) → Every is_ink t → trim_start t ≡ t
unfolding trim_start
trim_start-Every [] h = refl
trim_start-Every (c ∷ t) h = let e = h.0 in ground arith

trim_start-all : (blank : Text) → Every is_whitespace blank → trim_start blank ≡ []
unfolding trim_start
trim_start-all [] h = refl
trim_start-all (c ∷ blank) h = rw h.0 (trim_start-all blank h.1)

nothing : reverse (trim_start (reverse [])) ≡ []
unfolding trim_start
nothing = refl

-- A text without blanks between blanks.
trim-blank :
    (before t after : Text)
    → Every is_whitespace before
    → Every is_ink t
    → Every is_whitespace after
    → trim (before ++ (t ++ after)) ≡ t
trim-blank before [] after b h a =
    let all = Every-append is_whitespace before after b a in
    ap (λ (t : Text). reverse (trim_start (reverse t))) (trim_start-all (before ++ after) all)
    ∙ nothing
trim-blank before (c ∷ t) after b h a =
    let first = trim_start-blank before ((c ∷ t) ++ after) b ∙ trim_start-ink c t after h.0 in
    let behind =
      trim_start-blank (reverse after) (reverse (c ∷ t)) (Every-reverse is_whitespace after a)
      ∙ trim_start-Every (reverse (c ∷ t)) (Every-reverse is_ink (c ∷ t) h) in
    rw (first, reverse-append (c ∷ t) after, behind) (reverse-reverse (c ∷ t))

module _ (h : Host) where
  open h use {World}

  -- For every value of an `i64`, `int_to_string` gives a text that `string_to_int` reads back as that
  -- value, with any blanks before it and after it.
  pub call_builtin-int_text :
      (n : ℤ) (before after : Text) (m : Machine World)
      → IsI64 n
      → Every is_whitespace before
      → Every is_whitespace after
      → (t : Text) × (call_builtin h BuiltinKind.int_to_str (v_cons (int n) v_nil) m
          ≡ Outcome.ok (str t) m)
        × (call_builtin h BuiltinKind.str_to_int (v_cons (str (before ++ (t ++ after))) v_nil) m
            ≡ Outcome.ok (int n) m)
  unfolding call_builtin
  call_builtin-int_text n before after m i b a = (
    int_text n,
    refl,
    rw (trim-blank before (int_text n) after b (int_text-Every n) a, parse_i64-int_text n i) refl,
  )
