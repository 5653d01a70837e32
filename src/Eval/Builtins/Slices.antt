-- ===== src/Eval/Builtins/Slices.antt =====
-- `substring` and the conversions between numbers and strings.
use dacelo.Base.{
  ℕ, zero, suc, ◌+◌, ◌-◌, ◌^◌, ◌<◌, ◌≤◌, ◌≡◌, refl, sym, ap, ◌∙◌, arith, Bool, true, false, [], ◌∷◌,
  ◌++◌, Option, none, some, if◌then◌else◌, ltb, length, length-append,
}
use mathlib.Core.Path.{subst}
use mathlib.Core.Option
use dacelo.Base.Int.{ℤ, pos, negsuc, as_unsigned}
use dacelo.Base.Decimal.{to_decimal-digit, is_digit, parse_number, parse_number-to_decimal}
use dacelo.Base.Text.{Text}
use dacelo.Base.Utf8.{utf8, bytes}
use dacelo.Eval.{EvalError, str}
use dacelo.Eval.Numbers.{IsI64, ◌+ℤ◌, wrapping_add, wrapping_add_lem}
use dacelo.Eval.Match.{Checked}
use dacelo.Eval.Show.{int_text}
use dacelo.Eval.Builtins.{split_at_byte, slice, substring, parse_i64, negated}

-- `l` and `r` are the parts of `s` around byte `n`.
abbrev SplitsAt : ℕ → Text → Text → Text → Type 0
SplitsAt n s l r = (s ≡ l ++ r) × (length (bytes l) ≡ n)

split_at_byte-cons :
    (n c : ℕ) (cs l r : Text)
    → length (utf8 c) ≤ n
    → SplitsAt (n - length (utf8 c)) cs l r
    → SplitsAt n (c ∷ cs) (c ∷ l) r
unfolding bytes
split_at_byte-cons n c cs l r h (e, len) =
    (ap (λ (t : Text). c ∷ t) e, omega (arith, length-append (utf8 c) (bytes l), len))

-- What it takes for the test and the rest of the string to give an answer.
guarded :
    {A B : Type 0} (b : Bool) (o : Option A) (f : A → B) {y : B}
    → (if b then none else Option.map f o) ≡ some y
    → (b ≡ false) × (a : A) × (o ≡ some a) × (y ≡ f a)
guarded true o f h = cc
guarded false none f h = cc
guarded false (some a) f h = (refl, a, refl, cc)

some-injective : {A : Type 0} {a b : A} → some a ≡ some b → a ≡ b
some-injective h = cc

pub split_at_byte_lem :
    (n : ℕ) (s : Text) {l r : Text} → split_at_byte n s ≡ some (l, r) → SplitsAt n s l r
unfolding split_at_byte bytes
split_at_byte_lem zero s h =
    subst (λ (p : Text × Text). SplitsAt 0 s p.0 p.1) (some-injective h) (refl, refl)
split_at_byte_lem (suc n) [] h = cc
split_at_byte_lem (suc n) (c ∷ cs) h =
    let size = length (utf8 c) in
    let (small, (l', r'), e, q) =
      guarded (ltb (suc n) size) (split_at_byte (suc n - size) cs) _ h in
    subst (λ (p : Text × Text). SplitsAt (suc n) (c ∷ cs) p.0 p.1) (sym q)
      (split_at_byte-cons (suc n) c cs l' r' (ground arith) (split_at_byte_lem (suc n - size) cs e))

-- A number that does not start with a sign.
parse_i64-digit :
    (c : ℕ) (cs : Text)
    → is_digit c ≡ true
    → parse_i64 (c ∷ cs) ≡ Option.map pos (parse_number (2 ^ 63) (c ∷ cs))
unfolding parse_i64
parse_i64-digit c cs h = ground arith

pub parse_i64-int_text : (n : ℤ) → IsI64 n → parse_i64 (int_text n) ≡ some n
unfolding parse_i64 int_text negated
parse_i64-int_text (pos n) h =
    let (c, cs, e, d) = to_decimal-digit n in
    ap parse_i64 e
    ∙ parse_i64-digit c cs d
    ∙ ap (λ (t : Text). Option.map pos (parse_number (2 ^ 63) t)) (sym e)
    ∙ ap (Option.map pos) (parse_number-to_decimal (2 ^ 63) n h)
parse_i64-int_text (negsuc n) h =
    ap (Option.map negated) (parse_number-to_decimal (2 ^ 63 + 1) (suc n) (omega arith))

-- `t` is the part of `s` that starts at byte `st` and ends at byte `en`.
abbrev pub Part : ℕ → ℕ → Text → Text → Type 0
Part st en s t =
    (l : Text) × (r : Text) × (s ≡ l ++ t ++ r)
    × (length (bytes l) ≡ st)
    × (length (bytes (l ++ t)) ≡ en)

-- Both boundaries were found.
slice_inv :
    (st : ℕ) (o : Option (Text × Text)) {t : Text}
    → elim o [
      | none ↦ none
      | some (l, _) ↦ Option.map (λ (p : Text × Text). p.1) (split_at_byte st l)
    ]
      ≡ some t
    → (lt : Text) × (r : Text) × (l : Text) × (o ≡ some (lt, r))
      × (split_at_byte st lt ≡ some (l, t))
slice_inv st none h = cc
slice_inv st (some (lt, r)) h =
    let (_, (l, t'), e, q) = guarded false (split_at_byte st lt) (λ p. p.1) h in
    (lt, r, l, refl, e ∙ ap (λ (u : Text). some (l, u)) (sym q))

slice_lem : (st en : ℕ) (s : Text) {t : Text} → slice st en s ≡ some t → Part st en s t
unfolding slice
slice_lem st en s {t} h =
    let (lt, r, l, e, e') = slice_inv st (split_at_byte en s) h in
    let (whole, end) = split_at_byte_lem en s e in
    let (left, start) = split_at_byte_lem st lt e' in
    (
      l,
      r,
      whole ∙ ap (λ (u : Text). u ++ r) left,
      start,
      ap (λ u. length (bytes u)) (sym left) ∙ end,
    )

substring_inv :
    (b : Bool) (o : Option Text) (x y : EvalError) {t : Text}
    → (if b then Checked.err x else elim o [ none ↦ Checked.err y | some u ↦ Checked.ok (str u) ])
      ≡ Checked.ok (str t)
    → o ≡ some t
substring_inv true o x y h = cc
substring_inv false none x y h = cc
substring_inv false (some u) x y h = cc

low64 : (i : ℕ) → i < 2 ^ 63 → as_unsigned 64 (pos i) ≡ i
low64 i h = omega arith

sum_pos : (i n : ℕ) → pos i +ℤ pos n ≡ pos (i + n)
unfolding ◌+ℤ◌
sum_pos i n = ground arith

end_byte : (i n : ℕ) → i + n < 2 ^ 63 → as_unsigned 64 (wrapping_add (pos i) (pos n)) ≡ i + n
end_byte i n h =
    ap (as_unsigned 64) ((wrapping_add_lem (pos i) (pos n)).1 (rw (sum_pos i n) h) ∙ sum_pos i n)
    ∙ low64 (i + n) h

-- For a start and a length whose sum is below 2^63, what `substring` gives is the part of the
-- string from that byte on, of that many bytes.
pub substring_lem :
    (s : Text) (i n : ℕ) {t : Text}
    → i + n < 2 ^ 63
    → substring s (pos i) (pos n) ≡ Checked.ok (str t)
    → Part i (i + n) s t
unfolding substring
substring_lem s i n {t} small h =
    let part = slice_lem _ _ s (substring_inv _ (slice _ _ s) _ _ h) in
    subst (λ a. Part a (i + n) s t) (low64 i (omega arith))
      (subst (λ b. Part (as_unsigned 64 (pos i)) b s t) (end_byte i n small) part)
