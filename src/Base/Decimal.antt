-- ===== src/Base/Decimal.antt =====
-- Decimal numbers as the formatting and the parsing of the source's standard library write and read
-- them: no sign, no leading zeros on output.
use dacelo.Base.Tests.{ltb, leb, if◌then◌else◌, Bool-cases, lt→ltb}
use dacelo.Base.Text.{Text, Every}
use Prim.Native.Nat.{ℕ, zero, suc, ◌+◌, ◌-◌, ◌*◌, ◌/◌, ◌%◌, ◌<◌}
use mathlib.Core.Path.{◌≡◌, refl, ap, ◌∙◌}
use mathlib.Core.Logic.{inl, inr}
use mathlib.Core.Bool.{Bool, true, false, ◌&&◌}
use mathlib.Core.Option.{Option, none, some}
use mathlib.Core.List.{[], ◌∷◌}
use native.Mathlib.Omega.{arith}

-- The digits of `n` in front of `acc`; the fuel `n + 1` is enough.
digits_onto : ℕ → ℕ → Text → Text
digits_onto zero n acc = acc
digits_onto (suc f) n acc =
    let rest = digits_onto f (n / 10) ((b'0' + n % 10) ∷ acc) in
    if ltb n 10 then (b'0' + n) ∷ acc else rest

unfoldable pub to_decimal : ℕ → Text
unfolding digits_onto
to_decimal n = digits_onto (suc n) n []

-- `char::is_ascii_digit`
abbrev pub is_digit : ℕ → Bool
is_digit c = leb b'0' c && leb c b'9'

unfoldable pub digits_value : ℕ → Text → Option ℕ
digits_value acc [] = some acc
digits_value acc (c ∷ cs) =
    let rest = digits_value (acc * 10 + (c - b'0')) cs in if is_digit c then rest else none

abbrev is_empty : Text → Bool
is_empty [] = true
is_empty (c ∷ cs) = false

abbrev below : ℕ → Option ℕ → Option ℕ
below limit none = none
below limit (some n) = if ltb n limit then some n else none

-- `parse` of an unsigned type with the values below `limit`; empty input is refused.
unfoldable pub parse_number : ℕ → Text → Option ℕ
unfolding digits_value
parse_number limit s = if is_empty s then none else below limit (digits_value 0 s)

digits_onto-nonempty : (f n c : ℕ) (acc : Text) → is_empty (digits_onto f n (c ∷ acc)) ≡ false
unfolding digits_onto
digits_onto-nonempty zero n c acc = refl
digits_onto-nonempty (suc f) n c acc =
    ground (arith, digits_onto-nonempty f (n / 10) (b'0' + n % 10) (c ∷ acc))

value : (n : ℕ) → n / 10 * 10 + (b'0' + n % 10 - b'0') ≡ n
value n = omega arith

digits_value-digits_onto :
    (f n : ℕ) (acc : Text) → n < f → digits_value 0 (digits_onto f n acc) ≡ digits_value n acc
unfolding digits_onto digits_value
digits_value-digits_onto zero n acc h = elim h [ ]
digits_value-digits_onto (suc f) n acc h = elim (Bool-cases (ltb n 10)) [
  | inl small ↦ rw small (ground arith)
  | inr large ↦
      let ih = digits_value-digits_onto f (n / 10) ((b'0' + n % 10) ∷ acc) (ground arith) in
      rw large (ih ∙ last_digit)
]
  where
    last_digit : digits_value (n / 10) ((b'0' + n % 10) ∷ acc) ≡ digits_value n acc
    last_digit = ground (arith, ap (λ (t : ℕ). digits_value t acc) (value n))

to_decimal-nonempty : (n : ℕ) → is_empty (to_decimal n) ≡ false
unfolding to_decimal
to_decimal-nonempty n = ground (arith, digits_onto-nonempty n (n / 10) (b'0' + n % 10) [])

digits_value-to_decimal : (n : ℕ) → digits_value 0 (to_decimal n) ≡ some n
unfolding to_decimal
digits_value-to_decimal n =
    digits_value-digits_onto (suc n) n [] (omega arith) ∙ unfold digits_value in refl

-- The text starts with a digit.
abbrev StartsWithDigit : Text → Type 0
StartsWithDigit t = (c : ℕ) × (cs : Text) × (t ≡ c ∷ cs) × (is_digit c ≡ true)

digits_onto-digit : (f n : ℕ) (acc : Text) → n < f → StartsWithDigit (digits_onto f n acc)
unfolding digits_onto
digits_onto-digit zero n acc h = elim h [ ]
digits_onto-digit (suc f) n acc h = elim (Bool-cases (ltb n 10)) [
  | inl small ↦ rw small (b'0' + n, acc, refl, ground arith)
  | inr large ↦ rw large (digits_onto-digit f (n / 10) ((b'0' + n % 10) ∷ acc) (ground arith))
]

pub to_decimal-digit : (n : ℕ) → StartsWithDigit (to_decimal n)
unfolding to_decimal
to_decimal-digit n = digits_onto-digit (suc n) n [] (omega arith)

digits_onto-Every :
    (f n : ℕ) (acc : Text) → Every is_digit acc → Every is_digit (digits_onto f n acc)
unfolding digits_onto
digits_onto-Every zero n acc h = h
digits_onto-Every (suc f) n acc h = elim (Bool-cases (ltb n 10)) [
  | inl small ↦ rw small (ground arith, h)
  | inr large ↦ rw large (digits_onto-Every f (n / 10) ((b'0' + n % 10) ∷ acc) (ground arith, h))
]

pub to_decimal-Every : (n : ℕ) → Every is_digit (to_decimal n)
unfolding to_decimal
to_decimal-Every n = digits_onto-Every (suc n) n [] tt

-- A printed number is read back.
pub parse_number-to_decimal : (limit n : ℕ) → n < limit → parse_number limit (to_decimal n) ≡ some n
unfolding parse_number
parse_number-to_decimal limit n h =
    rw (to_decimal-nonempty n, digits_value-to_decimal n, lt→ltb n limit h)

-- What is parsed is below the limit.
pub parse_number-lt : (limit : ℕ) (s : Text) {n : ℕ} → parse_number limit s ≡ some n → n < limit
unfolding parse_number
parse_number-lt limit s h = ground arith
