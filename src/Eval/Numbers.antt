-- ===== src/Eval/Numbers.antt =====
-- The 64-bit operations of gen0-interp-rs/src/eval.rs. An `i64` is the integer that it stands for;
-- sums and products wrap around, division rounds towards 0.
use dacelo.Base.{suc, ◌+◌, ◌*◌, ◌/◌, ◌%◌, ◌^◌, ◌<◌, ◌≡◌, arith, Bool, false, ltb, ◌==◌}
use dacelo.Base.Int.{ℤ, pos, negsuc, pos_part, neg_part, sub_ℕ, as_unsigned, as_signed}

infixl 65 ◌+ℤ◌ ◌-ℤ◌
infixl 70 ◌*ℤ◌
unfoldable pub ◌+ℤ◌ : ℤ → ℤ → ℤ
a +ℤ b = sub_ℕ (pos_part a + pos_part b) (neg_part a + neg_part b)

unfoldable pub ◌-ℤ◌ : ℤ → ℤ → ℤ
a -ℤ b = sub_ℕ (pos_part a + neg_part b) (neg_part a + pos_part b)

unfoldable pub ◌*ℤ◌ : ℤ → ℤ → ℤ
a *ℤ b =
    sub_ℕ (pos_part a * pos_part b + neg_part a * neg_part b)
      (pos_part a * neg_part b + neg_part a * pos_part b)

-- The quotient and the remainder of Rust's `/` and `%`, with the divisor not 0.
unfoldable pub quot : ℤ → ℤ → ℤ
quot (pos a) (pos b) = pos (a / b)
quot (pos a) (negsuc b) = sub_ℕ 0 (a / suc b)
quot (negsuc a) (pos b) = sub_ℕ 0 (suc a / b)
quot (negsuc a) (negsuc b) = pos (suc a / suc b)

unfoldable pub rem : ℤ → ℤ → ℤ
rem (pos a) (pos b) = pos (a % b)
rem (pos a) (negsuc b) = pos (a % suc b)
rem (negsuc a) (pos b) = sub_ℕ 0 (suc a % b)
rem (negsuc a) (negsuc b) = sub_ℕ 0 (suc a % suc b)

-- The `i64` with the same low 64 bits.
unfoldable pub wrap64 : ℤ → ℤ
wrap64 z = as_signed 64 (as_unsigned 64 z)

unfoldable pub wrapping_add : ℤ → ℤ → ℤ
wrapping_add a b = wrap64 (a +ℤ b)

unfoldable pub wrapping_sub : ℤ → ℤ → ℤ
wrapping_sub a b = wrap64 (a -ℤ b)

unfoldable pub wrapping_mul : ℤ → ℤ → ℤ
wrapping_mul a b = wrap64 (a *ℤ b)

unfoldable pub wrapping_div : ℤ → ℤ → ℤ
wrapping_div a b = wrap64 (quot a b)

unfoldable pub wrapping_rem : ℤ → ℤ → ℤ
wrapping_rem a b = wrap64 (rem a b)

abbrev pub is_zero : ℤ → Bool
is_zero (pos n) = n == 0
is_zero (negsuc n) = false

abbrev pub eq_ℤ : ℤ → ℤ → Bool
eq_ℤ (pos a) (pos b) = a == b
eq_ℤ (negsuc a) (negsuc b) = a == b
eq_ℤ _ _ = false

abbrev pub lt_ℤ : ℤ → ℤ → Bool
lt_ℤ a b = ltb (pos_part a + neg_part b) (pos_part b + neg_part a)

-- The values of an `i64`.
abbrev pub IsI64 : ℤ → Type 0
IsI64 (pos n) = n < 2 ^ 63
IsI64 (negsuc n) = n < 2 ^ 63

pub wrap64-IsI64 : (z : ℤ) → IsI64 (wrap64 z)
unfolding wrap64
wrap64-IsI64 (pos n) = ground arith
wrap64-IsI64 (negsuc n) = ground arith

pub wrap64_id : (z : ℤ) → IsI64 z → wrap64 z ≡ z
unfolding wrap64
wrap64_id (pos n) h = ground arith
wrap64_id (negsuc n) h = ground arith

-- Every operation stays within 64 bits, and gives the true sum or difference where that fits.
pub wrapping_add_lem :
    (a b : ℤ) → IsI64 (wrapping_add a b) × (IsI64 (a +ℤ b) → wrapping_add a b ≡ a +ℤ b)
unfolding wrapping_add
wrapping_add_lem a b = (wrap64-IsI64 (a +ℤ b), wrap64_id (a +ℤ b))
