-- ===== src/Codegen/Machine/Ints.antt =====
-- The arithmetic of tagged integers of gen2-dcc-rs/src/codegen.rs on the machine.
use dacelo.Base.{
  ℕ, ◌+◌, ◌*◌, ◌%◌, ◌^◌, ◌<◌, ◌≡◌, refl, arith, inl, inr, Bool, true, false, Option, none, some,
  ltb, Bool-cases, ap,
}
use dacelo.Base.Bits.{◌or◌, or-eq_add}
use dacelo.Base.Int.{ℤ, as_unsigned}
use dacelo.Codegen.{x0, tagged_bool, tagged_int}
use dacelo.Codegen.Arith.{retag, add_ints, sub_ints, mul_ints, compare_ints}
use dacelo.Codegen.Machine.{Machine, and_then, set_flag, run, exec, asr, holds}
use dacelo.Encoder.{Cond}

-- The word that stands for the integer with the word `a`.
abbrev pub tagged : ℕ → ℕ
tagged a = a * 2 ^ 2 % 2 ^ 64 + 1

-- What register 0 holds in the end.
abbrev pub result : Option Machine → Option ℕ
result none = none
result (some m) = some (m.regs x0)

-- With two tagged integers in slots, the code of `+` leaves their tagged sum, modulo 2^64, in x0.
pub add_ints-run :
    (m : Machine) (la rb a b : ℕ)
    → m.slots la ≡ tagged a
    → m.slots rb ≡ tagged b
    → result (run (add_ints la rb) m) ≡ some (tagged (a + b))
unfolding run exec add_ints
add_ints-run m la rb a b p q = rw (p, q) (ap (λ (n : ℕ). some n) (omega arith))

-- With two tagged integers in slots, the code of `-` leaves the tagged word that gives the first
-- integer when the second one is added, modulo 2^64, in x0.
pub sub_ints-run :
    (m : Machine) (la rb a b : ℕ)
    → m.slots la ≡ tagged (a + b)
    → m.slots rb ≡ tagged b
    → result (run (sub_ints la rb) m) ≡ some (tagged a)
unfolding run exec sub_ints
sub_ints-run m la rb a b p q = rw (p, q) (ap (λ (n : ℕ). some n) (omega arith))

-- An integer of 62 bits, as a word of 64: what the tagged words keep.
abbrev pub IsSmall : ℕ → Type 0
IsSmall a = (a + 2 ^ 61) % 2 ^ 64 < 2 ^ 62

asr-tagged : (a : ℕ) → a < 2 ^ 64 → IsSmall a → asr (tagged a) 2 ≡ a
asr-tagged a h s = elim (Bool-cases (ltb (tagged a) (2 ^ 63))) [
  | inl low ↦ ground arith
  | inr high ↦ ground arith
]

-- With two tagged integers of 62 bits in slots, the code of `*` leaves their tagged product, modulo
-- 2^64, in x0.
pub mul_ints-run :
    (m : Machine) (la rb a b : ℕ)
    → a < 2 ^ 64
    → b < 2 ^ 64
    → IsSmall a
    → IsSmall b
    → m.slots la ≡ tagged a
    → m.slots rb ≡ tagged b
    → result (run (mul_ints la rb) m) ≡ some (tagged (a * b))
unfolding run exec mul_ints
mul_ints-run m la rb a b ha hb sa sb p q =
    rw (p, q, asr-tagged a ha sa, asr-tagged b hb sb) (ap (λ (n : ℕ). some n) (omega arith))

flagged :
    (t : Bool) (m : Machine)
    → result (and_then (set_flag x0 (some t) m) (run (retag 3))) ≡ some (tagged_bool t)
unfolding run exec
flagged true m = refl
flagged false m = refl

-- With two tagged integers of 62 bits in slots, the code of a comparison leaves the tagged Boolean
-- of the signed comparison in x0.
pub compare_ints-run :
    (cond : Cond) (t : Bool) (m : Machine) (la rb a b : ℕ)
    → a < 2 ^ 64
    → b < 2 ^ 64
    → IsSmall a
    → IsSmall b
    → m.slots la ≡ tagged a
    → m.slots rb ≡ tagged b
    → holds cond a b ≡ some t
    → result (run (compare_ints cond la rb) m) ≡ some (tagged_bool t)
unfolding run exec compare_ints
compare_ints-run cond t m la rb a b ha hb sa sb p q h =
    rw (p, q, asr-tagged a ha sa, asr-tagged b hb sb, h) (flagged t _)

-- The literal of an integer is its tagged word.
pub as_unsigned-tagged_int : (z : ℤ) → as_unsigned 64 (tagged_int z) ≡ tagged (as_unsigned 64 z)
unfolding tagged_int
as_unsigned-tagged_int z =
    let w = as_unsigned 64 z * 2 ^ 2 % 2 ^ 64 in
    let e : (w or 1) ≡ w + 1 = or-eq_add 2 w 1 (omega arith) (omega arith) in
    rw e (elim (Bool-cases (ltb (2 * (w + 1)) (2 ^ 64))) [
      | inl low ↦ rw low (omega arith)
      | inr high ↦ rw high (ground arith)
    ])
