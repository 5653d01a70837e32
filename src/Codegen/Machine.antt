-- ===== src/Codegen/Machine.antt =====
-- A machine for the operations that gen2-dcc-rs/src/codegen.rs emits in straight lines, by what the
-- architecture says of them: registers of 64 bits, the words of a frame by slots, a memory by byte
-- addresses, and the two numbers that were compared last. Register 31 reads as zero as an operand of
-- a sum of registers.
pub mod Closures
pub mod Ints
pub mod Steps
pub mod Sides
pub mod Exprs
pub mod Agrees
use dacelo.Base.{
  ℕ, ◌+◌, ◌-◌, ◌*◌, ◌/◌, ◌%◌, ◌^◌, ◌≡◌, refl, Bool, true, false, not, List, [], ◌∷◌, ◌++◌, Option,
  none, some, if◌then◌else◌, ltb, leb, ◌==◌,
}
use dacelo.Base.Int.{ℤ, pos, negsuc, as_signed, as_unsigned, shr_ℤ}
use dacelo.Encoder.{Cond, xzr}
use dacelo.Encoder.Program.{Op}

pub record Machine : Type 0 where
  pub regs : ℕ → ℕ
  pub slots : ℕ → ℕ
  pub memory : ℕ → ℕ
  pub compared : ℕ × ℕ

-- A function with one value changed.
abbrev pub update : (ℕ → ℕ) → ℕ → ℕ → ℕ → ℕ
update f i v j = if i == j then v else f j

abbrev pub set_reg : ℕ → ℕ → Machine → Machine
set_reg r v m = record m { regs = update m.regs r v }

-- An operand of a sum of registers.
abbrev pub operand : ℕ → Machine → ℕ
operand r m = if r == xzr then 0 else m.regs r

-- The signed order of two words: adding 2^63 turns it into the order of the numbers.
abbrev pub signed_ltb : ℕ → ℕ → Bool
signed_ltb a b = ltb ((a + 2 ^ 63) % 2 ^ 64) ((b + 2 ^ 63) % 2 ^ 64)

-- The arithmetic shift of a word to the right.
abbrev pub asr : ℕ → ℕ → ℕ
asr a k = if ltb a (2 ^ 63) then a / 2 ^ k else 2 ^ 64 - 1 - (2 ^ 64 - 1 - a) / 2 ^ k

abbrev pub holds : Cond → ℕ → ℕ → Option Bool
holds Cond.lt a b = some (signed_ltb a b)
holds Cond.gt a b = some (signed_ltb b a)
holds Cond.le a b = some (not (signed_ltb b a))
holds Cond.ge a b = some (not (signed_ltb a b))
holds _ a b = none

abbrev pub set_flag : ℕ → Option Bool → Machine → Option Machine
set_flag r none m = none
set_flag r (some true) m = some (set_reg r 1 m)
set_flag r (some false) m = some (set_reg r 0 m)

-- One operation; the others are not read here.
unfoldable pub exec : Op → Machine → Option Machine
exec (Op.ldr_slot r s) m = some (set_reg r (m.slots s) m)
exec (Op.str_slot r s) m = some (record m { slots = update m.slots s (m.regs r) })
exec (Op.ldr_off r b (pos off)) m = some (set_reg r (m.memory (m.regs b + off)) m)
exec (Op.str_off r b (pos off)) m =
    some (record m { memory = update m.memory (m.regs b + off) (m.regs r) })
exec (Op.mov d a) m = some (set_reg d (m.regs a) m)
exec (Op.load_const_i64 r z) m = some (set_reg r (as_unsigned 64 z) m)
exec (Op.add_reg d a b k) m = some (set_reg d ((operand a m + operand b m * 2 ^ k) % 2 ^ 64) m)
exec (Op.sub_reg d a b) m = some (set_reg d ((operand a m + 2 ^ 64 - operand b m) % 2 ^ 64) m)
exec (Op.add_imm d a i) m = some (set_reg d ((m.regs a + i) % 2 ^ 64) m)
exec (Op.sub_imm d a i) m = some (set_reg d ((m.regs a + 2 ^ 64 - i) % 2 ^ 64) m)
exec (Op.asr_imm d a k) m = some (set_reg d (asr (m.regs a) k) m)
exec (Op.mul d a b) m = some (set_reg d (m.regs a * m.regs b % 2 ^ 64) m)
exec (Op.cmp_reg a b) m = some (record m { compared = (m.regs a, m.regs b) })
exec (Op.cset d cond) m = set_flag d (holds cond m.compared.0 m.compared.1) m
exec _ m = none

abbrev pub and_then : Option Machine → (Machine → Option Machine) → Option Machine
and_then none k = none
and_then (some m) k = k m

unfoldable pub run : List Op → Machine → Option Machine
unfolding exec
run [] m = some m
run (o ∷ os) m = and_then (exec o m) (run os)
