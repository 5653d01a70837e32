-- ===== src/Codegen/Arith.antt =====
-- gen2-dcc-rs/src/codegen.rs, `int_arith`: the arithmetic of tagged integers in the slots `la` and
-- `rb`.
use dacelo.Base.{ℕ, List, [], ◌∷◌}
use dacelo.Base.Text.{codes}
use dacelo.Codegen.{◌>>◌, Method, fail, emit, call_rt, x0, x1, r10, r11, not_arithmetic}
use dacelo.Encoder.{Cond, r9, xzr}
use dacelo.Encoder.Program.{Op}
use dacelo.Syntax.{BinOp}

-- `x0 << 2` with a tag added.
abbrev pub retag : ℕ → List Op
retag tag = Op.add_reg x0 xzr x0 2 ∷ Op.add_imm x0 x0 tag ∷ []

unfoldable pub compare_ints : Cond → ℕ → ℕ → List Op
compare_ints cond la rb =
    Op.ldr_slot x0 la
    ∷ Op.asr_imm x0 x0 2
    ∷ Op.ldr_slot r9 rb
    ∷ Op.asr_imm r9 r9 2
    ∷ Op.cmp_reg x0 r9
    ∷ Op.cset x0 cond
    ∷ retag 3

unfoldable pub add_ints : ℕ → ℕ → List Op
add_ints la rb =
    Op.ldr_slot x0 la ∷ Op.ldr_slot x1 rb ∷ Op.add_reg x0 x0 x1 0 ∷ Op.sub_imm x0 x0 1 ∷ []

unfoldable pub sub_ints : ℕ → ℕ → List Op
sub_ints la rb =
    Op.ldr_slot x0 la ∷ Op.ldr_slot x1 rb ∷ Op.sub_reg x0 x0 x1 ∷ Op.add_imm x0 x0 1 ∷ []

unfoldable pub mul_ints : ℕ → ℕ → List Op
mul_ints la rb =
    Op.ldr_slot x0 la
    ∷ Op.asr_imm x0 x0 2
    ∷ Op.ldr_slot x1 rb
    ∷ Op.asr_imm x1 x1 2
    ∷ Op.mul x0 x0 x1
    ∷ retag 1

-- The divisor, unboxed and not zero, to r10, and the unboxed dividend to x0.
unfoldable pub load_division : ℕ → ℕ → Method (Unit {0})
unfolding emit call_rt
load_division la rb = do
  emit (Op.ldr_slot x0 rb ∷ [])
  call_rt (codes "dc_div_check")
  emit (Op.mov r10 x0 ∷ Op.ldr_slot x0 la ∷ Op.asr_imm x0 x0 2 ∷ [])

unfoldable pub int_arith : BinOp → ℕ → ℕ → Method (Unit {0})
unfolding emit compare_ints add_ints sub_ints mul_ints load_division fail
int_arith BinOp.lt la rb = emit (compare_ints Cond.lt la rb)
int_arith BinOp.gt la rb = emit (compare_ints Cond.gt la rb)
int_arith BinOp.le la rb = emit (compare_ints Cond.le la rb)
int_arith BinOp.ge la rb = emit (compare_ints Cond.ge la rb)
int_arith BinOp.add la rb = emit (add_ints la rb)
int_arith BinOp.sub la rb = emit (sub_ints la rb)
int_arith BinOp.mul la rb = emit (mul_ints la rb)
int_arith BinOp.div la rb = do load_division la rb; emit (Op.sdiv x0 x0 r10 ∷ retag 1)
int_arith BinOp.rem la rb = do
  load_division la rb
  emit (Op.sdiv r11 x0 r10 ∷ Op.msub x0 r10 r11 x0 ∷ retag 1)
int_arith _ la rb = fail not_arithmetic
