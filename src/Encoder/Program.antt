-- ===== src/Encoder/Program.antt =====
-- Sequences of the operations of gen2-dcc-rs/src/encoder.rs: `perform` is one call of a method,
-- `assemble` a sequence of them from left to right.
use dacelo.Base.{ℕ, List, [], ◌∷◌}
use dacelo.Base.Int.{ℤ}
use dacelo.Base.Text.{Text}
use dacelo.Encoder
use dacelo.Encoder.{Asm, ok, ◌>>=◌, CodeBuf, Cond}
use dacelo.Encoder.Instructions

pub data Op : Type 0 where
  new_label : Op
  sub_sp_reg add_sp_reg stp_fp_lr ldp_fp_lr_ret ret mov_sp_fp : Op
  b bl str_xzr_post8 blr br sub_sp_frame add_sp_frame : ℕ → Op
  load_const_u64 mov cmp_reg cbz cbnz cmp_imm str_slot ldr_slot patch_movz_imm16 : ℕ → ℕ → Op
  movz movk sub_reg mul sdiv asr_imm orr_reg add_imm sub_imm : ℕ → ℕ → ℕ → Op
  add_reg msub : ℕ → ℕ → ℕ → ℕ → Op
  bind_label : ℕ → Op
  b_cond : Cond → ℕ → Op
  cset : ℕ → Cond → Op
  load_const_i64 : ℕ → ℤ → Op
  ldr_off str_off : ℕ → ℕ → ℤ → Op
  ldr_lit_extern : ℕ → Text → Op
  ldr_lit_label : ℕ → ℕ → Op

unfoldable pub perform : Op → CodeBuf → Asm CodeBuf
perform Op.new_label c = ok (Encoder.new_label c).1
perform (Op.b x) c = ok (Instructions.b x c)
perform (Op.bl x) c = ok (Instructions.bl x c)
perform (Op.movz x y z) c = ok (Instructions.movz x y z c)
perform (Op.movk x y z) c = ok (Instructions.movk x y z c)
perform (Op.load_const_u64 x y) c = ok (Instructions.load_const_u64 x y c)
perform (Op.mov x y) c = ok (Instructions.mov x y c)
perform (Op.add_reg x y z t) c = ok (Instructions.add_reg x y z t c)
perform (Op.cmp_reg x y) c = ok (Instructions.cmp_reg x y c)
perform (Op.sub_reg x y z) c = ok (Instructions.sub_reg x y z c)
perform (Op.mul x y z) c = ok (Instructions.mul x y z c)
perform (Op.msub x y z t) c = ok (Instructions.msub x y z t c)
perform (Op.sdiv x y z) c = ok (Instructions.sdiv x y z c)
perform (Op.asr_imm x y z) c = ok (Instructions.asr_imm x y z c)
perform (Op.orr_reg x y z) c = ok (Instructions.orr_reg x y z c)
perform (Op.str_xzr_post8 x) c = ok (Instructions.str_xzr_post8 x c)
perform Op.sub_sp_reg c = ok (Instructions.sub_sp_reg c)
perform Op.add_sp_reg c = ok (Instructions.add_sp_reg c)
perform Op.stp_fp_lr c = ok (Instructions.stp_fp_lr c)
perform Op.ldp_fp_lr_ret c = ok (Instructions.ldp_fp_lr_ret c)
perform (Op.blr x) c = ok (Instructions.blr x c)
perform (Op.br x) c = ok (Instructions.br x c)
perform Op.ret c = ok (Instructions.ret c)
perform (Op.cbz x y) c = ok (Instructions.cbz x y c)
perform (Op.cbnz x y) c = ok (Instructions.cbnz x y c)
perform (Op.add_imm x y z) c = Instructions.add_imm x y z c
perform (Op.sub_imm x y z) c = Instructions.sub_imm x y z c
perform (Op.cmp_imm x y) c = Instructions.cmp_imm x y c
perform (Op.str_slot x y) c = Instructions.str_slot x y c
perform (Op.ldr_slot x y) c = Instructions.ldr_slot x y c
perform (Op.patch_movz_imm16 x y) c = Instructions.patch_movz_imm16 x y c
perform (Op.sub_sp_frame x) c = Instructions.sub_sp_frame x c
perform (Op.add_sp_frame x) c = Instructions.add_sp_frame x c
perform Op.mov_sp_fp c = Instructions.mov_sp_fp c
perform (Op.bind_label l) c = Encoder.bind_label l c
perform (Op.b_cond k l) c = ok (Instructions.b_cond k l c)
perform (Op.cset x k) c = ok (Instructions.cset x k c)
perform (Op.load_const_i64 x v) c = ok (Instructions.load_const_i64 x v c)
perform (Op.ldr_off x y o) c = Instructions.ldr_off x y o c
perform (Op.str_off x y o) c = Instructions.str_off x y o c
perform (Op.ldr_lit_extern x s) c = ok (Encoder.ldr_lit_extern x s c)
perform (Op.ldr_lit_label x l) c = ok (Encoder.ldr_lit_label x l c)

unfoldable pub assemble : List Op → CodeBuf → Asm CodeBuf
unfolding perform
assemble [] c = ok c
assemble (o ∷ os) c = do c₁ ← perform o c; assemble os c₁
