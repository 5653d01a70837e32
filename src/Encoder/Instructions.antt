-- ===== src/Encoder/Instructions.antt =====
-- gen2-dcc-rs/src/encoder.rs: one function for each instruction, named as there. Each appends the
-- instruction's word; `imm12` and offsets are checked by assertions.
use dacelo.Base.{
  ℕ, ◌*◌, ◌/◌, ◌%◌, ◌^◌, Bool, false, ◌&&◌, ◌∷◌, [], ◌++◌, ◌==◌, if◌then◌else◌, ltb, leb,
}
use dacelo.Base.Bits.{◌or◌, shl32}
use dacelo.Base.Int.{ℤ, pos, negsuc, as_unsigned}
use dacelo.Encoder.{
  Asm, ok, ◌>>=◌, ◌>>◌, assert, immediate_too_large, bad_offset, frame_too_deep, bad_frame_size,
  Cond, cond_code, FixKind, Fixup, CodeBuf, here, push4, patch32, r9, r29_fp, r30_lr, rsp, xzr,
}
use Prim.Native.Nat.{bit_xor}

-- A pending branch: its fixup, and the word that `finish` patches.
unfoldable pub emit_fixup : FixKind → ℕ → ℕ → CodeBuf → CodeBuf
emit_fixup kind word label c =
    let fix : Fixup = record { pos = here c; label = label; kind = kind } in
    push4 word (record c { fixups = c.fixups ++ fix ∷ [] })

unfoldable pub b : ℕ → CodeBuf → CodeBuf
b label = emit_fixup FixKind.b 0x14000000 label

unfoldable pub bl : ℕ → CodeBuf → CodeBuf
bl label = emit_fixup FixKind.bl 0x94000000 label

unfoldable pub b_cond : Cond → ℕ → CodeBuf → CodeBuf
b_cond cond label = emit_fixup (FixKind.b_cond (cond_code cond)) 0x54000000 label

unfoldable pub cbz : ℕ → ℕ → CodeBuf → CodeBuf
cbz rt label = emit_fixup (FixKind.cbz rt) 0xB4000000 label

unfoldable pub cbnz : ℕ → ℕ → CodeBuf → CodeBuf
cbnz rt label = emit_fixup (FixKind.cbnz rt) 0xB5000000 label

-- Immediates

unfoldable pub movz : ℕ → ℕ → ℕ → CodeBuf → CodeBuf
movz rd imm16 hw = push4 (0xD2800000 or shl32 hw 21 or shl32 imm16 5 or rd)

unfoldable pub movk : ℕ → ℕ → ℕ → CodeBuf → CodeBuf
movk rd imm16 hw = push4 (0xF2800000 or shl32 hw 21 or shl32 imm16 5 or rd)

-- `movk` of one piece, left out where the piece is 0.
unfoldable pub movk_piece : ℕ → ℕ → ℕ → CodeBuf → CodeBuf
movk_piece rd piece hw c = if piece == 0 then c else movk rd (piece % 2 ^ 16) hw c

unfoldable pub load_const_u64 : ℕ → ℕ → CodeBuf → CodeBuf
load_const_u64 rd v c =
    if leb v 0xFFFF
    then movz rd (v % 2 ^ 16) 0 c
    else movk_piece rd (v / 2 ^ 48) 3 (
        movk_piece rd (v / 2 ^ 32 % 2 ^ 16) 2
          (movk_piece rd (v / 2 ^ 16 % 2 ^ 16) 1 (movz rd (v % 2 ^ 16) 0 c)))

unfoldable pub load_const_i64 : ℕ → ℤ → CodeBuf → CodeBuf
load_const_i64 rd v = load_const_u64 rd (as_unsigned 64 v)

-- Register operations

unfoldable pub mov : ℕ → ℕ → CodeBuf → CodeBuf
mov rd rn = push4 (0xAA000000 or shl32 rn 16 or shl32 xzr 5 or rd)

unfoldable pub add_reg : ℕ → ℕ → ℕ → ℕ → CodeBuf → CodeBuf
add_reg rd rn rm shift_amt =
    push4 (0x8B000000 or shl32 rm 16 or shl32 (shift_amt % 64) 10 or shl32 rn 5 or rd)

-- `assert!(imm12 < 4096)`, then the word.
unfoldable pub with_imm12 : ℕ → ℕ → CodeBuf → Asm CodeBuf
with_imm12 imm12 word c = do assert (ltb imm12 4096) immediate_too_large; ok (push4 word c)

unfoldable pub add_imm : ℕ → ℕ → ℕ → CodeBuf → Asm CodeBuf
add_imm rd rn imm12 = with_imm12 imm12 (0x91000000 or shl32 imm12 10 or shl32 rn 5 or rd)

unfoldable pub sub_imm : ℕ → ℕ → ℕ → CodeBuf → Asm CodeBuf
sub_imm rd rn imm12 = with_imm12 imm12 (0xD1000000 or shl32 imm12 10 or shl32 rn 5 or rd)

unfoldable pub cmp_imm : ℕ → ℕ → CodeBuf → Asm CodeBuf
cmp_imm rn imm12 = with_imm12 imm12 (0xF1000000 or shl32 imm12 10 or shl32 rn 5 or xzr)

unfoldable pub cmp_reg : ℕ → ℕ → CodeBuf → CodeBuf
cmp_reg rn rm = push4 (0xEB000000 or shl32 rm 16 or shl32 rn 5 or xzr)

unfoldable pub sub_reg : ℕ → ℕ → ℕ → CodeBuf → CodeBuf
sub_reg rd rn rm = push4 (0xCB000000 or shl32 rm 16 or shl32 rn 5 or rd)

unfoldable pub mul : ℕ → ℕ → ℕ → CodeBuf → CodeBuf
mul rd rn rm = push4 (0x9B007C00 or shl32 rm 16 or shl32 rn 5 or rd)

unfoldable pub msub : ℕ → ℕ → ℕ → ℕ → CodeBuf → CodeBuf
msub rd rn rm ra = push4 (0x9B008000 or shl32 rm 16 or shl32 ra 10 or shl32 rn 5 or rd)

unfoldable pub sdiv : ℕ → ℕ → ℕ → CodeBuf → CodeBuf
sdiv rd rn rm = push4 (0x9AC00C00 or shl32 rm 16 or shl32 rn 5 or rd)

unfoldable pub asr_imm : ℕ → ℕ → ℕ → CodeBuf → CodeBuf
asr_imm rd rn s = push4 (0x93400000 or shl32 (s % 64) 16 or shl32 63 10 or shl32 rn 5 or rd)

unfoldable pub invert : Cond → ℕ
invert cond = bit_xor (cond_code cond) 1

unfoldable pub cset : ℕ → Cond → CodeBuf → CodeBuf
cset rd cond = push4 (0x9A800400 or shl32 xzr 16 or shl32 (invert cond) 12 or shl32 xzr 5 or rd)

unfoldable pub orr_reg : ℕ → ℕ → ℕ → CodeBuf → CodeBuf
orr_reg rd rn rm = push4 (0xAA000000 or shl32 rm 16 or shl32 rn 5 or rd)

-- Memory

-- `byte_off >= 0 && byte_off % 8 == 0 && byte_off < 32760`
abbrev pub offset_fits : ℤ → Bool
offset_fits (pos n) = n % 8 == 0 && ltb n 32760
offset_fits (negsuc n) = false

-- `assert!` on the offset, then the word made of it.
unfoldable pub mem_op : ℕ → ℕ → ℕ → ℤ → CodeBuf → Asm CodeBuf
mem_op base xt xn byte_off c = do
  assert (offset_fits byte_off) bad_offset
  ok (push4 (base or shl32 (as_unsigned 32 byte_off / 8) 10 or shl32 xn 5 or xt) c)

unfoldable pub ldr_off : ℕ → ℕ → ℤ → CodeBuf → Asm CodeBuf
ldr_off = mem_op 0xF9400000

unfoldable pub str_off : ℕ → ℕ → ℤ → CodeBuf → Asm CodeBuf
str_off = mem_op 0xF9000000

unfoldable pub str_xzr_post8 : ℕ → CodeBuf → CodeBuf
str_xzr_post8 xn = push4 (0xF8000000 or shl32 8 12 or shl32 1 10 or shl32 xn 5 or 31)

-- `let off = 8 * slot as i64; assert!(off >= 0 && off < 32760)`, then the word.
unfoldable pub slot_op : ℕ → ℕ → ℕ → CodeBuf → Asm CodeBuf
slot_op base xt slot c = do
  assert (ltb (8 * slot) 32760) frame_too_deep
  ok (push4 (base or shl32 (8 * slot % 2 ^ 32 / 8) 10 or shl32 rsp 5 or xt) c)

unfoldable pub str_slot : ℕ → ℕ → CodeBuf → Asm CodeBuf
str_slot = slot_op 0xF9000000

unfoldable pub ldr_slot : ℕ → ℕ → CodeBuf → Asm CodeBuf
ldr_slot = slot_op 0xF9400000

unfoldable pub sub_sp_reg : CodeBuf → CodeBuf
sub_sp_reg = push4 0xCB2963FF

unfoldable pub add_sp_reg : CodeBuf → CodeBuf
add_sp_reg = push4 0x8B2963FF

unfoldable pub patch_movz_imm16 : ℕ → ℕ → CodeBuf → Asm CodeBuf
patch_movz_imm16 at imm16 c = do
  code ← patch32 at (0xD2800000 or shl32 imm16 5 or r9) c.code
  ok (record c { code = code })

unfoldable pub stp_fp_lr : CodeBuf → CodeBuf
stp_fp_lr = push4 (
    0xA9800000
    or shl32 (as_unsigned 32 (negsuc 1) % 2 ^ 7) 15
    or shl32 r30_lr 10
    or shl32 rsp 5
    or r29_fp)

unfoldable pub ret : CodeBuf → CodeBuf
ret = push4 0xD65F03C0

unfoldable pub ldp_fp_lr_ret : CodeBuf → CodeBuf
ldp_fp_lr_ret c =
    push4 0xD65F03C0
      (push4 (0xA8C00000 or shl32 2 15 or shl32 r30_lr 10 or shl32 rsp 5 or r29_fp) c)

unfoldable pub sub_sp_frame : ℕ → CodeBuf → Asm CodeBuf
sub_sp_frame bytes c = do
  assert (bytes % 16 == 0 && ltb bytes 4096) bad_frame_size
  sub_imm rsp rsp bytes c

unfoldable pub add_sp_frame : ℕ → CodeBuf → Asm CodeBuf
add_sp_frame bytes c = do
  assert (bytes % 16 == 0 && ltb bytes 4096) bad_frame_size
  add_imm rsp rsp bytes c

unfoldable pub mov_sp_fp : CodeBuf → Asm CodeBuf
mov_sp_fp = add_imm r29_fp rsp 0

unfoldable pub blr : ℕ → CodeBuf → CodeBuf
blr xn = push4 (0xD63F0000 or shl32 xn 5)

unfoldable pub br : ℕ → CodeBuf → CodeBuf
br xn = push4 (0xD61F0000 or shl32 xn 5)
