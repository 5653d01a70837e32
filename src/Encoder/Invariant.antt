-- ===== src/Encoder/Invariant.antt =====
-- Whatever sequence of operations builds a buffer of gen2-dcc-rs/src/encoder.rs, the buffer is well
-- formed.
use dacelo.Base.{
  ℕ, ◌/◌, ◌%◌, ◌^◌, ◌<◌, ◌≡◌, inl, inr, refl, true, false, List, [], ◌∷◌, ◌==◌, Bool, ◌&&◌,
  Bool-cases, ltb, leb,
}
use mathlib.Core.Path.{subst}
use dacelo.Base.Bits.{◌or◌, shl32}
use dacelo.Encoder
use dacelo.Encoder.{
  Asm, ok, panic, bind-eq-ok, ok-injective, ◌>>=◌, ◌>>◌, assert, Panic, immediate_too_large,
  bad_frame_size, CodeBuf, new, push4, patch32, ldr_lit_extern, ldr_lit_label, r9,
}
use dacelo.Encoder.Instructions.{
  b, movz, movk, movk_piece, load_const_u64, load_const_i64, mov, add_reg, with_imm12, add_imm,
  sub_imm, cmp_imm, cmp_reg, sub_reg, mul, msub, sdiv, asr_imm, cset, orr_reg, mem_op, ldr_off,
  str_off, str_xzr_post8, slot_op, str_slot, ldr_slot, sub_sp_reg, add_sp_reg, patch_movz_imm16,
  stp_fp_lr, ldp_fp_lr_ret, sub_sp_frame, add_sp_frame, mov_sp_fp, blr, br, ret, bl, b_cond, cbz,
  cbnz,
}
use dacelo.Encoder.Program.{Op, perform, assemble}
use dacelo.Encoder.Patch.{length-patched, patch32-eq-ok}
use dacelo.Encoder.WellFormed.{
  IsWellFormed, push4-IsWellFormed, emit_fixup-IsWellFormed, new_label-IsWellFormed,
  bind_label-IsWellFormed,
}
use dacelo.Encoder.Slots.{emit_adrp_ldr_got-IsWellFormed}

-- The label of a load is a `u32`.
abbrev pub Fits : Op → Type 0
Fits (Op.ldr_lit_label x l) = l < 2 ^ 32
Fits _ = Unit

abbrev pub AllFit : List Op → Type 0
AllFit [] = Unit
AllFit (o ∷ os) = Fits o × AllFit os

-- Well formed, unless the operation panicked.
data WellFormedResult : Asm CodeBuf → Type 0 where
  built : {c : CodeBuf} → IsWellFormed c → WellFormedResult (ok c)
  failed : {p : Panic} → WellFormedResult (panic p)

result_of : {r : Asm CodeBuf} {c : CodeBuf} → WellFormedResult r → r ≡ ok c → IsWellFormed c
result_of (built v) e = subst IsWellFormed (ok-injective e) v
result_of failed e = cc

well_formed : (r : Asm CodeBuf) → ((c : CodeBuf) → r ≡ ok c → IsWellFormed c) → WellFormedResult r
well_formed (ok c) h = built (h c refl)
well_formed (panic p) h = failed

asserted :
    (t : Bool) (p : Panic) (r : Asm CodeBuf)
    → WellFormedResult r
    → WellFormedResult (assert t p >> r)
asserted true p r h = h
asserted false p r h = failed

movz-IsWellFormed : (rd imm16 : ℕ) (c : CodeBuf) → IsWellFormed c → IsWellFormed (movz rd imm16 0 c)
unfolding movz
movz-IsWellFormed rd imm16 c = push4-IsWellFormed _ c

movk_piece-IsWellFormed :
    (rd piece hw : ℕ) (c : CodeBuf) → IsWellFormed c → IsWellFormed (movk_piece rd piece hw c)
unfolding movk_piece movk
movk_piece-IsWellFormed rd piece hw c v = elim (Bool-cases (piece == 0)) [
  | inl z ↦ rw z v
  | inr nz ↦ rw nz (push4-IsWellFormed _ c v)
]

load_const_u64-IsWellFormed :
    (rd v : ℕ) (c : CodeBuf) → IsWellFormed c → IsWellFormed (load_const_u64 rd v c)
unfolding load_const_u64
load_const_u64-IsWellFormed rd v c w = elim (Bool-cases (leb v 0xFFFF)) [
  | inl small ↦ rw small (movz-IsWellFormed rd (v % 2 ^ 16) c w)
  | inr large ↦ rw large (
      movk_piece-IsWellFormed rd (v / 2 ^ 48) 3 _ (
        movk_piece-IsWellFormed rd (v / 2 ^ 32 % 2 ^ 16) 2 _ (
          movk_piece-IsWellFormed rd (v / 2 ^ 16 % 2 ^ 16) 1 _
            (movz-IsWellFormed rd (v % 2 ^ 16) c w))))
]

patch_movz_imm16-WellFormedResult :
    (at imm16 : ℕ) (c : CodeBuf) → IsWellFormed c → WellFormedResult (patch_movz_imm16 at imm16 c)
unfolding patch_movz_imm16
patch_movz_imm16-WellFormedResult at imm16 c v =
    let w = 0xD2800000 or shl32 imm16 5 or r9 in
    elim (patch32-eq-ok at w c.code) [
      | inl (e, room) ↦
          let size = length-patched at w c.code room in
          rw e (
            built (record {
              code_aligned = rw size v.code_aligned;
              fixups_ordered = rw size v.fixups_ordered;
              labels_aligned = v.labels_aligned;
              keys_known = v.keys_known;
              slots_agree = v.slots_agree;
            }))
      | inr e ↦ rw e failed
    ]

with_imm12-WellFormedResult :
    (imm12 word : ℕ) (c : CodeBuf) → IsWellFormed c → WellFormedResult (with_imm12 imm12 word c)
unfolding with_imm12
with_imm12-WellFormedResult imm12 word c v =
    asserted (ltb imm12 4096) immediate_too_large _ (built (push4-IsWellFormed word c v))

perform-WellFormedResult :
    (o : Op) (c : CodeBuf) → Fits o → IsWellFormed c → WellFormedResult (perform o c)
unfolding perform b bl b_cond cbz cbnz movz movk load_const_i64 mov add_reg add_imm sub_imm cmp_imm
    cmp_reg sub_reg mul msub sdiv asr_imm cset orr_reg mem_op ldr_off str_off str_xzr_post8 slot_op
    str_slot ldr_slot sub_sp_reg add_sp_reg stp_fp_lr ldp_fp_lr_ret sub_sp_frame add_sp_frame
    mov_sp_fp blr br ret ldr_lit_extern ldr_lit_label
perform-WellFormedResult Op.new_label c h v = built (new_label-IsWellFormed c v)
perform-WellFormedResult (Op.b x) c h v = built (emit_fixup-IsWellFormed _ _ _ c v)
perform-WellFormedResult (Op.bl x) c h v = built (emit_fixup-IsWellFormed _ _ _ c v)
perform-WellFormedResult (Op.movz x y z) c h v = built (push4-IsWellFormed _ c v)
perform-WellFormedResult (Op.movk x y z) c h v = built (push4-IsWellFormed _ c v)
perform-WellFormedResult (Op.load_const_u64 x y) c h v = built (load_const_u64-IsWellFormed x y c v)
perform-WellFormedResult (Op.mov x y) c h v = built (push4-IsWellFormed _ c v)
perform-WellFormedResult (Op.add_reg x y z t) c h v = built (push4-IsWellFormed _ c v)
perform-WellFormedResult (Op.cmp_reg x y) c h v = built (push4-IsWellFormed _ c v)
perform-WellFormedResult (Op.sub_reg x y z) c h v = built (push4-IsWellFormed _ c v)
perform-WellFormedResult (Op.mul x y z) c h v = built (push4-IsWellFormed _ c v)
perform-WellFormedResult (Op.msub x y z t) c h v = built (push4-IsWellFormed _ c v)
perform-WellFormedResult (Op.sdiv x y z) c h v = built (push4-IsWellFormed _ c v)
perform-WellFormedResult (Op.asr_imm x y z) c h v = built (push4-IsWellFormed _ c v)
perform-WellFormedResult (Op.orr_reg x y z) c h v = built (push4-IsWellFormed _ c v)
perform-WellFormedResult (Op.str_xzr_post8 x) c h v = built (push4-IsWellFormed _ c v)
perform-WellFormedResult Op.sub_sp_reg c h v = built (push4-IsWellFormed _ c v)
perform-WellFormedResult Op.add_sp_reg c h v = built (push4-IsWellFormed _ c v)
perform-WellFormedResult Op.stp_fp_lr c h v = built (push4-IsWellFormed _ c v)
perform-WellFormedResult Op.ldp_fp_lr_ret c h v =
    built (push4-IsWellFormed _ _ (push4-IsWellFormed _ c v))
perform-WellFormedResult (Op.blr x) c h v = built (push4-IsWellFormed _ c v)
perform-WellFormedResult (Op.br x) c h v = built (push4-IsWellFormed _ c v)
perform-WellFormedResult Op.ret c h v = built (push4-IsWellFormed _ c v)
perform-WellFormedResult (Op.cbz x y) c h v = built (emit_fixup-IsWellFormed _ _ _ c v)
perform-WellFormedResult (Op.cbnz x y) c h v = built (emit_fixup-IsWellFormed _ _ _ c v)
perform-WellFormedResult (Op.add_imm x y z) c h v = with_imm12-WellFormedResult _ _ c v
perform-WellFormedResult (Op.sub_imm x y z) c h v = with_imm12-WellFormedResult _ _ c v
perform-WellFormedResult (Op.cmp_imm x y) c h v = with_imm12-WellFormedResult _ _ c v
perform-WellFormedResult (Op.str_slot x y) c h v = asserted _ _ _ (built (push4-IsWellFormed _ c v))
perform-WellFormedResult (Op.ldr_slot x y) c h v = asserted _ _ _ (built (push4-IsWellFormed _ c v))
perform-WellFormedResult (Op.patch_movz_imm16 x y) c h v = patch_movz_imm16-WellFormedResult x y c v
perform-WellFormedResult (Op.sub_sp_frame x) c h v =
    asserted (x % 16 == 0 && ltb x 4096) bad_frame_size _ (with_imm12-WellFormedResult _ _ c v)
perform-WellFormedResult (Op.add_sp_frame x) c h v =
    asserted (x % 16 == 0 && ltb x 4096) bad_frame_size _ (with_imm12-WellFormedResult _ _ c v)
perform-WellFormedResult Op.mov_sp_fp c h v = with_imm12-WellFormedResult _ _ c v
perform-WellFormedResult (Op.b_cond k l) c h v = built (emit_fixup-IsWellFormed _ _ _ c v)
perform-WellFormedResult (Op.cset x k) c h v = built (push4-IsWellFormed _ c v)
perform-WellFormedResult (Op.load_const_i64 x i) c h v = built (load_const_u64-IsWellFormed x _ c v)
perform-WellFormedResult (Op.ldr_off x y o) c h v =
    asserted _ _ _ (built (push4-IsWellFormed _ c v))
perform-WellFormedResult (Op.str_off x y o) c h v =
    asserted _ _ _ (built (push4-IsWellFormed _ c v))
perform-WellFormedResult (Op.ldr_lit_extern x s) c h v =
    built (emit_adrp_ldr_got-IsWellFormed x _ c (inl (s, refl)) v)
perform-WellFormedResult (Op.ldr_lit_label x l) c h v =
    built (emit_adrp_ldr_got-IsWellFormed x _ c (inr (l, h, refl)) v)
perform-WellFormedResult (Op.bind_label l) c h v =
    well_formed (Encoder.bind_label l c) (λ c' e. bind_label-IsWellFormed l c v e)

-- A sequence of operations whose labels fit in 32 bits keeps a buffer well-formed, if it does not
-- panic.
pub assemble-IsWellFormed :
    (os : List Op) (c : CodeBuf) {c' : CodeBuf}
    → AllFit os
    → IsWellFormed c
    → assemble os c ≡ ok c'
    → IsWellFormed c'
unfolding assemble
assemble-IsWellFormed [] c h v e = subst IsWellFormed (ok-injective e) v
assemble-IsWellFormed (o ∷ os) c h v e =
    let (c₁, p, q) = bind-eq-ok (perform o c) (assemble os) e in
    assemble-IsWellFormed os c₁ h.1 (result_of (perform-WellFormedResult o c h.0 v) p) q
