-- ===== src/Encoder/Constants.antt =====
-- `load_const_u64` of gen2-dcc-rs/src/encoder.rs, run on the machine of Encoder/Machine.
use dacelo.Base.{
  ℕ, ◌+◌, ◌-◌, ◌*◌, ◌/◌, ◌%◌, ◌^◌, ◌<◌, ◌≡◌, refl, ◌∙◌, arith, some, ◌==◌, if◌then◌else◌, ==_iff,
  Bool-cases, inl, inr, leb,
}
use dacelo.Base.Bits.{◌or◌, shl32, or-eq_add}
use dacelo.Encoder.{CodeBuf, push4}
use dacelo.Encoder.Machine.{step_word-fields, execute, writes, run, run-le32}
use dacelo.Encoder.Instructions.{movz, movk, movk_piece, load_const_u64}

-- An opcode with its `hw` field, an immediate and a register do not overlap.
fields_word :
    (top imm rd : ℕ)
    → top % 2 ^ 21 ≡ 0
    → imm < 2 ^ 16
    → rd < 32
    → (top or shl32 imm 5 or rd) ≡ top + imm * 32 + rd
fields_word top imm rd t i d =
    let shifted : shl32 imm 5 ≡ imm * 32 = omega arith in
    let first : (top or imm * 32) ≡ top + imm * 32 = or-eq_add 21 top (imm * 32) t (omega arith) in
    rw (shifted, first) (or-eq_add 5 (top + imm * 32) rd (omega arith) d)

-- The code of `c`, run with `x` in register `r`, leaves `y` there.
abbrev Leaves : ℕ → ℕ → CodeBuf → ℕ → Type 0
Leaves r x c y = run r c.code x ≡ some y

module _ (r x rd : ℕ) (d : rd < 32) where
  push4-Leaves :
      (op hw imm : ℕ) (c : CodeBuf) {y z : ℕ}
      → hw < 4
      → imm < 2 ^ 16
      → op < 2 ^ 9
      → Leaves r x c y
      → execute op (2 ^ (16 * hw)) imm (writes rd r) y ≡ some z
      → Leaves r x (push4 (op * 2 ^ 23 + hw * 2 ^ 21 + imm * 32 + rd) c) z
  unfolding push4
  push4-Leaves op hw imm c {y} h i o e f =
      run-le32 r (op * 2 ^ 23 + hw * 2 ^ 21 + imm * 32 + rd) x c.code (omega arith) e
      ∙ step_word-fields r y op hw imm rd h i d
      ∙ f

  movz-Leaves :
      (imm : ℕ) (c : CodeBuf) {y : ℕ}
      → imm < 2 ^ 16
      → Leaves r x c y
      → Leaves r x (movz rd imm 0 c) (if writes rd r then imm else y)
  unfolding movz
  movz-Leaves imm c {y} i e =
      rw (fields_word 0xD2800000 imm rd refl i d)
        (push4-Leaves 0b110100101 0 imm c (omega arith) i (omega arith) e (ground arith))

  -- A piece at bit `16 * hw` over the value `low` of the pieces below it.
  movk_piece-Leaves :
      (hw piece low full : ℕ) (c : CodeBuf) (y : ℕ)
      → hw < 4
      → (0xF2800000 or shl32 hw 21) ≡ 0b111100101 * 2 ^ 23 + hw * 2 ^ 21
      → (piece ≡ 0 → low ≡ full)
      → low - low / 2 ^ (16 * hw) % 2 ^ 16 * 2 ^ (16 * hw) + piece % 2 ^ 16 * 2 ^ (16 * hw) ≡ full
      → Leaves r x c (if writes rd r then low else y)
      → Leaves r x (movk_piece rd piece hw c) (if writes rd r then full else y)
  unfolding movk_piece movk
  movk_piece-Leaves hw piece low full c y h w skip put l = elim (Bool-cases (piece == 0)) [
    | inl z ↦ rw (z, ← skip ((==_iff piece 0).0 z)) l
    | inr nz ↦
        rw
          (
            nz,
            w,
            fields_word (0b111100101 * 2 ^ 23 + hw * 2 ^ 21) (piece % 2 ^ 16) rd (omega arith)
                (omega arith) d,
          )
          (push4-Leaves 0b111100101 hw (piece % 2 ^ 16) c h (omega arith) (omega arith) l
            (elim (Bool-cases (writes rd r)) [ inl t ↦ rw (t, put) | inr f ↦ rw f ]))
  ]

  -- Run after code that ran, the instructions that load a constant below 2^64 into a register below
  -- 31 leave the constant in it and leave every other register as it was; with 31, which is the zero
  -- register, they change no register.
  pub load_const_u64-run :
      (v : ℕ) (c : CodeBuf) (y : ℕ)
      → v < 2 ^ 64
      → run r c.code x ≡ some y
      → run r (load_const_u64 rd v c).code x ≡ some (if writes rd r then v else y)
  unfolding load_const_u64
  load_const_u64-run v c y h l = elim (Bool-cases (leb v 0xFFFF)) [
    | inl small ↦
        rw small
          (let low : v % 2 ^ 16 ≡ v = ground arith in rw low (movz-Leaves v c (ground arith) l))
    | inr large ↦ rw large (
        movk_piece-Leaves 3 (v / 2 ^ 48) (v % 2 ^ 48) v _ y (omega arith) refl (λ z. omega arith)
          (omega arith)
          (movk_piece-Leaves 2 (v / 2 ^ 32 % 2 ^ 16) (v % 2 ^ 32) (v % 2 ^ 48) _ y (omega arith)
            refl (λ z. omega arith) (omega arith)
            (movk_piece-Leaves 1 (v / 2 ^ 16 % 2 ^ 16) (v % 2 ^ 16) (v % 2 ^ 32) _ y (omega arith)
              refl (λ z. omega arith) (omega arith) (movz-Leaves (v % 2 ^ 16) c (omega arith) l))))
  ]
