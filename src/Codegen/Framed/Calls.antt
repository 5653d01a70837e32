-- ===== src/Codegen/Framed/Calls.antt =====
-- The calls of the encoder and of the runtime that the methods of gen2-dcc-rs/src/codegen.rs share.
use dacelo.Base.{
  ℕ, zero, suc, ◌+◌, ◌^◌, ◌<◌, ◌≡◌, refl, arith, inl, inr, Bool, true, false, ◌&&◌, List, [], ◌∷◌,
  Option, none, some, Bool-cases, ltb,
}
use dacelo.Base.Text.{Text}
use dacelo.Codegen.{
  Codegen, GenPanic, pass_on, emit, return, fail, read, expect, assert, next_u32, new_label,
  new_labels, set_label_sym, use_extern, call_rt, emit_gget, ctor, global, load_unit, is_member,
  unknown_ctor, unknown_global,
}
use dacelo.Infer.{get}
use dacelo.Codegen.Framed.{
  Framed, AllFramed, LabelsFit, Good, Ended, Ensures, gave, failed, ensures, ended, Any, step,
  aside,
}
use dacelo.Encoder
use dacelo.Encoder.{Asm}
use dacelo.Encoder.Program.{Op, perform, assemble}

-- The calls that `Framed` allows in every frame.
abbrev plain : Op → Bool
plain (Op.str_slot r s) = false
plain (Op.ldr_slot r s) = false
plain (Op.ldr_lit_label r l) = false
plain (Op.patch_movz_imm16 at imm) = false
plain Op.sub_sp_reg = false
plain Op.add_sp_reg = false
plain Op.stp_fp_lr = false
plain Op.ldp_fp_lr_ret = false
plain Op.mov_sp_fp = false
plain Op.ret = false
plain (Op.br r) = false
plain (Op.sub_sp_frame i) = false
plain (Op.add_sp_frame i) = false
plain _ = true

plain-Framed : (n : ℕ) (o : Op) → plain o ≡ true → Framed n o
plain-Framed n (Op.str_slot r s) h = cc
plain-Framed n (Op.ldr_slot r s) h = cc
plain-Framed n (Op.ldr_lit_label r l) h = cc
plain-Framed n (Op.patch_movz_imm16 at imm) h = cc
plain-Framed n Op.sub_sp_reg h = cc
plain-Framed n Op.add_sp_reg h = cc
plain-Framed n Op.stp_fp_lr h = cc
plain-Framed n Op.ldp_fp_lr_ret h = cc
plain-Framed n Op.mov_sp_fp h = cc
plain-Framed n Op.ret h = cc
plain-Framed n (Op.br r) h = cc
plain-Framed n (Op.sub_sp_frame i) h = cc
plain-Framed n (Op.add_sp_frame i) h = cc
plain-Framed n _ h = tt

abbrev pub all_plain : List Op → Bool
all_plain [] = true
all_plain (o ∷ os) = plain o && all_plain os

pub all_plain-AllFramed : (n : ℕ) (os : List Op) → all_plain os ≡ true → AllFramed n os
all_plain-AllFramed n [] h = tt
all_plain-AllFramed n (o ∷ os) h =
    (plain-Framed n o (ground (arith, h)), all_plain-AllFramed n os (ground (arith, h)))

module _ {A : Type 0} {Q : A → Codegen → Type 0} where
  pub return-Ensures : (a : A) {g : Codegen} → Good g → Q a g → Ensures 0 Q g (return a)
  unfolding return
  return-Ensures a v q = ensures (aside a v refl refl refl refl v.aligned q)

  pub fail-Ensures : {w : ℕ} (p : GenPanic) (g : Codegen) → Ensures w Q g (fail p)
  unfolding fail
  fail-Ensures p g = ensures failed

-- What is read is read of the state that it is returned with.
pub read-Ensures :
    {A : Type 0} (f : Codegen → A) {g : Codegen} → Good g → Ensures 0 (λ a h. a ≡ f h) g (read f)
unfolding read
read-Ensures f v = ensures (aside _ v refl refl refl refl v.aligned refl)

pub expect-Ensures :
    {A : Type 0} (p : GenPanic) (o : Option A) {g : Codegen}
    → Good g
    → Ensures 0 (λ a h. o ≡ some a) g (expect p o)
unfolding expect
expect-Ensures p none v = fail-Ensures p _
expect-Ensures p (some a) v = return-Ensures a v refl

pub assert-Ensures :
    (p : GenPanic) (b : Bool) {g : Codegen} → Good g → Ensures 0 (λ t h. b ≡ true) g (assert p b)
unfolding assert
assert-Ensures p false v = fail-Ensures p _
assert-Ensures p true v = return-Ensures tt v refl

pass_on-Ended :
    (ops : List Op) {g : Codegen} (r : Asm Encoder.CodeBuf)
    → assemble ops g.asm ≡ r
    → Good g
    → AllFramed g.frame.nslots ops
    → Ended 0 Any g (pass_on g r)
unfolding pass_on
pass_on-Ended ops (Encoder.ok c) e v framed =
    gave (record { scope_below = v.scope_below; labels_fit = v.labels_fit; aligned = v.aligned })
      (record {
        emitted = record { ops = ops; run = e; framed = framed };
        slots_le = omega arith;
        weight_le = omega arith;
        patches_kept = refl;
      })
      tt
pass_on-Ended ops (Encoder.panic p) e v framed = failed

pub emit-Ensures :
    (ops : List Op) {g : Codegen}
    → Good g
    → AllFramed g.frame.nslots ops
    → Ensures 0 Any g (emit ops)
unfolding emit
emit-Ensures ops {g} v framed = ensures (pass_on-Ended ops (assemble ops g.asm) refl v framed)

pub next_u32-Ensures :
    (n : ℕ) {g : Codegen} → Good g → Ensures 0 (λ a h. (a ≡ n + 1) × (h ≡ g)) g (next_u32 n)
unfolding next_u32
next_u32-Ensures n v = elim (Bool-cases (ltb (n + 1) (2 ^ 32))) [
  | inl small ↦ rw small (return-Ensures _ v (refl, refl))
  | inr large ↦ rw large (fail-Ensures _ _)
]

new_label-lt : (c : Encoder.CodeBuf) → (Encoder.new_label c).0 < 2 ^ 32
unfolding Encoder.new_label
new_label-lt c = omega arith

run-new_label :
    (c : Encoder.CodeBuf) → assemble (Op.new_label ∷ []) c ≡ Encoder.ok (Encoder.new_label c).1
unfolding assemble perform
run-new_label c = refl

pub new_label-Ensures : {g : Codegen} → Good g → Ensures 0 (λ l h. l < 2 ^ 32) g new_label
unfolding new_label
new_label-Ensures {g} v = ensures (
    gave (record { scope_below = v.scope_below; labels_fit = v.labels_fit; aligned = v.aligned })
      (record {
        emitted = record { ops = Op.new_label ∷ []; run = run-new_label g.asm; framed = (tt, tt) };
        slots_le = omega arith;
        weight_le = omega arith;
        patches_kept = refl;
      })
      (new_label-lt g.asm))

pub new_labels-Ensures :
    (n : ℕ) {g : Codegen} → Good g → Ensures 0 (λ ls h. LabelsFit ls) g (new_labels n)
unfolding new_labels
new_labels-Ensures zero v = return-Ensures _ v tt
new_labels-Ensures (suc n) v = step (new_label-Ensures v) λ l g₁ v₁ _ fits.
    step (new_labels-Ensures n v₁) λ ls g₂ v₂ _ fit. return-Ensures _ v₂ (fits, fit)

pub set_label_sym-Ensures :
    (l : ℕ) (sym : Text) (b : Bool) {g : Codegen} → Good g → Ensures 0 Any g (set_label_sym l sym b)
unfolding set_label_sym
set_label_sym-Ensures l sym b v = ensures (aside tt v refl refl refl refl v.aligned tt)

pub use_extern-Ensures : (name : Text) {g : Codegen} → Good g → Ensures 0 Any g (use_extern name)
unfolding use_extern
use_extern-Ensures name {g} v = elim (Bool-cases (is_member name g.externs)) [
  | inl known ↦ ensures (rw known (aside tt v refl refl refl refl v.aligned tt))
  | inr unknown ↦ ensures (rw unknown (aside tt v refl refl refl refl v.aligned tt))
]

pub ctor-Ensures :
    (name : Text) {g : Codegen}
    → Good g
    → Ensures 0 (λ e h. get g.ctors name ≡ some e) g (ctor name)
unfolding ctor
ctor-Ensures name {g} v = ensures (ended (expect-Ensures (unknown_ctor name) (get g.ctors name) v))

pub global-Ensures :
    (name : Text) {g : Codegen}
    → Good g
    → Ensures 0 (λ e h. get g.globals name ≡ some e) g (global name)
unfolding global
global-Ensures name {g} v =
    ensures (ended (expect-Ensures (unknown_global name) (get g.globals name) v))

-- Calls that use no slot.
pub emit_plain :
    (ops : List Op) {g : Codegen} → Good g → all_plain ops ≡ true → Ensures 0 Any g (emit ops)
emit_plain ops v h = emit-Ensures ops v (all_plain-AllFramed _ ops h)

pub call_rt-Ensures : (name : Text) {g : Codegen} → Good g → Ensures 0 Any g (call_rt name)
unfolding call_rt
call_rt-Ensures name v = step (use_extern-Ensures _ v) λ _ g₁ v₁ _ _. emit_plain _ v₁ refl

pub emit_gget-Ensures : (slot : ℕ) {g : Codegen} → Good g → Ensures 0 Any g (emit_gget slot)
unfolding emit_gget
emit_gget-Ensures slot v = step (emit_plain _ v refl) λ _ g₁ v₁ _ _. call_rt-Ensures _ v₁

pub load_unit-Ensures : (reg : ℕ) {g : Codegen} → Good g → Ensures 0 Any g (load_unit reg)
unfolding load_unit
load_unit-Ensures reg v = step (use_extern-Ensures _ v) λ _ g₁ v₁ _ _. emit_plain _ v₁ refl
