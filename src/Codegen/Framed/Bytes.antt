-- ===== src/Codegen/Framed/Bytes.antt =====
-- The frame of a function of gen2-dcc-rs/src/codegen.rs: its size, and the code in it.
use dacelo.Base.{
  ℕ, ◌+◌, ◌*◌, ◌%◌, ◌^◌, ◌≤◌, ◌<◌, ◌≡◌, refl, arith, Bool, true, false, List, [], ◌∷◌, leb, leb→le,
  ap,
}
use mathlib.Core.Path.{subst}
use dacelo.Codegen.{
  Codegen, Gen, GenPanic, Method, ok, panic, ◌>>=◌, continue, pass_on, emit, assert, return, fail,
}
use dacelo.Codegen.Exprs.{expr}
use dacelo.Codegen.Framed.{Framed, AllFramed, Good, Grows, Ended, gave, failed, Any}
use dacelo.Codegen.Framed.Exprs.{expr_lem}
use dacelo.Codegen.Frames.{frame_bytes, fn_epilogue, pop_from, pop_patch}
use dacelo.Encoder
use dacelo.Encoder.{Asm, CodeBuf, r9}
use dacelo.Encoder.Program.{Op, assemble}
use dacelo.Syntax.{Expr}

-- A word in a slot lies inside a frame of `bytes` bytes.
abbrev pub InFrame : ℕ → Op → Type 0
InFrame bytes (Op.str_slot r s) = 8 * s + 8 ≤ bytes
InFrame bytes (Op.ldr_slot r s) = 8 * s + 8 ≤ bytes
InFrame bytes _ = Unit

abbrev pub AllInFrame : ℕ → List Op → Type 0
AllInFrame bytes [] = Unit
AllInFrame bytes (o ∷ os) = InFrame bytes o × AllInFrame bytes os

Framed-InFrame : (n : ℕ) (o : Op) → Framed n o → InFrame (frame_bytes n) o
unfolding frame_bytes
Framed-InFrame n (Op.str_slot r s) h = omega arith
Framed-InFrame n (Op.ldr_slot r s) h = omega arith
Framed-InFrame n _ h = tt

AllFramed-AllInFrame : (n : ℕ) (os : List Op) → AllFramed n os → AllInFrame (frame_bytes n) os
AllFramed-AllInFrame n [] h = tt
AllFramed-AllInFrame n (o ∷ os) h = (Framed-InFrame n o h.0, AllFramed-AllInFrame n os h.1)

-- The calls of the epilogue of a frame of `bytes` bytes whose size is patched in at `at`.
abbrev pub epilogue_ops : ℕ → ℕ → List Op
epilogue_ops at bytes =
    Op.patch_movz_imm16 at bytes
    ∷ Op.load_const_u64 r9 bytes
    ∷ Op.add_sp_reg
    ∷ Op.ldp_fp_lr_ret
    ∷ []

-- The epilogue of a frame of `n` slots: it panics, or the size is a multiple of 16 that fits in the
-- immediate of `movz`, and it goes where the last prologue left room for it.
pub record Closed (n : ℕ) (g h : Codegen) : Type 0 where
  pub at : ℕ
  pub others : List ℕ
  pub popped : g.frame_patches ≡ at ∷ others
  pub left : h.frame_patches ≡ others
  pub small : frame_bytes n < 2 ^ 16
  pub whole : frame_bytes n % 16 ≡ 0
  pub closes : assemble (epilogue_ops at (frame_bytes n)) g.asm ≡ Encoder.ok h.asm

pub data Epilogue (n : ℕ) (g : Codegen) : Gen (Unit {0} × Codegen) → Type 0 where
  closed : {h : Codegen} → Closed n g h → Epilogue n g (ok (tt, h))
  not_closed : {p : GenPanic} → Epilogue n g (panic p)

frame_bytes-whole : (n : ℕ) → frame_bytes n % 16 ≡ 0
unfolding frame_bytes
frame_bytes-whole n = omega arith

emitted-Epilogue :
    (n at : ℕ) (others : List ℕ) (g : Codegen) (r : Asm CodeBuf)
    → g.frame_patches ≡ at ∷ others
    → frame_bytes n ≤ 0xFFF0
    → assemble (epilogue_ops at (frame_bytes n)) g.asm ≡ r
    → Epilogue n g (pass_on (record g { frame_patches = others }) r)
unfolding pass_on
emitted-Epilogue n at others g (Encoder.ok c) e l r = closed (record {
  at = at;
  others = others;
  popped = e;
  left = refl;
  small = omega (arith, l);
  whole = frame_bytes-whole n;
  closes = r;
})
emitted-Epilogue n at others g (Encoder.panic p) e l r = not_closed

popped-Epilogue :
    (n : ℕ) (ats : List ℕ) (g : Codegen)
    → g.frame_patches ≡ ats
    → frame_bytes n ≤ 0xFFF0
    → Epilogue n g (continue (pop_from ats g) (λ at. emit (epilogue_ops at (frame_bytes n))))
unfolding pop_from fail continue emit
popped-Epilogue n [] g e l = not_closed
popped-Epilogue n (at ∷ others) g e l = emitted-Epilogue n at others g _ e l refl

checked-Epilogue :
    (n : ℕ) (g : Codegen) (b : Bool)
    → leb (frame_bytes n) 0xFFF0 ≡ b
    → Epilogue n g (
        (assert dacelo.Codegen.frame_too_large b >>= λ _.
        pop_patch >>= λ at. emit (epilogue_ops at (frame_bytes n)))
          g)
unfolding assert ◌>>=◌ continue return fail pop_patch
checked-Epilogue n g false e = not_closed
checked-Epilogue n g true e = popped-Epilogue n g.frame_patches g refl (leb→le _ _ e)

pub fn_epilogue-Epilogue : (n : ℕ) (g : Codegen) → Epilogue n g (fn_epilogue n g)
unfolding fn_epilogue
fn_epilogue-Epilogue n g = checked-Epilogue n g _ refl

abbrev state_or : Codegen → Gen (Unit {0} × Codegen) → Codegen
state_or d (ok (a, h)) = h
state_or d _ = d

abbrev ended_at : Codegen → Gen (Unit {0} × Codegen)
ended_at h = ok (tt, h)

same_state : {h k : Codegen} → ended_at h ≡ ended_at k → h ≡ k
same_state {h} e = ap (state_or h) e

grown :
    {w : ℕ} {g h : Codegen} (r : Gen (Unit {0} × Codegen))
    → r ≡ ok (tt, h)
    → Ended w Any g r
    → Grows w g h
grown {w} {g} _ e (gave {h} good grows q) = subst (Grows w g) (same_state e) grows
grown _ e failed = absurd cc

closing :
    {n : ℕ} {g k : Codegen} (r : Gen (Unit {0} × Codegen))
    → r ≡ ok (tt, k)
    → Epilogue n g r
    → Closed n g k
closing {n} {g} _ e (closed c) = subst (Closed n g) (same_state e) c
closing _ e not_closed = absurd cc

-- The code of a body and the epilogue behind it.
pub record BodyInFrame (g h k : Codegen) : Type 0 where
  pub ops : List Op
  pub body : assemble ops g.asm ≡ Encoder.ok h.asm
  pub in_frame : AllInFrame (frame_bytes h.frame.nslots) ops
  pub same_patches : h.frame_patches ≡ g.frame_patches
  pub epilogue : Closed h.frame.nslots h k

-- If the code of an expression and the epilogue for the slots that it counts do not panic, then
-- every word that the code loads from or stores in a slot lies inside the frame whose size the
-- epilogue patches into the prologue that was open before the expression; that size is a multiple
-- of 16 and fits in 16 bits.
pub expr-BodyInFrame :
    (e : Expr) (g h k : Codegen)
    → Good g
    → expr e g ≡ ok (tt, h)
    → fn_epilogue h.frame.nslots h ≡ ok (tt, k)
    → BodyInFrame g h k
expr-BodyInFrame e g h k good p q =
    let grows = grown (expr e g) p (expr_lem e g good) in
    let code = grows.emitted in
    record {
      ops = code.ops;
      body = code.run;
      in_frame = AllFramed-AllInFrame h.frame.nslots code.ops code.framed;
      same_patches = grows.patches_kept;
      epilogue = closing _ q (fn_epilogue-Epilogue h.frame.nslots h);
    }
