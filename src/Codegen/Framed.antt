-- ===== src/Codegen/Framed.antt =====
-- What the methods of the code generator of gen2-dcc-rs/src/codegen.rs do to its state: the calls
-- of the encoder that they make, the slots that these use, and the functions that they leave for
-- later.
pub mod Calls
pub mod Shared
pub mod Variables
pub mod Closures
pub mod Drain
pub mod Bytes
pub mod Patterns
pub mod Parts
pub mod Exprs
pub mod Sound
pub mod Functions
pub mod Program
pub mod Tables
pub mod Object
pub mod Symbols
pub mod New
use dacelo.Base.{
  ℕ, zero, suc, ◌+◌, ◌%◌, ◌^◌, ◌≤◌, ◌<◌, ◌≡◌, refl, ◌∙◌, arith, ap, List, [], ◌∷◌, ◌++◌, length,
}
use dacelo.Base.Text.{Text}
use dacelo.Codegen.{Method, Codegen, PendingFn, GenPanic, Gen, ok, panic, ◌>>=◌, continue}
use dacelo.Codegen.Functions.{weight}
use dacelo.Encoder
use dacelo.Encoder.{CodeBuf, Asm, bind-eq-ok}
use dacelo.Encoder.Program.{Op, perform, assemble}
use dacelo.Encoder.Invariant.{Fits, AllFit}

-- A slot below `n`, a label that fits in 32 bits, and nothing that moves the stack pointer, changes
-- code that is there, or returns.
abbrev pub Framed : ℕ → Op → Type 0
Framed n (Op.str_slot r s) = s < n
Framed n (Op.ldr_slot r s) = s < n
Framed n (Op.ldr_lit_label r l) = l < 2 ^ 32
Framed n (Op.patch_movz_imm16 at imm) = ⊥
Framed n Op.sub_sp_reg = ⊥
Framed n Op.add_sp_reg = ⊥
Framed n Op.stp_fp_lr = ⊥
Framed n Op.ldp_fp_lr_ret = ⊥
Framed n Op.mov_sp_fp = ⊥
Framed n Op.ret = ⊥
Framed n (Op.br r) = ⊥
Framed n (Op.sub_sp_frame i) = ⊥
Framed n (Op.add_sp_frame i) = ⊥
Framed n _ = Unit

abbrev pub AllFramed : ℕ → List Op → Type 0
AllFramed n [] = Unit
AllFramed n (o ∷ os) = Framed n o × AllFramed n os

Framed-Fits : (n : ℕ) (o : Op) → Framed n o → Fits o
Framed-Fits n (Op.ldr_lit_label r l) h = h
Framed-Fits n _ h = tt

pub AllFramed-AllFit : (n : ℕ) (os : List Op) → AllFramed n os → AllFit os
AllFramed-AllFit n [] h = tt
AllFramed-AllFit n (o ∷ os) h = (Framed-Fits n o h.0, AllFramed-AllFit n os h.1)

Framed-le : (n m : ℕ) (o : Op) → n ≤ m → Framed n o → Framed m o
Framed-le n m (Op.str_slot r s) l h = omega arith
Framed-le n m (Op.ldr_slot r s) l h = omega arith
Framed-le n m _ l h = h

pub AllFramed-le : (n m : ℕ) (os : List Op) → n ≤ m → AllFramed n os → AllFramed m os
AllFramed-le n m [] l h = tt
AllFramed-le n m (o ∷ os) l h = (Framed-le n m o l h.0, AllFramed-le n m os l h.1)

pub AllFramed-append :
    (n : ℕ) (os ps : List Op) → AllFramed n os → AllFramed n ps → AllFramed n (os ++ ps)
AllFramed-append n [] ps h k = k
AllFramed-append n (o ∷ os) ps h k = (h.0, AllFramed-append n os ps h.1 k)

pub assemble-append :
    (os ps : List Op) (c : CodeBuf) {c₁ : CodeBuf}
    → assemble os c ≡ Encoder.ok c₁
    → assemble (os ++ ps) c ≡ assemble ps c₁
unfolding assemble
assemble-append [] ps c e = ap (assemble ps) (Encoder.ok-injective e)
assemble-append (o ∷ os) ps c e =
    let (c₂, p, q) = bind-eq-ok (perform o c) (assemble os) e in rw p (assemble-append os ps c₂ q)

-- The second buffer is the first one after calls that are framed by `n`.
pub record Emitted (n : ℕ) (a b : CodeBuf) : Type 0 where
  pub ops : List Op
  pub run : assemble ops a ≡ Encoder.ok b
  pub framed : AllFramed n ops

pub Emitted-refl : (n : ℕ) (a : CodeBuf) → Emitted n a a
unfolding assemble
Emitted-refl n a = record { ops = []; run = refl; framed = tt }

Emitted-trans : {n m : ℕ} {a b c : CodeBuf} → n ≤ m → Emitted n a b → Emitted m b c → Emitted m a c
Emitted-trans {n} {m} {a} l x y = record {
  ops = x.ops ++ y.ops;
  run = assemble-append x.ops y.ops a x.run ∙ y.run;
  framed = AllFramed-append m x.ops y.ops (AllFramed-le n m x.ops l x.framed) y.framed;
}

abbrev pub AllBelow : ℕ → List (Text × ℕ) → Type 0
AllBelow n [] = Unit
AllBelow n ((name, s) ∷ scope) = (s < n) × AllBelow n scope

abbrev pub LabelsFit : List ℕ → Type 0
LabelsFit [] = Unit
LabelsFit (l ∷ ls) = (l < 2 ^ 32) × LabelsFit ls

abbrev pub PendingFit : List PendingFn → Type 0
PendingFit [] = Unit
PendingFit (pf ∷ pfs) = LabelsFit pf.labels × PendingFit pfs

-- The locals are in slots that are in use, the labels of the functions left fit in 32 bits, and the
-- data ends at a multiple of 8.
pub record Good (g : Codegen) : Type 0 where
  pub scope_below : AllBelow g.frame.nslots g.frame.scope
  pub labels_fit : PendingFit g.pending
  pub aligned : length g.data_bytes % 8 ≡ 0

-- What a method does that is called inside a function and leaves at most `w` of code for later.
pub record Grows (w : ℕ) (g h : Codegen) : Type 0 where
  pub emitted : Emitted h.frame.nslots g.asm h.asm
  pub slots_le : g.frame.nslots ≤ h.frame.nslots
  pub weight_le : weight h.pending ≤ w + weight g.pending
  pub patches_kept : h.frame_patches ≡ g.frame_patches

pub Grows-trans :
    {v w u : ℕ} {g h k : Codegen} → v + w ≤ u → Grows v g h → Grows w h k → Grows u g k
Grows-trans l x y = record {
  emitted = Emitted-trans y.slots_le x.emitted y.emitted;
  slots_le = omega (arith, x.slots_le, y.slots_le);
  weight_le = omega (arith, x.weight_le, y.weight_le);
  patches_kept = y.patches_kept ∙ x.patches_kept;
}

more_grown : {v w : ℕ} {g h : Codegen} → v ≤ w → Grows v g h → Grows w g h
more_grown l x = record {
  emitted = x.emitted;
  slots_le = x.slots_le;
  weight_le = omega (arith, x.weight_le);
  patches_kept = x.patches_kept;
}

-- A method from the state `g` on panics, or it ends in a good state with a result of `Q`.
pub data Ended {A : Type 0} (w : ℕ) (Q : A → Codegen → Type 0) (g : Codegen)
    : Gen (A × Codegen) → Type 0 where
  gave : {a : A} {h : Codegen} → Good h → Grows w g h → Q a h → Ended w Q g (ok (a, h))
  failed : {p : GenPanic} → Ended w Q g (panic p)

pub data Ensures {A : Type 0} (w : ℕ) (Q : A → Codegen → Type 0) (g : Codegen)
    : Method A → Type 0 where
  ensures : {m : Method A} → Ended w Q g (m g) → Ensures w Q g m

pub ended :
    {A : Type 0} {w : ℕ} {Q : A → Codegen → Type 0} {g : Codegen} {m : Method A}
    → Ensures w Q g m
    → Ended w Q g (m g)
ended (ensures e) = e

abbrev pub Any : {A : Type 0} → A → Codegen → Type 0
Any a h = Unit

module _ {A B : Type 0} {P : A → Codegen → Type 0} {Q : B → Codegen → Type 0} where
  continue-Ended :
      (v w u : ℕ) (g : Codegen) (r : Gen (A × Codegen)) (f : A → Method B)
      → v + w ≤ u
      → Ended v P g r
      → ((a : A) (h : Codegen) → Good h → Grows v g h → P a h → Ensures w Q h (f a))
      → Ended u Q g (continue r f)
  unfolding continue
  continue-Ended v w u g _ f l (gave {a} {h} good grows p) k =
      onto (f a h) (ended (k a h good grows p))
    where
      onto : (r : Gen (B × Codegen)) → Ended w Q h r → Ended u Q g r
      onto _ (gave good' grows' q) = gave good' (Grows-trans l grows grows') q
      onto _ failed = failed
  continue-Ended v w u g _ f l failed k = failed

  -- One call and what follows it, which take `v` and `w`.
  pub spend :
      {v w u : ℕ} {m : Method A} {f : A → Method B} {g : Codegen}
      → v + w ≤ u
      → Ensures v P g m
      → ((a : A) (h : Codegen) → Good h → Grows v g h → P a h → Ensures w Q h (f a))
      → Ensures u Q g (m >>= f)
  spend {v} {w} {u} {m} {f} {g} l e k =
      ensures {m = m >>= f} (unfold ◌>>=◌ in continue-Ended v w u g (m g) f l (ended e) k)

  -- The same for a call that leaves nothing for later.
  pub step :
      {u : ℕ} {m : Method A} {f : A → Method B} {g : Codegen}
      → Ensures 0 P g m
      → ((a : A) (h : Codegen) → Good h → Grows 0 g h → P a h → Ensures u Q h (f a))
      → Ensures u Q g (m >>= f)
  step e k = spend (omega arith) e k

weakened :
    {A : Type 0} {w : ℕ} {P Q : A → Codegen → Type 0} {g : Codegen} (r : Gen (A × Codegen))
    → ((a : A) (h : Codegen) → P a h → Q a h)
    → Ended w P g r
    → Ended w Q g r
weakened _ k (gave good grows p) = gave good grows (k _ _ p)
weakened _ k failed = failed

pub weaken :
    {A : Type 0} {w : ℕ} {P Q : A → Codegen → Type 0} {g : Codegen} {m : Method A}
    → ((a : A) (h : Codegen) → P a h → Q a h)
    → Ensures w P g m
    → Ensures w Q g m
weaken k (ensures e) = ensures (weakened _ k e)

loosened :
    {A : Type 0} {v w : ℕ} {Q : A → Codegen → Type 0} {g : Codegen} (r : Gen (A × Codegen))
    → v ≤ w
    → Ended v Q g r
    → Ended w Q g r
loosened _ l (gave {h} good grows q) = gave good (more_grown l grows) q
loosened _ l failed = failed

-- A larger bound on what is left for later.
pub more_later :
    {A : Type 0} {v w : ℕ} {Q : A → Codegen → Type 0} {g : Codegen} {m : Method A}
    → v ≤ w
    → Ensures v Q g m
    → Ensures w Q g m
more_later l (ensures e) = ensures (loosened _ l e)

-- A slot in use stays in use.
pub kept : {w s : ℕ} {g h : Codegen} → Grows w g h → s < g.frame.nslots → s < h.frame.nslots
kept x l = omega (arith, x.slots_le)

-- A change of the data and of the counters and tables alone.
pub aside :
    {A : Type 0} {Q : A → Codegen → Type 0} {g h : Codegen} (a : A)
    → Good g
    → h.asm ≡ g.asm
    → h.frame ≡ g.frame
    → h.pending ≡ g.pending
    → h.frame_patches ≡ g.frame_patches
    → length h.data_bytes % 8 ≡ 0
    → Q a h
    → Ended 0 Q g (ok (a, h))
aside {g} a good same_asm same_frame same_pending same_patches aligned q =
    gave
      (record {
        scope_below = rw same_frame good.scope_below;
        labels_fit = rw same_pending good.labels_fit;
        aligned = aligned;
      })
      (record {
        emitted = rw same_asm (Emitted-refl _ g.asm);
        slots_le = rw same_frame (omega arith);
        weight_le = rw same_pending (omega arith);
        patches_kept = same_patches;
      })
      q
