-- ===== src/Codegen/Framed/Sound.antt =====
-- Sound states of the code generator of gen2-dcc-rs/src/codegen.rs, and what keeps them.
use dacelo.Base.{ℕ, ◌+◌, ◌≤◌, ◌≡◌, refl, arith, List}
use dacelo.Codegen.{
  Codegen, Gen, GenPanic, Method, ok, panic, ◌>>=◌, continue, pass_on, emit, return, fail,
}
use dacelo.Codegen.Framed.{AllFramed-AllFit, Good, Ended, Ensures, gave, failed, ended}
use dacelo.Codegen.Functions.{weight}
use dacelo.Encoder
use dacelo.Encoder.{Asm, CodeBuf}
use dacelo.Encoder.Invariant.{AllFit, assemble-IsWellFormed}
use dacelo.Encoder.Program.{Op, assemble}
use dacelo.Encoder.WellFormed.{IsWellFormed}

-- A good state with a well-formed buffer.
pub record Sound (g : Codegen) : Type 0 where
  pub good : Good g
  pub well_formed : IsWellFormed g.asm

-- A panic, or a sound state with at most `w` more for later.
pub data Made {A : Type 0} (w : ℕ) (g : Codegen) : Gen (A × Codegen) → Type 0 where
  made :
      {a : A} {h : Codegen}
      → Sound h
      → weight h.pending ≤ w + weight g.pending
      → Made w g (ok (a, h))
  broken : {p : GenPanic} → Made w g (panic p)

pub data Makes {A : Type 0} (w : ℕ) (g : Codegen) : Method A → Type 0 where
  makes : {m : Method A} → Made w g (m g) → Makes w g m

pub of_makes : {A : Type 0} {w : ℕ} {g : Codegen} {m : Method A} → Makes w g m → Made w g (m g)
of_makes (makes e) = e

module _ {A B : Type 0} where
  continue-Made :
      (v w u : ℕ) (g : Codegen) (r : Gen (A × Codegen)) (f : A → Method B)
      → v + w ≤ u
      → Made v g r
      → ((a : A) (h : Codegen) → Sound h → Makes w h (f a))
      → Made u g (continue r f)
  unfolding continue
  continue-Made v w u g _ f l (made {a} {h} sound more) k = onto (f a h) (of_makes (k a h sound))
    where
      onto : (r : Gen (B × Codegen)) → Made w h r → Made u g r
      onto _ (made sound' more') = made sound' (omega arith)
      onto _ broken = broken
  continue-Made v w u g _ f l broken k = broken

  pub chain :
      {v w u : ℕ} {m : Method A} {f : A → Method B} {g : Codegen}
      → v + w ≤ u
      → Makes v g m
      → ((a : A) (h : Codegen) → Sound h → Makes w h (f a))
      → Makes u g (m >>= f)
  chain {v} {w} {u} {m} {f} {g} l e k =
      makes {m = m >>= f} (unfold ◌>>=◌ in continue-Made v w u g (m g) f l (of_makes e) k)

  pub onward :
      {u : ℕ} {m : Method A} {f : A → Method B} {g : Codegen}
      → Makes 0 g m
      → ((a : A) (h : Codegen) → Sound h → Makes u h (f a))
      → Makes u g (m >>= f)
  onward e k = chain (omega arith) e k

-- A method inside a function keeps the state sound.
Ended-Made :
    {A : Type 0} {w : ℕ} {Q : A → Codegen → Type 0} {g : Codegen} (r : Gen (A × Codegen))
    → Sound g
    → Ended w Q g r
    → Made w g r
Ended-Made {g} _ s (gave {h} good grows q) =
    made
      (record {
        good = good;
        well_formed =
            let code = grows.emitted in
            assemble-IsWellFormed code.ops g.asm (AllFramed-AllFit _ code.ops code.framed)
              s.well_formed code.run;
      })
      grows.weight_le
Ended-Made _ s failed = broken

pub inside :
    {A : Type 0} {w : ℕ} {Q : A → Codegen → Type 0} {g : Codegen} {m : Method A}
    → Sound g
    → (Good g → Ensures w Q g m)
    → Makes w g m
inside {g} {m} s e = makes (Ended-Made (m g) s (ended (e s.good)))

pass_on-Made :
    (ops : List Op) {g : Codegen} (r : Asm CodeBuf)
    → assemble ops g.asm ≡ r
    → Sound g
    → AllFit ops
    → Made 0 g (pass_on g r)
unfolding pass_on
pass_on-Made ops {g} (Encoder.ok c) e s fit =
    made
      (record {
        good = record {
          scope_below = s.good.scope_below;
          labels_fit = s.good.labels_fit;
          aligned = s.good.aligned;
        };
        well_formed = assemble-IsWellFormed ops g.asm fit s.well_formed e;
      })
      (omega arith)
pass_on-Made ops (Encoder.panic p) e s fit = broken

pub emit-Makes : (ops : List Op) {g : Codegen} → Sound g → AllFit ops → Makes 0 g (emit ops)
unfolding emit
emit-Makes ops {g} s fit = makes (pass_on-Made ops (assemble ops g.asm) refl s fit)

pub idle : (w : ℕ) {g : Codegen} → Sound g → Makes w g (return tt)
unfolding return
idle w s = makes (made s (omega arith))

pub idle_with : {A : Type 0} (a : A) {w : ℕ} {g : Codegen} → Sound g → Makes w g (return a)
unfolding return
idle_with a s = makes (made s (omega arith))

pub panics : {A : Type 0} {w : ℕ} (p : GenPanic) {g : Codegen} → Makes {A = A} w g (fail p)
unfolding fail
panics p = makes broken
