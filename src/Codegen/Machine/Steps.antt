-- ===== src/Codegen/Machine/Steps.antt =====
-- What the methods of gen2-dcc-rs/src/codegen.rs emit, run on the machine.
use dacelo.Base.{
  ℕ, ◌+◌, ◌^◌, ◌≡◌, refl, sym, ap, ◌∙◌, inl, inr, List, [], ◌∷◌, ◌++◌, Option, none, some,
  Bool-cases, ltb,
}
use dacelo.Codegen.{
  Codegen, FnState, Gen, GenPanic, Method, ok, panic, ◌>>=◌, continue, pass_on, emit, return, fail,
  read, next_u32, x0,
}
use dacelo.Codegen.Framed.{assemble-append}
use dacelo.Codegen.Frames.{set_nslots, spill_slot}
use dacelo.Codegen.Patterns.{spill}
use dacelo.Codegen.Machine.{Machine, update, and_then, exec, run}
use dacelo.Encoder
use dacelo.Encoder.{Asm, CodeBuf}
use dacelo.Encoder.Program.{Op, assemble}
use mathlib.Core.Option.{some-injective}

and_then-eq-some :
    (r : Option Machine) (f : Machine → Option Machine) {k : Machine}
    → and_then r f ≡ some k
    → (l : Machine) × (r ≡ some l) × (f l ≡ some k)
and_then-eq-some none f e = absurd cc
and_then-eq-some (some l) f e = (l, refl, e)

run-append :
    (os ps : List Op) (m : Machine) {k : Machine} → run os m ≡ some k → run (os ++ ps) m ≡ run ps k
unfolding run
run-append [] ps m e = ap (run ps) (some-injective _ _ e)
run-append (o ∷ os) ps m e =
    let (l, p, q) = and_then-eq-some (exec o m) (run os) e in rw p (run-append os ps l q)

-- The calls of the encoder between two states, and their run between two machines.
pub record Ran (g h : Codegen) (m k : Machine) : Type 0 where
  pub ops : List Op
  pub emitted : assemble ops g.asm ≡ Encoder.ok h.asm
  pub runs : run ops m ≡ some k

Ran-trans : {g h j : Codegen} {m k l : Machine} → Ran g h m k → Ran h j k l → Ran g j m l
Ran-trans {g} {m} x y = record {
  ops = x.ops ++ y.ops;
  emitted = assemble-append x.ops y.ops g.asm x.emitted ∙ y.emitted;
  runs = run-append x.ops y.ops m x.runs ∙ y.runs;
}

-- A panic, or calls whose run ends in a machine of `Q`.
pub data Went {A : Type 0} (g : Codegen) (m : Machine) (Q : A → Codegen → Machine → Type 0)
    : Gen (A × Codegen) → Type 0 where
  went : {a : A} {h : Codegen} {k : Machine} → Ran g h m k → Q a h k → Went g m Q (ok (a, h))
  halted : {p : GenPanic} → Went g m Q (panic p)

pub data Goes {A : Type 0} (g : Codegen) (m : Machine) (Q : A → Codegen → Machine → Type 0)
    : Method A → Type 0 where
  goes : {μ : Method A} → Went g m Q (μ g) → Goes g m Q μ

pub of_goes :
    {A : Type 0} {g : Codegen} {m : Machine} {Q : A → Codegen → Machine → Type 0} {μ : Method A}
    → Goes g m Q μ
    → Went g m Q (μ g)
of_goes (goes e) = e

module _ {A B : Type 0} {P : A → Codegen → Machine → Type 0}
    {Q : B → Codegen → Machine → Type 0} where
  continue-Went :
      (g : Codegen) (m : Machine) (r : Gen (A × Codegen)) (f : A → Method B)
      → Went g m P r
      → ((a : A) (h : Codegen) (k : Machine) → P a h k → Goes h k Q (f a))
      → Went g m Q (continue r f)
  unfolding continue
  continue-Went g m _ f (went {a} {h} {k} ran p) c = onto (f a h) (of_goes (c a h k p))
    where
      onto : (r : Gen (B × Codegen)) → Went h k Q r → Went g m Q r
      onto _ (went ran' q) = went (Ran-trans ran ran') q
      onto _ halted = halted
  continue-Went g m _ f halted c = halted

  -- One call and what follows it.
  pub follow :
      {g : Codegen} {m : Machine} {μ : Method A} {f : A → Method B}
      → Goes g m P μ
      → ((a : A) (h : Codegen) (k : Machine) → P a h k → Goes h k Q (f a))
      → Goes g m Q (μ >>= f)
  follow {g} {m} {μ} {f} e c =
      goes {μ = μ >>= f} (unfold ◌>>=◌ in continue-Went g m (μ g) f (of_goes e) c)

weaken-Went :
    {A : Type 0} {P Q : A → Codegen → Machine → Type 0} {g : Codegen} {m : Machine}
    (r : Gen (A × Codegen))
    → ((a : A) (h : Codegen) (k : Machine) → P a h k → Q a h k)
    → Went g m P r
    → Went g m Q r
weaken-Went _ f (went ran p) = went ran (f _ _ _ p)
weaken-Went _ f halted = halted

pub weaker :
    {A : Type 0} {P Q : A → Codegen → Machine → Type 0} {g : Codegen} {m : Machine} {μ : Method A}
    → Goes g m P μ
    → ((a : A) (h : Codegen) (k : Machine) → P a h k → Q a h k)
    → Goes g m Q μ
weaker (goes e) f = goes (weaken-Went _ f e)

-- No call.
pub stays :
    {A : Type 0} {Q : A → Codegen → Machine → Type 0} {g h : Codegen} {m : Machine} (a : A)
    → h.asm ≡ g.asm
    → Q a h m
    → Went g m Q (ok (a, h))
unfolding run assemble
stays a same q = went (record { ops = []; emitted = ap Encoder.ok (sym same); runs = refl }) q

-- The frame is the same, and the machine is `k`.
pub record Only (g : Codegen) (k : Machine) (h : Codegen) (l : Machine) : Type 0 where
  pub same_frame : h.frame ≡ g.frame
  pub is_machine : l ≡ k

pass_on-Went :
    (ops : List Op) {g : Codegen} {m k : Machine} (r : Asm CodeBuf)
    → assemble ops g.asm ≡ r
    → run ops m ≡ some k
    → Went g m (λ (_ : Unit {0}). Only g k) (pass_on g r)
unfolding pass_on
pass_on-Went ops (Encoder.ok c) e runs =
    went (record { ops = ops; emitted = e; runs = runs })
      (record { same_frame = refl; is_machine = refl })
pass_on-Went ops (Encoder.panic p) e runs = halted

pub emit-Goes :
    (ops : List Op) {g : Codegen} {m k : Machine}
    → run ops m ≡ some k
    → Goes g m (λ _. Only g k) (emit ops)
unfolding emit
emit-Goes ops {g} runs = goes (pass_on-Went ops (assemble ops g.asm) refl runs)

-- The value of x0 is in a new slot.
pub record Spilled (g : Codegen) (m : Machine) (s : ℕ) (h : Codegen) (l : Machine) : Type 0 where
  pub is_slot : s ≡ g.frame.nslots
  pub one_more : h.frame.nslots ≡ g.frame.nslots + 1
  pub same_scope : h.frame.scope ≡ g.frame.scope
  pub is_machine : l ≡ record m { slots = update m.slots s (m.regs x0) }

counted :
    (g : Codegen) (m : Machine)
    → Went g m
        (λ s h l.
          (s ≡ g.frame.nslots)
          × (h.frame ≡ record { nslots = g.frame.nslots + 1; scope = g.frame.scope })
          × (l ≡ m))
        (spill_slot g)
unfolding spill_slot ◌>>=◌ continue read next_u32 return fail set_nslots
counted g m = elim (Bool-cases (ltb (g.frame.nslots + 1) (2 ^ 32))) [
  | inl small ↦ rw small (stays _ refl (refl, refl, refl))
  | inr large ↦ rw large halted
]

stored_in :
    (s : ℕ) (m : Machine)
    → run (Op.str_slot x0 s ∷ []) m ≡ some (record m { slots = update m.slots s (m.regs x0) })
unfolding run exec
stored_in s m = refl

pub return-Goes :
    {A : Type 0} {Q : A → Codegen → Machine → Type 0} {g : Codegen} {m : Machine} (a : A)
    → Q a g m
    → Goes g m Q (return a)
unfolding return
return-Goes a q = goes (stays a refl q)

pub spill-Goes : {g : Codegen} {m : Machine} → Goes g m (Spilled g m) (spill x0)
unfolding spill
spill-Goes {g} {m} = follow (goes {μ = spill_slot} (counted g m)) λ s h k (is, frame, same).
    follow (emit-Goes _ (stored_in s k)) λ _ h' k' only. return-Goes s (record {
      is_slot = is;
      one_more = ap (λ (f : FnState). f.nslots) (only.same_frame ∙ frame);
      same_scope = ap (λ (f : FnState). f.scope) (only.same_frame ∙ frame);
      is_machine =
          only.is_machine
          ∙ ap (λ (l : Machine). record l { slots = update l.slots s (l.regs x0) }) same;
    })
