-- ===== src/Codegen/Framed/Drain.antt =====
-- The loop `drain_pending` of gen2-dcc-rs/src/codegen.rs.
use dacelo.Base.{ℕ, zero, suc, ◌+◌, ◌<◌, ◌≡◌, refl, arith, List, [], ◌∷◌}
use mathlib.Core.Path.{subst}
use dacelo.Codegen.{Codegen, Gen, GenPanic, Method, PendingFn, ok, panic, ◌>>=◌, continue, return}
use dacelo.Codegen.Framed.{PendingFit}
use dacelo.Codegen.Framed.Sound.{Sound, Made, made, broken, of_makes}
use dacelo.Codegen.Framed.Functions.{emit_fn_levels-Makes}
use dacelo.Codegen.Functions.{
  weight, expr_size, set_pending, emit_fn_levels, drain_step, drain, drain_pending,
}

-- The state without the function that is taken from those left.
taken :
    (pf : PendingFn) (pfs : List PendingFn) {g : Codegen}
    → Sound g
    → g.pending ≡ pf ∷ pfs
    → Sound (record g { pending = pfs })
taken pf pfs s e = record {
  good = record {
    scope_below = s.good.scope_below;
    labels_fit = (subst PendingFit e s.good.labels_fit).1;
    aligned = s.good.aligned;
  };
  well_formed = s.well_formed;
}

-- How a state comes to `h`: by compiling the first function that is left, and so on, those included
-- that are left for later on the way, until none is left.
pub data Drains (h : Codegen) : Codegen → Type 0 where
  none_left : h.pending ≡ [] → Drains h h
  compiles :
      {g k : Codegen} {pf : PendingFn} {pfs : List PendingFn}
      → g.pending ≡ pf ∷ pfs
      → emit_fn_levels pf (record g { pending = pfs }) ≡ ok (tt, k)
      → Drains h k
      → Drains h g

-- A panic, or a sound state to which `g` comes so.
pub data Drained (g : Codegen) : Gen (Unit {0} × Codegen) → Type 0 where
  drained : {h : Codegen} → Sound h → Drains h g → Drained g (ok (tt, h))
  stopped : {p : GenPanic} → Drained g (panic p)

Drained-compiles :
    {g k : Codegen} {pf : PendingFn} {pfs : List PendingFn} (r : Gen (Unit {0} × Codegen))
    → g.pending ≡ pf ∷ pfs
    → emit_fn_levels pf (record g { pending = pfs }) ≡ ok (tt, k)
    → Drained k r
    → Drained g r
Drained-compiles _ e c (drained s d) = drained s (compiles e c d)
Drained-compiles _ e c stopped = stopped

-- What `rest` does after the function `pf` is compiled.
after_function :
    (fuel w : ℕ) (pf : PendingFn) (pfs : List PendingFn) {g : Codegen}
    (r : Gen (Unit {0} × Codegen)) (rest : Method (Unit {0}))
    → g.pending ≡ pf ∷ pfs
    → emit_fn_levels pf (record g { pending = pfs }) ≡ r
    → Made w (record g { pending = pfs }) r
    → w + weight pfs < fuel
    → ((h : Codegen) → Sound h → weight h.pending < fuel → Drained h (rest h))
    → Drained g (continue r (λ _. rest))
unfolding continue
after_function fuel w pf pfs _ rest e c (made {h} sound more) l k =
    Drained-compiles (rest h) e c (k h sound (omega arith))
after_function fuel w pf pfs _ rest e c broken l k = stopped

step-Drained :
    (fuel : ℕ) (pfs : List PendingFn) (rest : Method (Unit {0})) (g : Codegen)
    → g.pending ≡ pfs
    → Sound g
    → weight pfs < suc fuel
    → ((h : Codegen) → Sound h → weight h.pending < fuel → Drained h (rest h))
    → Drained g (drain_step pfs rest g)
unfolding drain_step return
step-Drained fuel [] rest g e s l k = drained s (none_left e)
step-Drained fuel (pf ∷ pfs) rest g e s l k =
    let labels_fit = (subst PendingFit e s.good.labels_fit).0 in
    let compiled = of_makes (emit_fn_levels-Makes pf labels_fit (taken pf pfs s e)) in
    unfold ◌>>=◌ in
    unfold set_pending in
    unfold continue in
    after_function fuel (expr_size pf.body) pf pfs _ rest e refl compiled (omega (arith, l)) k

drain-Drained :
    (fuel : ℕ) (g : Codegen) → Sound g → weight g.pending < fuel → Drained g (drain fuel g)
unfolding drain
drain-Drained zero g s l = elim l [ ]
drain-Drained (suc fuel) g s l =
    step-Drained fuel g.pending (drain fuel) g refl s l (λ h t m. drain-Drained fuel h t m)

-- From a sound state, `drain_pending` panics, or it has passed every function that was left, and every
-- one that was left for later on the way, to `emit_fn_levels`, which compiled it, and it ends in a
-- sound state with none left. It does not run out of fuel.
pub drain_pending-Drained : (g : Codegen) → Sound g → Drained g (drain_pending g)
unfolding drain_pending
drain_pending-Drained g s = drain-Drained (suc (weight g.pending)) g s (omega arith)
