-- ===== src/Codegen/Framed/New.antt =====
-- `Codegen::new` of gen2-dcc-rs/src/codegen.rs.
use dacelo.Base.{ℕ, zero, suc, refl, List, [], ◌∷◌, Option, none, some}
use dacelo.Base.Text.{Text}
use dacelo.Codegen.{Codegen, Gen, GenPanic, ok, panic, builtins}
use dacelo.Codegen.Framed.Sound.{
  Sound, Made, made, broken, Makes, of_makes, onward, inside, idle_with, panics,
}
use dacelo.Codegen.Framed.Program.{alloc_global-Makes}
use dacelo.Codegen.Framed.Calls.{read-Ensures}
use dacelo.Codegen.Object.{
  number_ctors, alloc_globals, alloc_ctor, alloc_ctors, empty, allocated, new,
}
use dacelo.Encoder.WellFormed.{new-IsWellFormed}
use dacelo.Infer.{Names}

alloc_globals-Makes : (names : List Text) {g : Codegen} → Sound g → Makes 0 g (alloc_globals names)
unfolding alloc_globals
alloc_globals-Makes [] s = idle_with _ s
alloc_globals-Makes (name ∷ names) s =
    onward (alloc_global-Makes name s) λ idx g₁ s₁. alloc_globals-Makes names s₁

alloc_ctor-Makes :
    (name : Text) (o : Option (ℕ × ℕ)) {g : Codegen} → Sound g → Makes 0 g (alloc_ctor name o)
unfolding alloc_ctor
alloc_ctor-Makes name none s = panics _
alloc_ctor-Makes name (some (id, zero)) s = idle_with _ s
alloc_ctor-Makes name (some (id, suc arity)) s = alloc_globals-Makes (name ∷ []) s

alloc_ctors-Makes : (names : List Text) {g : Codegen} → Sound g → Makes 0 g (alloc_ctors names)
unfolding alloc_ctors
alloc_ctors-Makes [] s = idle_with _ s
alloc_ctors-Makes (name ∷ names) s =
    onward (inside s (λ v. read-Ensures _ v))
      λ entry g₁ s₁. onward (alloc_ctor-Makes name entry s₁) λ _ g₂ s₂. alloc_ctors-Makes names s₂

empty-Sound : (names : List Text) (ctors : Names (ℕ × ℕ)) → Sound (empty names ctors)
unfolding empty
empty-Sound names ctors = record {
  good = record { scope_below = tt; labels_fit = tt; aligned = refl };
  well_formed = new-IsWellFormed;
}

-- A panic, or a sound state.
pub data Started : Gen (Unit {0} × Codegen) → Type 0 where
  started : {h : Codegen} → Sound h → Started (ok (tt, h))
  not_started : {p : GenPanic} → Started (panic p)

Made-Started : {w : ℕ} {g : Codegen} (r : Gen (Unit {0} × Codegen)) → Made w g r → Started r
Made-Started _ (made s more) = started s
Made-Started _ broken = not_started

allocated-Started : (names : List Text) (o : Option (Names (ℕ × ℕ))) → Started (allocated names o)
unfolding allocated
allocated-Started names none = not_started
allocated-Started names (some ctors) = Made-Started _ (
    of_makes (
      onward (alloc_globals-Makes builtins (empty-Sound names ctors))
        λ _ g₁ s₁. alloc_ctors-Makes names s₁))

-- `new` panics or gives a sound state.
pub new-Started : (names : List Text) (arities : Names ℕ) → Started (new names arities)
unfolding new
new-Started names arities = allocated-Started names (number_ctors 0 names arities [])
