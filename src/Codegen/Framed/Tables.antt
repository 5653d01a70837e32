-- ===== src/Codegen/Framed/Tables.antt =====
-- The tables of the data section and the steps of `compile_program` of gen2-dcc-rs/src/codegen.rs
-- that end in an object.
use dacelo.Base.{
  ℕ, suc, ◌*◌, ◌%◌, ◌^◌, ◌≡◌, refl, ap, arith, List, [], ◌∷◌, ◌++◌, length, replicate,
  length-append, length-replicate, Option, none, some, get_elem?,
}
use dacelo.Base.Decimal.{parse_number}
use dacelo.Base.Text.{Text}
use dacelo.Base.Utf8.{bytes}
use dacelo.Codegen.{Codegen, Gen, GenPanic, Method, ok, panic, ◌>>=◌, continue, read}
use dacelo.Codegen.Data.{add_ctor_name, add_ctor_names, add_data_sym, emit_ctor_names_table}
use dacelo.Codegen.Framed.{Any, step}
use dacelo.Codegen.Framed.Drain.{Drains, Drained, drained, stopped}
use dacelo.Codegen.Framed.Sound.{
  Sound, Made, made, broken, Makes, makes, of_makes, onward, inside, idle_with,
}
use dacelo.Codegen.Framed.Functions.{recorded}
use dacelo.Codegen.Framed.Calls.{read-Ensures, expect-Ensures, use_extern-Ensures, return-Ensures}
use dacelo.Codegen.Framed.Shared.{length-pad8}
use dacelo.Codegen.Functions.{weight, drain_pending}
use dacelo.Codegen.Object.{
  label_name, strip_label, add_got_quad, got_label, add_got_entry, add_got_entries, use_target,
  use_targets, text_relocs, finished_with, finished,
}
use dacelo.Encoder
use dacelo.Encoder.{Asm}
use dacelo.Encoder.Finish.{FinishedCode, finish}
use dacelo.Macho.{ObjectBuilder}

add_ctor_name-Sound :
    (off i : ℕ) (name : Text) {g : Codegen} → Sound g → Sound (add_ctor_name off i name g)
unfolding add_ctor_name
add_ctor_name-Sound off i name {g} s = record {
  good = record {
    scope_below = s.good.scope_below;
    labels_fit = s.good.labels_fit;
    aligned = length-pad8 (g.data_bytes ++ bytes name ++ 0 ∷ []);
  };
  well_formed = s.well_formed;
}

add_ctor_names-Sound :
    (off i : ℕ) (names : List Text) {g : Codegen} → Sound g → Sound (add_ctor_names off i names g)
unfolding add_ctor_names
add_ctor_names-Sound off i [] s = s
add_ctor_names-Sound off i (name ∷ names) s =
    add_ctor_names-Sound off (suc i) names (add_ctor_name-Sound off i name s)

pending-add_ctor_names :
    (off i : ℕ) (names : List Text) (g : Codegen)
    → (add_ctor_names off i names g).pending ≡ g.pending
unfolding add_ctor_names add_ctor_name
pending-add_ctor_names off i [] g = refl
pending-add_ctor_names off i (name ∷ names) g =
    pending-add_ctor_names off (suc i) names (add_ctor_name off i name g)

quads_aligned :
    (buf : List ℕ) (n : ℕ) → length buf % 8 ≡ 0 → length (buf ++ replicate (8 * n) 0) % 8 ≡ 0
quads_aligned buf n h =
    let nought : ℕ = 0 in
    omega (arith, h, length-append buf (replicate (8 * n) nought), length-replicate (8 * n) nought)

more_data :
    {g : Codegen} (buf : List ℕ)
    → Sound g
    → length buf % 8 ≡ 0
    → Sound (record g { data_bytes = buf })
more_data buf s h = record {
  good = record { scope_below = s.good.scope_below; labels_fit = s.good.labels_fit; aligned = h };
  well_formed = s.well_formed;
}

pub emit_ctor_names_table-Makes : {g : Codegen} → Sound g → Makes 0 g emit_ctor_names_table
unfolding emit_ctor_names_table add_data_sym
emit_ctor_names_table-Makes {g} s =
    let off = length g.data_bytes in
    let quads = g.data_bytes ++ replicate (8 * length g.ctor_names) 0 in
    let placed =
      more_data quads s (quads_aligned g.data_bytes (length g.ctor_names) s.good.aligned) in
    let named = add_ctor_names-Sound off 0 g.ctor_names placed in
    makes (
      made
        (record {
          good = record {
            scope_below = named.good.scope_below;
            labels_fit = named.good.labels_fit;
            aligned = named.good.aligned;
          };
          well_formed = named.well_formed;
        })
        (omega (
          arith,
          ap weight (pending-add_ctor_names off 0 g.ctor_names (record g { data_bytes = quads })),
        )))

-- A panic, or an object for which `P` holds.
pub data Outcome (P : ObjectBuilder → Type 0) : Gen (ObjectBuilder × Codegen) → Type 0 where
  outcome : {obj : ObjectBuilder} {h : Codegen} → P obj → Outcome P (ok (obj, h))
  broke : {p : GenPanic} → Outcome P (panic p)

pub data Gives (P : ObjectBuilder → Type 0) (g : Codegen) : Method ObjectBuilder → Type 0 where
  gives : {m : Method ObjectBuilder} → Outcome P (m g) → Gives P g m

pub of_gives :
    {P : ObjectBuilder → Type 0} {g : Codegen} {m : Method ObjectBuilder}
    → Gives P g m
    → Outcome P (m g)
of_gives (gives e) = e

module _ {A : Type 0} {P : ObjectBuilder → Type 0} where
  continue-Outcome :
      {w : ℕ} {g : Codegen} (r : Gen (A × Codegen)) (f : A → Method ObjectBuilder)
      → Made w g r
      → ((a : A) (h : Codegen) → r ≡ ok (a, h) → Sound h → Gives P h (f a))
      → Outcome P (continue r f)
  unfolding continue
  continue-Outcome _ f (made {a} {h} sound more) k = of_gives (k a h refl sound)
  continue-Outcome _ f broken k = broke

  pub into :
      {w : ℕ} {g : Codegen} {m : Method A} {f : A → Method ObjectBuilder}
      → Makes w g m
      → ((a : A) (h : Codegen) → m g ≡ ok (a, h) → Sound h → Gives P h (f a))
      → Gives P g (m >>= f)
  into {w} {g} {m} {f} e k =
      gives {m = m >>= f} (unfold ◌>>=◌ in continue-Outcome (m g) f (of_makes e) k)

  -- What is read is a function of the state.
  pub into_read :
      {g : Codegen} (φ : Codegen → A) (f : A → Method ObjectBuilder)
      → Gives P g (f (φ g))
      → Gives P g (read φ >>= f)
  into_read {g} φ f k =
      gives {m = read φ >>= f} (unfold ◌>>=◌ in unfold read in unfold continue in of_gives k)

module _ {P : ObjectBuilder → Type 0} where
  continue_rest :
      {g : Codegen} (r : Gen (Unit {0} × Codegen)) (f : Unit {0} → Method ObjectBuilder)
      → Drained g r
      → ((h : Codegen) → Drains h g → Sound h → Gives P h (f tt))
      → Outcome P (continue r f)
  unfolding continue
  continue_rest _ f (drained {h} sound e) k = of_gives (k h e sound)
  continue_rest _ f stopped k = broke

  pub into_rest :
      {g : Codegen} (f : Unit {0} → Method ObjectBuilder)
      → Drained g (drain_pending g)
      → ((h : Codegen) → Drains h g → Sound h → Gives P h (f tt))
      → Gives P g (drain_pending >>= f)
  into_rest {g} f e k =
      gives {m = drain_pending >>= f} (unfold ◌>>=◌ in continue_rest (drain_pending g) f e k)

  continue_finished :
      (g : Codegen) (r : Asm FinishedCode) (f : FinishedCode → Method ObjectBuilder)
      → ((code : FinishedCode) → r ≡ Encoder.ok code → Gives P g (f code))
      → Outcome P (continue (finished_with g r) f)
  unfolding continue finished_with
  continue_finished g (Encoder.ok code) f k = of_gives (k code refl)
  continue_finished g (Encoder.panic p) f k = broke

  pub into_finished :
      {g : Codegen} {f : FinishedCode → Method ObjectBuilder}
      → ((code : FinishedCode)
          → finish (label_name g.label_syms) g.asm ≡ Encoder.ok code
          → Gives P g (f code))
      → Gives P g (finished >>= f)
  into_finished {g} {f} k = gives {m = finished >>= f} (
      unfold ◌>>=◌ in
      unfold finished in continue_finished g (finish (label_name g.label_syms) g.asm) f k)

got_label-Makes : (rest : Text) {g : Codegen} → Sound g → Makes 0 g (got_label rest)
unfolding got_label
got_label-Makes rest s = inside s λ v.
    step (expect-Ensures _ (parse_number (2 ^ 32) rest) v) λ l g₁ v₁ _ _.
      step (read-Ensures _ v₁) λ entry g₂ v₂ _ _.
        step (expect-Ensures _ entry v₂)
          λ (sym, exported) g₃ v₃ _ _. return-Ensures {Q = Any} sym v₃ tt

add_got_quad-Makes : (sym : Text) {g : Codegen} → Sound g → Makes 0 g (add_got_quad sym)
unfolding add_got_quad
add_got_quad-Makes sym {g} s =
    makes (recorded tt s refl refl (quads_aligned g.data_bytes 1 s.good.aligned) s.good.scope_below)

add_got_entry-Makes :
    (o : Option Text) (target : Text) {g : Codegen} → Sound g → Makes 0 g (add_got_entry o target)
unfolding add_got_entry
add_got_entry-Makes (some rest) target s =
    onward (got_label-Makes rest s) λ sym g₁ s₁. add_got_quad-Makes sym s₁
add_got_entry-Makes none target s =
    onward (inside s (λ v. use_extern-Ensures target v)) λ _ g₁ s₁. add_got_quad-Makes target s₁

pub add_got_entries-Makes :
    (slots : List (Text × Text)) {g : Codegen} → Sound g → Makes 0 g (add_got_entries slots)
unfolding add_got_entries
add_got_entries-Makes [] s = idle_with _ s
add_got_entries-Makes ((key, target) ∷ slots) s =
    onward (add_got_entry-Makes (strip_label key) target s)
      λ _ g₁ s₁. add_got_entries-Makes slots s₁

use_target-Makes :
    (o : Option Text) (target : Text) {g : Codegen} → Sound g → Makes 0 g (use_target o target)
unfolding use_target
use_target-Makes (some rest) target s = idle_with _ s
use_target-Makes none target s = inside s (λ v. use_extern-Ensures target v)

pub use_targets-Makes :
    (slots : List (Text × Text)) {g : Codegen} → Sound g → Makes 0 g (use_targets slots)
unfolding use_targets
use_targets-Makes [] s = idle_with _ s
use_targets-Makes ((key, target) ∷ slots) s =
    onward (use_target-Makes (strip_label key) target s) λ _ g₁ s₁. use_targets-Makes slots s₁

pub text_relocs-Makes :
    (slots : List (Text × Text)) (refs : List (ℕ × ℕ × ℕ)) {g : Codegen}
    → Sound g
    → Makes 0 g (text_relocs slots refs)
unfolding text_relocs
text_relocs-Makes slots [] s = idle_with _ s
text_relocs-Makes slots ((at, reg, slot) ∷ refs) s =
    onward (inside s (λ v. expect-Ensures _ (get_elem? slots slot) v))
      λ (key, target) g₁ s₁. onward (text_relocs-Makes slots refs s₁) λ relocs g₂ s₂. idle_with _ s₂
