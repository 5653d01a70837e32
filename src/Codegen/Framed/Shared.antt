-- ===== src/Codegen/Framed/Shared.antt =====
-- Data, slots and scopes: the calls of gen2-dcc-rs/src/codegen.rs that change more than the code.
use dacelo.Base.{
  ℕ, ◌+◌, ◌%◌, ◌<◌, ◌≡◌, refl, ap, arith, Bool, true, false, List, [], ◌∷◌, ◌++◌, length, Option,
  none, if◌then◌else◌, ◌-◌, some, replicate, length-append, length-replicate,
}
use dacelo.Base.Text.{Text}
use dacelo.Base.Utf8.{bytes}
use dacelo.Codegen.{Method, Codegen, hdr, tag_adt}
use dacelo.Infer.{get}
use dacelo.Codegen.Data.{
  pad8, string_object, add_str, interned, intern_str, new_nullary_ctor, add_nullary_ctor,
  intern_nullary_ctor,
}
use dacelo.Codegen.Frames.{set_nslots, set_scope, spill_slot, push_scope}
use dacelo.Codegen.Patterns.{spill}
use dacelo.Codegen.Framed.{
  Emitted-refl, AllBelow, Good, Ended, Ensures, gave, ensures, ended, Any, step, kept, aside,
}
use dacelo.Macho.{le64}
use dacelo.Codegen.Framed.Calls.{
  return-Ensures, read-Ensures, emit-Ensures, next_u32-Ensures, ctor-Ensures,
}

-- Data whose end is at a multiple of 8.
pub length-pad8 : (buf : List ℕ) → length (pad8 buf) % 8 ≡ 0
unfolding pad8
length-pad8 buf =
    let nought : ℕ = 0 in
    let zeros = (8 - length buf % 8) % 8 in
    omega (arith, length-append buf (replicate zeros nought), length-replicate zeros nought)

pub add_str-Ensures : (s sym : Text) {g : Codegen} → Good g → Ensures 0 Any g (add_str s sym)
unfolding add_str
add_str-Ensures s sym {g} v =
    ensures
      (aside tt v refl refl refl refl (length-pad8 (g.data_bytes ++ string_object (bytes s))) tt)

interned-Ensures :
    (s : Text) (o : Option Text) {g : Codegen} → Good g → Ensures 0 Any g (interned s o)
unfolding interned
interned-Ensures s (some sym) v = return-Ensures _ v tt
interned-Ensures s none v =
    step (read-Ensures _ v)
      λ n g₁ v₁ _ _. step (add_str-Ensures _ _ v₁) λ _ g₂ v₂ _ _. return-Ensures _ v₂ tt

pub intern_str-Ensures : (s : Text) {g : Codegen} → Good g → Ensures 0 Any g (intern_str s)
unfolding intern_str
intern_str-Ensures s {g} v = ensures (ended (interned-Ensures s (get g.str_consts s) v))

aligned_append :
    (buf x y : List ℕ)
    → length buf % 8 ≡ 0
    → length x ≡ 8
    → length y ≡ 8
    → length (buf ++ x ++ y) % 8 ≡ 0
aligned_append buf x y h i j =
    omega (arith, h, i, j, length-append (buf ++ x) y, length-append buf x)

add_nullary_ctor-Ensures :
    (probe : Text) (id : ℕ) {g : Codegen} → Good g → Ensures 0 Any g (add_nullary_ctor probe id)
unfolding add_nullary_ctor
add_nullary_ctor-Ensures probe id {g} v = ensures (
    aside tt v refl refl refl refl
      (aligned_append g.data_bytes (le64 (hdr tag_adt 2)) (le64 id) v.aligned refl refl) tt)

new_nullary_ctor-Ensures :
    (name probe : Text) {g : Codegen} → Good g → Ensures 0 Any g (new_nullary_ctor name probe)
unfolding new_nullary_ctor
new_nullary_ctor-Ensures name probe v = step (ctor-Ensures name v) λ (id, arity) g₁ v₁ _ _.
    step (add_nullary_ctor-Ensures _ _ v₁) λ _ g₂ v₂ _ _. return-Ensures _ v₂ tt

-- Either method, by the test.
pub either-Ensures :
    {A : Type 0} {w : ℕ} {Q : A → Codegen → Type 0} {g : Codegen} {m n : Method A} (b : Bool)
    → (b ≡ true → Ensures w Q g m)
    → (b ≡ false → Ensures w Q g n)
    → Ensures w Q g (if b then m else n)
either-Ensures true x y = x refl
either-Ensures false x y = y refl

pub intern_nullary_ctor-Ensures :
    (name : Text) {g : Codegen} → Good g → Ensures 0 Any g (intern_nullary_ctor name)
unfolding intern_nullary_ctor
intern_nullary_ctor-Ensures name v = step (read-Ensures _ v) λ known g₁ v₁ _ _.
    either-Ensures known (λ _. return-Ensures _ v₁ tt) (λ _. new_nullary_ctor-Ensures _ _ v₁)

AllBelow-suc : (n : ℕ) (scope : List (Text × ℕ)) → AllBelow n scope → AllBelow (n + 1) scope
AllBelow-suc n [] h = tt
AllBelow-suc n ((name, s) ∷ scope) h = (omega (arith, h.0), AllBelow-suc n scope h.1)

set_nslots-Ensures :
    (n : ℕ) {g : Codegen}
    → Good g
    → n ≡ g.frame.nslots + 1
    → Ensures 0 (λ _ h. h.frame.nslots ≡ n) g (set_nslots n)
unfolding set_nslots
set_nslots-Ensures n {g} v e = ensures (
    gave
      (record {
        scope_below = rw e (AllBelow-suc _ g.frame.scope v.scope_below);
        labels_fit = v.labels_fit;
        aligned = v.aligned;
      })
      (record {
        emitted = Emitted-refl n g.asm;
        slots_le = omega (arith, e);
        weight_le = omega arith;
        patches_kept = refl;
      })
      refl)

-- A slot that is taken is in use.
pub spill_slot-Ensures : {g : Codegen} → Good g → Ensures 0 (λ s h. s < h.frame.nslots) g spill_slot
unfolding spill_slot
spill_slot-Ensures v = step (read-Ensures _ v) λ s g₁ v₁ _ is.
    step (next_u32-Ensures s v₁) λ next g₂ v₂ grows (one_more, same).
      step (set_nslots-Ensures next v₂ (omega (arith, ap (λ (h : Codegen). h.frame.nslots) same)))
        λ _ g₃ v₃ _ now. return-Ensures _ v₃ (omega arith)

pub spill-Ensures :
    (reg : ℕ) {g : Codegen} → Good g → Ensures 0 (λ s h. s < h.frame.nslots) g (spill reg)
unfolding spill
spill-Ensures reg v = step (spill_slot-Ensures v) λ s g₁ v₁ _ below.
    step (emit-Ensures _ v₁ (below, tt)) λ _ g₂ v₂ grows _. return-Ensures _ v₂ (kept grows below)

AllBelow-append :
    (n : ℕ) (scope : List (Text × ℕ)) (name : Text) (s : ℕ)
    → AllBelow n scope
    → s < n
    → AllBelow n (scope ++ (name, s) ∷ [])
AllBelow-append n [] name s h l = (l, tt)
AllBelow-append n ((m, t) ∷ scope) name s h l = (h.0, AllBelow-append n scope name s h.1 l)

pub set_scope-Ended :
    (scope : List (Text × ℕ)) {g : Codegen}
    → Good g
    → AllBelow g.frame.nslots scope
    → Ended 0 Any g (set_scope scope g)
unfolding set_scope
set_scope-Ended scope {g} v below =
    gave (record { scope_below = below; labels_fit = v.labels_fit; aligned = v.aligned })
      (record {
        emitted = Emitted-refl _ g.asm;
        slots_le = omega arith;
        weight_le = omega arith;
        patches_kept = refl;
      })
      tt

pub push_scope-Ensures :
    (name : Text) (s : ℕ) {g : Codegen}
    → Good g
    → s < g.frame.nslots
    → Ensures 0 Any g (push_scope name s)
unfolding push_scope
push_scope-Ensures name s {g} v l =
    ensures
      (set_scope-Ended _ v (AllBelow-append g.frame.nslots g.frame.scope name s v.scope_below l))
