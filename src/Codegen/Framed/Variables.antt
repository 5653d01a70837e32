-- ===== src/Codegen/Framed/Variables.antt =====
-- Closures that are filled, variables and constructors of gen2-dcc-rs/src/codegen.rs, in their
-- frame.
use dacelo.Base.{
  ℕ, suc, ◌^◌, ◌≤◌, ◌<◌, ◌≡◌, refl, arith, inl, inr, Bool, true, false, List, [], ◌∷◌, Option, none,
  some, if◌then◌else◌, ◌==◌, Bool-cases,
}
use dacelo.Base.Text.{Text, text_eq}
use dacelo.Codegen.{Codegen, FnState, emit}
use dacelo.Codegen.Exprs.{load_name}
use dacelo.Codegen.Frames.{
  store_captured, closure_head, alloc_words, make_closure, find_last, scope_find, load_found,
  load_var, load_nullary, load_global, load_ctor_value,
}
use dacelo.Codegen.Framed.{AllFramed, AllBelow, Good, Grows, Ensures, ensures, ended, Any, step}
use dacelo.Codegen.Framed.Calls.{
  emit-Ensures, emit_plain, return-Ensures, fail-Ensures, ctor-Ensures, global-Ensures,
  call_rt-Ensures, emit_gget-Ensures,
}
use dacelo.Codegen.Framed.Shared.{either-Ensures, intern_nullary_ctor-Ensures}
use dacelo.Infer.{get}

AllBelow-le : (n m : ℕ) (scope : List (Text × ℕ)) → n ≤ m → AllBelow n scope → AllBelow m scope
AllBelow-le n m [] l h = tt
AllBelow-le n m ((name, s) ∷ scope) l h = (omega (arith, h.0), AllBelow-le n m scope l h.1)

-- Locals in use stay in use.
pub all_kept :
    {w : ℕ} {g h : Codegen} (scope : List (Text × ℕ))
    → Grows w g h
    → AllBelow g.frame.nslots scope
    → AllBelow h.frame.nslots scope
all_kept scope x h = AllBelow-le _ _ scope x.slots_le h

find_last-lt :
    (n : ℕ) (found : Option ℕ) (name : Text) (scope : List (Text × ℕ)) {s : ℕ}
    → ((t : ℕ) → found ≡ some t → t < n)
    → AllBelow n scope
    → find_last found name scope ≡ some s
    → s < n
unfolding find_last
find_last-lt n found name [] h below e = h _ e
find_last-lt n found name ((m, t) ∷ scope) h below e =
    find_last-lt n (if text_eq m name then some t else found) name scope newer below.1 e
  where
    newer : (u : ℕ) → (if text_eq m name then some t else found) ≡ some u → u < n
    newer u q = elim (Bool-cases (text_eq m name)) [
      | inl same ↦ let this : t ≡ u = cc in omega (arith, this, below.0)
      | inr other ↦ h u cc
    ]

pub scope_find-lt :
    (f : FnState) (name : Text) {s : ℕ}
    → AllBelow f.nslots f.scope
    → scope_find f name ≡ some s
    → s < f.nslots
unfolding scope_find
scope_find-lt f name below e = find_last-lt f.nslots none name f.scope (λ t q. absurd cc) below e

store_captured-AllFramed :
    (n j : ℕ) (captured : List (Text × ℕ))
    → AllBelow n captured
    → AllFramed n (store_captured j captured)
unfolding store_captured
store_captured-AllFramed n j [] h = tt
store_captured-AllFramed n j ((nm, src) ∷ captured) h =
    (h.0, (tt, store_captured-AllFramed n (suc j) captured h.1))

pub alloc_words-Ensures : (words : ℕ) {g : Codegen} → Good g → Ensures 0 Any g (alloc_words words)
unfolding alloc_words
alloc_words-Ensures words v = step (emit_plain _ v refl) λ _ g₁ v₁ _ _. call_rt-Ensures _ v₁

pub closure_head-Ensures :
    (label n : ℕ) {g : Codegen}
    → Good g
    → label < 2 ^ 32
    → Ensures 0 Any g (emit (closure_head label n))
unfolding closure_head
closure_head-Ensures label n v fits = emit-Ensures _ v (tt, (tt, (fits, (tt, (tt, (tt, tt))))))

pub make_closure-Ensures :
    (label : ℕ) (captured : List (Text × ℕ)) {g : Codegen}
    → Good g
    → label < 2 ^ 32
    → AllBelow g.frame.nslots captured
    → Ensures 0 Any g (make_closure label captured)
unfolding make_closure
make_closure-Ensures label captured v fits below = step (alloc_words-Ensures _ v) λ _ g₁ v₁ more _.
    step (closure_head-Ensures label _ v₁ fits) λ _ g₂ v₂ more' _.
      let still = all_kept captured more' (all_kept captured more below) in
      emit-Ensures _ v₂ (store_captured-AllFramed _ 0 captured still)

load_found-Ensures :
    (o p : Option ℕ) {g : Codegen}
    → Good g
    → ((s : ℕ) → o ≡ some s → s < g.frame.nslots)
    → Ensures 0 Any g (load_found o p)
unfolding load_found
load_found-Ensures (some s) p v h =
    step (emit-Ensures _ v (h s refl, tt)) λ _ g₁ v₁ _ _. return-Ensures _ v₁ tt
load_found-Ensures none (some slot) v h =
    step (emit_gget-Ensures slot v) λ _ g₁ v₁ _ _. return-Ensures _ v₁ tt
load_found-Ensures none none v h = return-Ensures _ v tt

pub load_var-Ensures : (name : Text) {g : Codegen} → Good g → Ensures 0 Any g (load_var name)
unfolding load_var
load_var-Ensures name {g} v = ensures (
    ended (
      load_found-Ensures (scope_find g.frame name) (get g.globals name) v
        (λ s e. scope_find-lt g.frame name v.scope_below e)))

pub load_name-Ensures :
    (n : Text) (b : Bool) {g : Codegen} → Good g → Ensures 0 Any g (load_name n b)
unfolding load_name
load_name-Ensures n true v = return-Ensures _ v tt
load_name-Ensures n false v = fail-Ensures _ _

pub load_ctor_value-Ensures :
    (name : Text) {g : Codegen} → Good g → Ensures 0 Any g (load_ctor_value name)
unfolding load_ctor_value load_nullary load_global
load_ctor_value-Ensures name v = step (ctor-Ensures name v) λ (id, arity) g₁ v₁ _ _.
    either-Ensures (arity == 0)
      (λ _. step (intern_nullary_ctor-Ensures name v₁) λ sym g₂ v₂ _ _. emit_plain _ v₂ refl)
      (λ _. step (global-Ensures name v₁) λ slot g₂ v₂ _ _. emit_gget-Ensures slot v₂)
