-- ===== src/Codegen/Framed/Closures.antt =====
-- Closures, variables and constructors of gen2-dcc-rs/src/codegen.rs, in their frame.
use dacelo.Base.{
  ℕ, zero, suc, ◌^◌, ◌≤◌, ◌<◌, ◌≡◌, refl, arith, false, List, [], ◌∷◌, length, get_elem?, Option,
  none, some,
}
use dacelo.Base.Text.{Text}
use dacelo.Codegen.{Codegen, PendingFn, x0}
use dacelo.Codegen.Exprs.{
  lam_params, lam_body, set_label_syms, set_lam_counter, next_lam, new_levels, push_pending,
  first_label, lambda, rec_captured, position, store_word, store_others, local_rec_closure,
}
use dacelo.Codegen.Framed.{
  Emitted-refl, AllBelow, LabelsFit, Good, Grows, Ensures, gave, ensures, Any, step, aside, weaken,
  Grows-trans,
}
use dacelo.Codegen.Framed.Calls.{
  emit-Ensures, emit_plain, return-Ensures, fail-Ensures, read-Ensures, expect-Ensures,
  next_u32-Ensures, new_labels-Ensures, set_label_sym-Ensures,
}
use dacelo.Codegen.Framed.Shared.{spill-Ensures, push_scope-Ensures}
use dacelo.Codegen.Functions.{expr_size}
use dacelo.Syntax.{Pattern, Expr, lam}
use dacelo.Codegen.Framed.Variables.{
  all_kept, alloc_words-Ensures, closure_head-Ensures, make_closure-Ensures,
}

set_label_syms-Ensures :
    (ls : List ℕ) (syms : List Text) {g : Codegen}
    → Good g
    → Ensures 0 Any g (set_label_syms ls syms)
unfolding set_label_syms
set_label_syms-Ensures [] syms v = return-Ensures _ v tt
set_label_syms-Ensures (l ∷ ls) [] v = return-Ensures _ v tt
set_label_syms-Ensures (l ∷ ls) (sym ∷ syms) v =
    step (set_label_sym-Ensures l sym false v) λ _ g₁ v₁ _ _. set_label_syms-Ensures ls syms v₁

set_lam_counter-Ensures : (n : ℕ) {g : Codegen} → Good g → Ensures 0 Any g (set_lam_counter n)
unfolding set_lam_counter
set_lam_counter-Ensures n v = ensures (aside tt v refl refl refl refl v.aligned tt)

next_lam-Ensures : {g : Codegen} → Good g → Ensures 0 Any g next_lam
unfolding next_lam
next_lam-Ensures v = step (read-Ensures _ v) λ n g₁ v₁ _ _.
    step (next_u32-Ensures n v₁)
      λ next g₂ v₂ _ _. step (set_lam_counter-Ensures next v₂) λ _ g₃ v₃ _ _. return-Ensures _ v₃ tt

new_levels-Ensures :
    (n : ℕ) {g : Codegen} → Good g → Ensures 0 (λ levels h. LabelsFit levels.0) g (new_levels n)
unfolding new_levels
new_levels-Ensures n v = step (next_lam-Ensures v) λ base g₁ v₁ _ _.
    step (new_labels-Ensures n v₁) λ labels g₂ v₂ _ fit.
      step (set_label_syms-Ensures labels _ v₂) λ _ g₃ v₃ _ _. return-Ensures _ v₃ fit

first_fits : (ls : List ℕ) {l : ℕ} → LabelsFit ls → get_elem? ls 0 ≡ some l → l < 2 ^ 32
first_fits [] fit e = absurd cc
first_fits (k ∷ ls) {l} fit e = let same : k ≡ l = cc in omega (arith, same, fit.0)

first_label-Ensures :
    (ls : List ℕ) {g : Codegen}
    → Good g
    → LabelsFit ls
    → Ensures 0 (λ l h. l < 2 ^ 32) g (first_label ls)
unfolding first_label
first_label-Ensures ls v fit =
    weaken (λ l h e. first_fits ls fit e) (expect-Ensures _ (get_elem? ls 0) v)

-- A function that is left for later.
push_pending-Ensures :
    (pf : PendingFn) {w : ℕ} {g : Codegen}
    → Good g
    → LabelsFit pf.labels
    → suc (expr_size pf.body) ≤ w
    → Ensures w Any g (push_pending pf)
unfolding push_pending
push_pending-Ensures pf {w} {g} v fit l = ensures (
    gave
      (record {
        scope_below = v.scope_below;
        labels_fit = (fit, v.labels_fit);
        aligned = v.aligned;
      })
      (record {
        emitted = Emitted-refl _ g.asm;
        slots_le = omega arith;
        weight_le = omega (arith, l);
        patches_kept = refl;
      })
      tt)

pub lam_body-le : (e : Expr) → expr_size (lam_body e) ≤ expr_size e
unfolding lam_body
lam_body-le (lam p inner) = omega (arith, lam_body-le inner)
lam_body-le _ = omega arith

lam_body_lam : (p : Pattern) (e : Expr) → suc (expr_size (lam_body (lam p e))) ≤ suc (expr_size e)
unfolding lam_body
lam_body_lam p e = omega (arith, lam_body-le e)

later : {g h k : Codegen} → Grows 0 g h → Grows 0 h k → Grows 0 g k
later x y = Grows-trans (omega arith) x y

-- A lambda leaves its body for later.
pub lambda-Ensures :
    (p : Pattern) (inner : Expr) {g : Codegen}
    → Good g
    → Ensures (expr_size (lam p inner)) Any g (lambda (lam p inner))
unfolding lambda
lambda-Ensures p inner v = step (read-Ensures _ v) λ captured g₁ v₁ _ is.
    step (new_levels-Ensures (length (lam_params (lam p inner))) v₁)
      λ (labels, syms) g₂ v₂ more fit.
        step (first_label-Ensures labels v₂ fit) λ label g₃ v₃ more' fits.
          let below = all_kept captured more' (all_kept captured more (rw is v₁.scope_below)) in
          step (make_closure-Ensures label captured v₃ fits below)
            λ _ g₄ v₄ _ _. push_pending-Ensures _ v₄ fit (omega (arith, lam_body_lam p inner))

abbrev SlotBelow : ℕ → Option ℕ → Type 0
SlotBelow n none = Unit
SlotBelow n (some s) = s < n

abbrev SlotsBelow : ℕ → List (Text × Option ℕ) → Type 0
SlotsBelow n [] = Unit
SlotsBelow n ((name, o) ∷ captured) = SlotBelow n o × SlotsBelow n captured

rec_captured-SlotsBelow :
    (n : ℕ) (scope : List (Text × ℕ)) (name : Text)
    → AllBelow n scope
    → SlotsBelow n (rec_captured scope name)
unfolding rec_captured
rec_captured-SlotsBelow n [] name h = (tt, tt)
rec_captured-SlotsBelow n ((m, s) ∷ scope) name h = (h.0, rec_captured-SlotsBelow n scope name h.1)

SlotsBelow-le :
    (n m : ℕ) (captured : List (Text × Option ℕ))
    → n ≤ m
    → SlotsBelow n captured
    → SlotsBelow m captured
SlotsBelow-le n m [] l h = tt
SlotsBelow-le n m ((name, none) ∷ captured) l h = (tt, SlotsBelow-le n m captured l h.1)
SlotsBelow-le n m ((name, some s) ∷ captured) l h =
    (omega (arith, h.0), SlotsBelow-le n m captured l h.1)

store_word-Ensures :
    (j : ℕ) (src : Option ℕ) {g : Codegen}
    → Good g
    → SlotBelow g.frame.nslots src
    → Ensures 0 Any g (store_word j src)
unfolding store_word
store_word-Ensures j none v below = fail-Ensures _ _
store_word-Ensures j (some src) v below = emit-Ensures _ v (below, (tt, tt))

store_others-Ensures :
    (j : ℕ) (skip : Option ℕ) (captured : List (Text × Option ℕ)) {g : Codegen}
    → Good g
    → SlotsBelow g.frame.nslots captured
    → Ensures 0 Any g (store_others j skip captured)
unfolding store_others
store_others-Ensures j skip [] v below = return-Ensures _ v tt
store_others-Ensures j (some zero) ((n, src) ∷ captured) v below =
    store_others-Ensures (suc j) none captured v below.1
store_others-Ensures j (some (suc i)) ((n, src) ∷ captured) v below =
    step (store_word-Ensures j src v below.0) λ _ g₁ v₁ more _.
      store_others-Ensures (suc j) (some i) captured v₁
        (SlotsBelow-le _ _ captured more.slots_le below.1)
store_others-Ensures j none ((n, src) ∷ captured) v below =
    step (store_word-Ensures j src v below.0) λ _ g₁ v₁ more _.
      store_others-Ensures (suc j) none captured v₁
        (SlotsBelow-le _ _ captured more.slots_le below.1)

-- The closure of a local recursive function leaves its body for later.
pub local_rec_closure-Ensures :
    (name : Text) (rhs : Expr) {g : Codegen}
    → Good g
    → Ensures (suc (expr_size rhs)) Any g (local_rec_closure name rhs)
unfolding local_rec_closure
local_rec_closure-Ensures name rhs v = step (read-Ensures _ v) λ scope g₁ v₁ _ is.
    let captured = rec_captured scope name in
    let below = rec_captured-SlotsBelow _ scope name (rw is v₁.scope_below) in
    step (new_levels-Ensures (length (lam_params rhs)) v₁) λ (labels, syms) g₂ v₂ more₂ fit.
      step (alloc_words-Ensures _ v₂) λ _ g₃ v₃ more₃ _.
        step (first_label-Ensures labels v₃ fit) λ label g₄ v₄ more₄ fits.
          step (closure_head-Ensures label _ v₄ fits) λ _ g₅ v₅ more₅ _.
            step (expect-Ensures _ (position name captured) v₅) λ self_idx g₆ v₆ more₆ _.
              let more = later more₂ (later more₃ (later more₄ (later more₅ more₆))) in
              step
                (store_others-Ensures 0 (some self_idx) captured v₆
                  (SlotsBelow-le _ _ captured more.slots_le below))
                λ _ g₇ v₇ _ _. step (emit_plain _ v₇ refl) λ _ g₈ v₈ _ _.
                  step (spill-Ensures x0 v₈) λ holder g₉ v₉ _ holds.
                    step (push_scope-Ensures name holder v₉ holds) λ _ g₁₀ v₁₀ _ _.
                      push_pending-Ensures _ v₁₀ fit (omega (arith, lam_body-le rhs))
