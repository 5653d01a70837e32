-- ===== src/Codegen/Framed/Patterns.antt =====
-- The code of patterns of gen2-dcc-rs/src/codegen.rs, in its frame.
use dacelo.Base.{ℕ, suc, refl, Bool, ◌==◌, ◌<◌}
use dacelo.Base.Text.{Text}
use dacelo.Codegen.{Codegen, emit}
use dacelo.Codegen.Patterns.{
  check_word, or_fail, match_lit, match_nullary, match_object, match_pat, match_fields, is_empty,
  patterns_len,
}
use dacelo.Codegen.Framed.{Good, Ensures, Any, step, kept}
use dacelo.Codegen.Framed.Calls.{
  emit-Ensures, emit_plain, return-Ensures, assert-Ensures, ctor-Ensures, call_rt-Ensures,
  use_extern-Ensures,
}
use dacelo.Codegen.Framed.Shared.{
  either-Ensures, intern_str-Ensures, intern_nullary_ctor-Ensures, spill-Ensures,
  spill_slot-Ensures, push_scope-Ensures,
}
use dacelo.Syntax.{Lit, Pattern, Patterns, wildcard, p_lit, p_tuple, p_ctor, p_nil, p_cons}

match_lit-Ensures :
    (l : Lit) (reg fail : ℕ) {g : Codegen} → Good g → Ensures 0 Any g (match_lit l reg fail)
unfolding match_lit or_fail
match_lit-Ensures (Lit.int k) reg fail v = emit_plain _ v refl
match_lit-Ensures (Lit.bool b) reg fail v = emit_plain _ v refl
match_lit-Ensures (Lit.str s) reg fail v = step (intern_str-Ensures s v) λ sym g₁ v₁ _ _.
    step (spill_slot-Ensures v₁) λ sv g₂ v₂ _ below.
      step (emit-Ensures _ v₂ (below, (tt, (below, tt))))
        λ _ g₃ v₃ _ _. step (call_rt-Ensures _ v₃) λ _ g₄ v₄ _ _. emit_plain _ v₄ refl
match_lit-Ensures Lit.unit reg fail v =
    step (use_extern-Ensures _ v) λ _ g₁ v₁ _ _. emit_plain _ v₁ refl

match_nullary-Ensures :
    (name : Text) (empty : Bool) (reg fail : ℕ) {g : Codegen}
    → Good g
    → Ensures 0 Any g (match_nullary name empty reg fail)
unfolding match_nullary or_fail
match_nullary-Ensures name empty reg fail v =
    step (assert-Ensures _ empty v) λ _ g₁ v₁ _ _.
      step (intern_nullary_ctor-Ensures name v₁) λ sym g₂ v₂ _ _. emit_plain _ v₂ refl

check_word-Ensures :
    (sv off expected fail : ℕ) {g : Codegen}
    → Good g
    → sv < g.frame.nslots
    → Ensures 0 Any g (emit (check_word sv off expected fail))
unfolding check_word or_fail
check_word-Ensures sv off expected fail v below =
    emit-Ensures _ v (below, (tt, (tt, (tt, (tt, tt)))))

match_object-Ensures :
    (id arity n reg fail : ℕ) {g : Codegen}
    → Good g
    → Ensures 0 (λ sv h. sv < h.frame.nslots) g (match_object id arity n reg fail)
unfolding match_object
match_object-Ensures id arity n reg fail v = step (assert-Ensures _ (n == arity) v) λ _ g₁ v₁ _ _.
    step (spill-Ensures reg v₁) λ sv g₂ v₂ _ below.
      step (check_word-Ensures _ _ _ _ v₂ below) λ _ g₃ v₃ more _.
        step (check_word-Ensures _ _ _ _ v₃ (kept more below))
          λ _ g₄ v₄ more' _. return-Ensures _ v₄ (kept more' (kept more below))

mutual
  unfolding match_pat

  pub match_pat-Ensures :
      (p : Pattern) (reg fail : ℕ) {g : Codegen} → Good g → Ensures 0 Any g (match_pat p reg fail)
  match_pat-Ensures wildcard reg fail v = return-Ensures _ v tt
  match_pat-Ensures (Pattern.var n) reg fail v =
      step (spill-Ensures reg v) λ s g₁ v₁ _ below. push_scope-Ensures n s v₁ below
  match_pat-Ensures (p_lit l) reg fail v = match_lit-Ensures l reg fail v
  match_pat-Ensures (p_tuple ps) reg fail v = step (spill-Ensures reg v) λ sv g₁ v₁ _ below.
      step (check_word-Ensures _ _ _ _ v₁ below)
        λ _ g₂ v₂ more _. match_fields-Ensures ps sv 1 fail v₂ (kept more below)
  match_pat-Ensures (p_ctor name ps) reg fail v =
      step (ctor-Ensures name v) λ (id, arity) g₁ v₁ _ _.
        either-Ensures (arity == 0) (λ _. match_nullary-Ensures name (is_empty ps) reg fail v₁)
          (λ _.
            step (match_object-Ensures id arity (patterns_len ps) reg fail v₁)
              λ sv g₂ v₂ _ below. match_fields-Ensures ps sv 2 fail v₂ below)

  match_fields-Ensures :
      (ps : Patterns) (sv i fail : ℕ) {g : Codegen}
      → Good g
      → sv < g.frame.nslots
      → Ensures 0 Any g (match_fields ps sv i fail)
  match_fields-Ensures p_nil sv i fail v below = return-Ensures _ v tt
  match_fields-Ensures (p_cons p ps) sv i fail v below =
      step (emit-Ensures _ v (below, (tt, tt))) λ _ g₁ v₁ more _.
        step (match_pat-Ensures p _ fail v₁) λ _ g₂ v₂ more' _.
          match_fields-Ensures ps sv (suc i) fail v₂ (kept more' (kept more below))
