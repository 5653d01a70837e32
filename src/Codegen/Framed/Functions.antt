-- ===== src/Codegen/Framed/Functions.antt =====
-- Whole functions of gen2-dcc-rs/src/codegen.rs: what compiling them leaves for later, and the loop
-- over what is left.
use dacelo.Base.{ℕ, zero, suc, ◌+◌, ◌%◌, ◌≤◌, ◌≡◌, refl, arith, List, [], ◌∷◌, ◌++◌, length, leb}
use dacelo.Base.Text.{Text}
use dacelo.Codegen.{Codegen, Method, PendingFn, ok, fail, x1}
use dacelo.Codegen.Framed.{AllBelow, LabelsFit, step}
use dacelo.Codegen.Framed.Variables.{make_closure-Ensures}
use dacelo.Codegen.Framed.Exprs.{expr-Ensures}
use dacelo.Codegen.Framed.Patterns.{match_pat-Ensures}
use dacelo.Codegen.Framed.Calls.{
  emit_plain, read-Ensures, assert-Ensures, new_label-Ensures, call_rt-Ensures,
}
use dacelo.Codegen.Frames.{
  set_frame, push_patch, pop_from, pop_patch, load_env_word, load_env, clear_frame, open_frame,
  fn_prologue, frame_bytes, fn_epilogue,
}
use dacelo.Codegen.Functions.{
  numbered, pat_names, level_body, enter_level, emit_level, emit_levels, emit_fn_levels, expr_size,
}
use dacelo.Encoder.Invariant.{AllFit}
use dacelo.Syntax.{Pattern, Expr}
use dacelo.Codegen.Framed.Sound.{
  Sound, Made, made, broken, Makes, makes, chain, onward, inside, emit-Makes, idle, panics,
}

-- A change that keeps the code, what is left for later and the data.
pub recorded :
    {A : Type 0} {g h : Codegen} (a : A)
    → Sound g
    → h.asm ≡ g.asm
    → h.pending ≡ g.pending
    → length h.data_bytes % 8 ≡ 0
    → AllBelow h.frame.nslots h.frame.scope
    → Made 0 g (ok (a, h))
recorded a s same_asm same_pending aligned below =
    made
      (record {
        good = record {
          scope_below = below;
          labels_fit = rw same_pending s.good.labels_fit;
          aligned = aligned;
        };
        well_formed = rw same_asm s.well_formed;
      })
      (rw same_pending (omega arith))

pub set_frame-Makes :
    (n : ℕ) (scope : List (Text × ℕ)) {g : Codegen}
    → Sound g
    → AllBelow n scope
    → Makes 0 g (set_frame (record { nslots = n; scope = scope }))
unfolding set_frame
set_frame-Makes n scope s below = makes (recorded tt s refl refl s.good.aligned below)

push_patch-Makes : (at : ℕ) {g : Codegen} → Sound g → Makes 0 g (push_patch at)
unfolding push_patch
push_patch-Makes at s = makes (recorded tt s refl refl s.good.aligned s.good.scope_below)

pop_from-Made : (ats : List ℕ) {g : Codegen} → Sound g → Made 0 g (pop_from ats g)
unfolding pop_from fail
pop_from-Made [] s = broken
pop_from-Made (at ∷ ats) s = recorded at s refl refl s.good.aligned s.good.scope_below

pop_patch-Makes : {g : Codegen} → Sound g → Makes 0 g pop_patch
unfolding pop_patch
pop_patch-Makes {g} s = makes (pop_from-Made g.frame_patches s)

load_env-AllFit : (i n : ℕ) → AllFit (load_env i n)
unfolding load_env load_env_word
load_env-AllFit i zero = tt
load_env-AllFit i (suc n) = (tt, (tt, load_env-AllFit (suc i) n))

open_frame-Makes : {g : Codegen} → Sound g → Makes 0 g open_frame
unfolding open_frame clear_frame
open_frame-Makes s = onward (emit-Makes _ s (tt, (tt, tt))) λ _ g₁ s₁.
    onward (inside s₁ (λ v. read-Ensures _ v)) λ patch_pos g₂ s₂.
      onward (emit-Makes _ s₂ (tt, (tt, tt))) λ _ g₃ s₃.
        onward (push_patch-Makes patch_pos s₃) λ _ g₄ s₄.
          onward (inside s₄ (λ v. new_label-Ensures v)) λ zloop g₅ s₅.
            onward (inside s₅ (λ v. new_label-Ensures v))
              λ zdone g₆ s₆. inside s₆ (λ v. emit_plain _ v refl)

pub fn_prologue-Makes : (captured : ℕ) {g : Codegen} → Sound g → Makes 0 g (fn_prologue captured)
unfolding fn_prologue
fn_prologue-Makes captured s =
    onward (open_frame-Makes s) λ _ g₁ s₁. emit-Makes _ s₁ (load_env-AllFit 0 captured)

pub fn_epilogue-Makes : (n : ℕ) {g : Codegen} → Sound g → Makes 0 g (fn_epilogue n)
unfolding fn_epilogue
fn_epilogue-Makes n s =
    onward (inside s (λ v. assert-Ensures _ (leb (frame_bytes n) 0xFFF0) v))
      λ _ g₁ s₁. onward (pop_patch-Makes s₁) λ at g₂ s₂. emit-Makes _ s₂ (tt, (tt, (tt, (tt, tt))))

numbered-AllBelow :
    (n i : ℕ) (names : List Text) → i + length names ≤ n → AllBelow n (numbered i names)
unfolding numbered
numbered-AllBelow n i [] l = tt
numbered-AllBelow n i (name ∷ names) l =
    (omega arith, numbered-AllBelow n (suc i) names (omega arith))

enter_level-Makes : (caps : List Text) {g : Codegen} → Sound g → Makes 0 g (enter_level caps)
unfolding enter_level
enter_level-Makes caps s =
    onward (fn_prologue-Makes (length caps) s)
      λ _ g₁ s₁. set_frame-Makes _ _ s₁ (numbered-AllBelow _ 0 caps (omega arith))

emit_level-Makes :
    (caps : List Text) (label : ℕ) (p : Pattern) {w : ℕ} (rest : Method (Unit {0})) {g : Codegen}
    → Sound g
    → ((h : Codegen) → Sound h → Makes w h rest)
    → Makes w g (emit_level caps label p rest)
unfolding emit_level
emit_level-Makes caps label p rest s r = onward (inside s (λ v. emit_plain _ v refl)) λ _ g₁ s₁.
    onward (enter_level-Makes caps s₁) λ _ g₃ s₃.
      onward (inside s₃ (λ v. new_label-Ensures v)) λ mismatch g₄ s₄.
        onward (inside s₄ (λ v. match_pat-Ensures p x1 mismatch v)) λ _ g₅ s₅.
          chain {w = 0} (omega arith) (r g₅ s₅) λ _ g₆ s₆.
            onward (inside s₆ (λ v. read-Ensures _ v)) λ n g₇ s₇.
              onward (fn_epilogue-Makes n s₇) λ _ g₈ s₈.
                onward (inside s₈ (λ v. emit_plain _ v refl))
                  λ _ g₉ s₉. inside s₉ (λ v. call_rt-Ensures _ v)

-- Every level but the last one makes the closure of the next.
next_level-Makes :
    (body : Expr) (labels : List ℕ) (q : Pattern) (ps : List Pattern) {g : Codegen}
    → LabelsFit labels
    → Sound g
    → Makes 0 g (level_body body labels (q ∷ ps))
unfolding level_body
next_level-Makes body [] q ps fit s = panics _
next_level-Makes body (label ∷ labels) q ps fit s = inside s λ v.
    step (read-Ensures _ v)
      λ scope g₁ v₁ _ is. make_closure-Ensures label scope v₁ fit.0 (rw is v₁.scope_below)

last_level-Makes :
    (body : Expr) (labels : List ℕ) {g : Codegen}
    → Sound g
    → Makes (expr_size body) g (level_body body labels [])
unfolding level_body
last_level-Makes body labels s = inside s (λ v. expr-Ensures body v)

emit_levels-Makes :
    (body : Expr) (caps : List Text) (labels : List ℕ) (ps : List Pattern) {g : Codegen}
    → LabelsFit labels
    → Sound g
    → Makes (expr_size body) g (emit_levels body caps labels ps)
unfolding emit_levels
emit_levels-Makes body caps labels [] fit s = idle _ s
emit_levels-Makes body caps [] (p ∷ ps) fit s = panics _
emit_levels-Makes body caps (label ∷ labels) (p ∷ []) fit s =
    chain {w = 0} (omega arith)
      (emit_level-Makes caps label p _ s (λ h t. last_level-Makes body labels t))
      λ _ g₁ s₁. idle 0 s₁
emit_levels-Makes body caps (label ∷ labels) (p ∷ q ∷ ps) fit s =
    onward (emit_level-Makes caps label p _ s (λ h t. next_level-Makes body labels q ps fit.1 t))
      λ _ g₁ s₁. emit_levels-Makes body (caps ++ pat_names p) labels (q ∷ ps) fit.1 s₁

pub emit_fn_levels-Makes :
    (pf : PendingFn) {g : Codegen}
    → LabelsFit pf.labels
    → Sound g
    → Makes (expr_size pf.body) g (emit_fn_levels pf)
unfolding emit_fn_levels
emit_fn_levels-Makes pf fit s =
    emit_levels-Makes pf.body pf.captured_names pf.labels pf.params fit s
