-- ===== src/Codegen/Framed/Exprs.antt =====
-- The code of expressions of gen2-dcc-rs/src/codegen.rs, in its frame.
use dacelo.Base.{ℕ, zero, suc, ◌+◌, ◌<◌, ◌≡◌, refl, arith, true, false, List, [], ◌∷◌, take}
use dacelo.Base.Text.{Text}
use dacelo.Codegen.{Codegen, Method, x0, x1}
use dacelo.Codegen.Exprs.{expr, expr_slots, case_branches, branches_len}
use dacelo.Codegen.Frames.{emit_apply, set_scope}
use dacelo.Codegen.Framed.{
  AllBelow, Good, Ended, Ensures, ensures, ended, Any, step, spend, kept, more_later,
}
use dacelo.Codegen.Framed.Variables.{load_var-Ensures, load_name-Ensures, load_ctor_value-Ensures}
use dacelo.Codegen.Framed.Closures.{lambda-Ensures, local_rec_closure-Ensures}
use dacelo.Codegen.Framed.Patterns.{match_pat-Ensures}
use dacelo.Codegen.Framed.Calls.{
  emit-Ensures, emit_plain, return-Ensures, fail-Ensures, read-Ensures, new_label-Ensures,
  new_labels-Ensures, call_rt-Ensures,
}
use dacelo.Codegen.Framed.Shared.{spill-Ensures, push_scope-Ensures, set_scope-Ended}
use dacelo.Codegen.Functions.{expr_size, exprs_size, branches_size}
use dacelo.Syntax.{
  Expr, Exprs, Branches, lit, lam, app, bin, if_else, case_of, let_in, seq, tuple, ann, e_nil,
  e_cons, b_nil, b_cons,
}
use dacelo.Codegen.Framed.Parts.{
  SlotList, make_tuple-Ensures, expr_lit-Ensures, left_in_slot, binop-Ensures,
}

AllBelow-take : (n k : ℕ) (scope : List (Text × ℕ)) → AllBelow n scope → AllBelow n (take k scope)
AllBelow-take n zero scope h = tt
AllBelow-take n (suc k) [] h = tt
AllBelow-take n (suc k) ((name, s) ∷ scope) h = (h.0, AllBelow-take n k scope h.1)

-- `truncate`
truncate-Ensures :
    (k : ℕ) {scope : List (Text × ℕ)} {g : Codegen}
    → Good g
    → scope ≡ g.frame.scope
    → Ensures 0 Any g (set_scope (take k scope))
truncate-Ensures k {scope} {g} v is =
    ensures (set_scope-Ended (take k scope) v (AllBelow-take _ k scope (rw is v.scope_below)))

emit_apply-Ensures : {g : Codegen} → Good g → Ensures 0 Any g emit_apply
unfolding emit_apply
emit_apply-Ensures v = emit_plain _ v refl

-- One unit more for later.
grow :
    {A : Type 0} {w : ℕ} {Q : A → Codegen → Type 0} {g : Codegen} {m : Method A}
    → Ensures w Q g m
    → Ensures (suc w) Q g m
grow e = more_later (omega arith) e

mutual
  unfolding expr

  -- The code of an expression, in a good state: it panics, or the state is good again, every call
  -- is framed by the slots that are counted, the frames that wait for their size are the same, and
  -- what is left for later has at most the size of the expression.
  pub expr-Ensures : (e : Expr) {g : Codegen} → Good g → Ensures (expr_size e) Any g (expr e)
  expr-Ensures (lit l) v = grow (expr_lit-Ensures l v)
  expr-Ensures (Expr.var n) v =
      grow (step (load_var-Ensures n v) λ known g₁ v₁ _ _. load_name-Ensures n known v₁)
  expr-Ensures (Expr.ctor name) v = grow (load_ctor_value-Ensures name v)
  expr-Ensures (app fe ae) v =
      left_in_slot (expr_size fe) (expr_size ae) (expr fe) (expr ae) v (λ h w. expr-Ensures fe w)
        (λ h w. expr-Ensures ae w)
        λ a g₁ v₁ below.
          step (emit-Ensures _ v₁ (tt, (below, tt))) λ _ g₂ v₂ _ _. emit_apply-Ensures v₂
  expr-Ensures (bin op l r) v =
      binop-Ensures op (expr_size l) (expr_size r) (expr l) (expr r) v (λ h w. expr-Ensures l w)
        (λ h w. expr-Ensures r w)
  expr-Ensures (if_else c t el) v =
      spend {w = expr_size t + expr_size el} (omega arith) (expr-Ensures c v) λ _ g₁ v₁ _ _.
        step (new_label-Ensures v₁) λ else_l g₂ v₂ _ _.
          step (new_label-Ensures v₂) λ end_l g₃ v₃ _ _. step (emit_plain _ v₃ refl) λ _ g₄ v₄ _ _.
            spend {w = expr_size el} (omega arith) (expr-Ensures t v₄) λ _ g₅ v₅ _ _.
              step (emit_plain _ v₅ refl) λ _ g₆ v₆ _ _.
                spend {w = 0} (omega arith) (expr-Ensures el v₆) λ _ g₇ v₇ _ _. emit_plain _ v₇ refl
  expr-Ensures (case_of scrut branches) v =
      spend {w = branches_size branches} (omega arith) (expr-Ensures scrut v) λ _ g₁ v₁ _ _.
        step (spill-Ensures x0 v₁) λ sv g₂ v₂ _ below.
          step (new_label-Ensures v₂) λ end g₃ v₃ more₃ _.
            step (new_labels-Ensures (branches_len branches) v₃) λ nexts g₄ v₄ more₄ _.
              let still = kept more₄ (kept more₃ below) in
              spend {w = 0} (omega arith) (case_branches-Ensures sv end nexts branches v₄ still)
                λ _ g₅ v₅ more₅ _.
                  step (emit-Ensures _ v₅ (kept more₅ still, tt))
                    λ _ g₆ v₆ _ _. step (call_rt-Ensures _ v₆) λ _ g₇ v₇ _ _. emit_plain _ v₇ refl
  expr-Ensures (let_in true name rhs body) v =
      spend {w = expr_size body} (omega arith) (local_rec_closure-Ensures name rhs v)
        λ _ g₁ v₁ _ _. expr-Ensures body v₁
  expr-Ensures (let_in false name rhs body) v =
      spend {w = expr_size body} (omega arith) (expr-Ensures rhs v) λ _ g₁ v₁ _ _.
        step (spill-Ensures x0 v₁) λ s g₂ v₂ _ below.
          step (push_scope-Ensures name s v₂ below) λ _ g₃ v₃ _ _. expr-Ensures body v₃
  expr-Ensures (seq l r) v =
      spend {w = expr_size r} (omega arith) (expr-Ensures l v) λ _ g₁ v₁ _ _. expr-Ensures r v₁
  expr-Ensures (tuple es) v =
      spend {w = 0} (omega arith) (expr_slots-Ensures es v)
        λ slots g₁ v₁ _ below. make_tuple-Ensures slots v₁ below
  expr-Ensures (ann inner t) v = grow (expr-Ensures inner v)
  expr-Ensures (lam p inner) v = lambda-Ensures p inner v

  expr_slots-Ensures :
      (es : Exprs) {g : Codegen}
      → Good g
      → Ensures (exprs_size es) (λ slots h. SlotList h.frame.nslots slots) g (expr_slots es)
  expr_slots-Ensures e_nil v = return-Ensures _ v tt
  expr_slots-Ensures (e_cons e es) v =
      spend {w = exprs_size es} (omega arith) (expr-Ensures e v) λ _ g₁ v₁ _ _.
        step (spill-Ensures x0 v₁) λ s g₂ v₂ _ below.
          spend {w = 0} (omega arith) (expr_slots-Ensures es v₂)
            λ slots g₃ v₃ more all. return-Ensures _ v₃ (kept more below, all)

  case_branches-Ensures :
      (sv end : ℕ) (nexts : List ℕ) (bs : Branches) {g : Codegen}
      → Good g
      → sv < g.frame.nslots
      → Ensures (branches_size bs) Any g (case_branches sv end nexts bs)
  case_branches-Ensures sv end nexts b_nil v below = return-Ensures _ v tt
  case_branches-Ensures sv end [] (b_cons pat body bs) v below = fail-Ensures _ _
  case_branches-Ensures sv end (next ∷ nexts) (b_cons pat body bs) v below =
      step (read-Ensures _ v) λ saved_len g₁ v₁ more₁ _.
        step (emit-Ensures _ v₁ (kept more₁ below, tt)) λ _ g₂ v₂ more₂ _.
          step (match_pat-Ensures pat x1 next v₂) λ _ g₃ v₃ more₃ _.
            let still = kept more₃ (kept more₂ (kept more₁ below)) in
            spend {w = branches_size bs} (omega arith) (expr-Ensures body v₃) λ _ g₄ v₄ more₄ _.
              step (read-Ensures _ v₄) λ scope g₅ v₅ more₅ is.
                step (truncate-Ensures saved_len v₅ is) λ _ g₆ v₆ more₆ _.
                  step (emit_plain _ v₆ refl) λ _ g₇ v₇ more₇ _.
                    case_branches-Ensures sv end nexts bs v₇
                      (kept more₇ (kept more₆ (kept more₅ (kept more₄ still))))

-- From a good state, the code of an expression panics, or it ends in a good state in which every
-- call that was made is framed by the slots that are counted then, the functions whose frames wait
-- for their size are the same, and what is left for later has at most the size of the expression.
pub expr_lem : (e : Expr) (g : Codegen) → Good g → Ended (expr_size e) Any g (expr e g)
expr_lem e g v = ended (expr-Ensures e v)
