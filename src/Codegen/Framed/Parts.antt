-- ===== src/Codegen/Framed/Parts.antt =====
-- The parts of `expr` of gen2-dcc-rs/src/codegen.rs that call no `expr`, in their frame.
use dacelo.Base.{ℕ, suc, ◌+◌, ◌≤◌, ◌<◌, refl, arith, List, [], ◌∷◌}
use dacelo.Base.Text.{Text}
use dacelo.Codegen.{Codegen, Method, ◌>>=◌, ◌>>◌, emit, x0}
use dacelo.Codegen.Arith.{int_arith, compare_ints, add_ints, sub_ints, mul_ints, load_division}
use dacelo.Codegen.Exprs.{
  expr_lit, binop, short_circuit, negate, call_binary, make_cons, make_tuple, store_slots,
}
use dacelo.Codegen.Patterns.{spill}
use dacelo.Codegen.Framed.{AllFramed, Good, Ensures, Any, step, spend, kept}
use dacelo.Codegen.Framed.Variables.{alloc_words-Ensures}
use dacelo.Codegen.Framed.Calls.{
  emit-Ensures, emit_plain, fail-Ensures, ctor-Ensures, new_label-Ensures, call_rt-Ensures,
  load_unit-Ensures,
}
use dacelo.Codegen.Framed.Shared.{intern_str-Ensures, spill-Ensures}
use dacelo.Encoder.{Cond}
use dacelo.Syntax.{BinOp, Lit}

load_division-Ensures :
    (la rb : ℕ) {g : Codegen}
    → Good g
    → la < g.frame.nslots
    → rb < g.frame.nslots
    → Ensures 0 Any g (load_division la rb)
unfolding load_division
load_division-Ensures la rb v a b = step (emit-Ensures _ v (b, tt)) λ _ g₁ v₁ more _.
    step (call_rt-Ensures _ v₁)
      λ _ g₂ v₂ more' _. emit-Ensures _ v₂ (tt, (kept more' (kept more a), (tt, tt)))

compare_ints-Ensures :
    (cond : Cond) (la rb : ℕ) {g : Codegen}
    → Good g
    → la < g.frame.nslots
    → rb < g.frame.nslots
    → Ensures 0 Any g (emit (compare_ints cond la rb))
unfolding compare_ints
compare_ints-Ensures cond la rb v a b =
    emit-Ensures _ v (a, (tt, (b, (tt, (tt, (tt, (tt, (tt, tt))))))))

int_arith-Ensures :
    (op : BinOp) (la rb : ℕ) {g : Codegen}
    → Good g
    → la < g.frame.nslots
    → rb < g.frame.nslots
    → Ensures 0 Any g (int_arith op la rb)
unfolding int_arith add_ints sub_ints mul_ints
int_arith-Ensures BinOp.lt la rb v a b = compare_ints-Ensures _ la rb v a b
int_arith-Ensures BinOp.gt la rb v a b = compare_ints-Ensures _ la rb v a b
int_arith-Ensures BinOp.le la rb v a b = compare_ints-Ensures _ la rb v a b
int_arith-Ensures BinOp.ge la rb v a b = compare_ints-Ensures _ la rb v a b
int_arith-Ensures BinOp.add la rb v a b = emit-Ensures _ v (a, (b, (tt, (tt, tt))))
int_arith-Ensures BinOp.sub la rb v a b = emit-Ensures _ v (a, (b, (tt, (tt, tt))))
int_arith-Ensures BinOp.mul la rb v a b =
    emit-Ensures _ v (a, (tt, (b, (tt, (tt, (tt, (tt, tt)))))))
int_arith-Ensures BinOp.div la rb v a b =
    step (load_division-Ensures la rb v a b) λ _ g₁ v₁ _ _. emit_plain _ v₁ refl
int_arith-Ensures BinOp.rem la rb v a b =
    step (load_division-Ensures la rb v a b) λ _ g₁ v₁ _ _. emit_plain _ v₁ refl
int_arith-Ensures _ la rb v a b = fail-Ensures _ _

abbrev pub SlotList : ℕ → List ℕ → Type 0
SlotList n [] = Unit
SlotList n (s ∷ slots) = (s < n) × SlotList n slots

SlotList-le : (n m : ℕ) (slots : List ℕ) → n ≤ m → SlotList n slots → SlotList m slots
SlotList-le n m [] l h = tt
SlotList-le n m (s ∷ slots) l h = (omega (arith, h.0), SlotList-le n m slots l h.1)

store_slots-AllFramed :
    (n i : ℕ) (slots : List ℕ) → SlotList n slots → AllFramed n (store_slots i slots)
unfolding store_slots
store_slots-AllFramed n i [] h = tt
store_slots-AllFramed n i (s ∷ slots) h = (h.0, (tt, store_slots-AllFramed n (suc i) slots h.1))

pub make_tuple-Ensures :
    (slots : List ℕ) {g : Codegen}
    → Good g
    → SlotList g.frame.nslots slots
    → Ensures 0 Any g (make_tuple slots)
unfolding make_tuple
make_tuple-Ensures slots v below = step (alloc_words-Ensures _ v) λ _ g₁ v₁ more _.
    emit-Ensures _ v₁
      (tt, (tt, store_slots-AllFramed _ 1 slots (SlotList-le _ _ slots more.slots_le below)))

make_cons-Ensures :
    (cons_id la rb : ℕ) {g : Codegen}
    → Good g
    → la < g.frame.nslots
    → rb < g.frame.nslots
    → Ensures 0 Any g (make_cons cons_id la rb)
unfolding make_cons
make_cons-Ensures cons_id la rb v a b = step (alloc_words-Ensures 4 v) λ _ g₁ v₁ more _.
    emit-Ensures _ v₁ (
      tt,
      (tt, (tt, (tt, store_slots-AllFramed _ 2 (la ∷ rb ∷ []) (kept more a, (kept more b, tt))))),
    )

negate-Ensures : {g : Codegen} → Good g → Ensures 0 Any g negate
unfolding negate
negate-Ensures v =
    step (new_label-Ensures v)
      λ t g₁ v₁ _ _. step (new_label-Ensures v₁) λ e g₂ v₂ _ _. emit_plain _ v₂ refl

call_binary-Ensures :
    (name : Text) (la : ℕ) {g : Codegen}
    → Good g
    → la < g.frame.nslots
    → Ensures 0 Any g (call_binary name la)
unfolding call_binary
call_binary-Ensures name la v a =
    step (emit-Ensures _ v (tt, (a, tt))) λ _ g₁ v₁ _ _. call_rt-Ensures _ v₁

pub expr_lit-Ensures : (l : Lit) {g : Codegen} → Good g → Ensures 0 Any g (expr_lit l)
unfolding expr_lit
expr_lit-Ensures (Lit.int n) v = emit_plain _ v refl
expr_lit-Ensures (Lit.bool b) v = emit_plain _ v refl
expr_lit-Ensures (Lit.str s) v = step (intern_str-Ensures s v) λ sym g₁ v₁ _ _. emit_plain _ v₁ refl
expr_lit-Ensures Lit.unit v = load_unit-Ensures x0 v

-- A method that leaves at most `w` for later, wherever it is called.
abbrev Leaves : ℕ → Method (Unit {0}) → Type 0
Leaves w m = (g : Codegen) → Good g → Ensures w Any g m

short_circuit-Ensures :
    (leave : Cond) (result w : ℕ) (right : Method (Unit {0})) {g : Codegen}
    → Good g
    → Leaves w right
    → Ensures w Any g (short_circuit leave result right)
unfolding short_circuit
short_circuit-Ensures leave result w right v r = step (new_label-Ensures v) λ short g₁ v₁ _ _.
    step (new_label-Ensures v₁) λ end g₂ v₂ _ _.
      step (emit_plain _ v₂ refl)
        λ _ g₃ v₃ _ _. spend {w = 0} (omega arith) (r g₃ v₃) λ _ g₄ v₄ _ _. emit_plain _ v₄ refl

-- Both sides, the first one in a slot, and a call on that slot.
pub left_in_slot :
    (u w : ℕ) (l r : Method (Unit {0})) {k : ℕ → Method (Unit {0})} {g : Codegen}
    → Good g
    → Leaves u l
    → Leaves w r
    → ((a : ℕ) (h : Codegen) → Good h → a < h.frame.nslots → Ensures 0 Any h (k a))
    → Ensures (suc (u + w)) Any g (l >> (spill x0 >>= λ a. r >> k a))
left_in_slot u w l r v l' r' k = spend {w = w} (omega arith) (l' _ v) λ _ g₁ v₁ _ _.
    step (spill-Ensures x0 v₁) λ a g₂ v₂ _ below.
      spend {w = 0} (omega arith) (r' g₂ v₂) λ _ g₃ v₃ more _. k a g₃ v₃ (kept more below)

-- The same with both sides in slots.
both_in_slots :
    (u w : ℕ) (l r : Method (Unit {0})) {k : ℕ → ℕ → Method (Unit {0})} {g : Codegen}
    → Good g
    → Leaves u l
    → Leaves w r
    → ((a b : ℕ) (h : Codegen)
        → Good h
        → a < h.frame.nslots
        → b < h.frame.nslots
        → Ensures 0 Any h (k a b))
    → Ensures (suc (u + w)) Any g (l >> (spill x0 >>= λ a. r >> (spill x0 >>= λ b. k a b)))
both_in_slots u w l r v l' r' k = left_in_slot u w l r v l' r' λ a g₁ v₁ below.
    step (spill-Ensures x0 v₁) λ b g₂ v₂ more below'. k a b g₂ v₂ (kept more below) below'

pub binop-Ensures :
    (op : BinOp) (u w : ℕ) (l r : Method (Unit {0})) {g : Codegen}
    → Good g
    → Leaves u l
    → Leaves w r
    → Ensures (suc (u + w)) Any g (binop op l r)
unfolding binop
binop-Ensures BinOp.and u w l r v l' r' =
    spend {w = w} (omega arith) (l' _ v) λ _ g₁ v₁ _ _. short_circuit-Ensures _ _ w r v₁ r'
binop-Ensures BinOp.or u w l r v l' r' =
    spend {w = w} (omega arith) (l' _ v) λ _ g₁ v₁ _ _. short_circuit-Ensures _ _ w r v₁ r'
binop-Ensures BinOp.eq u w l r v l' r' =
    left_in_slot u w l r v l' r' λ a g₁ v₁ below. call_binary-Ensures _ a v₁ below
binop-Ensures BinOp.neq u w l r v l' r' =
    left_in_slot u w l r v l' r'
      λ a g₁ v₁ below. step (call_binary-Ensures _ a v₁ below) λ _ g₂ v₂ _ _. negate-Ensures v₂
binop-Ensures BinOp.concat u w l r v l' r' =
    left_in_slot u w l r v l' r' λ a g₁ v₁ below. call_binary-Ensures _ a v₁ below
binop-Ensures BinOp.cons u w l r v l' r' = step (ctor-Ensures _ v) λ (cons_id, arity) g₁ v₁ _ _.
    both_in_slots u w l r v₁ l' r'
      λ a b g₂ v₂ below below'. make_cons-Ensures cons_id a b v₂ below below'
binop-Ensures op u w l r v l' r' =
    both_in_slots u w l r v l' r' λ a b g₁ v₁ below below'. int_arith-Ensures op a b v₁ below below'
