-- ===== src/Tests/CodegenTests.antt =====
-- The model of gen2-dcc-rs/src/codegen.rs on small inputs.
use dacelo.Base.{◌≡◌, refl, [], ◌∷◌, Option, none, some}
use dacelo.Base.Int.{pos}
use dacelo.Base.Text.{Text, codes, text_eq}
use dacelo.Codegen.{
  Codegen, FnState, Gen, GenPanic, ◌>>=◌, tagged_int, unwrap_none, unbound_variable,
}
use dacelo.Encoder.{patch32, push4}
use dacelo.Encoder.Program.{assemble}
use dacelo.Encoder.Instructions.{
  str_off, mem_op, str_slot, slot_op, ldr_slot, sub_imm, with_imm12, patch_movz_imm16, add_reg,
  load_const_i64, load_const_u64, movz,
}
use dacelo.Base.{true, false, arith}
use dacelo.Base.{◌+◌, ◌*◌, if◌then◌else◌, ◌==◌}
use dacelo.Codegen.Arith.{compare_ints}
use dacelo.Codegen.Machine.{Machine, run, exec}
use dacelo.Codegen.Machine.Closures.{Carried, enter_level-store_captured}
use dacelo.Codegen.Machine.Ints.{tagged, result, compare_ints-run}
use dacelo.Base.{sym, ap, ℕ, List, ◌<◌, inl, inr, Bool-cases}
use mathlib.Core.Option.{some-injective}
use dacelo.Codegen.Machine.Sides.{Denotes, num, local, sum, Known, Leaves}
use dacelo.Codegen.Machine.Exprs.{expr-Went}
use dacelo.Codegen.Machine.Agrees
use dacelo.Codegen.Machine.Agrees.{Evaluates, expr-Agrees}
use dacelo.Eval.Numbers.{wrapping_add, wrap64, ◌+ℤ◌}
use dacelo.Codegen.Machine.Steps.{Went}
use dacelo.Encoder.{Cond}
use dacelo.Codegen.Exprs.{scope_names, expr}
use dacelo.Codegen.Framed.{Good, Ended, Any}
use dacelo.Codegen.Framed.Bytes.{BodyInFrame, expr-BodyInFrame}
use dacelo.Codegen.Framed.Drain.{Drained, drain_pending-Drained}
use dacelo.Codegen.Framed.Exprs.{expr_lem}
use dacelo.Codegen.Framed.Sound.{Sound}
use dacelo.Codegen.Frames.{find_last, open_frame, fn_epilogue, store_captured}
use dacelo.Codegen.Functions.{enter_level, drain_pending, pat_names, numbered}
use dacelo.Encoder
use dacelo.Encoder.Instructions
use dacelo.Encoder.WellFormed.{new-IsWellFormed}
use dacelo.Codegen.Object.{empty}
use dacelo.Syntax.{
  Program, Item, BinOp, Lit, Pattern, Expr, lit, lam, bin, let_in, seq, p_tuple, p_cons, p_nil,
}

abbrev start : Codegen
start = empty [] []

abbrev two_plus_three : Expr
two_plus_three = bin BinOp.add (lit (Lit.int (pos 2))) (lit (Lit.int (pos 3)))

abbrev after : Gen (Unit {0} × Codegen) → Codegen
after (Gen.ok (u, g)) = g
after _ = start

abbrev panic_of : Gen (Unit {0} × Codegen) → Option GenPanic
panic_of (Gen.panic p) = some p
panic_of _ = none

start-Good : Good start
unfolding empty
start-Good = record { scope_below = tt; labels_fit = tt; aligned = refl }

expr_lem_example : Ended 3 Any start (expr two_plus_three start)
expr_lem_example = expr_lem two_plus_three start start-Good

-- A function whose frame is open at offset 0.
abbrev opened : Codegen
opened = record start { frame_patches = 0 ∷ [] }

abbrev summed : Codegen
summed = after (expr two_plus_three opened)

abbrev returned : Codegen
returned = after (fn_epilogue 2 summed)

opened-Good : Good opened
unfolding empty
opened-Good = record { scope_below = tt; labels_fit = tt; aligned = refl }

summed_lem : expr two_plus_three opened ≡ Gen.ok (tt, summed)
unfolding expr empty ◌>>=◌ assemble str_slot slot_op ldr_slot sub_imm with_imm12
summed_lem = refl

returned_lem : fn_epilogue summed.frame.nslots summed ≡ Gen.ok (tt, returned)
unfolding expr empty fn_epilogue ◌>>=◌ assemble str_slot slot_op ldr_slot sub_imm with_imm12
    patch_movz_imm16 patch32 push4 add_reg load_const_i64 load_const_u64 tagged_int movz
returned_lem = refl

expr-BodyInFrame_example : BodyInFrame opened summed returned
expr-BodyInFrame_example =
    expr-BodyInFrame two_plus_three opened summed returned opened-Good summed_lem returned_lem

-- The identity, left for later with label 0.
abbrev waiting : Codegen
waiting = record start {
  pending =
      record {
        labels = 0 ∷ [];
        syms = codes "_L1" ∷ [];
        captured_names = [];
        params = Pattern.var (codes "x") ∷ [];
        body = Expr.var (codes "x");
      }
      ∷ [];
}

waiting-Sound : Sound waiting
unfolding empty
waiting-Sound = record {
  good = record { scope_below = tt; labels_fit = ((omega arith, tt), tt); aligned = refl };
  well_formed = new-IsWellFormed;
}

drain_pending-Drained_example : Drained waiting (drain_pending waiting)
drain_pending-Drained_example = drain_pending-Drained waiting waiting-Sound

abbrev one_def : Program
one_def = record {
  items =
      Item.def (record {
        name = codes "main";
        params = Pattern.var (codes "u") ∷ [];
        ann = none;
        body = two_plus_three;
        is_rec = false;
      })
      ∷ [];
}

-- A local recursive function with the name of another local panics.
shadowed_rec : Expr
shadowed_rec =
    let_in true (codes "f") (lam (Pattern.var (codes "y")) (Expr.var (codes "y"))) (lit Lit.unit)

abbrev with_f : Codegen
with_f = record start { frame = record { nslots = 1; scope = (codes "f", 0) ∷ [] } }

shadowed_rec_lem : panic_of (expr shadowed_rec with_f) ≡ some unwrap_none
unfolding shadowed_rec expr empty ◌>>=◌ assemble str_off mem_op text_eq
shadowed_rec_lem = refl

-- A local `let` is in scope behind its body.
leaking_let :
    panic_of (
      expr
        (seq (let_in false (codes "x") (lit Lit.unit) (lit Lit.unit)) (Expr.var (codes "x")))
        start)
    ≡ none
unfolding expr empty ◌>>=◌ assemble str_slot slot_op text_eq ldr_slot
leaking_let = refl

-- The variables of the tuple pattern of an earlier parameter are not in scope.
abbrev behind_tuple : Codegen
behind_tuple = record start {
  frame = record {
    nslots = 0;
    scope = numbered 0 (
        pat_names
          (p_tuple (p_cons (Pattern.var (codes "a")) (p_cons (Pattern.var (codes "b")) p_nil))));
  };
}

lost_variable :
    panic_of (expr (Expr.var (codes "a")) behind_tuple) ≡ some (unbound_variable (codes "a"))
unfolding expr empty ◌>>=◌ pat_names numbered text_eq
lost_variable = refl

-- 5 and 3 in slots 0 and 1.
abbrev five_three : Machine
five_three = record {
  regs = λ r. 0;
  slots = λ s. if s == 0 then 5 * 4 + 1 else 3 * 4 + 1;
  memory = λ a. 0;
  compared = (0, 0);
}

compare_ints-run_example : result (run (compare_ints Cond.lt 0 1) five_three) ≡ some 3
compare_ints-run_example =
    compare_ints-run Cond.lt false five_three 0 1 5 3 (omega arith) (omega arith) (omega arith)
      (omega arith) refl refl refl

-- Two locals, and the machine after they are captured by a closure at address 1000.
abbrev two_locals : FnState
two_locals = record { nslots = 2; scope = (codes "a", 1) ∷ (codes "b", 0) ∷ [] }

abbrev at_object : Machine
at_object = record { regs = λ r. 1000; slots = λ s. s + 7; memory = λ a. 0; compared = (0, 0) }

abbrev machine_or : Machine → Option Machine → Machine
machine_or d none = d
machine_or d (some m) = m

abbrev captured : Machine
captured = machine_or at_object (run (store_captured 0 two_locals.scope) at_object)

captured_lem : run (store_captured 0 two_locals.scope) at_object ≡ some captured
unfolding run exec store_captured
captured_lem = refl

abbrev framed_start : Codegen
framed_start = after (open_frame start)

framed_start_lem : open_frame start ≡ Gen.ok (tt, framed_start)
unfolding open_frame ◌>>=◌ assemble Instructions.mov_sp_fp Instructions.add_imm with_imm12
    Encoder.bind_label add_reg push4 Instructions.sub_sp_reg load_const_u64 movz
    Instructions.stp_fp_lr empty Instructions.b Instructions.emit_fixup Instructions.str_xzr_post8
    Instructions.b_cond Instructions.cmp_reg
framed_start_lem = refl

enter_level-store_captured_example :
    Went framed_start captured
      (λ _ h callee. Carried two_locals at_object (codes "b") h.frame callee)
      (enter_level (codes "a" ∷ codes "b" ∷ []) start)
unfolding scope_names
enter_level-store_captured_example =
    enter_level-store_captured two_locals at_object captured captured (codes "b") start framed_start
      captured_lem refl refl framed_start_lem

-- `a` in slot 1, which holds 3.
abbrev one_local : List (Text × ℕ)
one_local = (codes "a", 1) ∷ []

abbrev local_frame : Codegen
local_frame = record start { frame = record { nslots = 2; scope = one_local } }

abbrev at_slot : ℕ → ℕ
at_slot s = five_three.slots s

one_local-Known : Known one_local (λ s. 3) 2 five_three
unfolding find_last
one_local-Known name s e = elim (Bool-cases (text_eq (codes "a") name)) [
  | inl same ↦ at_one s (rw same at e)
  | inr other ↦ absurd (cc)
]
  where
    at_one : (s : ℕ) → some 1 ≡ some s → (s < 2) × (five_three.slots s ≡ tagged 3)
    at_one s e = let is : 1 ≡ s = some-injective _ _ e in (omega (arith, is), ap at_slot (sym is))

a_plus_3 :
    Denotes one_local (λ s. 3) (bin BinOp.add (Expr.var (codes "a")) (lit (Lit.int (pos 3)))) 6
unfolding find_last text_eq
a_plus_3 = sum (local refl) (num (pos 3))

a_plus_3_evaluates :
    Evaluates one_local
      (λ s. pos 3)
      (bin BinOp.add (Expr.var (codes "a")) (lit (Lit.int (pos 3))))
      (pos 6)
unfolding find_last text_eq wrapping_add wrap64 ◌+ℤ◌
a_plus_3_evaluates = Agrees.sum (Agrees.local refl) (Agrees.num (pos 3))

expr-Went_example :
    Went local_frame five_three
      (λ _. Leaves local_frame five_three 6)
      (expr (bin BinOp.add (Expr.var (codes "a")) (lit (Lit.int (pos 3)))) local_frame)
expr-Went_example =
    expr-Went one_local (λ s. 3) (bin BinOp.add (Expr.var (codes "a")) (lit (Lit.int (pos 3)))) 6
      local_frame five_three a_plus_3 refl one_local-Known

expr-Agrees_example :
    Went local_frame five_three
      (λ _. Leaves local_frame five_three 6)
      (expr (bin BinOp.add (Expr.var (codes "a")) (lit (Lit.int (pos 3)))) local_frame)
expr-Agrees_example =
    expr-Agrees one_local (λ s. pos 3)
      (bin BinOp.add (Expr.var (codes "a")) (lit (Lit.int (pos 3)))) (pos 6) local_frame five_three
      a_plus_3_evaluates refl one_local-Known
