-- ===== src/Codegen/Exprs.antt =====
-- gen2-dcc-rs/src/codegen.rs: the code of an expression, whose value it leaves in x0.
use dacelo.Base.{
  ℕ, zero, suc, ◌+◌, ◌*◌, Bool, true, false, List, [], ◌∷◌, ◌++◌, Option, none, some, if◌then◌else◌,
  length, map, get_elem?, take,
}
use dacelo.Base.Decimal.{to_decimal}
use dacelo.Base.Int.{pos}
use dacelo.Base.Text.{Text, codes, text_eq}
use dacelo.Codegen.{
  ◌>>=◌, ◌>>◌, Method, PendingFn, ok, return, fail, read, expect, emit, new_label, new_labels,
  next_u32, set_label_sym, call_rt, ctor, load_unit, x0, x1, hdr, tag_tuple, tag_adt, tagged_int,
  tagged_bool, unbound_variable, index_out_of_range, unwrap_none,
}
use dacelo.Codegen.Arith.{int_arith}
use dacelo.Codegen.Data.{intern_str}
use dacelo.Codegen.Frames.{
  alloc_words, closure_head, load_ctor_value, load_var, make_closure, emit_apply, push_scope,
  set_scope,
}
use dacelo.Codegen.Patterns.{match_pat, spill}
use dacelo.Encoder.{Cond, r9, eq, ne}
use dacelo.Encoder.Program.{Op}
use dacelo.Syntax.{
  BinOp, Lit, Pattern, Expr, Exprs, Branches, lit, lam, app, bin, if_else, case_of, let_in, seq,
  tuple, ann, e_nil, e_cons, b_nil, b_cons,
}

unfoldable pub exprs_len : Exprs → ℕ
exprs_len e_nil = 0
exprs_len (e_cons e es) = suc (exprs_len es)

unfoldable pub branches_len : Branches → ℕ
branches_len b_nil = 0
branches_len (b_cons p e bs) = suc (branches_len bs)

-- The parameters of nested lambdas, and the body.
unfoldable pub lam_params : Expr → List Pattern
lam_params (lam p inner) = p ∷ lam_params inner
lam_params _ = []

unfoldable pub lam_body : Expr → Expr
lam_body (lam p inner) = lam_body inner
lam_body e = e

-- The symbol of level `k` of function `base`.
unfoldable pub level_sym : ℕ → ℕ → Text
level_sym base zero = codes "_L" ++ to_decimal base
level_sym base (suc k) = codes "_L" ++ to_decimal base ++ codes "__" ++ to_decimal (suc k)

-- The symbols of `n` levels from level `k` on.
unfoldable pub level_syms : ℕ → ℕ → ℕ → List Text
unfolding level_sym
level_syms base k zero = []
level_syms base k (suc n) = level_sym base k ∷ level_syms base (suc k) n

unfoldable pub set_label_syms : List ℕ → List Text → Method (Unit {0})
unfolding return set_label_sym
set_label_syms (l ∷ ls) (sym ∷ syms) = do set_label_sym l sym false; set_label_syms ls syms
set_label_syms _ _ = return tt

unfoldable pub set_lam_counter : ℕ → Method (Unit {0})
set_lam_counter n g = ok (tt, record g { lam_counter = n })

-- `self.lam_counter += 1`
unfoldable pub next_lam : Method ℕ
unfolding return read next_u32 set_lam_counter
next_lam = do n ← read (λ g. g.lam_counter); next ← next_u32 n; set_lam_counter next; return next

-- The labels and the symbols of the levels of a function with `n` parameters.
unfoldable pub new_levels : ℕ → Method (List ℕ × List Text)
unfolding return next_lam new_labels set_label_syms level_syms
new_levels n = do
  base ← next_lam
  labels ← new_labels n
  set_label_syms labels (level_syms base 0 n)
  return (labels, level_syms base 0 n)

unfoldable pub push_pending : PendingFn → Method (Unit {0})
push_pending pf g = ok (tt, record g { pending = pf ∷ g.pending })

-- `labels[0]`
unfoldable pub first_label : List ℕ → Method ℕ
unfolding expect
first_label labels = expect index_out_of_range (get_elem? labels 0)

unfoldable pub scope_names : List (Text × ℕ) → List Text
scope_names scope = map (λ entry. entry.0) scope

unfoldable pub lambda : Expr → Method (Unit {0})
unfolding lam_params lam_body read new_levels first_label make_closure push_pending scope_names
lambda e = do
  captured ← read (λ g. g.frame.scope)
  (labels, syms) ← new_levels (length (lam_params e))
  label ← first_label labels
  make_closure label captured
  push_pending (record {
    labels = labels;
    syms = syms;
    captured_names = scope_names captured;
    params = lam_params e;
    body = lam_body e;
  })

-- The locals, and the recursive name with no slot.
unfoldable pub rec_captured : List (Text × ℕ) → Text → List (Text × Option ℕ)
rec_captured [] name = (name, none) ∷ []
rec_captured ((n, s) ∷ scope) name = (n, some s) ∷ rec_captured scope name

-- `position` of the name
unfoldable pub position : Text → List (Text × Option ℕ) → Option ℕ
position name [] = none
position name ((n, src) ∷ captured) =
    let later : Option ℕ = elim (position name captured) [ none ↦ none | some i ↦ some (suc i) ] in
    if text_eq n name then some 0 else later

-- One captured word, unless it is the function itself.
unfoldable pub store_word : ℕ → Option ℕ → Method (Unit {0})
unfolding fail emit
store_word j none = fail unwrap_none
store_word j (some src) = emit (Op.ldr_slot r9 src ∷ Op.str_off r9 x0 (pos (24 + 8 * j)) ∷ [])

-- The captured words from number `j` on, without the one that is `skip` words further.
unfoldable pub store_others : ℕ → Option ℕ → List (Text × Option ℕ) → Method (Unit {0})
unfolding return store_word
store_others j skip [] = return tt
store_others j (some zero) (entry ∷ captured) = store_others (suc j) none captured
store_others j (some (suc i)) ((n, src) ∷ captured) = do
  store_word j src
  store_others (suc j) (some i) captured
store_others j none ((n, src) ∷ captured) = do store_word j src; store_others (suc j) none captured

-- The closure of a recursive function, under its name in a new slot. The code that follows is the
-- code of the body of the `let`.
unfoldable pub local_rec_closure : Text → Expr → Method (Unit {0})
unfolding lam_params lam_body read new_levels rec_captured alloc_words first_label closure_head emit
    expect position store_others spill push_scope push_pending scope_names
local_rec_closure name rhs = do
  scope ← read (λ g. g.frame.scope)
  let captured = rec_captured scope name
  (labels, syms) ← new_levels (length (lam_params rhs))
  alloc_words (3 + length captured)
  label ← first_label labels
  emit (closure_head label (length captured))
  self_idx ← expect unwrap_none (position name captured)
  store_others 0 (some self_idx) captured
  emit (Op.str_off x0 x0 (pos (24 + 8 * self_idx)) ∷ [])
  holder ← spill x0
  push_scope name holder
  push_pending (record {
    labels = labels;
    syms = syms;
    captured_names = scope_names scope ++ name ∷ [];
    params = lam_params rhs;
    body = lam_body rhs;
  })

unfoldable pub load_name : Text → Bool → Method (Unit {0})
unfolding return fail
load_name n true = return tt
load_name n false = fail (unbound_variable n)

-- The words of a new object, from slots, from word `i` on.
unfoldable pub store_slots : ℕ → List ℕ → List Op
store_slots i [] = []
store_slots i (s ∷ slots) =
    Op.ldr_slot r9 s ∷ Op.str_off r9 x0 (pos (8 * i)) ∷ store_slots (suc i) slots

unfoldable pub make_tuple : List ℕ → Method (Unit {0})
unfolding alloc_words emit store_slots
make_tuple slots = do
  alloc_words (1 + length slots)
  emit (
      Op.load_const_u64 r9 (hdr tag_tuple (1 + length slots))
      ∷ Op.str_off r9 x0 (pos 0)
      ∷ store_slots 1 slots)

-- `Cons` of the values in two slots.
unfoldable pub make_cons : ℕ → ℕ → ℕ → Method (Unit {0})
unfolding alloc_words emit store_slots
make_cons cons_id la rb = do
  alloc_words 4
  emit (
      Op.load_const_u64 r9 (hdr tag_adt 4)
      ∷ Op.str_off r9 x0 (pos 0)
      ∷ Op.load_const_u64 r9 cons_id
      ∷ Op.str_off r9 x0 (pos 8)
      ∷ store_slots 2 (la ∷ rb ∷ []))

-- The value in x0, a Boolean, negated.
unfoldable pub negate : Method (Unit {0})
unfolding new_label emit
negate = do
  t ← new_label
  e ← new_label
  emit (
      Op.cmp_imm x0 7
      ∷ Op.b_cond eq t
      ∷ Op.load_const_i64 x0 (pos 7)
      ∷ Op.b e
      ∷ Op.bind_label t
      ∷ Op.load_const_i64 x0 (pos 3)
      ∷ Op.bind_label e
      ∷ [])

-- A function of the runtime on the value in a slot and the value in x0.
unfoldable pub call_binary : Text → ℕ → Method (Unit {0})
unfolding emit call_rt
call_binary unmangled la = do emit (Op.mov x1 x0 ∷ Op.ldr_slot x0 la ∷ []); call_rt unmangled

unfoldable pub expr_lit : Lit → Method (Unit {0})
unfolding emit intern_str load_unit
expr_lit (Lit.int n) = emit (Op.load_const_i64 x0 (tagged_int n) ∷ [])
expr_lit (Lit.bool b) = emit (Op.load_const_i64 x0 (pos (tagged_bool b)) ∷ [])
expr_lit (Lit.str s) = do sym ← intern_str s; emit (Op.ldr_lit_extern x0 sym ∷ [])
expr_lit Lit.unit = load_unit x0

-- `and` and `or`: the condition to leave, the result then, and the code of the right side.
unfoldable pub short_circuit : Cond → ℕ → Method (Unit {0}) → Method (Unit {0})
unfolding new_label emit
short_circuit leave result right = do
  short ← new_label
  end ← new_label
  emit (Op.cmp_imm x0 7 ∷ Op.b_cond leave short ∷ [])
  right
  emit (Op.b end ∷ Op.bind_label short ∷ Op.load_const_i64 x0 (pos result) ∷ Op.bind_label end ∷ [])

-- The code of an operator, around the code of its sides.
unfoldable pub binop : BinOp → Method (Unit {0}) → Method (Unit {0}) → Method (Unit {0})
unfolding short_circuit spill call_binary negate ctor make_cons int_arith
binop BinOp.and l r = do l; short_circuit ne 3 r
binop BinOp.or l r = do l; short_circuit eq 7 r
binop BinOp.eq l r = do l; sa ← spill x0; r; call_binary (codes "dc_val_eq") sa
binop BinOp.neq l r = do l; sa ← spill x0; r; call_binary (codes "dc_val_eq") sa; negate
binop BinOp.concat l r = do l; la ← spill x0; r; call_binary (codes "dc_bi_str_concat") la
binop BinOp.cons l r = do
  (cons_id, arity) ← ctor (codes "Cons")
  l
  la ← spill x0
  r
  rb ← spill x0
  make_cons cons_id la rb
binop op l r = do l; la ← spill x0; r; rb ← spill x0; int_arith op la rb

unfoldable mutual
  unfolding return fail read emit new_label new_labels call_rt spill set_scope push_scope expr_lit
      load_var load_name load_ctor_value emit_apply binop make_tuple lambda local_rec_closure
      match_pat branches_len

  pub expr : Expr → Method (Unit {0})
  expr (lit l) = expr_lit l
  expr (Expr.var n) = load_var n >>= load_name n
  expr (Expr.ctor name) = load_ctor_value name
  expr (app fe ae) = do
    expr fe
    sf ← spill x0
    expr ae
    emit (Op.mov x1 x0 ∷ Op.ldr_slot x0 sf ∷ [])
    emit_apply
  expr (bin op l r) = binop op (expr l) (expr r)
  expr (if_else c t el) = do
    expr c
    else_l ← new_label
    end_l ← new_label
    emit (Op.cmp_imm x0 7 ∷ Op.b_cond ne else_l ∷ [])
    expr t
    emit (Op.b end_l ∷ Op.bind_label else_l ∷ [])
    expr el
    emit (Op.bind_label end_l ∷ [])
  expr (case_of scrut branches) = do
    expr scrut
    sv ← spill x0
    end ← new_label
    nexts ← new_labels (branches_len branches)
    case_branches sv end nexts branches
    emit (Op.ldr_slot x0 sv ∷ [])
    call_rt (codes "dc_match_fail")
    emit (Op.bind_label end ∷ [])
  expr (let_in true name rhs body) = do local_rec_closure name rhs; expr body
  expr (let_in false name rhs body) = do expr rhs; s ← spill x0; push_scope name s; expr body
  expr (seq l r) = do expr l; expr r
  expr (tuple es) = expr_slots es >>= make_tuple
  expr (ann inner t) = expr inner
  expr (lam p inner) = lambda (lam p inner)

  -- The values of expressions, each in a slot of its own.
  pub expr_slots : Exprs → Method (List ℕ)
  expr_slots e_nil = return []
  expr_slots (e_cons e es) = do expr e; s ← spill x0; slots ← expr_slots es; return (s ∷ slots)

  pub case_branches : ℕ → ℕ → List ℕ → Branches → Method (Unit {0})
  case_branches sv end nexts b_nil = return tt
  case_branches sv end [] (b_cons pat body bs) = fail index_out_of_range
  case_branches sv end (next ∷ nexts) (b_cons pat body bs) = do
    saved_len ← read (λ g. length g.frame.scope)
    emit (Op.ldr_slot x1 sv ∷ [])
    match_pat pat x1 next
    expr body
    scope ← read (λ g. g.frame.scope)
    set_scope (take saved_len scope)
    emit (Op.b end ∷ Op.bind_label next ∷ [])
    case_branches sv end nexts bs
