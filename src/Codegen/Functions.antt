-- ===== src/Codegen/Functions.antt =====
-- gen2-dcc-rs/src/codegen.rs: the code of functions, of top-level definitions and of the two entry
-- points.
use dacelo.Base.{ℕ, zero, suc, ◌+◌, true, false, List, [], ◌∷◌, ◌++◌, Option, none, some, length}
use dacelo.Base.Text.{Text, codes}
use dacelo.Codegen.{
  ◌>>=◌, ◌>>◌, Method, PendingFn, ok, timeout, return, fail, read, emit, new_label, new_fn_label,
  alloc_global, call_rt, ctor, global, fill_global, emit_gget, load_unit, fresh, builtins, x0, x1,
  index_out_of_range,
}
use dacelo.Codegen.Exprs.{expr}
use dacelo.Codegen.Frames.{set_frame, fn_prologue, fn_epilogue, make_closure, emit_apply}
use dacelo.Codegen.Patterns.{match_pat}
use dacelo.Encoder.Program.{Op}
use dacelo.Syntax.{
  Pattern, Expr, Exprs, Branches, Def, Item, def, rec_group, ty, lit, lam, app, bin, if_else,
  case_of, let_in, seq, tuple, ann, e_nil, e_cons, b_nil, b_cons,
}

-- The parameters around a body, the first one outermost.
unfoldable pub wrap_lams : List Pattern → Expr → Expr
wrap_lams [] body = body
wrap_lams (p ∷ ps) body = lam p (wrap_lams ps body)

-- `pat_name`, as the names that it adds.
unfoldable pub pat_names : Pattern → List Text
pat_names (Pattern.var n) = n ∷ []
pat_names _ = []

-- Names in slots, from slot `i` on.
unfoldable pub numbered : ℕ → List Text → List (Text × ℕ)
numbered i [] = []
numbered i (n ∷ names) = (n, i) ∷ numbered (suc i) names

-- What a level does after its parameter: the last one the body, the others a closure of the next.
unfoldable pub level_body : Expr → List ℕ → List Pattern → Method (Unit {0})
unfolding read make_closure fail expr
level_body body labels [] = expr body
level_body body [] (p ∷ ps) = fail index_out_of_range
level_body body (next ∷ labels) (p ∷ ps) = read (λ g. g.frame.scope) >>= make_closure next

-- The prologue of a level, and its frame: the names in `caps` in the slots of their numbers.
unfoldable pub enter_level : List Text → Method (Unit {0})
unfolding fn_prologue set_frame numbered
enter_level caps = do
  fn_prologue (length caps)
  set_frame (record { nslots = length caps; scope = numbered 0 caps })

-- One level: the parameter `p` and what follows it.
unfoldable pub emit_level : List Text → ℕ → Pattern → Method (Unit {0}) → Method (Unit {0})
unfolding read emit new_label enter_level match_pat fn_epilogue call_rt
emit_level caps label p rest = do
  emit (Op.bind_label label ∷ [])
  enter_level caps
  mismatch ← new_label
  match_pat p x1 mismatch
  rest
  n ← read (λ g. g.frame.nslots)
  fn_epilogue n
  emit (Op.bind_label mismatch ∷ Op.mov x0 x1 ∷ [])
  call_rt (codes "dc_match_fail")

unfoldable pub emit_levels : Expr → List Text → List ℕ → List Pattern → Method (Unit {0})
unfolding return fail emit_level level_body pat_names
emit_levels body caps labels [] = return tt
emit_levels body caps [] (p ∷ ps) = fail index_out_of_range
emit_levels body caps (label ∷ labels) (p ∷ ps) = do
  emit_level caps label p (level_body body labels ps)
  emit_levels body (caps ++ pat_names p) labels ps

unfoldable pub emit_fn_levels : PendingFn → Method (Unit {0})
unfolding emit_levels
emit_fn_levels pf = emit_levels pf.body pf.captured_names pf.labels pf.params

abbrev mutual
  -- The number of nodes.
  pub expr_size : Expr → ℕ
  expr_size (lit l) = 1
  expr_size (Expr.var n) = 1
  expr_size (Expr.ctor n) = 1
  expr_size (lam p e) = suc (expr_size e)
  expr_size (app f a) = suc (expr_size f + expr_size a)
  expr_size (bin op l r) = suc (expr_size l + expr_size r)
  expr_size (if_else c t e) = suc (expr_size c + (expr_size t + expr_size e))
  expr_size (case_of e bs) = suc (expr_size e + branches_size bs)
  expr_size (let_in r n e b) = suc (expr_size e + expr_size b)
  expr_size (seq l r) = suc (expr_size l + expr_size r)
  expr_size (tuple es) = suc (exprs_size es)
  expr_size (ann e t) = suc (expr_size e)

  pub exprs_size : Exprs → ℕ
  exprs_size e_nil = 0
  exprs_size (e_cons e es) = expr_size e + exprs_size es

  pub branches_size : Branches → ℕ
  branches_size b_nil = 0
  branches_size (b_cons p e bs) = expr_size e + branches_size bs

abbrev pub weight : List PendingFn → ℕ
weight [] = 0
weight (pf ∷ pfs) = suc (expr_size pf.body) + weight pfs

unfoldable pub set_pending : List PendingFn → Method (Unit {0})
set_pending pfs g = ok (tt, record g { pending = pfs })

unfoldable pub drain_step : List PendingFn → Method (Unit {0}) → Method (Unit {0})
unfolding return set_pending emit_fn_levels
drain_step [] rest = return tt
drain_step (pf ∷ pfs) rest = do set_pending pfs; emit_fn_levels pf; rest

-- The loop on fuel: every function that is compiled uses one unit.
unfoldable pub drain : ℕ → Method (Unit {0})
unfolding drain_step
drain zero g = timeout
drain (suc fuel) g = let rest = drain fuel in drain_step g.pending rest g

unfoldable pub drain_pending : Method (Unit {0})
unfolding drain
drain_pending g = drain (suc (weight g.pending)) g

unfoldable pub compile_def : Def → Method ℕ
unfolding return read emit new_fn_label fn_prologue set_frame wrap_lams expr fn_epilogue
compile_def d = do
  label ← new_fn_label (codes "_thunk_" ++ d.name) false
  emit (Op.bind_label label ∷ [])
  fn_prologue 0
  set_frame fresh
  expr (wrap_lams d.params d.body)
  n ← read (λ g. g.frame.nslots)
  fn_epilogue n
  return label

-- A slot for every definition, and the label of its code.
unfoldable pub compile_defs : List Def → Method (List (ℕ × ℕ))
unfolding return alloc_global compile_def
compile_defs [] = return []
compile_defs (d ∷ ds) = do
  slot ← alloc_global d.name
  label ← compile_def d
  thunks ← compile_defs ds
  return ((slot, label) ∷ thunks)

unfoldable pub compile_item : Item → Method (List (ℕ × ℕ))
unfolding return compile_defs
compile_item (def d) = compile_defs (d ∷ [])
compile_item (rec_group ds) = compile_defs ds
compile_item (ty t) = return []

unfoldable pub compile_items : List Item → Method (List (ℕ × ℕ))
unfolding return compile_item
compile_items [] = return []
compile_items (item ∷ items) = do
  thunks ← compile_item item
  others ← compile_items items
  return (thunks ++ others)

-- The constructors from number `id` on.
unfoldable pub register_ctors : ℕ → List Text → Method (Unit {0})
unfolding return ctor emit call_rt
register_ctors id [] = return tt
register_ctors id (name ∷ names) = do
  (tag, arity) ← ctor name
  emit (Op.load_const_u64 x0 id ∷ Op.load_const_u64 x1 arity ∷ [])
  call_rt (codes "dc_register_ctor")
  register_ctors (suc id) names

-- A function of the runtime on a constant, into a global slot.
unfoldable pub init_global : ℕ → Text → ℕ → Method (Unit {0})
unfolding emit call_rt fill_global
init_global idx unmangled slot = do
  emit (Op.load_const_u64 x0 idx ∷ [])
  call_rt unmangled
  fill_global slot

unfoldable pub init_builtins : ℕ → List Text → Method (Unit {0})
unfolding return global init_global
init_builtins idx [] = return tt
init_builtins idx (name ∷ names) = do
  slot ← global name
  init_global idx (codes "dc_mk_partial_builtin") slot
  init_builtins (suc idx) names

unfoldable pub init_ctor : ℕ → ℕ → Text → Method (Unit {0})
unfolding return global init_global
init_ctor id zero name = return tt
init_ctor id (suc arity) name = global name >>= init_global id (codes "dc_mk_partial_ctor")

unfoldable pub init_ctors : List Text → Method (Unit {0})
unfolding return ctor init_ctor
init_ctors [] = return tt
init_ctors (name ∷ names) = do (id, arity) ← ctor name; init_ctor id arity name; init_ctors names

unfoldable pub init_thunks : List (ℕ × ℕ) → Method (Unit {0})
unfolding return emit fill_global
init_thunks [] = return tt
init_thunks ((slot, label) ∷ thunks) = do
  emit (Op.bl label ∷ [])
  fill_global slot
  init_thunks thunks

unfoldable pub emit_init : List (ℕ × ℕ) → Method (Unit {0})
unfolding emit read new_fn_label fn_prologue register_ctors init_builtins init_ctors init_thunks
    fn_epilogue
emit_init thunks = do
  l ← new_fn_label (codes "_dc_init") true
  emit (Op.bind_label l ∷ [])
  fn_prologue 0
  names ← read (λ g. g.ctor_names)
  register_ctors 0 names
  init_builtins 0 builtins
  init_ctors names
  init_thunks thunks
  fn_epilogue 0

unfoldable pub call_main : Option ℕ → Method (Unit {0})
unfolding return emit_gget load_unit emit_apply
call_main none = return tt
call_main (some slot) = do emit_gget slot; load_unit x1; emit_apply

unfoldable pub emit_user_main : Option ℕ → Method (Unit {0})
unfolding emit new_fn_label fn_prologue call_main fn_epilogue
emit_user_main main_g = do
  l ← new_fn_label (codes "_dc_user_main") true
  emit (Op.bind_label l ∷ [])
  fn_prologue 0
  call_main main_g
  fn_epilogue 0
