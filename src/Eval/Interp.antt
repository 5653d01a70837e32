-- ===== src/Eval/Interp.antt =====
-- Evaluation, application and program execution of gen0-interp-rs/src/eval.rs. A program need not
-- stop, so each call spends one unit of fuel and `timeout` says that there was not enough.
use dacelo.Base.{ℕ, zero, suc, List, [], ◌∷◌, Option, none, some}
use dacelo.Base.Text.{codes}
use dacelo.Syntax.{
  Lit, Expr, lit, var, ctor, lam, app, bin, if_else, case_of, let_in, seq, tuple, ann, Exprs, e_nil,
  e_cons, Branches, b_nil, b_cons, BinOp, Def, Item, Program,
}
use dacelo.Eval.{
  all_builtins, Value, Values, v_nil, v_cons, v_push, closure, builtin, ctor_partial, Env, empty,
  bind, lookup, Binds, bind_all, Host, M, ◌>>=◌, ◌>>◌, return, out_of_fuel, cannot_apply,
  non_exhaustive,
}
use dacelo.Eval.Builtins.{binop}
use dacelo.Eval.Steps.{
  new_cell, fill_cell, wrap_params_ast, duplicate, patch, unless_duplicate, seed, fail_shown,
  get_var, ctor_value, apply_builtin, apply_ctor, and_op, or_op, if_op, let_value, try_pattern,
  branch_op, closure_env,
}

module _ (h : Host) where
  open h use {World}

  unfoldable mutual
    pub eval : ℕ → Expr → Env → M World Value
    eval zero e env = out_of_fuel
    eval (suc f) (lit (Lit.int n)) env = return (Value.int n)
    eval (suc f) (lit (Lit.bool b)) env = return (Value.bool b)
    eval (suc f) (lit (Lit.str s)) env = return (Value.str s)
    eval (suc f) (lit Lit.unit) env = return Value.unit
    eval (suc f) (var n) env = get_var h n env
    eval (suc f) (ctor n) env = ctor_value h n
    eval (suc f) (lam p b) env = return (Value.fun (closure none p b env))
    eval (suc f) (app g x) env = do fv ← eval f g env; xv ← eval f x env; apply f fv xv
    eval (suc f) (bin BinOp.and l r) env = eval f l env >>= and_op h (eval f r env)
    eval (suc f) (bin BinOp.or l r) env = eval f l env >>= or_op h (eval f r env)
    eval (suc f) (bin op l r) env = do lv ← eval f l env; rv ← eval f r env; binop h op lv rv
    eval (suc f) (if_else c t e) env = eval f c env >>= if_op h (eval f t env) (eval f e env)
    eval (suc f) (case_of s bs) env = do sv ← eval f s env; eval_branches f bs env sv
    eval (suc f) (let_in is_rec name rhs body) env = do
      rv ← eval f rhs env
      v ← let_value h is_rec name rv
      eval f body (bind env name v)
    eval (suc f) (seq l r) env = do _ ← eval f l env; eval f r env
    eval (suc f) (tuple es) env = do vs ← eval_all f es env; return (Value.tuple vs)
    eval (suc f) (ann e _) env = eval f e env

    -- The loop of `Expr::Tuple`.
    pub eval_all : ℕ → Exprs → Env → M World Values
    eval_all zero es env = out_of_fuel
    eval_all (suc f) e_nil env = return v_nil
    eval_all (suc f) (e_cons e es) env = do
      v ← eval f e env
      vs ← eval_all f es env
      return (v_cons v vs)

    -- The loop of `Expr::Case`.
    pub eval_branches : ℕ → Branches → Env → Value → M World Value
    eval_branches zero bs env v = out_of_fuel
    eval_branches (suc f) b_nil env v = fail_shown h non_exhaustive v
    eval_branches (suc f) (b_cons p body bs) env v =
        try_pattern h p v
        >>= branch_op h (eval_branches f bs env v) (λ found. eval f body (bind_all env found))

    pub apply : ℕ → Value → Value → M World Value
    apply zero g arg = out_of_fuel
    apply (suc f) (Value.fun (closure group p body env)) arg =
        closure_env h group env p arg >>= eval f body
    apply (suc f) (Value.fun (builtin k args)) arg = apply_builtin h k (v_push args arg)
    apply (suc f) (Value.fun (ctor_partial n tag size args)) arg =
        return (apply_ctor h n tag size (v_push args arg))
    apply (suc f) g arg = fail_shown h cannot_apply g

  -- The values of a group, in order, each patched with the shared cell.
  unfoldable pub eval_group : ℕ → ℕ → List Def → Env → M World Binds
  eval_group f i [] globals = return []
  eval_group f i (d ∷ ds) globals = do
    v ← eval f (wrap_params_ast d.params d.body) globals
    patched ← patch d.name i v
    rest ← eval_group f i ds globals
    return ((d.name, patched) ∷ rest)

  -- The part of `define_rec_group` after the shared cell is made.
  unfoldable pub fill_group : ℕ → List Def → Env → ℕ → M World Env
  fill_group f defs globals i = do
    pairs ← eval_group f i defs globals
    fill_cell i pairs
    return (bind_all globals pairs)

  unfoldable pub define_rec_group : ℕ → List Def → Env → M World Env
  define_rec_group f defs globals =
      unless_duplicate (duplicate defs) (new_cell >>= fill_group f defs globals)

  unfoldable pub run_item : ℕ → Item → Env → M World Env
  run_item f (Item.ty _) globals = return globals
  run_item f (Item.def d) globals = define_rec_group f (d ∷ []) globals
  run_item f (Item.rec_group ds) globals = define_rec_group f ds globals

  unfoldable pub define_all : ℕ → List Item → Env → M World Env
  define_all f [] globals = return globals
  define_all f (i ∷ is) globals = do env ← run_item f i globals; define_all f is env

  -- `main` is applied to the unit value if it is a function.
  unfoldable pub call_main : ℕ → Option Value → M World Value
  call_main f (some (Value.fun c)) = do _ ← apply f (Value.fun c) Value.unit; return Value.unit
  call_main f _ = return Value.unit

  unfoldable pub run_items : ℕ → Program → M World Value
  run_items f prog = do
    globals ← define_all f prog.items (seed all_builtins empty)
    call_main f (lookup globals (codes "main"))
