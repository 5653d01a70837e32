-- ===== src/Infer/Exprs.antt =====
-- gen0-interp-rs/src/infer.rs: the types of patterns and of expressions. The recursion is on the
-- tree; the fuel is that of unification and of the walks over types.
use dacelo.Base.{ℕ, zero, suc, Bool, true, false, [], none, some, ◌==◌, if◌then◌else◌}
use dacelo.Base.Text.{Text}
use dacelo.Syntax.{
  Lit, Pattern, Patterns, p_lit, p_tuple, p_ctor, p_nil, p_cons, BinOp, Expr, Exprs, Branches, lit,
  ctor, lam, bin, if_else, case_of, let_in, seq, ann, e_nil, e_cons, b_nil, b_cons,
}
use dacelo.Infer.{
  Ty, Tys, no_tys, one_more, var, arrow, tuple, int, bool, string, unit, list, Scheme, application,
  cons_sides, branches_differ, left_of_seq, equality, case_branch, InferError, unbound_variable,
  unknown_constructor, ctor_arguments, left_operand, right_operand, condition_not_bool, map_err,
  Names, get, insert, insert_all, Tc, ◌>>=◌, ◌>>◌, return, fail, crash, in_context, get_env,
  set_env, bind_name, fresh,
}
use dacelo.Infer.Unify.{unify_in}
use dacelo.Infer.Schemes.{generalize_in, instantiate}
use dacelo.Infer.Annotations.{annotation}

-- A scheme with no quantified variable.
abbrev pub mono : Ty → Scheme
mono t = record { qvars = []; ty = t }

unfoldable pub lit_type : Lit → Ty
lit_type (Lit.int n) = int
lit_type (Lit.bool b) = bool
lit_type (Lit.str s) = string
lit_type Lit.unit = unit

-- `self.env.get(name)`, with what happens when it is missing.
unfoldable pub lookup : Text → Tc Scheme → Tc Scheme
lookup name missing inf = elim (get inf.env name) [ none ↦ missing inf | some sch ↦ return sch inf ]

unfoldable pub count_patterns : Patterns → ℕ
count_patterns p_nil = 0
count_patterns (p_cons p ps) = suc (count_patterns ps)

unfoldable pub count_tys : Tys → ℕ
count_tys no_tys = 0
count_tys (one_more t ts) = suc (count_tys ts)

-- `ps.iter().map(|_| Rc::new(Ty::Var(self.fresh())))`
unfoldable pub fresh_tys : ℕ → Tc Tys
fresh_tys zero = return no_tys
fresh_tys (suc n) = do v ← fresh; ts ← fresh_tys n; return (one_more (var v) ts)

-- `while let Ty::Arrow(a, b) = cur`, which looks at no link.
unfoldable pub decompose : Ty → Tys × Ty
decompose (arrow a b) = let (args, result) = decompose b in (one_more a args, result)
decompose t = (no_tys, t)

-- What types the patterns inside, in order.
abbrev pub Subpatterns : Type 0
Subpatterns = Tys → Names Scheme → Tc (Names Scheme)

module _ (f : ℕ) where
  unfoldable pub tuple_pattern : ℕ → Ty → Subpatterns → Names Scheme → Tc (Names Scheme)
  unfolding fresh_tys unify_in
  tuple_pattern n t types binds = do ts ← fresh_tys n; _ ← unify_in f t (tuple ts); types ts binds

  -- The arguments of a constructor against the patterns, and its result against the type.
  unfoldable pub apply_pattern :
      Text → ℕ → Ty → Subpatterns → Names Scheme → Tys × Ty → Tc (Names Scheme)
  unfolding count_tys unify_in
  apply_pattern name n t types binds (args, result) =
      if count_tys args == n
      then unify_in f t result >> types args binds
      else fail (ctor_arguments name (count_tys args) n)

  unfoldable pub ctor_pattern : Text → ℕ → Ty → Subpatterns → Names Scheme → Tc (Names Scheme)
  unfolding lookup instantiate decompose apply_pattern
  ctor_pattern name n t types binds = do
    sch ← lookup name (fail (unknown_constructor name))
    instantiated ← instantiate f sch
    apply_pattern name n t types binds (decompose instantiated)

  unfoldable mutual
    unfolding lit_type unify_in insert tuple_pattern ctor_pattern count_patterns

    pub pat_type : Pattern → Ty → Names Scheme → Tc (Names Scheme)
    pat_type Pattern.wildcard t binds = return binds
    pat_type (Pattern.var n) t binds = return (insert binds n (mono t))
    pat_type (p_lit l) t binds = unify_in f t (lit_type l) >> return binds
    pat_type (p_tuple ps) t binds = tuple_pattern (count_patterns ps) t (pat_types ps) binds
    pat_type (p_ctor name ps) t binds = ctor_pattern name (count_patterns ps) t (pat_types ps) binds

    pub pat_types : Patterns → Tys → Names Scheme → Tc (Names Scheme)
    pat_types (p_cons p ps) (one_more t ts) binds = pat_type p t binds >>= pat_types ps ts
    pat_types _ _ binds = return binds

  -- `self.unify(...).map_err(|_| ...)`
  unfoldable pub unify_or : InferError → Ty → Ty → Tc (Unit {0})
  unfolding map_err unify_in
  unify_or e a b inf = map_err (λ _. e) (unify_in f a b inf)

  unfoldable pub bin_check : BinOp → Ty → Ty → Ty → Tc (Unit {0})
  unfolding unify_or
  bin_check op l r want =
      unify_or (left_operand op want l) l want >> unify_or (right_operand op want r) r want

  unfoldable pub cons_type : Ty → Ty → Tc Ty
  unfolding fresh in_context unify_in
  cons_type tl tr = do
    a ← fresh
    _ ← in_context cons_sides (unify_in f tl (var a))
    _ ← in_context cons_sides (unify_in f tr (list (var a)))
    return (list (var a))

  unfoldable pub bin_type : BinOp → Ty → Ty → Tc Ty
  unfolding bin_check cons_type in_context unify_in
  bin_type BinOp.add tl tr = bin_check BinOp.add tl tr int >> return int
  bin_type BinOp.sub tl tr = bin_check BinOp.sub tl tr int >> return int
  bin_type BinOp.mul tl tr = bin_check BinOp.mul tl tr int >> return int
  bin_type BinOp.div tl tr = bin_check BinOp.div tl tr int >> return int
  bin_type BinOp.rem tl tr = bin_check BinOp.rem tl tr int >> return int
  bin_type BinOp.concat tl tr = bin_check BinOp.concat tl tr string >> return string
  bin_type BinOp.cons tl tr = cons_type tl tr
  bin_type BinOp.eq tl tr = in_context (equality BinOp.eq) (unify_in f tl tr) >> return bool
  bin_type BinOp.neq tl tr = in_context (equality BinOp.neq) (unify_in f tl tr) >> return bool
  bin_type BinOp.lt tl tr = bin_check BinOp.lt tl tr int >> return bool
  bin_type BinOp.gt tl tr = bin_check BinOp.gt tl tr int >> return bool
  bin_type BinOp.le tl tr = bin_check BinOp.le tl tr int >> return bool
  bin_type BinOp.ge tl tr = bin_check BinOp.ge tl tr int >> return bool
  bin_type BinOp.and tl tr = bin_check BinOp.and tl tr bool >> return bool
  bin_type BinOp.or tl tr = bin_check BinOp.or tl tr bool >> return bool

  -- The right-hand side of a local definition.
  unfoldable pub rhs_type : Bool → Text → Tc Ty → Tc Ty
  unfolding fresh bind_name lookup unify_in
  rhs_type true name rhs = do
    tv ← fresh
    _ ← bind_name name (mono (var tv))
    t ← rhs
    recorded ← lookup name crash
    _ ← unify_in f recorded.ty t
    return t
  rhs_type false name rhs = rhs

  unfoldable pub let_type : Bool → Text → Tc Ty → Tc Ty → Tc Ty
  unfolding get_env rhs_type generalize_in set_env bind_name
  let_type is_rec name rhs body = do
    outer ← get_env
    rt ← rhs_type is_rec name rhs
    sch ← generalize_in f outer rt
    _ ← set_env outer
    _ ← bind_name name sch
    body

  -- `self.env.insert` for each of the bindings, and the environment restored behind `body`.
  unfoldable pub with_binds : Names Scheme → Names Scheme → Tc Ty → Tc Ty
  unfolding get_env set_env insert_all
  with_binds outer binds body = do
    env ← get_env
    _ ← set_env (insert_all env binds)
    t ← body
    _ ← set_env outer
    return t

  unfoldable pub lam_type : Pattern → Tc Ty → Tc Ty
  unfolding fresh pat_type get_env with_binds
  lam_type p body = do
    tv ← fresh
    binds ← pat_type p (var tv) []
    outer ← get_env
    bt ← with_binds outer binds body
    return (arrow (var tv) bt)

  unfoldable pub app_type : Tc Ty → Tc Ty → Tc Ty
  unfolding fresh in_context unify_in
  app_type fn arg = do
    tf ← fn
    tx ← arg
    r ← fresh
    _ ← in_context application (unify_in f tf (arrow tx (var r)))
    return (var r)

  unfoldable pub if_type : Tc Ty → Tc Ty → Tc Ty → Tc Ty
  unfolding unify_or in_context unify_in
  if_type test th el = do
    tc ← test
    _ ← unify_or condition_not_bool tc bool
    tt' ← th
    te ← el
    _ ← in_context branches_differ (unify_in f tt' te)
    return tt'

  -- One branch of a `case`; `i` is its number.
  unfoldable pub branch_type : ℕ → Ty → ℕ → Names Scheme → Pattern → Tc Ty → Tc (Unit {0})
  unfolding in_context pat_type with_binds unify_in
  branch_type i st result outer pat body = do
    binds ← in_context (case_branch i) (pat_type pat st [])
    bt ← with_binds outer binds body
    in_context (case_branch i) (unify_in f bt (var result))

  unfoldable pub seq_type : Tc Ty → Tc Ty → Tc Ty
  unfolding in_context unify_in
  seq_type l r = do lt ← l; _ ← in_context left_of_seq (unify_in f lt unit); r

  unfoldable mutual
    unfolding lit_type lookup instantiate lam_type app_type bin_type if_type fresh get_env
        branch_type let_type seq_type annotation unify_in

    pub expr_type : Expr → Tc Ty
    expr_type (lit l) = return (lit_type l)
    expr_type (Expr.var n) = lookup n (fail (unbound_variable n)) >>= instantiate f
    expr_type (ctor n) = lookup n (fail (unbound_variable n)) >>= instantiate f
    expr_type (lam p body) = lam_type p (expr_type body)
    expr_type (Expr.app fn arg) = app_type (expr_type fn) (expr_type arg)
    expr_type (bin op l r) = do tl ← expr_type l; tr ← expr_type r; bin_type op tl tr
    expr_type (if_else test th el) = if_type (expr_type test) (expr_type th) (expr_type el)
    expr_type (case_of scrut branches) = do
      st ← expr_type scrut
      result ← fresh
      outer ← get_env
      _ ← branch_types 0 st result outer branches
      return (var result)
    expr_type (let_in is_rec name rhs body) = let_type is_rec name (expr_type rhs) (expr_type body)
    expr_type (seq l r) = seq_type (expr_type l) (expr_type r)
    expr_type (Expr.tuple es) = expr_types es >>= λ ts. return (tuple ts)
    expr_type (ann e t) = do at ← annotation t; et ← expr_type e; _ ← unify_in f et at; return at

    pub expr_types : Exprs → Tc Tys
    expr_types e_nil = return no_tys
    expr_types (e_cons e es) = do t ← expr_type e; ts ← expr_types es; return (one_more t ts)

    pub branch_types : ℕ → Ty → ℕ → Names Scheme → Branches → Tc (Unit {0})
    branch_types i st result outer b_nil = return tt
    branch_types i st result outer (b_cons pat body rest) =
        branch_type i st result outer pat (expr_type body)
        >> branch_types (suc i) st result outer rest
