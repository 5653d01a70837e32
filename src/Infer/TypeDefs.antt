-- ===== src/Infer/TypeDefs.antt =====
-- gen0-interp-rs/src/infer.rs: the checks of type definitions.
use dacelo.Base.{
  ℕ, ◌+◌, Bool, true, false, ◌||◌, List, [], ◌∷◌, Option, none, some, if◌then◌else◌, length,
}
use dacelo.Base.Text.{Text, codes, text_eq}
use dacelo.Syntax.{TyAsts, CtorDecl, TyDecl}
use dacelo.Infer.{
  Ty, Tys, no_tys, one_more, var, arrow, app, Scheme, redefines_builtin, duplicate_type, ok, bind,
  Names, get, insert, Tc, ◌>>=◌, ◌>>◌, return, fail, crash, fresh,
}
use dacelo.Infer.Schemes.{free_vars_of, count_arrows}
use dacelo.Infer.Annotations.{is_builtin, resolve_all}

-- `for p in &td.params { scope.insert(p.clone(), self.fresh()); }`
unfoldable pub param_scope : List Text → Names ℕ → Tc (Names ℕ)
unfolding fresh insert
param_scope [] scope = return scope
param_scope (p ∷ params) scope = fresh >>= λ v. param_scope params (insert scope p v)

-- `Ty::Var(scope[p].clone())` for each parameter.
unfoldable pub param_vars : Names ℕ → List Text → Tc Tys
unfolding get
param_vars scope [] = return no_tys
param_vars scope (p ∷ params) = param_vars scope params >>= λ ts. elim (get scope p) [
  | none ↦ crash
  | some v ↦ return (one_more (var v) ts)
]

-- `for f in field_tys.iter().rev() { t = Ty::arrow(f.clone(), t); }`
unfoldable pub ctor_type : Tys → Ty → Ty
ctor_type no_tys result = result
ctor_type (one_more t ts) result = arrow t (ctor_type ts result)

-- `self.resolve_tyast` of each of the fields
unfoldable pub resolve_fields : Names ℕ → TyAsts → Tc Tys
unfolding resolve_all bind
resolve_fields scope fields inf = bind (resolve_all inf.tydefs scope fields) λ ts. ok (ts, inf)

unfoldable pub add_tydef : Text → ℕ → Tc (Unit {0})
unfolding insert
add_tydef name n inf = ok (tt, record inf { tydefs = insert inf.tydefs name n })

module _ (f : ℕ) where
  unfoldable pub closed_scheme : Ty → Tc Scheme
  unfolding free_vars_of bind
  closed_scheme t inf =
      bind (free_vars_of f inf.links t) λ fv. ok (record { qvars = fv; ty = t }, inf)

  unfoldable pub ctor_schemes : TyDecl → Names ℕ → List CtorDecl → Tc (Names Scheme)
  unfolding resolve_fields param_vars ctor_type closed_scheme
  ctor_schemes td scope [] = return []
  ctor_schemes td scope (cd ∷ ctors) = do
    field_tys ← resolve_fields scope cd.fields
    res_params ← param_vars scope td.params
    sch ← closed_scheme (ctor_type field_tys (app td.name res_params))
    rest ← ctor_schemes td scope ctors
    return ((cd.name, sch) ∷ rest)

  -- A constructor in the table and in the environment, with the next tag.
  unfoldable pub add_ctor : Text → Scheme → Tc (Unit {0})
  unfolding count_arrows bind insert
  add_ctor name sch inf = bind (count_arrows f inf.links sch.ty) λ arity. ok (
    tt,
    record inf {
      env = insert inf.env name sch;
      ctors = insert inf.ctors name (inf.next_tag, arity);
      next_tag = inf.next_tag + 1;
    },
  )

  unfoldable pub add_ctors : Names Scheme → Tc (Unit {0})
  unfolding add_ctor
  add_ctors [] = return tt
  add_ctors ((name, sch) ∷ rest) = add_ctor name sch >> add_ctors rest

  unfoldable pub define_type : TyDecl → Tc (Unit {0})
  unfolding param_scope add_tydef ctor_schemes add_ctors
  define_type td = do
    scope ← param_scope td.params []
    _ ← add_tydef td.name (length td.params)
    schemes ← ctor_schemes td scope td.ctors
    add_ctors schemes

  unfoldable pub is_some {ℓ} : {A : Type ℓ} → Option A → Bool
  is_some none = false
  is_some (some a) = true

  unfoldable pub check_tydef : TyDecl → Tc (Unit {0})
  unfolding is_builtin is_some get define_type
  check_tydef td inf =
      if is_builtin td.name || text_eq td.name (codes "List")
      then fail (redefines_builtin td.name) inf
      else if is_some (get inf.tydefs td.name)
      then fail (duplicate_type td.name) inf
      else define_type td inf
