-- ===== src/Infer/Annotations.antt =====
-- gen0-interp-rs/src/infer.rs: types of the source as types of the inference.
use dacelo.Base.{ℕ, suc, ◌+◌, Bool, ◌&&◌, ◌||◌, [], Option, none, some, ◌==◌, if◌then◌else◌}
use dacelo.Base.Text.{Text, codes, text_eq}
use dacelo.Syntax.{TyAst, TyAsts, t_var, t_con, t_nil, t_cons, t_tuple}
use dacelo.Infer.{
  Ty, Tys, no_tys, one_more, con, var, tuple, app, list, unbound_type_variable, unknown_type,
  list_arguments, type_arguments, Inferred, ok, err, bind, Names, get, insert, Tc,
}

unfoldable pub count_asts : TyAsts → ℕ
count_asts t_nil = 0
count_asts (t_cons t ts) = suc (count_asts ts)

unfoldable pub is_builtin : Text → Bool
is_builtin name =
    text_eq name (codes "Int")
    || text_eq name (codes "Bool")
    || text_eq name (codes "String")
    || text_eq name (codes "Unit")

unfoldable pub scope_var : Text → Option ℕ → Inferred Ty
scope_var v (some id) = ok (var id)
scope_var v none = err (unbound_type_variable v)

-- `List` with its arguments resolved, in so far as there is one.
unfoldable pub list_of : Inferred Tys → ℕ → Inferred Ty
unfolding bind
list_of args n = if n == 1 then bind args one_list else err list_arguments
  where
    one_list : Tys → Inferred Ty
    one_list no_tys = err list_arguments
    one_list (one_more e rest) = ok (list e)

unfoldable pub apply_def : Text → Inferred Tys → ℕ → Option ℕ → Inferred Ty
unfolding bind
apply_def name args n (some ar) =
    if ar == n then bind args (λ ts. ok (app name ts)) else err (type_arguments name ar n)
apply_def name args n none = err (unknown_type name)

-- The arms for `TyAst::TCon`; `args` are the arguments resolved, which the errors come before.
unfoldable pub resolve_con : Names ℕ → Text → ℕ → Inferred Tys → Inferred Ty
unfolding is_builtin list_of apply_def get
resolve_con tydefs name n args =
    if is_builtin name && n == 0
    then ok (con name)
    else if text_eq name (codes "List")
    then list_of args n
    else apply_def name args n (get tydefs name)

unfoldable mutual
  unfolding bind scope_var get resolve_con count_asts

  pub resolve_tyast : Names ℕ → Names ℕ → TyAst → Inferred Ty
  resolve_tyast tydefs scope (t_var v) = scope_var v (get scope v)
  resolve_tyast tydefs scope (t_con name args) =
      resolve_con tydefs name (count_asts args) (resolve_all tydefs scope args)
  resolve_tyast tydefs scope (TyAst.arrow a b) =
      bind (resolve_tyast tydefs scope a)
        λ a'. bind (resolve_tyast tydefs scope b) λ b'. ok (Ty.arrow a' b')
  resolve_tyast tydefs scope (t_tuple ts) = bind (resolve_all tydefs scope ts) λ ts'. ok (tuple ts')

  pub resolve_all : Names ℕ → Names ℕ → TyAsts → Inferred Tys
  resolve_all tydefs scope t_nil = ok no_tys
  resolve_all tydefs scope (t_cons t ts) =
      bind (resolve_tyast tydefs scope t)
        λ t'. bind (resolve_all tydefs scope ts) λ ts'. ok (one_more t' ts')

-- `scope.entry(v.clone()).or_insert_with(|| inf.fresh())`, with the next variable.
unfoldable pub scope_entry : Text → Option ℕ → Names ℕ × ℕ → Names ℕ × ℕ
unfolding insert
scope_entry v (some id) (scope, next) = (scope, next)
scope_entry v none (scope, next) = (insert scope v next, next + 1)

unfoldable mutual
  unfolding get scope_entry

  pub walk : TyAst → Names ℕ × ℕ → Names ℕ × ℕ
  walk (t_var v) (scope, next) = scope_entry v (get scope v) (scope, next)
  walk (t_con name args) k = walk_all args k
  walk (TyAst.arrow a b) k = walk b (walk a k)
  walk (t_tuple ts) k = walk_all ts k

  pub walk_all : TyAsts → Names ℕ × ℕ → Names ℕ × ℕ
  walk_all t_nil k = k
  walk_all (t_cons t ts) k = walk_all ts (walk t k)

-- An annotation as a type: `fresh_scope_for_ann` from an empty scope, then `resolve_tyast`.
unfoldable pub annotation : TyAst → Tc Ty
unfolding bind walk resolve_tyast
annotation ast inf =
    let (scope, next) = walk ast ([], inf.counter) in
    bind (resolve_tyast inf.tydefs scope ast) λ t. ok (t, record inf { counter = next })
