-- ===== src/Tests/InferTests.antt =====
-- Tests of the model of gen0-interp-rs/src/infer.rs.
use dacelo.Base.{◌≡◌, refl, ◌+◌, ◌≤◌, arith, false, [], ◌∷◌, Option, none, some}
use dacelo.Base.Int.{pos}
use dacelo.Base.Text.{Text, codes, text_eq}
use dacelo.Syntax.{Lit, Pattern, BinOp, Expr, lit, bin, let_in, Def, Item}
use dacelo.Infer.{
  link_of, bind, map_err, get, remove, insert, insert_all, ◌>>=◌, return, fail, crash, in_context,
  get_env, set_env, bind_name, fresh, Ty, Tys, no_tys, one_more, var, arrow, app, int, list, Links,
  Scheme, InferError, Inferred, ok, err, Names, Infer,
}
use dacelo.Infer.Unify.{
  follow, prune, or_else, any, occurs_in, occurs, unify_all, same_length, set_link, link_var,
  unify_pruned, unify, unify_in,
}
use dacelo.Infer.Schemes.{
  contains, insert_var, collect_all, collect_in, collect_free, free_vars_of, insert_unless,
  free_in_env_onto, free_in_env, difference, generalize, generalize_in, entry, inst_all, inst_in,
  inst_go, instantiate, arrows_in, count_arrows,
}
use dacelo.Infer.Annotations.{
  count_asts, is_builtin, scope_var, list_of, apply_def, resolve_con, scope_entry, annotation,
  resolve_tyast, resolve_all, walk, walk_all,
}
use dacelo.Infer.Exprs.{
  lit_type, lookup, count_patterns, count_tys, fresh_tys, decompose, tuple_pattern, apply_pattern,
  ctor_pattern, unify_or, bin_check, cons_type, bin_type, rhs_type, let_type, with_binds, lam_type,
  app_type, if_type, branch_type, seq_type, pat_type, pat_types, expr_type, expr_types,
  branch_types, mono,
}
use dacelo.Infer.TypeDefs.{
  param_scope, param_vars, ctor_type, resolve_fields, add_tydef, closed_scheme, ctor_schemes,
  add_ctor, add_ctors, define_type, is_some, check_tydef,
}
use dacelo.Infer.Items.{
  has_name, duplicate, full_type, params_type, members, placeholder, placeholders, unify_recorded,
  body_type, body_types, check_ann, check_anns, generalize_all, infer_members, unless_duplicate,
  infer_def_group, add_schemes, process_item, process_items, check_program, new,
}
use dacelo.Infer.Unify.Solutions.{subst_ty}
use dacelo.Infer.Unify.Solved.{Solved, unify-Solved}
use dacelo.Infer.Unify.Acyclic.{Acyclic-nil}
use dacelo.Infer.Unify.Looks.{Below, BelowLinks}
use dacelo.Infer.Unify.Ends.{Ends}
use dacelo.Infer.Schemes.Free.{Agrees, collect_free-Agrees}
use dacelo.Infer.Schemes.Generalize.{Generalizes, generalize-Generalizes}
use dacelo.Infer.Schemes.Arity.{count_arrows-ctor_type}
use dacelo.Infer.Unify.Terminates.{unify-Ends}

-- `v0 -> Int` against `[v1] -> v1`
abbrev left_ty : Ty
left_ty = arrow (var 0) int

abbrev right_ty : Ty
right_ty = arrow (list (var 1)) (var 1)

unify_arrows : unify 5 left_ty right_ty [] ≡ ok ((1, int) ∷ (0, list (var 1)) ∷ [])
unfolding follow prune or_else any occurs_in occurs unify_all same_length set_link link_var
    unify_pruned unify unify_in link_of bind text_eq
unify_arrows = refl

unify_infinite :
    unify 5 (var 0) (list (var 0)) [] ≡ err (InferError.infinite (var 0) (list (var 0)))
unfolding follow prune or_else any occurs_in occurs unify_all same_length set_link link_var
    unify_pruned unify unify_in link_of bind text_eq
unify_infinite = refl

unify-Solved_example :
    Solved [] (λ θ. subst_ty θ left_ty ≡ subst_ty θ right_ty) (unify 5 left_ty right_ty [])
unify-Solved_example = unify-Solved 5 left_ty right_ty []

BelowLinks-nil : BelowLinks 2 []
unfolding link_of
BelowLinks-nil v t e = absurd (cc)

left_ty-Below : Below 2 left_ty
unfolding Below
left_ty-Below = (omega arith, tt)

right_ty-Below : Below 2 right_ty
unfolding Below
right_ty-Below = ((omega arith, tt), omega arith)

unify-Ends_example : Ends 2 [] (λ f. unify f left_ty right_ty [])
unify-Ends_example =
    unify-Ends 2 [] left_ty right_ty Acyclic-nil BelowLinks-nil left_ty-Below right_ty-Below

-- `v0` is linked to `[v1]`, and the environment has `v1` free.
abbrev one_link : Links
one_link = (0, list (var 1)) ∷ []

abbrev with_v1 : Names Scheme
with_v1 = (codes "x", mono (var 1)) ∷ []

collect_free-Agrees_example :
    Agrees 1 [] (collect_free 5 one_link left_ty []) (occurs 5 one_link 1 left_ty)
collect_free-Agrees_example = collect_free-Agrees 1 5 one_link left_ty []

generalize-v1_v2 :
    generalize 5 one_link with_v1 (arrow (var 0) (var 2))
    ≡ ok (record { qvars = 2 ∷ []; ty = arrow (var 0) (var 2) })
unfolding follow prune or_else any occurs_in occurs unify_all same_length set_link link_var
    unify_pruned unify unify_in contains insert_var collect_all collect_in collect_free free_vars_of
    insert_unless free_in_env_onto free_in_env difference generalize generalize_in entry inst_all
    inst_in inst_go instantiate arrows_in count_arrows link_of bind text_eq
generalize-v1_v2 = refl

generalize-Generalizes_example :
    Generalizes 5 one_link with_v1
      (arrow (var 0) (var 2))
      (generalize 5 one_link with_v1 (arrow (var 0) (var 2)))
generalize-Generalizes_example = generalize-Generalizes 5 one_link with_v1 (arrow (var 0) (var 2))

-- The fields of `Node (Tree a) (Int -> a)`.
abbrev node_fields : Tys
node_fields =
    one_more (app (codes "Tree") (one_more (var 0) no_tys)) (one_more (arrow int (var 0)) no_tys)

count_node : count_tys node_fields ≡ 2
unfolding count_tys
count_node = refl

count_fields_le : count_tys node_fields + 2 ≤ 4
unfolding count_tys
count_fields_le = omega arith

count_arrows-ctor_type_example :
    count_arrows 4 [] (ctor_type node_fields (app (codes "Tree") (one_more (var 0) no_tys)))
    ≡ ok (count_tys node_fields)
count_arrows-ctor_type_example =
    count_arrows-ctor_type 4 [] node_fields (codes "Tree") (one_more (var 0) no_tys) count_fields_le

-- `let id x = x`, and its use at two types.
abbrev id_def : Def
id_def = record {
  name = codes "id";
  params = Pattern.var (codes "x") ∷ [];
  ann = none;
  body = Expr.var (codes "x");
  is_rec = false;
}

abbrev use_def : Def
use_def = record {
  name = codes "n";
  params = [];
  ann = none;
  body =
      Expr.app (Expr.app (Expr.var (codes "id")) (Expr.var (codes "id"))) (lit (Lit.int (pos 1)));
  is_rec = false;
}

abbrev type_of : Text → Inferred (Unit {0} × Infer) → Option Scheme
type_of name (ok (u, inf)) = get inf.env name
type_of name _ = none

scheme_of_n :
    type_of
      (codes "n")
      (check_program 9 (record { items = Item.def id_def ∷ Item.def use_def ∷ [] }) new)
    ≡ some (record { qvars = []; ty = var 10 })
unfolding link_of bind map_err get remove insert insert_all ◌>>=◌ return fail crash in_context
    get_env set_env bind_name fresh follow prune or_else any occurs_in occurs unify_all same_length
    set_link link_var unify_pruned unify unify_in contains insert_var collect_all collect_in
    collect_free free_vars_of insert_unless free_in_env_onto free_in_env difference generalize
    generalize_in entry inst_all inst_in inst_go instantiate arrows_in count_arrows count_asts
    is_builtin scope_var list_of apply_def resolve_con scope_entry annotation resolve_tyast
    resolve_all walk walk_all lit_type lookup count_patterns count_tys fresh_tys decompose
    tuple_pattern apply_pattern ctor_pattern unify_or bin_check cons_type bin_type rhs_type let_type
    with_binds lam_type app_type if_type branch_type seq_type pat_type pat_types expr_type
    expr_types branch_types param_scope param_vars ctor_type resolve_fields add_tydef closed_scheme
    ctor_schemes add_ctor add_ctors define_type is_some check_tydef has_name duplicate full_type
    params_type members placeholder placeholders unify_recorded body_type body_types check_ann
    check_anns generalize_all infer_members unless_duplicate infer_def_group add_schemes
    process_item process_items check_program new text_eq
scheme_of_n = refl

-- `(let y = 1 in y) + y`: the name `y` is still bound behind the `let`.
abbrev leaking : Expr
leaking =
    bin BinOp.add (let_in false (codes "y") (lit (Lit.int (pos 1))) (Expr.var (codes "y")))
      (Expr.var (codes "y"))

abbrev result_of : Inferred (Ty × Infer) → Option Ty
result_of (ok (t, inf)) = some t
result_of _ = none

expr_type-leaking : result_of (expr_type 9 leaking new) ≡ some int
unfolding link_of bind map_err get remove insert insert_all ◌>>=◌ return fail crash in_context
    get_env set_env bind_name fresh follow prune or_else any occurs_in occurs unify_all same_length
    set_link link_var unify_pruned unify unify_in contains insert_var collect_all collect_in
    collect_free free_vars_of insert_unless free_in_env_onto free_in_env difference generalize
    generalize_in entry inst_all inst_in inst_go instantiate arrows_in count_arrows count_asts
    is_builtin scope_var list_of apply_def resolve_con scope_entry annotation resolve_tyast
    resolve_all walk walk_all lit_type lookup count_patterns count_tys fresh_tys decompose
    tuple_pattern apply_pattern ctor_pattern unify_or bin_check cons_type bin_type rhs_type let_type
    with_binds lam_type app_type if_type branch_type seq_type pat_type pat_types expr_type
    expr_types branch_types param_scope param_vars ctor_type resolve_fields add_tydef closed_scheme
    ctor_schemes add_ctor add_ctors define_type is_some check_tydef has_name duplicate full_type
    params_type members placeholder placeholders unify_recorded body_type body_types check_ann
    check_anns generalize_all infer_members unless_duplicate infer_def_group add_schemes
    process_item process_items check_program new text_eq
expr_type-leaking = refl
