-- ===== src/Infer/Items.antt =====
-- gen0-interp-rs/src/infer.rs: the checks of definitions and of programs, and the state at the
-- start.
use dacelo.Base.{
  ℕ, Bool, false, not, ◌&&◌, ◌||◌, List, [], ◌∷◌, Option, none, some, if◌then◌else◌, length, ltb,
}
use dacelo.Base.Text.{Text, codes, text_eq}
use dacelo.Syntax.{Pattern, TyAst, Def, Item, Program}
use dacelo.Infer.{
  Ty, var, arrow, int, bool, string, unit, list, Scheme, in_def, in_rec, annotation_on,
  duplicate_def, not_recursive, Names, insert_all, Infer, Tc, ◌>>=◌, ◌>>◌, return, fail, crash,
  in_context, get_env, set_env, bind_name, fresh,
}
use dacelo.Infer.Unify.{unify_in}
use dacelo.Infer.Schemes.{generalize_in}
use dacelo.Infer.Annotations.{annotation}
use dacelo.Infer.TypeDefs.{check_tydef}
use dacelo.Infer.Exprs.{mono, lookup, pat_type, expr_type}

-- The first definition whose name a later one has.
unfoldable pub has_name : Text → List Def → Bool
has_name name [] = false
has_name name (d ∷ defs) = text_eq name d.name || has_name name defs

unfoldable pub duplicate : List Def → Option Text
unfolding has_name
duplicate [] = none
duplicate (d ∷ defs) =
    let rest = duplicate defs in if has_name d.name defs then some d.name else rest

-- A definition with the types of its parameters, as variables, and the names they bind.
pub record Member : Type 0 where
  pub of : Def
  pub param_tys : List ℕ
  pub binds : Names Scheme

-- `for pt in param_tys.iter().rev() { t = Ty::arrow(Ty::Var(pt.clone()), t); }`
unfoldable pub full_type : List ℕ → Ty → Ty
full_type [] t = t
full_type (v ∷ vs) t = arrow (var v) (full_type vs t)

module _ (f : ℕ) where
  unfoldable pub params_type : List Pattern → Names Scheme → Tc (List ℕ × Names Scheme)
  unfolding fresh pat_type
  params_type [] binds = return ([], binds)
  params_type (p ∷ params) binds = do
    tv ← fresh
    more ← pat_type f p (var tv) binds
    rest ← params_type params more
    return (tv ∷ rest.0, rest.1)

  -- Step 1.
  unfoldable pub members : List Def → Tc (List Member)
  unfolding params_type
  members [] = return []
  members (d ∷ defs) = do
    r ← params_type d.params []
    rest ← members defs
    return (record { of = d; param_tys = r.0; binds = r.1 } ∷ rest)

  -- Step 2. `many` says that the group has more than one member.
  unfoldable pub placeholder : Bool → Member → Tc (Unit {0})
  unfolding fresh bind_name full_type
  placeholder many m =
      if not m.of.is_rec && many
      then fail (not_recursive m.of.name)
      else fresh >>= λ rtv.
          if m.of.is_rec
          then bind_name m.of.name (mono (full_type m.param_tys (var rtv)))
          else return tt

  unfoldable pub placeholders : Bool → List Member → Tc (Unit {0})
  unfolding placeholder
  placeholders many [] = return tt
  placeholders many (m ∷ ms) = placeholder many m >> placeholders many ms

  -- A recursive member's placeholder is what its body makes of it.
  unfoldable pub unify_recorded : Member → Ty → Tc (Unit {0})
  unfolding lookup in_context unify_in full_type
  unify_recorded m bt =
      if m.of.is_rec
      then (lookup m.of.name crash >>= λ sch.
          in_context (in_rec m.of.name) (unify_in f sch.ty (full_type m.param_tys bt)))
      else return tt

  -- Step 4.
  unfoldable pub body_type : Member → Tc Ty
  unfolding get_env set_env insert_all in_context expr_type unify_recorded
  body_type m = do
    pre ← get_env
    _ ← set_env (insert_all pre m.binds)
    bt ← in_context (in_def m.of.name) (expr_type f m.of.body)
    _ ← set_env pre
    _ ← unify_recorded m bt
    return bt

  unfoldable pub body_types : List Member → Tc (List (Member × Ty))
  unfolding body_type
  body_types [] = return []
  body_types (m ∷ ms) = do bt ← body_type m; rest ← body_types ms; return ((m, bt) ∷ rest)

  -- Step 5.
  unfoldable pub check_ann : Member → Ty → Option TyAst → Tc (Unit {0})
  unfolding annotation in_context unify_in full_type
  check_ann m bt none = return tt
  check_ann m bt (some t) = do
    ann_ty ← annotation t
    in_context (annotation_on m.of.name) (unify_in f (full_type m.param_tys bt) ann_ty)

  unfoldable pub check_anns : List (Member × Ty) → Tc (Unit {0})
  unfolding check_ann
  check_anns [] = return tt
  check_anns ((m, bt) ∷ rest) = check_ann m bt m.of.ann >> check_anns rest

  -- Step 6.
  unfoldable pub generalize_all : Names Scheme → List (Member × Ty) → Tc (Names Scheme)
  unfolding generalize_in full_type
  generalize_all outer [] = return []
  generalize_all outer ((m, bt) ∷ rest) = do
    sch ← generalize_in f outer (full_type m.param_tys bt)
    more ← generalize_all outer rest
    return ((m.of.name, sch) ∷ more)

  unfoldable pub infer_members : List Def → Tc (Names Scheme)
  unfolding get_env members placeholders body_types check_anns set_env generalize_all
  infer_members defs = do
    outer ← get_env
    ms ← members defs
    _ ← placeholders (ltb 1 (length defs)) ms
    typed ← body_types ms
    _ ← check_anns typed
    _ ← set_env outer
    generalize_all outer typed

  unfoldable pub unless_duplicate : List Def → Option Text → Tc (Names Scheme)
  unfolding infer_members
  unless_duplicate defs (some name) = fail (duplicate_def name)
  unless_duplicate defs none = infer_members defs

  unfoldable pub infer_def_group : List Def → Tc (Names Scheme)
  unfolding duplicate unless_duplicate
  infer_def_group defs = unless_duplicate defs (duplicate defs)

  unfoldable pub add_schemes : Names Scheme → Tc (Unit {0})
  unfolding bind_name
  add_schemes [] = return tt
  add_schemes ((name, sch) ∷ rest) = bind_name name sch >> add_schemes rest

  unfoldable pub process_item : Item → Tc (Unit {0})
  unfolding check_tydef infer_def_group add_schemes
  process_item (Item.ty td) = check_tydef f td
  process_item (Item.def d) = infer_def_group (d ∷ []) >>= add_schemes
  process_item (Item.rec_group defs) = infer_def_group defs >>= add_schemes

  unfoldable pub process_items : List Item → Tc (Unit {0})
  unfolding process_item
  process_items [] = return tt
  process_items (item ∷ items) = process_item item >> process_items items

  unfoldable pub check_program : Program → Tc (Unit {0})
  unfolding process_items
  check_program prog = process_items prog.items

-- The built-ins with one type.
abbrev pub builtin_types : Names Ty
builtin_types =
    (codes "print_int", arrow int unit)
    ∷ (codes "print_string", arrow string unit)
    ∷ (codes "int_to_string", arrow int string)
    ∷ (codes "bool_to_string", arrow bool string)
    ∷ (codes "string_length", arrow string int)
    ∷ (codes "str_concat", arrow string (arrow string string))
    ∷ (codes "read_file", arrow string string)
    ∷ (codes "write_file", arrow string (arrow string unit))
    ∷ (codes "exit", arrow int unit)
    ∷ (codes "chr", arrow int string)
    ∷ (codes "ord", arrow string int)
    ∷ (codes "string_get", arrow string (arrow int int))
    ∷ (codes "substring", arrow string (arrow int (arrow int string)))
    ∷ (codes "string_to_int", arrow string int)
    ∷ (codes "argv", arrow int string)
    ∷ (codes "system", arrow string int)
    ∷ []

abbrev pub mono_schemes : Names Ty → Names Scheme
mono_schemes [] = []
mono_schemes ((name, t) ∷ rest) = (name, mono t) ∷ mono_schemes rest

-- A scheme that quantifies its variable `v`.
abbrev pub poly : ℕ → Ty → Scheme
poly v t = record { qvars = v ∷ []; ty = t }

-- `Infer::new()`
unfoldable pub new : Infer
new = record {
  counter = 4;
  links = [];
  env =
      (codes "Nil", poly 0 (list (var 0)))
      ∷ (codes "Cons", poly 1 (arrow (var 1) (arrow (list (var 1)) (list (var 1)))))
      ∷ (codes "error", poly 2 (arrow string (var 2)))
      ∷ (codes "show", poly 3 (arrow (var 3) string))
      ∷ mono_schemes builtin_types;
  tydefs = (codes "List", 1) ∷ [];
  ctors = (codes "Nil", (0, 0)) ∷ (codes "Cons", (1, 2)) ∷ [];
  next_tag = 2;
}
