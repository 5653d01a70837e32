-- ===== src/Eval/Steps.antt =====
-- The steps of gen0-interp-rs/src/eval.rs that do not evaluate an expression themselves: cells,
-- groups, matching with its errors, constructors and the choices of `eval` and `apply`.
use dacelo.Base.{
  ℕ, Bool, true, false, List, [], ◌∷◌, ◌++◌, Option, none, some, ◌==◌, if◌then◌else◌, length,
  get_elem?, set,
}
use dacelo.Base.Text.{Text, text_eq}
use dacelo.Syntax.{Pattern, Expr, lam, Def}
use dacelo.Eval.{
  BuiltinKind, arity, Value, Values, v_nil, v_length, Callable, closure, builtin, ctor_partial, Env,
  bind, lookup, Binds, bind_all, Host, Machine, EvalError, Outcome, M, ◌>>=◌, ◌>>◌, return, fail,
  unreachable, require, duplicate_definition, not_a_function, match_failed, unknown_constructor,
  unbound_variable,
}
use dacelo.Eval.Show.{show_value}
use dacelo.Eval.Match.{Checked, Ctors, get_ctor, pat_match}
use dacelo.Eval.Builtins.{lift, call_builtin}

-- `Machine::new`, with an empty buffer
unfoldable pub new : {W : Type 0} → Ctors → W → Machine W
new cs w = record { out = []; ctors = cs; cells = []; world = w }

-- `Rc::new(RefCell::new(Vec::new()))`
abbrev pub new_cell : {W : Type 0} → M W ℕ
new_cell m = Outcome.ok (length m.cells) (record m { cells = m.cells ++ [] ∷ [] })

-- `*cell.borrow_mut() = bs`
abbrev pub fill_cell : {W : Type 0} → ℕ → Binds → M W (Unit {0})
fill_cell i bs m = Outcome.ok tt (record m { cells = set m.cells i bs })

-- `group.borrow()` of a closure, if it has a group
abbrev pub group_binds : List Binds → Option ℕ → Binds
group_binds cells none = []
group_binds cells (some i) = elim (get_elem? cells i) [ none ↦ [] | some bs ↦ bs ]

-- `wrap_params_ast`
unfoldable pub wrap_params_ast : List Pattern → Expr → Expr
wrap_params_ast [] body = body
wrap_params_ast (p ∷ ps) body = lam p (wrap_params_ast ps body)

unfoldable pub has_name : Text → List Def → Bool
has_name n [] = false
has_name n (d ∷ ds) = if text_eq d.name n then true else has_name n ds

-- The first definition whose name a later one has too.
unfoldable pub duplicate : List Def → Option Text
unfolding has_name
duplicate [] = none
duplicate (d ∷ ds) = if has_name d.name ds then some d.name else duplicate ds

-- The closure of `let rec name`, with its group; another function is an error.
unfoldable pub set_group : {W : Type 0} → Text → ℕ → Callable → M W Value
set_group name i (closure _ p b env) = return (Value.fun (closure (some i) p b env))
set_group name i _ = fail (not_a_function name)

-- A `let rec` that is not a function is left alone.
unfoldable pub patch : {W : Type 0} → Text → ℕ → Value → M W Value
unfolding set_group
patch name i (Value.fun c) = set_group name i c
patch name i v = return v

-- The error of a group that defines a name twice.
unfoldable pub unless_duplicate : {W A : Type 0} → Option Text → M W A → M W A
unless_duplicate none m = m
unless_duplicate (some n) m = fail (duplicate_definition n)

-- The values of the built-in functions.
unfoldable pub seed : List (BuiltinKind × Text) → Env → Env
seed [] env = env
seed ((k, n) ∷ ks) env = seed ks (bind env n (Value.fun (builtin k v_nil)))

module _ (h : Host) where
  open h use {World, debug}

  -- `Err(format!("...", show_value(v)))`: the message is made at once
  abbrev pub fail_shown : {A : Type 0} → (Value → EvalError) → Value → M World A
  fail_shown e v = elim (show_value debug v) [ none ↦ unreachable | some _ ↦ fail (e v) ]

  unfoldable pub match_pattern : Pattern → Value → M World Binds
  match_pattern p v m = elim (pat_match m.ctors p v []) [
    | Checked.ok (some bs) ↦ return bs m
    | Checked.ok none ↦ fail_shown match_failed v m
    | Checked.err e ↦ fail e m
  ]

  -- `env.lookup(n)` or the error
  unfoldable pub get_var : Text → Env → M World Value
  get_var n env = require (unbound_variable n) (lookup env n)

  -- The value of `Expr::Ctor`.
  unfoldable pub ctor_value : Text → M World Value
  ctor_value n m = elim (get_ctor n m.ctors) [
    | none ↦ fail (unknown_constructor n) m
    | some (tag, size) ↦
        return
          (if size == 0 then Value.adt n tag v_nil else Value.fun (ctor_partial n tag size v_nil)) m
  ]

  unfoldable pub apply_builtin : BuiltinKind → Values → M World Value
  apply_builtin k args =
      if v_length args == arity k
      then call_builtin h k args
      else return (Value.fun (builtin k args))

  unfoldable pub apply_ctor : Text → ℕ → ℕ → Values → Value
  apply_ctor n tag size args =
      if v_length args == size
      then Value.adt n tag args
      else Value.fun (ctor_partial n tag size args)

  -- The right side of `&&` and `||`.
  unfoldable pub as_bool : Value → M World Value
  as_bool (Value.bool b) = return (Value.bool b)
  as_bool _ = unreachable

  -- `lv && rv` evaluates the right side unless the left one is `false`, and `||` unless it is `true`.
  unfoldable pub and_op : M World Value → Value → M World Value
  and_op r (Value.bool false) = return (Value.bool false)
  and_op r _ = r >>= as_bool

  unfoldable pub or_op : M World Value → Value → M World Value
  or_op r (Value.bool true) = return (Value.bool true)
  or_op r _ = r >>= as_bool

  unfoldable pub if_op : M World Value → M World Value → Value → M World Value
  if_op t e (Value.bool true) = t
  if_op t e (Value.bool false) = e
  if_op t e _ = unreachable

  -- `rv` of a `let`, patched when the `let` is recursive
  unfoldable pub let_value : Bool → Text → Value → M World Value
  let_value true name (Value.fun c) = do
    i ← new_cell
    v ← set_group name i c
    fill_cell i ((name, v) ∷ [])
    return v
  let_value _ name v = return v

  -- Whether a branch matches: its bindings, or `none`.
  unfoldable pub try_pattern : Pattern → Value → M World (Option Binds)
  try_pattern p v m = lift h (pat_match m.ctors p v []) m

  -- The next branches, or the body with the bindings of the match.
  unfoldable pub branch_op : M World Value → (Binds → M World Value) → Option Binds → M World Value
  branch_op next body none = next
  branch_op next body (some found) = body found

  unfoldable pub closure_env : Option ℕ → Env → Pattern → Value → M World Env
  closure_env g env p arg m =
      (match_pattern p arg >>= λ bs. return (bind_all (bind_all env (group_binds m.cells g)) bs)) m
