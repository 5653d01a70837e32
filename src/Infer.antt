-- ===== src/Infer.antt =====
-- gen0-interp-rs/src/infer.rs: types, their variables and what inference keeps. A type variable is
-- its `id`; the cells of all variables, which the source shares by `Rc`, are one list of links, and
-- a variable with no link is unbound.
pub mod Unify
pub mod Schemes
pub mod Annotations
pub mod Exprs
pub mod TypeDefs
pub mod Items
use dacelo.Base.{
  ℕ, zero, suc, ◌+◌, Bool, true, false, ◌||◌, List, [], ◌∷◌, Option, none, some, ◌==◌,
  if◌then◌else◌,
}
use dacelo.Base.Text.{Text, codes, text_eq}
use dacelo.Syntax.{BinOp}

mutual
  pub data Ty : Type 0 where
    con : Text → Ty
    var : ℕ → Ty
    arrow : Ty → Ty → Ty
    tuple : Tys → Ty
    app : Text → Tys → Ty

  pub data Tys : Type 0 where
    no_tys : Tys
    one_more : Ty → Tys → Tys

abbrev pub int : Ty
int = con (codes "Int")

abbrev pub bool : Ty
bool = con (codes "Bool")

abbrev pub string : Ty
string = con (codes "String")

abbrev pub unit : Ty
unit = con (codes "Unit")

abbrev pub list : Ty → Ty
list elem = app (codes "List") (one_more elem no_tys)

-- The links that are set, the last one first.
abbrev pub Links : Type 0
Links = List (ℕ × Ty)

unfoldable pub link_of : Links → ℕ → Option Ty
link_of [] v = none
link_of ((w, t) ∷ links) v = if w == v then some t else link_of links v

pub record Scheme : Type 0 where
  pub qvars : List ℕ
  pub ty : Ty

-- What the prefix of a message names.
pub data Context : Type 0 where
  in_def in_rec annotation_on : Text → Context
  application cons_sides branches_differ left_of_seq : Context
  equality : BinOp → Context
  case_branch : ℕ → Context

-- What the messages say.
pub data InferError : Type 0 where
  infinite mismatch : Ty → Ty → InferError
  unbound_type_variable unknown_type unbound_variable unknown_constructor : Text → InferError
  list_arguments : InferError
  type_arguments ctor_arguments : Text → ℕ → ℕ → InferError
  redefines_builtin duplicate_type duplicate_def not_recursive : Text → InferError
  left_operand right_operand : BinOp → Ty → Ty → InferError
  condition_not_bool : InferError
  within : Context → InferError → InferError

-- `panic` is an `unwrap` of nothing; `timeout` is the end of the fuel.
pub data Inferred {ℓ} (A : Type ℓ) : Type ℓ where
  ok : A → Inferred A
  err : InferError → Inferred A
  panic timeout : Inferred A

unfoldable pub bind {ℓ κ} : {A : Type ℓ} {B : Type κ} → Inferred A → (A → Inferred B) → Inferred B
bind (ok a) f = f a
bind (err e) f = err e
bind panic f = panic
bind timeout f = timeout

-- `.map_err(...)`
unfoldable pub map_err {ℓ} : {A : Type ℓ} → (InferError → InferError) → Inferred A → Inferred A
map_err f (ok a) = ok a
map_err f (err e) = err (f e)
map_err f panic = panic
map_err f timeout = timeout

-- A map by names: a name stands at most once.
abbrev pub Names {ℓ} : Type ℓ → Type ℓ
Names A = List (Text × A)

module _ {ℓ} {A : Type ℓ} where
  unfoldable pub get : Names A → Text → Option A
  get [] name = none
  get ((n, a) ∷ rest) name = if text_eq n name then some a else get rest name

  unfoldable pub remove : Names A → Text → Names A
  remove [] name = []
  remove ((n, a) ∷ rest) name =
      let others = remove rest name in if text_eq n name then others else (n, a) ∷ others

  unfoldable pub insert : Names A → Text → A → Names A
  unfolding remove
  insert names name a = (name, a) ∷ remove names name

-- `for (k, v) in binds { env.insert(k, v); }`
unfoldable pub insert_all {ℓ} : {A : Type ℓ} → Names A → Names A → Names A
unfolding insert
insert_all env [] = env
insert_all env ((k, v) ∷ binds) = insert_all (insert env k v) binds

-- `Infer`, less `cur_def` and `app_ctr`, which are only printed; the next variable is `counter`.
pub record Infer : Type 0 where
  pub counter : ℕ
  pub links : Links
  pub env : Names Scheme
  pub tydefs : Names ℕ
  pub ctors : Names (ℕ × ℕ)
  pub next_tag : ℕ

-- A method of `Infer`. An error ends the run, so it keeps no state.
abbrev pub Tc {ℓ} : Type ℓ → Type ℓ
Tc A = Infer → Inferred (A × Infer)

infixl 5 ◌>>=◌ ◌>>◌
unfoldable pub ◌>>=◌ {ℓ κ} : {A : Type ℓ} {B : Type κ} → Tc A → (A → Tc B) → Tc B
unfolding bind
◌>>=◌ m f inf = bind (m inf) λ (a, next). f a next

abbrev pub ◌>>◌ {ℓ κ} : {A : Type ℓ} {B : Type κ} → Tc A → Tc B → Tc B
m >> n = m >>= λ _. n

unfoldable pub return {ℓ} : {A : Type ℓ} → A → Tc A
return a inf = ok (a, inf)

unfoldable pub fail {ℓ} : {A : Type ℓ} → InferError → Tc A
fail e inf = err e

unfoldable pub crash {ℓ} : {A : Type ℓ} → Tc A
crash inf = panic

unfoldable pub in_context {ℓ} : {A : Type ℓ} → Context → Tc A → Tc A
unfolding map_err
in_context c m inf = map_err (within c) (m inf)

-- `self.env.clone()`, and the assignment `self.env = env`.
unfoldable pub get_env : Tc (Names Scheme)
get_env inf = ok (inf.env, inf)

unfoldable pub set_env : Names Scheme → Tc (Unit {0})
set_env env inf = ok (tt, record inf { env = env })

unfoldable pub bind_name : Text → Scheme → Tc (Unit {0})
unfolding insert
bind_name name sch inf = ok (tt, record inf { env = insert inf.env name sch })

unfoldable pub fresh : Tc ℕ
fresh inf = ok (inf.counter, record inf { counter = inf.counter + 1 })
