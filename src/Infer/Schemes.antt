-- ===== src/Infer/Schemes.antt =====
-- gen0-interp-rs/src/infer.rs: free variables, generalization and instantiation. A set of variables
-- is the list of them, each once.
pub mod Free
pub mod Generalize
pub mod Arity
use dacelo.Base.{
  ℕ, zero, suc, ◌+◌, Bool, false, ◌||◌, List, [], ◌∷◌, Option, none, some, ◌==◌, if◌then◌else◌,
}
use dacelo.Infer.{
  Ty, Tys, no_tys, one_more, con, var, arrow, tuple, app, Links, link_of, Scheme, Inferred, ok,
  timeout, bind, Names, Tc,
}
use dacelo.Infer.Unify.{prune}

unfoldable pub contains : List ℕ → ℕ → Bool
contains [] v = false
contains (w ∷ ws) v = w == v || contains ws v

unfoldable pub insert_var : ℕ → List ℕ → List ℕ
unfolding contains
insert_var v out = if contains out v then out else v ∷ out

abbrev pub Collect : Type 0
Collect = Ty → List ℕ → Inferred (List ℕ)

unfoldable pub collect_all : Collect → Tys → List ℕ → Inferred (List ℕ)
unfolding bind
collect_all collect no_tys out = ok out
collect_all collect (one_more t ts) out = bind (collect t out) (collect_all collect ts)

unfoldable pub collect_in : Collect → List ℕ → Ty → Inferred (List ℕ)
unfolding bind insert_var collect_all
collect_in collect out (var v) = ok (insert_var v out)
collect_in collect out (con c) = ok out
collect_in collect out (arrow a b) = bind (collect a out) (collect b)
collect_in collect out (tuple ts) = collect_all collect ts out
collect_in collect out (app n ts) = collect_all collect ts out

unfoldable pub collect_free : ℕ → Links → Collect
unfolding bind prune collect_in
collect_free zero links t out = timeout
collect_free (suc f) links t out = bind (prune f links t) (collect_in (collect_free f links) out)

unfoldable pub free_vars_of : ℕ → Links → Ty → Inferred (List ℕ)
unfolding collect_free
free_vars_of f links t = collect_free f links t []

-- `for v in fv { if !qvars.contains(&v) { out.insert(v); } }`
unfoldable pub insert_unless : List ℕ → List ℕ → List ℕ → List ℕ
unfolding contains insert_var
insert_unless qvars [] out = out
insert_unless qvars (v ∷ fv) out =
    insert_unless qvars fv (if contains qvars v then out else insert_var v out)

unfoldable pub free_in_env_onto : ℕ → Links → Names Scheme → List ℕ → Inferred (List ℕ)
unfolding bind free_vars_of insert_unless
free_in_env_onto f links [] out = ok out
free_in_env_onto f links ((n, sch) ∷ env) out =
    let rest = free_in_env_onto f links env in
    bind (free_vars_of f links sch.ty) λ fv. rest (insert_unless sch.qvars fv out)

unfoldable pub free_in_env : ℕ → Links → Names Scheme → Inferred (List ℕ)
unfolding free_in_env_onto
free_in_env f links env = free_in_env_onto f links env []

-- `fv.difference(&env_fv)`
unfoldable pub difference : List ℕ → List ℕ → List ℕ
unfolding contains
difference [] out = []
difference (v ∷ fv) out = let rest = difference fv out in if contains out v then rest else v ∷ rest

unfoldable pub generalize : ℕ → Links → Names Scheme → Ty → Inferred Scheme
unfolding bind free_vars_of free_in_env difference
generalize f links env t = bind (free_vars_of f links t) λ fv.
    bind (free_in_env f links env) λ env_fv. ok (record { qvars = difference fv env_fv; ty = t })

-- `generalize` as a method.
unfoldable pub generalize_in : ℕ → Names Scheme → Ty → Tc Scheme
unfolding bind generalize
generalize_in f env t inf = bind (generalize f inf.links env t) λ sch. ok (sch, inf)

-- The variables that stand for the quantified ones, and the next variable.
pub record Copy : Type 0 where
  pub map : Links
  pub counter : ℕ

abbrev pub Copying : Type 0 → Type 0
Copying A = Copy → Inferred (A × Copy)

-- `map.entry(id).or_insert_with(|| Ty::Var(inf.fresh()))`
unfoldable pub entry : ℕ → Option Ty → Copy → Ty × Copy
entry v (some t) k = (t, k)
entry v none k =
    (var k.counter, record { map = (v, var k.counter) ∷ k.map; counter = k.counter + 1 })

unfoldable pub inst_all : (Ty → Copying Ty) → Tys → Copying Tys
unfolding bind
inst_all go no_tys k = ok (no_tys, k)
inst_all go (one_more t ts) k =
    bind (go t k) λ (t', k'). bind (inst_all go ts k') λ (ts', k''). ok (one_more t' ts', k'')

unfoldable pub inst_in : (Ty → Copying Ty) → List ℕ → Ty → Copying Ty
unfolding bind contains entry link_of inst_all
inst_in go qvars (var v) k =
    if contains qvars v then ok (entry v (link_of k.map v) k) else ok (var v, k)
inst_in go qvars (con c) k = ok (con c, k)
inst_in go qvars (arrow a b) k =
    bind (go a k) λ (a', k'). bind (go b k') λ (b', k''). ok (arrow a' b', k'')
inst_in go qvars (tuple ts) k = bind (inst_all go ts k) λ (ts', k'). ok (tuple ts', k')
inst_in go qvars (app n ts) k = bind (inst_all go ts k) λ (ts', k'). ok (app n ts', k')

unfoldable pub inst_go : ℕ → Links → List ℕ → Ty → Copying Ty
unfolding bind prune inst_in
inst_go zero links qvars t k = timeout
inst_go (suc f) links qvars t k =
    bind (prune f links t) λ t'. inst_in (inst_go f links qvars) qvars t' k

-- `inst`, as the method `instantiate`.
unfoldable pub instantiate : ℕ → Scheme → Tc Ty
unfolding bind inst_go
instantiate f s inf =
    bind (inst_go f inf.links s.qvars s.ty (record { map = []; counter = inf.counter }))
      λ (t, k). ok (t, record inf { counter = k.counter })

unfoldable pub arrows_in : (Ty → Inferred ℕ) → Ty → Inferred ℕ
unfolding bind
arrows_in count (arrow a b) = bind (count b) λ n. ok (suc n)
arrows_in count _ = ok 0

unfoldable pub count_arrows : ℕ → Links → Ty → Inferred ℕ
unfolding bind prune arrows_in
count_arrows zero links t = timeout
count_arrows (suc f) links t = bind (prune f links t) (arrows_in (count_arrows f links))
