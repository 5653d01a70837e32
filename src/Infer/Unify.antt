-- ===== src/Infer/Unify.antt =====
-- gen0-interp-rs/src/infer.rs: the unification of types. Each function spends one unit of its fuel
-- for each link that is followed and for each step into a type.
pub mod Solutions
pub mod Solved
pub mod Settles
pub mod Acyclic
pub mod Looks
pub mod Ends
pub mod Terminates
use dacelo.Base.{
  ℕ, zero, suc, Bool, true, false, ◌&&◌, ◌∷◌, Option, none, some, ◌==◌, if◌then◌else◌,
}
use dacelo.Base.Text.{text_eq}
use dacelo.Infer.{
  Ty, Tys, no_tys, one_more, con, var, arrow, tuple, app, Links, link_of, infinite, mismatch,
  Inferred, ok, err, timeout, bind, Tc,
}

-- A variable by its link: the end of the chain.
unfoldable pub follow : (Ty → Inferred Ty) → ℕ → Option Ty → Inferred Ty
follow onward v none = ok (var v)
follow onward v (some t) = onward t

unfoldable pub prune : ℕ → Links → Ty → Inferred Ty
unfolding follow link_of
prune zero links t = timeout
prune (suc f) links (var v) = follow (prune f links) v (link_of links v)
prune (suc f) links (con c) = ok (con c)
prune (suc f) links (arrow a b) = ok (arrow a b)
prune (suc f) links (tuple ts) = ok (tuple ts)
prune (suc f) links (app n ts) = ok (app n ts)

-- `||`, whose right side runs only if the left one is false.
unfoldable pub or_else : Bool → Inferred Bool → Inferred Bool
or_else true r = ok true
or_else false r = r

-- `ts.iter().any(test)`
unfoldable pub any : (Ty → Inferred Bool) → Tys → Inferred Bool
unfolding bind or_else
any test no_tys = ok false
any test (one_more t ts) = let rest = any test ts in bind (test t) λ b. or_else b rest

unfoldable pub occurs_in : (Ty → Inferred Bool) → ℕ → Ty → Inferred Bool
unfolding bind or_else any
occurs_in test id (var v) = ok (v == id)
occurs_in test id (con c) = ok false
occurs_in test id (arrow a b) = bind (test a) λ found. or_else found (test b)
occurs_in test id (tuple ts) = any test ts
occurs_in test id (app n ts) = any test ts

unfoldable pub occurs : ℕ → Links → ℕ → Ty → Inferred Bool
unfolding bind prune occurs_in
occurs zero links id t = timeout
occurs (suc f) links id t = bind (prune f links t) (occurs_in (occurs f links id) id)

abbrev pub Step : Type 0
Step = Ty → Ty → Links → Inferred Links

-- `for (x, y) in xs.iter().zip(ys.iter()) { self.unify(x, y)?; }`
unfoldable pub unify_all : Step → Tys → Tys → Links → Inferred Links
unfolding bind
unify_all step (one_more x xs) (one_more y ys) links = bind (step x y links) (unify_all step xs ys)
unify_all step _ _ links = ok links

unfoldable pub same_length : Tys → Tys → Bool
same_length no_tys no_tys = true
same_length (one_more x xs) (one_more y ys) = same_length xs ys
same_length _ _ = false

unfoldable pub set_link : ℕ → Ty → Links → Bool → Inferred Links
set_link v t links true = err (infinite (var v) t)
set_link v t links false = ok ((v, t) ∷ links)

unfoldable pub link_var : ℕ → ℕ → Ty → Links → Inferred Links
unfolding bind occurs set_link
link_var f v t links = bind (occurs f links v t) (set_link v t links)

-- The `match` of two types that are pruned.
unfoldable pub unify_pruned : ℕ → Step → Ty → Ty → Links → Inferred Links
unfolding link_var bind unify_all same_length
unify_pruned f step (var v) (var w) links = if v == w then ok links else link_var f v (var w) links
unify_pruned f step (var v) b links = link_var f v b links
unify_pruned f step a (var w) links = step (var w) a links
unify_pruned f step (con x) (con y) links =
    if text_eq x y then ok links else err (mismatch (con x) (con y))
unify_pruned f step (arrow a1 a2) (arrow b1 b2) links = bind (step a1 b1 links) (step a2 b2)
unify_pruned f step (tuple xs) (tuple ys) links =
    if same_length xs ys then unify_all step xs ys links else err (mismatch (tuple xs) (tuple ys))
unify_pruned f step (app n xs) (app m ys) links =
    if text_eq n m && same_length xs ys
    then unify_all step xs ys links
    else err (mismatch (app n xs) (app m ys))
unify_pruned f step a b links = err (mismatch a b)

unfoldable pub unify : ℕ → Step
unfolding bind prune unify_pruned
unify zero a b links = timeout
unify (suc f) a b links =
    bind (prune f links a) λ a'. bind (prune f links b) λ b'. unify_pruned f (unify f) a' b' links

-- `unify` as a method.
unfoldable pub unify_in : ℕ → Ty → Ty → Tc (Unit {0})
unfolding bind unify
unify_in f a b inf = bind (unify f a b inf.links) λ links. ok (tt, record inf { links = links })
