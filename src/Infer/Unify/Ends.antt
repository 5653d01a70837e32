-- ===== src/Infer/Unify/Ends.antt =====
-- gen0-interp-rs/src/infer.rs: what a run of `unify` leaves, counted in unbound variables.
use dacelo.Base.{
  ℕ, zero, suc, ◌+◌, ◌≤◌, ◌<◌, ◌≡◌, sym, ap, ◌∙◌, arith, false, Bool-cases, inl, inr, ◌∷◌, Option,
  none, some, ◌==◌, ==_iff,
}
use dacelo.Infer.{Ty, Links, link_of, InferError, Inferred, ok, err, bind}
use dacelo.Infer.Unify.Solved.{link_of_new, link_of_old}
use dacelo.Infer.Unify.Settles.{Settles, Settles-const, Settles-suc, Settles-bind, Settles-bind_err}
use dacelo.Infer.Unify.Acyclic.{Acyclic}
use dacelo.Infer.Unify.Looks.{BelowLinks}

unfoldable pub one_if_unbound : Option Ty → ℕ
one_if_unbound none = 1
one_if_unbound (some t) = 0

-- How many variables below `n` have no link.
unfoldable pub unbound : ℕ → Links → ℕ
unfolding one_if_unbound
unbound zero links = 0
unbound (suc n) links = one_if_unbound (link_of links n) + unbound n links

module _ (links : Links) (v : ℕ) (t : Ty) where
  zero_le : (l : Option Ty) → one_if_unbound (some t) ≤ one_if_unbound l
  unfolding one_if_unbound
  zero_le l = omega arith

  one_if_unbound_le :
      (w : ℕ) → one_if_unbound (link_of ((v, t) ∷ links) w) ≤ one_if_unbound (link_of links w)
  one_if_unbound_le w = elim (Bool-cases (v == w)) [
    | inl q ↦ rw (link_of_new links v t w ((==_iff v w).0 q)) (zero_le (link_of links w))
    | inr q ↦ rw (link_of_old links v t w q) (omega arith)
  ]

  unbound_le : (n : ℕ) → unbound n ((v, t) ∷ links) ≤ unbound n links
  unfolding unbound
  unbound_le zero = omega arith
  unbound_le (suc n) = let h = one_if_unbound_le n in let k = unbound_le n in omega arith

  module _ (u : link_of links v ≡ none) where
    one_if_unbound_lt :
        (w : ℕ)
        → v ≡ w
        → one_if_unbound (link_of ((v, t) ∷ links) w) < one_if_unbound (link_of links w)
    unfolding one_if_unbound
    one_if_unbound_lt w e =
        rw (link_of_new links v t w e, sym (ap (link_of links) e) ∙ u) (omega arith)

    pub unbound_lt : (n : ℕ) → v < n → unbound n ((v, t) ∷ links) < unbound n links
    unfolding unbound
    unbound_lt zero h = elim h [ ]
    unbound_lt (suc n) h = elim (Bool-cases (v == n)) [
      | inl q ↦
          let k = one_if_unbound_lt n ((==_iff v n).0 q) in let l = unbound_le n in omega arith
      | inr q ↦ let k = one_if_unbound_le n in let l = unbound_lt n (lt_of_ne h q) in omega arith
    ]
      where
        lt_of_ne : {v n : ℕ} → v < suc n → (v == n) ≡ false → v < n
        lt_of_ne h q = ground arith

module _ (n : ℕ) where
  -- The links that a run leaves: the same, or fewer unbound variables and no circles, or none.
  pub data Ended (links : Links) : Inferred Links → Type 0 where
    same : Ended links (ok links)
    fewer :
        {new : Links}
        → Acyclic new
        → BelowLinks n new
        → unbound n new < unbound n links
        → Ended links (ok new)
    failed : {e : InferError} → Ended links (err e)

  pub data Ends (links : Links) (m : ℕ → Inferred Links) : Type 0 where
    ends : {r : Inferred Links} → Settles m r → Ended links r → Ends links m

  pub Ends-const : {links : Links} {r : Inferred Links} → Ended links r → Ends links (λ f. r)
  Ends-const {r} e = ends (Settles-const r) e

  pub Ended-fewer :
      {links new : Links} {r : Inferred Links}
      → Acyclic new
      → BelowLinks n new
      → unbound n new < unbound n links
      → Ended new r
      → Ended links r
  Ended-fewer a b h same = fewer a b h
  Ended-fewer a b h (fewer a' b' h') = fewer a' b' (omega arith)
  Ended-fewer a b h failed = failed

  -- One run and then another.
  pub Ends-bind :
      {links : Links} {m : ℕ → Inferred Links} (k : ℕ → Links → Inferred Links)
      → Ends links m
      → Ends links (λ f. k f links)
      → ((new : Links)
          → Acyclic new
          → BelowLinks n new
          → unbound n new < unbound n links
          → Ends new (λ f. k f new))
      → Ends links (λ f. bind (m f) (k f))
  Ends-bind k (ends s same) (ends s' e) h = ends (Settles-bind k s s') e
  Ends-bind k (ends s (fewer {new} a b l)) h h' = elim (h' new a b l) [
    | ends s' e ↦ ends (Settles-bind k s s') (Ended-fewer a b l e)
  ]
  Ends-bind k (ends s failed) h h' = ends (Settles-bind_err k s) failed

  pub Ends-suc :
      {links : Links} {m : ℕ → Inferred Links} (k : ℕ → Inferred Links)
      → ((f : ℕ) → k (suc f) ≡ m f)
      → Ends links m
      → Ends links k
  Ends-suc k e (ends s x) = ends (Settles-suc k e s) x

  pub Ends-settled :
      {A : Type 0} {links : Links} {m : ℕ → Inferred A} {a : A} (k : ℕ → A → Inferred Links)
      → Settles m (ok a)
      → Ends links (λ f. k f a)
      → Ends links (λ f. bind (m f) (k f))
  Ends-settled k s (ends s' e) = ends (Settles-bind k s s') e
