-- ===== src/Infer/Unify/Looks.antt =====
-- gen0-interp-rs/src/infer.rs: the runs of `prune` and of `occurs`.
use dacelo.Base.{
  ℕ, zero, suc, ◌+◌, ◌<◌, ◌≡◌, refl, ap, arith, Bool, true, false, Option, none, some, ◌==◌,
}
use dacelo.Infer.{
  Ty, Tys, no_tys, one_more, con, var, arrow, tuple, app, Links, link_of, Inferred, ok, bind,
}
use dacelo.Infer.Unify.{follow, prune, or_else, any, occurs_in, occurs}
use dacelo.Infer.Unify.Solutions.{Unlinked}
use dacelo.Infer.Unify.Settles.{Settles, Settles-const, Settles-suc, Settles-bind}
use dacelo.Infer.Unify.Acyclic.{
  Within, WithinAll, constant, free, linked, both, in_tuple, in_app, none_left, one_first, Any,
  Other, Within-le, WithinAll-le,
}

-- All variables of a type, and of the types that are linked, are below `n`.
unfoldable mutual
  pub Below : ℕ → Ty → Type 0
  Below n (con c) = Unit
  Below n (var v) = v < n
  Below n (arrow a b) = Below n a × Below n b
  Below n (tuple ts) = BelowAll n ts
  Below n (app c ts) = BelowAll n ts

  pub BelowAll : ℕ → Tys → Type 0
  BelowAll n no_tys = Unit
  BelowAll n (one_more t ts) = Below n t × BelowAll n ts

abbrev pub BelowLinks : ℕ → Links → Type 0
BelowLinks n links = (v : ℕ) (t : Ty) → link_of links v ≡ some t → Below n t

-- Where the links of `t` end: nothing new in it, and what is true of the end is true of `t`.
pub data PruneEnds (links : Links) (n : ℕ) (t : Ty) : Type 1 where
  ends :
      (t' : Ty)
      → Settles (λ f. prune f links t) (ok t')
      → Unlinked links t'
      → Within links Any n t'
      → ((k : ℕ) → BelowLinks k links → Below k t → Below k t')
      → ((P : ℕ → Type 0) (m : ℕ) → Within links P m t' → (k : ℕ) × Within links P k t)
      → PruneEnds links n t

module _ (links : Links) where
  prune_link :
      (f : ℕ) (v : ℕ) (l : Option Ty)
      → link_of links v ≡ l
      → prune (suc f) links (var v) ≡ follow (prune f links) v l
  unfolding prune
  prune_link f v l e = ap (follow (prune f links) v) e

  pub prune_free :
      (f : ℕ) (v : ℕ) → link_of links v ≡ none → prune (suc f) links (var v) ≡ ok (var v)
  unfolding follow
  prune_free f v e = prune_link f v none e

  prune_linked :
      (f : ℕ) (v : ℕ) (t : Ty)
      → link_of links v ≡ some t
      → prune (suc f) links (var v) ≡ prune f links t
  unfolding follow
  prune_linked f v t e = prune_link f v (some t) e

module _ {links : Links} where
  -- A type that is its own end.
  own_end :
      {n : ℕ} (t : Ty)
      → ((f : ℕ) → prune (suc f) links t ≡ ok t)
      → Unlinked links t
      → Within links Any n t
      → PruneEnds links n t
  own_end t e u w =
      ends t (Settles-suc (λ f. prune f links t) e (Settles-const (ok t))) u w (λ k h b. b)
        (λ P m x. (m, x))

  onward :
      {n : ℕ} {t : Ty} (v : ℕ)
      → link_of links v ≡ some t
      → PruneEnds links n t
      → PruneEnds links (suc n) (var v)
  unfolding Below
  onward {t} v e (ends t' s u w below back) =
      ends t' (Settles-suc (λ f. prune f links (var v)) (λ f. prune_linked links f v t e) s) u
        (Within-le (omega arith) w) (λ k h b. below k h (h v t e))
        (λ P m x. let (k, y) = back P m x in (suc k, linked e y))

  pub prune-Ends : {n : ℕ} {t : Ty} → Within links Any n t → PruneEnds links n t
  unfolding prune
  prune-Ends (constant {c}) = own_end (con c) (λ f. refl) tt constant
  prune-Ends (free {v} u p) = own_end (var v) (λ f. prune_free links f v u) u (free u p)
  prune-Ends (linked {v} e w) = onward v e (prune-Ends w)
  prune-Ends (both {a} {b} w x) = own_end (arrow a b) (λ f. refl) tt (both w x)
  prune-Ends (in_tuple {ts} ws) = own_end (tuple ts) (λ f. refl) tt (in_tuple ws)
  prune-Ends (in_app {c} {ts} ws) = own_end (app c ts) (λ f. refl) tt (in_app ws)

-- A search ends: with `true`, or with `false` and what that shows.
pub data Look (E : Type 0) (m : ℕ → Inferred Bool) : Type 0 where
  seen : Settles m (ok true) → Look E m
  unseen : Settles m (ok false) → E → Look E m

Look-or_else :
    {E F : Type 0} {m n : ℕ → Inferred Bool}
    → Look E m
    → Look F n
    → Look (E × F) (λ f. bind (m f) λ b. or_else b (n f))
unfolding or_else
Look-or_else {n} (seen s) l =
    seen (Settles-bind (λ f b. or_else b (n f)) s (Settles-const (ok true)))
Look-or_else {n} (unseen s e) (seen s') = seen (Settles-bind (λ f b. or_else b (n f)) s s')
Look-or_else {n} (unseen s e) (unseen s' e') =
    unseen (Settles-bind (λ f b. or_else b (n f)) s s') (e, e')

Look-map : {E F : Type 0} {m : ℕ → Inferred Bool} → (E → F) → Look E m → Look F m
Look-map h (seen s) = seen s
Look-map h (unseen s e) = unseen s (h e)

Look-bind :
    {A E : Type 0} {m : ℕ → Inferred A} {a : A} (k : ℕ → A → Inferred Bool)
    → Settles m (ok a)
    → Look E (λ f. k f a)
    → Look E (λ f. bind (m f) (k f))
Look-bind k s (seen s') = seen (Settles-bind k s s')
Look-bind k s (unseen s' e) = unseen (Settles-bind k s s') e

Look-suc :
    {E : Type 0} {m : ℕ → Inferred Bool} (n : ℕ → Inferred Bool)
    → ((f : ℕ) → n (suc f) ≡ m f)
    → Look E m
    → Look E n
Look-suc n e (seen s) = seen (Settles-suc n e s)
Look-suc n e (unseen s x) = unseen (Settles-suc n e s) x

module _ (links : Links) (id : ℕ) where
  abbrev pub Absent : Ty → Type 0
  Absent t = (k : ℕ) × Within links (Other id) k t

  abbrev AbsentAll : Tys → Type 0
  AbsentAll ts = (k : ℕ) × WithinAll links (Other id) k ts

  abbrev Looked : Ty → Type 0
  Looked t = Look (Absent t) (λ f. occurs f links id t)

  -- The types one step inside end.
  abbrev Inside : ℕ → Type 0
  Inside zero = Unit
  Inside (suc n) = (t : Ty) → Within links Any n t → Looked t

  here :
      (v : ℕ) (b : Bool)
      → (v == id) ≡ b
      → link_of links v ≡ none
      → Look (Absent (var v)) (λ f. ok b)
  here v true e u = seen (Settles-const (ok true))
  here v false e u = unseen (Settles-const (ok false)) (0, free u (ground arith))

  any-Look :
      {n : ℕ}
      → Inside (suc n)
      → (ts : Tys) → WithinAll links Any n ts
      → Look (AbsentAll ts) (λ f. any (occurs f links id) ts)
  unfolding any
  any-Look h no_tys none_left = unseen (Settles-const (ok false)) (0, none_left)
  any-Look h (one_more t ts) (one_first w ws) =
      Look-map
        (λ ((k, x), (m, xs)).
          (k + m, one_first (Within-le (omega arith) x) (WithinAll-le (omega arith) xs)))
        (Look-or_else (h t w) (any-Look h ts ws))

  occurs_in-Look :
      (n : ℕ) (t : Ty)
      → Inside n
      → Unlinked links t
      → Within links Any n t
      → Look (Absent t) (λ f. occurs_in (occurs f links id) id t)
  unfolding occurs_in
  occurs_in-Look n (con c) h u constant = unseen (Settles-const (ok false)) (0, constant)
  occurs_in-Look n (var v) h u w = here v (v == id) refl u
  occurs_in-Look zero (arrow a b) h u w = elim w [ ]
  occurs_in-Look zero (tuple ts) h u w = elim w [ ]
  occurs_in-Look zero (app c ts) h u w = elim w [ ]
  occurs_in-Look (suc n) (arrow a b) h u (both w x) =
      Look-map
        (λ ((k, y), (m, z)).
          (suc (k + m), both (Within-le (omega arith) y) (Within-le (omega arith) z)))
        (Look-or_else (h a w) (h b x))
  occurs_in-Look (suc n) (tuple ts) h u (in_tuple ws) =
      Look-map (λ (k, xs). (suc k, in_tuple xs)) (any-Look h ts ws)
  occurs_in-Look (suc n) (app c ts) h u (in_app ws) =
      Look-map (λ (k, xs). (suc k, in_app xs)) (any-Look h ts ws)

  look_on : {n : ℕ} {t : Ty} → Inside n → PruneEnds links n t → Looked t
  unfolding occurs
  look_on {n} {t} h (ends t' s u w below back) =
      Look-map (λ (k, x). back (Other id) k x)
        (Look-suc (λ f. occurs f links id t) (λ f. refl)
          (Look-bind (λ f. occurs_in (occurs f links id) id) s (occurs_in-Look n t' h u w)))

  pub occurs-Look : (n : ℕ) (t : Ty) → Within links Any n t → Looked t
  occurs-Look zero t w = look_on tt (prune-Ends w)
  occurs-Look (suc n) t w = look_on (occurs-Look n) (prune-Ends w)
