-- ===== src/Infer/Unify/Solutions.antt =====
-- gen0-interp-rs/src/infer.rs: what links ask of a choice of a type for each variable, and what
-- `prune` and `occurs` say of it.
use dacelo.Base.{
  ℕ, zero, suc, ◌+◌, ◌≤◌, ◌<◌, ◌≡◌, ◌≢◌, refl, ◌∙◌, arith, Bool, true, false, Option, none, some,
  ◌==◌, ==_iff,
}
use dacelo.Infer.{
  Ty, Tys, no_tys, one_more, con, var, arrow, tuple, app, Links, link_of, Inferred, ok, timeout,
  bind,
}
use dacelo.Infer.Unify.{follow, prune, or_else, any, occurs_in, occurs}

-- A type with a type for each variable.
abbrev pub Choice : Type 0
Choice = ℕ → Ty

unfoldable mutual
  pub subst_ty : Choice → Ty → Ty
  subst_ty θ (con c) = con c
  subst_ty θ (var v) = θ v
  subst_ty θ (arrow a b) = arrow (subst_ty θ a) (subst_ty θ b)
  subst_ty θ (tuple ts) = tuple (subst_tys θ ts)
  subst_ty θ (app n ts) = app n (subst_tys θ ts)

  pub subst_tys : Choice → Tys → Tys
  subst_tys θ no_tys = no_tys
  subst_tys θ (one_more t ts) = one_more (subst_ty θ t) (subst_tys θ ts)

-- Every variable that is linked stands for what its link stands for.
abbrev pub Solves : Choice → Links → Type 0
Solves θ links = (v : ℕ) (t : Ty) → link_of links v ≡ some t → θ v ≡ subst_ty θ t

-- No variable, or one with no link.
abbrev pub Unlinked : Links → Ty → Type 0
Unlinked links (var v) = link_of links v ≡ none
Unlinked links _ = Unit

-- The end of the links: the same type, and unlinked.
pub data End (links : Links) (t : Ty) : Inferred Ty → Type 0 where
  end :
      {t' : Ty}
      → ((θ : Choice) → Solves θ links → subst_ty θ t ≡ subst_ty θ t')
      → Unlinked links t'
      → End links t (ok t')
  late : End links t timeout

follow-End :
    {links : Links} {v : ℕ} {onward : Ty → Inferred Ty} (l : Option Ty)
    → link_of links v ≡ l
    → ((t : Ty) → End links t (onward t))
    → End links (var v) (follow onward v l)
unfolding follow subst_ty
follow-End none e h = end (λ θ s. refl) e
follow-End {links} {v} {onward} (some t) e h = onward_End (onward t) (h t)
  where
    onward_End : (r : Inferred Ty) → End links t r → End links (var v) r
    onward_End _ (end same u) = end (λ θ s. s v t e ∙ same θ s) u
    onward_End _ late = late

pub prune-End : (f : ℕ) (links : Links) (t : Ty) → End links t (prune f links t)
unfolding prune
prune-End zero links t = late
prune-End (suc f) links (var v) = follow-End (link_of links v) refl (prune-End f links)
prune-End (suc f) links (con c) = end (λ θ s. refl) tt
prune-End (suc f) links (arrow a b) = end (λ θ s. refl) tt
prune-End (suc f) links (tuple ts) = end (λ θ s. refl) tt
prune-End (suc f) links (app n ts) = end (λ θ s. refl) tt

unfoldable mutual
  pub size : Ty → ℕ
  size (con c) = 0
  size (var v) = 0
  size (arrow a b) = suc (size a + size b)
  size (tuple ts) = suc (sizes ts)
  size (app n ts) = suc (sizes ts)

  pub sizes : Tys → ℕ
  sizes no_tys = 0
  sizes (one_more t ts) = size t + sizes ts

-- A variable that is found where there is less than `n` stands for a type smaller than `n`.
pub data Found (links : Links) (id : ℕ) (n : Choice → ℕ) : Inferred Bool → Type 0 where
  found : ((θ : Choice) → Solves θ links → size (θ id) < n θ) → Found links id n (ok true)
  not_found : Found links id n (ok false)
  late : Found links id n timeout

-- More than the size of a type, and for a type that is no variable the size itself.
unfoldable pub room : Choice → Ty → ℕ
unfolding size subst_ty
room θ (var v) = suc (size (θ v))
room θ t = size (subst_ty θ t)

room_le : (θ : Choice) (t : Ty) → room θ t ≤ suc (size (subst_ty θ t))
unfolding room subst_ty
room_le θ (var v) = omega arith
room_le θ _ = omega arith

module _ {links : Links} {id : ℕ} where
  Found-le :
      {m n : Choice → ℕ} {r : Inferred Bool}
      → ((θ : Choice) → Solves θ links → m θ ≤ n θ)
      → Found links id m r
      → Found links id n r
  Found-le h (found k) = found λ θ s. lt_le_trans (k θ s) (h θ s)
    where
      lt_le_trans : {a b c : ℕ} → a < b → b ≤ c → a < c
      lt_le_trans h k = omega arith
  Found-le h not_found = not_found
  Found-le h Found.late = Found.late

  Found-or_else :
      {n : Choice → ℕ} {m r : Inferred Bool}
      → Found links id n m
      → Found links id n r
      → Found links id n (bind m λ b. or_else b r)
  unfolding bind or_else
  Found-or_else (found k) h = found k
  Found-or_else not_found h = h
  Found-or_else Found.late h = Found.late

  Found-here : (v : ℕ) (b : Bool) → (v == id) ≡ b → Found links id (λ θ. suc (size (θ v))) (ok b)
  Found-here v true e = found λ θ s. rw ((==_iff v id).0 e) (omega arith)
  Found-here v false e = not_found

  module _ {test : Ty → Inferred Bool}
      (h : (t : Ty) → Found links id (λ θ. suc (size (subst_ty θ t))) (test t)) where
    Found-any : (ts : Tys) → Found links id (λ θ. suc (sizes (subst_tys θ ts))) (any test ts)
    unfolding any sizes subst_tys
    Found-any no_tys = not_found
    Found-any (one_more t ts) =
        Found-or_else (Found-le (λ θ s. omega arith) (h t))
          (Found-le (λ θ s. omega arith) (Found-any ts))

    Found-occurs_in : (t : Ty) → Found links id (λ θ. room θ t) (occurs_in test id t)
    unfolding occurs_in size subst_ty room
    Found-occurs_in (var v) = Found-here v (v == id) refl
    Found-occurs_in (con c) = not_found
    Found-occurs_in (arrow a b) =
        Found-or_else (Found-le (λ θ s. omega arith) (h a)) (Found-le (λ θ s. omega arith) (h b))
    Found-occurs_in (tuple ts) = Found-any ts
    Found-occurs_in (app n ts) = Found-any ts

  -- Looking on where the links of `t` end.
  Found-End :
      {t : Ty} {r : Inferred Ty} {look : Ty → Inferred Bool}
      → End links t r
      → ((t' : Ty) → Found links id (λ θ. room θ t') (look t'))
      → Found links id (λ θ. suc (size (subst_ty θ t))) (bind r look)
  unfolding bind
  Found-End (end {t'} same u) h = Found-le (λ θ s. rw (same θ s) (room_le θ t')) (h t')
  Found-End End.late h = Found.late

occurs-Found :
    (f : ℕ) (links : Links) (id : ℕ) (t : Ty)
    → Found links id (λ θ. suc (size (subst_ty θ t))) (occurs f links id t)
unfolding occurs
occurs-Found zero links id t = Found.late
occurs-Found (suc f) links id t =
    Found-End (prune-End f links t) (Found-occurs_in (occurs-Found f links id))

pub data NotTrue : Inferred Bool → Type 0 where
  no : NotTrue (ok false)
  late : NotTrue timeout

-- A variable that is not linked is found in no other one.
pub occurs-NotTrue :
    (f : ℕ) (links : Links) (id v : ℕ)
    → link_of links v ≡ none
    → (v == id) ≡ false
    → NotTrue (occurs f links id (var v))
unfolding occurs prune follow bind occurs_in
occurs-NotTrue zero links id v u e = NotTrue.late
occurs-NotTrue (suc zero) links id v u e = NotTrue.late
occurs-NotTrue (suc (suc f)) links id v u e = rw (u, e) NotTrue.no

-- In a type that is no variable, what is found is smaller than the type.
pub occurs-Found_inside :
    (f : ℕ) (links : Links) (id : ℕ) (t : Ty)
    → ((v : ℕ) → t ≢ var v)
    → Found links id (λ θ. size (subst_ty θ t)) (occurs f links id t)
unfolding occurs prune bind room
occurs-Found_inside zero links id t h = Found.late
occurs-Found_inside (suc zero) links id t h = Found.late
occurs-Found_inside (suc (suc f)) links id (var v) h = absurd (h v refl)
occurs-Found_inside (suc (suc f)) links id t h = Found-occurs_in (occurs-Found (suc f) links id) t
