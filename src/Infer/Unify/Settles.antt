-- ===== src/Infer/Unify/Settles.antt =====
-- A computation on fuel that gives the same result from some amount of fuel on.
use dacelo.Base.{ℕ, zero, suc, ◌+◌, ◌≤◌, ◌≡◌, refl, ap, ◌∙◌, arith}
use dacelo.Infer.{InferError, Inferred, ok, err, bind}

pub data Settles {ℓ} {A : Type ℓ} (m : ℕ → Inferred A) (r : Inferred A) : Type ℓ where
  settles : (enough : ℕ) → ((f : ℕ) → enough ≤ f → m f ≡ r) → Settles m r

module _ {ℓ} {A : Type ℓ} where
  pub Settles-const : (r : Inferred A) → Settles (λ f. r) r
  Settles-const r = settles 0 λ f h. refl

  -- A step that costs one unit.
  pub Settles-suc :
      {m : ℕ → Inferred A} {r : Inferred A} (n : ℕ → Inferred A)
      → ((f : ℕ) → n (suc f) ≡ m f)
      → Settles m r
      → Settles n r
  Settles-suc {r} n e (settles enough h) = settles (suc enough) after
    where
      after : (f : ℕ) → suc enough ≤ f → n f ≡ r
      after zero k = elim k [ ]
      after (suc f) k = e f ∙ h f (omega arith)

module _ {ℓ κ} {A : Type ℓ} {B : Type κ} where
  pub Settles-bind :
      {m : ℕ → Inferred A} {a : A} {r : Inferred B} (k : ℕ → A → Inferred B)
      → Settles m (ok a)
      → Settles (λ f. k f a) r
      → Settles (λ f. bind (m f) (k f)) r
  unfolding bind
  Settles-bind {m} {a} k (settles n h) (settles n' h') =
      settles (n + n') λ f l. ap (λ x. bind x (k f)) (h f (omega arith)) ∙ h' f (omega arith)

  pub Settles-bind_err :
      {m : ℕ → Inferred A} {e : InferError} (k : ℕ → A → Inferred B)
      → Settles m (err e)
      → Settles (λ f. bind (m f) (k f)) (err e)
  unfolding bind
  Settles-bind_err k (settles n h) = settles n λ f l. ap (λ x. bind x (k f)) (h f l)
