-- ===== src/Infer/Unify/Solved.antt =====
-- gen0-interp-rs/src/infer.rs: the equation that `unify` is given, and what solves the links then.
use dacelo.Base.{
  ℕ, zero, suc, ◌<◌, ◌≡◌, ◌≢◌, ◌↔◌, refl, sym, ap, ◌∙◌, arith, Bool, true, false, ◌&&◌, Bool-cases,
  inl, inr, ◌∷◌, none, some, ◌==◌, ==_iff, if◌then◌else◌,
}
use dacelo.Base.Text.{Text, text_eq, text_eq_iff, text_eq_refl}
use dacelo.Infer.{
  Ty, Tys, no_tys, one_more, con, var, arrow, tuple, app, Links, link_of, InferError, Inferred, ok,
  err, timeout, bind,
}
use dacelo.Infer.Unify.{Step, unify_all, same_length, set_link, link_var, unify_pruned, unify}
use dacelo.Infer.Unify.Solutions.{
  Choice, subst_ty, subst_tys, Solves, Unlinked, End, end, prune-End, size, Found, found, not_found,
  NotTrue, no, occurs-NotTrue, occurs-Found_inside,
}

-- The links solve what the old ones did and the problem `E`, and no more; or nothing that solves the
-- old ones solves `E`; or the fuel is at an end.
pub data Solved (links : Links) (E : Choice → Type 0) : Inferred Links → Type 0 where
  solved :
      {new : Links}
      → ((θ : Choice) → Solves θ new ↔ (Solves θ links × E θ))
      → Solved links E (ok new)
  unsolvable : {e : InferError} → ((θ : Choice) → Solves θ links → ¬ E θ) → Solved links E (err e)
  late : Solved links E timeout

abbrev Same : Ty → Ty → Choice → Type 0
Same a b θ = subst_ty θ a ≡ subst_ty θ b

abbrev SameAll : Tys → Tys → Choice → Type 0
SameAll xs ys θ = subst_tys θ xs ≡ subst_tys θ ys

module _ {links : Links} {E : Choice → Type 0} where
  -- The same problem put in another way.
  Solved-map :
      {F : Choice → Type 0} {r : Inferred Links}
      → ((θ : Choice) → Solves θ links → E θ ↔ F θ)
      → Solved links E r
      → Solved links F r
  Solved-map h (solved k) =
      solved
        λ θ. (λ s. let p = (k θ).0 s in (p.0, (h θ p.0).0 p.1), λ p. (k θ).1 (p.0, (h θ p.0).1 p.1))
  Solved-map h (unsolvable k) = unsolvable λ θ s f. k θ s ((h θ s).1 f)
  Solved-map h Solved.late = Solved.late

  Solved-trivial : ((θ : Choice) → E θ) → Solved links E (ok links)
  Solved-trivial h = solved λ θ. (λ s. (s, h θ), λ p. p.0)

  Solved-none : {e : InferError} → ((θ : Choice) → ¬ E θ) → Solved links E (err e)
  Solved-none h = unsolvable λ θ s. h θ

  -- One problem, and then another with the links that solve the first.
  Solved-bind :
      {F : Choice → Type 0} {m : Inferred Links} {next : Links → Inferred Links}
      → Solved links E m
      → ((new : Links) → Solved new F (next new))
      → Solved links (λ θ. E θ × F θ) (bind m next)
  unfolding bind
  Solved-bind {F} {next} (solved {new} k) h = both (next new) (h new)
    where
      both : (r : Inferred Links) → Solved new F r → Solved links (λ θ. E θ × F θ) r
      both _ (solved l) = solved λ θ. (
        λ s. let p = (l θ).0 s in let q = (k θ).0 p.0 in (q.0, (q.1, p.1)),
        λ p. (l θ).1 ((k θ).1 (p.0, p.1.0), p.1.1),
      )
      both _ (unsolvable l) = unsolvable λ θ s p. l θ ((k θ).1 (s, p.0)) p.1
      both _ Solved.late = Solved.late
  Solved-bind (unsolvable k) h = unsolvable λ θ s p. k θ s p.0
  Solved-bind Solved.late h = Solved.late

module _ (links : Links) (v : ℕ) (t : Ty) where
  pub link_of_new : (w : ℕ) → v ≡ w → link_of ((v, t) ∷ links) w ≡ some t
  unfolding link_of
  link_of_new w e = let q = (==_iff v w).1 e in rw q refl

  pub link_of_old : (w : ℕ) → (v == w) ≡ false → link_of ((v, t) ∷ links) w ≡ link_of links w
  unfolding link_of
  link_of_old w q = rw q refl

  -- A new link is one more equation.
  module _ (u : link_of links v ≡ none) (θ : Choice) where
    Solves-old : Solves θ ((v, t) ∷ links) → Solves θ links
    Solves-old s w t' e = elim (Bool-cases (v == w)) [
      | inl q ↦ let i = (==_iff v w).0 q in absurd (cc)
      | inr q ↦ s w t' (link_of_old w q ∙ e)
    ]

    Solves-new : Solves θ links → θ v ≡ subst_ty θ t → Solves θ ((v, t) ∷ links)
    Solves-new s h w t' e = elim (Bool-cases (v == w)) [
      | inl q ↦ let i = (==_iff v w).0 q in let j = link_of_new w i in cc
      | inr q ↦ s w t' (sym (link_of_old w q) ∙ e)
    ]

  Solved-link : link_of links v ≡ none → Solved links (Same (var v) t) (ok ((v, t) ∷ links))
  unfolding subst_ty
  Solved-link u =
      solved λ θ. (λ s. (Solves-old u θ s, s v t (link_of_new v refl)), λ p. Solves-new u θ p.0 p.1)

  -- A link to a type that is no variable: the variable is not found in it, or there is no solution.
  Solved-set_link :
      {r : Inferred Bool}
      → link_of links v ≡ none
      → Found links v (λ θ. size (subst_ty θ t)) r
      → Solved links (Same (var v) t) (bind r (set_link v t links))
  unfolding bind set_link subst_ty
  Solved-set_link u (found k) = unsolvable λ θ s e. lt_irrefl (ap size e) (k θ s)
    where
      lt_irrefl : {a b : ℕ} → a ≡ b → a < b → ⊥
      lt_irrefl e h = omega arith
  Solved-set_link u not_found = Solved-link u
  Solved-set_link u Found.late = Solved.late

  Solved-link_free :
      {r : Inferred Bool}
      → link_of links v ≡ none
      → NotTrue r
      → Solved links (Same (var v) t) (bind r (set_link v t links))
  unfolding bind set_link
  Solved-link_free u no = Solved-link u
  Solved-link_free u NotTrue.late = Solved.late

Solved-link_var :
    (f : ℕ) (links : Links) (v : ℕ) (b : Ty)
    → ((w : ℕ) → b ≢ var w)
    → link_of links v ≡ none
    → Solved links (Same (var v) b) (link_var f v b links)
unfolding link_var
Solved-link_var f links v b h u = Solved-set_link links v b u (occurs-Found_inside f links v b h)

-- Two variables.
Solved-vars :
    (f : ℕ) (links : Links) (v w : ℕ)
    → link_of links v ≡ none
    → link_of links w ≡ none
    → (b : Bool) → (v == w) ≡ b
    → Solved links (Same (var v) (var w)) (if b then ok links else link_var f v (var w) links)
unfolding link_var
Solved-vars f links v w u i true e =
    Solved-trivial λ θ. ap (λ x. subst_ty θ (var x)) ((==_iff v w).0 e)
Solved-vars f links v w u i false e =
    Solved-link_free links v (var w) u (occurs-NotTrue f links v w i (ground arith))

-- What a step of `unify` is taken to do.
abbrev Solves-all : Step → Type 0
Solves-all step = (a b : Ty) (links : Links) → Solved links (Same a b) (step a b links)

module _ {step : Step} (h : Solves-all step) where
  Solved-unify_all :
      (xs ys : Tys) (links : Links)
      → same_length xs ys ≡ true
      → Solved links (SameAll xs ys) (unify_all step xs ys links)
  unfolding unify_all same_length subst_tys
  Solved-unify_all no_tys no_tys links e = Solved-trivial λ θ. refl
  Solved-unify_all (one_more x xs) (one_more y ys) links e =
      Solved-map (λ θ s. (λ p. let i = p.0 in let j = p.1 in cc, λ p. (cc, cc)))
        (Solved-bind (h x y links) λ new. Solved-unify_all xs ys new e)
  Solved-unify_all no_tys (one_more y ys) links e = absurd (cc)
  Solved-unify_all (one_more x xs) no_tys links e = absurd (cc)

SameAll-same_length : (θ : Choice) (xs ys : Tys) → SameAll xs ys θ → same_length xs ys ≡ true
unfolding subst_tys same_length
SameAll-same_length θ no_tys no_tys e = refl
SameAll-same_length θ (one_more x xs) (one_more y ys) e = SameAll-same_length θ xs ys (cc)
SameAll-same_length θ no_tys (one_more y ys) e = absurd (cc)
SameAll-same_length θ (one_more x xs) no_tys e = absurd (cc)

module _ {step : Step} (h : Solves-all step) where
  -- Two lists, if they are of one length.
  Solved-lists :
      (xs ys : Tys) (links : Links) (e : InferError) (b : Bool)
      → same_length xs ys ≡ b
      → Solved links (SameAll xs ys) (if b then unify_all step xs ys links else err e)
  Solved-lists xs ys links e true i = Solved-unify_all h xs ys links i
  Solved-lists xs ys links e false i =
      Solved-none λ θ s. let j = SameAll-same_length θ xs ys s in cc

  Solved-cons :
      (x y : Text) (links : Links) (b : Bool)
      → text_eq x y ≡ b
      → Solved links
          (Same (con x) (con y))
          (if b then ok links else err (InferError.mismatch (con x) (con y)))
  unfolding subst_ty
  Solved-cons x y links true e = Solved-trivial λ θ. ap con ((text_eq_iff x y).0 e)
  Solved-cons x y links false e =
      Solved-none λ θ s. let i = text_eq_refl x in let j : x ≡ y = cc in cc

  Solved-apps :
      (n m : Text) (xs ys : Tys) (links : Links) (b : Bool)
      → text_eq n m ≡ b
      → Solved links (Same (app n xs) (app m ys)) (
          if b && same_length xs ys
          then unify_all step xs ys links
          else err (InferError.mismatch (app n xs) (app m ys)))
  unfolding subst_ty
  Solved-apps n m xs ys links true e =
      let i = (text_eq_iff n m).0 e in
      Solved-map (λ θ s. (λ j. cc, λ j. cc)) (Solved-lists xs ys links _ (same_length xs ys) refl)
  Solved-apps n m xs ys links false e =
      Solved-none λ θ s. let i = text_eq_refl n in let j : n ≡ m = cc in cc

  Solved-unify_pruned :
      (f : ℕ) (a b : Ty) (links : Links)
      → Unlinked links a
      → Unlinked links b
      → Solved links (Same a b) (unify_pruned f step a b links)
  unfolding unify_pruned subst_ty
  Solved-unify_pruned f (var v) (var w) links u i = Solved-vars f links v w u i (v == w) refl
  Solved-unify_pruned f (var v) (con y) links u i = Solved-link_var f links v (con y) (λ w e. cc) u
  Solved-unify_pruned f (var v) (arrow c d) links u i =
      Solved-link_var f links v (arrow c d) (λ w e. cc) u
  Solved-unify_pruned f (var v) (tuple ys) links u i =
      Solved-link_var f links v (tuple ys) (λ w e. cc) u
  Solved-unify_pruned f (var v) (app m ys) links u i =
      Solved-link_var f links v (app m ys) (λ w e. cc) u
  Solved-unify_pruned f (con x) (con y) links u i = Solved-cons x y links (text_eq x y) refl
  Solved-unify_pruned f (arrow a b) (arrow c d) links u i =
      Solved-map (λ θ s. (λ p. let j = p.0 in let k = p.1 in cc, λ p. (cc, cc)))
        (Solved-bind (h a c links) λ new. h b d new)
  Solved-unify_pruned f (tuple xs) (tuple ys) links u i =
      Solved-map (λ θ s. (λ j. cc, λ j. cc)) (Solved-lists xs ys links _ (same_length xs ys) refl)
  Solved-unify_pruned f (app n xs) (app m ys) links u i =
      Solved-apps n m xs ys links (text_eq n m) refl
  Solved-unify_pruned f a (var w) links u i =
      Solved-map (λ θ s. (λ j. sym j, λ j. sym j)) (h (var w) a links)
  Solved-unify_pruned f a b links u i = Solved-none λ θ s. cc

  Solved-ends :
      {a b : Ty} {r q : Inferred Ty} (f : ℕ) (links : Links)
      → End links a r
      → End links b q
      → Solved links (Same a b) (bind r λ a'. bind q λ b'. unify_pruned f step a' b' links)
  unfolding bind
  Solved-ends f links (end {t' = a'} same u) (end {t' = b'} same' i) =
      Solved-map (λ θ s. let k = same θ s in let l = same' θ s in (λ j. cc, λ j. cc))
        (Solved-unify_pruned f a' b' links u i)
  Solved-ends f links (end same u) End.late = Solved.late
  Solved-ends f links End.late e = Solved.late

-- `unify` gives links that are solved by exactly the choices that solve the old links and make the
-- two types the same, or an error if there is no such choice, or is out of fuel.
pub unify-Solved :
    (f : ℕ) (a b : Ty) (links : Links)
    → Solved links (λ θ. subst_ty θ a ≡ subst_ty θ b) (unify f a b links)
unfolding unify
unify-Solved zero a b links = Solved.late
unify-Solved (suc f) a b links =
    Solved-ends (unify-Solved f) f links (prune-End f links a) (prune-End f links b)
