-- ===== src/Infer/Schemes/Generalize.antt =====
-- gen0-interp-rs/src/infer.rs: which variables `generalize` quantifies.
use dacelo.Base.{
  ℕ, ◌≡◌, ◌↔◌, refl, sym, ap, ◌∙◌, Bool, true, false, not, ◌&&◌, ◌||◌, Bool-cases, inl, inr, ◌⊎◌,
  List, [], ◌∷◌, ◌==◌, ==_iff,
}
use dacelo.Base.Text.{Text}
use dacelo.Infer.{Ty, Links, Scheme, Inferred, ok, err, panic, timeout, bind, Names}
use dacelo.Infer.Unify.{occurs}
use dacelo.Infer.Schemes.{
  contains, insert_var, collect_free, free_vars_of, insert_unless, free_in_env_onto, free_in_env,
  difference, generalize,
}
use dacelo.Infer.Schemes.Free.{contains-insert_var, Agrees, agree, collect_free-Agrees}

and_false : (a : Bool) → (a && false) ≡ false
and_false true = refl
and_false false = refl

or_false : (a : Bool) → (a || false) ≡ a
or_false true = refl
or_false false = refl

-- One variable under two names.
contains_same :
    (vs : List ℕ) (w v : ℕ) {b : Bool} → (w == v) ≡ true → contains vs w ≡ b → contains vs v ≡ b
contains_same vs w v e m = sym (ap (contains vs) ((==_iff w v).0 e)) ∙ m

-- A variable `b` in front of a list, left out or put in.
left_out :
    (b o f q : Bool) → (b ≡ true → q ≡ true) → (o || (f && not q)) ≡ (o || ((b || f) && not q))
left_out true o f q h = let k = h refl in rw k (ap (λ (x : Bool). o || x) (and_false f))
left_out false o f q h = refl

put_in :
    (b o f q : Bool)
    → (b ≡ true → q ≡ false)
    → ((o || b) || (f && not q)) ≡ (o || ((b || f) && not q))
put_in true true f q h = refl
put_in true false f q h = let k = h refl in rw k refl
put_in false true f q h = refl
put_in false false f q h = refl

contains-difference :
    (fv out : List ℕ) (v : ℕ)
    → contains (difference fv out) v ≡ (contains fv v && not (contains out v))
unfolding contains difference
contains-difference [] out v = refl
contains-difference (w ∷ fv) out v =
    let rest = contains-difference fv out v in
    let b = w == v in
    let f = contains fv v in
    let q = contains out v in
    elim (Bool-cases (contains out w)) [
      | inl m ↦ rw m (rest ∙ left_out b false f q (λ e. contains_same out w v e m))
      | inr m ↦
          rw m
            (ap (λ (x : Bool). b || x) rest ∙ put_in b false f q (λ e. contains_same out w v e m))
    ]

contains-insert_unless :
    (qvars fv out : List ℕ) (v : ℕ)
    → contains (insert_unless qvars fv out) v
      ≡ (contains out v || (contains fv v && not (contains qvars v)))
unfolding contains insert_unless
contains-insert_unless qvars [] out v = sym (or_false (contains out v))
contains-insert_unless qvars (w ∷ fv) out v =
    let b = w == v in
    let o = contains out v in
    let f = contains fv v in
    let q = contains qvars v in
    elim (Bool-cases (contains qvars w)) [
      | inl m ↦ rw m (
          contains-insert_unless qvars fv out v
          ∙ left_out b o f q (λ e. contains_same qvars w v e m))
      | inr m ↦ rw m (
          contains-insert_unless qvars fv (insert_var w out) v
          ∙ ap (λ (x : Bool). x || (f && not q)) (contains-insert_var out w v)
          ∙ put_in b o f q (λ e. contains_same qvars w v e m))
    ]

or_and_cases : (o f q : Bool) → (o || (f && not q)) ≡ true → (o ≡ true) ⊎ ((f ≡ true) × (q ≡ false))
or_and_cases true f q e = inl refl
or_and_cases false true true e = absurd (cc)
or_and_cases false true false e = inr (refl, refl)
or_and_cases false false q e = absurd (cc)

and_not : (f q : Bool) → (f && not q) ≡ true → (f ≡ true) × (q ≡ false)
and_not true true e = absurd (cc)
and_not true false e = (refl, refl)
and_not false q e = absurd (cc)

and_both : (f q : Bool) → f ≡ true → q ≡ false → (f && not q) ≡ true
and_both f q e i = rw (e, i) refl

or_left : {o : Bool} (x : Bool) → o ≡ true → (o || x) ≡ true
or_left x e = rw e refl

or_right : (o f q : Bool) → f ≡ true → q ≡ false → (o || (f && not q)) ≡ true
or_right true f q e i = refl
or_right false f q e i = rw (e, i) refl

module _ (f : ℕ) (links : Links) where
  -- `occurs` finds the variable in the type.
  abbrev Occurs : ℕ → Ty → Type 0
  Occurs v t = occurs f links v t ≡ ok true

  -- A scheme of the environment has the variable in its type and does not quantify it.
  pub data FreeInEnv (v : ℕ) : Names Scheme → Type 0 where
    in_first :
        {name : Text} {sch : Scheme} {env : Names Scheme}
        → Occurs v sch.ty
        → contains sch.qvars v ≡ false
        → FreeInEnv v ((name, sch) ∷ env)
    in_rest :
        {name : Text} {sch : Scheme} {env : Names Scheme}
        → FreeInEnv v env
        → FreeInEnv v ((name, sch) ∷ env)

  -- A list of variables is that of the ones with `E`, if there is a list.
  abbrev Lists : (ℕ → Type 0) → Inferred (List ℕ) → Type 0
  Lists E (ok vs) = (v : ℕ) → (contains vs v ≡ true) ↔ E v
  Lists E _ = Unit

  Agrees-nil :
      (v : ℕ) {fv : List ℕ} {r : Inferred Bool}
      → Agrees v [] (ok fv) r
      → (contains fv v ≡ true) ↔ (r ≡ ok true)
  unfolding contains
  Agrees-nil v (agree {b = true} e) = (λ h. refl, λ h. e)
  Agrees-nil v (agree {b = false} e) = (λ h. absurd (cc), λ h. absurd (cc))

  free_vars_of-Lists : (t : Ty) → Lists (λ v. Occurs v t) (free_vars_of f links t)
  unfolding free_vars_of
  free_vars_of-Lists t = listed (collect_free f links t []) refl
    where
      listed : (r : Inferred (List ℕ)) → collect_free f links t [] ≡ r → Lists (λ v. Occurs v t) r
      listed (ok fv) e = λ v. Agrees-nil v (rw e at (collect_free-Agrees v f links t []))
      listed (err x) e = tt
      listed panic e = tt
      listed timeout e = tt

  Lists-map :
      {E F : ℕ → Type 0} → ((v : ℕ) → E v ↔ F v) → (r : Inferred (List ℕ)) → Lists E r → Lists F r
  Lists-map h (ok vs) k = λ v. (λ e. (h v).0 ((k v).0 e), λ e. (k v).1 ((h v).1 e))
  Lists-map h (err x) k = tt
  Lists-map h panic k = tt
  Lists-map h timeout k = tt

  -- The variables of one more scheme.
  FreeInEnv-more :
      (name : Text) (sch : Scheme) (env : Names Scheme) (fv out : List ℕ)
      → ((v : ℕ) → (contains fv v ≡ true) ↔ Occurs v sch.ty)
      → (v : ℕ)
      → ((contains (insert_unless sch.qvars fv out) v ≡ true) ⊎ FreeInEnv v env)
        ↔ ((contains out v ≡ true) ⊎ FreeInEnv v ((name, sch) ∷ env))
  FreeInEnv-more name sch env fv out h v =
      let e = contains-insert_unless sch.qvars fv out v in
      (
        λ c. elim c [
          | inl i ↦ elim (or_and_cases _ _ _ (sym e ∙ i)) [
            | inl o ↦ inl o
            | inr (k, q) ↦ inr (in_first ((h v).0 k) q)
          ]
          | inr x ↦ inr (in_rest x)
        ],
        λ c. elim c [
          | inl o ↦ inl (e ∙ or_left _ o)
          | inr (in_first k q) ↦ inl (e ∙ or_right _ _ _ ((h v).1 k) q)
          | inr (in_rest x) ↦ inr x
        ],
      )

  free_in_env_onto-Lists :
      (env : Names Scheme) (out : List ℕ)
      → Lists (λ v. (contains out v ≡ true) ⊎ FreeInEnv v env) (free_in_env_onto f links env out)
  unfolding free_in_env_onto bind
  free_in_env_onto-Lists [] out = λ v. (λ e. inl e, λ c. elim c [ inl e ↦ e | inr x ↦ elim x [ ] ])
  free_in_env_onto-Lists ((name, sch) ∷ env) out =
      onward (free_vars_of f links sch.ty) (free_vars_of-Lists sch.ty)
        λ fv. free_in_env_onto-Lists env (insert_unless sch.qvars fv out)
    where
      onward :
          (r : Inferred (List ℕ))
          → Lists (λ v. Occurs v sch.ty) r
          → ((fv : List ℕ)
              → Lists
                  (λ v. (contains (insert_unless sch.qvars fv out) v ≡ true) ⊎ FreeInEnv v env)
                  (free_in_env_onto f links env (insert_unless sch.qvars fv out)))
          → Lists
              (λ v. (contains out v ≡ true) ⊎ FreeInEnv v ((name, sch) ∷ env))
              (bind r λ fv. free_in_env_onto f links env (insert_unless sch.qvars fv out))
      onward (ok fv) h k =
          Lists-map (FreeInEnv-more name sch env fv out h)
            (free_in_env_onto f links env (insert_unless sch.qvars fv out)) (k fv)
      onward (err x) h k = tt
      onward panic h k = tt
      onward timeout h k = tt

  -- A scheme that quantifies the variables of `t` that are free in no scheme of the environment.
  abbrev pub Generalizes : Names Scheme → Ty → Inferred Scheme → Type 0
  Generalizes env t (ok sch) =
      (sch.ty ≡ t) × ((v : ℕ) → (contains sch.qvars v ≡ true) ↔ (Occurs v t × (¬ FreeInEnv v env)))
  Generalizes env t _ = Unit

  made :
      (env : Names Scheme) (t : Ty) (r q : Inferred (List ℕ))
      → Lists (λ v. Occurs v t) r
      → Lists (λ v. (contains [] v ≡ true) ⊎ FreeInEnv v env) q
      → Generalizes env t
          (bind r λ fv. bind q λ env_fv. ok (record { qvars = difference fv env_fv; ty = t }))
  unfolding bind contains
  made env t (ok fv) (ok out) h k = (refl, λ v. quantified v)
    where
      quantified :
          (v : ℕ) → (contains (difference fv out) v ≡ true) ↔ (Occurs v t × (¬ FreeInEnv v env))
      quantified v =
          let d = contains-difference fv out v in
          (
            λ e.
                let (i, j) = and_not _ _ (sym d ∙ e) in
                ((h v).0 i, λ x. let o = (k v).1 (inr x) in absurd (cc)),
            λ (occ, unheld). elim (Bool-cases (contains out v)) [
              | inl o ↦ elim ((k v).0 o) [ inl e ↦ absurd (cc) | inr x ↦ absurd (unheld x) ]
              | inr o ↦ d ∙ and_both _ _ ((h v).1 occ) o
            ],
          )
  made env t (ok fv) (err x) h k = tt
  made env t (ok fv) panic h k = tt
  made env t (ok fv) timeout h k = tt
  made env t (err x) q h k = tt
  made env t panic q h k = tt
  made env t timeout q h k = tt

-- If `generalize` returns a scheme, then it is one for the type itself, and a variable is quantified
-- exactly if `occurs` finds it in the type and no scheme of the environment has it free: in its type
-- and not quantified.
pub generalize-Generalizes :
    (f : ℕ) (links : Links) (env : Names Scheme) (t : Ty)
    → Generalizes f links env t (generalize f links env t)
unfolding generalize free_in_env
generalize-Generalizes f links env t =
    made f links env t (free_vars_of f links t) (free_in_env_onto f links env [])
      (free_vars_of-Lists f links t) (free_in_env_onto-Lists f links env [])
