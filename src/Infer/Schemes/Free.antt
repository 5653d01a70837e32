-- ===== src/Infer/Schemes/Free.antt =====
-- gen0-interp-rs/src/infer.rs: what `collect_free` collects and what `occurs` finds.
use dacelo.Base.{
  ℕ, zero, suc, ◌≡◌, refl, sym, ap, ◌∙◌, Bool, true, false, ◌||◌, Bool-cases, ==_iff, inl, inr,
  List, ◌==◌,
}
use dacelo.Infer.{
  Ty, Tys, no_tys, one_more, con, var, arrow, tuple, app, Links, Inferred, ok, timeout, bind,
}
use dacelo.Infer.Unify.{or_else, any, occurs_in, occurs}
use dacelo.Infer.Unify.Solutions.{End, end, prune-End}
use dacelo.Infer.Schemes.{contains, insert_var, Collect, collect_all, collect_in, collect_free}

pub contains-insert_var :
    (out : List ℕ) (w v : ℕ) → contains (insert_var w out) v ≡ (contains out v || (w == v))
unfolding contains insert_var
contains-insert_var out w v = elim (Bool-cases (contains out w)) [
  | inl m ↦ rw m (sym (held (w == v) refl m))
  | inr m ↦ rw m (or_comm (w == v) (contains out v))
]
  where
    or_comm : (a b : Bool) → (a || b) ≡ (b || a)
    or_comm true true = refl
    or_comm true false = refl
    or_comm false true = refl
    or_comm false false = refl

    held :
        (b : Bool) → (w == v) ≡ b → contains out w ≡ true → (contains out v || b) ≡ contains out v
    held true e m =
        let k : contains out v ≡ true = sym (ap (contains out) ((==_iff w v).0 e)) ∙ m in rw k refl
    held false e m = or_comm (contains out v) false

or_true_left : (a c b : Bool) → a ≡ (c || true) → (a || b) ≡ (c || true)
or_true_left true true b e = refl
or_true_left true false b e = refl
or_true_left false true b e = absurd (cc)
or_true_left false false b e = absurd (cc)

or_false_left : (a c b : Bool) → a ≡ (c || false) → (a || b) ≡ (c || b)
or_false_left true true b e = refl
or_false_left true false b e = absurd (cc)
or_false_left false true b e = absurd (cc)
or_false_left false false b e = refl

-- A collection onto `out` that comes to an end, with `v` in it exactly if it was there or is found.
pub data Agrees (v : ℕ) (out : List ℕ) : Inferred (List ℕ) → Inferred Bool → Type 0 where
  agree :
      {fv : List ℕ} {b : Bool} → contains fv v ≡ (contains out v || b) → Agrees v out (ok fv) (ok b)
  late : {r : Inferred Bool} → Agrees v out timeout r

module _ (v : ℕ) where
  abbrev Agree : Collect → (Ty → Inferred Bool) → Type 0
  Agree collect test = (t : Ty) (out : List ℕ) → Agrees v out (collect t out) (test t)

  -- One part and then another.
  Agrees-or_else :
      {out : List ℕ} {m : Inferred (List ℕ)} {r : Inferred Bool} {next : List ℕ → Inferred (List ℕ)}
      {q : Inferred Bool}
      → Agrees v out m r
      → ((fv : List ℕ) → Agrees v fv (next fv) q)
      → Agrees v out (bind m next) (bind r λ b. or_else b q)
  unfolding bind or_else
  Agrees-or_else {out} {next} {q} (agree {fv} {b} e) h = after b e (next fv) q (h fv)
    where
      after :
          (b : Bool)
          → contains fv v ≡ (contains out v || b)
          → (n : Inferred (List ℕ)) → (q : Inferred Bool) → Agrees v fv n q
          → Agrees v out n (or_else b q)
      after true e _ _ (agree e') = agree (e' ∙ or_true_left (contains fv v) (contains out v) _ e)
      after false e _ _ (agree e') = agree (e' ∙ or_false_left (contains fv v) (contains out v) _ e)
      after true e _ _ late = late
      after false e _ _ late = late
  Agrees-or_else late h = late

  module _ {collect : Collect} {test : Ty → Inferred Bool} (h : Agree collect test) where
    Agrees-all : (ts : Tys) (out : List ℕ) → Agrees v out (collect_all collect ts out) (any test ts)
    unfolding collect_all any
    Agrees-all no_tys out = agree (or_none (contains out v))
      where
        or_none : (a : Bool) → a ≡ (a || false)
        or_none true = refl
        or_none false = refl
    Agrees-all (one_more t ts) out = Agrees-or_else (h t out) λ fv. Agrees-all ts fv

    Agrees-in :
        (t : Ty) (out : List ℕ) → Agrees v out (collect_in collect out t) (occurs_in test v t)
    unfolding collect_in occurs_in
    Agrees-in (con c) out = Agrees-all no_tys out
    Agrees-in (var w) out = agree (contains-insert_var out w v)
    Agrees-in (arrow a b) out = Agrees-or_else (h a out) λ fv. h b fv
    Agrees-in (tuple ts) out = Agrees-all ts out
    Agrees-in (app n ts) out = Agrees-all ts out

  Agrees-End :
      {links : Links} {t : Ty} {r : Inferred Ty} {out : List ℕ} {next : Ty → Inferred (List ℕ)}
      {look : Ty → Inferred Bool}
      → End links t r
      → ((t' : Ty) → Agrees v out (next t') (look t'))
      → Agrees v out (bind r next) (bind r look)
  unfolding bind
  Agrees-End (end {t'} s u) h = h t'
  Agrees-End End.late h = late

  -- With one amount of fuel for both, a variable is among the ones that `collect_free` leaves exactly
  -- if it was there before or `occurs` finds it, unless the fuel comes to its end.
  pub collect_free-Agrees :
      (f : ℕ) (links : Links) (t : Ty) (out : List ℕ)
      → Agrees v out (collect_free f links t out) (occurs f links v t)
  unfolding collect_free occurs
  collect_free-Agrees zero links t out = late
  collect_free-Agrees (suc f) links t out =
      Agrees-End (prune-End f links t) λ t'. Agrees-in (collect_free-Agrees f links) t' out
