-- ===== src/Codegen/Machine/Exprs.antt =====
-- The code of arithmetic expressions of gen2-dcc-rs/src/codegen.rs, run on the machine.
use dacelo.Base.{ℕ, ◌≡◌, refl, ap, ◌∙◌, arith, List, Option, none, some, Bool, true, false}
use dacelo.Base.Int.{as_unsigned}
use dacelo.Base.Text.{Text}
use dacelo.Codegen.{Codegen}
use dacelo.Codegen.Arith.{int_arith, add_ints, sub_ints, mul_ints}
use dacelo.Codegen.Exprs.{expr, expr_lit, binop, load_name}
use dacelo.Codegen.Frames.{find_last, scope_find, load_found, load_var}
use dacelo.Codegen.Machine.{Machine}
use dacelo.Codegen.Machine.Ints.{tagged, as_unsigned-tagged_int}
use dacelo.Codegen.Machine.Steps.{Goes, goes, Went, of_goes, follow, weaker, return-Goes}
use dacelo.Infer.{get}
use dacelo.Syntax.{Expr}
use mathlib.Core.Option.{some-injective}
use dacelo.Codegen.Machine.Sides.{
  Denotes, num, local, sum, difference, product, second, annotated, Known, Leaves,
  add_ints-Finishes, sub_ints-Finishes, mul_ints-Finishes, Known-kept, both-Leaves, literal_run,
  local_run, into_x0,
}

load_found-Goes :
    (o p : Option ℕ) (s v : ℕ) {g : Codegen} {m : Machine}
    → o ≡ some s
    → m.slots s ≡ tagged v
    → Goes g m (λ b h k. Leaves g m v h k × (b ≡ true)) (load_found o p)
unfolding load_found
load_found-Goes (some t) p s v {g} {m} e is =
    let same : t ≡ s = some-injective _ _ e in
    follow (into_x0 _ v (m.slots t) (local_run t m) (ap m.slots same ∙ is))
      λ _ h k x. return-Goes true (x, refl)
load_found-Goes none (some slot) s v e is = absurd cc
load_found-Goes none none s v e is = absurd cc

load_var-Goes :
    (n : Text) (s v : ℕ) {g : Codegen} {m : Machine}
    → scope_find g.frame n ≡ some s
    → m.slots s ≡ tagged v
    → Goes g m (λ b h k. Leaves g m v h k × (b ≡ true)) (load_var n)
unfolding load_var
load_var-Goes n s v {g} e is =
    goes (of_goes (load_found-Goes (scope_find g.frame n) (get g.globals n) s v e is))

load_name-Goes :
    (n : Text) {Q : Unit {0} → Codegen → Machine → Type 0} (b : Bool) {g : Codegen} {m : Machine}
    → b ≡ true
    → Q tt g m
    → Goes g m Q (load_name n b)
unfolding load_name
load_name-Goes n true e q = return-Goes tt q
load_name-Goes n false e q = absurd cc

in_scope :
    (n : Text) {scope : List (Text × ℕ)} {s : ℕ} (g : Codegen)
    → g.frame.scope ≡ scope
    → find_last none n scope ≡ some s
    → scope_find g.frame n ≡ some s
unfolding scope_find
in_scope n g same e = ap (find_last none n) same ∙ e

expr-Leaves :
    (scope : List (Text × ℕ)) (w : ℕ → ℕ) (e : Expr) (v : ℕ) (g : Codegen) (m : Machine)
    → Denotes scope w e v
    → g.frame.scope ≡ scope
    → Known scope w g.frame.nslots m
    → Goes g m (λ _. Leaves g m v) (expr e)
unfolding expr expr_lit binop int_arith
expr-Leaves scope w _ _ g m (num z) same known =
    into_x0 _ (as_unsigned 64 z) _ (literal_run z m) (as_unsigned-tagged_int z)
expr-Leaves scope w _ _ g m (local {n} {s} e) same known =
    follow (load_var-Goes n s (w s) (in_scope n g same e) (known n s e).1)
      λ b h k (x, loaded). load_name-Goes n b loaded x
expr-Leaves scope w _ _ g m (sum {l} {r} {a} {b} p q) same known =
    both-Leaves scope w (expr l) (expr r) add_ints a b _ same known
      (λ h k t known'. expr-Leaves scope w l a h k p t known')
      (λ h k t known'. expr-Leaves scope w r b h k q t known')
      (λ la rb k i j. add_ints-Finishes k la rb a b i j)
expr-Leaves scope w _ _ g m (difference {l} {r} {a} {b} p q) same known =
    both-Leaves scope w (expr l) (expr r) sub_ints a b _ same known
      (λ h k t known'. expr-Leaves scope w l a h k p t known')
      (λ h k t known'. expr-Leaves scope w r b h k q t known')
      (λ la rb k i j. sub_ints-Finishes k la rb a b i j)
expr-Leaves scope w _ _ g m (product {l} {r} {a} {b} p q ha hb sa sb) same known =
    both-Leaves scope w (expr l) (expr r) mul_ints a b _ same known
      (λ h k t known'. expr-Leaves scope w l a h k p t known')
      (λ h k t known'. expr-Leaves scope w r b h k q t known')
      (λ la rb k i j. mul_ints-Finishes k la rb a b ha hb sa sb i j)
expr-Leaves scope w _ _ g m (second {l} {r} {a} {b} p q) same known =
    follow (expr-Leaves scope w l a g m p same known) λ _ h k x.
      weaker
        (expr-Leaves scope w r b h k q (x.same_scope ∙ same)
          (Known-kept scope w m k known x.slots_le x.slots_kept))
        λ _ h' k' y. record {
          in_x0 = y.in_x0;
          same_scope = y.same_scope ∙ x.same_scope;
          slots_le = omega (arith, x.slots_le, y.slots_le);
          slots_kept = λ s below. y.slots_kept s (omega (arith, x.slots_le)) ∙ x.slots_kept s below;
        }
expr-Leaves scope w _ _ g m (annotated {e} {t} {a} p) same known =
    expr-Leaves scope w e a g m p same known

-- For an expression of literals, locals, sums, differences, sequences, annotations and products whose
-- factors are words below 2^64 that hold integers of 62 bits, with the locals' tagged words in slots
-- in use: the code generator panics, or the calls of the
-- encoder that it makes, run on the machine, leave the tagged word of the expression in x0 and the
-- slots that were in use as they were.
pub expr-Went :
    (scope : List (Text × ℕ)) (w : ℕ → ℕ) (e : Expr) (v : ℕ) (g : Codegen) (m : Machine)
    → Denotes scope w e v
    → g.frame.scope ≡ scope
    → Known scope w g.frame.nslots m
    → Went g m (λ _. Leaves g m v) (expr e g)
expr-Went scope w e v g m d same known = of_goes (expr-Leaves scope w e v g m d same known)
