-- ===== src/Eval/Match.antt =====
-- Pattern matching and the comparison of values of gen0-interp-rs/src/eval.rs.
pub mod Spec
pub mod Equality
use dacelo.Base.{
  ℕ, suc, ◌≡◌, refl, ◌∙◌, ap, Bool, true, false, ◌&&◌, not, List, [], ◌∷◌, ◌++◌, map, Option, none,
  some, ◌==◌, if◌then◌else◌, arith,
}
use dacelo.Base.Text.{Text, text_eq}
use dacelo.Syntax.{Lit, Pattern, Patterns, wildcard, var, p_lit, p_tuple, p_ctor, p_nil, p_cons}
use dacelo.Eval.{
  Value, int, bool, str, unit, tuple, fun, adt, Values, v_nil, v_cons, v_length, Binds, EvalError,
  unknown_constructor, compare_functions,
}
use dacelo.Eval.Numbers.{eq_ℤ}

abbrev pub eq_bool : Bool → Bool → Bool
eq_bool true b = b
eq_bool false b = not b

-- `Result<_, String>` of the functions that do not change the machine.
pub data Checked {ℓ} (A : Type ℓ) : Type ℓ where
  ok : A → Checked A
  err : EvalError → Checked A

infixl 5 ◌>>=◌
abbrev pub ◌>>=◌ {ℓ κ} : {A : Type ℓ} {B : Type κ} → Checked A → (A → Checked B) → Checked B
ok a >>= f = f a
err e >>= f = err e

abbrev pub Ctors : Type 0
Ctors = List (Text × (ℕ × ℕ))

-- `self.ctors.get(name)`
unfoldable pub get_ctor : Text → Ctors → Option (ℕ × ℕ)
get_ctor name [] = none
get_ctor name ((n, c) ∷ cs) = if text_eq n name then some c else get_ctor name cs

unfoldable pub lit_matches : Lit → Value → Bool
lit_matches (Lit.int n) (int x) = eq_ℤ x n
lit_matches (Lit.bool b) (bool x) = eq_bool x b
lit_matches (Lit.str s) (str x) = text_eq x s
lit_matches Lit.unit unit = true
lit_matches _ _ = false

unfoldable pub p_length : Patterns → ℕ
p_length p_nil = 0
p_length (p_cons p ps) = suc (p_length ps)

-- The bindings so far, with those of the match, if it succeeds; `none` is `Ok(false)`.
abbrev pub Matched : Type 0
Matched = Checked (Option Binds)

abbrev pub and_then : Matched → (Binds → Matched) → Matched
and_then m f = m >>= λ r. elim r [ none ↦ ok none | some bs ↦ f bs ]

-- The match of the fields, if the tag and the number of fields are right.
abbrev pub fields_op : Text → (ℕ → Bool) → Matched → Option (ℕ × ℕ) → Matched
fields_op name test all none = err (unknown_constructor name)
fields_op name test all (some (expected, _)) = if test expected then all else ok none

unfoldable mutual
  unfolding lit_matches p_length v_length get_ctor text_eq

  pub pat_match : Ctors → Pattern → Value → Binds → Matched
  pat_match ctors wildcard v bs = ok (some bs)
  pat_match ctors (var n) v bs = ok (some (bs ++ (n, v) ∷ []))
  pat_match ctors (p_lit l) v bs = ok (if lit_matches l v then some bs else none)
  pat_match ctors (p_tuple ps) (tuple vs) bs =
      let all = match_all ctors ps vs bs in if v_length vs == p_length ps then all else ok none
  pat_match ctors (p_tuple ps) _ bs = ok none
  pat_match ctors (p_ctor name ps) (adt n tag vs) bs =
      let all = match_all ctors ps vs bs in
      fields_op name (λ expected. tag == expected && v_length vs == p_length ps) all
        (get_ctor name ctors)
  pat_match ctors (p_ctor name ps) _ bs =
      fields_op name (λ _. false) (ok none) (get_ctor name ctors)

  pub match_all : Ctors → Patterns → Values → Binds → Matched
  match_all ctors p_nil _ bs = ok (some bs)
  match_all ctors (p_cons p ps) v_nil bs = ok (some bs)
  match_all ctors (p_cons p ps) (v_cons v vs) bs =
      and_then (pat_match ctors p v bs) (match_all ctors ps vs)

-- The last cases: functions cannot be compared, and values of different kinds differ.
abbrev mismatch : Value → Checked Bool
mismatch (fun f) = err compare_functions
mismatch _ = ok false

abbrev pub both : Checked Bool → Checked Bool → Checked Bool
both m k = m >>= λ b. elim b [ true ↦ k | false ↦ ok false ]

unfoldable mutual
  unfolding v_length text_eq

  pub eq_value : Value → Value → Checked Bool
  eq_value (int a) (int b) = ok (eq_ℤ a b)
  eq_value (int a) w = mismatch w
  eq_value (bool a) (bool b) = ok (eq_bool a b)
  eq_value (bool a) w = mismatch w
  eq_value (str a) (str b) = ok (text_eq a b)
  eq_value (str a) w = mismatch w
  eq_value unit unit = ok true
  eq_value unit w = mismatch w
  eq_value (tuple xs) (tuple ys) =
      let fields = eq_all xs ys in if v_length xs == v_length ys then fields else ok false
  eq_value (tuple xs) w = mismatch w
  eq_value (adt n tag xs) (adt n' tag' ys) =
      let fields = eq_all xs ys in if tag == tag' then fields else ok false
  eq_value (adt n tag xs) w = mismatch w
  eq_value (fun f) w = err compare_functions

  pub eq_all : Values → Values → Checked Bool
  eq_all (v_cons x xs) (v_cons y ys) = both (eq_value x y) (eq_all xs ys)
  eq_all _ _ = ok true
