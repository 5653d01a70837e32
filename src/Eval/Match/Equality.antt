-- ===== src/Eval/Match/Equality.antt =====
-- Laws of `eq_value`, the `==` of the language.
use dacelo.Base.{ℕ, ◌≡◌, refl, ap, ◌∙◌, arith, Bool, true, false, ◌==◌, ==_iff}
use dacelo.Base.Int.{ℤ, pos, negsuc}
use dacelo.Base.Text.{Text, text_eq_refl, text_eq_comm}
use dacelo.Eval.{
  Value, int, bool, str, unit, tuple, fun, adt, Values, v_nil, v_cons, Callable, v_length,
}
use dacelo.Eval.Numbers.{eq_ℤ}
use dacelo.Eval.Match.{Checked, ok, eq_bool, eq_value, eq_all, both}

eq_ℤ-comm : (a b : ℤ) → eq_ℤ a b ≡ eq_ℤ b a
eq_ℤ-comm (pos a) (pos b) = ground arith
eq_ℤ-comm (negsuc a) (negsuc b) = ground arith
eq_ℤ-comm (pos a) (negsuc b) = refl
eq_ℤ-comm (negsuc a) (pos b) = refl

eq_ℤ-refl : (a : ℤ) → eq_ℤ a a ≡ true
eq_ℤ-refl (pos a) = ground arith
eq_ℤ-refl (negsuc a) = ground arith

eq_bool_comm : (a b : Bool) → eq_bool a b ≡ eq_bool b a
eq_bool_comm true true = refl
eq_bool_comm true false = refl
eq_bool_comm false true = refl
eq_bool_comm false false = refl

eq_bool_refl : (a : Bool) → eq_bool a a ≡ true
eq_bool_refl true = refl
eq_bool_refl false = refl

==-comm : (a b : ℕ) → (a == b) ≡ (b == a)
==-comm a b = ground arith

-- A value with no function inside.
mutual
  pub data IsData : Value → Type 0 where
    data_int : {n : ℤ} → IsData (int n)
    data_bool : {b : Bool} → IsData (bool b)
    data_str : {s : Text} → IsData (str s)
    data_unit : IsData unit
    data_tuple : {vs : Values} → AllData vs → IsData (tuple vs)
    data_adt : {n : Text} {t : ℕ} {vs : Values} → AllData vs → IsData (adt n t vs)

  pub data AllData : Values → Type 0 where
    none_left : AllData v_nil
    each : {v : Value} {vs : Values} → IsData v → AllData vs → AllData (v_cons v vs)

mutual
  unfolding eq_value eq_all

  value_refl : (v : Value) → IsData v → eq_value v v ≡ ok true
  value_refl (int n) d = ap ok (eq_ℤ-refl n)
  value_refl (bool b) d = ap ok (eq_bool_refl b)
  value_refl (str s) d = ap ok (text_eq_refl s)
  value_refl unit d = refl
  value_refl (fun c) d = elim d [ ]
  value_refl (tuple vs) (data_tuple d) =
      rw ((==_iff (v_length vs) (v_length vs)).1 refl) (eq_all_refl vs d)
  value_refl (adt n t vs) (data_adt d) = rw ((==_iff t t).1 refl) (eq_all_refl vs d)

  eq_all_refl : (vs : Values) → AllData vs → eq_all vs vs ≡ ok true
  eq_all_refl v_nil d = refl
  eq_all_refl (v_cons v vs) (each d ds) = rw (value_refl v d) (eq_all_refl vs ds)

unit_comm : (w : Value) → eq_value unit w ≡ eq_value w unit
unfolding eq_value
unit_comm (int a) = refl
unit_comm (bool a) = refl
unit_comm (str a) = refl
unit_comm unit = refl
unit_comm (tuple a) = refl
unit_comm (fun a) = refl
unit_comm (adt a b c) = refl

fun_comm : (f : Callable) (w : Value) → eq_value (fun f) w ≡ eq_value w (fun f)
unfolding eq_value
fun_comm f (int a) = refl
fun_comm f (bool a) = refl
fun_comm f (str a) = refl
fun_comm f unit = refl
fun_comm f (tuple a) = refl
fun_comm f (fun a) = refl
fun_comm f (adt a b c) = refl

mutual
  unfolding eq_value eq_all

  value_comm : (v w : Value) → eq_value v w ≡ eq_value w v
  value_comm (int a) (int b) = ap ok (eq_ℤ-comm a b)
  value_comm (bool a) (bool b) = ap ok (eq_bool_comm a b)
  value_comm (str a) (str b) = ap ok (text_eq_comm a b)
  value_comm (tuple xs) (tuple ys) =
      rw (==-comm (v_length xs) (v_length ys), eq_all_comm xs ys) refl
  value_comm (adt n t xs) (adt m u ys) = rw (==-comm t u, eq_all_comm xs ys) refl
  value_comm unit w = unit_comm w
  value_comm (fun f) w = fun_comm f w
  value_comm _ _ = refl

  eq_all_comm : (xs ys : Values) → eq_all xs ys ≡ eq_all ys xs
  eq_all_comm (v_cons x xs) (v_cons y ys) =
      ap (λ (m : Checked Bool). both m (eq_all xs ys)) (value_comm x y)
      ∙ ap (both (eq_value y x)) (eq_all_comm xs ys)
  eq_all_comm v_nil v_nil = refl
  eq_all_comm v_nil (v_cons y ys) = refl
  eq_all_comm (v_cons x xs) v_nil = refl

-- A value with no function inside is equal to itself.
pub eq_value_refl : (v : Value) → IsData v → eq_value v v ≡ ok true
eq_value_refl = value_refl

-- Comparing two values in the other order gives the same answer, errors included.
pub eq_value_comm : (v w : Value) → eq_value v w ≡ eq_value w v
eq_value_comm = value_comm
