-- ===== src/Eval/Show.antt =====
-- `show_value` of gen0-interp-rs/src/eval.rs. `none` is the panic of `cv.fields[0]` and
-- `cv.fields[1]` on a constructor named `Cons` that has fewer than two fields.
use dacelo.Base.{
  ℕ, ◌≡◌, refl, ap, Bool, true, false, List, [], ◌∷◌, ◌++◌, Option, none, some, if◌then◌else◌,
}
use mathlib.Core.Option
use dacelo.Base.Int.{ℤ, pos, negsuc}
use dacelo.Base.Decimal.{to_decimal}
use dacelo.Base.Text.{Text, codes, text_eq}
use dacelo.Eval.{Value, int, bool, str, unit, tuple, fun, adt, Values, v_nil, v_cons}
use Prim.Native.Nat.{suc}

-- `n.to_string()` and `b.to_string()`
unfoldable pub int_text : ℤ → Text
int_text (pos n) = to_decimal n
int_text (negsuc n) = b'-' ∷ to_decimal (suc n)

unfoldable pub bool_text : Bool → Text
bool_text true = codes "true"
bool_text false = codes "false"

-- `join`
unfoldable pub join : Text → List Text → Text
join sep [] = []
join sep (x ∷ []) = x
join sep (x ∷ y ∷ ys) = x ++ sep ++ join sep (y ∷ ys)

-- What is shown of a value: the elements of a list, or a text.
pub data Shown : Type 0 where
  elems : List Text → Shown
  plain : Text → Shown

unfoldable pub shown_text : Shown → Text
unfolding join
shown_text (elems ts) = codes "[" ++ join (codes ", ") ts ++ codes "]"
shown_text (plain t) = t

-- The elements behind a `Cons`: those of the list that is its tail, or `...` and the value.
unfoldable pub shown_tail : Shown → List Text
shown_tail (elems ts) = ts
shown_tail (plain t) = (codes "..." ++ t) ∷ []

unfoldable pub show_cons : List (Option Shown) → Option Shown
unfolding shown_text shown_tail
show_cons (some x ∷ some t ∷ _) = some (elems (shown_text x ∷ shown_tail t))
show_cons _ = none

-- The texts of all the values, if none of them panics.
unfoldable pub shown_texts : List (Option Shown) → Option (List Text)
unfolding shown_text
shown_texts [] = some []
shown_texts (none ∷ xs) = none
shown_texts (some x ∷ xs) = Option.map (λ ts. shown_text x ∷ ts) (shown_texts xs)

abbrev parenthesised : Text → List Text → Shown
parenthesised name [] = plain name
parenthesised name (x ∷ xs) =
    plain (codes "(" ++ name ++ codes " " ++ join (codes " ") (x ∷ xs) ++ codes ")")

unfoldable pub show_adt : Text → List (Option Shown) → Option Shown
unfolding show_cons shown_texts join
show_adt name vs =
    if text_eq name (codes "Cons")
    then show_cons vs
    else if text_eq name (codes "Nil")
    then some (elems [])
    else Option.map (parenthesised name) (shown_texts vs)

unfoldable mutual
  unfolding int_text bool_text shown_texts join show_adt

  pub shown : (Text → Text) → Value → Option Shown
  shown debug (int n) = some (plain (int_text n))
  shown debug (bool b) = some (plain (bool_text b))
  shown debug (str s) = some (plain (debug s))
  shown debug unit = some (plain (codes "()"))
  shown debug (tuple vs) =
      Option.map (λ ts. plain (codes "(" ++ join (codes ", ") ts ++ codes ")"))
        (shown_texts (shown_all debug vs))
  shown debug (fun c) = some (plain (codes "<fun>"))
  shown debug (adt name tag vs) = show_adt name (shown_all debug vs)

  pub shown_all : (Text → Text) → Values → List (Option Shown)
  shown_all debug v_nil = []
  shown_all debug (v_cons v vs) = shown debug v ∷ shown_all debug vs

unfoldable pub show_value : (Text → Text) → Value → Option Text
unfolding shown shown_text
show_value debug v = Option.map shown_text (shown debug v)

show_cons-one : (o : Option Shown) → show_cons (o ∷ []) ≡ none
unfolding show_cons
show_cons-one none = refl
show_cons-one (some x) = refl

-- Showing a value of a constructor named `Cons` with one field panics.
pub show_value-Cons_one :
    (debug : Text → Text) (tag : ℕ) (v : Value)
    → show_value debug (adt (codes "Cons") tag (v_cons v v_nil)) ≡ none
unfolding show_value text_eq
show_value-Cons_one debug tag v = ap (Option.map shown_text) (show_cons-one (shown debug v))
