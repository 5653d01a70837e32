-- ===== src/Codegen/Machine/Agrees.antt =====
-- The arithmetic of gen0-interp-rs/src/eval.rs on the words that gen2-dcc-rs/src/codegen.rs tags.
use dacelo.Base.{ℕ, ◌+◌, ◌-◌, ◌%◌, ◌^◌, ◌≡◌, ◌∙◌, arith, inl, inr, leb, Bool-cases}
use dacelo.Base.Int.{ℤ, pos, negsuc, sub_ℕ, as_unsigned}
use dacelo.Base.{List, none, some, sym}
use mathlib.Core.Path.{subst}
use dacelo.Base.Text.{Text}
use dacelo.Codegen.{Codegen}
use dacelo.Codegen.Exprs.{expr}
use dacelo.Codegen.Frames.{find_last}
use dacelo.Codegen.Machine.{Machine}
use dacelo.Codegen.Machine.Sides.{Denotes, Known, Leaves}
use dacelo.Codegen.Machine.Exprs.{expr-Went}
use dacelo.Codegen.Machine.Steps.{Went}
use dacelo.Syntax.{BinOp, Lit, Expr, TyAst, lit, bin, seq, ann}
use dacelo.Eval.Numbers.{wrap64, wrapping_add, wrapping_sub, ◌+ℤ◌, ◌-ℤ◌}

as_unsigned-wrap64 : (z : ℤ) → as_unsigned 64 (wrap64 z) ≡ as_unsigned 64 z
unfolding wrap64
as_unsigned-wrap64 (pos n) = ground arith
as_unsigned-wrap64 (negsuc n) = ground arith

as_unsigned-sub_ℕ :
    (m n : ℕ) → as_unsigned 64 (sub_ℕ m n) ≡ (m % 2 ^ 64 + 2 ^ 64 - n % 2 ^ 64) % 2 ^ 64
as_unsigned-sub_ℕ m n = elim (Bool-cases (leb n m)) [
  | inl le ↦ rw le (ground arith)
  | inr gt ↦ rw gt (ground arith)
]

as_unsigned-add :
    (a b : ℤ) → as_unsigned 64 (a +ℤ b) ≡ (as_unsigned 64 a + as_unsigned 64 b) % 2 ^ 64
unfolding ◌+ℤ◌
as_unsigned-add (pos m) (pos n) = as_unsigned-sub_ℕ _ _ ∙ omega arith
as_unsigned-add (pos m) (negsuc n) = as_unsigned-sub_ℕ _ _ ∙ omega arith
as_unsigned-add (negsuc m) (pos n) = as_unsigned-sub_ℕ _ _ ∙ omega arith
as_unsigned-add (negsuc m) (negsuc n) = as_unsigned-sub_ℕ _ _ ∙ omega arith

as_unsigned-sub :
    (a b : ℤ)
    → as_unsigned 64 (a -ℤ b) ≡ (as_unsigned 64 a + 2 ^ 64 - as_unsigned 64 b % 2 ^ 64) % 2 ^ 64
unfolding ◌-ℤ◌
as_unsigned-sub (pos m) (pos n) = as_unsigned-sub_ℕ _ _ ∙ omega arith
as_unsigned-sub (pos m) (negsuc n) = as_unsigned-sub_ℕ _ _ ∙ omega arith
as_unsigned-sub (negsuc m) (pos n) = as_unsigned-sub_ℕ _ _ ∙ omega arith
as_unsigned-sub (negsuc m) (negsuc n) = as_unsigned-sub_ℕ _ _ ∙ omega arith

-- The integers that arithmetic expressions evaluate to with the operations of the interpreter, where
-- `i` has the integers of the locals by their slots.
pub data Evaluates (scope : List (Text × ℕ)) (i : ℕ → ℤ) : Expr → ℤ → Type 0 where
  num : (z : ℤ) → Evaluates scope i (lit (Lit.int z)) z
  local :
      {n : Text} {s : ℕ} → find_last none n scope ≡ some s → Evaluates scope i (Expr.var n) (i s)
  sum :
      {l r : Expr} {a b : ℤ}
      → Evaluates scope i l a
      → Evaluates scope i r b
      → Evaluates scope i (bin BinOp.add l r) (wrapping_add a b)
  difference :
      {l r : Expr} {a b : ℤ}
      → Evaluates scope i l a
      → Evaluates scope i r b
      → Evaluates scope i (bin BinOp.sub l r) (wrapping_sub a b)
  second :
      {l r : Expr} {a b : ℤ}
      → Evaluates scope i l a
      → Evaluates scope i r b
      → Evaluates scope i (seq l r) b
  annotated : {e : Expr} {t : TyAst} {a : ℤ} → Evaluates scope i e a → Evaluates scope i (ann e t) a

-- The words of the integers.
abbrev pub words : (ℕ → ℤ) → ℕ → ℕ
words i s = as_unsigned 64 (i s)

Evaluates-Denotes :
    (scope : List (Text × ℕ)) (i : ℕ → ℤ) (e : Expr) (z : ℤ)
    → Evaluates scope i e z
    → Denotes scope (words i) e (as_unsigned 64 z)
unfolding wrapping_add wrapping_sub
Evaluates-Denotes scope i _ _ (num z) = Denotes.num z
Evaluates-Denotes scope i _ _ (local e) = Denotes.local e
Evaluates-Denotes scope i _ _ (sum {l} {r} {a} {b} p q) =
    subst (Denotes scope (words i) (bin BinOp.add l r))
      (sym (as_unsigned-wrap64 (a +ℤ b) ∙ as_unsigned-add a b))
      (Denotes.sum (Evaluates-Denotes scope i l a p) (Evaluates-Denotes scope i r b q))
Evaluates-Denotes scope i _ _ (difference {l} {r} {a} {b} p q) =
    subst (Denotes scope (words i) (bin BinOp.sub l r))
      (sym (as_unsigned-wrap64 (a -ℤ b) ∙ as_unsigned-sub a b))
      (Denotes.difference (Evaluates-Denotes scope i l a p) (Evaluates-Denotes scope i r b q))
Evaluates-Denotes scope i _ _ (second {l} {r} {a} {b} p q) =
    Denotes.second (Evaluates-Denotes scope i l a p) (Evaluates-Denotes scope i r b q)
Evaluates-Denotes scope i _ _ (annotated {e} {t} {a} p) =
    Denotes.annotated (Evaluates-Denotes scope i e a p)

-- For an expression of literals, locals, sums, differences, sequences and annotations, with the
-- locals' tagged integers in slots in use: the code generator panics, or the calls of the encoder
-- that it makes, run on the machine, leave in x0 the tagged word of the integer that the operations
-- of the interpreter give, and the slots that were in use as they were.
pub expr-Agrees :
    (scope : List (Text × ℕ)) (i : ℕ → ℤ) (e : Expr) (z : ℤ) (g : Codegen) (m : Machine)
    → Evaluates scope i e z
    → g.frame.scope ≡ scope
    → Known scope (words i) g.frame.nslots m
    → Went g m (λ _. Leaves g m (as_unsigned 64 z)) (expr e g)
expr-Agrees scope i e z g m d same known =
    expr-Went scope (words i) e (as_unsigned 64 z) g m (Evaluates-Denotes scope i e z d) same known
