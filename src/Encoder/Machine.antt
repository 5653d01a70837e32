-- ===== src/Encoder/Machine.antt =====
-- An independent reading of the A64 instructions that load constants, by the architecture's own
-- field layout: what a sequence of bytes does to one register.
use dacelo.Base.{
  ℕ, ◌+◌, ◌-◌, ◌*◌, ◌/◌, ◌%◌, ◌^◌, ◌<◌, ◌≡◌, refl, ◌∙◌, ap, arith, Bool, not, ◌&&◌, List, [], ◌∷◌,
  ◌++◌, Option, none, some, ◌==◌, if◌then◌else◌,
}
use mathlib.Core.Option.{some-injective}
use dacelo.Encoder.{le32}

-- What an opcode does to a register that holds `x`, if it is the destination (`hit`).
abbrev pub execute : ℕ → ℕ → ℕ → Bool → ℕ → Option ℕ
execute op unit imm hit x =
    if op == 0b110100101
    then some (if hit then imm * unit else x)
    else if op == 0b111100101
    then some (if hit then x - x / unit % 2 ^ 16 * unit + imm * unit else x)
    else none

-- Whether an instruction with destination `rd` writes register `r`: number 31 is XZR, and what is
-- written there is lost.
unfoldable pub writes : ℕ → ℕ → Bool
writes rd r = rd == r && not (rd == 31)

-- MOVZ is 110100101 hw imm16 Rd, MOVK is 111100101 hw imm16 Rd, from the top bit down.
-- The new value of register `r`, which holds `x`.
unfoldable pub step_word : ℕ → ℕ → ℕ → Option ℕ
unfolding writes
step_word r w x =
    execute (w / 2 ^ 23) (2 ^ (16 * (w / 2 ^ 21 % 4))) (w / 2 ^ 5 % 2 ^ 16) (writes (w % 2 ^ 5) r) x

-- A word given by its fields.
pub step_word-fields :
    (r x op hw imm rd : ℕ)
    → hw < 4
    → imm < 2 ^ 16
    → rd < 32
    → step_word r (op * 2 ^ 23 + hw * 2 ^ 21 + imm * 32 + rd) x
      ≡ execute op (2 ^ (16 * hw)) imm (writes rd r) x
unfolding step_word
step_word-fields r x op hw imm rd h i d =
    let w = op * 2 ^ 23 + hw * 2 ^ 21 + imm * 32 + rd in
    let e₁ : w / 2 ^ 23 ≡ op = omega arith in
    let e₂ : w / 2 ^ 21 % 4 ≡ hw = omega arith in
    let e₃ : w / 2 ^ 5 % 2 ^ 16 ≡ imm = omega arith in
    let e₄ : w % 2 ^ 5 ≡ rd = omega arith in rw (e₁, e₂, e₃, e₄)

abbrev then_run : Option ℕ → (ℕ → Option ℕ) → Option ℕ
then_run none k = none
then_run (some y) k = k y

unfoldable pub run : ℕ → List ℕ → ℕ → Option ℕ
run r [] x = some x
run r (b₀ ∷ b₁ ∷ b₂ ∷ b₃ ∷ bs) x =
    then_run (step_word r (b₀ + b₁ * 2 ^ 8 + b₂ * 2 ^ 16 + b₃ * 2 ^ 24) x) (run r bs)
run r _ x = none

le32_value :
    (w : ℕ)
    → w < 2 ^ 32
    → w % 256 + w / 2 ^ 8 % 256 * 2 ^ 8 + w / 2 ^ 16 % 256 * 2 ^ 16 + w / 2 ^ 24 % 256 * 2 ^ 24 ≡ w
le32_value w h = omega arith

then_run-some : (o : Option ℕ) → then_run o some ≡ o
then_run-some none = refl
then_run-some (some y) = refl

run_word : (r w x : ℕ) → w < 2 ^ 32 → run r (le32 w) x ≡ step_word r w x
unfolding run
run_word r w x h =
    ap (λ (t : ℕ). then_run (step_word r t x) (run r [])) (le32_value w h) ∙ then_run-some _

then_run-eq-some :
    (o : Option ℕ) (k : ℕ → Option ℕ) {y : ℕ}
    → then_run o k ≡ some y
    → (z : ℕ) × (o ≡ some z) × (k z ≡ some y)
then_run-eq-some none k h = cc
then_run-eq-some (some z) k h = (z, refl, h)

-- One more word behind code that runs.
pub run-le32 :
    (r w x : ℕ) (bs : List ℕ) {y : ℕ}
    → w < 2 ^ 32
    → run r bs x ≡ some y
    → run r (bs ++ le32 w) x ≡ step_word r w y
unfolding run
run-le32 r w x [] {y} h e = run_word r w x h ∙ ap (step_word r w) (some-injective _ _ e)
run-le32 r w x (b₀ ∷ b₁ ∷ b₂ ∷ b₃ ∷ bs) {y} h e =
    let (z, p, q) = then_run-eq-some _ (run r bs) e in rw p (run-le32 r w z bs h q)
run-le32 r w x _ h e = cc
