-- ===== src/Encoder/Patch.antt =====
-- `patch32` of gen2-dcc-rs/src/encoder.rs against reading a word: the word that is patched is read
-- back, and every word that does not overlap it is as before.
use dacelo.Base.{
  ℕ, zero, suc, ◌+◌, ◌*◌, ◌/◌, ◌%◌, ◌^◌, ◌<◌, ◌≤◌, ◌≡◌, refl, ap, arith, List, [], ◌∷◌, ◌++◌,
  Option, none, some, length, take, drop, ◌⊎◌,
}
use dacelo.Encoder.{ok, panic, patch_out_of_range, le32, patch32}

-- The little-endian word at a byte offset.
pub word_at : ℕ → List ℕ → Option ℕ
word_at zero (b₀ ∷ b₁ ∷ b₂ ∷ b₃ ∷ bs) = some (b₀ + b₁ * 2 ^ 8 + b₂ * 2 ^ 16 + b₃ * 2 ^ 24)
word_at zero _ = none
word_at (suc p) [] = none
word_at (suc p) (b ∷ bs) = word_at p bs

pub patched : ℕ → ℕ → List ℕ → List ℕ
patched p w code = take p code ++ le32 w ++ drop (p + 4) code

patched-suc : (p w b : ℕ) (bs : List ℕ) → patched (suc p) w (b ∷ bs) ≡ b ∷ patched p w bs
unfolding patched
patched-suc p w b bs = let e : suc p + 4 ≡ suc (p + 4) = omega arith in rw e

pub length-patched :
    (p w : ℕ) (code : List ℕ) → p + 4 ≤ length code → length (patched p w code) ≡ length code
length-patched zero w (b₀ ∷ b₁ ∷ b₂ ∷ b₃ ∷ bs) h = unfold patched in refl
length-patched zero w _ h = absurd (omega arith)
length-patched (suc p) w [] h = absurd (omega arith)
length-patched (suc p) w (b ∷ bs) h =
    rw (patched-suc p w b bs) (ap suc (length-patched p w bs (omega arith)))

pub word_at-patched :
    (p w : ℕ) (code : List ℕ)
    → p + 4 ≤ length code
    → w < 2 ^ 32
    → word_at p (patched p w code) ≡ some w
unfolding word_at
word_at-patched zero w code h k =
    unfold patched in
    let value : w % 256
          + w / 2 ^ 8 % 256 * 2 ^ 8
          + w / 2 ^ 16 % 256 * 2 ^ 16
          + w / 2 ^ 24 % 256 * 2 ^ 24
        ≡ w =
      omega arith in
    ap some value
word_at-patched (suc p) w [] h k = absurd (omega arith)
word_at-patched (suc p) w (b ∷ bs) h k =
    rw (patched-suc p w b bs) (word_at-patched p w bs (omega arith) k)

pub word_at-patched_apart :
    (p q w : ℕ) (code : List ℕ)
    → p + 4 ≤ length code
    → (p + 4 ≤ q) ⊎ (q + 4 ≤ p)
    → word_at q (patched p w code) ≡ word_at q code
unfolding word_at
word_at-patched_apart zero (suc (suc (suc (suc q)))) w (b₀ ∷ b₁ ∷ b₂ ∷ b₃ ∷ bs) h a =
    unfold patched in refl
word_at-patched_apart (suc (suc (suc (suc p)))) zero w (b₀ ∷ b₁ ∷ b₂ ∷ b₃ ∷ bs) h a =
    rw (patched-suc (suc (suc (suc p))) w b₀, patched-suc (suc (suc p)) w b₁)
      (rw (patched-suc (suc p) w b₂, patched-suc p w b₃) refl)
word_at-patched_apart (suc p) (suc q) w (b ∷ bs) h a =
    rw (patched-suc p w b bs) (word_at-patched_apart p q w bs (omega arith) (omega arith))
word_at-patched_apart _ _ w _ h a = absurd (omega arith)

-- Within the code the slice is in range.
pub patch32-ok :
    (p w : ℕ) (code : List ℕ) → p + 4 ≤ length code → patch32 p w code ≡ ok (patched p w code)
unfolding patch32 patched
patch32-ok p w code h = ground arith

-- A patch that succeeds was in range.
pub patch32-eq-ok :
    (p w : ℕ) (code : List ℕ)
    → (patch32 p w code ≡ ok (patched p w code)) × (p + 4 ≤ length code)
      ⊎ (patch32 p w code ≡ panic patch_out_of_range)
unfolding patch32 patched
patch32-eq-ok p w code = ground arith
