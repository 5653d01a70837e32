-- ===== src/Encoder/Branches.antt =====
-- Where a branch word goes, by the architecture's field layout, against the words that `finish`
-- computes in gen2-dcc-rs/src/encoder.rs.
use dacelo.Base.{
  ℕ, suc, ◌+◌, ◌-◌, ◌*◌, ◌/◌, ◌%◌, ◌^◌, ◌<◌, ◌≤◌, ◌≡◌, refl, ◌∙◌, ap, arith, Option, none, some,
  ◌==◌, if◌then◌else◌, inl, inr, le→leb, ◌⊎◌, ◌||◌,
}
use dacelo.Base.Bits.{◌or◌, shl32, or-eq_add}
use dacelo.Base.Int.{ℤ, pos, negsuc, sub_ℕ, abs, as_signed}
use dacelo.Encoder.{ok, FixKind}
use dacelo.Encoder.Finish.{words_away, branch_word}

-- The address that is `4 * z` bytes from `at`.
abbrev pub displaced : ℕ → ℤ → ℕ
displaced at (pos n) = at + 4 * n
displaced at (negsuc n) = at - 4 * suc n

-- B is 000101 imm26, BL is 100101 imm26; B.cond is 01010100 imm19 0 cond, CBZ and CBNZ are
-- 1011010x imm19 Rt. The immediates are signed and count words.
pub destination : ℕ → ℕ → Option ℕ
destination at w =
    if w / 2 ^ 26 == 0b000101 || w / 2 ^ 26 == 0b100101
    then some (displaced at (as_signed 26 (w % 2 ^ 26)))
    else if w / 2 ^ 24 == 0b01010100 || w / 2 ^ 24 == 0b10110100 || w / 2 ^ 24 == 0b10110101
    then some (displaced at (as_signed 19 (w / 2 ^ 5 % 2 ^ 19)))
    else none

-- How far a branch of each kind reaches; registers and conditions are those of the encoding.
abbrev pub Reaches : FixKind → ℕ → Type 0
Reaches FixKind.b d = d < 2 ^ 27
Reaches FixKind.bl d = d < 2 ^ 27
Reaches (FixKind.b_cond cond) d = (d < 2 ^ 20) × (cond < 16)
Reaches (FixKind.cbz rt) d = (d < 2 ^ 20) × (rt < 32)
Reaches (FixKind.cbnz rt) d = (d < 2 ^ 20) × (rt < 32)

-- The signed distance survives the cut to 26 and to 19 bits.
displaced-words_away :
    (at target : ℕ)
    → abs (sub_ℕ target at) % 4 ≡ 0
    → (abs (sub_ℕ target at) < 2 ^ 27
        → displaced at (as_signed 26 (words_away (sub_ℕ target at) % 2 ^ 26)) ≡ target)
      × (abs (sub_ℕ target at) < 2 ^ 20
          → displaced at (as_signed 19 (words_away (sub_ℕ target at) % 2 ^ 19)) ≡ target)
displaced-words_away at target a = (λ h. ground arith, λ h. ground arith)

-- Words given by their fields.
destination-wide :
    (at op m : ℕ)
    → (op ≡ 0b000101) ⊎ (op ≡ 0b100101)
    → m < 2 ^ 26
    → ((op * 2 ^ 26 or m) < 2 ^ 32)
      × (destination at (op * 2 ^ 26 or m) ≡ some (displaced at (as_signed 26 m)))
unfolding destination
destination-wide at op m o h =
    let e₁ : (op * 2 ^ 26 + m) / 2 ^ 26 ≡ op = omega arith in
    let e₂ : (op * 2 ^ 26 + m) % 2 ^ 26 ≡ m = omega arith in
    rw (or-eq_add 26 (op * 2 ^ 26) m (omega arith) h)
      (omega arith, elim o [ inl e ↦ rw (e₁, e₂, e) | inr e ↦ rw (e₁, e₂, e) ])

destination-narrow :
    (at op m r : ℕ)
    → (op ≡ 0b01010100) ⊎ (op ≡ 0b10110100) ⊎ (op ≡ 0b10110101)
    → m < 2 ^ 19
    → r < 32
    → ((op * 2 ^ 24 or shl32 m 5 or r) < 2 ^ 32)
      × (destination at (op * 2 ^ 24 or shl32 m 5 or r) ≡ some (displaced at (as_signed 19 m)))
unfolding destination
destination-narrow at op m r o h k =
    let w = op * 2 ^ 24 + m * 32 + r in
    let shifted : shl32 m 5 ≡ m * 32 = omega arith in
    let first : (op * 2 ^ 24 or m * 32) ≡ op * 2 ^ 24 + m * 32 =
      or-eq_add 24 (op * 2 ^ 24) (m * 32) (omega arith) (omega arith) in
    let second : (op * 2 ^ 24 + m * 32 or r) ≡ w =
      or-eq_add 5 (op * 2 ^ 24 + m * 32) r (omega arith) k in
    let e₁ : w / 2 ^ 24 ≡ op = omega arith in
    let e₂ : w / 2 ^ 5 % 2 ^ 19 ≡ m = omega arith in
    let e₃ : w / 2 ^ 26 ≡ op / 4 = omega arith in
    rw (shifted, first, second)
      (
        omega arith,
        rw (e₁, e₂, e₃) (elim o [ inl e ↦ rw e | inr (inl e) ↦ rw e | inr (inr e) ↦ rw e ]),
      )

-- For a target that is a multiple of 4 bytes away and in reach of the kind, the branch is encoded,
-- as a word below 2^32 that goes from `at` to the target.
pub branch_word-destination :
    (kind : FixKind) (at target : ℕ)
    → abs (sub_ℕ target at) % 4 ≡ 0
    → Reaches kind (abs (sub_ℕ target at))
    → (w : ℕ) × (branch_word kind (sub_ℕ target at) ≡ ok w)
      × (w < 2 ^ 32)
      × (destination at w ≡ some target)
unfolding branch_word
branch_word-destination FixKind.b at target a r =
    let m = words_away (sub_ℕ target at) % 2 ^ 26 in
    let d = destination-wide at 0b000101 m (inl refl) (omega arith) in
    (_, refl, d.0, d.1 ∙ ap some ((displaced-words_away at target a).0 r))
branch_word-destination FixKind.bl at target a r =
    let m = words_away (sub_ℕ target at) % 2 ^ 26 in
    let d = destination-wide at 0b100101 m (inr refl) (omega arith) in
    (_, refl, d.0, d.1 ∙ ap some ((displaced-words_away at target a).0 r))
branch_word-destination (FixKind.b_cond cond) at target a r =
    let m = words_away (sub_ℕ target at) % 2 ^ 19 in
    let d = destination-narrow at 0b01010100 m cond (inl refl) (omega arith) (omega arith) in
    (
      _,
      rw (le→leb (abs (sub_ℕ target at)) (2 ^ 20) (omega arith)),
      d.0,
      d.1 ∙ ap some ((displaced-words_away at target a).1 r.0),
    )
branch_word-destination (FixKind.cbz rt) at target a r =
    let m = words_away (sub_ℕ target at) % 2 ^ 19 in
    let d = destination-narrow at 0b10110100 m rt (inr (inl refl)) (omega arith) r.1 in
    (_, refl, d.0, d.1 ∙ ap some ((displaced-words_away at target a).1 r.0))
branch_word-destination (FixKind.cbnz rt) at target a r =
    let m = words_away (sub_ℕ target at) % 2 ^ 19 in
    let d = destination-narrow at 0b10110101 m rt (inr (inr refl)) (omega arith) r.1 in
    (_, refl, d.0, d.1 ∙ ap some ((displaced-words_away at target a).1 r.0))

-- A conditional branch over exactly 2^20 bytes forward, from an offset of at least 2^20, passes the
-- range check, and its word goes to the offset 2^20 bytes back.
pub b_cond_edge :
    (cond at : ℕ)
    → cond < 16
    → 2 ^ 20 ≤ at
    → (w : ℕ) × (branch_word (FixKind.b_cond cond) (sub_ℕ (at + 2 ^ 20) at) ≡ ok w)
      × (destination at w ≡ some (at - 2 ^ 20))
unfolding branch_word
b_cond_edge cond at h k =
    let far : sub_ℕ (at + 2 ^ 20) at ≡ pos (2 ^ 20) = ground arith in
    let d = destination-narrow at 0b01010100 (2 ^ 18) cond (inl refl) (omega arith) (omega arith) in
    (_, rw far, d.1)
