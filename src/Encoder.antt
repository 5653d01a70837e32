-- ===== src/Encoder.antt =====
-- gen2-dcc-rs/src/encoder.rs: the buffer into which ARM64 instructions are emitted (`CodeBuf`),
-- its labels, its pending fixups and its table of GOT slots. The instructions themselves are in
-- Encoder/Instructions, `finish` is in Encoder/Finish.
pub mod Instructions
pub mod Finish
pub mod Machine
pub mod Constants
pub mod Branches
pub mod Patch
pub mod WellFormed
pub mod Slots
pub mod Resolve
pub mod Program
pub mod Invariant
use dacelo.Base.{
  ℕ, zero, suc, ◌+◌, ◌-◌, ◌/◌, ◌%◌, ◌^◌, ◌≡◌, refl, ap, Bool, true, false, List, [], ◌∷◌, ◌++◌,
  Option, none, some, if◌then◌else◌, ltb, length, get_elem?, set, take, drop, replicate,
}
use dacelo.Base.Bits.{◌or◌, shl32}
use dacelo.Base.Text.{Text, codes, text_eq}
use dacelo.Base.Decimal.{to_decimal}

-- The failed assertions of the source, each a panic.
pub data Panic : Type 0 where
  label_rebound label_out_of_range unbound_label misaligned_branch branch_too_far : Panic
  immediate_too_large bad_offset frame_too_deep bad_frame_size patch_out_of_range bad_got_key :
      Panic

pub data Asm {ℓ} (A : Type ℓ) : Type ℓ where
  ok : A → Asm A
  panic : Panic → Asm A

infixl 5 ◌>>=◌ ◌>>◌
abbrev pub ◌>>=◌ {ℓ κ} : {A : Type ℓ} {B : Type κ} → Asm A → (A → Asm B) → Asm B
ok a >>= f = f a
panic p >>= f = panic p

abbrev pub ◌>>◌ {ℓ} : {B : Type ℓ} → Asm (Unit {0}) → Asm B → Asm B
m >> k = m >>= λ _. k

abbrev or_self {ℓ} : {A : Type ℓ} → A → Asm A → A
or_self d (ok a) = a
or_self d (panic p) = d

pub ok-injective {ℓ} : {A : Type ℓ} {a b : A} → ok a ≡ ok b → a ≡ b
ok-injective {a} e = ap (or_self a) e

pub bind-eq-ok {ℓ κ} :
    {A : Type ℓ} {B : Type κ} (m : Asm A) (f : A → Asm B) {b : B}
    → (m >>= f) ≡ ok b
    → (a : A) × (m ≡ ok a) × (f a ≡ ok b)
bind-eq-ok (ok a) f h = (a, refl, h)
bind-eq-ok (panic p) f h = cc

-- `assert!`
abbrev pub assert : Bool → Panic → Asm (Unit {0})
assert true p = ok tt
assert false p = panic p

pub data Cond : Type 0 where
  eq ne hs lo mi pl ge lt gt le : Cond

-- `cond as u32`
abbrev pub cond_code : Cond → ℕ
cond_code eq = 0
cond_code ne = 1
cond_code hs = 2
cond_code lo = 3
cond_code mi = 4
cond_code pl = 5
cond_code ge = 10
cond_code lt = 11
cond_code gt = 12
cond_code le = 13

abbrev pub r9 : ℕ
r9 = 9

abbrev pub r29_fp : ℕ
r29_fp = 29

abbrev pub r30_lr : ℕ
r30_lr = 30

abbrev pub rsp : ℕ
rsp = 31

abbrev pub xzr : ℕ
xzr = 31

pub data FixKind : Type 0 where
  b bl : FixKind
  b_cond cbz cbnz : ℕ → FixKind

pub record Fixup : Type 0 where
  pub pos : ℕ
  pub label : ℕ
  pub kind : FixKind

pub record AdrpRef : Type 0 where
  pub pos : ℕ
  pub reg : ℕ
  pub slot : ℕ

pub record CodeBuf : Type 0 where
  pub code : List ℕ
  pub labels : List (Option ℕ)
  pub fixups : List Fixup
  pub got_slots : List Text
  pub got_map : List (Text × ℕ)
  pub adrp_refs : List AdrpRef
  pub pool_base : ℕ

abbrev pub new : CodeBuf
new = record {
  code = [];
  labels = replicate 8 none;
  fixups = [];
  got_slots = [];
  got_map = [];
  adrp_refs = [];
  pool_base = 0;
}

unfoldable pub new_label : CodeBuf → ℕ × CodeBuf
new_label c =
    let labels = c.labels ++ none ∷ [] in
    ((length labels - 1) % 2 ^ 32, record c { labels = labels })

abbrev pub here : CodeBuf → ℕ
here c = length c.code

-- The binding of an entry of `labels`; `none` is an index out of range.
bind_entry : Option (Option ℕ) → ℕ → CodeBuf → Asm CodeBuf
bind_entry none l c = panic label_out_of_range
bind_entry (some none) l c = ok (record c { labels = set c.labels l (some (here c)) })
bind_entry (some (some _)) l c = panic label_rebound

unfoldable pub bind_label : ℕ → CodeBuf → Asm CodeBuf
unfolding bind_entry
bind_label l c = bind_entry (get_elem? c.labels l) l c

-- `insn.to_le_bytes()`
abbrev pub le32 : ℕ → List ℕ
le32 w = w % 256 ∷ w / 2 ^ 8 % 256 ∷ w / 2 ^ 16 % 256 ∷ w / 2 ^ 24 % 256 ∷ []

unfoldable pub push4 : ℕ → CodeBuf → CodeBuf
push4 insn c = record c { code = c.code ++ le32 insn }

-- The four bytes at `pos` replaced; a slice out of range panics.
unfoldable pub patch32 : ℕ → ℕ → List ℕ → Asm (List ℕ)
patch32 pos insn code =
    if ltb (length code) (pos + 4)
    then panic patch_out_of_range
    else ok (take pos code ++ le32 insn ++ drop (pos + 4) code)

-- The `HashMap` from keys to slots: every key is inserted once.
unfoldable pub lookup : Text → List (Text × ℕ) → Option ℕ
lookup k [] = none
lookup k ((j, i) ∷ m) = if text_eq j k then some i else lookup k m

intern_at : Option ℕ → Text → CodeBuf → ℕ × CodeBuf
intern_at (some i) key c = (i, c)
intern_at none key c =
    let idx = length c.got_slots in
    (idx, record c { got_map = (key, idx) ∷ c.got_map; got_slots = c.got_slots ++ key ∷ [] })

unfoldable pub intern_got_slot : Text → CodeBuf → ℕ × CodeBuf
unfolding intern_at
intern_got_slot key c = intern_at (lookup key c.got_map) key c

unfoldable pub emit_adrp_ldr_got : ℕ → Text → CodeBuf → CodeBuf
emit_adrp_ldr_got xt key c =
    let (slot, c₁) = intern_got_slot key c in
    let ref : AdrpRef = record { pos = here c₁; reg = xt; slot = slot } in
    let c₂ : CodeBuf = record c₁ { adrp_refs = c₁.adrp_refs ++ ref ∷ [] } in
    push4 (0xF9400000 or shl32 xt 5 or xt) (push4 (0x90000000 or xt) c₂)

unfoldable pub ldr_lit_extern : ℕ → Text → CodeBuf → CodeBuf
ldr_lit_extern xt sym = emit_adrp_ldr_got xt (codes "E:" ++ sym)

unfoldable pub ldr_lit_label : ℕ → ℕ → CodeBuf → CodeBuf
ldr_lit_label xt label = emit_adrp_ldr_got xt (codes "L:" ++ to_decimal label)
