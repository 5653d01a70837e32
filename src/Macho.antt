-- ===== src/Macho.antt =====
-- gen2-dcc-rs/src/macho.rs: the object file that is written around the encoder's code. Sums of
-- sizes are natural numbers here; every field is cut to its width when its bytes are written.
pub mod Symbols
pub mod Headers
pub mod Writer
pub mod Places
pub mod Fields
pub mod Layout
pub mod Names
use dacelo.Base.{
  ℕ, zero, suc, ◌+◌, ◌-◌, ◌*◌, ◌/◌, ◌%◌, ◌^◌, Bool, true, false, List, [], ◌∷◌, ◌++◌, Option, none,
  some, if◌then◌else◌, leb, length, take, drop, replicate,
}
use dacelo.Base.Text.{Text}

pub data RelocKind : Type 0 where
  unsigned got_load_page21 got_load_page_off12 : RelocKind

pub record Reloc : Type 0 where
  pub offset : ℕ
  pub sym_name : Text
  pub kind : RelocKind

pub data Section : Type 0 where
  text data_section : Section

-- `section` is `none` for an undefined extern.
pub record Symbol : Type 0 where
  pub name : Text
  pub section : Option Section
  pub value : ℕ
  pub global : Bool

pub record ObjectBuilder : Type 0 where
  pub text : List ℕ
  pub data_bytes : List ℕ
  pub syms : List Symbol
  pub relocs_text : List Reloc
  pub relocs_data : List Reloc

unfoldable pub new : ObjectBuilder
new = record { text = []; data_bytes = []; syms = []; relocs_text = []; relocs_data = [] }

unfoldable pub define : Text → Section → ℕ → Bool → ObjectBuilder → ObjectBuilder
define name sect offset global b = record b {
  syms =
      b.syms ++ record { name = name; section = some sect; value = offset; global = global } ∷ [];
}

unfoldable pub add_extern : Text → ObjectBuilder → ObjectBuilder
add_extern name b = record b {
  syms = b.syms ++ record { name = name; section = none; value = 0; global = false } ∷ [];
}

-- `panic` is a slice out of range or the failed assertion on the length of the headers.
pub data Built {ℓ} (A : Type ℓ) : Type ℓ where
  ok : A → Built A
  unknown_symbol : Text → Built A
  panic : Built A

infixl 5 ◌>>=◌
abbrev pub ◌>>=◌ {ℓ κ} : {A : Type ℓ} {B : Type κ} → Built A → (A → Built B) → Built B
ok a >>= f = f a
unknown_symbol n >>= f = unknown_symbol n
panic >>= f = panic

-- `to_le_bytes` of a `u16` and a `u64`
abbrev pub le16 : ℕ → List ℕ
le16 n = (n % 2 ^ 8) ∷ (n / 2 ^ 8 % 2 ^ 8) ∷ []

abbrev pub le64 : ℕ → List ℕ
le64 n =
    (n % 2 ^ 8)
    ∷ (n / 2 ^ 8 % 2 ^ 8)
    ∷ (n / 2 ^ 16 % 2 ^ 8)
    ∷ (n / 2 ^ 24 % 2 ^ 8)
    ∷ (n / 2 ^ 32 % 2 ^ 8)
    ∷ (n / 2 ^ 40 % 2 ^ 8)
    ∷ (n / 2 ^ 48 % 2 ^ 8)
    ∷ (n / 2 ^ 56 % 2 ^ 8)
    ∷ []

-- `buf[pos..pos + bytes.len()].copy_from_slice(bytes)`
unfoldable pub put : List ℕ → ℕ → List ℕ → Built (List ℕ)
put buf at bytes =
    if leb (at + length bytes) (length buf)
    then ok (take at buf ++ bytes ++ drop (at + length bytes) buf)
    else panic

abbrev pub align_up : ℕ → ℕ → ℕ
align_up v a = (v + a - 1) / a * a
