-- ===== src/Codegen.antt =====
-- gen2-dcc-rs/src/codegen.rs: the state of the code generator and what its methods share. The
-- methods take `&mut self` and some take `f: &mut FnState`; here the state of the function that is
-- being compiled is the field `frame`, and a method is a function from a state to a result and the
-- state then. A counter of 32 bits that would overflow panics.
pub mod Data
pub mod Frames
pub mod Patterns
pub mod Arith
pub mod Exprs
pub mod Functions
pub mod Object
pub mod Framed
pub mod Strings
pub mod Machine
use dacelo.Base.{
  ℕ, zero, suc, ◌+◌, ◌*◌, ◌%◌, ◌^◌, Bool, true, false, ◌||◌, List, [], ◌∷◌, ◌++◌, Option, none,
  some, if◌then◌else◌, ltb, get_elem?,
}
use dacelo.Base.Bits.{◌or◌}
use dacelo.Base.Int.{ℤ, as_unsigned, as_signed}
use dacelo.Base.Text.{Text, codes, text_eq}
use dacelo.Encoder
use dacelo.Encoder.{Asm, CodeBuf}
use dacelo.Encoder.Program.{Op, perform, assemble}
use dacelo.Infer.{Names, get, insert}
use dacelo.Macho.{Reloc}
use dacelo.Syntax.{Pattern, Expr}

abbrev pub tag_string : ℕ
tag_string = 1

abbrev pub tag_tuple : ℕ
tag_tuple = 2

abbrev pub tag_adt : ℕ
tag_adt = 3

abbrev pub tag_closure : ℕ
tag_closure = 4

abbrev pub hdr : ℕ → ℕ → ℕ
hdr tag size_words = size_words * 2 ^ 8 % 2 ^ 64 or tag

-- `(n << 2) | 1` on an `i64`
unfoldable pub tagged_int : ℤ → ℤ
tagged_int n = as_signed 64 (as_unsigned 64 n * 2 ^ 2 % 2 ^ 64 or 1)

abbrev pub tagged_bool : Bool → ℕ
tagged_bool true = 7
tagged_bool false = 3

abbrev pub builtins : List Text
builtins =
    codes "print_int"
    ∷ codes "print_string"
    ∷ codes "int_to_string"
    ∷ codes "bool_to_string"
    ∷ codes "string_length"
    ∷ codes "str_concat"
    ∷ codes "read_file"
    ∷ codes "write_file"
    ∷ codes "exit"
    ∷ codes "chr"
    ∷ codes "ord"
    ∷ codes "string_get"
    ∷ codes "substring"
    ∷ codes "string_to_int"
    ∷ codes "error"
    ∷ codes "show"
    ∷ codes "argv"
    ∷ codes "system"
    ∷ []

abbrev pub x0 : ℕ
x0 = 0

abbrev pub x1 : ℕ
x1 = 1

abbrev pub r10 : ℕ
r10 = 10

abbrev pub r11 : ℕ
r11 = 11

-- The last entry of `scope` is the innermost.
pub record FnState : Type 0 where
  pub nslots : ℕ
  pub scope : List (Text × ℕ)

abbrev pub fresh : FnState
fresh = record { nslots = 0; scope = [] }

pub record PendingFn : Type 0 where
  pub labels : List ℕ
  pub syms : List Text
  pub captured_names : List Text
  pub params : List Pattern
  pub body : Expr

-- `frame_patches` and `pending` have their last element in front.
pub record Codegen : Type 0 where
  pub asm : CodeBuf
  pub ctors : Names (ℕ × ℕ)
  pub ctor_names : List Text
  pub globals : Names ℕ
  pub n_globals : ℕ
  pub data_bytes : List ℕ
  pub data_syms : List (Text × ℕ)
  pub data_relocs : List Reloc
  pub label_syms : List (ℕ × Text × Bool)
  pub pending : List PendingFn
  pub frame_patches : List ℕ
  pub externs : List Text
  pub str_consts : Names Text
  pub lam_counter : ℕ
  pub frame : FnState

pub data GenPanic : Type 0 where
  encoder : Encoder.Panic → GenPanic
  unbound_variable unknown_ctor unknown_global : Text → GenPanic
  nullary_with_args arity_mismatch frame_too_large no_prologue : GenPanic
  index_out_of_range unwrap_none counter_overflow unknown_label bad_label_key not_arithmetic
        missing_arity :
      GenPanic

-- `timeout` is the end of the fuel.
pub data Gen {ℓ} (A : Type ℓ) : Type ℓ where
  ok : A → Gen A
  panic : GenPanic → Gen A
  timeout : Gen A

abbrev pub Method {ℓ} : Type ℓ → Type ℓ
Method A = Codegen → Gen (A × Codegen)

unfoldable pub continue {ℓ κ} :
    {A : Type ℓ} {B : Type κ} → Gen (A × Codegen) → (A → Method B) → Gen (B × Codegen)
continue (ok (a, g)) f = f a g
continue (panic p) f = panic p
continue timeout f = timeout

infixl 5 ◌>>=◌ ◌>>◌
unfoldable pub ◌>>=◌ {ℓ κ} : {A : Type ℓ} {B : Type κ} → Method A → (A → Method B) → Method B
unfolding continue
◌>>=◌ m f g = continue (m g) f

abbrev pub ◌>>◌ {ℓ κ} : {A : Type ℓ} {B : Type κ} → Method A → Method B → Method B
m >> n = m >>= λ _. n

unfoldable pub return {ℓ} : {A : Type ℓ} → A → Method A
return a g = ok (a, g)

unfoldable pub fail {ℓ} : {A : Type ℓ} → GenPanic → Method A
fail p g = panic p

-- What a field or a function of the state is.
unfoldable pub read {ℓ} : {A : Type ℓ} → (Codegen → A) → Method A
read f g = ok (f g, g)

-- A value that the source asserts or unwraps.
unfoldable pub expect {ℓ} : {A : Type ℓ} → GenPanic → Option A → Method A
unfolding return fail
expect p none = fail p
expect p (some a) = return a

unfoldable pub assert : GenPanic → Bool → Method (Unit {0})
unfolding return fail
assert p true = return tt
assert p false = fail p

unfoldable pub pass_on : Codegen → Asm CodeBuf → Gen (Unit {0} × Codegen)
pass_on g (Encoder.ok c) = ok (tt, record g { asm = c })
pass_on g (Encoder.panic p) = panic (encoder p)

-- Calls of methods of `self.asm`, one after the other.
unfoldable pub emit : List Op → Method (Unit {0})
unfolding pass_on
emit ops g = pass_on g (assemble ops g.asm)

-- `n += 1` on a `u32`
unfoldable pub next_u32 : ℕ → Method ℕ
unfolding return fail
next_u32 n = if ltb (n + 1) (2 ^ 32) then return (n + 1) else fail counter_overflow

unfoldable pub new_label : Method ℕ
unfolding Encoder.new_label
new_label g = let (l, c) = Encoder.new_label g.asm in ok (l, record g { asm = c })

unfoldable pub new_labels : ℕ → Method (List ℕ)
unfolding new_label return
new_labels zero = return []
new_labels (suc n) = do l ← new_label; ls ← new_labels n; return (l ∷ ls)

unfoldable pub set_label_sym : ℕ → Text → Bool → Method (Unit {0})
set_label_sym l sym exported g =
    ok (tt, record g { label_syms = (l, sym, exported) ∷ g.label_syms })

unfoldable pub new_fn_label : Text → Bool → Method ℕ
unfolding new_label set_label_sym return
new_fn_label sym exported = do l ← new_label; set_label_sym l sym exported; return l

unfoldable pub is_member : Text → List Text → Bool
is_member name [] = false
is_member name (e ∷ es) = text_eq e name || is_member name es

unfoldable pub use_extern : Text → Method (Unit {0})
unfolding is_member
use_extern name g =
    ok (tt, (if is_member name g.externs then g else record g { externs = g.externs ++ name ∷ [] }))

-- `self.ctors[name]`
unfoldable pub ctor : Text → Method (ℕ × ℕ)
unfolding expect get
ctor name g = expect (unknown_ctor name) (get g.ctors name) g

-- `self.globals[name]`
unfoldable pub global : Text → Method ℕ
unfolding expect get
global name g = expect (unknown_global name) (get g.globals name) g

unfoldable pub set_global : Text → ℕ → ℕ → Method (Unit {0})
set_global name idx next g =
    ok (tt, record g { globals = insert g.globals name idx; n_globals = next })

unfoldable pub alloc_global : Text → Method ℕ
unfolding read next_u32 set_global return
alloc_global name = do
  idx ← read (λ g. g.n_globals)
  next ← next_u32 idx
  set_global name idx next
  return idx

unfoldable pub call_rt : Text → Method (Unit {0})
unfolding use_extern emit
call_rt unmangled = do
  use_extern (b'_' ∷ unmangled)
  emit (Op.ldr_lit_extern Encoder.r9 (b'_' ∷ unmangled) ∷ Op.blr Encoder.r9 ∷ [])

unfoldable pub emit_gget : ℕ → Method (Unit {0})
unfolding emit call_rt
emit_gget slot = do emit (Op.load_const_u64 x0 slot ∷ []); call_rt (codes "dc_gget")

unfoldable pub fill_global : ℕ → Method (Unit {0})
unfolding emit call_rt
fill_global slot = do
  emit (Op.mov x1 x0 ∷ Op.load_const_u64 x0 slot ∷ [])
  call_rt (codes "dc_gset")

unfoldable pub load_unit : ℕ → Method (Unit {0})
unfolding use_extern emit
load_unit reg = do
  use_extern (codes "_dc_unit_block")
  emit (Op.ldr_lit_extern reg (codes "_dc_unit_block") ∷ [])
