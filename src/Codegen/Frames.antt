-- ===== src/Codegen/Frames.antt =====
-- gen2-dcc-rs/src/codegen.rs: the frames of functions, closures, variables and constructors.
use dacelo.Base.{
  ℕ, zero, suc, ◌+◌, ◌*◌, ◌/◌, Bool, true, false, List, [], ◌∷◌, ◌++◌, Option, none, some,
  if◌then◌else◌, leb, length, ◌==◌,
}
use dacelo.Base.Int.{pos}
use dacelo.Base.Text.{Text, codes, text_eq}
use dacelo.Codegen.{
  ◌>>=◌, ◌>>◌, Method, FnState, ok, return, fail, read, assert, emit, new_label, next_u32, call_rt,
  emit_gget, ctor, global, x0, r10, r11, hdr, tag_closure, no_prologue, frame_too_large,
}
use dacelo.Codegen.Data.{intern_nullary_ctor}
use dacelo.Encoder.{r9, rsp, hs}
use dacelo.Encoder.Program.{Op}
use dacelo.Infer.{get}

unfoldable pub set_frame : FnState → Method (Unit {0})
set_frame f g = ok (tt, record g { frame = f })

unfoldable pub push_patch : ℕ → Method (Unit {0})
push_patch at g = ok (tt, record g { frame_patches = at ∷ g.frame_patches })

unfoldable pub pop_from : List ℕ → Method ℕ
unfolding fail
pop_from [] g = fail no_prologue g
pop_from (at ∷ ats) g = ok (at, record g { frame_patches = ats })

unfoldable pub pop_patch : Method ℕ
unfolding pop_from
pop_patch g = pop_from g.frame_patches g

-- Environment word `i` of the closure in x0 goes to slot `i`.
unfoldable pub load_env_word : ℕ → List Op
load_env_word i = Op.ldr_off r9 x0 (pos (24 + 8 * i)) ∷ Op.str_slot r9 i ∷ []

-- The loads of `n` words from number `i` on.
unfoldable pub load_env : ℕ → ℕ → List Op
unfolding load_env_word
load_env i zero = []
load_env i (suc n) = load_env_word i ++ load_env (suc i) n

-- The loop that clears the frame, between the labels.
unfoldable pub clear_frame : ℕ → ℕ → List Op
clear_frame zloop zdone =
    Op.add_imm r10 rsp 0
    ∷ Op.add_reg r11 r10 r9 0
    ∷ Op.bind_label zloop
    ∷ Op.cmp_reg r10 r11
    ∷ Op.b_cond hs zdone
    ∷ Op.str_xzr_post8 r10
    ∷ Op.b zloop
    ∷ Op.bind_label zdone
    ∷ []

-- The prologue up to the label behind the loop.
unfoldable pub open_frame : Method (Unit {0})
unfolding emit read push_patch new_label clear_frame
open_frame = do
  emit (Op.stp_fp_lr ∷ Op.mov_sp_fp ∷ [])
  patch_pos ← read (λ g. length g.asm.code)
  emit (Op.load_const_u64 r9 0 ∷ Op.sub_sp_reg ∷ [])
  push_patch patch_pos
  zloop ← new_label
  zdone ← new_label
  emit (clear_frame zloop zdone)

unfoldable pub fn_prologue : ℕ → Method (Unit {0})
unfolding emit open_frame load_env
fn_prologue captured = do open_frame; emit (load_env 0 captured)

-- `& !15` drops the lowest four bits.
unfoldable pub frame_bytes : ℕ → ℕ
frame_bytes max_slots = ((max_slots + 8) * 8 + 15) / 16 * 16

unfoldable pub fn_epilogue : ℕ → Method (Unit {0})
unfolding assert pop_patch emit frame_bytes
fn_epilogue max_slots = do
  let bytes = frame_bytes max_slots
  assert frame_too_large (leb bytes 0xFFF0)
  at ← pop_patch
  emit (
      Op.patch_movz_imm16 at bytes
      ∷ Op.load_const_u64 r9 bytes
      ∷ Op.add_sp_reg
      ∷ Op.ldp_fp_lr_ret
      ∷ [])

unfoldable pub set_nslots : ℕ → Method (Unit {0})
set_nslots n g = ok (tt, record g { frame = record { nslots = n; scope = g.frame.scope } })

unfoldable pub set_scope : List (Text × ℕ) → Method (Unit {0})
set_scope scope g = ok (tt, record g { frame = record { nslots = g.frame.nslots; scope = scope } })

unfoldable pub spill_slot : Method ℕ
unfolding read next_u32 set_nslots return
spill_slot = do s ← read (λ g. g.frame.nslots); next ← next_u32 s; set_nslots next; return s

unfoldable pub push_scope : Text → ℕ → Method (Unit {0})
unfolding set_scope
push_scope name slot g = set_scope (g.frame.scope ++ (name, slot) ∷ []) g

-- The last entry with the name, `found` if there is none.
unfoldable pub find_last : Option ℕ → Text → List (Text × ℕ) → Option ℕ
find_last found name [] = found
find_last found name ((n, s) ∷ entries) =
    find_last (if text_eq n name then some s else found) name entries

unfoldable pub scope_find : FnState → Text → Option ℕ
unfolding find_last
scope_find f name = find_last none name f.scope

-- Captured entry `j`, and those behind it, into the closure in x0.
unfoldable pub store_captured : ℕ → List (Text × ℕ) → List Op
store_captured j [] = []
store_captured j ((nm, src) ∷ captured) =
    Op.ldr_slot r9 src ∷ Op.str_off r9 x0 (pos (24 + 8 * j)) ∷ store_captured (suc j) captured

-- The header, the code and the size of the environment of a closure of `n` captured words.
unfoldable pub closure_head : ℕ → ℕ → List Op
closure_head label n =
    Op.load_const_u64 r9 (hdr tag_closure (3 + n))
    ∷ Op.str_off r9 x0 (pos 0)
    ∷ Op.ldr_lit_label r9 label
    ∷ Op.str_off r9 x0 (pos 8)
    ∷ Op.load_const_u64 r9 n
    ∷ Op.str_off r9 x0 (pos 16)
    ∷ []

unfoldable pub alloc_words : ℕ → Method (Unit {0})
unfolding emit call_rt
alloc_words words = do emit (Op.load_const_u64 x0 (words * 8) ∷ []); call_rt (codes "dacelo_alloc")

unfoldable pub make_closure : ℕ → List (Text × ℕ) → Method (Unit {0})
unfolding alloc_words emit closure_head store_captured
make_closure label captured = do
  alloc_words (3 + length captured)
  emit (closure_head label (length captured))
  emit (store_captured 0 captured)

unfoldable pub load_found : Option ℕ → Option ℕ → Method Bool
unfolding emit emit_gget return
load_found (some s) slot = do emit (Op.ldr_slot x0 s ∷ []); return true
load_found none (some slot) = do emit_gget slot; return true
load_found none none = return false

unfoldable pub load_var : Text → Method Bool
unfolding load_found scope_find get
load_var name g = load_found (scope_find g.frame name) (get g.globals name) g

unfoldable pub load_nullary : Text → Method (Unit {0})
unfolding intern_nullary_ctor emit
load_nullary name = do sym ← intern_nullary_ctor name; emit (Op.ldr_lit_extern x0 sym ∷ [])

unfoldable pub load_global : Text → Method (Unit {0})
unfolding global emit_gget
load_global name = do slot ← global name; emit_gget slot

unfoldable pub load_ctor_value : Text → Method (Unit {0})
unfolding ctor load_nullary load_global
load_ctor_value name = do
  (id, arity) ← ctor name
  (if arity == 0 then load_nullary name else load_global name)

unfoldable pub emit_apply : Method (Unit {0})
unfolding emit
emit_apply = emit (Op.ldr_off r9 x0 (pos 8) ∷ Op.blr r9 ∷ [])
