-- ===== src/Codegen/Object.antt =====
-- gen2-dcc-rs/src/codegen.rs: `Codegen::new` and `compile_program`, from the program to the object;
-- gen2-dcc-rs/src/main.rs: the table of constructors that the generator is given.
use dacelo.Base.{
  ℕ, zero, suc, ◌+◌, ◌^◌, Bool, ◌&&◌, List, [], ◌∷◌, ◌++◌, Option, none, some, if◌then◌else◌,
  length, leb, replicate, get_elem?, ◌==◌,
}
use dacelo.Base.Decimal.{parse_number}
use dacelo.Base.Text.{Text, codes, text_eq}
use dacelo.Codegen.{
  ◌>>=◌, ◌>>◌, Method, Codegen, Gen, ok, panic, encoder, return, fail, read, expect, alloc_global,
  use_extern, builtins, fresh, unknown_ctor, missing_arity, unknown_label, bad_label_key,
  index_out_of_range,
}
use dacelo.Codegen.Data.{emit_ctor_names_table, add_data_sym}
use dacelo.Codegen.Functions.{compile_items, drain_pending, emit_init, emit_user_main}
use dacelo.Encoder
use dacelo.Encoder.{Asm}
use dacelo.Encoder.Finish.{FinishedCode, finish}
use dacelo.Infer.{Names, get, insert}
use dacelo.Macho
use dacelo.Macho.{
  ObjectBuilder, Reloc, RelocKind, define, add_extern, text, data_section, unsigned,
  got_load_page21, got_load_page_off12,
}
use dacelo.Syntax.{Program}

-- `ctors`: the names in order, numbered from `i` on, with the arities, if none is missing.
unfoldable pub number_ctors : ℕ → List Text → Names ℕ → Names (ℕ × ℕ) → Option (Names (ℕ × ℕ))
unfolding get insert
number_ctors i [] arities ctors = some ctors
number_ctors i (name ∷ names) arities ctors = elim (get arities name) [
  | none ↦ none
  | some arity ↦ number_ctors (suc i) names arities (insert ctors name (i, arity))
]

unfoldable pub alloc_globals : List Text → Method (Unit {0})
unfolding return alloc_global
alloc_globals [] = return tt
alloc_globals (name ∷ names) = do idx ← alloc_global name; alloc_globals names

-- A global for every constructor that has fields.
unfoldable pub alloc_ctor : Text → Option (ℕ × ℕ) → Method (Unit {0})
unfolding return fail alloc_globals
alloc_ctor name none = fail (unknown_ctor name)
alloc_ctor name (some (id, zero)) = return tt
alloc_ctor name (some (id, suc arity)) = alloc_globals (name ∷ [])

unfoldable pub alloc_ctors : List Text → Method (Unit {0})
unfolding return read alloc_ctor get
alloc_ctors [] = return tt
alloc_ctors (name ∷ names) = do
  entry ← read (λ g. get g.ctors name)
  alloc_ctor name entry
  alloc_ctors names

unfoldable pub empty : List Text → Names (ℕ × ℕ) → Codegen
empty names ctors = record {
  asm = Encoder.new;
  ctors = ctors;
  ctor_names = names;
  globals = [];
  n_globals = 0;
  data_bytes = [];
  data_syms = [];
  data_relocs = [];
  label_syms = [];
  pending = [];
  frame_patches = [];
  externs = [];
  str_consts = [];
  lam_counter = 0;
  frame = fresh;
}

unfoldable pub allocated : List Text → Option (Names (ℕ × ℕ)) → Gen (Unit {0} × Codegen)
unfolding alloc_globals alloc_ctors empty
allocated names none = panic missing_arity
allocated names (some ctors) = (alloc_globals builtins >> alloc_ctors names) (empty names ctors)

-- `Codegen::new`; `ctor_arities[name]` panics on a missing name.
unfoldable pub new : List Text → Names ℕ → Gen (Unit {0} × Codegen)
unfolding allocated number_ctors
new names arities = allocated names (number_ctors 0 names arities [])

unfoldable pub label_sym : ℕ → List (ℕ × Text × Bool) → Option (Text × Bool)
label_sym l [] = none
label_sym l ((k, sym, exported) ∷ syms) = if k == l then some (sym, exported) else label_sym l syms

-- `label_names`, which panics on a label with no symbol. Here such a label has no text, and the
-- panic is the one of `add_got_entry` for the same label.
unfoldable pub label_name : List (ℕ × Text × Bool) → ℕ → Text
unfolding label_sym
label_name syms l = elim (label_sym l syms) [ none ↦ [] | some (sym, exported) ↦ sym ]

unfoldable pub define_label : Option (Text × Bool) → ℕ → ObjectBuilder → ObjectBuilder
unfolding define
define_label none off obj = obj
define_label (some (sym, exported)) off obj = define sym text off exported obj

unfoldable pub define_labels : List (ℕ × Text × Bool) → List (ℕ × ℕ) → ObjectBuilder → ObjectBuilder
unfolding label_sym define_label
define_labels syms [] obj = obj
define_labels syms ((l, off) ∷ offs) obj =
    define_labels syms offs (define_label (label_sym l syms) off obj)

unfoldable pub add_externs : List Text → ObjectBuilder → ObjectBuilder
unfolding add_extern
add_externs [] obj = obj
add_externs (e ∷ es) obj = add_externs es (add_extern e obj)

-- `strip_prefix("L:")`
unfoldable pub strip_label : Text → Option Text
strip_label (c ∷ d ∷ rest) = if c == b'L' && d == b':' then some rest else none
strip_label _ = none

-- A quad of zeros and its relocation.
unfoldable pub add_got_quad : Text → Method (Unit {0})
add_got_quad sym g = ok (
  tt,
  record g {
    data_bytes = g.data_bytes ++ replicate 8 0;
    data_relocs =
        g.data_relocs
        ++ record { offset = length g.data_bytes; sym_name = sym; kind = unsigned } ∷ [];
  },
)

-- The symbol of the label that a key ends in.
unfoldable pub got_label : Text → Method Text
unfolding read expect label_sym return
got_label rest = do
  l ← expect bad_label_key (parse_number (2 ^ 32) rest)
  entry ← read (λ g. label_sym l g.label_syms)
  (sym, exported) ← expect unknown_label entry
  return sym

unfoldable pub add_got_entry : Option Text → Text → Method (Unit {0})
unfolding got_label add_got_quad use_extern
add_got_entry (some rest) target_name = got_label rest >>= add_got_quad
add_got_entry none target_name = do use_extern target_name; add_got_quad target_name

unfoldable pub add_got_entries : List (Text × Text) → Method (Unit {0})
unfolding return strip_label add_got_entry
add_got_entries [] = return tt
add_got_entries ((key, target_name) ∷ slots) = do
  add_got_entry (strip_label key) target_name
  add_got_entries slots

unfoldable pub use_target : Option Text → Text → Method (Unit {0})
unfolding return use_extern
use_target (some rest) target_name = return tt
use_target none target_name = use_extern target_name

unfoldable pub use_targets : List (Text × Text) → Method (Unit {0})
unfolding return strip_label use_target
use_targets [] = return tt
use_targets ((key, target_name) ∷ slots) = do
  use_target (strip_label key) target_name
  use_targets slots

-- `sort_by_key`, which is stable, by the offset.
unfoldable pub insert_ref : ℕ × ℕ × ℕ → List (ℕ × ℕ × ℕ) → List (ℕ × ℕ × ℕ)
insert_ref r [] = r ∷ []
insert_ref r (q ∷ refs) =
    let later = insert_ref r refs in if leb r.0 q.0 then r ∷ q ∷ refs else q ∷ later

unfoldable pub sort_refs : List (ℕ × ℕ × ℕ) → List (ℕ × ℕ × ℕ)
unfolding insert_ref
sort_refs [] = []
sort_refs (r ∷ refs) = insert_ref r (sort_refs refs)

-- The two relocations of every load from a slot.
unfoldable pub text_relocs : List (Text × Text) → List (ℕ × ℕ × ℕ) → Method (List Reloc)
unfolding return expect
text_relocs slots [] = return []
text_relocs slots ((at, reg, slot) ∷ refs) = do
  (key, target) ← expect index_out_of_range (get_elem? slots slot)
  relocs ← text_relocs slots refs
  return (
      record { offset = at; sym_name = target; kind = got_load_page21 }
      ∷ record { offset = at + 4; sym_name = target; kind = got_load_page_off12 }
      ∷ relocs)

unfoldable pub add_got_sym : ℕ → List (Text × Text) → Codegen → Codegen
unfolding add_data_sym
add_got_sym got_off [] g = g
add_got_sym got_off (slot ∷ slots) g = add_data_sym (codes "_dc_got") got_off g

unfoldable pub define_data : List (Text × ℕ) → ObjectBuilder → ObjectBuilder
unfolding define
define_data [] obj = obj
define_data ((sym, off) ∷ syms) obj =
    define_data syms (define sym data_section off (text_eq sym (codes "_dc_ctor_names")) obj)

-- The object of a generator whose data is complete, on the object with the symbols of the code.
unfoldable pub complete : List Reloc → ObjectBuilder → Codegen → ObjectBuilder
unfolding define_data
complete relocs obj g =
    let defined = define_data g.data_syms obj in
    record defined {
      data_bytes = g.data_bytes;
      relocs_text = defined.relocs_text ++ relocs;
      relocs_data = g.data_relocs;
    }

unfoldable pub finished_with : Codegen → Asm FinishedCode → Gen (FinishedCode × Codegen)
finished_with g (Encoder.ok code) = ok (code, g)
finished_with g (Encoder.panic p) = panic (encoder p)

unfoldable pub finished : Method FinishedCode
unfolding label_name finished_with
finished g = finished_with g (finish (label_name g.label_syms) g.asm)

unfoldable pub compile_program : Program → Method ObjectBuilder
unfolding read return compile_items drain_pending emit_init emit_user_main emit_ctor_names_table
    finished define_labels add_externs add_got_entries use_targets text_relocs sort_refs add_got_sym
    complete Macho.new get
compile_program prog = do
  thunks ← compile_items prog.items
  drain_pending
  main_g ← read (λ g. get g.globals (codes "main"))
  emit_init thunks
  emit_user_main main_g
  emit_ctor_names_table
  code ← finished
  let coded : ObjectBuilder = record Macho.new { text = code.code }
  obj ← read (λ g. add_externs g.externs (define_labels g.label_syms code.label_offsets coded))
  got_off ← read (λ g. length g.data_bytes)
  add_got_entries code.got_slots
  use_targets code.got_slots
  relocs ← text_relocs code.got_slots (sort_refs code.adrp_refs)
  read (λ g. complete relocs obj (add_got_sym got_off code.got_slots g))
