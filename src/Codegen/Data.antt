-- ===== src/Codegen/Data.antt =====
-- gen2-dcc-rs/src/codegen.rs: the constants of the data section: strings, constructors with no
-- fields and the table of the constructors' names.
use dacelo.Base.{
  ℕ, suc, ◌+◌, ◌-◌, ◌*◌, ◌/◌, ◌%◌, Bool, false, ◌||◌, List, [], ◌∷◌, ◌++◌, Option, none, some,
  if◌then◌else◌, length, replicate,
}
use dacelo.Base.Decimal.{to_decimal}
use dacelo.Base.Text.{Text, codes, text_eq}
use dacelo.Base.Utf8.{bytes}
use dacelo.Codegen.{◌>>=◌, ◌>>◌, Method, Codegen, ok, return, read, ctor, hdr, tag_string, tag_adt}
use dacelo.Infer.{get, insert}
use dacelo.Macho.{le64, unsigned}

-- `while data.len() % 8 != 0 { data.push(0) }`
unfoldable pub pad8 : List ℕ → List ℕ
pad8 buf = buf ++ replicate ((8 - length buf % 8) % 8) 0

unfoldable pub string_object : List ℕ → List ℕ
string_object utf8 = le64 (hdr tag_string (2 + (length utf8 + 7) / 8)) ++ le64 (length utf8) ++ utf8

unfoldable pub add_str : Text → Text → Method (Unit {0})
unfolding pad8 string_object
add_str s sym g = ok (
  tt,
  record g {
    str_consts = insert g.str_consts s sym;
    data_bytes = pad8 (g.data_bytes ++ string_object (bytes s));
    data_syms = g.data_syms ++ (sym, length g.data_bytes) ∷ [];
  },
)

unfoldable pub interned : Text → Option Text → Method Text
unfolding return read add_str
interned s (some sym) = return sym
interned s none = do
  n ← read (λ g. length g.str_consts)
  let sym = codes "_str" ++ to_decimal n
  add_str s sym
  return sym

unfoldable pub intern_str : Text → Method Text
unfolding interned get
intern_str s g = interned s (get g.str_consts s) g

unfoldable pub has_sym : Text → List (Text × ℕ) → Bool
has_sym probe [] = false
has_sym probe ((n, off) ∷ syms) = text_eq n probe || has_sym probe syms

unfoldable pub add_nullary_ctor : Text → ℕ → Method (Unit {0})
add_nullary_ctor probe id g = ok (
  tt,
  record g {
    data_bytes = g.data_bytes ++ le64 (hdr tag_adt 2) ++ le64 id;
    data_syms = g.data_syms ++ (probe, length g.data_bytes) ∷ [];
  },
)

unfoldable pub new_nullary_ctor : Text → Text → Method Text
unfolding return ctor add_nullary_ctor
new_nullary_ctor name probe = do (id, arity) ← ctor name; add_nullary_ctor probe id; return probe

unfoldable pub intern_nullary_ctor : Text → Method Text
unfolding return read has_sym new_nullary_ctor
intern_nullary_ctor name = do
  let probe = codes "_ctorinst_" ++ name
  known ← read (λ g. has_sym probe g.data_syms)
  (if known then return probe else new_nullary_ctor name probe)

-- The name number `i`, whose pointer is in the table at `off`.
unfoldable pub add_ctor_name : ℕ → ℕ → Text → Codegen → Codegen
unfolding pad8
add_ctor_name off i name g =
    let nm_sym = codes "_nm" ++ to_decimal i in
    record g {
      data_bytes = pad8 (g.data_bytes ++ bytes name ++ 0 ∷ []);
      data_syms = g.data_syms ++ (nm_sym, length g.data_bytes) ∷ [];
      data_relocs =
          g.data_relocs ++ record { offset = off + 8 * i; sym_name = nm_sym; kind = unsigned } ∷ [];
    }

unfoldable pub add_ctor_names : ℕ → ℕ → List Text → Codegen → Codegen
unfolding add_ctor_name
add_ctor_names off i [] g = g
add_ctor_names off i (name ∷ names) g =
    add_ctor_names off (suc i) names (add_ctor_name off i name g)

unfoldable pub add_data_sym : Text → ℕ → Codegen → Codegen
add_data_sym sym off g = record g { data_syms = g.data_syms ++ (sym, off) ∷ [] }

unfoldable pub emit_ctor_names_table : Method (Unit {0})
unfolding add_ctor_names add_data_sym
emit_ctor_names_table g =
    let off = length g.data_bytes in
    let quads = replicate (8 * length g.ctor_names) 0 in
    let placed : Codegen = record g { data_bytes = g.data_bytes ++ quads } in
    ok (tt, add_data_sym (codes "_dc_ctor_names") off (add_ctor_names off 0 g.ctor_names placed))
