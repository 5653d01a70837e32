-- ===== src/Codegen/Framed/Symbols.antt =====
-- The symbols of the object that `compile_program` of gen2-dcc-rs/src/codegen.rs gives.
use dacelo.Base.{
  ℕ, zero, suc, ◌≡◌, refl, ap, ◌∙◌, Bool, List, [], ◌∷◌, ◌++◌, Option, none, some, get_elem?,
}
use mathlib.Core.List.{append_assoc}
use mathlib.Core.Option.{some-injective}
use dacelo.Base.Text.{Text, codes, text_eq}
use dacelo.Codegen.{Codegen}
use dacelo.Codegen.Object.{
  label_sym, define_label, define_labels, add_externs, define_data, complete,
}
use dacelo.Macho
use dacelo.Macho.{ObjectBuilder, Reloc, Symbol}

-- `s` is among the symbols.
abbrev pub Has : Symbol → ObjectBuilder → Type 0
Has s obj = (before : List Symbol) × (behind : List Symbol) × (obj.syms ≡ before ++ (s ∷ behind))

Has-more :
    {s : Symbol} {syms : List Symbol} (more : List Symbol)
    → (before : List Symbol) × (behind : List Symbol) × (syms ≡ before ++ (s ∷ behind))
    → (before : List Symbol) × (behind : List Symbol) × (syms ++ more ≡ before ++ (s ∷ behind))
Has-more {s} more (before, behind, e) = (
  before,
  behind ++ more,
  ap (λ (t : List Symbol). t ++ more) e ∙ append_assoc before (s ∷ behind) more,
)

Has-define_label :
    {s : Symbol} (o : Option (Text × Bool)) (off : ℕ) (obj : ObjectBuilder)
    → Has s obj
    → Has s (define_label o off obj)
unfolding define_label Macho.define
Has-define_label none off obj h = h
Has-define_label (some (name, exported)) off obj h = Has-more _ h

Has-define_labels :
    {s : Symbol} (syms : List (ℕ × Text × Bool)) (offs : List (ℕ × ℕ)) (obj : ObjectBuilder)
    → Has s obj
    → Has s (define_labels syms offs obj)
unfolding define_labels
Has-define_labels syms [] obj h = h
Has-define_labels syms ((l, off) ∷ offs) obj h =
    Has-define_labels syms offs _ (Has-define_label (label_sym l syms) off obj h)

pub Has-add_externs :
    {s : Symbol} (es : List Text) (obj : ObjectBuilder) → Has s obj → Has s (add_externs es obj)
unfolding add_externs Macho.add_extern
Has-add_externs [] obj h = h
Has-add_externs (e ∷ es) obj h = Has-add_externs es (Macho.add_extern e obj) (Has-more _ h)

Has-define_data :
    {s : Symbol} (syms : List (Text × ℕ)) (obj : ObjectBuilder)
    → Has s obj
    → Has s (define_data syms obj)
unfolding define_data Macho.define
Has-define_data [] obj h = h
Has-define_data ((name, off) ∷ syms) obj h =
    Has-define_data syms
      (Macho.define name Macho.data_section off (text_eq name (codes "_dc_ctor_names")) obj)
      (Has-more _ h)

pub Has-complete :
    {s : Symbol} (relocs : List Reloc) (obj : ObjectBuilder) (h : Codegen)
    → Has s obj
    → Has s (complete relocs obj h)
unfolding complete
Has-complete relocs obj h has = Has-define_data h.data_syms obj has

-- The symbol of a label in the code.
abbrev pub code_symbol : Text → ℕ → Bool → Symbol
code_symbol name off exported = record {
  name = name;
  section = some Macho.text;
  value = off;
  global = exported;
}

defined-Has :
    (name : Text) (exported : Bool) (off : ℕ) (o : Option (Text × Bool)) (obj : ObjectBuilder)
    → o ≡ some (name, exported)
    → Has (code_symbol name off exported) (define_label o off obj)
unfolding define_label Macho.define
defined-Has name exported off o obj e = rw e (obj.syms, [], refl)

-- Every label that is bound and has a symbol is defined at its offset.
pub define_labels-Has :
    (syms : List (ℕ × Text × Bool)) (offs : List (ℕ × ℕ)) (obj : ObjectBuilder) (i l off : ℕ)
    (name : Text) (exported : Bool)
    → get_elem? offs i ≡ some (l, off)
    → label_sym l syms ≡ some (name, exported)
    → Has (code_symbol name off exported) (define_labels syms offs obj)
unfolding define_labels
define_labels-Has syms [] obj i l off name exported at is = absurd cc
define_labels-Has syms ((k, o) ∷ offs) obj zero l off name exported at is =
    let same : (k, o) ≡ (l, off) = some-injective _ _ at in
    let label : k ≡ l = ap (λ (p : ℕ × ℕ). p.0) same in
    let offset : o ≡ off = ap (λ (p : ℕ × ℕ). p.1) same in
    Has-define_labels syms offs _
      (rw (label, offset) (defined-Has name exported off (label_sym l syms) obj is))
define_labels-Has syms ((k, o) ∷ offs) obj (suc i) l off name exported at is =
    define_labels-Has syms offs _ i l off name exported at is
