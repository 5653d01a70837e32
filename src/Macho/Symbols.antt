-- ===== src/Macho/Symbols.antt =====
-- The symbol table and the relocations of gen2-dcc-rs/src/macho.rs, the first half of `finish`.
use dacelo.Base.{
  ℕ, ◌+◌, ◌%◌, ◌^◌, Bool, true, false, not, List, [], ◌∷◌, ◌++◌, Option, none, some, if◌then◌else◌,
  length,
}
use dacelo.Base.Bits.{◌or◌, shl32}
use dacelo.Base.Text.{Text, text_eq}
use dacelo.Base.Utf8.{bytes}
use dacelo.Encoder.{le32}
use dacelo.Macho.{
  RelocKind, unsigned, got_load_page21, got_load_page_off12, Reloc, Section, Symbol, ObjectBuilder,
  Built, ok, unknown_symbol, ◌>>=◌, align_up,
}

pub record NList : Type 0 where
  pub stroff : ℕ
  pub ty : ℕ
  pub sect : ℕ
  pub desc : ℕ
  pub value : ℕ

-- The variables of `finish` that the loops over the symbols fill. The newest entry of `sym_index`
-- stands first, as an `insert` replaces an older one.
pub record SymTab : Type 0 where
  pub strtab : List ℕ
  pub sym_index : List (Text × ℕ)
  pub nlists : List NList

unfoldable pub empty_symtab : SymTab
empty_symtab = record { strtab = 0 ∷ []; sym_index = []; nlists = [] }

-- `sym_index.insert`, `push_str` and `nlists.push`, with the fields of the entry.
unfoldable pub push_symbol : Text → ℕ → ℕ → ℕ → SymTab → SymTab
push_symbol name ty sect value t = record {
  strtab = t.strtab ++ (bytes name ++ 0 ∷ []);
  sym_index = (name, length t.nlists) ∷ t.sym_index;
  nlists =
      t.nlists
      ++ record {
        stroff = length t.strtab % 2 ^ 32;
        ty = ty;
        sect = sect;
        desc = 0;
        value = value % 2 ^ 64;
      }
        ∷ [];
}

abbrev defined_type : Bool → ℕ
defined_type true = 0x0F
defined_type false = 0x0E

-- Type, section number and value of a symbol of a section, or of an undefined one.
unfoldable pub symbol_fields : ℕ → Symbol → ℕ × ℕ × ℕ
symbol_fields data_addr s = elim s.section [
  | none ↦ (0x01, 0, 0)
  | some Section.text ↦ (defined_type s.global, 1, s.value)
  | some Section.data_section ↦ (defined_type s.global, 2, data_addr + s.value)
]

-- One step of the loops over the symbols.
unfoldable pub add_symbol : ℕ → Symbol → SymTab → SymTab
add_symbol data_addr s =
    let (ty, sect, value) = symbol_fields data_addr s in push_symbol s.name ty sect value

unfoldable pub add_symbols : ℕ → List Symbol → SymTab → SymTab
add_symbols data_addr [] t = t
add_symbols data_addr (s ∷ ss) t = add_symbols data_addr ss (add_symbol data_addr s t)

unfoldable pub is_local : Symbol → Bool
is_local s = elim s.section [ none ↦ false | some _ ↦ not s.global ]

unfoldable pub is_global : Symbol → Bool
is_global s = elim s.section [ none ↦ false | some _ ↦ s.global ]

unfoldable pub is_undef : Symbol → Bool
is_undef s = elim s.section [ none ↦ true | some _ ↦ false ]

unfoldable pub filter : (Symbol → Bool) → List Symbol → List Symbol
filter p [] = []
filter p (s ∷ ss) = if p s then s ∷ filter p ss else filter p ss

-- Locals first, then globals, then the undefined ones.
unfoldable pub symbols : ObjectBuilder → SymTab
symbols b =
    add_symbols (align_up (length b.text) 8)
      (filter is_local b.syms ++ filter is_global b.syms ++ filter is_undef b.syms) empty_symtab

-- `sym_index.get`
unfoldable pub index_of : Text → List (Text × ℕ) → Option ℕ
index_of name [] = none
index_of name ((n, i) ∷ is) = if text_eq n name then some i else index_of name is

-- `pcrel`, `length` and `rtype` of a kind.
unfoldable pub reloc_bits : RelocKind → ℕ × ℕ × ℕ
reloc_bits unsigned = (0, 3, 0)
reloc_bits got_load_page21 = (1, 2, 5)
reloc_bits got_load_page_off12 = (0, 2, 6)

unfoldable pub reloc_word : ℕ → RelocKind → ℕ
reloc_word symidx k =
    let (pcrel, len, rtype) = reloc_bits k in
    symidx % 2 ^ 32 or shl32 pcrel 24 or shl32 len 25 or shl32 1 27 or shl32 rtype 28

-- The bytes of a relocation against the symbol `i`, or the error.
unfoldable pub encode_reloc : Reloc → Option ℕ → Built (List ℕ)
encode_reloc r none = unknown_symbol r.sym_name
encode_reloc r (some i) = ok (le32 (r.offset % 2 ^ 32) ++ le32 (reloc_word i r.kind))

unfoldable pub encode_relocs : List (Text × ℕ) → List Reloc → Built (List ℕ)
unfolding encode_reloc
encode_relocs index [] = ok []
encode_relocs index (r ∷ rs) = do
  bytes ← encode_reloc r (index_of r.sym_name index)
  rest ← encode_relocs index rs
  ok (bytes ++ rest)
