-- ===== src/Macho/Fields.antt =====
-- What the headers of the object file of gen2-dcc-rs/src/macho.rs name: the fields of the two section
-- headers and of the symbol table command, read at the offsets of the Mach-O format. The header has
-- 32 bytes, the segment command 72, a `section_64` 80 and the build version 24.
use dacelo.Base.{ℕ, ◌+◌, ◌*◌, ◌%◌, ◌^◌, ◌≡◌, refl, List, ◌++◌, length, take, drop, replicate}
use dacelo.Base.Text.{codes}
use dacelo.Encoder.{le32}
use dacelo.Macho.{ObjectBuilder, ok, put, le64, align_up}
use dacelo.Macho.Headers.{Succeeds, gives, emit_section_header_full, emit_segment_header}
use dacelo.Macho.Places.{At}
use dacelo.Macho.Symbols.{SymTab}
use dacelo.Macho.Writer.{
  FileLayout, reloc_off, mach_header, build_version, symtab_command, write_headers,
}

-- The fields of a `section_64` at `at` that say where the content and the relocations are.
pub record SectionAt (at : ℕ) (size fileoff reloff nreloc : ℕ) (out : List ℕ) : Type 0 where
  pub size_at : At (at + 40) (le64 size) out
  pub fileoff_at : At (at + 48) (le32 (fileoff % 2 ^ 32)) out
  pub reloff_at : At (at + 56) (le32 (reloff % 2 ^ 32)) out
  pub nreloc_at : At (at + 60) (le32 (nreloc % 2 ^ 32)) out

-- The fields of a `symtab_command` at `at`.
pub record SymtabAt (at : ℕ) (symoff nsyms stroff strsize : ℕ) (out : List ℕ) : Type 0 where
  pub symoff_at : At (at + 8) (le32 (symoff % 2 ^ 32)) out
  pub nsyms_at : At (at + 12) (le32 (nsyms % 2 ^ 32)) out
  pub stroff_at : At (at + 16) (le32 (stroff % 2 ^ 32)) out
  pub strsize_at : At (at + 20) (le32 (strsize % 2 ^ 32)) out

-- The headers name the parts of the layout `l`.
pub record Names (b : ObjectBuilder) (t : SymTab) (text_rel data_rel : List ℕ) (l : FileLayout)
    (out : List ℕ) : Type 0 where
  pub text_section :
      SectionAt
        (32 + 72)
        (length b.text)
        l.text_fileoff
        (reloc_off text_rel l.rel_text_off)
        (length b.relocs_text)
        out
  pub data_section :
      SectionAt
        (32 + 72 + 80)
        (length b.data_bytes)
        l.data_fileoff
        (reloc_off data_rel l.rel_data_off)
        (length b.relocs_data)
        out
  pub symbol_table :
      SymtabAt (32 + 72 + 80 * 2 + 24) l.sym_off (length t.nlists) l.str_off (length t.strtab) out

-- The bytes of a section header whose names are `names`.
section_bytes : List ℕ → ℕ → ℕ → ℕ → ℕ → ℕ → ℕ → List ℕ
section_bytes names addr size fileoff align_log2 reloff nreloc =
    names
    ++ le64 addr
    ++ le64 size
    ++ le32 (fileoff % 2 ^ 32)
    ++ le32 align_log2
    ++ le32 (reloff % 2 ^ 32)
    ++ le32 (nreloc % 2 ^ 32)
    ++ replicate 16 0

text_names : List ℕ
text_names = codes "__text" ++ replicate 10 0 ++ codes "__TEXT" ++ replicate 10 0

data_names : List ℕ
data_names = codes "__data" ++ replicate 10 0 ++ codes "__DATA" ++ replicate 10 0

emit_text :
    (out : List ℕ) (addr size fileoff align_log2 reloff nreloc : ℕ)
    → emit_section_header_full out
        (codes "__text")
        (codes "__TEXT")
        addr
        size
        fileoff
        align_log2
        reloff
        nreloc
      ≡ ok (out ++ section_bytes text_names addr size fileoff align_log2 reloff nreloc)
unfolding emit_section_header_full put section_bytes text_names
emit_text out addr size fileoff align_log2 reloff nreloc = refl

emit_data :
    (out : List ℕ) (addr size fileoff align_log2 reloff nreloc : ℕ)
    → emit_section_header_full out
        (codes "__data")
        (codes "__DATA")
        addr
        size
        fileoff
        align_log2
        reloff
        nreloc
      ≡ ok (out ++ section_bytes data_names addr size fileoff align_log2 reloff nreloc)
unfolding emit_section_header_full put section_bytes data_names
emit_data out addr size fileoff align_log2 reloff nreloc = refl

-- Everything up to the assertion.
header_bytes : ObjectBuilder → SymTab → List ℕ → List ℕ → FileLayout → List ℕ
unfolding section_bytes text_names data_names
header_bytes b t text_rel data_rel l =
    let size = align_up (length b.text) 8 + length b.data_bytes in
    mach_header
    ++ le32 0x19
    ++ le32 232
    ++ replicate 16 0
    ++ le64 0
    ++ le64 size
    ++ le64 l.text_fileoff
    ++ le64 size
    ++ le32 7
    ++ le32 7
    ++ le32 2
    ++ le32 0
    ++ section_bytes text_names 0 (length b.text) l.text_fileoff 2
        (reloc_off text_rel l.rel_text_off) (length b.relocs_text)
    ++ section_bytes data_names (align_up (length b.text) 8) (length b.data_bytes) l.data_fileoff 3
        (reloc_off data_rel l.rel_data_off) (length b.relocs_data)
    ++ build_version
    ++ symtab_command t l

write_headers-eq :
    (b : ObjectBuilder) (t : SymTab) (text_rel data_rel : List ℕ) (l : FileLayout)
    → write_headers b t text_rel data_rel l ≡ ok (header_bytes b t text_rel data_rel l)
unfolding write_headers emit_segment_header put header_bytes mach_header build_version
    symtab_command emit_section_header_full section_bytes text_names data_names
write_headers-eq b t text_rel data_rel l = refl

header_bytes-Names :
    (b : ObjectBuilder) (t : SymTab) (text_rel data_rel : List ℕ) (l : FileLayout)
    → Names b t text_rel data_rel l (header_bytes b t text_rel data_rel l)
unfolding header_bytes mach_header build_version symtab_command section_bytes text_names data_names
header_bytes-Names b t text_rel data_rel l =
    let hs = header_bytes b t text_rel data_rel l in
    record {
      text_section = record {
        size_at = (take 144 hs, drop 152 hs, refl, refl);
        fileoff_at = (take 152 hs, drop 156 hs, refl, refl);
        reloff_at = (take 160 hs, drop 164 hs, refl, refl);
        nreloc_at = (take 164 hs, drop 168 hs, refl, refl);
      };
      data_section = record {
        size_at = (take 224 hs, drop 232 hs, refl, refl);
        fileoff_at = (take 232 hs, drop 236 hs, refl, refl);
        reloff_at = (take 240 hs, drop 244 hs, refl, refl);
        nreloc_at = (take 244 hs, drop 248 hs, refl, refl);
      };
      symbol_table = record {
        symoff_at = (take 296 hs, drop 300 hs, refl, refl);
        nsyms_at = (take 300 hs, drop 304 hs, refl, refl);
        stroff_at = (take 304 hs, drop 308 hs, refl, refl);
        strsize_at = (take 308 hs, drop 312 hs, refl, refl);
      };
    }

length-header_bytes :
    (b : ObjectBuilder) (t : SymTab) (text_rel data_rel : List ℕ) (l : FileLayout)
    → length (header_bytes b t text_rel data_rel l) ≡ 312
unfolding header_bytes mach_header build_version symtab_command section_bytes text_names data_names
length-header_bytes b t text_rel data_rel l = refl

-- The headers are written, with the length that the assertion asks for.
pub write_headers-Named :
    (b : ObjectBuilder) (t : SymTab) (text_rel data_rel : List ℕ) (l : FileLayout)
    → Succeeds
        (λ out. (length out ≡ 312) × Names b t text_rel data_rel l out)
        (write_headers b t text_rel data_rel l)
write_headers-Named b t text_rel data_rel l = rw write_headers-eq (
    gives (length-header_bytes b t text_rel data_rel l, header_bytes-Names b t text_rel data_rel l))

-- What keeps every part of `out` where it stands keeps the headers.
pub Names-kept :
    {b : ObjectBuilder} {t : SymTab} {text_rel data_rel : List ℕ} {l : FileLayout}
    {out out' : List ℕ}
    → ((off : ℕ) (part : List ℕ) → At off part out → At off part out')
    → Names b t text_rel data_rel l out
    → Names b t text_rel data_rel l out'
Names-kept {out} {out'} keep n = record {
  text_section = kept n.text_section;
  data_section = kept n.data_section;
  symbol_table = record {
    symoff_at = keep _ _ n.symbol_table.symoff_at;
    nsyms_at = keep _ _ n.symbol_table.nsyms_at;
    stroff_at = keep _ _ n.symbol_table.stroff_at;
    strsize_at = keep _ _ n.symbol_table.strsize_at;
  };
}
  where
    kept :
        {at size fileoff reloff nreloc : ℕ}
        → SectionAt at size fileoff reloff nreloc out
        → SectionAt at size fileoff reloff nreloc out'
    kept s = record {
      size_at = keep _ _ s.size_at;
      fileoff_at = keep _ _ s.fileoff_at;
      reloff_at = keep _ _ s.reloff_at;
      nreloc_at = keep _ _ s.nreloc_at;
    }
