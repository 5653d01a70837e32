-- ===== src/Macho/Writer.antt =====
-- The second half of `finish` of gen2-dcc-rs/src/macho.rs: the layout of the file and its bytes.
use dacelo.Base.{
  ℕ, ◌+◌, ◌-◌, ◌*◌, ◌%◌, ◌^◌, List, [], ◌∷◌, ◌++◌, if◌then◌else◌, ◌==◌, length, replicate,
}
use dacelo.Base.Text.{codes}
use dacelo.Encoder.{le32}
use dacelo.Macho.{ObjectBuilder, Built, ok, panic, ◌>>=◌, le16, le64, align_up}
use dacelo.Macho.Symbols.{NList, SymTab, symbols, encode_relocs}
use dacelo.Macho.Headers.{emit_section_header_full, emit_segment_header}

-- The file offsets of the parts.
pub record FileLayout : Type 0 where
  pub text_fileoff : ℕ
  pub data_fileoff : ℕ
  pub rel_text_off : ℕ
  pub rel_data_off : ℕ
  pub sym_off : ℕ
  pub str_off : ℕ

abbrev sizeof_cmds : ℕ
sizeof_cmds = 72 + 80 * 2 + 24 + 24

unfoldable pub layout : ObjectBuilder → SymTab → List ℕ → List ℕ → FileLayout
layout b t text_rel data_rel =
    let text_fileoff = 32 + sizeof_cmds in
    let data_fileoff = align_up (text_fileoff + length b.text) 16 in
    let rel_text_off = data_fileoff + length b.data_bytes in
    let rel_data_off = rel_text_off + length text_rel in
    let sym_off = align_up (rel_data_off + length data_rel) 8 in
    record {
      text_fileoff = text_fileoff;
      data_fileoff = data_fileoff;
      rel_text_off = rel_text_off;
      rel_data_off = rel_data_off;
      sym_off = sym_off;
      str_off = sym_off + length t.nlists * 16;
    }

unfoldable pub mach_header : List ℕ
mach_header =
    le32 0xFEEDFACF
    ++ le32 0x0100000C
    ++ le32 0
    ++ le32 1
    ++ le32 3
    ++ le32 sizeof_cmds
    ++ le32 0
    ++ le32 0

unfoldable pub build_version : List ℕ
build_version = le32 0x32 ++ le32 24 ++ le32 1 ++ le32 0x000C0000 ++ le32 0x000C0000 ++ le32 0

unfoldable pub symtab_command : SymTab → FileLayout → List ℕ
symtab_command t l =
    le32 0x02
    ++ le32 24
    ++ le32 (l.sym_off % 2 ^ 32)
    ++ le32 (length t.nlists % 2 ^ 32)
    ++ le32 (l.str_off % 2 ^ 32)
    ++ le32 (length t.strtab % 2 ^ 32)

-- `if rel_bytes.is_empty() { 0 } else { off }`
abbrev pub reloc_off : List ℕ → ℕ → ℕ
reloc_off [] off = 0
reloc_off (x ∷ xs) off = off

-- Everything up to the assertion: the header and the load commands.
unfoldable pub write_headers :
    ObjectBuilder → SymTab → List ℕ → List ℕ → FileLayout → Built (List ℕ)
write_headers b t text_rel data_rel l =
    let text_pad = align_up (length b.text) 8 in
    do
      out1 ← emit_segment_header mach_header [] (text_pad + length b.data_bytes) l.text_fileoff 2
      out2 ←
          emit_section_header_full out1 (codes "__text") (codes "__TEXT") 0 (length b.text)
            l.text_fileoff 2 (reloc_off text_rel l.rel_text_off) (length b.relocs_text)
      out3 ←
          emit_section_header_full out2 (codes "__data") (codes "__DATA") text_pad
            (length b.data_bytes) l.data_fileoff 3 (reloc_off data_rel l.rel_data_off)
            (length b.relocs_data)
      ok (out3 ++ (build_version ++ symtab_command t l))

-- `while out.len() < n { out.push(0); }`
unfoldable pub pad_to : ℕ → List ℕ → List ℕ
pad_to n out = out ++ replicate (n - length out) 0

unfoldable pub nlist_bytes : NList → List ℕ
nlist_bytes e = le32 e.stroff ++ e.ty ∷ e.sect ∷ le16 e.desc ++ le64 e.value

unfoldable pub nlists_bytes : List NList → List ℕ
nlists_bytes [] = []
nlists_bytes (e ∷ es) = nlist_bytes e ++ nlists_bytes es

-- Everything after the assertion.
unfoldable pub write_contents :
    ObjectBuilder → SymTab → List ℕ → List ℕ → FileLayout → List ℕ → List ℕ
write_contents b t text_rel data_rel l out =
    let with_data = pad_to l.data_fileoff (out ++ b.text) ++ b.data_bytes in
    let with_relocs = pad_to l.sym_off (with_data ++ text_rel ++ data_rel) in
    with_relocs ++ nlists_bytes t.nlists ++ t.strtab

unfoldable pub write_file : ObjectBuilder → SymTab → List ℕ → List ℕ → Built (List ℕ)
write_file b t text_rel data_rel =
    let l = layout b t text_rel data_rel in
    do
      out ← write_headers b t text_rel data_rel l
      if length out == l.text_fileoff
          then ok (write_contents b t text_rel data_rel l out)
          else panic

-- `ObjectBuilder::finish`
unfoldable pub finish : ObjectBuilder → Built (List ℕ)
finish b =
    let t = symbols b in
    do
      text_rel ← encode_relocs t.sym_index b.relocs_text
      data_rel ← encode_relocs t.sym_index b.relocs_data
      write_file b t text_rel data_rel
