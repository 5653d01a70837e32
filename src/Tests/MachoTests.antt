-- ===== src/Tests/MachoTests.antt =====
-- Tests of the model of gen2-dcc-rs/src/macho.rs: an object with one function that loads the
-- address of an extern.
use dacelo.Base.{ℕ, ◌+◌, ◌≡◌, refl, true, List, [], ◌∷◌, some, length}
use dacelo.Base.Text.{codes, text_eq}
use dacelo.Base.Utf8.{bytes, utf8}
use dacelo.Macho.{RelocKind, Section, ObjectBuilder, Built, ok, new, define, add_extern, put}
use dacelo.Macho.Symbols.{
  empty_symtab, push_symbol, symbol_fields, add_symbol, add_symbols, is_local, is_global, is_undef,
  filter, symbols, index_of, encode_reloc, encode_relocs, reloc_word, reloc_bits,
}
use dacelo.Macho.Headers.{emit_section_header_full, emit_segment_header}
use dacelo.Macho.Writer.{
  layout, mach_header, build_version, symtab_command, write_headers, pad_to, nlist_bytes,
  nlists_bytes, write_contents, write_file, finish,
}
use dacelo.Macho.Layout.{FileOf, finish-FileOf}
use dacelo.Macho.Names.{Named, symbols-Named}

abbrev object : ObjectBuilder
object = record (add_extern (codes "_puts") (define (codes "_main") Section.text 0 true new)) {
  text = 0 ∷ 0 ∷ 0 ∷ 0x90 ∷ [];
  relocs_text =
      record { offset = 0; sym_name = codes "_puts"; kind = RelocKind.got_load_page21 } ∷ [];
}

abbrev size : Built (List ℕ) → ℕ
size (ok out) = length out
size _ = 0

-- 312 bytes of headers, 4 of code, 4 of padding, 8 of relocations, 2 * 16 of symbols, 13 of strings.
finish_size : size (finish object) ≡ 312 + 4 + 4 + 8 + 32 + 13
unfolding finish write_file write_contents write_headers nlists_bytes nlist_bytes pad_to
    symtab_command build_version mach_header layout emit_segment_header emit_section_header_full put
    encode_relocs encode_reloc index_of reloc_word reloc_bits symbols filter is_local is_global
    is_undef add_symbols add_symbol symbol_fields push_symbol empty_symtab new define add_extern
    text_eq bytes utf8
finish_size = refl

finish-FileOf_example : FileOf object (finish object)
finish-FileOf_example = finish-FileOf object

puts_index : index_of (codes "_puts") (symbols object).sym_index ≡ some 1
unfolding index_of symbols filter is_local is_global is_undef add_symbols add_symbol symbol_fields
    push_symbol empty_symtab new define add_extern text_eq bytes utf8
puts_index = refl

symbols-Named_example : Named (codes "_puts") 1 (symbols object)
symbols-Named_example = symbols-Named object (codes "_puts") 1 puts_index
