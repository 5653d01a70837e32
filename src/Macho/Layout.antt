-- ===== src/Macho/Layout.antt =====
-- The object file of gen2-dcc-rs/src/macho.rs: its parts, at the offsets of the layout, and the headers
-- that name them.
use dacelo.Base.{
  ℕ, ◌+◌, ◌-◌, ◌*◌, ◌≤◌, ◌≡◌, refl, arith, List, [], ◌∷◌, ◌++◌, Option, none, some, if◌then◌else◌,
  ◌==◌, ==_iff, length, length-append, length-replicate, replicate,
}
use dacelo.Base.Text.{Text}
use dacelo.Macho.{Reloc, ObjectBuilder, Built, ok, unknown_symbol, panic, ◌>>=◌}
use dacelo.Macho.Symbols.{NList, SymTab, symbols, index_of, encode_reloc, encode_relocs}
use dacelo.Macho.Fields.{Names, Names-kept, write_headers-Named}
use dacelo.Macho.Headers.{Succeeds, gives}
use dacelo.Macho.Places.{At, At-append, At-end}
use dacelo.Macho.Writer.{
  layout, pad_to, nlist_bytes, nlists_bytes, write_contents, write_file, finish,
}

length-pad_to : (n : ℕ) (out : List ℕ) → length out ≤ n → length (pad_to n out) ≡ n
unfolding pad_to
length-pad_to n out h = omega (
  arith,
  length-append out (replicate (n - length out) 0),
  length-replicate {A = ℕ} (n - length out) 0,
)

At-pad_to : {off : ℕ} {part out : List ℕ} (n : ℕ) → At off part out → At off part (pad_to n out)
unfolding pad_to
At-pad_to n a = At-append _ a

-- The symbols and the strings behind the relocations move nothing.
At-tail :
    {off : ℕ} {part out : List ℕ} (n : ℕ) (a b : List ℕ)
    → At off part out
    → At off part (pad_to n out ++ a ++ b)
At-tail n a b h = At-append b (At-append a (At-pad_to n h))

length-nlists_bytes : (es : List NList) → length (nlists_bytes es) ≡ length es * 16
unfolding nlists_bytes nlist_bytes
length-nlists_bytes [] = refl
length-nlists_bytes (e ∷ es) = omega (arith, length-nlists_bytes es)

-- Every part stands at its offset, the headers name the parts, and the file ends with the string
-- table.
pub record LaidOut (b : ObjectBuilder) (t : SymTab) (text_rel data_rel out : List ℕ) : Type 0 where
  pub text_at : At (layout b t text_rel data_rel).text_fileoff b.text out
  pub data_at : At (layout b t text_rel data_rel).data_fileoff b.data_bytes out
  pub text_relocs_at : At (layout b t text_rel data_rel).rel_text_off text_rel out
  pub data_relocs_at : At (layout b t text_rel data_rel).rel_data_off data_rel out
  pub symbols_at : At (layout b t text_rel data_rel).sym_off (nlists_bytes t.nlists) out
  pub strings_at : At (layout b t text_rel data_rel).str_off t.strtab out
  pub headers_name : Names b t text_rel data_rel (layout b t text_rel data_rel) out
  pub size : length out ≡ (layout b t text_rel data_rel).str_off + length t.strtab

write_contents-LaidOut :
    (b : ObjectBuilder) (t : SymTab) (text_rel data_rel out : List ℕ)
    → length out ≡ 312
    → Names b t text_rel data_rel (layout b t text_rel data_rel) out
    → LaidOut b t text_rel data_rel
        (write_contents b t text_rel data_rel (layout b t text_rel data_rel) out)
unfolding write_contents layout
write_contents-LaidOut b t text_rel data_rel out n names =
    let l = layout b t text_rel data_rel in
    let with_text = out ++ b.text in
    let padded = pad_to l.data_fileoff with_text in
    let with_data = padded ++ b.data_bytes in
    let with_text_rel = with_data ++ text_rel in
    let with_rel = with_text_rel ++ data_rel in
    let padded2 = pad_to l.sym_off with_rel in
    let with_syms = padded2 ++ nlists_bytes t.nlists in
    let n1 = length-append out b.text in
    let n2 : length padded ≡ l.data_fileoff =
      length-pad_to l.data_fileoff with_text (omega (arith, n, n1)) in
    let n3 = length-append padded b.data_bytes in
    let n4 = length-append with_data text_rel in
    let n5 = length-append with_text_rel data_rel in
    let n6 : length padded2 ≡ l.sym_off =
      length-pad_to l.sym_off with_rel (omega (arith, n2, n3, n4, n5)) in
    let n7 = length-append padded2 (nlists_bytes t.nlists) in
    record {
      text_at = At-tail l.sym_off (nlists_bytes t.nlists) t.strtab (
          At-append data_rel (
            At-append text_rel (
              At-append b.data_bytes
                (At-pad_to l.data_fileoff (At-end l.text_fileoff out b.text n)))));
      data_at =
          At-tail l.sym_off (nlists_bytes t.nlists) t.strtab (
            At-append data_rel (At-append text_rel (At-end l.data_fileoff padded b.data_bytes n2)));
      text_relocs_at =
          At-tail l.sym_off (nlists_bytes t.nlists) t.strtab
            (At-append data_rel (At-end l.rel_text_off with_data text_rel (omega (arith, n2, n3))));
      data_relocs_at =
          At-tail l.sym_off (nlists_bytes t.nlists) t.strtab
            (At-end l.rel_data_off with_text_rel data_rel (omega (arith, n2, n3, n4)));
      symbols_at = At-append t.strtab (At-end l.sym_off padded2 (nlists_bytes t.nlists) n6);
      strings_at =
          At-end l.str_off with_syms t.strtab (omega (arith, n6, n7, length-nlists_bytes t.nlists));
      headers_name =
          Names-kept
            (λ off part at. At-tail l.sym_off (nlists_bytes t.nlists) t.strtab (
              At-append data_rel (
                At-append text_rel
                  (At-append b.data_bytes (At-pad_to l.data_fileoff (At-append b.text at))))))
            names;
      size = omega (arith, n6, n7, length-nlists_bytes t.nlists, length-append with_syms t.strtab);
    }

-- What `finish` can answer: a file that is laid out, or the error of a relocation against a name
-- that is not in the symbol table. It is never a panic.
pub data FileOf (b : ObjectBuilder) : Built (List ℕ) → Type 0 where
  written :
      {text_rel data_rel out : List ℕ}
      → encode_relocs (symbols b).sym_index b.relocs_text ≡ ok text_rel
      → encode_relocs (symbols b).sym_index b.relocs_data ≡ ok data_rel
      → LaidOut b (symbols b) text_rel data_rel out
      → FileOf b (ok out)
  undefined : {n : Text} → index_of n (symbols b).sym_index ≡ none → FileOf b (unknown_symbol n)

-- The answers of `encode_relocs`.
data Encoded (index : List (Text × ℕ)) : Built (List ℕ) → Type 0 where
  encoded : {bytes : List ℕ} → Encoded index (ok bytes)
  missing : {n : Text} → index_of n index ≡ none → Encoded index (unknown_symbol n)

encode_relocs-Encoded :
    (index : List (Text × ℕ)) (rs : List Reloc) → Encoded index (encode_relocs index rs)
unfolding encode_relocs encode_reloc
encode_relocs-Encoded index [] = encoded
encode_relocs-Encoded index (r ∷ rs) =
    step (index_of r.sym_name index) refl (encode_relocs-Encoded index rs)
  where
    step :
        (o : Option ℕ) {m : Built (List ℕ)}
        → index_of r.sym_name index ≡ o
        → Encoded index m
        → Encoded index (encode_reloc r o >>= λ bytes. m >>= λ rest. ok (bytes ++ rest))
    step none e d = missing e
    step (some i) e encoded = encoded
    step (some i) e (missing q) = missing q

write_file-FileOf :
    (b : ObjectBuilder) {text_rel data_rel : List ℕ}
    → encode_relocs (symbols b).sym_index b.relocs_text ≡ ok text_rel
    → encode_relocs (symbols b).sym_index b.relocs_data ≡ ok data_rel
    → FileOf b (write_file b (symbols b) text_rel data_rel)
unfolding write_file layout
write_file-FileOf b {text_rel} {data_rel} e e' =
    after_headers
      (write_headers-Named b (symbols b) text_rel data_rel (layout b (symbols b) text_rel data_rel))
  where
    after_headers :
        {m : Built (List ℕ)}
        → Succeeds
            (λ out.
              (length out ≡ 312)
              × Names b (symbols b) text_rel data_rel (layout b (symbols b) text_rel data_rel) out)
            m
        → FileOf b (
            m >>= λ out.
            if length out == (layout b (symbols b) text_rel data_rel).text_fileoff
            then ok (
                write_contents b
                  (symbols b)
                  text_rel
                  data_rel
                  (layout b (symbols b) text_rel data_rel)
                  out)
            else panic)
    after_headers (gives {a = out} (n, names)) =
        rw ((==_iff (length out) 312).1 n)
          (written e e' (write_contents-LaidOut b (symbols b) text_rel data_rel out n names))

relocs-FileOf :
    (b : ObjectBuilder) (m m' : Built (List ℕ))
    → encode_relocs (symbols b).sym_index b.relocs_text ≡ m
    → encode_relocs (symbols b).sym_index b.relocs_data ≡ m'
    → Encoded (symbols b).sym_index m
    → Encoded (symbols b).sym_index m'
    → FileOf b (m >>= λ text_rel. m' >>= λ data_rel. write_file b (symbols b) text_rel data_rel)
relocs-FileOf b m m' e e' encoded encoded = write_file-FileOf b e e'
relocs-FileOf b m m' e e' encoded (missing q) = undefined q
relocs-FileOf b m m' e e' (missing q) _ = undefined q

-- `finish` never panics: it gives a file that has the code, the data, the relocations, the symbols
-- and the strings at the offsets of the layout and ends with the strings, or the error of a name
-- that is not in the symbol table. In the file, at the places of the Mach-O format, the section headers
-- name the size and the offset of the code and of the data and the offset and the number of their
-- relocations, and the symbol table command names the offsets of the symbols and of the strings, the
-- number of the symbols and the length of the strings; an offset of relocations is 0 if there are none,
-- and all but the sizes are cut to 32 bits.
pub finish-FileOf : (b : ObjectBuilder) → FileOf b (finish b)
unfolding finish
finish-FileOf b =
    let index = (symbols b).sym_index in
    relocs-FileOf b _ _ refl refl (encode_relocs-Encoded index b.relocs_text)
      (encode_relocs-Encoded index b.relocs_data)
