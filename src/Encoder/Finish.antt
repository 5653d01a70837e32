-- ===== src/Encoder/Finish.antt =====
-- gen2-dcc-rs/src/encoder.rs, `CodeBuf::finish`: every fixup is patched with the distance to its
-- label, and the tables are handed over to the object writer.
use dacelo.Base.{
  ℕ, suc, ◌%◌, ◌^◌, List, [], ◌∷◌, map, Option, none, some, ◌==◌, if◌then◌else◌, leb, get_elem?,
}
use dacelo.Base.Bits.{◌or◌, shl32}
use dacelo.Base.Int.{ℤ, sub_ℕ, abs, shr_ℤ, as_unsigned}
use dacelo.Base.Decimal.{parse_number}
use dacelo.Base.Text.{Text, codes, text_eq}
use dacelo.Encoder.{
  Asm, ok, panic, ◌>>=◌, ◌>>◌, assert, label_out_of_range, unbound_label, misaligned_branch,
  branch_too_far, bad_got_key, FixKind, Fixup, CodeBuf, patch32,
}

pub record FinishedCode : Type 0 where
  pub code : List ℕ
  pub label_offsets : List (ℕ × ℕ)
  pub got_slots : List (Text × Text)
  pub adrp_refs : List (ℕ × ℕ × ℕ)

abbrev pub bound_target : Option (Option ℕ) → Asm ℕ
bound_target none = panic label_out_of_range
bound_target (some none) = panic unbound_label
bound_target (some (some target)) = ok target

-- `(delta >> 2) as u32`
abbrev pub words_away : ℤ → ℕ
words_away delta = as_unsigned 32 (shr_ℤ delta 2)

unfoldable pub branch_word : FixKind → ℤ → Asm ℕ
branch_word FixKind.b delta = ok (0x14000000 or words_away delta % 2 ^ 26)
branch_word FixKind.bl delta = ok (0x94000000 or words_away delta % 2 ^ 26)
branch_word (FixKind.b_cond cond) delta = do
  assert (leb (abs delta) (2 ^ 20)) branch_too_far
  ok (0x54000000 or shl32 (words_away delta % 2 ^ 19) 5 or cond)
branch_word (FixKind.cbz rt) delta = ok (0xB4000000 or shl32 (words_away delta % 2 ^ 19) 5 or rt)
branch_word (FixKind.cbnz rt) delta = ok (0xB5000000 or shl32 (words_away delta % 2 ^ 19) 5 or rt)

unfoldable pub patch_fixup : List (Option ℕ) → Fixup → List ℕ → Asm (List ℕ)
unfolding branch_word
patch_fixup labels f code = do
  target ← bound_target (get_elem? labels f.label)
  let delta = sub_ℕ target f.pos
  assert (abs delta % 4 == 0) misaligned_branch
  word ← branch_word f.kind delta
  patch32 f.pos word code

unfoldable pub patch_fixups : List (Option ℕ) → List Fixup → List ℕ → Asm (List ℕ)
unfolding patch_fixup
patch_fixups labels [] code = ok code
patch_fixups labels (f ∷ fs) code = do
  code₁ ← patch_fixup labels f code
  patch_fixups labels fs code₁

-- The bound labels with their offsets, numbered from `i`.
unfoldable pub bound_labels : ℕ → List (Option ℕ) → List (ℕ × ℕ)
bound_labels i [] = []
bound_labels i (none ∷ ls) = bound_labels (suc i) ls
bound_labels i (some o ∷ ls) = (i % 2 ^ 32, o) ∷ bound_labels (suc i) ls

-- `split_once(':')`
unfoldable pub split_colon : Text → Option (Text × Text)
split_colon [] = none
split_colon (c ∷ cs) =
    let later : Option (Text × Text) = elim (split_colon cs) [
      | none ↦ none
      | some (l, r) ↦ some (c ∷ l, r)
    ] in
    if c == b':' then some ([], cs) else later

label_target : (ℕ → Text) → Text → Option ℕ → Asm (Text × Text)
label_target label_name_of k none = panic bad_got_key
label_target label_name_of k (some id) = ok (k, label_name_of id)

split_target : (ℕ → Text) → Text → Option (Text × Text) → Asm (Text × Text)
unfolding label_target text_eq
split_target label_name_of k none = panic bad_got_key
split_target label_name_of k (some (tag, name)) =
    if text_eq tag (codes "E")
    then ok (k, name)
    else if text_eq tag (codes "L")
    then label_target label_name_of k (parse_number (2 ^ 32) name)
    else panic bad_got_key

-- The symbol that a slot's key stands for.
unfoldable pub got_target : (ℕ → Text) → Text → Asm (Text × Text)
unfolding split_target split_colon
got_target label_name_of k = split_target label_name_of k (split_colon k)

unfoldable pub got_targets : (ℕ → Text) → List Text → Asm (List (Text × Text))
unfolding got_target
got_targets label_name_of [] = ok []
got_targets label_name_of (k ∷ ks) = do
  t ← got_target label_name_of k
  ts ← got_targets label_name_of ks
  ok (t ∷ ts)

unfoldable pub finish : (ℕ → Text) → CodeBuf → Asm FinishedCode
unfolding patch_fixups got_targets bound_labels
finish label_name_of c = do
  code ← patch_fixups c.labels c.fixups c.code
  got ← got_targets label_name_of c.got_slots
  ok (record {
    code = code;
    label_offsets = bound_labels 0 c.labels;
    got_slots = got;
    adrp_refs = map (λ a. (a.pos, a.reg, a.slot)) c.adrp_refs;
  })
