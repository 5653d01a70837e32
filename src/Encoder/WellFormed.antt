-- ===== src/Encoder/WellFormed.antt =====
-- What holds of every buffer of gen2-dcc-rs/src/encoder.rs: code, labels and fixups stand on word
-- boundaries, fixups do not overlap, and the GOT map and the GOT slots say the same.
use dacelo.Base.{
  ℕ, zero, suc, ◌+◌, ◌%◌, ◌^◌, ◌<◌, ◌≤◌, ◌≡◌, ◌↔◌, ◌⊎◌, refl, arith, List, [], ◌∷◌, ◌++◌, Option,
  none, some, length, get_elem?, set, length-append,
}
use mathlib.Core.Path.{subst}
use dacelo.Base.Text.{Text, codes}
use dacelo.Base.Decimal.{to_decimal}
use dacelo.Encoder.{
  ok, ok-injective, Fixup, FixKind, CodeBuf, new, here, le32, push4, lookup, new_label, bind_label,
  bind_entry,
}
use dacelo.Encoder.Instructions.{emit_fixup}

-- Fixups in order, one word apart at least, on word boundaries between `lo` and `hi`.
abbrev pub Ordered : ℕ → List Fixup → ℕ → Type 0
Ordered lo [] hi = lo ≤ hi
Ordered lo (f ∷ fs) hi = (lo ≤ f.pos) × (f.pos % 4 ≡ 0) × Ordered (f.pos + 4) fs hi

-- A bound label stands on a word boundary.
abbrev pub AlignedAt : Option ℕ → Type 0
AlignedAt none = Unit
AlignedAt (some o) = o % 4 ≡ 0

abbrev pub AllAligned : List (Option ℕ) → Type 0
AllAligned [] = Unit
AllAligned (l ∷ ls) = AlignedAt l × AllAligned ls

-- The keys that the two loads make.
abbrev pub IsKey : Text → Type 0
IsKey k =
    ((sym : Text) × (k ≡ codes "E:" ++ sym))
    ⊎ ((l : ℕ) × (l < 2 ^ 32) × (k ≡ codes "L:" ++ to_decimal l))

abbrev pub AllKeys : List Text → Type 0
AllKeys [] = Unit
AllKeys (k ∷ ks) = IsKey k × AllKeys ks

-- The map holds a key with an index exactly when the slot of that index holds the key.
abbrev pub Agree : List (Text × ℕ) → List Text → Type 0
Agree m slots = (k : Text) (i : ℕ) → (lookup k m ≡ some i) ↔ (get_elem? slots i ≡ some k)

pub record IsWellFormed (c : CodeBuf) : Type 0 where
  pub code_aligned : length c.code % 4 ≡ 0
  pub fixups_ordered : Ordered 0 c.fixups (length c.code)
  pub labels_aligned : AllAligned c.labels
  pub keys_known : AllKeys c.got_slots
  pub slots_agree : Agree c.got_map c.got_slots

pub new-IsWellFormed : IsWellFormed new
unfolding lookup
new-IsWellFormed = record {
  code_aligned = refl;
  fixups_ordered = omega arith;
  labels_aligned = omega arith;
  keys_known = tt;
  slots_agree = λ k i. (λ h. cc, λ h. cc);
}

Ordered-le :
    (lo : ℕ) (fs : List Fixup) (hi hi' : ℕ) → hi ≤ hi' → Ordered lo fs hi → Ordered lo fs hi'
Ordered-le lo [] hi hi' h o = omega arith
Ordered-le lo (f ∷ fs) hi hi' h o = (o.0, o.1, Ordered-le (f.pos + 4) fs hi hi' h o.2)

Ordered-concat :
    (lo : ℕ) (fs : List Fixup) (f : Fixup)
    → f.pos % 4 ≡ 0
    → Ordered lo fs f.pos
    → Ordered lo (fs ++ f ∷ []) (f.pos + 4)
Ordered-concat lo [] f a o = (o, a, omega arith)
Ordered-concat lo (g ∷ fs) f a o = (o.0, o.1, Ordered-concat (g.pos + 4) fs f a o.2)

pub push4-IsWellFormed : (w : ℕ) (c : CodeBuf) → IsWellFormed c → IsWellFormed (push4 w c)
unfolding push4
push4-IsWellFormed w c v = record {
  code_aligned = omega (arith, v.code_aligned, length-append c.code (le32 w));
  fixups_ordered =
      Ordered-le 0 c.fixups _ _ (omega (arith, length-append c.code (le32 w))) v.fixups_ordered;
  labels_aligned = v.labels_aligned;
  keys_known = v.keys_known;
  slots_agree = v.slots_agree;
}

pub emit_fixup-IsWellFormed :
    (kind : FixKind) (word label : ℕ) (c : CodeBuf)
    → IsWellFormed c
    → IsWellFormed (emit_fixup kind word label c)
unfolding emit_fixup push4
emit_fixup-IsWellFormed kind word label c v = record {
  code_aligned = omega (arith, v.code_aligned, length-append c.code (le32 word));
  fixups_ordered = rw (length-append c.code (le32 word)) (
      Ordered-concat 0 c.fixups (record { pos = here c; label = label; kind = kind }) v.code_aligned
        v.fixups_ordered);
  labels_aligned = v.labels_aligned;
  keys_known = v.keys_known;
  slots_agree = v.slots_agree;
}

AllAligned-concat :
    (ls : List (Option ℕ)) (l : Option ℕ) → AllAligned ls → AlignedAt l → AllAligned (ls ++ l ∷ [])
AllAligned-concat [] l a h = (h, tt)
AllAligned-concat (k ∷ ls) l a h = (a.0, AllAligned-concat ls l a.1 h)

AllAligned-set :
    (ls : List (Option ℕ)) (i o : ℕ) → AllAligned ls → o % 4 ≡ 0 → AllAligned (set ls i (some o))
AllAligned-set [] i o a h = tt
AllAligned-set (l ∷ ls) zero o a h = (h, a.1)
AllAligned-set (l ∷ ls) (suc i) o a h = (a.0, AllAligned-set ls i o a.1 h)

pub new_label-IsWellFormed : (c : CodeBuf) → IsWellFormed c → IsWellFormed (new_label c).1
unfolding new_label
new_label-IsWellFormed c v = record {
  code_aligned = v.code_aligned;
  fixups_ordered = v.fixups_ordered;
  labels_aligned = AllAligned-concat c.labels none v.labels_aligned tt;
  keys_known = v.keys_known;
  slots_agree = v.slots_agree;
}

bind_entry-IsWellFormed :
    (entry : Option (Option ℕ)) (l : ℕ) (c : CodeBuf) {c' : CodeBuf}
    → IsWellFormed c
    → bind_entry entry l c ≡ ok c'
    → IsWellFormed c'
unfolding bind_entry
bind_entry-IsWellFormed none l c v e = cc
bind_entry-IsWellFormed (some (some o)) l c v e = cc
bind_entry-IsWellFormed (some none) l c v e = subst IsWellFormed (ok-injective e) (record {
  code_aligned = v.code_aligned;
  fixups_ordered = v.fixups_ordered;
  labels_aligned = AllAligned-set c.labels l (here c) v.labels_aligned v.code_aligned;
  keys_known = v.keys_known;
  slots_agree = v.slots_agree;
})

pub bind_label-IsWellFormed :
    (l : ℕ) (c : CodeBuf) {c' : CodeBuf} → IsWellFormed c → bind_label l c ≡ ok c' → IsWellFormed c'
unfolding bind_label
bind_label-IsWellFormed l c v e = bind_entry-IsWellFormed (get_elem? c.labels l) l c v e
