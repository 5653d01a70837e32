-- ===== src/Encoder/Resolve.antt =====
-- `finish` of gen2-dcc-rs/src/encoder.rs, whole: on a well-formed buffer whose labels are bound
-- within reach it succeeds, every branch goes to its label, and every slot gets its symbol.
use dacelo.Base.{
  ℕ, zero, suc, ◌+◌, ◌%◌, ◌^◌, ◌<◌, ◌≤◌, ◌≡◌, ◌⊎◌, inl, inr, refl, sym, ◌∙◌, ap, arith, List, [],
  ◌∷◌, ◌++◌, map, Option, none, some, length, get_elem?, ==_iff,
}
use dacelo.Base.Int.{sub_ℕ, abs}
use dacelo.Base.Text.{Text, codes}
use dacelo.Base.Decimal.{to_decimal, parse_number-to_decimal}
use dacelo.Encoder.{ok, ok-injective, Fixup, CodeBuf}
use dacelo.Encoder.Finish.{
  FinishedCode, patch_fixup, patch_fixups, got_target, got_targets, bound_labels, finish,
}
use dacelo.Encoder.Branches.{destination, Reaches, branch_word-destination}
use dacelo.Encoder.Patch.{
  word_at, patched, length-patched, word_at-patched, word_at-patched_apart, patch32-ok,
}
use dacelo.Encoder.WellFormed.{Ordered, AllAligned, IsKey, AllKeys, IsWellFormed}

-- The fixup's label is bound, and in reach of the branch.
abbrev pub IsResolved : List (Option ℕ) → Fixup → Type 0
IsResolved labels f =
    (t : ℕ) × (get_elem? labels f.label ≡ some (some t)) × Reaches f.kind (abs (sub_ℕ t f.pos))

abbrev pub AllResolved : List (Option ℕ) → List Fixup → Type 0
AllResolved labels [] = Unit
AllResolved labels (f ∷ fs) = IsResolved labels f × AllResolved labels fs

-- The code's word at each fixup is a branch to the offset that its label is bound to.
abbrev pub Lands : List (Option ℕ) → List ℕ → List Fixup → Type 0
Lands labels code [] = Unit
Lands labels code (f ∷ fs) =
    ((w t : ℕ) × (word_at f.pos code ≡ some w)
      × (get_elem? labels f.label ≡ some (some t))
      × (destination f.pos w ≡ some t))
    × Lands labels code fs

-- The word at `q` is none of the fixups' words, nor overlaps one.
abbrev pub Apart : ℕ → List Fixup → Type 0
Apart q [] = Unit
Apart q (f ∷ fs) = ((f.pos + 4 ≤ q) ⊎ (q + 4 ≤ f.pos)) × Apart q fs

Ordered-Apart : (q lo : ℕ) (fs : List Fixup) (hi : ℕ) → q + 4 ≤ lo → Ordered lo fs hi → Apart q fs
Ordered-Apart q lo [] hi h o = tt
Ordered-Apart q lo (f ∷ fs) hi h o =
    (inr (omega arith), Ordered-Apart q (f.pos + 4) fs hi (omega arith) o.2)

Ordered-lo-le : (lo : ℕ) (fs : List Fixup) (hi : ℕ) → Ordered lo fs hi → lo ≤ hi
Ordered-lo-le lo [] hi o = o
Ordered-lo-le lo (f ∷ fs) hi o = omega (arith, Ordered-lo-le (f.pos + 4) fs hi o.2)

aligned_target :
    (ls : List (Option ℕ)) (i : ℕ) {t : ℕ}
    → AllAligned ls
    → get_elem? ls i ≡ some (some t)
    → t % 4 ≡ 0
aligned_target [] i a e = cc
aligned_target (none ∷ ls) zero a e = cc
aligned_target (some o ∷ ls) zero {t} a e = let s : o ≡ t = cc in rw (← s) a.0
aligned_target (l ∷ ls) (suc i) a e = aligned_target ls i a.1 e

aligned_distance : (t p : ℕ) → t % 4 ≡ 0 → p % 4 ≡ 0 → abs (sub_ℕ t p) % 4 ≡ 0
aligned_distance t p a b = ground arith

module _ (labels : List (Option ℕ)) (al : AllAligned labels) where
  -- One fixup: the word that is written goes to the label.
  patch_fixup-ok :
      (f : Fixup) (code : List ℕ)
      → f.pos % 4 ≡ 0
      → f.pos + 4 ≤ length code
      → IsResolved labels f
      → (w t : ℕ) × (patch_fixup labels f code ≡ ok (patched f.pos w code))
        × (w < 2 ^ 32)
        × (get_elem? labels f.label ≡ some (some t))
        × (destination f.pos w ≡ some t)
  unfolding patch_fixup
  patch_fixup-ok f code a h (t, e, r) =
      let d = aligned_distance t f.pos (aligned_target labels f.label al e) a in
      let (w, made, small, lands) = branch_word-destination f.kind f.pos t d r in
      let test = (==_iff (abs (sub_ℕ t f.pos) % 4) 0).1 d in
      (w, t, rw (e, test, made) (patch32-ok f.pos w code h), small, e, lands)

  -- All fixups: their words land, and the words apart from them stay.
  patch_fixups-Lands :
      (lo : ℕ) (fs : List Fixup) (code : List ℕ)
      → Ordered lo fs (length code)
      → AllResolved labels fs
      → (code' : List ℕ) × (patch_fixups labels fs code ≡ ok code')
        × Lands labels code' fs
        × ((q : ℕ) → Apart q fs → word_at q code' ≡ word_at q code)
  unfolding patch_fixups
  patch_fixups-Lands lo [] code o r = (code, refl, tt, λ q a. refl)
  patch_fixups-Lands lo (f ∷ fs) code o r =
      let room : f.pos + 4 ≤ length code = Ordered-lo-le (f.pos + 4) fs (length code) o.2 in
      let (w, t, done, small, bound, lands) = patch_fixup-ok f code o.1 room r.0 in
      let size = length-patched f.pos w code room in
      let rest = patch_fixups-Lands (f.pos + 4) fs (patched f.pos w code) (rw size o.2) r.1 in
      let own = Ordered-Apart f.pos (f.pos + 4) fs (length code) (omega arith) o.2 in
      (
        rest.0,
        rw done rest.1,
        ((w, t, rest.3 f.pos own ∙ word_at-patched f.pos w code room small, bound, lands), rest.2),
        λ q a. rest.3 q a.1 ∙ word_at-patched_apart f.pos q w code room a.0,
      )

-- The symbol that a key stands for, by the two ways to make a key.
abbrev pub IsNamed : (ℕ → Text) → Text × Text → Type 0
IsNamed names (k, s) =
    (k ≡ codes "E:" ++ s) ⊎ ((l : ℕ) × (k ≡ codes "L:" ++ to_decimal l) × (s ≡ names l))

abbrev pub NameKeys : (ℕ → Text) → List Text → List (Text × Text) → Type 0
NameKeys names [] [] = Unit
NameKeys names (k ∷ ks) (t ∷ ts) = (k ≡ t.0) × IsNamed names t × NameKeys names ks ts
NameKeys names _ _ = ⊥

got_target-names :
    (names : ℕ → Text) (k : Text)
    → IsKey k
    → (s : Text) × (got_target names k ≡ ok (k, s)) × IsNamed names (k, s)
unfolding got_target
got_target-names names k (inl (sym, e)) = (sym, rw e, inl e)
got_target-names names k (inr (l, h, e)) =
    (names l, rw e (rw (parse_number-to_decimal (2 ^ 32) l h)), inr (l, e, refl))

got_targets-NameKeys :
    (names : ℕ → Text) (ks : List Text)
    → AllKeys ks
    → (ts : List (Text × Text)) × (got_targets names ks ≡ ok ts) × NameKeys names ks ts
unfolding got_targets
got_targets-NameKeys names [] a = ([], refl, tt)
got_targets-NameKeys names (k ∷ ks) a =
    let (s, e, n) = got_target-names names k a.0 in
    let (ts, es, ns) = got_targets-NameKeys names ks a.1 in ((k, s) ∷ ts, rw (e, es), (refl, n, ns))

finish_parts :
    (names : ℕ → Text) (c : CodeBuf)
    → IsWellFormed c
    → AllResolved c.labels c.fixups
    → (r : FinishedCode) × (finish names c ≡ ok r)
      × Lands c.labels r.code c.fixups
      × NameKeys names c.got_slots r.got_slots
      × ((q : ℕ) → Apart q c.fixups → word_at q r.code ≡ word_at q c.code)
unfolding finish
finish_parts names c v r =
    let p = patch_fixups-Lands c.labels v.labels_aligned 0 c.fixups c.code v.fixups_ordered r in
    let g = got_targets-NameKeys names c.got_slots v.keys_known in
    let done : FinishedCode = record {
      code = p.0;
      label_offsets = bound_labels 0 c.labels;
      got_slots = g.0;
      adrp_refs = map (λ a. (a.pos, a.reg, a.slot)) c.adrp_refs;
    } in
    (done, rw (p.1, g.1), p.2, g.2, p.3)

-- `finish` on a well-formed buffer, with every label that a fixup names bound and in reach of the
-- branch, gives code: the word at each fixup is a branch to the offset its label is bound to, and
-- the slots have, in order, the symbols that their keys stand for.
pub finish-Lands :
    (names : ℕ → Text) (c : CodeBuf)
    → IsWellFormed c
    → AllResolved c.labels c.fixups
    → (r : FinishedCode) × (finish names c ≡ ok r)
      × Lands c.labels r.code c.fixups
      × NameKeys names c.got_slots r.got_slots
finish-Lands names c v r =
    let (done, e, lands, keys, _) = finish_parts names c v r in (done, e, lands, keys)

-- What `finish` gives for such a buffer has, at every offset that is apart from the fixups, the
-- word that the buffer had there.
pub finish-Apart :
    (names : ℕ → Text) (c : CodeBuf) {done : FinishedCode} (q : ℕ)
    → IsWellFormed c
    → AllResolved c.labels c.fixups
    → finish names c ≡ ok done
    → Apart q c.fixups
    → word_at q done.code ≡ word_at q c.code
finish-Apart names c {done} q v r e a =
    let (done', e', _, _, kept) = finish_parts names c v r in
    ap (λ (d : FinishedCode). word_at q d.code) (ok-injective (sym e ∙ e')) ∙ kept q a
