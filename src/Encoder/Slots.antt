-- ===== src/Encoder/Slots.antt =====
-- `intern_got_slot` of gen2-dcc-rs/src/encoder.rs: each key has one slot, which it keeps.
use dacelo.Base.{
  ℕ, zero, suc, ◌<◌, ◌≡◌, ◌⊎◌, inl, inr, refl, sym, ◌∙◌, ap, arith, List, [], ◌∷◌, ◌++◌, none, some,
  length, get_elem?, get_elem?-append, Option-cases, Bool-cases,
}
use dacelo.Base.Text.{Text, text_eq, text_eq_iff, text_eq_refl}
use dacelo.Encoder.{CodeBuf, lookup, intern_at, intern_got_slot, emit_adrp_ldr_got}
use dacelo.Encoder.WellFormed.{Agree, IsKey, AllKeys, IsWellFormed, push4-IsWellFormed}
use mathlib.Core.Option.{some-injective, none-ne-some}

get_elem?-lt : (xs : List Text) (i : ℕ) {k : Text} → get_elem? xs i ≡ some k → i < length xs
get_elem?-lt [] i h = cc
get_elem?-lt (x ∷ xs) zero h = omega arith
get_elem?-lt (x ∷ xs) (suc i) h = omega (arith, get_elem?-lt xs i h)

get_elem?-last : (xs : List Text) (k : Text) → get_elem? (xs ++ k ∷ []) (length xs) ≡ some k
get_elem?-last [] k = refl
get_elem?-last (x ∷ xs) k = get_elem?-last xs k

-- Behind the last slot nothing but the new one is found.
get_elem?-concat :
    (xs : List Text) (key k : Text) (i : ℕ)
    → get_elem? (xs ++ key ∷ []) i ≡ some k
    → (get_elem? xs i ≡ some k) ⊎ (i ≡ length xs) × (key ≡ k)
get_elem?-concat [] key k zero h = inr (refl, some-injective _ _ h)
get_elem?-concat [] key k (suc i) h = cc
get_elem?-concat (x ∷ xs) key k zero h = inl h
get_elem?-concat (x ∷ xs) key k (suc i) h = elim (get_elem?-concat xs key k i h) [
  | inl old ↦ inl old
  | inr (e, q) ↦ inr (ap suc e, q)
]

module _ (key : Text) (m : List (Text × ℕ)) (slots : List Text) (agree : Agree m slots) where
  new_slot-Agree : lookup key m ≡ none → Agree ((key, length slots) ∷ m) (slots ++ key ∷ [])
  unfolding lookup
  new_slot-Agree absent k i = (to, from)
    where
      to : lookup k ((key, length slots) ∷ m) ≡ some i → get_elem? (slots ++ key ∷ []) i ≡ some k
      to h = elim (Bool-cases (text_eq key k)) [
        | inl same ↦
            let e : key ≡ k = (text_eq_iff key k).0 same in
            let j : length slots ≡ i = some-injective _ _ (rw same at h) in
            rw (← j, ← e) (get_elem?-last slots key)
        | inr other ↦
            let old = (agree k i).0 (rw other at h) in
            get_elem?-append slots (key ∷ []) i (get_elem?-lt slots i old) ∙ old
      ]

      from : get_elem? (slots ++ key ∷ []) i ≡ some k → lookup k ((key, length slots) ∷ m) ≡ some i
      from h = elim (get_elem?-concat slots key k i h) [
        | inl old ↦
            let found = (agree k i).1 old in
            elim (Bool-cases (text_eq key k)) [
              | inl same ↦
                  let e : key ≡ k = (text_eq_iff key k).0 same in
                  absurd (none-ne-some _ (sym absent ∙ ap (λ (t : Text). lookup t m) e ∙ found))
              | inr other ↦ rw other found
            ]
        | inr (e, q) ↦ rw (e, ← q, text_eq_refl key)
      ]

AllKeys-concat : (ks : List Text) (k : Text) → AllKeys ks → IsKey k → AllKeys (ks ++ k ∷ [])
AllKeys-concat [] k a h = (h, tt)
AllKeys-concat (x ∷ ks) k a h = (a.0, AllKeys-concat ks k a.1 h)

module _ (key : Text) (c : CodeBuf) where
  -- On a well-formed buffer, the slot that a key is interned at holds the key.
  pub intern_got_slot_lem :
      IsWellFormed c
      → get_elem? (intern_got_slot key c).1.got_slots (intern_got_slot key c).0 ≡ some key
  unfolding intern_got_slot intern_at
  intern_got_slot_lem v = elim (Option-cases (lookup key c.got_map)) [
    | inl absent ↦ rw absent (get_elem?-last c.got_slots key)
    | inr (i, found) ↦ rw found ((v.slots_agree key i).0 found)
  ]

  -- Interning a key keeps every slot that is in use.
  pub intern_got_slot_kept :
      (i : ℕ) (k : Text)
      → get_elem? c.got_slots i ≡ some k
      → get_elem? (intern_got_slot key c).1.got_slots i ≡ some k
  unfolding intern_got_slot intern_at
  intern_got_slot_kept i k h = elim (Option-cases (lookup key c.got_map)) [
    | inl absent ↦
        rw absent (get_elem?-append c.got_slots (key ∷ []) i (get_elem?-lt c.got_slots i h) ∙ h)
    | inr (j, found) ↦ rw found h
  ]

  pub intern_got_slot-IsWellFormed :
      IsKey key → IsWellFormed c → IsWellFormed (intern_got_slot key c).1
  unfolding intern_got_slot intern_at
  intern_got_slot-IsWellFormed known v = elim (Option-cases (lookup key c.got_map)) [
    | inl absent ↦ rw absent (record {
      code_aligned = v.code_aligned;
      fixups_ordered = v.fixups_ordered;
      labels_aligned = v.labels_aligned;
      keys_known = AllKeys-concat c.got_slots key v.keys_known known;
      slots_agree = new_slot-Agree key c.got_map c.got_slots v.slots_agree absent;
    })
    | inr (i, found) ↦ rw found v
  ]

  -- On a well-formed buffer, interning a key again gives the same slot and changes nothing.
  pub intern_got_slot_twice :
      IsWellFormed c
      → intern_got_slot key (intern_got_slot key c).1
        ≡ ((intern_got_slot key c).0, (intern_got_slot key c).1)
  unfolding intern_got_slot intern_at lookup
  intern_got_slot_twice v = elim (Option-cases (lookup key c.got_map)) [
    | inl absent ↦ rw (absent, text_eq_refl key)
    | inr (i, found) ↦ rw (found, found)
  ]

pub emit_adrp_ldr_got-IsWellFormed :
    (xt : ℕ) (key : Text) (c : CodeBuf)
    → IsKey key
    → IsWellFormed c
    → IsWellFormed (emit_adrp_ldr_got xt key c)
unfolding emit_adrp_ldr_got
emit_adrp_ldr_got-IsWellFormed xt key c known v =
    let w = intern_got_slot-IsWellFormed key c known v in
    push4-IsWellFormed _ _ (
      push4-IsWellFormed _ _ (record {
        code_aligned = w.code_aligned;
        fixups_ordered = w.fixups_ordered;
        labels_aligned = w.labels_aligned;
        keys_known = w.keys_known;
        slots_agree = w.slots_agree;
      }))
