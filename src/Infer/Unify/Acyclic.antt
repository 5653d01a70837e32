-- ===== src/Infer/Unify/Acyclic.antt =====
-- gen0-interp-rs/src/infer.rs: links that lead nowhere in circles, and one more link.
use dacelo.Base.{
  ℕ, zero, suc, ◌+◌, ◌≤◌, ◌≡◌, refl, ◌∙◌, arith, false, Bool-cases, inl, inr, [], ◌∷◌, none, some,
  ◌==◌, ==_iff,
}
use dacelo.Base.Text.{Text}
use dacelo.Infer.{Ty, Tys, no_tys, one_more, con, var, arrow, tuple, app, Links, link_of}
use dacelo.Infer.Unify.Solved.{link_of_new, link_of_old}

-- With all links followed, the type is at most `n` steps deep and its variables have `P`.
mutual
  pub data Within (links : Links) (P : ℕ → Type 0) : ℕ → Ty → Type 0 where
    constant : {n : ℕ} {c : Text} → Within links P n (con c)
    free : {n v : ℕ} → link_of links v ≡ none → P v → Within links P n (var v)
    linked :
        {n v : ℕ} {t : Ty}
        → link_of links v ≡ some t
        → Within links P n t
        → Within links P (suc n) (var v)
    both :
        {n : ℕ} {a b : Ty}
        → Within links P n a
        → Within links P n b
        → Within links P (suc n) (arrow a b)
    in_tuple : {n : ℕ} {ts : Tys} → WithinAll links P n ts → Within links P (suc n) (tuple ts)
    in_app :
        {n : ℕ} {c : Text} {ts : Tys} → WithinAll links P n ts → Within links P (suc n) (app c ts)

  pub data WithinAll (links : Links) (P : ℕ → Type 0) : ℕ → Tys → Type 0 where
    none_left : {n : ℕ} → WithinAll links P n no_tys
    one_first :
        {n : ℕ} {t : Ty} {ts : Tys}
        → Within links P n t
        → WithinAll links P n ts
        → WithinAll links P n (one_more t ts)

-- Any variable, and any but one.
abbrev pub Any : ℕ → Type 0
Any v = Unit

abbrev pub Other : ℕ → ℕ → Type 0
Other v w = (v == w) ≡ false

abbrev pub Acyclic : Links → Type 0
Acyclic links = (t : Ty) → (n : ℕ) × Within links Any n t

module _ {links : Links} {P : ℕ → Type 0} where
  mutual
    pub Within-le : {n m : ℕ} {t : Ty} → n ≤ m → Within links P n t → Within links P m t
    Within-le h constant = constant
    Within-le h (free u p) = free u p
    Within-le {m = zero} h (linked e w) = elim h [ ]
    Within-le {m = suc m} h (linked e w) = linked e (Within-le (omega arith) w)
    Within-le {m = zero} h (both w x) = elim h [ ]
    Within-le {m = suc m} h (both w x) =
        both (Within-le (omega arith) w) (Within-le (omega arith) x)
    Within-le {m = zero} h (in_tuple ws) = elim h [ ]
    Within-le {m = suc m} h (in_tuple ws) = in_tuple (WithinAll-le (omega arith) ws)
    Within-le {m = zero} h (in_app ws) = elim h [ ]
    Within-le {m = suc m} h (in_app ws) = in_app (WithinAll-le (omega arith) ws)

    pub WithinAll-le :
        {n m : ℕ} {ts : Tys} → n ≤ m → WithinAll links P n ts → WithinAll links P m ts
    WithinAll-le h none_left = none_left
    WithinAll-le h (one_first w ws) = one_first (Within-le h w) (WithinAll-le h ws)

-- With no links there are no circles.
mutual
  unfolding link_of

  pub Acyclic-nil : Acyclic []
  Acyclic-nil (con c) = (0, constant)
  Acyclic-nil (var v) = (0, free refl tt)
  Acyclic-nil (arrow a b) =
      let (n, w) = Acyclic-nil a in
      let (m, x) = Acyclic-nil b in
      (suc (n + m), both (Within-le (omega arith) w) (Within-le (omega arith) x))
  Acyclic-nil (tuple ts) = let (n, ws) = all_within ts in (suc n, in_tuple ws)
  Acyclic-nil (app c ts) = let (n, ws) = all_within ts in (suc n, in_app ws)

  all_within : (ts : Tys) → (n : ℕ) × WithinAll [] Any n ts
  all_within no_tys = (0, none_left)
  all_within (one_more t ts) =
      let (n, w) = Acyclic-nil t in
      let (m, ws) = all_within ts in
      (n + m, one_first (Within-le (omega arith) w) (WithinAll-le (omega arith) ws))

module _ (links : Links) (v : ℕ) (t : Ty) (u : link_of links v ≡ none) where
  abbrev new : Links
  new = (v, t) ∷ links

  -- What is linked is not `v`, and stays so.
  linked_still : (w : ℕ) {t' : Ty} → link_of links w ≡ some t' → link_of new w ≡ some t'
  linked_still w e = elim (Bool-cases (v == w)) [
    | inl q ↦ let i = (==_iff v w).0 q in absurd (cc)
    | inr q ↦ link_of_old links v t w q ∙ e
  ]

  mutual
    Within-Other : {n : ℕ} {s : Ty} → Within links (Other v) n s → Within new Any n s
    Within-Other constant = constant
    Within-Other (free {v = w} e p) = free (link_of_old links v t w p ∙ e) tt
    Within-Other (linked {v = x} e w) = linked (linked_still x e) (Within-Other w)
    Within-Other (both w x) = both (Within-Other w) (Within-Other x)
    Within-Other (in_tuple ws) = in_tuple (WithinAll-Other ws)
    Within-Other (in_app ws) = in_app (WithinAll-Other ws)

    WithinAll-Other : {n : ℕ} {ts : Tys} → WithinAll links (Other v) n ts → WithinAll new Any n ts
    WithinAll-Other none_left = none_left
    WithinAll-Other (one_first w ws) = one_first (Within-Other w) (WithinAll-Other ws)

  module _ {m : ℕ} (h : Within links (Other v) m t) where
    mutual
      Within-new : {n : ℕ} {s : Ty} → Within links Any n s → Within new Any (n + suc m) s
      Within-new constant = constant
      Within-new {n} (free {v = w} e p) = elim (Bool-cases (v == w)) [
        | inl q ↦
            Within-le (omega arith)
              (linked (link_of_new links v t w ((==_iff v w).0 q)) (Within-Other h))
        | inr q ↦ free (link_of_old links v t w q ∙ e) tt
      ]
      Within-new (linked {v = x} e w) =
          Within-le (omega arith) (linked (linked_still x e) (Within-new w))
      Within-new (both w x) = Within-le (omega arith) (both (Within-new w) (Within-new x))
      Within-new (in_tuple ws) = Within-le (omega arith) (in_tuple (WithinAll-new ws))
      Within-new (in_app ws) = Within-le (omega arith) (in_app (WithinAll-new ws))

      WithinAll-new :
          {n : ℕ} {ts : Tys} → WithinAll links Any n ts → WithinAll new Any (n + suc m) ts
      WithinAll-new none_left = none_left
      WithinAll-new (one_first w ws) = one_first (Within-new w) (WithinAll-new ws)

    pub Acyclic-new : Acyclic links → Acyclic new
    Acyclic-new a s = let (n, w) = a s in (n + suc m, Within-new w)
