-- ===== src/Infer/Unify/Terminates.antt =====
-- gen0-interp-rs/src/infer.rs: the runs of `unify`, by the number of unbound variables and, for one
-- number, by the depth of the types.
use dacelo.Base.{
  ℕ, zero, suc, ◌+◌, ◌≤◌, ◌<◌, ◌≡◌, refl, sym, ◌∙◌, arith, Bool, true, false, ◌&&◌, Bool-cases, inl,
  inr, ◌∷◌, none, some, ◌==◌, ==_iff, if◌then◌else◌,
}
use dacelo.Base.Text.{text_eq}
use dacelo.Infer.{
  Ty, Tys, no_tys, one_more, con, var, arrow, tuple, app, Links, link_of, InferError, ok, err, bind,
}
use dacelo.Infer.Unify.{
  prune, occurs, unify_all, same_length, set_link, link_var, unify_pruned, unify,
}
use dacelo.Infer.Unify.Solutions.{Unlinked}
use dacelo.Infer.Unify.Solved.{link_of_new, link_of_old}
use dacelo.Infer.Unify.Settles.{Settles-const, Settles-suc}
use dacelo.Infer.Unify.Acyclic.{
  Within, WithinAll, both, in_tuple, in_app, one_first, Any, Within-le, Acyclic, Acyclic-new,
}
use dacelo.Infer.Unify.Looks.{
  Below, BelowAll, BelowLinks, PruneEnds, prune_free, prune-Ends, Look, seen, unseen, Absent,
  occurs-Look,
}
use dacelo.Infer.Unify.Ends.{
  unbound, unbound_lt, same, fewer, failed, Ends, Ends-const, Ends-bind, Ends-suc, Ends-settled,
}

-- What holds of the links all along, with all variables below `n`.
abbrev pub Fine : ℕ → Links → Type 0
Fine n links = Acyclic links × BelowLinks n links

module _ (n : ℕ) {links : Links} (fine : Fine n links) where
  BelowLinks-new : (v : ℕ) (t : Ty) → Below n t → BelowLinks n ((v, t) ∷ links)
  BelowLinks-new v t b w s e = elim (Bool-cases (v == w)) [
    | inl q ↦ below_same b (link_of_new links v t w ((==_iff v w).0 q))
    | inr q ↦ fine.1 w s (sym (link_of_old links v t w q) ∙ e)
  ]
    where
      below_same : Below n t → link_of ((v, t) ∷ links) w ≡ some t → Below n s
      below_same b i = let j : t ≡ s = cc in rw (sym j) b

  link_Ends :
      (v : ℕ) (t : Ty)
      → v < n
      → link_of links v ≡ none
      → Below n t
      → Look (Absent links v t) (λ f. occurs f links v t)
      → Ends n links (λ f. link_var f v t links)
  unfolding link_var set_link
  link_Ends v t h u b (seen s) = Ends-settled n (λ f. set_link v t links) s (Ends-const n failed)
  link_Ends v t h u b (unseen s (k, w)) =
      Ends-settled n (λ f. set_link v t links) s
        (Ends-const n (
          fewer (Acyclic-new links v t u w fine.0) (BelowLinks-new v t b)
            (unbound_lt links v t u n h)))

  link_var-Ends :
      (v : ℕ) (t : Ty)
      → v < n
      → link_of links v ≡ none
      → Below n t
      → Ends n links (λ f. link_var f v t links)
  link_var-Ends v t h u b = let (k, w) = fine.0 t in link_Ends v t h u b (occurs-Look links v k t w)

  -- Two variables with no link.
  vars-Ends :
      (v w : ℕ)
      → v < n
      → w < n
      → link_of links v ≡ none
      → (b : Bool) → Ends n links (λ f. if b then ok links else link_var f v (var w) links)
  unfolding Below
  vars-Ends v w h i u true = Ends-const n same
  vars-Ends v w h i u false = link_var-Ends v (var w) h u i

  -- A variable on the right: the two change places.
  swapped-Ends :
      (a : Ty) (w : ℕ)
      → ((f : ℕ) → prune (suc f) links a ≡ ok a)
      → link_of links w ≡ none
      → Ends n links (λ f. unify_pruned f (unify f) (var w) a links)
      → Ends n links (λ f. unify f (var w) a links)
  unfolding unify
  swapped-Ends a w e u r =
      Ends-suc n (λ f. unify f (var w) a links) (λ f. refl)
        (Ends-settled n (λ f a'. bind (prune f links a) λ b'. unify_pruned f (unify f) a' b' links)
          (Settles-suc (λ f. prune f links (var w)) (λ f. prune_free links f w u)
            (Settles-const (ok (var w))))
          (Ends-settled n (λ f b'. unify_pruned f (unify f) (var w) b' links)
            (Settles-suc (λ f. prune f links a) e (Settles-const (ok a))) r))

-- `unify` ends for types of `h` steps, and for all types from links with fewer than `k` unbound
-- variables.
abbrev Rec : ℕ → Links → ℕ → Type 0
Rec n links h =
    (a b : Ty)
    → Below n a
    → Below n b
    → Within links Any h a
    → Within links Any h b
    → Ends n links (λ f. unify f a b links)

abbrev Later : ℕ → ℕ → Type 0
Later n k =
    (new : Links)
    → Fine n new
    → unbound n new < k
    → (a b : Ty) → Below n a
    → Below n b
    → Ends n new (λ f. unify f a b new)

-- The types one step inside.
abbrev Inner : ℕ → Links → ℕ → Type 0
Inner n links zero = Unit
Inner n links (suc h) = Rec n links h

module _ (n : ℕ) {k : ℕ} (later : Later n k) where
  all_later :
      (new : Links)
      → Fine n new
      → unbound n new < k
      → (xs ys : Tys) → BelowAll n xs
      → BelowAll n ys
      → Ends n new (λ f. unify_all (unify f) xs ys new)
  unfolding unify_all Below
  all_later new fine l no_tys ys b c = Ends-const n same
  all_later new fine l (one_more x xs) no_tys b c = Ends-const n same
  all_later new fine l (one_more x xs) (one_more y ys) b c =
      Ends-bind n (λ f. unify_all (unify f) xs ys) (later new fine l x y b.0 c.0)
        (all_later new fine l xs ys b.1 c.1)
        λ next a d m. all_later next (a, d) (omega arith) xs ys b.1 c.1

  module _ {links : Links} (fine : Fine n links) (few : unbound n links ≤ k) where
    all_here :
        {h : ℕ}
        → Rec n links h
        → (xs ys : Tys) → BelowAll n xs
        → BelowAll n ys
        → WithinAll links Any h xs
        → WithinAll links Any h ys
        → Ends n links (λ f. unify_all (unify f) xs ys links)
    unfolding unify_all Below
    all_here r no_tys ys b c ws zs = Ends-const n same
    all_here r (one_more x xs) no_tys b c ws zs = Ends-const n same
    all_here r (one_more x xs) (one_more y ys) b c (one_first w ws) (one_first z zs) =
        Ends-bind n (λ f. unify_all (unify f) xs ys) (r x y b.0 c.0 w z)
          (all_here r xs ys b.1 c.1 ws zs)
          λ next a d m. all_later next (a, d) (omega arith) xs ys b.1 c.1

    lists_Ends :
        {h : ℕ} (e : InferError)
        → Rec n links h
        → (xs ys : Tys) → BelowAll n xs
        → BelowAll n ys
        → WithinAll links Any h xs
        → WithinAll links Any h ys
        → (b : Bool) → Ends n links (λ f. if b then unify_all (unify f) xs ys links else err e)
    lists_Ends e r xs ys b c ws zs true = all_here r xs ys b c ws zs
    lists_Ends e r xs ys b c ws zs false = Ends-const n failed

    texts_Ends : (e : InferError) (b : Bool) → Ends n links (λ f. if b then ok links else err e)
    texts_Ends e true = Ends-const n same
    texts_Ends e false = Ends-const n failed

    arrows_Ends :
        {h : ℕ}
        → Rec n links h
        → (a b c d : Ty) → Below n (arrow a b)
        → Below n (arrow c d)
        → Within links Any (suc h) (arrow a b)
        → Within links Any (suc h) (arrow c d)
        → Ends n links (λ f. bind (unify f a c links) (unify f b d))
    unfolding Below
    arrows_Ends r a b c d p q (both w x) (both y z) =
        Ends-bind n (λ f. unify f b d) (r a c p.0 q.0 w y) (r b d p.1 q.1 x z)
          λ next e g m. later next (e, g) (omega arith) b d p.1 q.1

    unify_pruned-Ends :
        (h : ℕ)
        → Inner n links h
        → (a b : Ty) → Unlinked links a
        → Unlinked links b
        → Below n a
        → Below n b
        → Within links Any h a
        → Within links Any h b
        → Ends n links (λ f. unify_pruned f (unify f) a b links)
    unfolding unify_pruned Below
    unify_pruned-Ends h r (var v) (var w) u i b c x y = vars-Ends n fine v w b c u (v == w)
    unify_pruned-Ends h r (var v) (con d) u i b c x y = link_var-Ends n fine v (con d) b u c
    unify_pruned-Ends h r (var v) (arrow d e) u i b c x y = link_var-Ends n fine v (arrow d e) b u c
    unify_pruned-Ends h r (var v) (tuple ts) u i b c x y = link_var-Ends n fine v (tuple ts) b u c
    unify_pruned-Ends h r (var v) (app d ts) u i b c x y = link_var-Ends n fine v (app d ts) b u c
    unify_pruned-Ends h r (con d) (var w) u i b c x y =
        swapped-Ends n fine (con d) w (λ f. refl) i (link_var-Ends n fine w (con d) c i b)
    unify_pruned-Ends h r (arrow d e) (var w) u i b c x y =
        swapped-Ends n fine (arrow d e) w (λ f. refl) i (link_var-Ends n fine w (arrow d e) c i b)
    unify_pruned-Ends h r (tuple ts) (var w) u i b c x y =
        swapped-Ends n fine (tuple ts) w (λ f. refl) i (link_var-Ends n fine w (tuple ts) c i b)
    unify_pruned-Ends h r (app d ts) (var w) u i b c x y =
        swapped-Ends n fine (app d ts) w (λ f. refl) i (link_var-Ends n fine w (app d ts) c i b)
    unify_pruned-Ends h r (con d) (con e) u i b c x y = texts_Ends _ (text_eq d e)
    unify_pruned-Ends zero r (arrow d e) (arrow g j) u i b c x y = elim x [ ]
    unify_pruned-Ends zero r (tuple xs) (tuple ys) u i b c x y = elim x [ ]
    unify_pruned-Ends zero r (app d xs) (app e ys) u i b c x y = elim x [ ]
    unify_pruned-Ends (suc h) r (arrow d e) (arrow g j) u i b c x y = arrows_Ends r d e g j b c x y
    unify_pruned-Ends (suc h) r (tuple xs) (tuple ys) u i b c (in_tuple x) (in_tuple y) =
        lists_Ends _ r xs ys b c x y (same_length xs ys)
    unify_pruned-Ends (suc h) r (app d xs) (app e ys) u i b c (in_app x) (in_app y) =
        lists_Ends _ r xs ys b c x y (text_eq d e && same_length xs ys)
    unify_pruned-Ends h r _ _ u i b c x y = Ends-const n failed

    -- From where the links of both types end.
    pruned_Ends :
        (h : ℕ)
        → Inner n links h
        → (a b : Ty) → Below n a
        → Below n b
        → PruneEnds links h a
        → PruneEnds links h b
        → Ends n links (λ f. unify f a b links)
    unfolding unify
    pruned_Ends h r a b p q (PruneEnds.ends a' s u w below back)
          (PruneEnds.ends b' s' u' w' below' back') =
        Ends-suc n (λ f. unify f a b links) (λ f. refl)
          (Ends-settled n
            (λ f a'. bind (prune f links b) λ b'. unify_pruned f (unify f) a' b' links) s
            (Ends-settled n (λ f b'. unify_pruned f (unify f) a' b' links) s'
              (unify_pruned-Ends h r a' b' u u' (below n fine.1 p) (below' n fine.1 q) w w')))

    unify-Rec : (h : ℕ) → Rec n links h
    unify-Rec zero a b p q w x = pruned_Ends zero tt a b p q (prune-Ends w) (prune-Ends x)
    unify-Rec (suc h) a b p q w x =
        pruned_Ends (suc h) (unify-Rec h) a b p q (prune-Ends w) (prune-Ends x)

    -- One depth for both types.
    unify_fine : (a b : Ty) → Below n a → Below n b → Ends n links (λ f. unify f a b links)
    unify_fine a b p q =
        let (h, w) = fine.0 a in
        let (m, x) = fine.0 b in
        unify-Rec (h + m) a b p q (Within-le (omega arith) w) (Within-le (omega arith) x)

unify-Later : (n k : ℕ) → Later n k
unify-Later n zero new fine l = elim l [ ]
unify-Later n (suc k) new fine l = unify_fine n (unify-Later n k) fine (omega arith)

-- From links that lead nowhere in circles, on types with all variables below `n` like those of the
-- links, `unify` ends: from some amount of fuel on it has one result, which is an error or links that
-- lead nowhere in circles either, the same ones or with fewer unbound variables.
pub unify-Ends :
    (n : ℕ) (links : Links) (a b : Ty)
    → Acyclic links
    → BelowLinks n links
    → Below n a
    → Below n b
    → Ends n links (λ f. unify f a b links)
unify-Ends n links a b c d = unify-Later n (suc (unbound n links)) links (c, d) (omega arith) a b
