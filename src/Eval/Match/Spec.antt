-- ===== src/Eval/Match/Spec.antt =====
-- What it means that a pattern matches a value, and that `pat_match` finds out.
use dacelo.Base.{
  ℕ, suc, ◌≡◌, refl, sym, ap, ◌∙◌, arith, Bool, true, false, ◌&&◌, [], ◌∷◌, ◌++◌, Option, none,
  some, ◌==◌, ==_iff, Bool-cases, Option-cases, inl, inr, ◌⊎◌, ◌↔◌, if◌then◌else◌,
}
use mathlib.Core.Path.{subst}
use mathlib.Core.List.{append-nil, append_assoc}
use dacelo.Base.Text.{Text}
use dacelo.Syntax.{Lit, Pattern, Patterns, wildcard, var, p_lit, p_tuple, p_ctor, p_nil, p_cons}
use dacelo.Eval.Match.{
  and_then, Checked, ok, err, Ctors, get_ctor, lit_matches, p_length, pat_match, match_all,
}
use dacelo.Eval.{Value, tuple, adt, Values, v_nil, v_cons, v_length, Binds, unknown_constructor}

-- The pattern matches the value with these bindings, from left to right.
mutual
  pub data Matches (cs : Ctors) : Pattern → Value → Binds → Type 0 where
    any : {v : Value} → Matches cs wildcard v []
    named : {n : Text} {v : Value} → Matches cs (var n) v ((n, v) ∷ [])
    literal : {l : Lit} {v : Value} → lit_matches l v ≡ true → Matches cs (p_lit l) v []
    parts :
        {ps : Patterns} {vs : Values} {bs : Binds}
        → MatchesAll cs ps vs bs
        → Matches cs (p_tuple ps) (tuple vs) bs
    fields :
        {n m : Text} {tag size : ℕ} {ps : Patterns} {vs : Values} {bs : Binds}
        → get_ctor n cs ≡ some (tag, size)
        → MatchesAll cs ps vs bs
        → Matches cs (p_ctor n ps) (adt m tag vs) bs

  pub data MatchesAll (cs : Ctors) : Patterns → Values → Binds → Type 0 where
    none_left : MatchesAll cs p_nil v_nil []
    each :
        {p : Pattern} {ps : Patterns} {v : Value} {vs : Values} {bs cs' : Binds}
        → Matches cs p v bs
        → MatchesAll cs ps vs cs'
        → MatchesAll cs (p_cons p ps) (v_cons v vs) (bs ++ cs')

same_length :
    {cs : Ctors} {ps : Patterns} {vs : Values} {bs : Binds}
    → MatchesAll cs ps vs bs
    → v_length vs ≡ p_length ps
unfolding v_length p_length
same_length none_left = refl
same_length (each _ d) = ap suc (same_length d)

-- A list of equal length passes the test before the fields are matched.
length_test :
    {cs : Ctors} {ps : Patterns} {vs : Values} {bs : Binds}
    → MatchesAll cs ps vs bs
    → (v_length vs == p_length ps) ≡ true
length_test {ps = ps} {vs = vs} d = (==_iff (v_length vs) (p_length ps)).1 (same_length d)

mutual
  unfolding pat_match match_all

  pat_match_of-Matches :
      {cs : Ctors} {p : Pattern} {v : Value} {bs : Binds}
      → Matches cs p v bs
      → (acc : Binds) → pat_match cs p v acc ≡ ok (some (acc ++ bs))
  pat_match_of-Matches any acc = rw (append-nil acc) refl
  pat_match_of-Matches named acc = refl
  pat_match_of-Matches (literal e) acc = rw (e, append-nil acc) refl
  pat_match_of-Matches (parts d) acc = rw (length_test d) (match_all_of-MatchesAll d acc)
  pat_match_of-Matches (fields {tag = tag} e d) acc =
      rw (e, (==_iff tag tag).1 refl, length_test d) (match_all_of-MatchesAll d acc)

  match_all_of-MatchesAll :
      {cs : Ctors} {ps : Patterns} {vs : Values} {bs : Binds}
      → MatchesAll cs ps vs bs
      → (acc : Binds) → match_all cs ps vs acc ≡ ok (some (acc ++ bs))
  match_all_of-MatchesAll none_left acc = rw (append-nil acc) refl
  match_all_of-MatchesAll (each {bs = bs} {cs' = bs'} d ds) acc = rw (pat_match_of-Matches d acc) (
      match_all_of-MatchesAll ds (acc ++ bs)
      ∙ ap (λ (t : Binds). ok (some t)) (append_assoc acc bs bs'))

-- What `pat_match` can answer, with the bindings so far in front.
data Answers (R : Binds → Type 0) (acc : Binds) : Checked (Option Binds) → Type 0 where
  found : {bs : Binds} → R bs → Answers R acc (ok (some (acc ++ bs)))
  differs : Answers R acc (ok none)
  unknown : {n : Text} → Answers R acc (err (unknown_constructor n))

Answers-map :
    {R S : Binds → Type 0} {acc : Binds} {r : Checked (Option Binds)}
    → Answers R acc r
    → ((bs : Binds) → R bs → S bs)
    → Answers S acc r
Answers-map (found d) f = found (f _ d)
Answers-map differs f = differs
Answers-map unknown f = unknown

Answers-nil : {R : Binds → Type 0} → R [] → (acc : Binds) → Answers R acc (ok (some acc))
Answers-nil {R = R} d acc = subst (λ t. Answers R acc (ok (some t))) (append-nil acc) (found d)

Answers-if :
    {R : Binds → Type 0} {acc : Binds} {r : Checked (Option Binds)} (b : Bool)
    → (b ≡ true → Answers R acc r)
    → Answers R acc (if b then r else ok none)
Answers-if true h = h refl
Answers-if false h = differs

Answers-lit :
    {cs : Ctors} {l : Lit} {v : Value} (acc : Binds)
    → (lit_matches l v ≡ true) ⊎ (lit_matches l v ≡ false)
    → Answers (Matches cs (p_lit l) v) acc (ok (if lit_matches l v then some acc else none))
Answers-lit acc (inl e) = rw e (Answers-nil (literal e) acc)
Answers-lit acc (inr e) = rw e differs

-- The bindings of the first part stand in front of those of the rest.
shift :
    {cs : Ctors} {p : Pattern} {v : Value} {ps : Patterns} {vs : Values} {acc bs : Binds}
    {m : Checked (Option Binds)}
    → Matches cs p v bs
    → Answers (MatchesAll cs ps vs) (acc ++ bs) m
    → Answers (MatchesAll cs (p_cons p ps) (v_cons v vs)) acc m
shift {cs = cs} {p = p} {v = v} {ps = ps} {vs = vs} {acc = acc} {bs = bs} d (found {bs = bs'} ds) =
    subst (λ t. Answers (MatchesAll cs (p_cons p ps) (v_cons v vs)) acc (ok (some t)))
      (sym (append_assoc acc bs bs')) (found (each d ds))
shift d differs = differs
shift d unknown = unknown

Answers-then :
    {cs : Ctors} {p : Pattern} {v : Value} {ps : Patterns} {vs : Values} {acc : Binds}
    {m : Checked (Option Binds)}
    → Answers (Matches cs p v) acc m
    → ((bs : Binds) → Answers (MatchesAll cs ps vs) (acc ++ bs) (match_all cs ps vs (acc ++ bs)))
    → Answers (MatchesAll cs (p_cons p ps) (v_cons v vs)) acc (and_then m (match_all cs ps vs))
Answers-then {acc = acc} (found {bs = bs} d) q = shift d (q bs)
Answers-then differs q = differs
Answers-then unknown q = unknown

both_tests : (a b c d : ℕ) → (a == b && c == d) ≡ true → (a ≡ b) × (c ≡ d)
both_tests a b c d h = (ground arith, ground arith)

mutual
  unfolding pat_match match_all

  pat_match-Answers :
      (cs : Ctors) (p : Pattern) (v : Value) (acc : Binds)
      → Answers (Matches cs p v) acc (pat_match cs p v acc)
  pat_match-Answers cs wildcard v acc = Answers-nil any acc
  pat_match-Answers cs (var n) v acc = found named
  pat_match-Answers cs (p_lit l) v acc = Answers-lit acc (Bool-cases (lit_matches l v))
  pat_match-Answers cs (p_tuple ps) (tuple vs) acc = Answers-if (v_length vs == p_length ps) λ e.
      Answers-map (match_all-Answers cs ps vs acc ((==_iff (v_length vs) (p_length ps)).0 e))
        λ bs d. parts d
  pat_match-Answers cs (p_tuple ps) _ acc = differs
  pat_match-Answers cs (p_ctor n ps) (adt m tag vs) acc = elim (Option-cases (get_ctor n cs)) [
    | inl e ↦ rw e unknown
    | inr ((expected, size), e) ↦ rw e (
        Answers-if (tag == expected && v_length vs == p_length ps) λ t.
          let (same_tag, len) = both_tests tag expected (v_length vs) (p_length ps) t in
          Answers-map (match_all-Answers cs ps vs acc len)
            λ bs d. fields (e ∙ ap (λ (i : ℕ). some (i, size)) (sym same_tag)) d)
  ]
  pat_match-Answers cs (p_ctor n ps) _ acc = elim (Option-cases (get_ctor n cs)) [
    | inl e ↦ rw e unknown
    | inr ((expected, size), e) ↦ rw e differs
  ]

  match_all-Answers :
      (cs : Ctors) (ps : Patterns) (vs : Values) (acc : Binds)
      → v_length vs ≡ p_length ps
      → Answers (MatchesAll cs ps vs) acc (match_all cs ps vs acc)
  match_all-Answers cs p_nil v_nil acc h = Answers-nil none_left acc
  match_all-Answers cs p_nil (v_cons v vs) acc h = ground arith
  match_all-Answers cs (p_cons p ps) v_nil acc h = ground arith
  match_all-Answers cs (p_cons p ps) (v_cons v vs) acc h =
      Answers-then (pat_match-Answers cs p v acc)
        λ bs. match_all-Answers cs ps vs (acc ++ bs) (ground arith)

-- The answer `ok (some r)` comes from a match.
from_answer :
    {R : Binds → Type 0} {acc : Binds} {m : Checked (Option Binds)}
    → Answers R acc m
    → {r : Binds} → m ≡ ok (some r)
    → (bs : Binds) × R bs × (r ≡ acc ++ bs)
from_answer (found {bs = bs} d) h = (bs, d, cc)
from_answer differs h = cc
from_answer unknown h = cc

-- `pat_match` answers with bindings exactly if the pattern matches the value with those bindings, in
-- the sense of the rules.
pub pat_match_iff :
    (cs : Ctors) (p : Pattern) (v : Value) (bs : Binds)
    → (pat_match cs p v [] ≡ ok (some bs)) ↔ Matches cs p v bs
pat_match_iff cs p v bs = (sound, λ d. pat_match_of-Matches d [])
  where
    sound : pat_match cs p v [] ≡ ok (some bs) → Matches cs p v bs
    sound h =
        let (bs', d, e) = from_answer (pat_match-Answers cs p v []) h in
        subst (Matches cs p v) (sym e) d
