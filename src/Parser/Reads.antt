-- ===== src/Parser/Reads.antt =====
-- gen0-interp-rs/src/parser.rs: how many tokens the parsers read, for tokens that end with
-- `Tok::Eof`. The rules for the steps that the parsers are made of stand here, those for the parsers
-- in the children.
mod Symbols
mod Loops
mod Types
mod Exprs
mod Forms
pub mod Items
use dacelo.Base.{
  ℕ, zero, suc, ◌+◌, ◌≤◌, ◌≡◌, ◌≢◌, refl, sym, ap, ◌∙◌, arith, Bool, true, false, List, [], ◌∷◌,
  Option, none, some, if◌then◌else◌, length,
}
use dacelo.Base.Text.{Text}
use dacelo.Lexer.{Tok, Token}
use dacelo.Parser.{
  Problem, Parsed, ok, err, bad_type_application, P, bind, ◌>>=◌, ◌>>◌, return, out_of_fuel, next,
  fail, on_peek, is_sym, is_kw, if_peek, if_next, if_sym, if_kw, expect_sym, expect_kw, ident_at,
  parse_ident, upper_at, parse_upper, many, sep_by, left_step, left_assoc, eat_sym, eat_kw,
  parens_rest, in_parens, in_brackets,
}

-- The last of the tokens, and no more is asked of the others, is `Tok::Eof`.
pub data EndsEof : List Token → Type 0 where
  last : {t : Token} → t.tok ≡ Tok.eof → EndsEof (t ∷ [])
  more : {t : Token} {ts : List Token} → EndsEof ts → EndsEof (t ∷ ts)

-- A result or an error, neither a panic nor the end of the fuel; `d` tokens or more of `n` are read,
-- and those that are left still end with `Tok::Eof`.
pub data Outcome {ℓ} {A : Type ℓ} (d n : ℕ) : Parsed (A × List Token) → Type ℓ where
  done :
      {a : A} {rest : List Token} → EndsEof rest → d + length rest ≤ n → Outcome d n (ok (a, rest))
  failed : {p : Problem} {t : Token} → Outcome d n (err p t)
  bad_type : {t : _} → Outcome d n (bad_type_application t)

-- On `f` tokens at most, `p` has an outcome and reads `d` of them or more.
pub data Reads {ℓ} {A : Type ℓ} (d f : ℕ) (p : P A) : Type ℓ where
  reads :
      ((ts : List Token) → EndsEof ts → length ts ≤ f → Outcome d (length ts) (p ts)) → Reads d f p

-- The same for tokens the first of which is `t`.
pub data ReadsAt {ℓ} {A : Type ℓ} (d f : ℕ) (t : Tok) (p : P A) : Type ℓ where
  reads_at :
      ((u : Token) (us : List Token)
        → u.tok ≡ t
        → EndsEof (u ∷ us)
        → length (u ∷ us) ≤ f
        → Outcome d (length (u ∷ us)) (p (u ∷ us)))
      → ReadsAt d f t p

EndsEof-nonempty : (ts : List Token) → EndsEof ts → 1 ≤ length ts
EndsEof-nonempty [] x = elim x [ ]
EndsEof-nonempty (t ∷ ts) x = omega arith

module _ {ℓ} {A : Type ℓ} where
  pub Outcome_shift :
      {d e n k : ℕ} {r : Parsed (A × List Token)} → e + k ≤ d + n → Outcome d k r → Outcome e n r
  Outcome_shift h (done x l) = done x (omega arith)
  Outcome_shift h failed = failed
  Outcome_shift h bad_type = bad_type

  pub run_reads :
      {d f : ℕ} {p : P A}
      → Reads d f p
      → (ts : List Token) → EndsEof ts
      → length ts ≤ f
      → Outcome d (length ts) (p ts)
  run_reads (reads r) = r

  run_reads_at :
      {d f : ℕ} {t : Tok} {p : P A}
      → ReadsAt d f t p
      → (u : Token) (us : List Token) → u.tok ≡ t
      → EndsEof (u ∷ us)
      → length (u ∷ us) ≤ f
      → Outcome d (length (u ∷ us)) (p (u ∷ us))
  run_reads_at (reads_at r) = r

  pub Reads-fewer : {f g d e : ℕ} {p : P A} → g ≤ f → e ≤ d → Reads d f p → Reads e g p
  Reads-fewer h k (reads r) = reads λ ts x l. Outcome_shift (omega arith) (r ts x (omega arith))

  pub Reads-return : {f : ℕ} (a : A) → Reads 0 f (return a)
  unfolding return
  Reads-return a = reads λ ts x l. done x (omega arith)

  Outcome-fail :
      {d : ℕ} (p : Problem) (ts : List Token)
      → EndsEof ts
      → Outcome d (length ts) (fail {A = A} p ts)
  unfolding fail
  Outcome-fail p [] x = elim x [ ]
  Outcome-fail p (t ∷ ts) x = failed

  pub Reads-fail : {d f : ℕ} (p : Problem) → Reads d f (fail {A = A} p)
  Reads-fail p = reads λ ts x l. Outcome-fail p ts x

  pub Reads-zero : {d : ℕ} {p : P A} → Reads d 0 p
  Reads-zero = reads λ ts x l. absurd (lt_absurd (EndsEof-nonempty ts x) l)
    where
      lt_absurd : {n : ℕ} → 1 ≤ n → n ≤ 0 → ⊥
      lt_absurd h k = omega arith

  ReadsAt-Reads : {d f : ℕ} {t : Tok} {p : P A} → Reads d f p → ReadsAt d f t p
  ReadsAt-Reads (reads r) = reads_at λ u us e x l. r (u ∷ us) x l

module _ {ℓ κ} {A : Type ℓ} {B : Type κ} where
  Outcome-bind :
      {d e k n f : ℕ} {q : A → P B} {r : Parsed (A × List Token)}
      → Outcome d n r
      → n ≤ d + f
      → k ≤ d + e
      → ((a : A) → Reads e f (q a))
      → Outcome k n (bind r λ (a, rest). q a rest)
  unfolding bind
  Outcome-bind (done {a} {rest} x l) h i s =
      Outcome_shift (omega arith) (run_reads (s a) rest x (omega arith))
  Outcome-bind failed h i s = failed
  Outcome-bind bad_type h i s = bad_type

  -- What comes after a step that reads a token has one token less to read.
  pub Reads-take :
      {f : ℕ} {p : P A} {q : A → P B}
      → Reads 1 (suc f) p
      → ((a : A) → Reads 0 f (q a))
      → Reads 1 (suc f) (p >>= q)
  unfolding ◌>>=◌
  Reads-take (reads r) s = reads λ ts x l. Outcome-bind (r ts x l) (omega arith) (omega arith) s

  pub Reads-bind :
      {d f : ℕ} {p : P A} {q : A → P B}
      → Reads d f p
      → ((a : A) → Reads 0 f (q a))
      → Reads d f (p >>= q)
  unfolding ◌>>=◌
  Reads-bind (reads r) s = reads λ ts x l. Outcome-bind (r ts x l) (omega arith) (omega arith) s

  -- The step that reads comes second.
  pub Reads-then :
      {d f : ℕ} {p : P A} {q : A → P B}
      → Reads 0 f p
      → ((a : A) → Reads d f (q a))
      → Reads d f (p >>= q)
  unfolding ◌>>=◌
  Reads-then (reads r) s = reads λ ts x l. Outcome-bind (r ts x l) (omega arith) (omega arith) s

  ReadsAt-then :
      {f : ℕ} {t : Tok} {p : P A} {q : A → P B}
      → ReadsAt 1 (suc f) t p
      → ((a : A) → Reads 0 f (q a))
      → ReadsAt 1 (suc f) t (p >>= q)
  unfolding ◌>>=◌
  ReadsAt-then (reads_at r) s =
      reads_at λ u us e x l. Outcome-bind (r u us e x l) (omega arith) (omega arith) s

-- A token that is not `Tok::Eof` is passed.
Outcome-next :
    (u : Token) (us : List Token)
    → u.tok ≢ Tok.eof
    → EndsEof (u ∷ us)
    → Outcome 1 (length (u ∷ us)) (next (u ∷ us))
unfolding next
Outcome-next u [] h (last e) = absurd (h e)
Outcome-next u [] h (more x) = elim x [ ]
Outcome-next u (t ∷ us) h (more x) = done x (omega arith)

Outcome-next_weak : (ts : List Token) → EndsEof ts → Outcome 0 (length ts) (next ts)
unfolding next
Outcome-next_weak [] x = elim x [ ]
Outcome-next_weak (u ∷ []) x = done x (omega arith)
Outcome-next_weak (u ∷ t ∷ us) (more x) = done x (omega arith)

pub Reads-next : {f : ℕ} → Reads 0 f next
Reads-next = reads λ ts x l. Outcome-next_weak ts x

ReadsAt-next : {f : ℕ} {t : Tok} → t ≢ Tok.eof → ReadsAt 1 f t next
ReadsAt-next h = reads_at λ u us e x l. Outcome-next u us (λ e'. h (sym e ∙ e')) x

module _ {ℓ} {A : Type ℓ} where
  pub ReadsAt-step :
      {f : ℕ} {t : Tok} {q : Token → P A}
      → t ≢ Tok.eof
      → ((u : Token) → Reads 0 f (q u))
      → ReadsAt 1 (suc f) t (next >>= q)
  ReadsAt-step h r = ReadsAt-then (ReadsAt-next h) r

  pub ReadsAt-if :
      {d f : ℕ} {t : Tok} (b : Bool) {p q : P A}
      → (b ≡ true → ReadsAt d f t p)
      → (b ≡ false → ReadsAt d f t q)
      → ReadsAt d f t (if b then p else q)
  ReadsAt-if true r s = r refl
  ReadsAt-if false r s = s refl

  Outcome-on_peek :
      {d f : ℕ} {p : Tok → P A}
      → ((t : Tok) → ReadsAt d f t (p t))
      → (ts : List Token) → EndsEof ts
      → length ts ≤ f
      → Outcome d (length ts) (on_peek p ts)
  unfolding on_peek
  Outcome-on_peek r [] x l = elim x [ ]
  Outcome-on_peek r (u ∷ us) x l = run_reads_at (r u.tok) u us refl x l

  pub Reads-on_peek :
      {d f : ℕ} {p : Tok → P A} → ((t : Tok) → ReadsAt d f t (p t)) → Reads d f (on_peek p)
  Reads-on_peek r = reads (Outcome-on_peek r)

  -- A test that `Tok::Eof` fails.
  pub Reads-if_peek :
      {d f : ℕ} {test : Tok → Bool} {p q : P A}
      → ((t : Tok) → test t ≡ true → ReadsAt d f t p)
      → Reads d f q
      → Reads d f (if_peek test p q)
  unfolding if_peek
  Reads-if_peek {test} r s = Reads-on_peek λ t. ReadsAt-if (test t) (r t) (λ e. ReadsAt-Reads s)
