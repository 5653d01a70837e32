-- ===== src/Parser/Reads/Symbols.antt =====
-- gen0-interp-rs/src/parser.rs: what the steps that look for a symbol or a keyword read.
use dacelo.Base.{ℕ, zero, suc, ◌≤◌, ◌≡◌, ◌≢◌, refl, arith, Bool, true, false}
use dacelo.Base.Text.{Text}
use dacelo.Lexer.{Tok}
use dacelo.Parser.{
  P, ◌>>◌, next, is_sym, is_kw, if_next, if_sym, if_kw, expect_sym, expect_kw, eat_sym, eat_kw,
}
use dacelo.Parser.Reads.{
  Reads, ReadsAt, reads_at, Outcome_shift, Reads-fewer, Reads-return, Reads-fail, Reads-zero,
  ReadsAt-step, Reads-if_peek,
}

-- `Tok::Eof` fails the test.
abbrev pub Passes : (Tok → Bool) → Type 0
Passes test = test Tok.eof ≡ false

Passes-ne_eof : (test : Tok → Bool) (t : Tok) → Passes test → test t ≡ true → t ≢ Tok.eof
Passes-ne_eof test t h e i = cc

module _ {ℓ} {A : Type ℓ} where
  pub ReadsAt-pass :
      {d f : ℕ} {p : P A} {t : Tok}
      → d ≤ 1
      → t ≢ Tok.eof
      → Reads 0 f p
      → ReadsAt d (suc f) t (next >> p)
  ReadsAt-pass h k r = ReadsAt-fewer h (ReadsAt-step k λ u. r)
    where
      ReadsAt-fewer : {d e f : ℕ} {t : Tok} {p : P A} → e ≤ d → ReadsAt d f t p → ReadsAt e f t p
      ReadsAt-fewer h (reads_at r) =
          reads_at λ u us e x l. Outcome_shift (omega arith) (r u us e x l)

  pub Reads-if_next :
      {d : ℕ} (f : ℕ) (test : Tok → Bool) {p q : P A}
      → Passes test
      → d ≤ 1
      → Reads 0 f p
      → Reads d f q
      → Reads d f (if_next test p q)
  unfolding if_next
  Reads-if_next zero test h k r s = Reads-zero
  Reads-if_next (suc f) test h k r s =
      Reads-if_peek
        (λ t e.
          ReadsAt-pass k (Passes-ne_eof test t h e) (Reads-fewer (omega arith) (omega arith) r))
        s

  pub Reads-if_sym :
      {f : ℕ} (s : Text) {p q : P A} → Reads 0 f p → Reads 0 f q → Reads 0 f (if_sym s p q)
  unfolding if_sym is_sym
  Reads-if_sym {f} s = Reads-if_next f (is_sym s) refl (omega arith)

pub Reads-expect_sym : {f : ℕ} (s : Text) → Reads 1 f (expect_sym s)
unfolding expect_sym if_sym is_sym
Reads-expect_sym {f} s =
    Reads-if_next f (is_sym s) refl (omega arith) (Reads-return tt) (Reads-fail _)

pub Reads-expect_kw : {f : ℕ} (k : Text) → Reads 1 f (expect_kw k)
unfolding expect_kw if_kw is_kw
Reads-expect_kw {f} k =
    Reads-if_next f (is_kw k) refl (omega arith) (Reads-return tt) (Reads-fail _)

pub Reads-eat_sym : {f : ℕ} (s : Text) → Reads 0 f (eat_sym s)
unfolding eat_sym if_sym is_sym
Reads-eat_sym {f} s =
    Reads-if_next f (is_sym s) refl (omega arith) (Reads-return true) (Reads-return false)

pub Reads-eat_kw : {f : ℕ} (k : Text) → Reads 0 f (eat_kw k)
unfolding eat_kw if_kw is_kw
Reads-eat_kw {f} k =
    Reads-if_next f (is_kw k) refl (omega arith) (Reads-return true) (Reads-return false)
