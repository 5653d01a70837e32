-- ===== src/Macho/Places.antt =====
-- Where a part of the object file of gen2-dcc-rs/src/macho.rs stands.
use dacelo.Base.{ℕ, ◌≡◌, sym, ap, ◌∙◌, List, [], ◌++◌, length}
use mathlib.Core.List.{append_assoc, append-nil}

-- `part` stands in `out` from byte `off` on.
abbrev pub At : ℕ → List ℕ → List ℕ → Type 0
At off part out =
    (pre : List ℕ) × (post : List ℕ) × (out ≡ pre ++ part ++ post) × (length pre ≡ off)

pub At-append :
    {off : ℕ} {part out : List ℕ} (more : List ℕ) → At off part out → At off part (out ++ more)
At-append {off} {part} {out} more (pre, post, e, len) = (
  pre,
  post ++ more,
  ap (λ (t : List ℕ). t ++ more) e ∙ append_assoc (pre ++ part) post more,
  len,
)

pub At-end : (off : ℕ) (out part : List ℕ) → length out ≡ off → At off part (out ++ part)
At-end off out part len = (out, [], sym (append-nil (out ++ part)), len)
