-- ===== src/Lexer/Counters.antt =====
-- The line and the column that `lex` of gen0-interp-rs/src/lexer.rs counts in a `u32` each, which
-- are natural numbers in the model.
use dacelo.Base.{◌^◌, ◌<◌, List, [], ◌∷◌}
use dacelo.Base.Text.{Text}
use dacelo.Lexer.{Token}

-- Every token has a line and a column of 32 bits.
pub data Counted : List Token → Type 0 where
  none_left : Counted []
  counted :
      {t : Token} {ts : List Token}
      → t.line < 2 ^ 32
      → t.col < 2 ^ 32
      → Counted ts
      → Counted (t ∷ ts)
