-- ===== src/Codegen/Strings.antt =====
-- The string constants of gen2-dcc-rs/src/codegen.rs: where their symbols point.
use dacelo.Base.{ℕ, ◌≡◌, List, [], ◌∷◌, ◌++◌, length}
use dacelo.Base.Text.{Text}
use dacelo.Base.Utf8.{bytes}
use dacelo.Codegen.{Codegen, Gen, ok}
use dacelo.Codegen.Data.{pad8, string_object, intern_str}
use dacelo.Infer.{Names, insert}
use dacelo.Macho.Places.{At}

-- An entry of a list of symbols.
pub data Defined (sym : Text) (off : ℕ) : List (Text × ℕ) → Type 0 where
  here : {syms : List (Text × ℕ)} → Defined sym off ((sym, off) ∷ syms)
  there :
      {entry : Text × ℕ} {syms : List (Text × ℕ)}
      → Defined sym off syms
      → Defined sym off (entry ∷ syms)

-- The symbol is defined at an offset at which the data has the object of the string.
pub record Placed (s sym : Text) (g : Codegen) : Type 0 where
  pub off : ℕ
  pub defined : Defined sym off g.data_syms
  pub there_is : At off (string_object (bytes s)) g.data_bytes

pub data AllPlaced (g : Codegen) : Names Text → Type 0 where
  no_more : AllPlaced g []
  and_more :
      {s sym : Text} {rest : Names Text}
      → Placed s sym g
      → AllPlaced g rest
      → AllPlaced g ((s, sym) ∷ rest)

-- Every string that is interned is in the data.
pub data Interned (g : Codegen) : Type 0 where
  all_placed : AllPlaced g g.str_consts → Interned g

-- The state after a new string.
abbrev after_add : Text → Text → Codegen → Codegen
after_add s sym g = record g {
  str_consts = insert g.str_consts s sym;
  data_bytes = pad8 (g.data_bytes ++ string_object (bytes s));
  data_syms = g.data_syms ++ (sym, length g.data_bytes) ∷ [];
}

-- A symbol, in a state in which it is the symbol of the string.
pub data Holds (s : Text) (g : Codegen) : Gen (Text × Codegen) → Type 0 where
  holds_now :
      {sym : Text} {h : Codegen}
      → Interned h
      → Placed s sym h
      → intern_str s h ≡ ok (sym, h)
      → Holds s g (ok (sym, h))
