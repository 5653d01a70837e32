-- ===== src/Codegen/Framed/Object.antt =====
-- The object that `compile_program` of gen2-dcc-rs/src/codegen.rs gives.
use dacelo.Base.{ℕ, ◌%◌, ◌≡◌, Bool, List, length, some, get_elem?}
use dacelo.Base.Text.{Text, codes}
use dacelo.Codegen.{Codegen, ok}
use dacelo.Codegen.Data.{emit_ctor_names_table}
use dacelo.Codegen.Framed.Drain.{Drains}
use dacelo.Codegen.Framed.Sound.{Sound}
use dacelo.Codegen.Framed.Symbols.{Has, code_symbol}
use dacelo.Codegen.Functions.{compile_items, emit_init, emit_user_main}
use dacelo.Codegen.Object.{label_name, label_sym}
use dacelo.Encoder
use dacelo.Encoder.{Asm}
use dacelo.Encoder.Finish.{FinishedCode, finish}
use dacelo.Encoder.WellFormed.{IsWellFormed}
use dacelo.Infer.{get}
use dacelo.Macho
use dacelo.Macho.{ObjectBuilder}
use dacelo.Syntax.{Program}

-- `obj` is what becomes of `prog` from `g` on: the states behind the items, the functions that these
-- leave, the two entry points and the table of the constructors' names, and what the object has of the
-- last one.
pub record ObjectOf (prog : Program) (g : Codegen) (obj : ObjectBuilder) : Type 0 where
  pub thunks : List (ℕ × ℕ)
  pub g₁ : Codegen
  pub g₂ : Codegen
  pub g₃ : Codegen
  pub g₄ : Codegen
  pub g₅ : Codegen
  pub code : FinishedCode
  pub items : compile_items prog.items g ≡ ok (thunks, g₁)
  pub functions : Drains g₂ g₁
  pub inits : emit_init thunks g₂ ≡ ok (tt, g₃)
  pub enters : emit_user_main (get g₂.globals (codes "main")) g₃ ≡ ok (tt, g₄)
  pub names : emit_ctor_names_table g₄ ≡ ok (tt, g₅)
  pub well_formed : IsWellFormed g₅.asm
  pub finishes : finish (label_name g₅.label_syms) g₅.asm ≡ Encoder.ok code
  pub has_text : obj.text ≡ code.code
  pub symbols :
      (i l off : ℕ) (name : Text) (exported : Bool)
      → get_elem? code.label_offsets i ≡ some (l, off)
      → label_sym l g₅.label_syms ≡ some (name, exported)
      → Has (code_symbol name off exported) obj
  pub aligned : length obj.data_bytes % 8 ≡ 0
