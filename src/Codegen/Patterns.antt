-- ===== src/Codegen/Patterns.antt =====
-- gen2-dcc-rs/src/codegen.rs, `match_pat`: the test of a value against a pattern.
use dacelo.Base.{ℕ, suc, ◌+◌, ◌*◌, Bool, true, false, List, [], ◌∷◌, if◌then◌else◌, ◌==◌}
use dacelo.Base.Int.{pos}
use dacelo.Base.Text.{Text, codes}
use dacelo.Codegen.{
  ◌>>=◌, ◌>>◌, Method, return, assert, emit, call_rt, use_extern, ctor, x0, x1, r10, hdr, tag_tuple,
  tag_adt, tagged_int, tagged_bool, nullary_with_args, arity_mismatch,
}
use dacelo.Codegen.Data.{intern_str, intern_nullary_ctor}
use dacelo.Codegen.Frames.{spill_slot, push_scope}
use dacelo.Encoder.{r9, ne}
use dacelo.Encoder.Program.{Op}
use dacelo.Syntax.{Lit, Pattern, Patterns, wildcard, p_lit, p_tuple, p_ctor, p_nil, p_cons}

unfoldable pub patterns_len : Patterns → ℕ
patterns_len p_nil = 0
patterns_len (p_cons p ps) = suc (patterns_len ps)

abbrev pub is_empty : Patterns → Bool
is_empty p_nil = true
is_empty (p_cons p ps) = false

-- The word in r10 compared with `reg`, and the jump to `fail` if they differ.
unfoldable pub or_fail : ℕ → ℕ → List Op
or_fail reg fail = Op.cmp_reg reg r10 ∷ Op.b_cond ne fail ∷ []

-- The word at offset `off` of the value in slot `sv` compared with a constant.
unfoldable pub check_word : ℕ → ℕ → ℕ → ℕ → List Op
unfolding or_fail
check_word sv off expected fail =
    Op.ldr_slot r9 sv
    ∷ Op.ldr_off r9 r9 (pos off)
    ∷ Op.load_const_u64 r10 expected
    ∷ or_fail r9 fail

unfoldable pub match_lit : Lit → ℕ → ℕ → Method (Unit {0})
unfolding emit or_fail intern_str spill_slot call_rt use_extern
match_lit (Lit.int k) reg fail = emit (Op.load_const_i64 r10 (tagged_int k) ∷ or_fail reg fail)
match_lit (Lit.bool b) reg fail =
    emit (Op.load_const_i64 r10 (pos (tagged_bool b)) ∷ or_fail reg fail)
match_lit (Lit.str s) reg fail = do
  sym ← intern_str s
  sv ← spill_slot
  emit (Op.str_slot reg sv ∷ Op.ldr_lit_extern x0 sym ∷ Op.ldr_slot x1 sv ∷ [])
  call_rt (codes "dc_val_eq")
  emit (Op.cmp_imm x0 7 ∷ Op.b_cond ne fail ∷ [])
match_lit Lit.unit reg fail = do
  use_extern (codes "_dc_unit_block")
  emit (Op.ldr_lit_extern r10 (codes "_dc_unit_block") ∷ or_fail reg fail)

unfoldable pub match_nullary : Text → Bool → ℕ → ℕ → Method (Unit {0})
unfolding assert intern_nullary_ctor emit or_fail
match_nullary name empty reg fail = do
  assert nullary_with_args empty
  sym ← intern_nullary_ctor name
  emit (Op.ldr_lit_extern r10 sym ∷ or_fail reg fail)

-- The value of `reg` in a new slot.
unfoldable pub spill : ℕ → Method ℕ
unfolding spill_slot emit return
spill reg = do s ← spill_slot; emit (Op.str_slot reg s ∷ []); return s

-- The header and the tag of a constructor of `arity` fields, against a pattern of `n`; the slot of
-- the value.
unfoldable pub match_object : ℕ → ℕ → ℕ → ℕ → ℕ → Method ℕ
unfolding assert spill emit check_word return
match_object id arity n reg fail = do
  assert arity_mismatch (n == arity)
  sv ← spill reg
  emit (check_word sv 0 (hdr tag_adt (2 + arity)) fail)
  emit (check_word sv 8 id fail)
  return sv

unfoldable mutual
  unfolding return emit spill push_scope match_lit check_word ctor match_nullary match_object

  pub match_pat : Pattern → ℕ → ℕ → Method (Unit {0})
  match_pat wildcard reg fail = return tt
  match_pat (Pattern.var n) reg fail = do s ← spill reg; push_scope n s
  match_pat (p_lit l) reg fail = match_lit l reg fail
  match_pat (p_tuple ps) reg fail = do
    sv ← spill reg
    emit (check_word sv 0 (hdr tag_tuple (1 + patterns_len ps)) fail)
    match_fields ps sv 1 fail
  match_pat (p_ctor name ps) reg fail = do
    (id, arity) ← ctor name
    (if arity == 0
        then match_nullary name (is_empty ps) reg fail
        else (match_object id arity (patterns_len ps) reg fail >>= λ sv. match_fields ps sv 2 fail))

  -- The patterns against the words of the value in slot `sv`, from number `i` on.
  pub match_fields : Patterns → ℕ → ℕ → ℕ → Method (Unit {0})
  match_fields p_nil sv i fail = return tt
  match_fields (p_cons p ps) sv i fail = do
    emit (Op.ldr_slot r9 sv ∷ Op.ldr_off r9 r9 (pos (8 * i)) ∷ [])
    match_pat p r9 fail
    match_fields ps sv (suc i) fail
