-- ===== src/Tests/EncoderTests.antt =====
-- Tests of the model of gen2-dcc-rs/src/encoder.rs: a small program with a loop back and a call
-- through the GOT.
use dacelo.Base.{ℕ, ◌+◌, ◌^◌, ◌≡◌, ◌<◌, inl, inr, refl, List, [], ◌∷◌, none, some, arith, get_elem?}
use dacelo.Base.Int.{sub_ℕ}
use dacelo.Base.Text.{codes}
use dacelo.Base.Decimal.{to_decimal}
use dacelo.Encoder.{
  ok, CodeBuf, FixKind, new, push4, lookup, bind_label, ldr_lit_extern, emit_adrp_ldr_got,
  intern_got_slot,
}
use dacelo.Encoder.Instructions.{load_const_u64, mov, cbz, b, blr, ret, emit_fixup}
use dacelo.Encoder.Finish.{FinishedCode, branch_word, finish}
use dacelo.Encoder.Machine.{run, writes}
use dacelo.Encoder.Constants.{load_const_u64-run}
use dacelo.Encoder.Branches.{destination, branch_word-destination, b_cond_edge}
use dacelo.Encoder.Patch.{word_at}
use dacelo.Encoder.WellFormed.{IsWellFormed, new-IsWellFormed}
use dacelo.Encoder.Slots.{intern_got_slot_lem, intern_got_slot_kept, intern_got_slot_twice}
use dacelo.Encoder.Resolve.{AllResolved, Lands, NameKeys, finish-Lands, finish-Apart}
use dacelo.Encoder.Program.{Op, assemble}
use dacelo.Encoder.Invariant.{assemble-IsWellFormed}

load_const_u64-run_example :
    run 3 (load_const_u64 3 0x1_0000_0002_0003 new).code 7 ≡ some 0x1_0000_0002_0003
unfolding run writes
load_const_u64-run_example =
    load_const_u64-run 3 7 3 (omega arith) 0x1_0000_0002_0003 new 7 (omega arith) refl

branch_word-destination_example :
    (w : ℕ) × (branch_word FixKind.b (sub_ℕ 64 128) ≡ ok w)
    × (w < 2 ^ 32)
    × (destination 128 w ≡ some 64)
branch_word-destination_example = branch_word-destination FixKind.b 128 64 refl (omega arith)

b_cond_edge_example :
    (w : ℕ) × (branch_word (FixKind.b_cond 1) (sub_ℕ (2 ^ 20 + 2 ^ 20) (2 ^ 20)) ≡ ok w)
    × (destination (2 ^ 20) w ≡ some 0)
b_cond_edge_example = b_cond_edge 1 (2 ^ 20) (omega arith) (omega arith)

intern_got_slot_lem_example :
    get_elem?
      (intern_got_slot (codes "E:exit") new).1.got_slots
      (intern_got_slot (codes "E:exit") new).0
    ≡ some (codes "E:exit")
intern_got_slot_lem_example = intern_got_slot_lem (codes "E:exit") new new-IsWellFormed

-- L0: mov x0, x1; cbz x0, L1; bl-through-GOT of `exit`; b L0; L1: ret
abbrev program : List Op
program =
    Op.bind_label 0
    ∷ Op.mov 0 1
    ∷ Op.cbz 0 1
    ∷ Op.ldr_lit_extern 16 (codes "exit")
    ∷ Op.blr 16
    ∷ Op.b 0
    ∷ Op.bind_label 1
    ∷ Op.ret
    ∷ []

abbrev buffer : CodeBuf
buffer = record {
  code =
      224 ∷ 3 ∷ 1 ∷ 170 ∷ 0 ∷ 0 ∷ 0 ∷ 180 ∷ 16 ∷ 0 ∷ 0 ∷ 144 ∷ 16 ∷ 2 ∷ 64 ∷ 249 ∷ 0 ∷ 2 ∷ 63 ∷ 214
      ∷ 0 ∷ 0 ∷ 0 ∷ 20 ∷ 192 ∷ 3 ∷ 95 ∷ 214 ∷ [];
  labels = some 0 ∷ some 24 ∷ none ∷ none ∷ none ∷ none ∷ none ∷ none ∷ [];
  fixups =
      record { pos = 4; label = 1; kind = FixKind.cbz 0 }
      ∷ record { pos = 20; label = 0; kind = FixKind.b }
      ∷ [];
  got_slots = codes "E:exit" ∷ [];
  got_map = (codes "E:exit", 0) ∷ [];
  adrp_refs = record { pos = 8; reg = 16; slot = 0 } ∷ [];
  pool_base = 0;
}

program_builds : assemble program new ≡ ok buffer
unfolding assemble mov cbz b blr ret push4 emit_fixup bind_label ldr_lit_extern emit_adrp_ldr_got
    intern_got_slot lookup
program_builds = refl

buffer-IsWellFormed : IsWellFormed buffer
buffer-IsWellFormed =
    assemble-IsWellFormed program new (omega arith) new-IsWellFormed program_builds

assemble-IsWellFormed_example : IsWellFormed buffer
assemble-IsWellFormed_example =
    assemble-IsWellFormed program new (omega arith) new-IsWellFormed program_builds

buffer_resolved : AllResolved buffer.labels buffer.fixups
buffer_resolved = ((24, refl, omega arith), ((0, refl, omega arith), tt))

finish-Lands_example :
    (r : FinishedCode) × (finish to_decimal buffer ≡ ok r)
    × Lands buffer.labels r.code buffer.fixups
    × NameKeys to_decimal buffer.got_slots r.got_slots
finish-Lands_example = finish-Lands to_decimal buffer buffer-IsWellFormed buffer_resolved

abbrev done : FinishedCode
done = (finish-Lands to_decimal buffer buffer-IsWellFormed buffer_resolved).0

finish-Apart_example : word_at 8 done.code ≡ word_at 8 buffer.code
finish-Apart_example =
    finish-Apart to_decimal buffer 8 buffer-IsWellFormed buffer_resolved
      (finish-Lands to_decimal buffer buffer-IsWellFormed buffer_resolved).1
      (inl (omega arith), (inr (omega arith), tt))

intern_got_slot_kept_example :
    get_elem? (intern_got_slot (codes "L:3") buffer).1.got_slots 0 ≡ some (codes "E:exit")
intern_got_slot_kept_example = intern_got_slot_kept (codes "L:3") buffer 0 (codes "E:exit") refl

intern_got_slot_twice_example :
    intern_got_slot (codes "L:3") (intern_got_slot (codes "L:3") buffer).1
    ≡ ((intern_got_slot (codes "L:3") buffer).0, (intern_got_slot (codes "L:3") buffer).1)
intern_got_slot_twice_example = intern_got_slot_twice (codes "L:3") buffer buffer-IsWellFormed
