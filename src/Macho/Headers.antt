-- ===== src/Macho/Headers.antt =====
-- The segment header and the section headers of gen2-dcc-rs/src/macho.rs.
use dacelo.Base.{ℕ, ◌+◌, ◌*◌, ◌%◌, ◌^◌, List, ◌++◌, replicate}
use dacelo.Encoder.{le32}
use dacelo.Macho.{Built, ok, ◌>>=◌, le64, put}

-- `emit_section_header_full`; a name is written into a field of 16 zeros first.
unfoldable pub emit_section_header_full :
    List ℕ → List ℕ → List ℕ → ℕ → ℕ → ℕ → ℕ → ℕ → ℕ → Built (List ℕ)
emit_section_header_full out sectname segname addr size fileoff align_log2 reloff nreloc = do
  sn ← put (replicate 16 0) 0 sectname
  s0 ← put (replicate 80 0) 0 sn
  sg ← put (replicate 16 0) 0 segname
  s1 ← put s0 16 sg
  s2 ← put s1 32 (le64 addr)
  s3 ← put s2 40 (le64 size)
  s4 ← put s3 48 (le32 (fileoff % 2 ^ 32))
  s5 ← put s4 52 (le32 align_log2)
  s6 ← put s5 56 (le32 (reloff % 2 ^ 32))
  s7 ← put s6 60 (le32 (nreloc % 2 ^ 32))
  ok (out ++ s7)

unfoldable pub emit_segment_header : List ℕ → List ℕ → ℕ → ℕ → ℕ → Built (List ℕ)
emit_segment_header out segname vmsize fileoff nsects = do
  sg ← put (replicate 16 0) 0 segname
  let rest =
      le64 0
      ++ le64 vmsize
      ++ le64 fileoff
      ++ le64 vmsize
      ++ le32 7
      ++ le32 7
      ++ le32 nsects
      ++ le32 0
  ok (out ++ (le32 0x19 ++ le32 ((72 + 80 * nsects) % 2 ^ 32) ++ (sg ++ rest)))

-- `m` succeeds with a result for which `P` holds.
pub data Succeeds {A : Type 0} (P : A → Type 0) : Built A → Type 0 where
  gives : {a : A} → P a → Succeeds P (ok a)
