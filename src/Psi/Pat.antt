-- ===== src/Psi/Pat.antt =====
-- The PAT that `psi_pat_section_set` writes, as a receiver reads it.
use sptsmuxer.Base.{
  ℕ, ◌+◌, ◌*◌, ◌/◌, ◌%◌, ◌^◌, ◌≤◌, ◌<◌, ◌≡◌, refl, arith, List, [], ◌∷◌, Bytes, length, length-drop,
  drop, Option, some, none, ◌==◌, if◌then◌else◌, store-append, ok,
}
use sptsmuxer.Bits.{low_byte}
use sptsmuxer.Psi.{psi_pat_section_set}
use sptsmuxer.Psi.Section.{
  Section, message, closed, read_section, read_section-closed, write_crc_lem, pid_bytes_lem,
  section_header_set_lem,
}

-- The programs of a PAT, each with the PID of its map.
abbrev pub read_programs : Bytes → List (ℕ × ℕ)
read_programs (n1 ∷ n0 ∷ p1 ∷ p0 ∷ rest) =
    (n1 * 2 ^ 8 + n0, p1 % 32 * 2 ^ 8 + p0) ∷ read_programs rest
read_programs _ = []

abbrev programs_of : Option Section → Option (List (ℕ × ℕ))
programs_of none = none
programs_of (some s) = if s.table_id == 0 then some (read_programs s.body) else none

unfoldable pub decode_pat : Bytes → Option (List (ℕ × ℕ))
decode_pat payload = programs_of (read_section payload)

abbrev pat_body : ℕ → ℕ → Bytes
pat_body number pid = (number / 2 ^ 8) ∷ (number % 2 ^ 8) ∷ (224 + pid / 2 ^ 8) ∷ (pid % 2 ^ 8) ∷ []

-- The section is written over the first 17 bytes and leaves the others.
pub pat_section_set_lem :
    (buf : Bytes) (number pid : ℕ)
    → 17 ≤ length buf
    → number < 2 ^ 16
    → pid < 2 ^ 13
    → psi_pat_section_set buf number pid
      ≡ ok (closed (message 0 1 (pat_body number pid)) (drop 4 (drop 4 (drop 9 buf))))
unfolding psi_pat_section_set
pat_section_set_lem buf number pid room hn hp =
    rw
      (
        section_header_set_lem buf 0 1 (omega arith) (omega arith),
        pid_bytes_lem pid hp,
        low_byte number,
        high,
        store-append (0 ∷ 0 ∷ 0xb0 ∷ 13 ∷ 0 ∷ 1 ∷ 0xc1 ∷ 0 ∷ 0 ∷ []) (drop 9 buf)
            ((number / 2 ^ 8) ∷ (number % 2 ^ 8) ∷ (224 + pid / 2 ^ 8) ∷ (pid % 2 ^ 8) ∷ []) 9 refl
            (omega (arith, length-drop 9 buf)),
      )
      (write_crc_lem (message 0 1 (pat_body number pid)) (drop 4 (drop 9 buf)) 12 13 refl refl
        (omega (arith, length-drop 9 buf, length-drop 4 (drop 9 buf))))
  where
    high : number / 2 ^ 8 % 2 ^ 8 ≡ number / 2 ^ 8
    high = omega arith

-- A receiver of the section that psi_pat_section_set writes, in any buffer that has room for it,
-- finds exactly the one program and its PID, behind a checksum that is right.
pub decode_pat-psi_pat_section_set :
    (buf : Bytes) (number pid : ℕ)
    → 17 ≤ length buf
    → number < 2 ^ 16
    → pid < 2 ^ 13
    → (out : Bytes) × (psi_pat_section_set buf number pid ≡ ok out)
      × (decode_pat out ≡ some ((number, pid) ∷ []))
unfolding decode_pat
decode_pat-psi_pat_section_set buf number pid room hn hp = (
  closed (message 0 1 (pat_body number pid)) (drop 4 (drop 4 (drop 9 buf))),
  pat_section_set_lem buf number pid room hn hp,
  rw
      (read_section-closed 0 1 (pat_body number pid) (drop 4 (drop 4 (drop 9 buf))) (omega arith)
        (omega arith))
      (ground arith),
)
