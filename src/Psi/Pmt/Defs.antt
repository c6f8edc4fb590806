-- ===== src/Psi/Pmt/Defs.antt =====
-- The table that a section of the PMT stands for, its layout, and its receiver.
use sptsmuxer.Base.{
  ℕ, zero, suc, ◌+◌, ◌*◌, ◌/◌, ◌%◌, ◌^◌, ◌≤◌, ◌<◌, ◌≡◌, refl, ap, arith, List, [], ◌∷◌, ◌++◌, Bytes,
  length, drop, Option, some, none, ◌==◌, if◌then◌else◌, All,
}
use sptsmuxer.Psi.{PsiPmtSection}
use sptsmuxer.Psi.Section.{Section, message, closed, read_section, read_section-closed}

pub record Pmt : Type 0 where
  pub program : ℕ
  pub pcr : ℕ
  pub streams : List (ℕ × ℕ)

-- One stream: its type, its PID, and no descriptors.
abbrev pub entry : ℕ → ℕ → Bytes
entry kind pid = kind ∷ (224 + pid / 2 ^ 8) ∷ (pid % 2 ^ 8) ∷ 0xf0 ∷ 0 ∷ []

abbrev pub entries : List (ℕ × ℕ) → Bytes
entries [] = []
entries ((kind, pid) ∷ rest) = entry kind pid ++ entries rest

abbrev pub body : Pmt → Bytes
body pmt = (224 + pmt.pcr / 2 ^ 8) ∷ (pmt.pcr % 2 ^ 8) ∷ 0xf0 ∷ 0 ∷ entries pmt.streams

abbrev pub IsPid : ℕ × ℕ → Type 0
IsPid s = s.1 < 2 ^ 13

-- The section holds the table, in the 184 bytes of a payload; its checksum may be out of date.
pub record Holds (section : PsiPmtSection) (pmt : Pmt) : Type 0 where
  pub rest : Bytes
  pub layout : section.content ≡ 0 ∷ (message 2 pmt.program (body pmt) ++ rest)
  pub measured : section.section_info.section_length ≡ 13 + 5 * length pmt.streams
  pub size : 13 + 5 * length pmt.streams + length rest ≡ 184
  pub program_info : section.section_info.program_number ≡ pmt.program
  pub pcr_info : section.section_info.pcr_pid ≡ pmt.pcr
  pub room : 4 ≤ length rest
  pub program_range : pmt.program < 2 ^ 16
  pub pcr_range : pmt.pcr < 2 ^ 13
  pub stream_range : All IsPid pmt.streams

-- Its checksum is right.
pub record IsClosed (section : PsiPmtSection) (pmt : Pmt) : Type 0 where
  pub behind : Bytes
  pub sealed : section.content ≡ closed (message 2 pmt.program (body pmt)) behind

pub length-entries : (streams : List (ℕ × ℕ)) → length (entries streams) ≡ 5 * length streams
length-entries [] = refl
length-entries ((kind, pid) ∷ rest) = omega (arith, length-entries rest)

pub entries-append :
    (streams : List (ℕ × ℕ)) (kind pid : ℕ)
    → entries (streams ++ ((kind, pid) ∷ [])) ≡ entries streams ++ entry kind pid
entries-append [] kind pid = refl
entries-append ((k, p) ∷ rest) kind pid = ap (λ l. entry k p ++ l) (entries-append rest kind pid)

-- A receiver's list of streams; the fuel is the number of bytes.
abbrev read_streams : ℕ → Bytes → List (ℕ × ℕ)
read_streams (suc fuel) (kind ∷ p1 ∷ p0 ∷ i1 ∷ i0 ∷ rest) =
    (kind, p1 % 32 * 2 ^ 8 + p0) ∷ read_streams fuel (drop (i1 % 16 * 2 ^ 8 + i0) rest)
read_streams _ _ = []

abbrev read_body : ℕ → Bytes → Option Pmt
read_body id (p1 ∷ p0 ∷ i1 ∷ i0 ∷ rest) = some (record {
  program = id;
  pcr = p1 % 32 * 2 ^ 8 + p0;
  streams = read_streams (length rest) (drop (i1 % 16 * 2 ^ 8 + i0) rest);
})
read_body _ _ = none

abbrev pmt_of : Option Section → Option Pmt
pmt_of none = none
pmt_of (some s) = if s.table_id == 2 then read_body s.id s.body else none

unfoldable pub decode_pmt : Bytes → Option Pmt
decode_pmt payload = pmt_of (read_section payload)

read_streams-entries :
    (streams : List (ℕ × ℕ)) (fuel : ℕ)
    → length streams ≤ fuel
    → All IsPid streams
    → read_streams fuel (entries streams) ≡ streams
read_streams-entries [] zero h v = refl
read_streams-entries [] (suc fuel) h v = refl
read_streams-entries (s ∷ rest) zero h v = absurd (omega arith)
read_streams-entries ((kind, pid) ∷ rest) (suc fuel) h v =
    rw (read_streams-entries rest fuel (omega arith) v.1) (ap (λ p. (kind, p) ∷ rest) (omega arith))

-- A receiver of a section that is closed reads the table that the section holds.
pub decode_pmt_lem :
    {section : PsiPmtSection} {pmt : Pmt}
    → Holds section pmt
    → IsClosed section pmt
    → decode_pmt section.content ≡ some pmt
unfolding decode_pmt
decode_pmt_lem {section} {pmt} h c =
    rw
      (
        c.sealed,
        read_section-closed 2 pmt.program (body pmt) c.behind
            (omega (arith, h.size, h.room, length-entries pmt.streams)) h.program_range,
        read_streams-entries pmt.streams (length (entries pmt.streams))
            (omega (arith, length-entries pmt.streams)) h.stream_range,
      )
      (ground (arith, h.pcr_range))
