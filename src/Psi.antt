-- ===== src/Psi.antt =====
-- psi.c and psi.h: the sections of the program association table (PAT) and of the program map
-- table (PMT). `data` points into a packet; here it is the bytes of the packet from there on.
pub mod Section
pub mod Pmt
pub mod Pat
use sptsmuxer.Base.{
  ℕ, ◌+◌, ◌-◌, ◌^◌, [], ◌∷◌, ◌++◌, bit_and, bit_or, u8, u16, sub32, ◌<<<◌, ◌>>>◌, Bytes, Result, ok,
  fault, out_of_bounds, ◌>>=◌, store, load, length, ltb, ◌==◌, if◌then◌else◌,
}
use sptsmuxer.Crc.{calc_crc32, crc_bytes}

abbrev pub pat_pid : ℕ
pat_pid = 0x0

abbrev pub psi_section_header_length : ℕ
psi_section_header_length = 8

abbrev pub stream_type_reserved : ℕ
stream_type_reserved = 0x00

abbrev pub stream_type_video_h264 : ℕ
stream_type_video_h264 = 0x1b

abbrev pub stream_type_audio_aac : ℕ
stream_type_audio_aac = 0x0f

pub record PsiSectionHeadInfo : Type 0 where
  pub table_id : ℕ
  pub section_length : ℕ
  pub id : ℕ
  pub version_number : ℕ
  pub section_number : ℕ
  pub last_section_number : ℕ

pub record PsiPmtSectionInfo : Type 0 where
  pub section_length : ℕ
  pub program_number : ℕ
  pub pcr_pid : ℕ
  pub program_info_length : ℕ
  pub video_pid : ℕ
  pub video_stream_type : ℕ
  pub audio_pid : ℕ
  pub audio_stream_type : ℕ

pub record PsiPmtSection : Type 0 where
  pub section_info : PsiPmtSectionInfo
  pub content : Bytes

-- The pointer field and the eight bytes of the header of a section.
unfoldable pub section_header_bytes : PsiSectionHeadInfo → Bytes
section_header_bytes info =
    0
    ∷ info.table_id
    ∷ u8 (bit_or 0xb0 (info.section_length >>> 8))
    ∷ bit_and 0xff info.section_length
    ∷ u8 (info.id >>> 8)
    ∷ bit_and 0xff info.id
    ∷ u8 (bit_or (bit_or 0xc0 (info.version_number <<< 1)) 0x01)
    ∷ info.section_number
    ∷ info.last_section_number
    ∷ []

unfoldable pub psi_section_header_set : Bytes → PsiSectionHeadInfo → Result Bytes
psi_section_header_set psi info = store psi 0 (section_header_bytes info)

-- A PID behind three reserved bits: `0xe0 | pid >> 8` and `0xff & pid`.
unfoldable pub pid_bytes : ℕ → Bytes
pid_bytes pid = u8 (bit_or 0xe0 (pid >>> 8)) ∷ bit_and 0xff pid ∷ []

-- The checksum of the `datalen` bytes behind the pointer field, stored at `off`.
unfoldable pub write_crc : Bytes → ℕ → ℕ → Result Bytes
write_crc section datalen off = do
  message ← load section 1 datalen
  store section off (crc_bytes (calc_crc32 message))

unfoldable pub psi_pat_section_set : Bytes → ℕ → ℕ → Result Bytes
psi_pat_section_set pat_section program_number pmt_pid = do
  headed ← psi_section_header_set pat_section (record {
    table_id = 0;
    section_length = 0x0d;
    id = 0x01;
    version_number = 0x0;
    section_number = 0x0;
    last_section_number = 0x0;
  })
  let buf = psi_section_header_length + 1
  listed ←
      store headed buf (u8 (program_number >>> 8) ∷ bit_and 0xff program_number ∷ pid_bytes pmt_pid)
  let buf' = buf + 4
  write_crc listed (buf' - 1) buf'

unfoldable pub psi_pmt_section_init : PsiPmtSection → ℕ → Result PsiPmtSection
psi_pmt_section_init pmt_section program_number = do
  headed ← psi_section_header_set pmt_section.content (record {
    table_id = 0x02;
    section_length = 0x0d;
    id = program_number;
    version_number = 0x0;
    section_number = 0x0;
    last_section_number = 0x0;
  })
  written ← store headed (psi_section_header_length + 1) (0xe0 ∷ 0x00 ∷ 0xf0 ∷ 0x00 ∷ [])
  ok (record {
    section_info = record {
      section_length = 0x0d;
      program_number = program_number;
      pcr_pid = 0;
      program_info_length = 0;
      video_pid = 0;
      video_stream_type = stream_type_reserved;
      audio_pid = 0;
      audio_stream_type = stream_type_reserved;
    };
    content = written;
  })

unfoldable pub psi_pmt_section_pcr_pid_set : PsiPmtSection → ℕ → Result PsiPmtSection
psi_pmt_section_pcr_pid_set pmt_section pcr_pid = do
  let info = record pmt_section.section_info { pcr_pid = pcr_pid }
  written ← store pmt_section.content (psi_section_header_length + 1) (pid_bytes pcr_pid)
  closed ← write_crc written (sub32 info.section_length 1) info.section_length
  ok (record { section_info = info; content = closed })

-- The `switch` on the stream type: the byte that it writes, if any, and the fields that it sets.
unfoldable pub stream_type_byte : ℕ → Bytes
stream_type_byte stream_type =
    if stream_type == stream_type_video_h264
    then stream_type_video_h264 ∷ []
    else (if stream_type == stream_type_audio_aac then stream_type_audio_aac ∷ [] else [])

unfoldable pub note_stream : PsiPmtSectionInfo → ℕ → ℕ → PsiPmtSectionInfo
note_stream info stream_type stream_pid =
    if stream_type == stream_type_video_h264
    then record info { video_pid = stream_pid; video_stream_type = stream_type }
    else (if stream_type == stream_type_audio_aac
        then record info { audio_pid = stream_pid; audio_stream_type = stream_type }
        else info)

-- A section length below 5, after the guint16 has wrapped, puts `buf` in front of the array.
unfoldable pub psi_pmt_section_stream_add : PsiPmtSection → ℕ → ℕ → Result PsiPmtSection
psi_pmt_section_stream_add pmt_section stream_type stream_pid =
    let section_length = u16 (pmt_section.section_info.section_length + 5) in
    let info = record pmt_section.section_info { section_length = section_length } in
    let entry = stream_type_byte stream_type ++ (pid_bytes stream_pid ++ (0xf0 ∷ 0 ∷ [])) in
    if ltb section_length 5 then fault out_of_bounds else (do
      measured ←
          store pmt_section.content 2
            (u8 (bit_or 0xb0 (section_length >>> 8)) ∷ bit_and 0xff section_length ∷ [])
      listed ← store measured (section_length - 5) entry
      closed ← write_crc listed (sub32 section_length 1) (section_length - 5 + length entry)
      ok (record { section_info = note_stream info stream_type stream_pid; content = closed }))
