-- ===== src/Examples/Tables.antt =====
-- Checksums, tables, headers and the clock on concrete bytes.
use sptsmuxer.Base.{
  ◌+◌, ◌^◌, ◌≡◌, refl, inl, arith, [], ◌∷◌, ◌++◌, some, Bytes, ok, replicate, store,
}
use sptsmuxer.Crc.{calc_crc32, crc_bytes}
use sptsmuxer.Crc.Residue.{calc_crc32-append-crc_bytes}
use sptsmuxer.Crc.Bitwise.{crc32_mpeg2, calc_crc32-eq-crc32_mpeg2}
use sptsmuxer.Pes.{PesHeaderInfo, pes_header_bytes}
use sptsmuxer.Pes.Decode.{decode_pes, decode_pes-pes_header_bytes}
use sptsmuxer.Ts.{pcr_bytes}
use sptsmuxer.Ts.Decode.{read_pcr, read_pcr-pcr_bytes}
use sptsmuxer.Psi.{
  PsiPmtSection, psi_pat_section_set, psi_pmt_section_init, psi_pmt_section_pcr_pid_set,
  psi_pmt_section_stream_add, psi_section_header_set, section_header_bytes,
}
use sptsmuxer.Psi.Pat.{decode_pat, decode_pat-psi_pat_section_set}
use sptsmuxer.Psi.Pmt.Defs.{Pmt, Holds, IsClosed, decode_pmt}
use sptsmuxer.Psi.Pmt.Init.{empty_pmt, init-Holds}
use sptsmuxer.Psi.Pmt.Ops.{pcr_pid_set_refines, stream_add_refines}
use sptsmuxer.Spts.Fresh.{fresh_info}

-- "123456789", the usual check of a CRC-32/MPEG-2
abbrev digits : Bytes
digits = 0x31 ∷ 0x32 ∷ 0x33 ∷ 0x34 ∷ 0x35 ∷ 0x36 ∷ 0x37 ∷ 0x38 ∷ 0x39 ∷ []

check_value : calc_crc32 digits ≡ 0x0376_e6e7
unfolding calc_crc32
check_value = refl

calc_crc32-eq-crc32_mpeg2_example : calc_crc32 digits ≡ crc32_mpeg2 digits
calc_crc32-eq-crc32_mpeg2_example = calc_crc32-eq-crc32_mpeg2 digits (omega arith)

calc_crc32-append-crc_bytes_example : calc_crc32 (digits ++ crc_bytes (calc_crc32 digits)) ≡ 0
calc_crc32-append-crc_bytes_example = calc_crc32-append-crc_bytes digits

abbrev info : PesHeaderInfo
info = record (fresh_info 0xc0) { pes_packet_length = 3; pts = 2 ^ 33 + 5 }

decode_pes-pes_header_bytes_example :
    decode_pes (pes_header_bytes info ++ (1 ∷ 2 ∷ 3 ∷ []))
    ≡ some (record { stream_id = 0xc0; packet_length = 11; pts = 5 }, 1 ∷ 2 ∷ 3 ∷ [])
decode_pes-pes_header_bytes_example = decode_pes-pes_header_bytes info (1 ∷ 2 ∷ 3 ∷ []) refl refl

read_pcr-pcr_bytes_example :
    read_pcr (0x10 ∷ (pcr_bytes 123_456_789 ++ (0xff ∷ []))) ≡ some 123_456_789
read_pcr-pcr_bytes_example = read_pcr-pcr_bytes 123_456_789 (0xff ∷ []) (omega arith)

decode_pat-psi_pat_section_set_example :
    (out : Bytes) × (psi_pat_section_set (replicate 184 0xff) 0x16 0x20 ≡ ok out)
    × (decode_pat out ≡ some ((0x16, 0x20) ∷ []))
decode_pat-psi_pat_section_set_example =
    decode_pat-psi_pat_section_set (replicate 184 0xff) 0x16 0x20 (omega arith) (omega arith)
      (omega arith)

abbrev blank : PsiPmtSection
blank = record {
  section_info = record {
    section_length = 0;
    program_number = 0;
    pcr_pid = 0;
    program_info_length = 0;
    video_pid = 0;
    video_stream_type = 0;
    audio_pid = 0;
    audio_stream_type = 0;
  };
  content = replicate 184 0xff;
}

init-Holds_example :
    (out : PsiPmtSection) × (psi_pmt_section_init blank 0x16 ≡ ok out) × Holds out (empty_pmt 0x16)
init-Holds_example = init-Holds blank 0x16 (omega arith) (omega arith)

-- The empty table of the program 0x16, as `psi_pmt_section_init` leaves it.
abbrev section : PsiPmtSection
section = record {
  section_info = record blank.section_info { section_length = 13; program_number = 0x16 };
  content = 0 ∷ 2 ∷ 0xb0 ∷ 13 ∷ 0 ∷ 0x16 ∷ 0xc1 ∷ 0 ∷ 0 ∷ 0xe0 ∷ 0 ∷ 0xf0 ∷ 0 ∷ replicate 171 0xff;
}

section_is_initial : psi_pmt_section_init blank 0x16 ≡ ok section
unfolding psi_pmt_section_init psi_section_header_set section_header_bytes store
section_is_initial = refl

section-Holds : Holds section (empty_pmt 0x16)
section-Holds = record {
  rest = replicate 171 0xff;
  layout = refl;
  measured = refl;
  size = refl;
  program_info = refl;
  pcr_info = refl;
  room = omega arith;
  program_range = omega arith;
  pcr_range = omega arith;
  stream_range = tt;
}

pcr_pid_set_refines_example :
    (out : PsiPmtSection) × (psi_pmt_section_pcr_pid_set section 0x40 ≡ ok out)
    × Holds out (record (empty_pmt 0x16) { pcr = 0x40 })
    × IsClosed out (record (empty_pmt 0x16) { pcr = 0x40 })
    × (decode_pmt out.content ≡ some (record (empty_pmt 0x16) { pcr = 0x40 }))
pcr_pid_set_refines_example = pcr_pid_set_refines 0x40 (omega arith) section-Holds

abbrev with_video : Pmt
with_video = record (empty_pmt 0x16) { streams = (0x1b, 0x40) ∷ [] }

stream_add_refines_example :
    (out : PsiPmtSection) × (psi_pmt_section_stream_add section 0x1b 0x40 ≡ ok out)
    × Holds out with_video
    × IsClosed out with_video
    × (decode_pmt out.content ≡ some with_video)
stream_add_refines_example =
    stream_add_refines 0x1b 0x40 (inl refl) (omega arith) (omega arith) section-Holds
