-- ===== src/Psi/Pmt/Init.antt =====
-- `psi_pmt_section_init` and `psi_pmt_section_pcr_pid_set`, step by step along the section.
use sptsmuxer.Base.{
  ℕ, ◌+◌, ◌/◌, ◌%◌, ◌^◌, ◌<◌, ◌≡◌, refl, arith, [], ◌∷◌, ◌++◌, length, length-drop, sub32, drop,
  store-append, ok,
}
use sptsmuxer.Crc.{calc_crc32, crc_bytes}
use sptsmuxer.Psi.{PsiPmtSection, psi_pmt_section_init, psi_pmt_section_pcr_pid_set}
use sptsmuxer.Psi.Section.{
  length-crc_bytes-append, message, closed, section_header_set_lem, write_crc_lem, pid_bytes_lem,
}
use sptsmuxer.Psi.Pmt.Defs.{Pmt, entries, body, Holds, IsClosed, length-entries}

abbrev pub empty_pmt : ℕ → Pmt
empty_pmt program = record { program = program; pcr = 0; streams = [] }

-- psi_pmt_section_init makes the empty table of the program in the 184 bytes of a payload.
pub init-Holds :
    (section : PsiPmtSection) (program : ℕ)
    → length section.content ≡ 184
    → program < 2 ^ 16
    → (out : PsiPmtSection) × (psi_pmt_section_init section program ≡ ok out)
      × Holds out (empty_pmt program)
unfolding psi_pmt_section_init
init-Holds section program size h = (
  record {
    section_info = record {
      section_length = 0x0d;
      program_number = program;
      pcr_pid = 0;
      program_info_length = 0;
      video_pid = 0;
      video_stream_type = 0;
      audio_pid = 0;
      audio_stream_type = 0;
    };
    content = 0 ∷ (message 2 program (body (empty_pmt program)) ++ drop 4 (drop 9 section.content));
  },
  rw
      (
        section_header_set_lem section.content 2 program (omega arith) h,
        store-append (0 ∷ 2 ∷ 0xb0 ∷ 13 ∷ (program / 2 ^ 8) ∷ (program % 2 ^ 8) ∷ 0xc1 ∷ 0 ∷ 0 ∷ [])
            (drop 9 section.content) (0xe0 ∷ 0x00 ∷ 0xf0 ∷ 0x00 ∷ []) 9 refl
            (omega (arith, length-drop 9 section.content)),
      )
      refl,
  record {
    rest = drop 4 (drop 9 section.content);
    layout = refl;
    measured = refl;
    size = omega (arith, length-drop 9 section.content, length-drop 4 (drop 9 section.content));
    program_info = refl;
    pcr_info = refl;
    room = omega (arith, length-drop 9 section.content, length-drop 4 (drop 9 section.content));
    program_range = h;
    pcr_range = omega arith;
    stream_range = tt;
  },
)

-- `psi_pmt_section_pcr_pid_set` sets the PID of the clock and closes the section.
module _ (section : PsiPmtSection) (pmt : Pmt) (h : Holds section pmt) (pid : ℕ)
    (hp : pid < 2 ^ 13) where
  abbrev pub with_pcr : Pmt
  with_pcr = record pmt { pcr = pid }

  abbrev pub after_pcr : PsiPmtSection
  after_pcr = record {
    section_info = record section.section_info { pcr_pid = pid };
    content = closed (message 2 pmt.program (body with_pcr)) (drop 4 h.rest);
  }

  pub pcr_pid_set_lem : psi_pmt_section_pcr_pid_set section pid ≡ ok after_pcr
  unfolding psi_pmt_section_pcr_pid_set
  pcr_pid_set_lem =
      rw
        (
          h.layout,
          pid_bytes_lem pid hp,
          store-append
              (0
                ∷ 2
                ∷ 0xb0
                ∷ (9 + length (body pmt))
                ∷ (pmt.program / 2 ^ 8)
                ∷ (pmt.program % 2 ^ 8)
                ∷ 0xc1
                ∷ 0
                ∷ 0
                ∷ [])
              ((224 + pmt.pcr / 2 ^ 8)
                ∷ (pmt.pcr % 2 ^ 8)
                ∷ 0xf0
                ∷ 0
                ∷ (entries pmt.streams ++ h.rest))
              ((224 + pid / 2 ^ 8) ∷ (pid % 2 ^ 8) ∷ []) 9 refl (omega arith),
          write_crc_lem (message 2 pmt.program (body with_pcr)) h.rest
              (sub32 section.section_info.section_length 1) section.section_info.section_length
              (omega (arith, h.measured, h.size, length-entries pmt.streams))
              (omega (arith, h.measured, length-entries pmt.streams)) h.room,
        )
        refl

  pub pcr_pid_set-Holds : Holds after_pcr with_pcr
  pcr_pid_set-Holds = record {
    rest = crc_bytes (calc_crc32 (message 2 pmt.program (body with_pcr))) ++ drop 4 h.rest;
    layout = refl;
    measured = h.measured;
    size = omega (
      arith,
      h.size,
      h.room,
      length-drop 4 h.rest,
      length-crc_bytes-append (calc_crc32 (message 2 pmt.program (body with_pcr))) (drop 4 h.rest),
    );
    program_info = h.program_info;
    pcr_info = refl;
    room = omega (
      arith,
      length-crc_bytes-append (calc_crc32 (message 2 pmt.program (body with_pcr))) (drop 4 h.rest),
    );
    program_range = h.program_range;
    pcr_range = hp;
    stream_range = h.stream_range;
  }

  pub pcr_pid_set-IsClosed : IsClosed after_pcr with_pcr
  pcr_pid_set-IsClosed = record { behind = drop 4 h.rest; sealed = refl }
