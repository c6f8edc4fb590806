-- ===== src/Psi/Pmt/Add.antt =====
-- `psi_pmt_section_stream_add`, step by step along the section.
use sptsmuxer.Base.{
  ℕ, ◌+◌, ◌-◌, ◌*◌, ◌/◌, ◌%◌, ◌^◌, ◌≤◌, ◌<◌, ◌≡◌, refl, sym, arith, [], ◌∷◌, ◌++◌, Bytes, length,
  length-append, length-drop, u8, u16, ◌>>>◌, sub32, bit_and, drop, ◌⊎◌, le→not_ltb, All-append,
  store-append, ok, append_assoc, bit_or,
}
use sptsmuxer.Bits.{low_byte}
use sptsmuxer.Crc.{calc_crc32, crc_bytes}
use sptsmuxer.Psi.{
  PsiPmtSection, stream_type_video_h264, stream_type_audio_aac, psi_pmt_section_stream_add,
  note_stream, stream_type_byte,
}
use sptsmuxer.Psi.Section.{length-crc_bytes-append, message, closed, write_crc_lem, pid_bytes_lem}
use sptsmuxer.Psi.Pmt.Defs.{
  Pmt, entry, entries, body, IsPid, Holds, IsClosed, length-entries, entries-append,
}

abbrev pub IsStreamType : ℕ → Type 0
IsStreamType kind = (kind ≡ stream_type_video_h264) ⊎ (kind ≡ stream_type_audio_aac)

-- `psi_pmt_section_stream_add` appends a stream and closes the section.
module _ (section : PsiPmtSection) (pmt : Pmt) (h : Holds section pmt) (kind pid : ℕ)
    (known : IsStreamType kind) (hp : pid < 2 ^ 13) (room : 9 ≤ length h.rest) where
  abbrev pub with_stream : Pmt
  with_stream = record pmt { streams = pmt.streams ++ ((kind, pid) ∷ []) }

  -- the length of the section, before and after
  abbrev len : ℕ
  len = 13 + 5 * length pmt.streams

  abbrev pub after_add : PsiPmtSection
  after_add = record {
    section_info = note_stream (record section.section_info { section_length = len + 5 }) kind pid;
    content = closed (message 2 pmt.program (body with_stream)) (drop 4 (drop 5 h.rest));
  }

  new_length : u16 (section.section_info.section_length + 5) ≡ len + 5
  new_length = omega (arith, h.measured, h.size)

  length-body : 9 + length (body with_stream) ≡ len + 5
  length-body = omega (
    arith,
    length-entries (pmt.streams ++ ((kind, pid) ∷ [])),
    length-append pmt.streams ((kind, pid) ∷ []),
  )

  length_low : bit_and 0xff (len + 5) ≡ 9 + length (body with_stream)
  length_low = omega (arith, low_byte (len + 5), length-body, h.size)

  length_high : u8 (bit_or 0xb0 ((len + 5) >>> 8)) ≡ 0xb0
  length_high = let none_above : (len + 5) / 2 ^ 8 ≡ 0 = omega (arith, h.size) in rw none_above refl

  type_byte : stream_type_byte kind ≡ kind ∷ []
  unfolding stream_type_byte
  type_byte = ground arith

  listed_lem :
      (rest : Bytes)
      → entries pmt.streams ++ (entry kind pid ++ rest)
        ≡ entries (pmt.streams ++ ((kind, pid) ∷ [])) ++ rest
  listed_lem rest =
      rw (entries-append pmt.streams kind pid)
        (sym (append_assoc (entries pmt.streams) (entry kind pid) rest))

  -- the section up to its streams, with the new length
  abbrev front : Bytes
  front =
      2
      ∷ 0xb0
      ∷ (9 + length (body with_stream))
      ∷ (pmt.program / 2 ^ 8)
      ∷ (pmt.program % 2 ^ 8)
      ∷ 0xc1
      ∷ 0
      ∷ 0
      ∷ (224 + pmt.pcr / 2 ^ 8)
      ∷ (pmt.pcr % 2 ^ 8)
      ∷ 0xf0
      ∷ 0
      ∷ []

  pub stream_add_lem : psi_pmt_section_stream_add section kind pid ≡ ok after_add
  unfolding psi_pmt_section_stream_add
  stream_add_lem =
      rw
        (
          new_length,
          h.layout,
          pid_bytes_lem pid hp,
          length_low,
          length_high,
          type_byte,
          le→not_ltb (len + 5) 5 (omega arith),
          store-append (0 ∷ 2 ∷ [])
              (0xb0 ∷ (9 + length (body pmt)) ∷ (drop 3 front ++ (entries pmt.streams ++ h.rest)))
              (0xb0 ∷ (9 + length (body with_stream)) ∷ []) 2 refl (omega arith),
          ← append_assoc front (entries pmt.streams) h.rest,
          store-append (0 ∷ (front ++ entries pmt.streams)) h.rest (entry kind pid) (len + 5 - 5)
              (omega (arith, length-entries pmt.streams)) (omega arith),
          listed_lem (drop 5 h.rest),
          write_crc_lem (message 2 pmt.program (body with_stream)) (drop 5 h.rest)
              (sub32 (len + 5) 1) (len + 5 - 5 + 5) (omega (arith, length-body, h.size))
              (omega (arith, length-body)) (omega (arith, length-drop 5 h.rest)),
        )
        refl

  pub stream_add-Holds : Holds after_add with_stream
  unfolding note_stream
  stream_add-Holds = record {
    rest =
        crc_bytes (calc_crc32 (message 2 pmt.program (body with_stream))) ++ drop 4 (drop 5 h.rest);
    layout = refl;
    measured = ground (arith, length-append pmt.streams ((kind, pid) ∷ []));
    size = omega (
      arith,
      h.size,
      length-append pmt.streams ((kind, pid) ∷ []),
      length-drop 4 (drop 5 h.rest),
      length-drop 5 h.rest,
      length-crc_bytes-append (calc_crc32 (message 2 pmt.program (body with_stream)))
          (drop 4 (drop 5 h.rest)),
    );
    program_info = ground (arith, h.program_info);
    pcr_info = ground (arith, h.pcr_info);
    room = omega (
      arith,
      length-crc_bytes-append (calc_crc32 (message 2 pmt.program (body with_stream)))
          (drop 4 (drop 5 h.rest)),
    );
    program_range = h.program_range;
    pcr_range = h.pcr_range;
    stream_range = All-append IsPid pmt.streams ((kind, pid) ∷ []) h.stream_range (hp, tt);
  }

  pub stream_add-IsClosed : IsClosed after_add with_stream
  stream_add-IsClosed = record { behind = drop 4 (drop 5 h.rest); sealed = refl }
