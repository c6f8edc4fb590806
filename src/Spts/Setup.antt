-- ===== src/Spts/Setup.antt =====
-- `spts_new`, `spts_add_stream` and what they call.
use sptsmuxer.Base.{
  ℕ, ◌-◌, ◌^◌, [], ◌∷◌, false, none, some, Bytes, Result, ok, ◌>>=◌, store, memset, replicate,
  from_offset, ◌==◌, if◌then◌else◌, drop, take, ◌++◌,
}
use sptsmuxer.Psi.{
  PsiPmtSectionInfo, pat_pid, psi_pat_section_set, psi_pmt_section_init, stream_type_video_h264,
}
use sptsmuxer.Pes.{stream_id_audio, stream_id_video}
use sptsmuxer.Ts.{
  TsPacket, TsPacketHeaderInfo, spts_tspacket_new, spts_tspacket_header_init, tspacket_length,
  scrambling_ctl_not_scrambled, adaptation_field_payload_only,
}
use sptsmuxer.Spts.State.{
  SpTs, SpTsStream, program_number, pmt_pid, video_pid, audio_pid, default_pcr_interval,
}

-- The header that each of the three callers sets up, for its PID. No one sets or reads
-- `transport_error_indicator`.
abbrev pub header_info : ℕ → TsPacketHeaderInfo
header_info pid = record {
  transport_error_indicator = 0;
  payload_unit_start_indicator = 0x40;
  transport_priority = 0x20;
  pid = pid;
  transport_scrambling_control = scrambling_ctl_not_scrambled;
  adaptation_field_control = adaptation_field_payload_only;
  continuity_counter = 0x0;
}

unfoldable pub spts_psi_pat_init : Result TsPacket
spts_psi_pat_init = do
  pat ← spts_tspacket_new (header_info pat_pid)
  written ←
      from_offset 4 (λ section. psi_pat_section_set section program_number pmt_pid) pat.content
  ok (record pat { content = written })

-- The section is zeroed with the rest of `spts`, and points behind the header of the packet.
unfoldable pub spts_psi_pmt_init : Result (TsPacket × PsiPmtSectionInfo)
spts_psi_pmt_init = do
  pmt_tspacket ← spts_tspacket_new (header_info pmt_pid)
  section ←
      psi_pmt_section_init
        (record {
          section_info = record {
            section_length = 0;
            program_number = 0;
            pcr_pid = 0;
            program_info_length = 0;
            video_pid = 0;
            video_stream_type = 0;
            audio_pid = 0;
            audio_stream_type = 0;
          };
          content = drop 4 pmt_tspacket.content;
        })
        program_number
  ok (
    record pmt_tspacket { content = take 4 pmt_tspacket.content ++ section.content },
    section.section_info,
  )

unfoldable pub spts_null_packet_init : Bytes → Result Bytes
spts_null_packet_init nullpacket = do
  headed ← store nullpacket 0 (0x47 ∷ 0x1f ∷ 0xff ∷ 0x10 ∷ [])
  memset headed 4 0xff (tspacket_length - 4)

unfoldable pub spts_new : Result SpTs
spts_new = do
  pat ← spts_psi_pat_init
  (pmt_tspacket, section_info) ← spts_psi_pmt_init
  nullpacket ← spts_null_packet_init (replicate tspacket_length 0)
  ok (record {
    transport_id = 0;
    pat = pat;
    pmt_tspacket = pmt_tspacket;
    nullpacket = nullpacket;
    pmt_section_info = section_info;
    audio_stream = none;
    video_stream = none;
    last_psi_ts = 0;
    packets_counter = 0;
    gop_counter = 0;
    last_pcr_ts = 2 ^ 64 - 1;
    pcr_interval = default_pcr_interval;
    psi_interval = 1000;
    muxrate = 0;
  })

-- The stream that `spts_add_stream` makes, for the stream id and the PID of its branch.
unfoldable pub new_stream : ℕ → ℕ → Result SpTsStream
new_stream stream_id pid = do
  tspacket ← spts_tspacket_header_init (replicate tspacket_length 0) (header_info pid)
  ok (record {
    tspacket_header_info = header_info pid;
    tspacket = tspacket;
    pcr_reference = false;
    packets_counter = 0;
    last_gop_packets_counter = 0;
    max_gop_packets = 0;
    frames_counter = 0;
    last_gop_frames_counter = 0;
    pes_header_info = record {
      stream_id = stream_id;
      pes_packet_length = 0;
      pes_header_flag = 0x8080;
      pes_header_data_length = 0x05;
      pts = 0;
      dts = 0;
    };
  })

-- `stream_pid` is not used.
unfoldable pub spts_add_stream : SpTs → ℕ → ℕ → Result SpTs
spts_add_stream spts stream_type stream_pid =
    if stream_type == stream_type_video_h264
    then (do
      stream ← new_stream stream_id_video video_pid
      ok (record spts { video_stream = some stream }))
    else (do
      stream ← new_stream stream_id_audio audio_pid
      ok (record spts { audio_stream = some stream }))
