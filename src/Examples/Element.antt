-- ===== src/Examples/Element.antt =====
-- The element on concrete pads and packets, and the state that it sets up.
use sptsmuxer.Base.{
  ℕ, zero, suc, ◌≡◌, memset, store, load, refl, arith, List, [], ◌∷◌, true, false, Option, none,
  some, Bytes, ok, fault, out_of_bounds, replicate,
}
use sptsmuxer.Crc.{calc_crc32, crc_round, crc_rounds, crc_bytes}
use sptsmuxer.Crc.Table.{crc_tab}
use sptsmuxer.Ts.{spts_tspacket_new, spts_tspacket_header_init, header_bytes}
use sptsmuxer.Ts.Header.{packet}
use sptsmuxer.Psi.{
  psi_pat_section_set, psi_section_header_set, section_header_bytes, pid_bytes, write_crc,
  psi_pmt_section_init, note_stream, psi_pmt_section_pcr_pid_set, psi_pmt_section_stream_add,
  stream_type_byte,
}
use sptsmuxer.Spts.State.{pmt_pid}
use sptsmuxer.Spts.Setup.{
  spts_new, spts_psi_pat_init, spts_psi_pmt_init, spts_null_packet_init, new_stream,
  spts_add_stream,
}
use sptsmuxer.Muxer.{
  MuxerState, sptsmuxer_init, request_stream, request_pad, sptsmuxer_request_new_pad,
  set_pcr_reference, push_packets, sptsmuxer_set_property, pushbuf_size, next_collectdata,
}
use sptsmuxer.Muxer.Choice.{AllTimed, Choice, next_collectdata-IsEarliest}
use sptsmuxer.Muxer.Unsized.{push_packets_unsized, push_packets_overrun}
use sptsmuxer.Examples.{ready, two_streams}

ready_lem : two_streams ≡ ok ready
unfolding two_streams sptsmuxer_init spts_new spts_psi_pat_init spts_tspacket_new memset store
    header_bytes psi_pat_section_set psi_section_header_set section_header_bytes pid_bytes write_crc
    load crc_bytes spts_psi_pmt_init psi_pmt_section_init spts_null_packet_init crc_tab calc_crc32
    crc_round crc_rounds set_pcr_reference sptsmuxer_request_new_pad request_stream request_pad
    note_stream psi_pmt_section_pcr_pid_set psi_pmt_section_stream_add stream_type_byte new_stream
    spts_add_stream spts_tspacket_header_init
ready_lem = refl

-- g_malloc, with its documented result for 0, and a new GstBuffer of zeros
abbrev pub g_malloc : ℕ → Option Bytes
g_malloc zero = none
g_malloc (suc n) = some (replicate (suc n) 0)

abbrev pub new_buffer : ℕ → Bytes
new_buffer n = replicate n 0

abbrev heads : List (Option ℕ)
heads = none ∷ some 7 ∷ some 3 ∷ some 3 ∷ []

heads-AllTimed : AllTimed heads
heads-AllTimed zero e = cc
heads-AllTimed (suc zero) e = cc
heads-AllTimed (suc (suc zero)) e = cc
heads-AllTimed (suc (suc (suc zero))) e = cc
heads-AllTimed (suc (suc (suc (suc k)))) e = cc

second_earliest : next_collectdata 0 heads none ≡ some (2, 3)
unfolding next_collectdata
second_earliest = refl

next_collectdata-IsEarliest_example : Choice 0 heads
next_collectdata-IsEarliest_example = next_collectdata-IsEarliest heads heads-AllTimed

abbrev muxer : MuxerState
muxer = record {
  numvideosinkpads = 1;
  numaudiosinkpads = 1;
  collect = [] ∷ [] ∷ [];
  first = true;
  pushbufsize = 2;
  pushbufused = 1;
  pushbuf = some (replicate 376 1);
  spts = ready;
}

abbrev packets : List Bytes
packets = replicate 188 5 ∷ replicate 188 6 ∷ []

-- A new element.
abbrev fresh : MuxerState
fresh = record {
  numvideosinkpads = 0;
  numaudiosinkpads = 0;
  collect = [];
  first = true;
  pushbufsize = 0;
  pushbufused = 0;
  pushbuf = none;
  spts = record ready {
    pmt_tspacket = record {
      pcr_reference = false;
      content =
          packet 1 pmt_pid 1 0 (
            0 ∷ 2 ∷ 0xb0 ∷ 13 ∷ 0 ∷ 0x16 ∷ 0xc1 ∷ 0 ∷ 0 ∷ 0xe0 ∷ 0 ∷ 0xf0 ∷ 0 ∷ replicate 171 0xff);
    };
    pmt_section_info = record {
      section_length = 13;
      program_number = 0x16;
      pcr_pid = 0;
      program_info_length = 0;
      video_pid = 0;
      video_stream_type = 0;
      audio_pid = 0;
      audio_stream_type = 0;
    };
    audio_stream = none;
    video_stream = none;
  };
}

fresh_lem : sptsmuxer_init none ≡ ok fresh
unfolding sptsmuxer_init spts_new spts_psi_pat_init spts_tspacket_new memset store header_bytes
    psi_pat_section_set psi_section_header_set section_header_bytes pid_bytes write_crc load
    crc_bytes spts_psi_pmt_init psi_pmt_section_init spts_null_packet_init crc_tab calc_crc32
    crc_round crc_rounds
fresh_lem = refl

-- A new element behind another one that has a push buffer of one packet.
abbrev second : MuxerState
second = record fresh { pushbuf = some (replicate 188 0) }

second_lem : sptsmuxer_init (some (replicate 188 0)) ≡ ok second
unfolding sptsmuxer_init spts_new spts_psi_pat_init spts_tspacket_new memset store header_bytes
    psi_pat_section_set psi_section_header_set section_header_bytes pid_bytes write_crc load
    crc_bytes spts_psi_pmt_init psi_pmt_section_init spts_null_packet_init crc_tab calc_crc32
    crc_round crc_rounds
second_lem = refl

push_packets_unsized_example :
    push_packets g_malloc new_buffer second packets ≡ ok (second, [] ∷ [] ∷ [])
push_packets_unsized_example =
    push_packets_unsized g_malloc new_buffer (some (replicate 188 0)) second packets refl second_lem
      (refl, (refl, tt))

push_packets_overrun_example :
    push_packets g_malloc new_buffer (sptsmuxer_set_property second pushbuf_size 7) packets
    ≡ fault out_of_bounds
push_packets_overrun_example =
    push_packets_overrun g_malloc new_buffer 7 1 (replicate 188 0) second packets (omega arith)
      (omega arith) refl second_lem (omega arith) (refl, (refl, tt))
