-- ===== src/Spts/Fresh.antt =====
-- The state that `spts_new` makes, and the streams of `spts_add_stream`.
use sptsmuxer.Base.{
  ℕ, ◌<◌, ◌^◌, ◌-◌, ◌≡◌, refl, [], ◌∷◌, Bool, false, Option, none, some, Bytes, ok, replicate,
  store, memset, load, arith,
}
use sptsmuxer.Crc.{calc_crc32, crc_round, crc_rounds, crc_bytes}
use sptsmuxer.Crc.Table.{crc_tab}
use sptsmuxer.Ts.{spts_tspacket_new, spts_tspacket_header_init, header_bytes}
use sptsmuxer.Ts.Header.{packet}
use sptsmuxer.Pes.{PesHeaderInfo}
use sptsmuxer.Psi.{
  PsiPmtSection, psi_pat_section_set, psi_section_header_set, section_header_bytes, pid_bytes,
  write_crc, psi_pmt_section_init, stream_type_video_h264, stream_type_audio_aac,
}
use sptsmuxer.Psi.Pmt.Defs.{Holds}
use sptsmuxer.Spts.State.{SpTs, SpTsStream, pmt_pid, video_pid, audio_pid}
use sptsmuxer.Spts.Setup.{
  header_info, spts_new, spts_psi_pat_init, spts_psi_pmt_init, spts_null_packet_init, new_stream,
  spts_add_stream,
}
use sptsmuxer.Spts.Packets.Whole.{IsReady}
use sptsmuxer.Spts.Frame.Valid.{null_packet}

abbrev pub fresh_info : ℕ → PesHeaderInfo
fresh_info stream_id = record {
  stream_id = stream_id;
  pes_packet_length = 0;
  pes_header_flag = 0x8080;
  pes_header_data_length = 5;
  pts = 0;
  dts = 0;
}

abbrev pub stream : ℕ → ℕ → Bool → SpTsStream
stream stream_id pid pcr_reference = record {
  tspacket_header_info = header_info pid;
  tspacket = packet 1 pid 1 0 (replicate 184 0xff);
  pcr_reference = pcr_reference;
  packets_counter = 0;
  last_gop_packets_counter = 0;
  max_gop_packets = 0;
  frames_counter = 0;
  last_gop_frames_counter = 0;
  pes_header_info = fresh_info stream_id;
}

abbrev pub pat_body : Bytes
pat_body =
    0
    ∷ 0
    ∷ 0xb0
    ∷ 13
    ∷ 0
    ∷ 1
    ∷ 0xc1
    ∷ 0
    ∷ 0
    ∷ 0
    ∷ 0x16
    ∷ 0xe0
    ∷ 0x20
    ∷ 186
    ∷ 66
    ∷ 166
    ∷ 164
    ∷ replicate 167 0xff

-- The first packet of a stream is ready.
pub stream-IsReady :
    (stream_id pid : ℕ) (reference : Bool)
    → pid < 2 ^ 13
    → IsReady (stream stream_id pid reference) pid 0
stream-IsReady stream_id pid reference h = record {
  start = 1;
  control = 1;
  body = replicate 184 0xff;
  at = refl;
  full = refl;
  start_bit = omega arith;
  control_bits = omega arith;
  pid_bits = h;
  counter_bits = omega arith;
  flags = refl;
  header_length = refl;
  count_bits = omega arith;
}

-- The table without a stream.
abbrev pub first_section : PsiPmtSection
first_section = record {
  section_info = record {
    section_length = 13;
    program_number = 0x16;
    pcr_pid = 0;
    program_info_length = 0;
    video_pid = 0;
    video_stream_type = 0;
    audio_pid = 0;
    audio_stream_type = 0;
  };
  content = 0 ∷ 2 ∷ 0xb0 ∷ 13 ∷ 0 ∷ 0x16 ∷ 0xc1 ∷ 0 ∷ 0 ∷ 0xe0 ∷ 0 ∷ 0xf0 ∷ 0 ∷ replicate 171 0xff;
}

-- The state with these two streams and this PMT, before the first frame.
abbrev pub set_up : PsiPmtSection → Option SpTsStream → Option SpTsStream → SpTs
set_up section video audio = record {
  transport_id = 0;
  pat = record { pcr_reference = false; content = packet 1 0 1 0 pat_body };
  pmt_tspacket = record { pcr_reference = false; content = packet 1 pmt_pid 1 0 section.content };
  nullpacket = null_packet;
  pmt_section_info = section.section_info;
  audio_stream = audio;
  video_stream = video;
  last_psi_ts = 0;
  packets_counter = 0;
  gop_counter = 0;
  last_pcr_ts = 2 ^ 64 - 1;
  pcr_interval = 1_080_000;
  psi_interval = 1000;
  muxrate = 0;
}

pub spts_new-set_up : spts_new ≡ ok (set_up first_section none none)
unfolding spts_new spts_psi_pat_init spts_tspacket_new memset store header_bytes psi_pat_section_set
    psi_section_header_set section_header_bytes pid_bytes write_crc load crc_bytes spts_psi_pmt_init
    psi_pmt_section_init spts_null_packet_init crc_tab calc_crc32 crc_round crc_rounds
spts_new-set_up = refl

pub first_section-Holds : Holds first_section (record { program = 0x16; pcr = 0; streams = [] })
first_section-Holds = record {
  rest = replicate 171 0xff;
  layout = refl;
  measured = refl;
  size = refl;
  program_info = refl;
  pcr_info = refl;
  room = omega arith;
  program_range = omega arith;
  pcr_range = omega arith;
  stream_range = tt;
}

abbrev pub new_video : SpTsStream
new_video = stream 0xe0 video_pid false

abbrev pub new_audio : SpTsStream
new_audio = stream 0xc0 audio_pid false

pub add_video_lem :
    (section : PsiPmtSection) (video audio : Option SpTsStream) (pid : ℕ)
    → spts_add_stream (set_up section video audio) stream_type_video_h264 pid
      ≡ ok (set_up section (some new_video) audio)
unfolding spts_add_stream new_stream spts_tspacket_header_init header_bytes store memset
add_video_lem section video audio pid = refl

pub add_audio_lem :
    (section : PsiPmtSection) (video audio : Option SpTsStream) (pid : ℕ)
    → spts_add_stream (set_up section video audio) stream_type_audio_aac pid
      ≡ ok (set_up section video (some new_audio))
unfolding spts_add_stream new_stream spts_tspacket_header_init header_bytes store memset
add_audio_lem section video audio pid = refl
