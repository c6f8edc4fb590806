-- ===== src/Examples.antt =====
-- Concrete states and frames, and the tests and instances on them.
pub mod Tables
pub mod Streams
pub mod Programs
pub mod Element
pub mod Whole
pub mod Life
pub mod Callback
use sptsmuxer.Base.{
  ℕ, ◌*◌, ◌/◌, ◌^◌, ◌-◌, ◌∷◌, true, false, none, some, Bytes, Result, ◌>>=◌, replicate,
}
use sptsmuxer.Ts.Header.{packet}
use sptsmuxer.Spts.State.{SpTs, Buffer, video_h264, audio_mpeg, pmt_pid, video_pid, audio_pid}
use sptsmuxer.Spts.Frame.Valid.{null_packet}
use sptsmuxer.Spts.Fresh.{stream, pat_body}
use sptsmuxer.Muxer.{
  sptsmuxer_init, sptsmuxer_request_new_pad, video_pad, audio_pad, set_pcr_reference,
}

-- gst_util_uint64_scale on numbers without bound.
abbrev pub scale : ℕ → ℕ → ℕ → ℕ
scale value num denom = value * num / denom

-- The element with one video and one audio pad, the clock set to the video stream.
unfoldable pub two_streams : Result SpTs
two_streams = do
  fresh ← sptsmuxer_init none
  (with_video, _) ← sptsmuxer_request_new_pad true true fresh video_pad
  (with_audio, _) ← sptsmuxer_request_new_pad true true with_video audio_pad
  set_pcr_reference with_audio.spts

abbrev pub pmt_body : Bytes
pmt_body =
    0
    ∷ 2
    ∷ 0xb0
    ∷ 23
    ∷ 0
    ∷ 0x16
    ∷ 0xc1
    ∷ 0
    ∷ 0
    ∷ 0xe0
    ∷ 0x40
    ∷ 0xf0
    ∷ 0
    ∷ 0x1b
    ∷ 0xe0
    ∷ 0x40
    ∷ 0xf0
    ∷ 0
    ∷ 0x0f
    ∷ 0xe0
    ∷ 0x41
    ∷ 0xf0
    ∷ 0
    ∷ 231
    ∷ 185
    ∷ 119
    ∷ 117
    ∷ replicate 157 0xff

abbrev pub ready : SpTs
ready = record {
  transport_id = 0;
  pat = record { pcr_reference = false; content = packet 1 0 1 0 pat_body };
  pmt_tspacket = record { pcr_reference = false; content = packet 1 pmt_pid 1 0 pmt_body };
  nullpacket = null_packet;
  pmt_section_info = record {
    section_length = 23;
    program_number = 0x16;
    pcr_pid = 0x40;
    program_info_length = 0;
    video_pid = 0x40;
    video_stream_type = 0x1b;
    audio_pid = 0x41;
    audio_stream_type = 0x0f;
  };
  audio_stream = some (stream 0xc0 audio_pid false);
  video_stream = some (stream 0xe0 video_pid true);
  last_psi_ts = 0;
  packets_counter = 0;
  gop_counter = 0;
  last_pcr_ts = 2 ^ 64 - 1;
  pcr_interval = 1_080_000;
  psi_interval = 1000;
  muxrate = 0;
}

-- The same after the packets of a group.
abbrev pub running : SpTs
running = record ready { packets_counter = 2102; gop_counter = 1 }

abbrev pub idr_frame : Buffer
idr_frame = record {
  caps = video_h264;
  delta_unit = false;
  timestamp = 2_000_000_000;
  bytes = replicate 400 7;
}

abbrev pub audio_frame : Buffer
audio_frame = record {
  caps = audio_mpeg;
  delta_unit = false;
  timestamp = 2_010_000_000;
  bytes = replicate 300 9;
}
