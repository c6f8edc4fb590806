-- ===== src/Spts/Frame/Valid.antt =====
-- The state between two frames, once both streams are there.
use sptsmuxer.Base.{ℕ, ◌^◌, ◌<◌, ◌≡◌, ◌∷◌, some, Bytes, length, replicate}
use sptsmuxer.Ts.Header.{packet}
use sptsmuxer.Spts.State.{SpTs, SpTsStream, video_pid, audio_pid, pmt_pid}
use sptsmuxer.Spts.Packets.Whole.{IsReady}

-- PID 0x1fff, payload only.
abbrev pub null_packet : Bytes
null_packet = 0x47 ∷ 0x1f ∷ 0xff ∷ 0x10 ∷ replicate 184 0xff

pub record IsMuxing (spts : SpTs) : Type 0 where
  pub video : SpTsStream
  pub audio : SpTsStream
  pub video_counter : ℕ
  pub audio_counter : ℕ
  pub has_video : spts.video_stream ≡ some video
  pub has_audio : spts.audio_stream ≡ some audio
  pub video_ready : IsReady video video_pid video_counter
  pub audio_ready : IsReady audio audio_pid audio_counter
  pub video_id : video.pes_header_info.stream_id ≡ 0xe0
  pub audio_id : audio.pes_header_info.stream_id ≡ 0xc0
  pub pat_counter : ℕ
  pub pat_body : Bytes
  pub pat_at : spts.pat.content ≡ packet 1 0 1 pat_counter pat_body
  pub pat_full : length pat_body ≡ 184
  pub pat_bits : pat_counter < 16
  pub pmt_counter : ℕ
  pub pmt_body : Bytes
  pub pmt_at : spts.pmt_tspacket.content ≡ packet 1 pmt_pid 1 pmt_counter pmt_body
  pub pmt_full : length pmt_body ≡ 184
  pub pmt_bits : pmt_counter < 16
  pub null_at : spts.nullpacket ≡ null_packet
  pub count_bits : spts.packets_counter < 2 ^ 64
