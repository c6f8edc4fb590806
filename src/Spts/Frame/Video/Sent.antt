-- ===== src/Spts/Frame/Video/Sent.antt =====
-- `spts_write_frame` on a video frame: its branch from what its parts return, and what it leaves.
use sptsmuxer.Base.{
  ℕ, suc, ◌+◌, ◌-◌, ◌*◌, ◌/◌, ◌%◌, ◌^◌, ◌<◌, ◌≡◌, refl, ◌∙◌, ap, arith, List, [], ◌∷◌, ◌++◌, some,
  Bytes, Result, ok, fault, uninitialised, deref, length, replicate, u64, if◌then◌else◌,
}
use sptsmuxer.Spts.State.{SpTs, SpTsStream, Buffer, video_h264, audio_mpeg, other_caps, video_pid}
use sptsmuxer.Spts.Packets.{write_stream}
use sptsmuxer.Spts.Packets.First.{Fits, capacity, clock_if}
use sptsmuxer.Spts.Packets.Whole.{IsReady, Delivered, write_stream-Delivered}
use sptsmuxer.Spts.Frame.{
  begin_gop, gop_packets, gsttime_to_mpegtime, write_video, write_audio, spts_write_frame,
}
use sptsmuxer.Spts.Frame.Carry.{Carries, HasClock}
use sptsmuxer.Spts.Frame.Valid.{IsMuxing}

-- The branch of a video frame, from what its parts return.
pub write_video_returns :
    (uint64_scale : ℕ → ℕ → ℕ → ℕ) (spts : SpTs) (buffer : Buffer) {stream v sent : SpTsStream}
    {b : SpTs} {tables packets : List Bytes} {total : ℕ}
    → buffer.caps ≡ video_h264
    → deref spts.video_stream ≡ ok stream
    → (if buffer.delta_unit
        then ok (spts, record stream { frames_counter = u64 (stream.frames_counter + 1) }, [])
        else begin_gop spts (record stream { frames_counter = u64 (stream.frames_counter + 1) }))
      ≡ ok (b, v, tables)
    → write_stream v b.packets_counter
        (uint64_scale buffer.timestamp 90000 1_000_000_000)
        buffer.bytes
      ≡ ok (sent, total, packets)
    → spts_write_frame uint64_scale spts buffer
      ≡ ok (record b { video_stream = some sent; packets_counter = total }, tables ++ packets)
unfolding spts_write_frame write_video gsttime_to_mpegtime
write_video_returns uint64_scale spts buffer {b = b} {tables = tables} caps has_video start
      written =
    ap
      (λ name. elim name as (λ _. Result (SpTs × List Bytes)) [
        | video_h264 ↦ write_video uint64_scale spts buffer
        | audio_mpeg ↦ write_audio uint64_scale spts buffer
        | other_caps ↦ fault uninitialised
      ])
      caps
    ∙ rw (has_video, start, written) refl

module _ (uint64_scale : ℕ → ℕ → ℕ → ℕ) (spts : SpTs) (m : IsMuxing spts) (buffer : Buffer)
    (small : length buffer.bytes < 2 ^ 32 - 22) where
  abbrev pub pts : ℕ
  pts = uint64_scale buffer.timestamp 90000 1_000_000_000

  -- What comes before the packets of the frame itself.
  abbrev pub tables : List Bytes
  tables =
      if buffer.delta_unit
      then []
      else replicate (spts.gop_counter * gop_packets - spts.packets_counter) spts.nullpacket
        ++ (spts.pat.content ∷ spts.pmt_tspacket.content ∷ [])

  -- The continuity counter of a table.
  abbrev pub table_counter : ℕ → ℕ
  table_counter counter = if buffer.delta_unit then counter else (counter + 1) % 16

  pub record VideoSent : Type 0 where
    pub out : SpTs
    pub packets : List Bytes
    pub returns : spts_write_frame uint64_scale spts buffer ≡ ok (out, tables ++ packets)
    pub carries :
        Carries video_pid m.video_counter packets
          (record { stream_id = 0xe0; packet_length = 0; pts = pts % 2 ^ 33 })
          buffer.bytes
    pub clock : HasClock packets (clock_if m.video.pcr_reference pts)
    pub number :
        length packets ≡ 1 + (length buffer.bytes - capacity m.video.pcr_reference + 183) / 184
    pub count : out.packets_counter ≡ u64 (spts.packets_counter + length (tables ++ packets))
    pub next : IsMuxing out
    pub next_counter : next.video_counter ≡ (m.video_counter + length packets) % 16
    pub audio_kept : next.audio_counter ≡ m.audio_counter
    pub pat_kept : (next.pat_body ≡ m.pat_body) × (next.pat_counter ≡ table_counter m.pat_counter)
    pub pmt_kept : (next.pmt_body ≡ m.pmt_body) × (next.pmt_counter ≡ table_counter m.pmt_counter)
    pub reference_kept :
        (next.video.pcr_reference ≡ m.video.pcr_reference)
        × (next.audio.pcr_reference ≡ m.audio.pcr_reference)
    pub gops :
        out.gop_counter
        ≡ (if buffer.delta_unit then spts.gop_counter else u64 (spts.gop_counter + 1))

  -- From the state before the packets of the frame, with its stream.
  module _ (b : SpTs) (mb : IsMuxing b) (v : SpTsStream)
      (ready : IsReady v video_pid m.video_counter) (id : v.pes_header_info.stream_id ≡ 0xe0)
      (fits : Fits v.pcr_reference (length buffer.bytes)) where
    abbrev pub delivered :
        Delivered v video_pid m.video_counter b.packets_counter pts buffer.bytes
          (write_stream v b.packets_counter pts buffer.bytes)
    delivered =
        write_stream-Delivered v video_pid m.video_counter b.packets_counter pts buffer.bytes ready
          small fits

    abbrev pub video_out : SpTs
    video_out = record b { video_stream = some delivered.out; packets_counter = delivered.total }

    abbrev pub video_next : IsMuxing video_out
    video_next = record {
      video = delivered.out;
      audio = mb.audio;
      video_counter = (m.video_counter + suc (length delivered.others)) % 16;
      audio_counter = mb.audio_counter;
      has_video = refl;
      has_audio = mb.has_audio;
      video_ready = delivered.ready;
      audio_ready = mb.audio_ready;
      video_id = delivered.kept.1 ∙ id;
      audio_id = mb.audio_id;
      pat_counter = mb.pat_counter;
      pat_body = mb.pat_body;
      pat_at = mb.pat_at;
      pat_full = mb.pat_full;
      pat_bits = mb.pat_bits;
      pmt_counter = mb.pmt_counter;
      pmt_body = mb.pmt_body;
      pmt_at = mb.pmt_at;
      pmt_full = mb.pmt_full;
      pmt_bits = mb.pmt_bits;
      null_at = mb.null_at;
      count_bits = total_bits;
    }
      where
        total_bits : delivered.total < 2 ^ 64
        total_bits = omega (arith, delivered.all_count)
