-- ===== src/Spts/Frame.antt =====
-- `spts_write_frame`: the choice of the stream, the start of a group of pictures, and the packets
-- of the frame.
pub mod Valid
pub mod Gop
pub mod Carry
pub mod Audio
pub mod Video
pub mod Faults
pub mod Expected
pub mod Shown
pub mod Parts
pub mod Stepped
pub mod StepVideo
pub mod StepAudio
pub mod Run
pub mod Multiplexed
pub mod Program
use sptsmuxer.Base.{
  ℕ, zero, suc, ◌+◌, ◌-◌, ◌*◌, ◌^◌, List, [], ◌∷◌, ◌++◌, some, u64, sub64, Bytes, Result, ok, fault,
  out_of_fuel, uninitialised, deref, ◌>>=◌, ltb, ◌==◌, if◌then◌else◌,
}
use sptsmuxer.Ts.{spts_tspacket_header_cc_inc}
use sptsmuxer.Spts.State.{SpTs, SpTsStream, Buffer, video_h264, audio_mpeg, other_caps}
use sptsmuxer.Spts.Packets.{write_stream}

-- 1830+270+2
abbrev pub gop_packets : ℕ
gop_packets = 2102

-- `while (spts->packets_counter < spts->gop_counter * (1830+270+2))`, on fuel: the null packets,
-- and the counter.
unfoldable pub write_nulls : ℕ → Bytes → ℕ → ℕ → Result (ℕ × List Bytes)
write_nulls zero nullpacket packets_counter target = fault out_of_fuel
write_nulls (suc fuel) nullpacket packets_counter target =
    let more = (do
      (done, packets) ← write_nulls fuel nullpacket (u64 (packets_counter + 1)) target
      ok (done, nullpacket ∷ packets)) in
    if ltb packets_counter target then more else ok (packets_counter, [])

unfoldable pub spts_psi_write : SpTs → Result (SpTs × List Bytes)
spts_psi_write spts = do
  pat ← spts_tspacket_header_cc_inc spts.pat.content
  pmt ← spts_tspacket_header_cc_inc spts.pmt_tspacket.content
  ok (
    record spts {
      pat = record spts.pat { content = pat };
      pmt_tspacket = record spts.pmt_tspacket { content = pmt };
      packets_counter = u64 (u64 (spts.packets_counter + 1) + 1);
    },
    spts.pat.content ∷ spts.pmt_tspacket.content ∷ [],
  )

-- The packets of the group that ends, noted in a stream.
unfoldable pub note_gop : SpTsStream → SpTsStream
note_gop stream =
    let packets = sub64 stream.packets_counter stream.last_gop_packets_counter in
    record stream {
      max_gop_packets =
          if ltb stream.max_gop_packets packets then packets else stream.max_gop_packets;
      last_gop_packets_counter = stream.packets_counter;
    }

-- An IDR frame of the stream `video`, whose frame is counted: the padding, the two tables and the
-- statistics. `audio_stream` is not tested for NULL.
unfoldable pub begin_gop : SpTs → SpTsStream → Result (SpTs × SpTsStream × List Bytes)
begin_gop spts video = do
  let target = u64 (spts.gop_counter * gop_packets)
  (packets_counter, nulls) ←
      write_nulls (suc (target - spts.packets_counter)) spts.nullpacket spts.packets_counter target
  (written, tables) ← spts_psi_write (record spts { packets_counter = packets_counter })
  let video' = note_gop (record video { last_gop_frames_counter = video.frames_counter })
  audio ← deref written.audio_stream
  ok (
    record written {
      gop_counter = u64 (written.gop_counter + 1);
      audio_stream = some (note_gop audio);
    },
    video',
    nulls ++ tables,
  )

-- `uint64_scale val num denom` is gst_util_uint64_scale.
module _ (uint64_scale : ℕ → ℕ → ℕ → ℕ) where
  -- GSTTIME_TO_MPEGTIME
  unfoldable pub gsttime_to_mpegtime : ℕ → ℕ
  gsttime_to_mpegtime time = uint64_scale time 90000 1_000_000_000

  unfoldable pub write_video : SpTs → Buffer → Result (SpTs × List Bytes)
  write_video spts buffer = do
    stream ← deref spts.video_stream
    let counted = record stream { frames_counter = u64 (stream.frames_counter + 1) }
    (begun, video, tables) ←
        (if buffer.delta_unit then ok (spts, counted, []) else begin_gop spts counted)
    (sent, packets_counter, packets) ←
        write_stream video begun.packets_counter (gsttime_to_mpegtime buffer.timestamp) buffer.bytes
    ok (
      record begun { video_stream = some sent; packets_counter = packets_counter },
      tables ++ packets,
    )

  -- Nothing is written before the first video frame.
  unfoldable pub write_audio : SpTs → Buffer → Result (SpTs × List Bytes)
  write_audio spts buffer = if spts.packets_counter == 0 then ok (spts, []) else (do
    stream ← deref spts.audio_stream
    (sent, packets_counter, packets) ←
        write_stream stream spts.packets_counter (gsttime_to_mpegtime buffer.timestamp) buffer.bytes
    ok (record spts { audio_stream = some sent; packets_counter = packets_counter }, packets))

  -- With other caps `stream` is used though no branch has set it. A call that returns returns TRUE.
  unfoldable pub spts_write_frame : SpTs → Buffer → Result (SpTs × List Bytes)
  spts_write_frame spts buffer = elim buffer.caps [
    | video_h264 ↦ write_video spts buffer
    | audio_mpeg ↦ write_audio spts buffer
    | other_caps ↦ fault uninitialised
  ]
