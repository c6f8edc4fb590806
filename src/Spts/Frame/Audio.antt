-- ===== src/Spts/Frame/Audio.antt =====
-- `spts_write_frame` on an audio frame, with both streams there: what it leaves and has written.
use sptsmuxer.Base.{
  ℕ, suc, ◌+◌, ◌-◌, ◌/◌, ◌%◌, ◌^◌, ◌<◌, ◌≡◌, refl, ◌∙◌, arith, List, ◌∷◌, false, some, Bytes, ok,
  length, u64, ◌==◌,
}
use sptsmuxer.Spts.State.{SpTs, Buffer, audio_mpeg, audio_pid}
use sptsmuxer.Spts.Packets.{write_stream}
use sptsmuxer.Spts.Packets.First.{Fits, capacity, clock_if}
use sptsmuxer.Spts.Packets.Whole.{Delivered, write_stream-Delivered}
use sptsmuxer.Spts.Frame.{gsttime_to_mpegtime, write_audio, spts_write_frame}
use sptsmuxer.Spts.Frame.Carry.{Carries, HasClock, Delivered-Carries, Delivered-HasClock}
use sptsmuxer.Spts.Frame.Valid.{IsMuxing}

module _ (uint64_scale : ℕ → ℕ → ℕ → ℕ) (spts : SpTs) (m : IsMuxing spts) (buffer : Buffer)
    (small : length buffer.bytes < 2 ^ 32 - 22) where
  abbrev pub pts : ℕ
  pts = uint64_scale buffer.timestamp 90000 1_000_000_000

  -- An audio frame, behind the first video frame.
  pub record AudioSent : Type 0 where
    pub out : SpTs
    pub packets : List Bytes
    pub returns : spts_write_frame uint64_scale spts buffer ≡ ok (out, packets)
    pub carries :
        Carries audio_pid m.audio_counter packets
          (record {
            stream_id = 0xc0;
            packet_length = (length buffer.bytes + 8) % 2 ^ 16;
            pts = pts % 2 ^ 33;
          })
          buffer.bytes
    pub clock : HasClock packets (clock_if m.audio.pcr_reference pts)
    pub number :
        length packets ≡ 1 + (length buffer.bytes - capacity m.audio.pcr_reference + 183) / 184
    pub count : out.packets_counter ≡ u64 (spts.packets_counter + length packets)
    pub next : IsMuxing out
    pub next_counter : next.audio_counter ≡ (m.audio_counter + length packets) % 16
    pub video_kept : next.video ≡ m.video
    pub video_counter_kept : next.video_counter ≡ m.video_counter
    pub pat_kept : (next.pat_body ≡ m.pat_body) × (next.pat_counter ≡ m.pat_counter)
    pub pmt_kept : (next.pmt_body ≡ m.pmt_body) × (next.pmt_counter ≡ m.pmt_counter)
    pub reference_kept : next.audio.pcr_reference ≡ m.audio.pcr_reference
    pub gops : out.gop_counter ≡ spts.gop_counter

  module _ (caps : buffer.caps ≡ audio_mpeg) (behind : 0 < spts.packets_counter)
      (fits : Fits m.audio.pcr_reference (length buffer.bytes)) where
    audio_delivered :
        Delivered m.audio audio_pid m.audio_counter spts.packets_counter pts buffer.bytes
          (write_stream m.audio spts.packets_counter pts buffer.bytes)
    audio_delivered =
        write_stream-Delivered m.audio audio_pid m.audio_counter spts.packets_counter pts
          buffer.bytes m.audio_ready small fits

    open audio_delivered use {out as sent, total, first, others}

    abbrev audio_out : SpTs
    audio_out = record spts { audio_stream = some sent; packets_counter = total }

    abbrev audio_next : IsMuxing audio_out
    audio_next = record {
      video = m.video;
      audio = sent;
      video_counter = m.video_counter;
      audio_counter = (m.audio_counter + suc (length others)) % 16;
      has_video = m.has_video;
      has_audio = refl;
      video_ready = m.video_ready;
      audio_ready = audio_delivered.ready;
      video_id = m.video_id;
      audio_id = audio_delivered.kept.1 ∙ m.audio_id;
      pat_counter = m.pat_counter;
      pat_body = m.pat_body;
      pat_at = m.pat_at;
      pat_full = m.pat_full;
      pat_bits = m.pat_bits;
      pmt_counter = m.pmt_counter;
      pmt_body = m.pmt_body;
      pmt_at = m.pmt_at;
      pmt_full = m.pmt_full;
      pmt_bits = m.pmt_bits;
      null_at = m.null_at;
      count_bits = total_bits;
    }
      where
        total_bits : total < 2 ^ 64
        total_bits = omega (arith, audio_delivered.all_count)

    -- An audio frame below 2^32 - 22 bytes (not of 169 bytes when the stream carries no clock),
    -- from a state that satisfies the invariant and in which a packet has been counted: the call
    -- succeeds; a receiver of the PID gets the frame back behind a PES header with its time stamp
    -- and, as the length, that of the frame with 8 more, modulo 2^16; the first packet has the
    -- clock exactly when the stream carries it, the packets are as few as their capacity allows
    -- and all are counted, and the state satisfies the invariant again.
    pub audio-AudioSent : AudioSent
    unfolding spts_write_frame write_audio gsttime_to_mpegtime
    audio-AudioSent = record {
      out = audio_out;
      packets = first ∷ others;
      returns = rw (caps, not_zero, m.has_audio, audio_delivered.returns) refl;
      carries = rw m.audio_id at (Delivered-Carries small m.audio_ready audio_delivered);
      clock = Delivered-HasClock audio_delivered;
      number = omega (arith, audio_delivered.number);
      count = omega (arith, audio_delivered.all_count);
      next = audio_next;
      next_counter = refl;
      video_kept = refl;
      video_counter_kept = refl;
      pat_kept = (refl, refl);
      pmt_kept = (refl, refl);
      reference_kept = audio_delivered.kept.0;
      gops = refl;
    }
      where
        not_zero : (spts.packets_counter == 0) ≡ false
        not_zero = ground arith
