-- ===== src/Spts/Frame/Stepped.antt =====
-- One frame from a state that satisfies the invariant: what the call leaves and has written.
use sptsmuxer.Base.{
  ℕ, ◌+◌, ◌-◌, ◌*◌, ◌^◌, ◌≤◌, ◌<◌, ◌≡◌, ◌⊎◌, List, Bool, Bytes, ok, u64, ltb, length,
}
use sptsmuxer.Spts.State.{SpTs, Buffer, video_h264, audio_mpeg}
use sptsmuxer.Spts.Packets.First.{Fits}
use sptsmuxer.Spts.Frame.{gop_packets, spts_write_frame}
use sptsmuxer.Spts.Frame.Valid.{IsMuxing}
use sptsmuxer.Spts.Frame.Expected.{
  used_behind, HasPlace, video_of, audio_of, groups_of, started_behind, video_frame, audio_frame,
}
use sptsmuxer.Spts.Frame.Shown.{Shown}

-- A frame of one of the two kinds, below 2^32 - 22 bytes, and not of 169 bytes in a stream without
-- the clock. The Booleans say which of the streams carries it.
abbrev pub IsPlayable : Bool → Bool → Buffer → Type 0
IsPlayable video audio buffer =
    (length buffer.bytes < 2 ^ 32 - 22)
    × (((buffer.caps ≡ video_h264) × Fits video (length buffer.bytes))
        ⊎ ((buffer.caps ≡ audio_mpeg) × Fits audio (length buffer.bytes)))

module _ (uint64_scale : ℕ → ℕ → ℕ → ℕ) (video audio : Bool) where
  -- The state between two frames, with the clock where it is.
  pub record IsRunning (spts : SpTs) : Type 0 where
    pub muxing : IsMuxing spts
    pub video_reference : muxing.video.pcr_reference ≡ video
    pub audio_reference : muxing.audio.pcr_reference ≡ audio

  -- What one frame leaves and has written, and what the receivers get from it.
  pub record Stepped {spts : SpTs} (r : IsRunning spts) (buffer : Buffer) : Type 0 where
    pub out : SpTs
    pub packets : List Bytes
    pub returns : spts_write_frame uint64_scale spts buffer ≡ ok (out, packets)
    pub next : IsRunning out
    pub count : out.packets_counter ≡ u64 (spts.packets_counter + length packets)
    pub gops : out.gop_counter ≤ spts.gop_counter + 1
    pub gop_count :
        spts.gop_counter * gop_packets < 2 ^ 64
        → out.gop_counter ≡ spts.gop_counter + groups_of buffer.caps buffer.delta_unit
    pub paced :
        spts.gop_counter * gop_packets ≤ spts.packets_counter + 2100
        → out.gop_counter * gop_packets ≤ spts.packets_counter + length packets + 2100
    pub exact :
        (used : ℕ)
        → spts.packets_counter + gop_packets ≡ spts.gop_counter * gop_packets + used
        → HasPlace buffer used
        → spts.gop_counter * gop_packets < 2 ^ 64
        → spts.packets_counter + length packets + gop_packets
          ≡ out.gop_counter * gop_packets
            + used_behind video audio (ltb 0 spts.packets_counter) buffer used
    pub shown :
        Shown r.muxing next.muxing packets
          (video_of buffer.caps (video_frame uint64_scale buffer))
          (audio_of buffer.caps (ltb 0 spts.packets_counter) (audio_frame uint64_scale buffer))
          (groups_of buffer.caps buffer.delta_unit)
    pub few :
        (bound : ℕ)
        → spts.packets_counter ≤ bound
        → spts.gop_counter * gop_packets ≤ bound
        → spts.packets_counter + length packets ≤ bound + 2 ^ 32
    pub begins :
        ltb 0 (spts.packets_counter + length packets)
        ≡ started_behind buffer.caps (ltb 0 spts.packets_counter)
