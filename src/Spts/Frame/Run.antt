-- ===== src/Spts/Frame/Run.antt =====
-- Any number of frames, one after the other: no call faults, and the invariant holds throughout.
use sptsmuxer.Base.{
  ℕ, ◌+◌, ◌*◌, ◌^◌, ◌≤◌, ◌<◌, ◌≡◌, inl, inr, refl, arith, List, [], ◌∷◌, ◌++◌, Bool, Bytes, ok, All,
  u64, length, length-append,
}
use sptsmuxer.Spts.State.{SpTs, Buffer}
use sptsmuxer.Spts.Frame.{gop_packets}
use sptsmuxer.Spts.Frame.Stepped.{IsPlayable, IsRunning, Stepped}
use sptsmuxer.Spts.Frame.StepVideo.{video_Stepped}
use sptsmuxer.Spts.Frame.StepAudio.{audio_Stepped}
use sptsmuxer.Spts.Frame.Faults.{write_frames}

module _ (uint64_scale : ℕ → ℕ → ℕ → ℕ) (video audio : Bool) where
  pub write_frame-Stepped :
      (spts : SpTs) (buffer : Buffer) (r : IsRunning uint64_scale video audio spts)
      → IsPlayable video audio buffer
      → spts.gop_counter * gop_packets < 2 ^ 64
      → Stepped uint64_scale video audio r buffer
  write_frame-Stepped spts buffer r playable early = elim playable.1 [
    | inl v ↦ video_Stepped uint64_scale video audio spts buffer r v.0 playable.0 v.1 early
    | inr a ↦ audio_Stepped uint64_scale video audio spts buffer r a.0 playable.0 a.1
  ]

  -- What the frames of a list leave and have written.
  pub record Ran (spts : SpTs) (buffers : List Buffer) : Type 0 where
    pub out : SpTs
    pub packets : List Bytes
    pub returns : write_frames uint64_scale spts buffers ≡ ok (out, packets)
    pub next : IsRunning uint64_scale video audio out
    pub count : out.packets_counter ≡ u64 (spts.packets_counter + length packets)
    pub gops : out.gop_counter ≤ spts.gop_counter + length buffers

  -- From a state that satisfies the invariant, any list of video and audio frames, each below 2^32
  -- - 22 bytes and none of 169 bytes in a stream without the clock, with the place of every group
  -- that they can begin below 2^64: no call faults, the invariant holds after the last, the stream
  -- with the clock is the same, and every packet that is written is counted.
  pub write_frames-Ran :
      (spts : SpTs) (buffers : List Buffer)
      → IsRunning uint64_scale video audio spts
      → All (IsPlayable video audio) buffers
      → (spts.gop_counter + length buffers) * gop_packets < 2 ^ 64
      → Ran spts buffers
  unfolding write_frames
  write_frames-Ran spts [] r all early = record {
    out = spts;
    packets = [];
    returns = refl;
    next = r;
    count = omega (arith, r.muxing.count_bits);
    gops = omega arith;
  }
  write_frames-Ran spts (buffer ∷ buffers) r all early =
      let one = write_frame-Stepped spts buffer r all.0 (omega arith) in
      let rest = write_frames-Ran one.out buffers one.next all.1 (omega (arith, one.gops)) in
      record {
        out = rest.out;
        packets = one.packets ++ rest.packets;
        returns = rw (one.returns, rest.returns) refl;
        next = rest.next;
        count = omega (arith, one.count, rest.count, length-append one.packets rest.packets);
        gops = omega (arith, one.gops, rest.gops);
      }
