-- ===== src/Spts/Frame/Program.antt =====
-- A whole program of frames, from the calls of `spts_write_frame` to the receivers of its PIDs.
use sptsmuxer.Spts.Frame.Shown.{IsForeign}
use sptsmuxer.Ts.Demux.{demux-length, Gives-other}
use sptsmuxer.Base.{
  ℕ, ◌+◌, ◌*◌, ◌≤◌, ◌≡◌, ◌∙◌, ap, arith, List, [], Bool, some, Bytes, ok, All, ltb, length,
  replicate,
}
use sptsmuxer.Pes.Decode.{PesHeader}
use sptsmuxer.Ts.Demux.{demux}
use sptsmuxer.Spts.State.{SpTs, Buffer, video_pid, audio_pid, pmt_pid}
use sptsmuxer.Spts.Frame.{gop_packets}
use sptsmuxer.Spts.Frame.Faults.{write_frames}
use sptsmuxer.Spts.Frame.Expected.{HavePlace, used_in_the_end, video_frames, audio_frames, groups}
use sptsmuxer.Spts.Frame.Shown.{decode_units}
use sptsmuxer.Spts.Frame.Stepped.{IsPlayable, IsRunning}
use sptsmuxer.Spts.Frame.Multiplexed.{HasSpace, Gives-whole, write_frames-Multiplexed}

-- A receiver of the PID that starts at the counter gets these frames, no more and no less.
abbrev pub Receives : ℕ → ℕ → List Bytes → List (PesHeader × Bytes) → Type 0
Receives pid counter packets frames =
    (units : List Bytes) × (demux pid counter packets ≡ some ([], units))
    × (decode_units units ≡ some frames)

module _ (uint64_scale : ℕ → ℕ → ℕ → ℕ) (video audio : Bool) where
  -- From a state that satisfies the invariant, any list of video and audio frames, each below 2^32
  -- - 22 bytes and none of 169 bytes in a stream without the clock, as many as keep the count of
  -- packets and the place of the groups below 2^64: every call succeeds and the invariant holds at
  -- the end. A receiver of the video PID in all the packets, which checks the continuity counters,
  -- gets exactly the video frames with their headers, in order; one of the audio PID exactly the
  -- audio frames behind the first video frame; those of the PAT and the PMT get their section once
  -- for each IDR frame.
  pub write_frames_received :
      (spts : SpTs) (buffers : List Buffer) (r : IsRunning uint64_scale video audio spts)
      → All (IsPlayable video audio) buffers
      → HasSpace spts (length buffers)
      → (out : SpTs) × (packets : List Bytes) × (write_frames uint64_scale spts buffers
          ≡ ok (out, packets))
        × IsRunning uint64_scale video audio out
        × Receives video_pid r.muxing.video_counter packets (video_frames uint64_scale buffers)
        × Receives audio_pid r.muxing.audio_counter packets
            (audio_frames uint64_scale (ltb 0 spts.packets_counter) buffers)
        × (demux 0 r.muxing.pat_counter packets
            ≡ some ([], replicate (groups buffers) r.muxing.pat_body))
        × (demux pmt_pid r.muxing.pmt_counter packets
            ≡ some ([], replicate (groups buffers) r.muxing.pmt_body))
  write_frames_received spts buffers r all space =
      let m = write_frames-Multiplexed uint64_scale video audio spts buffers r all space in
      let v = m.shown.video_shown in
      let a = m.shown.audio_shown in
      (
        m.out,
        m.packets,
        m.returns,
        m.next,
        (v.units, Gives-whole v.gives, v.read),
        (a.units, Gives-whole a.gives, a.read),
        Gives-whole m.shown.pat_shown,
        Gives-whole m.shown.pmt_shown,
      )

  -- From a state that satisfies the invariant, with space for the packets and at most 2100 packets
  -- short of the place of its group, any list of video and audio frames of which none faults by
  -- its length: every packet and every IDR frame is counted, and at the end the state is again at
  -- most 2100 packets short, so that no more than one group begins for each 2102 packets.
  pub write_frames_paced :
      (spts : SpTs) (buffers : List Buffer)
      → IsRunning uint64_scale video audio spts
      → All (IsPlayable video audio) buffers
      → HasSpace spts (length buffers)
      → spts.gop_counter * gop_packets ≤ spts.packets_counter + 2100
      → (out : SpTs) × (packets : List Bytes) × (write_frames uint64_scale spts buffers
          ≡ ok (out, packets))
        × (out.packets_counter ≡ spts.packets_counter + length packets)
        × (out.gop_counter ≡ spts.gop_counter + groups buffers)
        × (out.gop_counter * gop_packets ≤ out.packets_counter + 2100)
  write_frames_paced spts buffers r all space behind =
      let m = write_frames-Multiplexed uint64_scale video audio spts buffers r all space in
      (
        m.out,
        m.packets,
        m.returns,
        m.counted,
        m.gop_count,
        omega (arith, m.paced behind, m.counted),
      )

  -- From a state that satisfies the invariant, with space for the packets and `used` packets
  -- behind the place where the last group began, any list of video and audio frames of which none
  -- faults by its length and where each group is over, with at most 2102 packets, when the next
  -- begins: the groups begin at the multiples of 2102, that is, the count of the packets is at the
  -- end 2102 for each group before the last, and the packets that the last group has used, 2 for
  -- the tables and as many for each frame as its length needs.
  pub write_frames_aligned :
      (spts : SpTs) (buffers : List Buffer) (used : ℕ)
      → IsRunning uint64_scale video audio spts
      → All (IsPlayable video audio) buffers
      → HasSpace spts (length buffers)
      → spts.packets_counter + gop_packets ≡ spts.gop_counter * gop_packets + used
      → HavePlace video audio (ltb 0 spts.packets_counter) used buffers
      → (out : SpTs) × (packets : List Bytes) × (write_frames uint64_scale spts buffers
          ≡ ok (out, packets))
        × (out.packets_counter ≡ spts.packets_counter + length packets)
        × (out.packets_counter + gop_packets
            ≡ (spts.gop_counter + groups buffers) * gop_packets
              + used_in_the_end video audio (ltb 0 spts.packets_counter) used buffers)
  write_frames_aligned spts buffers used r all space at place =
      let m = write_frames-Multiplexed uint64_scale video audio spts buffers r all space in
      (
        m.out,
        m.packets,
        m.returns,
        m.counted,
        m.exact used at place
            ∙ ap
                (λ g.
                  g * gop_packets
                  + used_in_the_end video audio (ltb 0 spts.packets_counter) used buffers)
                m.gop_count,
      )

  -- From a state that satisfies the invariant, with space for the packets, any list of video and
  -- audio frames of which none faults by its length: every packet has 188 bytes, as the callback
  -- asserts, and a receiver of any PID but those of the PAT, the PMT, the two streams and the null
  -- packets gets nothing.
  pub write_frames-IsForeign :
      (spts : SpTs) (buffers : List Buffer) (pid counter : ℕ)
      → IsRunning uint64_scale video audio spts
      → All (IsPlayable video audio) buffers
      → HasSpace spts (length buffers)
      → IsForeign pid
      → (out : SpTs) × (packets : List Bytes) × (write_frames uint64_scale spts buffers
          ≡ ok (out, packets))
        × All (λ p. length p ≡ 188) packets
        × (demux pid counter packets ≡ some ([], []))
  write_frames-IsForeign spts buffers pid counter r all space f =
      let m = write_frames-Multiplexed uint64_scale video audio spts buffers r all space in
      let v = m.shown.video_shown in
      (
        m.out,
        m.packets,
        m.returns,
        demux-length video_pid r.muxing.video_counter m.packets ([], v.units) (Gives-whole v.gives),
        Gives-whole (Gives-other counter m.packets (m.shown.foreign pid f)),
      )
