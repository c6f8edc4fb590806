-- ===== src/Spts/Frame/Parts.antt =====
-- What the packets of one call of `spts_write_frame` show to the receivers.
mod Group
pub use Group.*
use sptsmuxer.Base.{
  ℕ, ◌-◌, ◌*◌, ◌^◌, ◌<◌, ◌≢◌, refl, sym, arith, List, [], ◌∷◌, ◌++◌, Bytes, All, All-append, length,
  replicate, append-nil,
}
use mathlib.Core.Path.{subst}
use sptsmuxer.Ts.Demux.{Gives, Gives-append, IsOther, Gives-other, All-IsOther}
use sptsmuxer.Spts.State.{SpTs, Buffer, video_pid, audio_pid, pmt_pid}
use sptsmuxer.Spts.Frame.{gop_packets}
use sptsmuxer.Spts.Frame.Expected.{video_frame, audio_frame}
use sptsmuxer.Spts.Frame.Valid.{IsMuxing}
use sptsmuxer.Spts.Frame.Audio.{AudioSent}
use sptsmuxer.Spts.Frame.Video.Sent.{VideoSent, tables}
use sptsmuxer.Spts.Frame.Shown.{Frames, Frames-append, Frames-other, Carries-Frames, Shown}

-- Behind some packets, packets of another PID.
Gives-behind :
    {pid a b : ℕ} {xs us : List Bytes} (ys : List Bytes)
    → Gives pid a xs us b
    → All (IsOther pid) ys
    → Gives pid a (xs ++ ys) us b
Gives-behind {pid} {a} {b} {xs} {us} ys g all =
    subst (λ l. Gives pid a (xs ++ ys) l b) (append-nil us) (Gives-append g (Gives-other b ys all))

module _ (uint64_scale : ℕ → ℕ → ℕ → ℕ) (spts : SpTs) (m : IsMuxing spts) (buffer : Buffer)
    (small : length buffer.bytes < 2 ^ 32 - 22) where
  abbrev gap : ℕ
  gap = spts.gop_counter * gop_packets - spts.packets_counter

  pub video-Shown :
      (sent : VideoSent uint64_scale spts m buffer small)
      → Shown m sent.next
          (tables uint64_scale spts m buffer small ++ sent.packets)
          (video_frame uint64_scale buffer ∷ [])
          []
          (group_count spts m gap buffer.delta_unit)
  video-Shown sent = record {
    video_shown = rw (← sent.next_counter) at (
        Frames-append
          (Frames-other m.video_counter before (
            preface-IsOther spts m gap buffer.delta_unit video_pid (omega arith) (omega arith)
              (omega arith)))
          (Carries-Frames m.video_ready.counter_bits sent.carries sent.clock));
    audio_shown =
        subst (Frames audio_pid m.audio_counter (before ++ sent.packets) []) (sym sent.audio_kept) (
          Frames-other m.audio_counter (before ++ sent.packets) (
            All-append (IsOther audio_pid) before sent.packets
              (preface-IsOther spts m gap buffer.delta_unit audio_pid (omega arith) (omega arith)
                (omega arith))
              (others audio_pid (omega arith))));
    pat_shown =
        subst
          (Gives 0 m.pat_counter (before ++ sent.packets)
            (replicate (group_count spts m gap buffer.delta_unit) m.pat_body))
          (sym sent.pat_kept.1)
          (Gives-behind sent.packets (preface_pat spts m gap buffer.delta_unit)
            (others 0 (omega arith)));
    pmt_shown =
        subst
          (Gives pmt_pid m.pmt_counter (before ++ sent.packets)
            (replicate (group_count spts m gap buffer.delta_unit) m.pmt_body))
          (sym sent.pmt_kept.1)
          (Gives-behind sent.packets (preface_pmt spts m gap buffer.delta_unit)
            (others pmt_pid (omega arith)));
    foreign = λ pid f.
        All-append (IsOther pid) before sent.packets
          (preface-IsOther spts m gap buffer.delta_unit pid f.0 f.1 f.2) (others pid f.3);
    bodies = (sent.pat_kept.0, sent.pmt_kept.0);
  }
    where
      before : List Bytes
      before = preface spts m gap buffer.delta_unit

      others : (pid : ℕ) → video_pid ≢ pid → All (IsOther pid) sent.packets
      others pid ne =
          All-IsOther video_pid pid 1 m.video_counter sent.packets sent.carries.pes
            sent.carries.received ne

  pub audio-Shown :
      (sent : AudioSent uint64_scale spts m buffer small)
      → Shown m sent.next sent.packets [] (audio_frame uint64_scale buffer ∷ []) 0
  audio-Shown sent = record {
    video_shown =
        subst (Frames video_pid m.video_counter sent.packets []) (sym sent.video_counter_kept)
          (Frames-other m.video_counter sent.packets (others video_pid (omega arith)));
    audio_shown =
        rw (← sent.next_counter) at
          (Carries-Frames m.audio_ready.counter_bits sent.carries sent.clock);
    pat_shown =
        subst (Gives 0 m.pat_counter sent.packets []) (sym sent.pat_kept.1)
          (Gives-other m.pat_counter sent.packets (others 0 (omega arith)));
    pmt_shown =
        subst (Gives pmt_pid m.pmt_counter sent.packets []) (sym sent.pmt_kept.1)
          (Gives-other m.pmt_counter sent.packets (others pmt_pid (omega arith)));
    foreign = λ pid f. others pid f.4;
    bodies = (sent.pat_kept.0, sent.pmt_kept.0);
  }
    where
      others : (pid : ℕ) → audio_pid ≢ pid → All (IsOther pid) sent.packets
      others pid ne =
          All-IsOther audio_pid pid 1 m.audio_counter sent.packets sent.carries.pes
            sent.carries.received ne

-- No packet.
pub nothing-Shown : {spts : SpTs} (m : IsMuxing spts) → Shown m m [] [] [] 0
nothing-Shown m = record {
  video_shown = Frames-other m.video_counter [] tt;
  audio_shown = Frames-other m.audio_counter [] tt;
  pat_shown = Gives-other m.pat_counter [] tt;
  pmt_shown = Gives-other m.pmt_counter [] tt;
  foreign = λ pid f. tt;
  bodies = (refl, refl);
}
