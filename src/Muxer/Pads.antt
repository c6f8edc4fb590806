-- ===== src/Muxer/Pads.antt =====
-- A pad of video and a pad of audio: the frames of each keep their order.
use sptsmuxer.Base.{
  ℕ, ◌+◌, ◌*◌, ◌^◌, ◌<◌, ◌≡◌, Option, some, Bytes, refl, arith, List, [], ◌∷◌, Bool, true, false,
  All, length, map,
}
use mathlib.Core.Path.{subst}
use sptsmuxer.Spts.State.{Buffer, video_h264, audio_mpeg, video_pid, audio_pid}
use sptsmuxer.Spts.Frame.Program.{Receives}
use sptsmuxer.Spts.Frame.Expected.{video_frame, audio_frame, video_frames, audio_frames}
use sptsmuxer.Muxer.{video_pad, audio_pad}
use sptsmuxer.Muxer.Element.{IsFrame}
use sptsmuxer.Muxer.Whole.{Run, element_runs}
use sptsmuxer.Muxer.Queue.{here, there, Merged, done, taken, waiting}

module _ (uint64_scale : ℕ → ℕ → ℕ → ℕ) where
  Merged-two_pads :
      (video audio frames : List Buffer) {out : List (List Buffer)}
      → Merged (video ∷ audio ∷ []) frames out
      → waiting out ≡ 0
      → All (λ b. b.caps ≡ video_h264) video
      → All (λ b. b.caps ≡ audio_mpeg) audio
      → (video_frames uint64_scale frames ≡ map (video_frame uint64_scale) video)
        × (audio_frames uint64_scale true frames ≡ map (audio_frame uint64_scale) audio)
  Merged-two_pads [] [] [] done empty v a = (refl, refl)
  Merged-two_pads (x ∷ video) audio [] done empty v a = absurd (omega (arith, empty))
  Merged-two_pads [] (x ∷ audio) [] done empty v a = absurd (omega (arith, empty))
  Merged-two_pads (x ∷ video) audio (b ∷ frames) (taken here earliest m) empty v a =
      let rest = Merged-two_pads video audio frames m empty v.1 a in
      (rw (v.0, rest.0) refl, rw (v.0, rest.1) refl)
  Merged-two_pads video (x ∷ audio) (b ∷ frames) (taken (there here) earliest m) empty v a =
      let rest = Merged-two_pads video audio frames m empty v a.1 in
      (rw (a.0, rest.0) refl, rw (a.0, rest.1) refl)
  Merged-two_pads video [] (b ∷ frames) (taken (there (there p)) earliest m) empty v a = elim p [ ]
  Merged-two_pads video (x ∷ audio) (b ∷ frames) (taken (there (there p)) earliest m) empty v a =
      elim p [ ]

  -- A first video frame that is due before any audio is written before it.
  Merged-video_first :
      (first : Buffer) (video audio frames : List Buffer) {out : List (List Buffer)}
      → Merged ((first ∷ video) ∷ audio ∷ []) frames out
      → waiting out ≡ 0
      → All (λ b. b.caps ≡ video_h264) (first ∷ video)
      → All (λ b. b.caps ≡ audio_mpeg) audio
      → All (λ b. first.timestamp < b.timestamp) audio
      → audio_frames uint64_scale false frames ≡ map (audio_frame uint64_scale) audio
  Merged-video_first first video audio [] done empty v a later = absurd (omega (arith, empty))
  Merged-video_first first video audio (b ∷ frames) (taken here earliest m) empty v a later =
      rw v.0 (Merged-two_pads video audio frames m empty v.1 a).1
  Merged-video_first first video (x ∷ audio) (b ∷ frames) (taken (there here) earliest m) empty v a
        later =
      absurd (omega (arith, earliest.0, later.0))
  Merged-video_first first video [] (b ∷ frames) (taken (there (there p)) earliest m) empty v a
        later =
      elim p [ ]
  Merged-video_first first video (x ∷ audio) (b ∷ frames) (taken (there (there p)) earliest m) empty
        v a later =
      elim p [ ]

module _ (g_malloc : ℕ → Option Bytes) (gst_buffer_new_and_alloc : ℕ → Bytes)
    (uint64_scale : ℕ → ℕ → ℕ → ℕ) where
  -- With one video pad and one audio pad, at least one video frame, and the first of them due
  -- before every audio frame, under the conditions on the frames and the push buffer that hold for
  -- the element as a whole: the run of the element exists, a receiver of the video PID gets
  -- exactly the frames that waited on the video pad, in their order, and one of the audio PID
  -- exactly those that waited on the audio pad.
  pub two_pads_run :
      (handled : Bool) (size : ℕ) (first : Buffer) (video audio : List Buffer)
      → 0 < size
      → size * 188 < 2 ^ 32
      → (block : Bytes) → g_malloc (size * 188) ≡ some block
      → length block ≡ size * 188
      → All (IsFrame true false) (first ∷ video)
      → All (IsFrame true false) audio
      → All (λ b. b.caps ≡ video_h264) (first ∷ video)
      → All (λ b. b.caps ≡ audio_mpeg) audio
      → All (λ b. first.timestamp < b.timestamp) audio
      → length (first ∷ video) + length audio < 2 ^ 31
      → (r : Run g_malloc gst_buffer_new_and_alloc uint64_scale handled size
          (video_pad ∷ audio_pad ∷ [])
          ((first ∷ video) ∷ audio ∷ []))
        × Receives video_pid 0 r.packets (map (video_frame uint64_scale) (first ∷ video))
        × Receives audio_pid 0 r.packets (map (audio_frame uint64_scale) audio)
  two_pads_run handled size first video audio positive bits block allocates whole hv ha v a later
        space =
      let r =
        element_runs g_malloc gst_buffer_new_and_alloc uint64_scale handled size
          (video_pad ∷ audio_pad ∷ []) ((first ∷ video) ∷ audio ∷ []) ((λ e. cc), ((λ e. cc), tt))
          (omega arith) refl refl positive bits block allocates whole (hv, (ha, tt)) (omega arith)
          (omega arith) in
      (
        r,
        subst (λ frames. Receives video_pid 0 r.packets frames)
            (Merged-two_pads uint64_scale (first ∷ video) audio r.frames r.merged r.emptied v a).0
            r.video,
        subst (λ frames. Receives audio_pid 0 r.packets frames)
            (Merged-video_first uint64_scale first video audio r.frames r.merged r.emptied v a
              later)
            r.audio,
      )
