-- ===== src/Spts/Frame/Faults.antt =====
-- The calls of `spts_write_frame` that write nothing, or that the code does not survive.
use sptsmuxer.Base.{
  ℕ, ◌+◌, ◌-◌, ◌*◌, ◌^◌, ◌<◌, ◌≡◌, refl, ◌∙◌, ap, arith, List, [], ◌∷◌, ◌++◌, true, false, none,
  some, Bytes, Result, ok, fault, uninitialised, null_pointer, deref, ◌>>=◌, u64, suc, ◌==◌,
}
use sptsmuxer.Ts.Header.{packet, cc_inc_packet}
use sptsmuxer.Spts.State.{SpTs, SpTsStream, Buffer, video_h264, audio_mpeg, other_caps, pmt_pid}
use sptsmuxer.Spts.Frame.{
  spts_psi_write, begin_gop, gop_packets, write_video, write_audio, spts_write_frame,
}
use sptsmuxer.Spts.Frame.Gop.{write_nulls_lem}

-- The frames of a list, one after the other, and the packets of all of them.
unfoldable pub write_frames : (ℕ → ℕ → ℕ → ℕ) → SpTs → List Buffer → Result (SpTs × List Bytes)
write_frames uint64_scale spts [] = ok (spts, [])
write_frames uint64_scale spts (buffer ∷ buffers) = do
  (next, packets) ← spts_write_frame uint64_scale spts buffer
  (last, others) ← write_frames uint64_scale next buffers
  ok (last, packets ++ others)

pub audio_before_video :
    (uint64_scale : ℕ → ℕ → ℕ → ℕ) (spts : SpTs) (buffer : Buffer)
    → spts.packets_counter ≡ 0
    → buffer.caps ≡ audio_mpeg
    → spts_write_frame uint64_scale spts buffer ≡ ok (spts, [])
unfolding spts_write_frame write_audio
audio_before_video uint64_scale spts buffer zero_count caps =
    ap
      (λ name. elim name as (λ _. Result (SpTs × List Bytes)) [
        | video_h264 ↦ write_video uint64_scale spts buffer
        | audio_mpeg ↦ write_audio uint64_scale spts buffer
        | other_caps ↦ fault uninitialised
      ])
      caps
    ∙ held
  where
    not_yet : (spts.packets_counter == 0) ≡ true
    not_yet = ap (λ n. n == 0) zero_count

    held : write_audio uint64_scale spts buffer ≡ ok (spts, [])
    held = rw not_yet refl

begin_gop-null_pointer :
    (spts : SpTs) (video : SpTsStream) (pat_counter pmt_counter : ℕ) (pat_body pmt_body : Bytes)
    → spts.audio_stream ≡ none
    → spts.pat.content ≡ packet 1 0 1 pat_counter pat_body
    → pat_counter < 16
    → spts.pmt_tspacket.content ≡ packet 1 pmt_pid 1 pmt_counter pmt_body
    → pmt_counter < 16
    → spts.gop_counter * gop_packets < 2 ^ 64
    → begin_gop spts video ≡ fault null_pointer
unfolding begin_gop spts_psi_write
begin_gop-null_pointer spts video pat_counter pmt_counter pat_body pmt_body no_audio at_pat hp
      at_pmt hq early =
    let target : u64 (spts.gop_counter * 2102) ≡ spts.gop_counter * 2102 = omega arith in
    let missing : ℕ = spts.gop_counter * 2102 - spts.packets_counter in
    rw
      (
        target,
        write_nulls_lem (suc missing) spts.nullpacket spts.packets_counter (spts.gop_counter * 2102)
            early (omega arith),
        at_pat,
        at_pmt,
        cc_inc_packet 1 0 1 pat_counter pat_body (omega arith) hp,
        cc_inc_packet 1 pmt_pid 1 pmt_counter pmt_body (omega arith) hq,
        no_audio,
      )
      refl

-- An IDR frame while there is a video stream and no audio stream, with the packets of the two
-- tables in the form that `packet` gives them and the place of the group below 2^64: the call
-- dereferences NULL.
pub video_only_faults :
    (uint64_scale : ℕ → ℕ → ℕ → ℕ) (spts : SpTs) (buffer : Buffer) (video : SpTsStream)
    (pat_counter pmt_counter : ℕ) (pat_body pmt_body : Bytes)
    → spts.video_stream ≡ some video
    → spts.audio_stream ≡ none
    → spts.pat.content ≡ packet 1 0 1 pat_counter pat_body
    → pat_counter < 16
    → spts.pmt_tspacket.content ≡ packet 1 pmt_pid 1 pmt_counter pmt_body
    → pmt_counter < 16
    → spts.gop_counter * gop_packets < 2 ^ 64
    → buffer.caps ≡ video_h264
    → buffer.delta_unit ≡ false
    → spts_write_frame uint64_scale spts buffer ≡ fault null_pointer
unfolding spts_write_frame write_video
video_only_faults uint64_scale spts buffer video pat_counter pmt_counter pat_body pmt_body has_video
      no_audio at_pat hp at_pmt hq early caps idr =
    ap
      (λ name. elim name as (λ _. Result (SpTs × List Bytes)) [
        | video_h264 ↦ write_video uint64_scale spts buffer
        | audio_mpeg ↦ write_audio uint64_scale spts buffer
        | other_caps ↦ fault uninitialised
      ])
      caps
    ∙ starts (ap deref has_video) idr
  where
    starts :
        deref spts.video_stream ≡ ok video
        → buffer.delta_unit ≡ false
        → write_video uint64_scale spts buffer ≡ fault null_pointer
    starts at_video idr' =
        rw
          (
            at_video,
            idr',
            begin_gop-null_pointer spts
                (record video { frames_counter = u64 (video.frames_counter + 1) }) pat_counter
                pmt_counter pat_body pmt_body no_audio at_pat hp at_pmt hq early,
          )
          refl
