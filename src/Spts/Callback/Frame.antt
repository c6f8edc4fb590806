-- ===== src/Spts/Callback/Frame.antt =====
-- A frame written through the callback: the start of a group, and `spts_write_frame` as a whole.
use sptsmuxer.Base.{
  ℕ, zero, suc, ◌+◌, ◌*◌, ◌-◌, refl, inl, inr, Bool, true, false, Bool-cases, [], Bytes, ok, fault,
  out_of_fuel, uninitialised, ltb, ◌==◌, if◌then◌else◌, u64, deref,
}
use sptsmuxer.Ts.{spts_tspacket_header_cc_inc}
use sptsmuxer.Spts.State.{SpTs, SpTsStream, Buffer, CapsName, video_h264, audio_mpeg, other_caps}
use sptsmuxer.Spts.Frame.{
  write_nulls, spts_psi_write, begin_gop, write_video, write_audio, spts_write_frame,
  gsttime_to_mpegtime, gop_packets,
}
use sptsmuxer.Spts.Callback.{
  pure, lift, write_nulls_to, spts_psi_write_to, begin_gop_to, write_video_to, write_audio_to,
  spts_write_frame_to,
}
use sptsmuxer.Spts.Callback.Agrees.{
  After-fault, After-ok, After-write, After-lift, After-call, After-tail, Returns, ReturnsPair,
}
use sptsmuxer.Spts.Callback.Stream.{write_stream-Returns}

module _ {ℓ} (Data : Type ℓ) where
  write_nulls-Returns :
      (fuel : ℕ) (nullpacket : Bytes) (packets_counter target : ℕ)
      → Returns {Data = Data} []
          (write_nulls fuel nullpacket packets_counter target)
          (write_nulls_to fuel nullpacket packets_counter target)
  unfolding write_nulls write_nulls_to
  write_nulls-Returns zero nullpacket packets_counter target = After-fault out_of_fuel
  write_nulls-Returns (suc fuel) nullpacket packets_counter target =
      elim (Bool-cases (ltb packets_counter target)) [
        | inl more ↦ rw more (
            After-write nullpacket _ _ (
              After-tail _ _ _
                (write_nulls-Returns fuel nullpacket (u64 (packets_counter + 1)) target) (λ r. refl)
                (λ r. refl)))
        | inr done ↦ rw done (After-ok _ refl)
      ]

  spts_psi_write-Returns :
      (spts : SpTs) → Returns {Data = Data} [] (spts_psi_write spts) (spts_psi_write_to spts)
  unfolding spts_psi_write spts_psi_write_to
  spts_psi_write-Returns spts = After-write spts.pat.content _ _ (
      After-lift (spts_tspacket_header_cc_inc spts.pat.content) _ _ λ pat.
        After-write spts.pmt_tspacket.content _ _ (
          After-lift (spts_tspacket_header_cc_inc spts.pmt_tspacket.content) _ _
            λ pmt. After-ok _ refl))

  begin_gop-Returns :
      (spts : SpTs) (video : SpTsStream)
      → ReturnsPair {Data = Data} [] (begin_gop spts video) (begin_gop_to spts video)
  unfolding begin_gop begin_gop_to
  begin_gop-Returns spts video =
      let target = u64 (spts.gop_counter * gop_packets) in
      After-call _ _ _ _
        (write_nulls-Returns (suc (target - spts.packets_counter)) spts.nullpacket
          spts.packets_counter target)
        λ padded.
          After-call _ _ _ _ (spts_psi_write-Returns (record spts { packets_counter = padded.0 }))
            λ written. After-lift (deref written.0.audio_stream) _ _ λ audio. After-ok _ refl

  module _ (uint64_scale : ℕ → ℕ → ℕ → ℕ) where
    write_video-Returns :
        (spts : SpTs) (buffer : Buffer)
        → Returns {Data = Data} []
            (write_video uint64_scale spts buffer)
            (write_video_to uint64_scale spts buffer)
    unfolding write_video write_video_to
    write_video-Returns spts buffer = After-lift (deref spts.video_stream) _ _ λ stream.
        let counted = record stream { frames_counter = u64 (stream.frames_counter + 1) } in
        After-call _ _ _ _ (begins counted buffer.delta_unit) λ begun.
          After-call _ _ _ _
            (write_stream-Returns Data begun.1 begun.0.packets_counter
              (gsttime_to_mpegtime uint64_scale buffer.timestamp) buffer.bytes)
            λ sent. After-ok _ refl
      where
        begins :
            (counted : SpTsStream) (delta_unit : Bool)
            → ReturnsPair {Data = Data} []
                (if delta_unit then ok (spts, counted, []) else begin_gop spts counted)
                (if delta_unit then pure (spts, counted) else begin_gop_to spts counted)
        begins counted true = After-ok _ refl
        begins counted false = begin_gop-Returns spts counted

    write_audio-Returns :
        (spts : SpTs) (buffer : Buffer)
        → Returns {Data = Data} []
            (write_audio uint64_scale spts buffer)
            (write_audio_to uint64_scale spts buffer)
    unfolding write_audio write_audio_to
    write_audio-Returns spts buffer = elim (Bool-cases (spts.packets_counter == 0)) [
      | inl first ↦ rw first (After-ok _ refl)
      | inr later ↦ rw later (
          After-lift (deref spts.audio_stream) _ _ λ stream.
            After-call _ _ _ _
              (write_stream-Returns Data stream spts.packets_counter
                (gsttime_to_mpegtime uint64_scale buffer.timestamp) buffer.bytes)
              λ sent. After-ok _ refl)
    ]

    pub spts_write_frame-Returns :
        (spts : SpTs) (buffer : Buffer)
        → Returns {Data = Data} []
            (spts_write_frame uint64_scale spts buffer)
            (spts_write_frame_to uint64_scale spts buffer)
    unfolding spts_write_frame spts_write_frame_to
    spts_write_frame-Returns spts buffer = chosen buffer.caps
      where
        chosen :
            (caps : CapsName)
            → Returns {Data = Data} []
                (elim caps [
                  | video_h264 ↦ write_video uint64_scale spts buffer
                  | audio_mpeg ↦ write_audio uint64_scale spts buffer
                  | other_caps ↦ fault uninitialised
                ])
                (elim caps [
                  | video_h264 ↦ write_video_to uint64_scale spts buffer
                  | audio_mpeg ↦ write_audio_to uint64_scale spts buffer
                  | other_caps ↦ lift (fault uninitialised)
                ])
        chosen video_h264 = write_video-Returns spts buffer
        chosen audio_mpeg = write_audio-Returns spts buffer
        chosen other_caps = After-fault uninitialised
