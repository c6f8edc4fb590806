-- ===== src/Spts/Frame/Video.antt =====
-- `spts_write_frame` on a video frame, with both streams there: what it leaves and has written.
pub mod Sent
use sptsmuxer.Base.{
  ℕ, ◌+◌, ◌-◌, ◌*◌, ◌/◌, ◌^◌, ◌<◌, ◌≡◌, refl, ◌∙◌, ap, arith, [], ◌∷◌, ◌++◌, true, false, Bytes,
  deref, length, replicate, u64, Bool-cases, inl, inr, length-append, length-replicate,
}
use sptsmuxer.Spts.State.{SpTs, SpTsStream, Buffer, video_h264, video_pid}
use sptsmuxer.Spts.Packets.First.{Fits, capacity}
use sptsmuxer.Spts.Packets.Whole.{IsReady, IsReady-kept}
use sptsmuxer.Spts.Frame.{note_gop, gop_packets, gsttime_to_mpegtime, write_video, spts_write_frame}
use sptsmuxer.Spts.Frame.Carry.{Delivered-Carries, Delivered-HasClock}
use sptsmuxer.Spts.Frame.Valid.{IsMuxing}
use sptsmuxer.Spts.Frame.Gop.{
  missing, begun, begin_gop_returns, begin_gop-IsMuxing, note_gop-IsReady,
}
use sptsmuxer.Spts.Frame.Video.Sent.{
  write_video_returns, tables, VideoSent, delivered, video_out, video_next,
}

module _ (uint64_scale : ℕ → ℕ → ℕ → ℕ) (spts : SpTs) (m : IsMuxing spts) (buffer : Buffer)
    (small : length buffer.bytes < 2 ^ 32 - 22) where
  abbrev counted_video : SpTsStream
  counted_video = record m.video { frames_counter = u64 (m.video.frames_counter + 1) }

  counted_ready : IsReady counted_video video_pid m.video_counter
  counted_ready = IsReady-kept m.video_ready refl refl refl

  module _ (caps : buffer.caps ≡ video_h264)
      (fits : Fits m.video.pcr_reference (length buffer.bytes)) where
    -- A frame within a group.
    delta-VideoSent : buffer.delta_unit ≡ true → VideoSent uint64_scale spts m buffer small
    unfolding spts_write_frame write_video gsttime_to_mpegtime counted_ready
    delta-VideoSent delta =
        let sent =
          delivered uint64_scale spts m buffer small spts m counted_video counted_ready m.video_id
            fits in
        record {
          out =
              video_out uint64_scale spts m buffer small spts m counted_video counted_ready
                m.video_id fits;
          packets = sent.first ∷ sent.others;
          returns =
              write_video_returns uint64_scale spts buffer {stream = m.video} {v = counted_video}
                {b = spts} {tables = tables uint64_scale spts m buffer small} caps
                (ap deref m.has_video) (rw delta refl) sent.returns;
          carries = rw m.video_id at (Delivered-Carries small counted_ready sent);
          clock = Delivered-HasClock sent;
          number = omega (arith, sent.number);
          count = rw delta (omega (arith, sent.all_count));
          next =
              video_next uint64_scale spts m buffer small spts m counted_video counted_ready
                m.video_id fits;
          next_counter = refl;
          audio_kept = refl;
          pat_kept = (refl, rw delta refl);
          pmt_kept = (refl, rw delta refl);
          reference_kept = (sent.kept.0, refl);
          gops = rw delta refl;
        }

    -- A frame that begins a group.
    module _ (early : spts.gop_counter * gop_packets < 2 ^ 64) where
      abbrev noted : SpTsStream
      noted =
          note_gop (record counted_video { last_gop_frames_counter = counted_video.frames_counter })

      noted_ready : IsReady noted video_pid m.video_counter
      noted_ready = note_gop-IsReady (IsReady-kept m.video_ready refl refl refl)

      note_gop_reference : (note_gop m.audio).pcr_reference ≡ m.audio.pcr_reference
      unfolding note_gop
      note_gop_reference = refl

      noted_id : noted.pes_header_info.stream_id ≡ 0xe0
      unfolding note_gop
      noted_id = m.video_id

      noted_fits : Fits noted.pcr_reference (length buffer.bytes)
      unfolding note_gop
      noted_fits = fits

      noted_reference : noted.pcr_reference ≡ m.video.pcr_reference
      unfolding note_gop
      noted_reference = refl

      abbrev group : SpTs
      group = begun spts m counted_video early

      abbrev group_next : IsMuxing group
      group_next = begin_gop-IsMuxing spts m counted_video early

      idr-VideoSent : buffer.delta_unit ≡ false → VideoSent uint64_scale spts m buffer small
      unfolding spts_write_frame write_video gsttime_to_mpegtime counted_ready noted_ready noted_id
          noted_fits
      idr-VideoSent idr =
          let gap : ℕ = missing spts m counted_video early in
          let sent =
            delivered uint64_scale spts m buffer small group group_next noted noted_ready noted_id
              noted_fits in
          record {
            out =
                video_out uint64_scale spts m buffer small group group_next noted noted_ready
                  noted_id noted_fits;
            packets = sent.first ∷ sent.others;
            returns =
                write_video_returns uint64_scale spts buffer {stream = m.video} {v = noted}
                  {b = group} {tables = tables uint64_scale spts m buffer small} caps
                  (ap deref m.has_video)
                  (rw (idr, begin_gop_returns spts m counted_video early) refl) sent.returns;
            carries = rw noted_id at (Delivered-Carries small noted_ready sent);
            clock = rw noted_reference at (Delivered-HasClock sent);
            number = omega (
              arith,
              sent.number
                  ∙ ap (λ r. (length buffer.bytes - capacity r + 183) / 184) noted_reference,
            );
            count =
                rw
                  (
                    idr,
                    length-append
                        (replicate gap spts.nullpacket
                          ++ (spts.pat.content ∷ spts.pmt_tspacket.content ∷ []))
                        (sent.first ∷ sent.others),
                    length-append (replicate gap spts.nullpacket)
                        (spts.pat.content ∷ spts.pmt_tspacket.content ∷ []),
                    length-replicate {A = Bytes} gap spts.nullpacket,
                  )
                  (omega (arith, sent.all_count));
            next =
                video_next uint64_scale spts m buffer small group group_next noted noted_ready
                  noted_id noted_fits;
            next_counter = refl;
            audio_kept = refl;
            pat_kept = (refl, rw idr refl);
            pmt_kept = (refl, rw idr refl);
            reference_kept = (sent.kept.0 ∙ noted_reference, note_gop_reference);
            gops = rw idr refl;
          }

  -- A video frame below 2^32 - 22 bytes (not of 169 bytes when the stream carries no clock), from
  -- a state that satisfies the invariant, with the place of the group below 2^64: the call
  -- succeeds; an IDR frame is preceded by the null packets that are missing up to its group and by
  -- the PAT and the PMT, another frame by nothing; a receiver of the PID gets the frame back
  -- behind a PES header with its time stamp, the first packet has the clock exactly when the
  -- stream carries it, the packets are as few as their capacity allows and all are counted, and
  -- the state satisfies the invariant again.
  pub video-VideoSent :
      buffer.caps ≡ video_h264
      → Fits m.video.pcr_reference (length buffer.bytes)
      → spts.gop_counter * gop_packets < 2 ^ 64
      → VideoSent uint64_scale spts m buffer small
  video-VideoSent caps fits early = elim (Bool-cases buffer.delta_unit) [
    | inl delta ↦ delta-VideoSent caps fits delta
    | inr idr ↦ idr-VideoSent caps fits early idr
  ]
