-- ===== src/Spts/Frame/StepVideo.antt =====
-- A video frame from a state that satisfies the invariant.
use sptsmuxer.Base.{
  ℕ, ◌+◌, ◌-◌, ◌*◌, ◌^◌, ◌≤◌, ◌<◌, ◌≡◌, refl, sym, ◌∙◌, ap, arith, List, [], ◌∷◌, ◌++◌, Bool, true,
  false, Bytes, u64, ltb, lt→ltb, length-replicate, replicate, length, length-append, if◌then◌else◌,
}
use mathlib.Core.Path.{subst}
use sptsmuxer.Spts.State.{SpTs, Buffer, video_h264}
use sptsmuxer.Spts.Packets.First.{Fits}
use sptsmuxer.Spts.Frame.{gop_packets}
use sptsmuxer.Spts.Frame.Video.Sent.{tables}
use sptsmuxer.Spts.Frame.Video.{video-VideoSent}
use sptsmuxer.Spts.Frame.Expected.{
  used_by, frame_packets, video_of, audio_of, groups_of, started_behind, video_frame, audio_frame,
}
use sptsmuxer.Spts.Frame.Shown.{Shown}
use sptsmuxer.Spts.Frame.Parts.{video-Shown}
use sptsmuxer.Spts.Frame.Stepped.{IsRunning, Stepped}

module _ (uint64_scale : ℕ → ℕ → ℕ → ℕ) (video audio : Bool) where
  pub video_Stepped :
      (spts : SpTs) (buffer : Buffer) (r : IsRunning uint64_scale video audio spts)
      → buffer.caps ≡ video_h264
      → length buffer.bytes < 2 ^ 32 - 22
      → Fits video (length buffer.bytes)
      → spts.gop_counter * gop_packets < 2 ^ 64
      → Stepped uint64_scale video audio r buffer
  video_Stepped spts buffer r caps small fits early =
      let sent =
        video-VideoSent uint64_scale spts r.muxing buffer small caps
          (subst (λ b. Fits b (length buffer.bytes)) (sym r.video_reference) fits) early in
      record {
        out = sent.out;
        packets = tables uint64_scale spts r.muxing buffer small ++ sent.packets;
        returns = sent.returns;
        next = record {
          muxing = sent.next;
          video_reference = sent.reference_kept.0 ∙ r.video_reference;
          audio_reference = sent.reference_kept.1 ∙ r.audio_reference;
        };
        count = sent.count;
        gops = grow buffer.delta_unit sent.gops;
        gop_count = λ space.
            counts space buffer.delta_unit sent.gops
            ∙ ap (λ name. spts.gop_counter + groups_of name buffer.delta_unit) (sym caps);
        paced = λ behind. paces behind sent.packets buffer.delta_unit sent.gops;
        exact = λ used at place space.
            exacts sent.packets (frame_packets video (length buffer.bytes))
              (sent.number ∙ ap (λ b. frame_packets b (length buffer.bytes)) r.video_reference) used
              at space buffer.delta_unit (place caps) sent.gops
            ∙ ap
                (λ name.
                  sent.out.gop_counter * gop_packets
                  + used_by video audio (ltb 0 spts.packets_counter) name buffer.delta_unit
                      (length buffer.bytes) used)
                (sym caps);
        shown =
            subst
              (λ name.
                Shown r.muxing sent.next (before ++ sent.packets)
                  (video_of name (video_frame uint64_scale buffer))
                  (audio_of name (ltb 0 spts.packets_counter) (audio_frame uint64_scale buffer))
                  (groups_of name buffer.delta_unit))
              (sym caps) (video-Shown uint64_scale spts r.muxing buffer small sent);
        few = λ bound h k. omega (
          arith,
          length-append before sent.packets,
          length-before buffer.delta_unit,
          sent.number,
        );
        begins =
            subst
              (λ name.
                ltb 0 (spts.packets_counter + length (before ++ sent.packets))
                ≡ started_behind name (ltb 0 spts.packets_counter))
              (sym caps)
              (lt→ltb 0 (spts.packets_counter + length (before ++ sent.packets))
                (omega (arith, length-append before sent.packets, sent.number)));
      }
    where
      before : List Bytes
      before = tables uint64_scale spts r.muxing buffer small

      nulls : List Bytes
      nulls = replicate (spts.gop_counter * gop_packets - spts.packets_counter) spts.nullpacket

      counts :
          spts.gop_counter * gop_packets < 2 ^ 64
          → {g : ℕ} (delta : Bool)
          → g ≡ (if delta then spts.gop_counter else u64 (spts.gop_counter + 1))
          → g ≡ spts.gop_counter + (if delta then 0 else 1)
      counts space true e = omega arith
      counts space false e = omega arith

      exacts :
          (sent : List Bytes) (number : ℕ)
          → length sent ≡ number
          → (used : ℕ) → spts.packets_counter + gop_packets ≡ spts.gop_counter * gop_packets + used
          → spts.gop_counter * gop_packets < 2 ^ 64
          → {g : ℕ} (delta : Bool) → (delta ≡ false → used ≤ 2102)
          → g ≡ (if delta then spts.gop_counter else u64 (spts.gop_counter + 1))
          → spts.packets_counter
              + length (
                  (if delta
                    then []
                    else nulls ++ (spts.pat.content ∷ spts.pmt_tspacket.content ∷ []))
                  ++ sent)
              + gop_packets
            ≡ g * gop_packets + ((if delta then used else 2) + number)
      exacts sent number is_number used at space true place e = omega arith
      exacts sent number is_number used at space false place e = omega (
        arith,
        place refl,
        length-append (nulls ++ (spts.pat.content ∷ spts.pmt_tspacket.content ∷ [])) sent,
        length-append nulls (spts.pat.content ∷ spts.pmt_tspacket.content ∷ []),
        length-replicate {A = Bytes} (spts.gop_counter * gop_packets - spts.packets_counter)
            spts.nullpacket,
      )

      paces :
          spts.gop_counter * gop_packets ≤ spts.packets_counter + 2100
          → (sent : List Bytes) {g : ℕ} (delta : Bool)
          → g ≡ (if delta then spts.gop_counter else u64 (spts.gop_counter + 1))
          → g * gop_packets
            ≤ spts.packets_counter
              + length (
                  (if delta
                    then []
                    else nulls ++ (spts.pat.content ∷ spts.pmt_tspacket.content ∷ []))
                  ++ sent)
              + 2100
      paces behind sent true e = omega arith
      paces behind sent false e = omega (
        arith,
        length-append (nulls ++ (spts.pat.content ∷ spts.pmt_tspacket.content ∷ [])) sent,
        length-append nulls (spts.pat.content ∷ spts.pmt_tspacket.content ∷ []),
        length-replicate {A = Bytes} (spts.gop_counter * gop_packets - spts.packets_counter)
            spts.nullpacket,
      )

      length-before :
          (delta : Bool)
          → length
              (if delta then [] else nulls ++ (spts.pat.content ∷ spts.pmt_tspacket.content ∷ []))
            ≤ spts.gop_counter * gop_packets - spts.packets_counter + 2
      length-before true = omega arith
      length-before false = omega (
        arith,
        length-append nulls (spts.pat.content ∷ spts.pmt_tspacket.content ∷ []),
        length-replicate {A = Bytes} (spts.gop_counter * gop_packets - spts.packets_counter)
            spts.nullpacket,
      )

      grow :
          {g : ℕ} (delta : Bool)
          → g ≡ (if delta then spts.gop_counter else u64 (spts.gop_counter + 1))
          → g ≤ spts.gop_counter + 1
      grow true e = omega arith
      grow false e = omega arith
