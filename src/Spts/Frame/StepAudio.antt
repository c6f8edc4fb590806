-- ===== src/Spts/Frame/StepAudio.antt =====
-- An audio frame from a state that satisfies the invariant.
use sptsmuxer.Base.{
  ℕ, ◌+◌, ◌-◌, ◌*◌, ◌^◌, ◌<◌, ◌≡◌, sym, ◌∙◌, ap, arith, List, [], Bool, true, false, Bytes, ltb,
  lt→ltb, le→not_ltb, length,
}
use mathlib.Core.Path.{subst}
use native.Mathlib.Decide.{dec_lt}
use sptsmuxer.Spts.State.{SpTs, Buffer, audio_mpeg}
use sptsmuxer.Spts.Packets.First.{Fits}
use sptsmuxer.Spts.Frame.{gop_packets}
use sptsmuxer.Spts.Frame.Valid.{IsMuxing}
use sptsmuxer.Spts.Frame.Audio.{audio-AudioSent}
use sptsmuxer.Spts.Frame.Expected.{
  used_by, used_behind, frame_packets, video_of, audio_of, groups_of, started_behind, video_frame,
  audio_frame,
}
use sptsmuxer.Spts.Frame.Shown.{Shown}
use sptsmuxer.Spts.Frame.Parts.{audio-Shown, nothing-Shown}
use sptsmuxer.Spts.Frame.Faults.{audio_before_video}
use sptsmuxer.Spts.Frame.Stepped.{IsRunning, Stepped}

module _ (uint64_scale : ℕ → ℕ → ℕ → ℕ) (video audio : Bool) where
  pub audio_Stepped :
      (spts : SpTs) (buffer : Buffer) (r : IsRunning uint64_scale video audio spts)
      → buffer.caps ≡ audio_mpeg
      → length buffer.bytes < 2 ^ 32 - 22
      → Fits audio (length buffer.bytes)
      → Stepped uint64_scale video audio r buffer
  audio_Stepped spts buffer r caps small fits = elim (dec_lt 0 spts.packets_counter) [
    | yes behind ↦
        let sent =
          audio-AudioSent uint64_scale spts r.muxing buffer small caps behind
            (subst (λ b. Fits b (length buffer.bytes)) (sym r.audio_reference) fits) in
        record {
          out = sent.out;
          packets = sent.packets;
          returns = sent.returns;
          next = record {
            muxing = sent.next;
            video_reference = ap (λ s. s.pcr_reference) sent.video_kept ∙ r.video_reference;
            audio_reference = sent.reference_kept ∙ r.audio_reference;
          };
          count = sent.count;
          gops = omega (arith, sent.gops);
          gop_count = λ space. sent.gops ∙ no_group;
          paced = λ h. omega (arith, sent.gops);
          exact = λ used at place space.
              audio_exact _ sent.out.gop_counter true (lt→ltb 0 spts.packets_counter behind) used (
                started_exact (length sent.packets) (frame_packets audio (length buffer.bytes))
                  (sent.number ∙ ap (λ b. frame_packets b (length buffer.bytes)) r.audio_reference)
                  sent.gops used at);
          shown =
              audio_shown true (lt→ltb 0 spts.packets_counter behind) sent.next sent.packets
                (audio-Shown uint64_scale spts r.muxing buffer small sent);
          few = λ bound h k. omega (arith, sent.number);
          begins = audio_begins (length sent.packets) (
              lt→ltb 0 (spts.packets_counter + length sent.packets) (omega arith)
              ∙ sym (lt→ltb 0 spts.packets_counter behind));
        }
    | no not_behind ↦ record {
      out = spts;
      packets = [];
      returns = audio_before_video uint64_scale spts buffer (omega arith) caps;
      next = r;
      count = omega arith;
      gops = omega arith;
      gop_count = λ space. no_group;
      paced = λ h. omega arith;
      exact = λ used at place space.
          audio_exact _ spts.gop_counter false (le→not_ltb 0 spts.packets_counter (omega arith))
            used (omega (arith, at));
      shown =
          audio_shown false (le→not_ltb 0 spts.packets_counter (omega arith)) r.muxing []
            (nothing-Shown r.muxing);
      few = λ bound h k. omega arith;
      begins = audio_begins 0 (ap (ltb 0) same);
    }
  ]
    where
      started_exact :
          {g : ℕ} (sent number : ℕ)
          → sent ≡ number
          → g ≡ spts.gop_counter
          → (used : ℕ) → spts.packets_counter + gop_packets ≡ spts.gop_counter * gop_packets + used
          → spts.packets_counter + sent + gop_packets ≡ g * gop_packets + (used + number)
      started_exact sent number is_number e used at = omega arith

      audio_exact :
          (total g : ℕ) (started : Bool)
          → ltb 0 spts.packets_counter ≡ started
          → (used : ℕ)
          → total
            ≡ g * gop_packets
              + used_by video audio started audio_mpeg buffer.delta_unit (length buffer.bytes) used
          → total
            ≡ g * gop_packets + used_behind video audio (ltb 0 spts.packets_counter) buffer used
      audio_exact total g started e used h =
          h
          ∙ ap
              (λ b.
                g * gop_packets
                + used_by video audio b audio_mpeg buffer.delta_unit (length buffer.bytes) used)
              (sym e)
          ∙ ap
              (λ name.
                g * gop_packets
                + used_by video audio (ltb 0 spts.packets_counter) name buffer.delta_unit
                    (length buffer.bytes) used)
              (sym caps)

      no_group : spts.gop_counter ≡ spts.gop_counter + groups_of buffer.caps buffer.delta_unit
      no_group =
          let none_begins : spts.gop_counter ≡ spts.gop_counter + 0 = omega arith in
          none_begins ∙ ap (λ name. spts.gop_counter + groups_of name buffer.delta_unit) (sym caps)

      same : spts.packets_counter + 0 ≡ spts.packets_counter
      same = omega arith

      audio_begins :
          (number : ℕ)
          → ltb 0 (spts.packets_counter + number) ≡ ltb 0 spts.packets_counter
          → ltb 0 (spts.packets_counter + number)
            ≡ started_behind buffer.caps (ltb 0 spts.packets_counter)
      audio_begins number e =
          subst
            (λ name.
              ltb 0 (spts.packets_counter + number)
              ≡ started_behind name (ltb 0 spts.packets_counter))
            (sym caps) e

      audio_shown :
          (started : Bool)
          → ltb 0 spts.packets_counter ≡ started
          → {out : SpTs} (n : IsMuxing out) (packets : List Bytes)
          → Shown r.muxing n packets []
              (audio_of audio_mpeg started (audio_frame uint64_scale buffer))
              0
          → Shown r.muxing n packets
              (video_of buffer.caps (video_frame uint64_scale buffer))
              (audio_of buffer.caps (ltb 0 spts.packets_counter) (audio_frame uint64_scale buffer))
              (groups_of buffer.caps buffer.delta_unit)
      audio_shown started e n packets shown =
          subst
            (λ name.
              Shown r.muxing n packets (video_of name (video_frame uint64_scale buffer))
                (audio_of name (ltb 0 spts.packets_counter) (audio_frame uint64_scale buffer))
                (groups_of name buffer.delta_unit))
            (sym caps)
            (subst
              (λ b.
                Shown r.muxing n packets []
                  (audio_of audio_mpeg b (audio_frame uint64_scale buffer)) 0)
              (sym e) shown)
