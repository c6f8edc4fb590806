-- ===== src/Muxer/Silent.antt =====
-- An element with audio pads only: `spts_write_frame` drops audio frames while no packet has been
-- counted, and nothing else counts one.
use sptsmuxer.Base.{
  ℕ, zero, suc, ◌+◌, ◌≤◌, ◌<◌, ◌≡◌, ◌≢◌, inl, inr, refl, ◌∙◌, ap, arith, List, [], ◌∷◌, Bool, true,
  false, Option, none, some, Bytes, Result, deref, append-nil, ok, ◌>>=◌, All, length,
  if◌then◌else◌, ◌==◌,
}
use sptsmuxer.Base.Holds.{Holds, Holds-ok, Holds-bind, Holds-any, Holds-if, Holds-result}
use sptsmuxer.Psi.{PsiPmtSection, psi_pmt_section_pcr_pid_set}
use sptsmuxer.Spts.State.{SpTs, Buffer, audio_mpeg, pmt_section, on_pmt_section}
use sptsmuxer.Spts.Frame.Faults.{audio_before_video}
use sptsmuxer.Muxer.{
  MuxerState, Template, unknown_pad, pushbuf_size, sptsmuxer_init, sptsmuxer_set_property,
  set_pcr_reference, push_packets, write_next, sptsmuxer_collected,
}
use sptsmuxer.Muxer.Choice.{next_collectdata-IsEarliest}
use sptsmuxer.Muxer.Queue.{
  waiting, IsTimed, pop-Popped, Pops-All, Pops-waiting, peek_times-AllTimed, none-waiting,
}
use sptsmuxer.Muxer.Element.{with_program, first_calls}
use sptsmuxer.Muxer.Collect.{begin_stream_lem}
use sptsmuxer.Muxer.Drain.{calls_before, collect_rounds, collect_rounds-suc, calls_before_lem}
use sptsmuxer.Muxer.Setup.{request_pads, any_video}
use sptsmuxer.Muxer.Started.{init_lem, sized-Requested, requested-Clocked}

-- A frame that waits on an audio pad.
abbrev pub IsAudio : Buffer → Type 0
IsAudio buffer = (buffer.caps ≡ audio_mpeg) × IsTimed buffer

-- The clock counts no packet.
abbrev SameCount : SpTs → SpTs → Type 0
SameCount spts out = out.packets_counter ≡ spts.packets_counter

on_pmt_section-SameCount :
    (spts : SpTs) (f : PsiPmtSection → Result PsiPmtSection)
    → Holds (SameCount spts) (on_pmt_section spts f)
on_pmt_section-SameCount spts f =
    Holds-bind (Holds-any (f (pmt_section spts))) (λ section _. Holds-ok refl)

set_pcr_reference-SameCount : (spts : SpTs) → Holds (SameCount spts) (set_pcr_reference spts)
unfolding set_pcr_reference
set_pcr_reference-SameCount spts =
    let info = spts.pmt_section_info in
    Holds-if (info.video_pid == 0)
      (Holds-if (info.audio_pid == 0) (Holds-ok refl) (
        Holds-bind
          (on_pmt_section-SameCount spts
            (λ section. psi_pmt_section_pcr_pid_set section info.audio_pid))
          (λ next count.
            Holds-bind (Holds-any (deref next.audio_stream)) (λ stream _. Holds-ok count))))
      (Holds-bind
        (on_pmt_section-SameCount spts
          (λ section. psi_pmt_section_pcr_pid_set section info.video_pid))
        (λ next count.
          Holds-bind (Holds-any (deref next.video_stream)) (λ stream _. Holds-ok count)))

module _ (g_malloc : ℕ → Option Bytes) (gst_buffer_new_and_alloc : ℕ → Bytes)
    (uint64_scale : ℕ → ℕ → ℕ → ℕ) (handled : Bool) where
  -- A call that takes a frame and writes nothing.
  record Dropped (muxer : MuxerState) (started : SpTs) : Type 0 where
    rest : List (List Buffer)
    returns :
        sptsmuxer_collected g_malloc gst_buffer_new_and_alloc uint64_scale handled muxer
        ≡ ok (with_program muxer started rest, first_calls muxer.first)
    left : waiting muxer.collect ≡ suc (waiting rest)
    audio : All (All IsAudio) rest

  pad-IsTimed : (pad : List Buffer) → All IsAudio pad → All IsTimed pad
  pad-IsTimed [] all = tt
  pad-IsTimed (buffer ∷ pad) all = (all.0.1, pad-IsTimed pad all.1)

  pads-IsTimed : (pads : List (List Buffer)) → All (All IsAudio) pads → All (All IsTimed) pads
  pads-IsTimed [] all = tt
  pads-IsTimed (pad ∷ pads) all = (pad-IsTimed pad all.0, pads-IsTimed pads all.1)

  sptsmuxer_collected-Dropped :
      (muxer : MuxerState) (started : SpTs)
      → (if muxer.first then set_pcr_reference muxer.spts else ok muxer.spts) ≡ ok started
      → started.packets_counter ≡ 0
      → All (All IsAudio) muxer.collect
      → 0 < waiting muxer.collect
      → Dropped muxer started
  unfolding sptsmuxer_collected write_next push_packets
  sptsmuxer_collected-Dropped muxer started starts no_packet audio some_frame =
      elim (next_collectdata-IsEarliest _
        (peek_times-AllTimed muxer.collect (pads-IsTimed muxer.collect audio))) [
          | inl (chosen, empty) ↦
              absurd (omega (arith, none-waiting muxer.collect empty, some_frame))
          | inr (k, time, chosen, earliest) ↦
              let p = pop-Popped muxer.collect k time earliest.at in
              let same : 0 + k ≡ k = omega arith in
              let its = Pops-All IsAudio p.pops audio in
              record {
                rest = p.rest;
                returns =
                    rw
                      (
                        begin_stream_lem handled muxer started starts,
                        write_next,
                        chosen ∙ ap (λ n. some (n, time)) same,
                        p.returns,
                        audio_before_video uint64_scale started p.buffer no_packet its.0.0,
                      )
                      (ap (λ l. ok (with_program muxer started p.rest, l))
                        (append-nil (first_calls muxer.first)));
                left = Pops-waiting p.pops;
                audio = its.1;
              }
        ]

  rounds_silent :
      (n : ℕ) (muxer : MuxerState) (started : SpTs)
      → (if muxer.first then set_pcr_reference muxer.spts else ok muxer.spts) ≡ ok started
      → started.packets_counter ≡ 0
      → All (All IsAudio) muxer.collect
      → waiting muxer.collect ≡ n
      → (out : MuxerState) × (collect_rounds g_malloc gst_buffer_new_and_alloc uint64_scale handled
            n muxer
          ≡ ok (out, calls_before n muxer.first))
        × (waiting out.collect ≡ 0)
        × (out.pushbuf ≡ muxer.pushbuf)
  rounds_silent zero muxer started starts no_packet audio w =
      (muxer, unfold collect_rounds in refl, w, refl)
  rounds_silent (suc n) muxer started starts no_packet audio w =
      let d = sptsmuxer_collected-Dropped muxer started starts no_packet audio (omega (arith, w)) in
      let (out, returns, emptied, kept) =
        rounds_silent n (with_program muxer started d.rest) started refl no_packet d.audio
          (omega (arith, w, d.left)) in
      (
        out,
        collect_rounds-suc g_malloc gst_buffer_new_and_alloc uint64_scale handled n muxer d.returns
              returns
            ∙ ap (λ l. ok (out, l))
                (rw (calls_before_lem n, append-nil (first_calls muxer.first)) refl),
        emptied,
        kept,
      )

  -- In a process in which no element has pushed yet, a new element with a push buffer of any size
  -- and at least one and at most 33 requested pads, all of audio; on the pads any audio frames
  -- with time stamps. As many calls of sptsmuxer_collected as frames wait succeed and take all of
  -- them, but write no packet: the source pad gets at most the caps and the segment, and the push
  -- buffer is not even allocated.
  pub audio_only_silent :
      (size : ℕ) (templates : List Template) (queues : List (List Buffer))
      → All (λ t. t ≢ unknown_pad) templates
      → any_video templates ≡ false
      → 0 < length templates
      → length templates ≤ 33
      → All (All IsAudio) queues
      → (muxer : MuxerState) × ((sptsmuxer_init none >>= λ new.
            request_pads (sptsmuxer_set_property new pushbuf_size size) templates)
          ≡ ok muxer)
        × (out : MuxerState) × (collect_rounds g_malloc gst_buffer_new_and_alloc uint64_scale
              handled
              (waiting queues)
              (record muxer { collect = queues })
            ≡ ok (out, calls_before (waiting queues) true))
        × (waiting out.collect ≡ 0)
        × (out.pushbuf ≡ none)
  unfolding sptsmuxer_set_property
  audio_only_silent size templates queues known audio_only some_request few audio =
      let r = sized-Requested templates known few size in
      let c = (requested-Clocked templates known few some_request r).started in
      let no_packet =
        Holds-result (set_pcr_reference-SameCount r.out.spts) c.returns
        ∙ ap (λ s. s.packets_counter) r.program.at in
      let (out, returns, emptied, kept) =
        rounds_silent (waiting queues) (record r.out { collect = queues }) c.out
          (rw r.kept.0 c.returns) no_packet audio refl in
      (
        r.out,
        rw init_lem r.returns,
        out,
        returns ∙ ap (λ b. ok (out, calls_before (waiting queues) b)) r.kept.0,
        emptied,
        kept ∙ r.kept.3,
      )
