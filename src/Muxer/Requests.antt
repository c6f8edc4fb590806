-- ===== src/Muxer/Requests.antt =====
-- Requests for pads, one after the other: those that succeed, and one whose pad cannot be added.
use sptsmuxer.Base.{
  ℕ, suc, sym, ◌+◌, ◌≤◌, ◌≡◌, ◌≢◌, refl, ◌∙◌, arith, List, [], ◌∷◌, ◌++◌, append_assoc, append-nil,
  Bool, true, false, ◌||◌, ok, All, length, length-append, replicate,
}
use mathlib.Core.Path.{subst}
use sptsmuxer.Spts.State.{video_pid, audio_pid}
use sptsmuxer.Muxer.{
  MuxerState, Template, video_pad, audio_pad, unknown_pad, request_stream, request_pad,
  sptsmuxer_request_new_pad,
}
use sptsmuxer.Muxer.Setup.{
  request_pads, streams_of, any_video, any_audio, HasStreams, Requested, request_video,
  request_audio,
}

-- The stream of a request, whatever becomes of its pad.
request_stream-Requested :
    (muxer : MuxerState) (templ : Template) (streams : List (ℕ × ℕ)) (video audio : Bool)
    → HasStreams muxer.spts streams video audio
    → templ ≢ unknown_pad
    → length streams ≤ 32
    → Requested muxer
        (streams ++ streams_of (templ ∷ []))
        (any_video (templ ∷ []) || video)
        (any_audio (templ ∷ []) || audio)
        0
        (λ out. request_stream muxer templ ≡ ok out)
request_stream-Requested muxer video_pad streams video audio h known few =
    request_video muxer streams video audio h few
request_stream-Requested muxer audio_pad streams video audio h known few =
    request_audio muxer streams video audio h few
request_stream-Requested muxer unknown_pad streams video audio h known few = absurd (known refl)

-- A request of a known template where gst_collect_pads_add_pad fails, in a program of at most 32
-- streams and no clock: NULL is returned and no queue is added, but the stream is in the program
-- all the same.
pub request_fails :
    (muxer : MuxerState) (templ : Template) (streams : List (ℕ × ℕ)) (video audio : Bool)
    → HasStreams muxer.spts streams video audio
    → templ ≢ unknown_pad
    → length streams ≤ 32
    → (added : Bool)
    → (out : MuxerState) × (sptsmuxer_request_new_pad false added muxer templ ≡ ok (out, false))
      × HasStreams out.spts
          (streams ++ streams_of (templ ∷ []))
          (any_video (templ ∷ []) || video)
          (any_audio (templ ∷ []) || audio)
      × (out.collect ≡ muxer.collect)
unfolding sptsmuxer_request_new_pad request_pad
request_fails muxer templ streams video audio h known few added =
    let r = request_stream-Requested muxer templ streams video audio h known few in
    (r.out, rw r.returns refl, r.program, r.queues ∙ append-nil muxer.collect)

pub if_any : (b : Bool) → (b || true) ≡ true
if_any true = refl
if_any false = refl

abbrev with_pad : MuxerState → MuxerState
with_pad muxer = record muxer { collect = muxer.collect ++ ([] ∷ []) }

-- The first of some requests and the others.
request_before :
    (muxer : MuxerState) (templ : Template) (templates : List Template) (streams : List (ℕ × ℕ))
    (stream : ℕ × ℕ) {video audio video' audio' : Bool}
    (one : Requested muxer
      (streams ++ (stream ∷ []))
      video
      audio
      0
      (λ out. request_stream muxer templ ≡ ok out))
    → Requested
        (with_pad one.out)
        ((streams ++ (stream ∷ [])) ++ streams_of templates)
        video'
        audio'
        (length templates)
        (λ out. request_pads (with_pad one.out) templates ≡ ok out)
    → Requested muxer
        (streams ++ (stream ∷ streams_of templates))
        video'
        audio'
        (suc (length templates))
        (λ out. request_pads muxer (templ ∷ templates) ≡ ok out)
unfolding request_pads sptsmuxer_request_new_pad request_pad
request_before muxer templ templates streams stream {video' = video'} {audio' = audio'} one rest =
    record {
      out = rest.out;
      returns = rw (one.returns, rest.returns) refl;
      program =
          subst (λ l. HasStreams rest.out.spts l video' audio')
            (append_assoc streams (stream ∷ []) (streams_of templates)) rest.program;
      queues =
          rest.queues
          ∙ rw one.queues (
              rw (append-nil muxer.collect)
                (append_assoc muxer.collect ([] ∷ []) (replicate (length templates) [])));
      kept = (
        rest.kept.0 ∙ one.kept.0,
        rest.kept.1 ∙ one.kept.1,
        rest.kept.2 ∙ one.kept.2,
        rest.kept.3 ∙ one.kept.3,
      );
    }

-- After some requests, those of a list: the program has their streams at the end, in their order.
pub request_pads-Requested :
    (muxer : MuxerState) (templates : List Template) (streams : List (ℕ × ℕ)) (video audio : Bool)
    → HasStreams muxer.spts streams video audio
    → All (λ t. t ≢ unknown_pad) templates
    → length streams + length templates ≤ 33
    → Requested muxer
        (streams ++ streams_of templates)
        (any_video templates || video)
        (any_audio templates || audio)
        (length templates)
        (λ out. request_pads muxer templates ≡ ok out)
request_pads-Requested muxer [] streams video audio h known few = record {
  out = muxer;
  returns = unfold request_pads in refl;
  program = subst (λ l. HasStreams muxer.spts l video audio) (sym (append-nil streams)) h;
  queues = sym (append-nil muxer.collect);
  kept = (refl, refl, refl, refl);
}
request_pads-Requested muxer (video_pad ∷ templates) streams video audio h known few =
    let one = request_video muxer streams video audio h (omega arith) in
    request_before muxer video_pad templates streams (0x1b, video_pid) one
      (rw (if_any (any_video templates)) at (
        request_pads-Requested (with_pad one.out) templates (streams ++ ((0x1b, video_pid) ∷ []))
          true audio one.program known.1
          (omega (arith, length-append streams ((0x1b, video_pid) ∷ [])))))
request_pads-Requested muxer (audio_pad ∷ templates) streams video audio h known few =
    let one = request_audio muxer streams video audio h (omega arith) in
    request_before muxer audio_pad templates streams (0x0f, audio_pid) one
      (rw (if_any (any_audio templates)) at (
        request_pads-Requested (with_pad one.out) templates (streams ++ ((0x0f, audio_pid) ∷ []))
          video true one.program known.1
          (omega (arith, length-append streams ((0x0f, audio_pid) ∷ [])))))
request_pads-Requested muxer (unknown_pad ∷ templates) streams video audio h known few =
    absurd (known.0 refl)
