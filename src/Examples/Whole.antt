-- ===== src/Examples/Whole.antt =====
-- The element as a whole on two pads.
use sptsmuxer.Base.{
  ◌≡◌, ◌≢◌, refl, inl, inr, arith, List, [], ◌∷◌, true, false, none, some, ◌>>=◌, ok, All,
  replicate, map,
}
use sptsmuxer.Spts.State.{Buffer, video_pid, audio_pid}
use sptsmuxer.Spts.Frame.Expected.{video_frame, audio_frame}
use sptsmuxer.Spts.Frame.Program.{Receives}
use sptsmuxer.Muxer.{
  MuxerState, SrcCall, Template, video_pad, audio_pad, unknown_pad, sptsmuxer_init,
  sptsmuxer_request_new_pad, sptsmuxer_collected,
}
use sptsmuxer.Muxer.{sptsmuxer_set_property, pushbuf_size, set_caps, push_segment}
use sptsmuxer.Muxer.Requests.{request_fails}
use sptsmuxer.Muxer.Setup.{request_pads, HasStreams}
use sptsmuxer.Muxer.Clock.{Started}
use sptsmuxer.Muxer.Started.{new_element, new-HasStreams}
use sptsmuxer.Muxer.Queue.{waiting, IsSorted}
use sptsmuxer.Muxer.Element.{IsElement, IsFrame}
use sptsmuxer.Muxer.Drain.{collect_rounds, Drained, collect_rounds-IsSorted}
use sptsmuxer.Muxer.Reach.{start, arrive, here, Reach-safe}
use sptsmuxer.Muxer.Whole.{Run}
use sptsmuxer.Muxer.Silent.{audio_only_silent}
use sptsmuxer.Muxer.Pads.{two_pads_run}
use sptsmuxer.Examples.{scale, ready, idr_frame}
use sptsmuxer.Examples as Examples
use sptsmuxer.Examples.Streams.{idr_small, audio_small, audio_fits}
use sptsmuxer.Examples.Programs.{ready-IsRunning}
use sptsmuxer.Examples.Element.{g_malloc, new_buffer}

abbrev pub templates : List Template
templates = video_pad ∷ audio_pad ∷ []

pub templates-known : All (λ t. t ≢ unknown_pad) templates
templates-known = ((λ e. cc), ((λ e. cc), tt))

abbrev video_queue : List Buffer
video_queue = idr_frame ∷ []

abbrev audio_queue : List Buffer
audio_queue = Examples.audio_frame ∷ []

abbrev pub queues : List (List Buffer)
queues = video_queue ∷ audio_queue ∷ []

pub idr-IsFrame : IsFrame true false idr_frame
idr-IsFrame = ((idr_small, inl (refl, tt)), omega arith)

pub audio-IsFrame : IsFrame true false Examples.audio_frame
audio-IsFrame = ((audio_small, inr (refl, audio_fits)), omega arith)

two_pads_run_example :
    (r : Run g_malloc new_buffer scale true 2 templates queues) × Receives video_pid 0 r.packets
      (map (video_frame scale) video_queue)
    × Receives audio_pid 0 r.packets (map (audio_frame scale) audio_queue)
two_pads_run_example =
    two_pads_run g_malloc new_buffer scale true 2 idr_frame [] audio_queue (omega arith)
      (omega arith) (replicate 376 0) refl refl (idr-IsFrame, tt) (audio-IsFrame, tt) (refl, tt)
      (refl, tt) (omega arith, tt) (omega arith)

-- Two audio frames on the only pad.
audio_only_silent_example :
    (new : MuxerState) × ((sptsmuxer_init none >>= λ made.
    request_pads (sptsmuxer_set_property made pushbuf_size 7) (audio_pad ∷ []))
      ≡ ok new)
    × (out : MuxerState) × (collect_rounds g_malloc new_buffer scale true 2
          (record new { collect = (Examples.audio_frame ∷ Examples.audio_frame ∷ []) ∷ [] })
        ≡ ok (out, set_caps 188 ∷ push_segment ∷ []))
    × (waiting out.collect ≡ 0)
    × (out.pushbuf ≡ none)
audio_only_silent_example =
    audio_only_silent g_malloc new_buffer scale true 7 (audio_pad ∷ [])
      ((Examples.audio_frame ∷ Examples.audio_frame ∷ []) ∷ []) ((λ e. cc), tt) refl (omega arith)
      (omega arith) (((refl, omega arith), ((refl, omega arith), tt)), tt)

request_fails_example :
    (out : MuxerState) × (sptsmuxer_request_new_pad false true new_element video_pad
      ≡ ok (out, false))
    × HasStreams out.spts ((0x1b, video_pid) ∷ []) true false
    × (out.collect ≡ [])
request_fails_example =
    request_fails new_element video_pad [] false false new-HasStreams (λ e. cc) (omega arith) true

-- The element of `ready` between two calls, with a push buffer of two packets.
abbrev muxer : MuxerState
muxer = record {
  numvideosinkpads = 1;
  numaudiosinkpads = 1;
  collect = queues;
  first = false;
  pushbufsize = 2;
  pushbufused = 1;
  pushbuf = some (replicate 376 1);
  spts = ready;
}

abbrev pub muxer-IsElement : IsElement g_malloc scale true false muxer 2
muxer-IsElement = record {
  started = ready;
  starts = refl;
  running = ready-IsRunning;
  can_push = inl (
    1,
    record {
      base = muxer;
      buffer = replicate 376 1;
      held = replicate 188 1 ∷ [];
      held_count = refl;
      held_bytes = refl;
      at = refl;
      whole = refl;
      room = omega arith;
      size_bits = omega arith;
    },
  );
  queued = ((idr-IsFrame, tt), ((audio-IsFrame, tt), tt));
}

collect_rounds-IsSorted_example :
    (d : Drained g_malloc new_buffer scale true true false muxer-IsElement 2) × IsSorted d.frames
collect_rounds-IsSorted_example =
    collect_rounds-IsSorted g_malloc new_buffer scale true true false 2 muxer 2 muxer-IsElement refl
      (record { packets_space = omega arith; groups_space = omega arith })
      ((tt, tt), ((tt, tt), tt))

-- One more video frame has arrived.
abbrev pub later : MuxerState
later = record muxer { collect = (idr_frame ∷ idr_frame ∷ []) ∷ audio_queue ∷ [] }

Reach-safe_example :
    (next : MuxerState) × (calls : List SrcCall) × (sptsmuxer_collected g_malloc new_buffer scale
        true later
      ≡ ok (next, calls))
Reach-safe_example =
    Reach-safe g_malloc new_buffer scale true false 2 muxer-IsElement
      (record { packets_space = omega arith; groups_space = omega arith })
      (arrive start idr-IsFrame here) true
