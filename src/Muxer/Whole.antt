-- ===== src/Muxer/Whole.antt =====
-- The element as a whole: from `sptsmuxer_init`, the size of the push buffer and the requests for
-- pads, over the calls of `sptsmuxer_collected` that empty the queues, to the receivers.
mod Outcome
pub use Outcome.*
use sptsmuxer.Base.{
  ℕ, zero, suc, ◌+◌, ◌*◌, ◌/◌, ◌%◌, ◌^◌, ◌≤◌, ◌<◌, ◌≡◌, ◌≢◌, inr, refl, sym, ◌∙◌, ap, arith, List,
  [], ◌∷◌, Bool, true, false, Option, none, some, Bytes, ok, ok-injective, ◌>>=◌, All, length,
  replicate, drop, ltb,
}
use mathlib.Core.Path.{subst}
use native.Mathlib.Nat.{add-mul, div-add-mod', div-eq_of_lt-le}
use sptsmuxer.Psi.Pat.{decode_pat}
use sptsmuxer.Psi.Pmt.Defs.{decode_pmt}
use sptsmuxer.Ts.Demux.{demux}
use sptsmuxer.Spts.State.{Buffer, video_pid, audio_pid, pmt_pid}
use sptsmuxer.Spts.Frame.Valid.{IsMuxing}
use sptsmuxer.Spts.Frame.Expected.{video_frames, audio_frames, groups}
use sptsmuxer.Spts.Frame.Multiplexed.{HasSpace}
use sptsmuxer.Spts.Frame.Program.{Receives, write_frames_received}
use sptsmuxer.Muxer.{
  MuxerState, Template, unknown_pad, set_caps, push_segment, pushbuf_size, sptsmuxer_init,
  sptsmuxer_set_property,
}
use sptsmuxer.Muxer.Setup.{request_pads, streams_of, any_video, any_audio, Requested}
use sptsmuxer.Muxer.Clock.{Clocked, Started, IsFresh}
use sptsmuxer.Muxer.Started.{
  new_element, init_lem, sized-Requested, requested-Clocked, any_video-positive,
}
use sptsmuxer.Muxer.Allocate.{used_of, held_of, length-held_of, held_of-Contains, used_of-room}
use sptsmuxer.Muxer.Queue.{waiting}
use sptsmuxer.Muxer.Element.{IsElement, IsFrame}
use sptsmuxer.Muxer.Drain.{calls_before, Drained, collect_rounds-Drained}

moved :
    (P : ℕ → List Bytes → Type 0) {counter : ℕ} {packets same : List Bytes}
    → counter ≡ 0
    → packets ≡ same
    → P counter packets
    → P 0 same
moved P {counter} {packets} {same} e f p = subst (λ ps. P 0 ps) f (subst (λ c. P c packets) e p)

module _ (g_malloc : ℕ → Option Bytes) (gst_buffer_new_and_alloc : ℕ → Bytes)
    (uint64_scale : ℕ → ℕ → ℕ → ℕ) (handled : Bool) (size : ℕ) (templates : List Template)
    (queues : List (List Buffer)) where
  module _ (known : All (λ t. t ≢ unknown_pad) templates) (few : length templates ≤ 33)
      (has_video : any_video templates ≡ true) (has_audio : any_audio templates ≡ true)
      (positive : 0 < size) (size_bits : size * 188 < 2 ^ 32) (block : Bytes)
      (allocates : g_malloc (size * 188) ≡ some block) (whole : length block ≡ size * 188)
      (queued : All (All (IsFrame true false)) queues) (some_frame : 0 < waiting queues)
      (space : waiting queues < 2 ^ 31) where
    requested :
        Requested
          (record new_element { pushbufsize = size })
          (streams_of templates)
          (any_video templates)
          (any_audio templates)
          (length templates)
          (λ out. request_pads (record new_element { pushbufsize = size }) templates ≡ ok out)
    requested = sized-Requested templates known few size

    clocked :
        Clocked requested.out.spts
          (streams_of templates)
          (any_video templates)
          (any_audio templates)
    clocked =
        requested-Clocked templates known few (any_video-positive templates has_video) requested

    abbrev begun :
        Started requested.out.spts
          (streams_of templates)
          (any_video templates)
          (any_audio templates)
    begun = clocked.started

    fresh : IsFresh uint64_scale begun.out
    fresh = clocked.fresh uint64_scale has_video has_audio

    HasSpace-begun : (n : ℕ) → n < 2 ^ 31 → HasSpace begun.out n
    HasSpace-begun n h = record {
      packets_space = omega (arith, fresh.counts.0);
      groups_space = omega (arith, fresh.counts.1);
    }

    abbrev muxer : MuxerState
    muxer = record requested.out { collect = queues }

    abbrev element : IsElement g_malloc uint64_scale true false muxer size
    element = record {
      started = begun.out;
      starts = rw requested.kept.0 begun.returns;
      running = fresh.running;
      can_push = inr (record {
        no_buffer = requested.kept.3;
        sized = sym requested.kept.1;
        positive = positive;
        size_bits = size_bits;
        block = block;
        allocates = allocates;
        whole = whole;
      });
      queued = queued;
    }

    drained :
        Drained g_malloc gst_buffer_new_and_alloc uint64_scale handled true false element
          (waiting queues)
    drained =
        collect_rounds-Drained g_malloc gst_buffer_new_and_alloc uint64_scale handled true false
          (waiting queues) muxer size element refl (HasSpace-begun (waiting queues) space)

    first_calls_lem :
        (n : ℕ) (first : Bool)
        → 0 < n
        → first ≡ true
        → calls_before n first ≡ set_caps 188 ∷ push_segment ∷ []
    first_calls_lem zero first h e = absurd (omega arith)
    first_calls_lem (suc n) first h e = rw e refl

    number_lem : drained.number ≡ length drained.packets / size
    number_lem =
        let room = used_of-room g_malloc drained.next.can_push in
        let upper : (drained.number + 1) * size ≡ drained.number * size + 1 * size =
          add-mul drained.number 1 size in
        sym (
          div-eq_of_lt-le {k = drained.number} size (omega (arith, drained.count))
            (omega (arith, drained.count, room, upper)))

    held_lem : used_of g_malloc drained.next.can_push ≡ length drained.packets % size
    held_lem =
        let room = used_of-room g_malloc drained.next.can_push in
        omega (
          arith,
          drained.count,
          room,
          ap (λ n. n * size) number_lem,
          div-add-mod' (length drained.packets) size,
        )

    made_lem :
        (sptsmuxer_init none >>= λ new.
        request_pads (sptsmuxer_set_property new pushbuf_size size) templates)
        ≡ ok requested.out
    unfolding sptsmuxer_set_property
    made_lem = rw init_lem requested.returns

    abbrev running : IsMuxing begun.out
    running = fresh.running.muxing

    pub element_runs :
        Run g_malloc gst_buffer_new_and_alloc uint64_scale handled size templates queues
    element_runs =
        let w =
          write_frames_received uint64_scale true false begun.out drained.frames fresh.running
            drained.playable
            (HasSpace-begun (length drained.frames) (omega (arith, drained.as_many, space))) in
        let same : w.1 ≡ drained.packets =
          ap (λ p. p.1) (ok-injective (sym w.2 ∙ drained.writes)) in
        record {
          muxer = requested.out;
          made = made_lem;
          out = drained.out;
          packets = drained.packets;
          returns =
              drained.returns
              ∙ rw
                  (
                    first_calls_lem (waiting queues) requested.out.first some_frame
                        requested.kept.0,
                    number_lem,
                  )
                  refl;
          gone = drained.gone;
          held = held_of g_malloc drained.next.can_push;
          order = drained.order;
          held_count = length-held_of g_malloc drained.next.can_push ∙ held_lem;
          in_buffer = held_of-Contains g_malloc drained.next.can_push;
          emptied = drained.emptied;
          frames = drained.frames;
          merged = drained.merged;
          sent = drained.next.started;
          writes = rw begun.returns drained.writes;
          video =
              moved (λ c ps. Receives video_pid c ps (video_frames uint64_scale drained.frames))
                fresh.stream_counters.0 same w.4;
          audio =
              moved
                (λ c ps. Receives audio_pid c ps (audio_frames uint64_scale false drained.frames))
                fresh.stream_counters.1 same
                (subst
                  (λ b.
                    Receives audio_pid running.audio_counter w.1
                      (audio_frames uint64_scale b drained.frames))
                  (ap (ltb 0) fresh.counts.0) w.5);
          pat_section = running.pat_body;
          pat =
              moved
                (λ c ps.
                  demux 0 c ps ≡ some ([], replicate (groups drained.frames) running.pat_body))
                fresh.table_counters.0 same w.6;
          pat_read = ap (λ c. decode_pat (drop 4 c)) (sym running.pat_at) ∙ begun.pat;
          pmt_section = running.pmt_body;
          pmt =
              moved
                (λ c ps.
                  demux pmt_pid c ps
                  ≡ some ([], replicate (groups drained.frames) running.pmt_body))
                fresh.table_counters.1 same w.7;
          pmt_read =
              ap (λ c. decode_pmt (drop 4 c)) (sym running.pmt_at) ∙ begun.pmt ∙ rw has_video refl;
        }
