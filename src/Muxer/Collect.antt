-- ===== src/Muxer/Collect.antt =====
-- `sptsmuxer_collected` as a whole: the frame that it takes, and the state that it leaves.
use sptsmuxer.Base.{
  ℕ, ◌+◌, ◌*◌, ◌≡◌, inl, inr, refl, sym, ◌∙◌, ◌++◌, append-nil, ap, ap₂, arith, List, [], ◌∷◌, Bool,
  true, false, Option, none, some, Bytes, Result, ok, ok-injective, ◌>>=◌, All, length, replicate,
  if◌then◌else◌,
}
use sptsmuxer.Ts.Demux.{demux-length}
use sptsmuxer.Spts.State.{SpTs, Buffer, video_pid}
use sptsmuxer.Spts.Frame.Stepped.{Stepped}
use sptsmuxer.Spts.Frame.Run.{write_frame-Stepped}
use sptsmuxer.Spts.Frame.Multiplexed.{HasSpace, Gives-whole, Stepped-grows}
use sptsmuxer.Muxer.{
  MuxerState, SrcCall, set_caps, push_segment, set_pcr_reference, begin_stream,
  sptsmuxer_srcpad_setcaps, next_collectdata, peek_times, write_next, sptsmuxer_collected,
}
use sptsmuxer.Muxer.Push.{IsPacket}
use sptsmuxer.Muxer.Allocate.{held_of, Taken, push_packets-Taken}
use sptsmuxer.Muxer.Choice.{IsEarliest, next_collectdata-IsEarliest}
use sptsmuxer.Muxer.Queue.{
  waiting, Pops-All, Popped, pop-Popped, NoneEarlier-IsFrom, IsTimed, peek_times-AllTimed,
  none-waiting,
}
use sptsmuxer.Muxer.Element.{
  with_program, first_calls, IsFrame, CanPush-kept, used_of-kept, held_of-kept, FirstCall,
  IsElement, Called, Collects,
}

abbrev begin_when : Bool → MuxerState → Result (MuxerState × List SrcCall)
begin_when first muxer =
    if first
    then (do
      spts ← set_pcr_reference muxer.spts
      ok (record muxer { spts = spts; first = false }, set_caps 188 ∷ push_segment ∷ []))
    else ok (muxer, [])

pub begin_stream_lem :
    (handled : Bool) (muxer : MuxerState) (started : SpTs)
    → (if muxer.first then set_pcr_reference muxer.spts else ok muxer.spts) ≡ ok started
    → begin_stream handled muxer
      ≡ ok (with_program muxer started muxer.collect, first_calls muxer.first)
unfolding begin_stream sptsmuxer_srcpad_setcaps
begin_stream_lem handled muxer started starts = from muxer.first refl starts
  where
    from :
        (first : Bool)
        → muxer.first ≡ first
        → (if first then set_pcr_reference muxer.spts else ok muxer.spts) ≡ ok started
        → begin_when first muxer ≡ ok (with_program muxer started muxer.collect, first_calls first)
    from true e s = rw s refl
    from false e s = ap₂ (λ p f. ok (record muxer { spts = p; first = f }, [])) (ok-injective s) e

pub first_call :
    (g_malloc : ℕ → Option Bytes) (gst_buffer_new_and_alloc : ℕ → Bytes)
    (uint64_scale : ℕ → ℕ → ℕ → ℕ) (handled : Bool) (muxer : MuxerState) {started : SpTs}
    (queues : List (List Buffer))
    → muxer.first ≡ true
    → set_pcr_reference muxer.spts ≡ ok started
    → FirstCall g_malloc gst_buffer_new_and_alloc uint64_scale handled muxer started queues
unfolding sptsmuxer_collected
first_call g_malloc gst_buffer_new_and_alloc uint64_scale handled muxer {started} queues first
      starts =
    rw
      (
        begin_stream_lem handled (record muxer { collect = queues }) started (rw first starts),
        first,
      )
      refl

module _ (g_malloc : ℕ → Option Bytes) (gst_buffer_new_and_alloc : ℕ → Bytes)
    (uint64_scale : ℕ → ℕ → ℕ → ℕ) (video audio : Bool) where
  module _ (muxer : MuxerState) (size : ℕ)
      (e : IsElement g_malloc uint64_scale video audio muxer size) where
    abbrev started : MuxerState
    started = with_program muxer e.started muxer.collect

    abbrev WritesNext : MuxerState → List Bytes → Type 0
    WritesNext out pushed =
        write_next g_malloc gst_buffer_new_and_alloc uint64_scale started ≡ ok (out, pushed)

    idle_lem :
        next_collectdata 0 (peek_times muxer.collect) none ≡ none
        → write_next g_malloc gst_buffer_new_and_alloc uint64_scale started ≡ ok (started, [])
    unfolding write_next
    idle_lem chosen = rw (write_next, chosen) refl

    idle :
        next_collectdata 0 (peek_times muxer.collect) none ≡ none
        → waiting muxer.collect ≡ 0
        → Called g_malloc gst_buffer_new_and_alloc uint64_scale video audio e WritesNext
    idle chosen nothing = record {
      out = started;
      number = 0;
      returns = idle_lem chosen;
      next = record {
        started = e.started;
        starts = refl;
        running = e.running;
        can_push = CanPush-kept g_malloc muxer size false e.started muxer.collect e.can_push;
        queued = e.queued;
      };
      begun = refl;
      packets = [];
      count =
          omega (arith, used_of-kept g_malloc muxer size false e.started muxer.collect e.can_push);
      gone = [];
      order =
          held_of-kept g_malloc muxer size false e.started muxer.collect e.can_push
          ∙ sym (append-nil (held_of g_malloc e.can_push));
      grows = (omega arith, omega arith);
      effect = inl (nothing, refl, refl, refl);
    }

    module _ (k time : ℕ)
        (chosen : next_collectdata 0 (peek_times muxer.collect) none ≡ some (k, time))
        (earliest : IsEarliest (peek_times muxer.collect) k time)
        (space : HasSpace e.started 1) where
      popped : Popped muxer.collect k time
      popped = pop-Popped muxer.collect k time earliest.at

      its-IsFrame : IsFrame video audio popped.buffer × All (All (IsFrame video audio)) popped.rest
      its-IsFrame = Pops-All (IsFrame video audio) popped.pops e.queued

      one : Stepped uint64_scale video audio e.running popped.buffer
      one =
          write_frame-Stepped uint64_scale video audio e.started popped.buffer e.running
            its-IsFrame.0.0 (omega (arith, space.groups_space))

      packets-IsPacket : All IsPacket one.packets
      packets-IsPacket =
          demux-length video_pid e.running.muxing.video_counter one.packets
            ([], one.shown.video_shown.units) (Gives-whole one.shown.video_shown.gives)

      abbrev sent : MuxerState
      sent = with_program muxer one.out popped.rest

      takes :
          Taken g_malloc gst_buffer_new_and_alloc
            (CanPush-kept g_malloc muxer size false one.out popped.rest e.can_push)
            one.packets
      takes =
          push_packets-Taken g_malloc gst_buffer_new_and_alloc sent size one.packets
            packets-IsPacket (CanPush-kept g_malloc muxer size false one.out popped.rest e.can_push)

      wrote_lem :
          write_next g_malloc gst_buffer_new_and_alloc uint64_scale started
          ≡ ok (takes.out, replicate takes.number (gst_buffer_new_and_alloc (size * 188)))
      unfolding write_next
      wrote_lem = rw (write_next, chosen, popped.returns, one.returns) takes.returns

      wrote : Called g_malloc gst_buffer_new_and_alloc uint64_scale video audio e WritesNext
      wrote = record {
        out = takes.out;
        number = takes.number;
        returns = wrote_lem;
        next = record {
          started = one.out;
          starts = rw (takes.kept.2, takes.kept.0) refl;
          running = one.next;
          can_push = takes.next;
          queued = rw takes.kept.1 its-IsFrame.1;
        };
        begun = takes.kept.2;
        packets = one.packets;
        count =
            takes.count
            ∙ ap (λ u. u + length one.packets)
                (used_of-kept g_malloc muxer size false one.out popped.rest e.can_push);
        gone = takes.gone;
        order =
            takes.order
            ∙ ap (λ l. l ++ one.packets)
                (held_of-kept g_malloc muxer size false one.out popped.rest e.can_push);
        grows = Stepped-grows uint64_scale video audio one space;
        effect = inr (record {
          buffer = popped.buffer;
          is_frame = its-IsFrame.0;
          pops = rw takes.kept.1 popped.pops;
          earliest = rw popped.its_time (NoneEarlier-IsFrom muxer.collect time earliest.least);
          writes = one.returns;
        });
      }

  -- The frame, if any, behind the choice.
  write_next-Called :
      (muxer : MuxerState) (size : ℕ) (e : IsElement g_malloc uint64_scale video audio muxer size)
      → HasSpace e.started 1
      → Called g_malloc gst_buffer_new_and_alloc uint64_scale video audio e
          (WritesNext muxer size e)
  write_next-Called muxer size e space =
      elim (next_collectdata-IsEarliest (peek_times muxer.collect)
        (peek_times-AllTimed muxer.collect (timed muxer.collect e.queued))) [
          | inl (chosen, empty) ↦ idle muxer size e chosen (none-waiting muxer.collect empty)
          | inr (k, time, chosen, earliest) ↦
              wrote muxer size e k time (chosen ∙ ap (λ n. some (n, time)) (omega arith)) earliest
                space
        ]
    where
      timed_pad : (pad : List Buffer) → All (IsFrame video audio) pad → All IsTimed pad
      timed_pad [] all = tt
      timed_pad (buffer ∷ pad) all = (all.0.1, timed_pad pad all.1)

      timed :
          (pads : List (List Buffer))
          → All (All (IsFrame video audio)) pads
          → All (All IsTimed) pads
      timed [] all = tt
      timed (pad ∷ pads) all = (timed_pad pad all.0, timed pads all.1)

  pub sptsmuxer_collected-Called :
      (handled : Bool) (muxer : MuxerState) (size : ℕ)
      (e : IsElement g_malloc uint64_scale video audio muxer size)
      → HasSpace e.started 1
      → Called g_malloc gst_buffer_new_and_alloc uint64_scale video audio e
          (Collects g_malloc gst_buffer_new_and_alloc uint64_scale handled muxer)
  sptsmuxer_collected-Called handled muxer size e space =
      let c = write_next-Called muxer size e space in
      record {
        out = c.out;
        number = c.number;
        returns =
            unfold sptsmuxer_collected in
            rw (begin_stream_lem handled muxer e.started e.starts, c.returns) refl;
        next = c.next;
        begun = c.begun;
        packets = c.packets;
        count = c.count;
        gone = c.gone;
        order = c.order;
        grows = c.grows;
        effect = c.effect;
      }
