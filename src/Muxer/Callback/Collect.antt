-- ===== src/Muxer/Callback/Collect.antt =====
-- `sptsmuxer_collected` with the calls of the callback in their places.
use sptsmuxer.Base.{
  ℕ, ◌≡◌, ap, Bool, Option, none, some, List, [], ◌++◌, Bytes, Result, ok, fault, bind-returns,
  ◌>>=◌, deref, map,
}
use sptsmuxer.Spts.State.{SpTs, Buffer}
use sptsmuxer.Spts.Frame.{spts_write_frame}
use sptsmuxer.Spts.Callback.{Writes, spts_write_frame_to}
use sptsmuxer.Spts.Callback.Agrees.{Returns, write_all}
use sptsmuxer.Spts.Callback.Frame.{spts_write_frame-Returns}
use sptsmuxer.Muxer.{
  MuxerState, SrcCall, push_buffer, push_packets, begin_stream, next_collectdata, peek_times, pop,
  write_next, sptsmuxer_collected,
}
use sptsmuxer.Muxer.Callback.{callback_of, frame_done, write_next_to, sptsmuxer_collected_to}
use sptsmuxer.Muxer.Callback.Push.{with_spts, write_all-push}

module _ (g_malloc : ℕ → Option Bytes) (gst_buffer_new_and_alloc : ℕ → Bytes) where
  module _ (uint64_scale : ℕ → ℕ → ℕ → ℕ) where
    frame_done-push :
        (muxer : MuxerState) (written : Result (SpTs × List Bytes))
        (k : Writes (MuxerState × List Bytes) SpTs) {r : MuxerState × List Bytes}
        → Returns [] written k
        → (do
          (sent, packets) ← written
          push_packets g_malloc gst_buffer_new_and_alloc (with_spts sent muxer) packets)
          ≡ ok r
        → frame_done g_malloc gst_buffer_new_and_alloc
            (k (callback_of g_malloc gst_buffer_new_and_alloc muxer))
          ≡ ok r
    unfolding write_all
    frame_done-push muxer (fault e) k returns h = absurd (cc)
    frame_done-push muxer (ok (sent, packets)) k {r} returns h =
        let (left, all, its) =
          write_all-push g_malloc gst_buffer_new_and_alloc sent muxer packets [] h in
        rw (returns.runs (callback_of g_malloc gst_buffer_new_and_alloc muxer), all)
          (ap (λ m. ok (m, r.1)) its)

    write_next-through :
        (muxer : MuxerState) {r : MuxerState × List Bytes}
        → write_next g_malloc gst_buffer_new_and_alloc uint64_scale muxer ≡ ok r
        → write_next_to g_malloc gst_buffer_new_and_alloc uint64_scale muxer ≡ ok r
    unfolding write_next write_next_to
    write_next-through muxer {r} h = chosen (next_collectdata 0 (peek_times muxer.collect) none) h
      where
        taken :
            (popped : Result (Buffer × List (List Buffer)))
            → (do
              (buffer, pads) ← popped
              (sent, packets) ← spts_write_frame uint64_scale muxer.spts buffer
              push_packets g_malloc gst_buffer_new_and_alloc
                  (record muxer { spts = sent; collect = pads })
                  packets)
              ≡ ok r
            → (do
              (buffer, pads) ← popped
              frame_done g_malloc gst_buffer_new_and_alloc (
                  spts_write_frame_to uint64_scale muxer.spts buffer (
                    callback_of g_malloc gst_buffer_new_and_alloc
                      (record muxer { collect = pads }))))
              ≡ ok r
        taken (fault e) h' = absurd (cc)
        taken (ok (buffer, pads)) h' =
            frame_done-push (record muxer { collect = pads })
              (spts_write_frame uint64_scale muxer.spts buffer)
              (spts_write_frame_to uint64_scale muxer.spts buffer)
              (spts_write_frame-Returns (MuxerState × List Bytes) uint64_scale muxer.spts buffer) h'

        chosen :
            (choice : Option (ℕ × ℕ))
            → elim choice [
              | none ↦ ok (muxer, [])
              | some (i, time) ↦ (do
                (buffer, pads) ← deref (pop i muxer.collect)
                (sent, packets) ← spts_write_frame uint64_scale muxer.spts buffer
                push_packets g_malloc gst_buffer_new_and_alloc
                    (record muxer { spts = sent; collect = pads })
                    packets)
            ]
              ≡ ok r
            → elim choice [
              | none ↦ ok (muxer, [])
              | some (i, time) ↦ (do
                (buffer, pads) ← deref (pop i muxer.collect)
                frame_done g_malloc gst_buffer_new_and_alloc (
                    spts_write_frame_to uint64_scale muxer.spts buffer (
                      callback_of g_malloc gst_buffer_new_and_alloc
                        (record muxer { collect = pads }))))
            ]
              ≡ ok r
        chosen none h' = h'
        chosen (some (i, time)) h' = taken (deref (pop i muxer.collect)) h'

    pub collected-through :
        (handled : Bool) (muxer : MuxerState) {r : MuxerState × List SrcCall}
        → sptsmuxer_collected g_malloc gst_buffer_new_and_alloc uint64_scale handled muxer ≡ ok r
        → sptsmuxer_collected_to g_malloc gst_buffer_new_and_alloc uint64_scale handled muxer ≡ ok r
    unfolding sptsmuxer_collected sptsmuxer_collected_to
    collected-through handled muxer h =
        let (started, begins, rest) =
          bind-returns (begin_stream handled muxer)
            (λ s. (do
              (out, pushed) ← write_next g_malloc gst_buffer_new_and_alloc uint64_scale s.0
              ok (out, s.1 ++ map push_buffer pushed)))
            h in
        let (written, writes, e) =
          bind-returns (write_next g_malloc gst_buffer_new_and_alloc uint64_scale started.0)
            (λ w. ok (w.0, started.1 ++ map push_buffer w.1)) rest in
        rw (begins, write_next-through started.0 writes) e
