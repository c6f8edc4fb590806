-- ===== src/Muxer/Callback.antt =====
-- The element with the calls of its callback at the points where spts.c makes them.
pub mod Push
pub mod Collect
pub mod Reach
use sptsmuxer.Base.{
  ◌>>=◌, ℕ, Bool, Option, none, some, List, [], ◌++◌, Bytes, Result, ok, load, deref, map,
}
use sptsmuxer.Spts.State.{SpTs}
use sptsmuxer.Spts.Callback.{Callback, spts_set_write_func, spts_write_frame_to}
use sptsmuxer.Muxer.{
  MuxerState, SrcCall, push_buffer, sptsmuxer_push_packet_cb, begin_stream, next_collectdata,
  peek_times, pop,
}

module _ (g_malloc : ℕ → Option Bytes) (gst_buffer_new_and_alloc : ℕ → Bytes) where
  -- `sptsmuxer_push_packet_cb` as a callback: `write_func_data` is the element, here with the
  -- GstBuffers that it has pushed.
  unfoldable pub push_packet_cb :
      Bytes → ℕ → MuxerState × List Bytes → Result ((MuxerState × List Bytes) × Bool)
  push_packet_cb packet len (muxer, pushed) = do
    bytes ← load packet 0 len
    (next, more, result) ← sptsmuxer_push_packet_cb g_malloc gst_buffer_new_and_alloc muxer bytes
    ok ((next, pushed ++ more), result)

  -- As `sptsmuxer_init` sets it.
  abbrev pub callback_of : MuxerState → Callback (MuxerState × List Bytes)
  callback_of muxer =
      spts_set_write_func (record { write_func = none; write_func_data = (muxer, []) })
        push_packet_cb (muxer, [])

  -- `spts` is not a part of the element in the code but behind a pointer: what a frame leaves
  -- there meets the element that the callbacks have left.
  abbrev pub frame_done :
      Result (SpTs × Callback (MuxerState × List Bytes)) → Result (MuxerState × List Bytes)
  frame_done written = do
    (sent, callback) ← written
    let (left, pushed) = callback.write_func_data
    ok (record left { spts = sent }, pushed)

  module _ (uint64_scale : ℕ → ℕ → ℕ → ℕ) where
    unfoldable pub write_next_to : MuxerState → Result (MuxerState × List Bytes)
    write_next_to muxer = elim (next_collectdata 0 (peek_times muxer.collect) none) [
      | none ↦ ok (muxer, [])
      | some (i, time) ↦ (do
        (buffer, pads) ← deref (pop i muxer.collect)
        frame_done (
            spts_write_frame_to uint64_scale muxer.spts buffer
              (callback_of (record muxer { collect = pads }))))
    ]

    unfoldable pub sptsmuxer_collected_to : Bool → MuxerState → Result (MuxerState × List SrcCall)
    sptsmuxer_collected_to gst_pad_push_event muxer = do
      (started, calls) ← begin_stream gst_pad_push_event muxer
      (out, pushed) ← write_next_to started
      ok (out, calls ++ map push_buffer pushed)
