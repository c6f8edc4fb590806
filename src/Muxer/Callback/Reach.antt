-- ===== src/Muxer/Callback/Reach.antt =====
-- Any interleaving of arrivals and calls, with the calls of the callback in their places.
use sptsmuxer.Base.{ℕ, ◌+◌, ◌≡◌, Bool, List, Option, Bytes, ok}
use sptsmuxer.Spts.Frame.Multiplexed.{HasSpace}
use sptsmuxer.Muxer.{MuxerState, SrcCall, sptsmuxer_collected}
use sptsmuxer.Muxer.Element.{IsElement}
use sptsmuxer.Muxer.Reach.{Reach, Reach-safe}
use sptsmuxer.Muxer.Callback.{sptsmuxer_collected_to}
use sptsmuxer.Muxer.Callback.Collect.{collected-through}

module _ (g_malloc : ℕ → Option Bytes) (gst_buffer_new_and_alloc : ℕ → Bytes)
    (uint64_scale : ℕ → ℕ → ℕ → ℕ) (video audio : Bool) where
  -- From an element that satisfies its invariant, after any interleaving of frames that arrive and
  -- calls of sptsmuxer_collected, as many as keep the counts below 2^64: the next call does not
  -- fault, and with each packet given to sptsmuxer_push_packet_cb at the place where spts.c writes
  -- it, it leaves the same element and makes the same calls on the source pad as with the packets
  -- collected in a list and pushed behind the frame.
  pub Reach-collected_to :
      {muxer out : MuxerState} {n : ℕ} (size : ℕ)
      (e : IsElement g_malloc uint64_scale video audio muxer size)
      → HasSpace e.started (n + 1)
      → Reach g_malloc gst_buffer_new_and_alloc uint64_scale video audio muxer n out
      → (handled : Bool)
      → (next : MuxerState) × (calls : List SrcCall) × (sptsmuxer_collected g_malloc
            gst_buffer_new_and_alloc uint64_scale handled out
          ≡ ok (next, calls))
        × (sptsmuxer_collected_to g_malloc gst_buffer_new_and_alloc uint64_scale handled out
            ≡ ok (next, calls))
  Reach-collected_to size e space reach handled =
      let (next, calls, returns) =
        Reach-safe g_malloc gst_buffer_new_and_alloc uint64_scale video audio size e space reach
          handled in
      (
        next,
        calls,
        returns,
        collected-through g_malloc gst_buffer_new_and_alloc uint64_scale handled _ returns,
      )
