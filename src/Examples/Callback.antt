-- ===== src/Examples/Callback.antt =====
-- The callback and the slices, on instances.
use sptsmuxer.Base.{
  ℕ, suc, ◌+◌, ◌≤◌, ◌≡◌, refl, arith, true, false, List, [], ◌∷◌, ◌++◌, Bytes, ok, none, length,
}
use sptsmuxer.Spts.Callback.{Callback, spts_set_write_func, write_packet, write_nulls_to}
use sptsmuxer.Spts.Slices.{Slices, new_slices, add_stream_slices, spts_release}
use sptsmuxer.Spts.Slices.Release.{IsNew, release-new}
use sptsmuxer.Muxer.{SrcCall, sptsmuxer_collected}
use sptsmuxer.Muxer.{MuxerState}
use sptsmuxer.Muxer.Callback.{sptsmuxer_collected_to}
use sptsmuxer.Muxer.Callback.Reach.{Reach-collected_to}
use sptsmuxer.Muxer.Reach.{start, arrive, here}
use sptsmuxer.Examples.{scale}
use sptsmuxer.Examples.Element.{g_malloc, new_buffer}
use sptsmuxer.Examples.Whole.{idr-IsFrame, later, muxer-IsElement}

-- A callback that keeps the packets and their lengths.
abbrev recording : Callback (List (Bytes × ℕ))
recording =
    spts_set_write_func (record { write_func = none; write_func_data = [] })
      (λ packet len kept. ok (kept ++ ((packet, len) ∷ []), true)) []

recorded :
    write_nulls_to 3 (0x47 ∷ []) 5 7 recording
    ≡ ok (7, record recording { write_func_data = (0x47 ∷ [], 188) ∷ (0x47 ∷ [], 188) ∷ [] })
unfolding write_nulls_to write_packet
recorded = refl

Reach-collected_to_example :
    (next : MuxerState) × (calls : List SrcCall) × (sptsmuxer_collected g_malloc new_buffer scale
        true later
      ≡ ok (next, calls))
    × (sptsmuxer_collected_to g_malloc new_buffer scale true later ≡ ok (next, calls))
Reach-collected_to_example =
    Reach-collected_to g_malloc new_buffer scale true false 2 muxer-IsElement
      (record { packets_space = omega arith; groups_space = omega arith })
      (arrive start idr-IsFrame here) true

-- One more than every address in use.
abbrev above : Slices → ℕ
above [] = 1
above (slice ∷ slices) = suc (slice + above slices)

above-IsNew : (slices : Slices) (bound : ℕ) → above slices ≤ bound → IsNew bound slices
above-IsNew [] bound h = tt
above-IsNew (slice ∷ slices) bound h =
    ((λ e. absurd (omega (arith, e, h))), above-IsNew slices bound (omega (arith, h)))

release-new_example :
    (leaked : Slices) × (length leaked ≡ 3)
    × ((do
      let (new, allocated) = new_slices above (40 ∷ [])
      let (pointers, more) = add_stream_slices above new (0x1b ∷ 0x0f ∷ 0x1b ∷ []) allocated
      spts_release pointers more)
        ≡ ok (leaked ++ (40 ∷ []), true))
release-new_example =
    release-new above (λ slices. above-IsNew slices (above slices) (omega arith)) (40 ∷ [])
      (0x1b ∷ 0x0f ∷ 0x1b ∷ [])
