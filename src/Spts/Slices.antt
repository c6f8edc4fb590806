-- ===== src/Spts/Slices.antt =====
-- What spts.c allocates and frees: the slices of `spts_new` and `spts_add_stream`, and
-- `spts_release`.
pub mod Release
use sptsmuxer.Base.{
  ◌>>=◌, ℕ, Bool, true, List, [], ◌∷◌, Option, none, some, Result, ok, fault, ◌==◌, if◌then◌else◌,
}
use sptsmuxer.Base.Fault.{not_allocated}
use sptsmuxer.Psi.{stream_type_video_h264}

-- The slices that are allocated, the last first.
abbrev pub Slices : Type 0
Slices = List ℕ

-- `g_slice_free` on a slice that is not allocated is an error.
unfoldable pub g_slice_free : ℕ → Slices → Result Slices
g_slice_free address [] = fault not_allocated
g_slice_free address (slice ∷ slices) =
    let rest = (do left ← g_slice_free address slices; ok (slice ∷ left)) in
    if slice == address then ok slices else rest

-- The pointers of `SpTs`, and the pointer to it.
pub record Pointers : Type 0 where
  pub spts : ℕ
  pub pat : ℕ
  pub pmt_tspacket : ℕ
  pub audio_stream : Option ℕ
  pub video_stream : Option ℕ

-- `g_slice_new0`: the address of a new slice.
module _ (g_slice_new0 : Slices → ℕ) where
  unfoldable pub new_slices : Slices → Pointers × Slices
  new_slices slices =
      let spts = g_slice_new0 slices in
      let pat = g_slice_new0 (spts ∷ slices) in
      let pmt_tspacket = g_slice_new0 (pat ∷ spts ∷ slices) in
      (
        record {
          spts = spts;
          pat = pat;
          pmt_tspacket = pmt_tspacket;
          audio_stream = none;
          video_stream = none;
        },
        pmt_tspacket ∷ pat ∷ spts ∷ slices,
      )

  unfoldable pub add_stream_slice : Pointers → ℕ → Slices → Pointers × Slices
  add_stream_slice pointers stream_type slices =
      let stream = g_slice_new0 slices in
      (
        if stream_type == stream_type_video_h264
            then record pointers { video_stream = some stream }
            else record pointers { audio_stream = some stream },
        stream ∷ slices,
      )

  unfoldable pub add_stream_slices : Pointers → List ℕ → Slices → Pointers × Slices
  add_stream_slices pointers [] slices = (pointers, slices)
  add_stream_slices pointers (stream_type ∷ stream_types) slices =
      let (next, more) = add_stream_slice pointers stream_type slices in
      add_stream_slices next stream_types more

unfoldable pub spts_tspacket_release : ℕ → Slices → Result Slices
spts_tspacket_release tspacket slices = g_slice_free tspacket slices

-- It returns TRUE.
unfoldable pub spts_release : Pointers → Slices → Result (Slices × Bool)
spts_release pointers slices = do
  without_pat ← spts_tspacket_release pointers.pat slices
  without_pmt ← spts_tspacket_release pointers.pmt_tspacket without_pat
  left ← g_slice_free pointers.spts without_pmt
  ok (left, true)
