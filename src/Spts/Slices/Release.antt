-- ===== src/Spts/Slices/Release.antt =====
-- `spts_release` after any calls of `spts_add_stream`: what is freed, and what is not.
use sptsmuxer.Base.{
  ℕ, ◌+◌, ◌≡◌, ◌≢◌, refl, sym, ap, ◌∙◌, arith, true, Bool-cases, inl, inr, List, [], ◌∷◌, ◌++◌, ok,
  All, All-append, append_assoc, length, ◌==◌, ==_iff,
}
use sptsmuxer.Psi.{stream_type_video_h264}
use sptsmuxer.Spts.Slices.{
  Slices, Pointers, g_slice_free, new_slices, add_stream_slice, add_stream_slices,
  spts_tspacket_release, spts_release,
}

-- The documented behaviour of `g_slice_new0`: the slice is not one of those in use.
abbrev pub IsNew : ℕ → Slices → Type 0
IsNew address = All (λ slice. slice ≢ address)

free_head : (address : ℕ) (slices : Slices) → g_slice_free address (address ∷ slices) ≡ ok slices
unfolding g_slice_free
free_head address slices = rw ((==_iff address address).1 refl) refl

-- A slice behind others.
free_behind :
    (address : ℕ) (before slices : Slices)
    → All (λ slice. slice ≢ address) before
    → g_slice_free address (before ++ (address ∷ slices)) ≡ ok (before ++ slices)
unfolding g_slice_free
free_behind address [] slices new = free_head address slices
free_behind address (slice ∷ before) slices new = elim (Bool-cases (slice == address)) [
  | inl same ↦ absurd (new.0 ((==_iff slice address).0 same))
  | inr other ↦ rw (other, free_behind address before slices new.1) refl
]

All-right {ℓ κ} : {A : Type ℓ} (P : A → Type κ) (xs ys : List A) → All P (xs ++ ys) → All P ys
All-right P [] ys h = h
All-right P (x ∷ xs) ys h = All-right P xs ys h.1

-- The pointers that `spts_release` frees.
abbrev Kept : Pointers → Pointers → Type 0
Kept next pointers =
    (next.pat ≡ pointers.pat)
    × (next.pmt_tspacket ≡ pointers.pmt_tspacket)
    × (next.spts ≡ pointers.spts)

add_stream-Kept :
    (g_slice_new0 : Slices → ℕ) (pointers : Pointers) (stream_type : ℕ) (slices : Slices)
    → Kept (add_stream_slice g_slice_new0 pointers stream_type slices).0 pointers
unfolding add_stream_slice
add_stream-Kept g_slice_new0 pointers stream_type slices =
    elim (Bool-cases (stream_type == stream_type_video_h264)) [
      | inl video ↦ rw video (refl, refl, refl)
      | inr audio ↦ rw audio (refl, refl, refl)
    ]

add_streams-Kept :
    (g_slice_new0 : Slices → ℕ) (pointers : Pointers) (stream_types : List ℕ) (slices : Slices)
    → Kept (add_stream_slices g_slice_new0 pointers stream_types slices).0 pointers
unfolding add_stream_slices
add_streams-Kept g_slice_new0 pointers [] slices = (refl, refl, refl)
add_streams-Kept g_slice_new0 pointers (stream_type ∷ stream_types) slices =
    let (next, more) = add_stream_slice g_slice_new0 pointers stream_type slices in
    let one = add_stream-Kept g_slice_new0 pointers stream_type slices in
    let rest = add_streams-Kept g_slice_new0 next stream_types more in
    (rest.0 ∙ one.0, rest.1 ∙ one.1, rest.2 ∙ one.2)

-- The slices of the streams, in front of the three that `spts_new` has allocated.
record Added (pmt pat spts number : ℕ) (others slices : Slices) : Type 0 where
  added : Slices
  as_many : length added ≡ number
  in_front : slices ≡ added ++ (pmt ∷ pat ∷ spts ∷ others)
  apart : IsNew pmt added × IsNew pat added × IsNew spts added

module _ (g_slice_new0 : Slices → ℕ)
    (is_new : (slices : Slices) → IsNew (g_slice_new0 slices) slices) where
  add_streams-Added :
      (pointers : Pointers) (pmt pat spts : ℕ) (others streams : Slices) (stream_types : List ℕ)
      → IsNew pmt streams × IsNew pat streams × IsNew spts streams
      → Added pmt pat spts
          (length streams + length stream_types)
          others
          (add_stream_slices g_slice_new0 pointers stream_types
            (streams ++ (pmt ∷ pat ∷ spts ∷ others))).1
  unfolding add_stream_slices add_stream_slice
  add_streams-Added pointers pmt pat spts others streams [] apart = record {
    added = streams;
    as_many = omega arith;
    in_front = refl;
    apart = apart;
  }
  add_streams-Added pointers pmt pat spts others streams (stream_type ∷ stream_types) apart =
      let slices = streams ++ (pmt ∷ pat ∷ spts ∷ others) in
      let stream = g_slice_new0 slices in
      let new =
        All-right (λ slice. slice ≢ stream) streams (pmt ∷ pat ∷ spts ∷ others) (is_new slices) in
      let rest =
        add_streams-Added (add_stream_slice g_slice_new0 pointers stream_type slices).0 pmt pat spts
          others (stream ∷ streams) stream_types
          (
            ((λ e. new.0 (sym e)), apart.0),
            ((λ e. new.1.0 (sym e)), apart.1),
            ((λ e. new.1.1.0 (sym e)), apart.2),
          ) in
      record {
        added = rest.added;
        as_many = omega (arith, rest.as_many);
        in_front = rest.in_front;
        apart = rest.apart;
      }

  -- Where g_slice_new0 gives a slice that is not in use: after spts_new and any number of calls of
  -- spts_add_stream, spts_release frees three slices that are in use, each once, and returns TRUE;
  -- what is left in use is what was in use before, and one slice for each call of spts_add_stream.
  pub release-new :
      (slices : Slices) (stream_types : List ℕ)
      → (leaked : Slices) × (length leaked ≡ length stream_types)
        × ((do
          let (new, allocated) = new_slices g_slice_new0 slices
          let (pointers, more) = add_stream_slices g_slice_new0 new stream_types allocated
          spts_release pointers more)
            ≡ ok (leaked ++ slices, true))
  unfolding new_slices spts_release spts_tspacket_release
  release-new slices stream_types =
      let spts = g_slice_new0 slices in
      let pat = g_slice_new0 (spts ∷ slices) in
      let pmt = g_slice_new0 (pat ∷ spts ∷ slices) in
      let new = (new_slices g_slice_new0 slices).0 in
      let a = add_streams-Added new pmt pat spts slices [] stream_types (tt, tt, tt) in
      let kept = add_streams-Kept g_slice_new0 new stream_types (pmt ∷ pat ∷ spts ∷ slices) in
      let apart = is_new (pat ∷ spts ∷ slices) in
      (
        a.added,
        omega (arith, a.as_many),
        rw
            (
              kept.0,
              kept.1,
              kept.2,
              a.in_front,
              free_pat a.added pmt pat (spts ∷ slices) a.apart.1 (λ e. apart.0 (sym e)),
              free_behind pmt a.added (spts ∷ slices) a.apart.0,
              free_behind spts a.added slices a.apart.2,
            )
            refl,
      )
    where
      free_pat :
          (added : Slices) (pmt pat : ℕ) (others : Slices)
          → IsNew pat added
          → pmt ≢ pat
          → g_slice_free pat (added ++ (pmt ∷ pat ∷ others)) ≡ ok (added ++ (pmt ∷ others))
      free_pat added pmt pat others new differ =
          ap (g_slice_free pat) (sym (append_assoc added (pmt ∷ []) (pat ∷ others)))
          ∙ free_behind pat (added ++ (pmt ∷ [])) others
              (All-append (λ slice. slice ≢ pat) added (pmt ∷ []) new (differ, tt))
          ∙ ap ok (append_assoc added (pmt ∷ []) others)
