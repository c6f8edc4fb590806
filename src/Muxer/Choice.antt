-- ===== src/Muxer/Choice.antt =====
-- The pad that `sptsmuxer_collected` takes the next frame from.
use sptsmuxer.Base.{
  ℕ, zero, suc, ◌+◌, ◌≤◌, ◌<◌, ◌≡◌, ◌≢◌, refl, ◌∙◌, ap, arith, List, [], ◌∷◌, false, Option, none,
  some, ◌⊎◌, inl, inr, get_elem?, lt→ltb, le→not_ltb, ◌==◌,
}
use native.Mathlib.Decide.{dec_lt}
use sptsmuxer.Muxer.{next_collectdata, gst_clock_time_none}

-- Each time stamp at the head of a queue is above or at `time`.
abbrev pub NoneEarlier : ℕ → List (Option ℕ) → Type 0
NoneEarlier time heads = (k other : ℕ) → get_elem? heads k ≡ some (some other) → time ≤ other

-- The pad `k` has a frame of `time`, no pad has an earlier one, and the pads before it have later
-- ones.
pub record IsEarliest (heads : List (Option ℕ)) (k time : ℕ) : Type 0 where
  pub at : get_elem? heads k ≡ some (some time)
  pub least : NoneEarlier time heads
  pub first : (j other : ℕ) → j < k → get_elem? heads j ≡ some (some other) → time < other

-- What becomes of a pad that is chosen so far.
abbrev pub Outcome : ℕ → List (Option ℕ) → ℕ → ℕ → Type 0
Outcome i heads j time =
    ((next_collectdata i heads (some (j, time)) ≡ some (j, time)) × NoneEarlier time heads)
    ⊎ ((k : ℕ) × (better : ℕ) × (next_collectdata i heads (some (j, time)) ≡ some (i + k, better))
        × (better < time)
        × IsEarliest heads k better)

-- The earliest of a list is the earliest behind one more pad on which nothing waits, or which is
-- later.
behind_none :
    {heads : List (Option ℕ)} {k time : ℕ}
    → IsEarliest heads k time
    → IsEarliest (none ∷ heads) (suc k) time
behind_none {heads} {k} {time} e = record { at = e.at; least = least'; first = first' }
  where
    least' : NoneEarlier time (none ∷ heads)
    least' zero other at = absurd cc
    least' (suc j) other at = e.least j other at

    first' :
        (j other : ℕ) → j < suc k → get_elem? (none ∷ heads) j ≡ some (some other) → time < other
    first' zero other h at = absurd cc
    first' (suc j) other h at = e.first j other (omega arith) at

behind_later :
    {heads : List (Option ℕ)} {k time x : ℕ}
    → time < x
    → IsEarliest heads k time
    → IsEarliest (some x ∷ heads) (suc k) time
behind_later {heads} {k} {time} {x} later e = record { at = e.at; least = least'; first = first' }
  where
    least' : NoneEarlier time (some x ∷ heads)
    least' zero other at = let same : x ≡ other = cc in omega (arith, same)
    least' (suc j) other at = e.least j other at

    first' :
        (j other : ℕ) → j < suc k → get_elem? (some x ∷ heads) j ≡ some (some other) → time < other
    first' zero other h at = let same : x ≡ other = cc in omega (arith, same)
    first' (suc j) other h at = e.first j other (omega arith) at

NoneEarlier-none :
    (heads : List (Option ℕ)) {time : ℕ} → NoneEarlier time heads → NoneEarlier time (none ∷ heads)
NoneEarlier-none heads e zero other at = absurd cc
NoneEarlier-none heads e (suc j) other at = e j other at

NoneEarlier-some :
    (heads : List (Option ℕ)) {time x : ℕ}
    → time ≤ x
    → NoneEarlier time heads
    → NoneEarlier time (some x ∷ heads)
NoneEarlier-some heads {x = x} h e zero other at = let same : x ≡ other = cc in omega (arith, same)
NoneEarlier-some heads h e (suc j) other at = e j other at

none_in_empty : {time : ℕ} → NoneEarlier time []
none_in_empty zero other at = absurd cc
none_in_empty (suc k) other at = absurd cc

at_head : {heads : List (Option ℕ)} {x : ℕ} → NoneEarlier x heads → IsEarliest (some x ∷ heads) 0 x
at_head {heads} {x} e = record {
  at = refl;
  least = NoneEarlier-some heads (omega arith) e;
  first = λ j other h at. absurd (omega arith);
}

outcome : (i : ℕ) (heads : List (Option ℕ)) (j time : ℕ) → Outcome i heads j time
unfolding next_collectdata
outcome i [] j time = inl (refl, none_in_empty)
outcome i (none ∷ heads) j time = elim (outcome (i + 1) heads j time) [
  | inl (same, none_earlier) ↦ inl (same, NoneEarlier-none heads none_earlier)
  | inr (k, better, chosen, less, earliest) ↦
      inr (
        suc k,
        better,
        chosen ∙ ap (λ n. some (n, better)) (omega arith),
        less,
        behind_none earliest,
      )
]
outcome i (some x ∷ heads) j time = elim (dec_lt x time) [
  | yes less ↦ elim (outcome (i + 1) heads i x) [
    | inl (same, none_earlier) ↦ inr (
      0,
      x,
      rw (lt→ltb x time less) (same ∙ ap (λ n. some (n, x)) (omega arith)),
      less,
      at_head none_earlier,
    )
    | inr (k, better, chosen, lesser, earliest) ↦ inr (
      suc k,
      better,
      rw (lt→ltb x time less) (chosen ∙ ap (λ n. some (n, better)) (omega arith)),
      omega arith,
      behind_later lesser earliest,
    )
  ]
  | no not_less ↦ elim (outcome (i + 1) heads j time) [
    | inl (same, none_earlier) ↦ inl (
      rw (le→not_ltb x time (omega arith)) same,
      NoneEarlier-some heads (omega arith) none_earlier,
    )
    | inr (k, better, chosen, lesser, earliest) ↦ inr (
      suc k,
      better,
      rw (le→not_ltb x time (omega arith)) (chosen ∙ ap (λ n. some (n, better)) (omega arith)),
      lesser,
      behind_later (omega arith) earliest,
    )
  ]
]

-- Every frame at the head of a queue has a time stamp.
abbrev pub AllTimed : List (Option ℕ) → Type 0
AllTimed heads = (k : ℕ) → get_elem? heads k ≢ some (some gst_clock_time_none)

-- The loop from the pad `i` on, with none chosen yet.
abbrev pub Choice : ℕ → List (Option ℕ) → Type 0
Choice i heads =
    ((next_collectdata i heads none ≡ none) × ((k time : ℕ) → get_elem? heads k ≢ some (some time)))
    ⊎ ((k : ℕ) × (time : ℕ) × (next_collectdata i heads none ≡ some (i + k, time))
        × IsEarliest heads k time)

next_collectdata_from : (i : ℕ) (heads : List (Option ℕ)) → AllTimed heads → Choice i heads
unfolding next_collectdata
next_collectdata_from i [] timed = inl (refl, nothing)
  where
    nothing : (k time : ℕ) → get_elem? {A = Option ℕ} [] k ≢ some (some time)
    nothing zero time at = cc
    nothing (suc k) time at = cc
next_collectdata_from i (none ∷ heads) timed =
    elim (next_collectdata_from (i + 1) heads (λ k. timed (suc k))) [
      | inl (chosen, empty) ↦ inl (chosen, nothing empty)
      | inr (k, time, chosen, earliest) ↦
          inr (suc k, time, chosen ∙ ap (λ n. some (n, time)) (omega arith), behind_none earliest)
    ]
  where
    nothing :
        ((k time : ℕ) → get_elem? heads k ≢ some (some time))
        → (k time : ℕ) → get_elem? (none ∷ heads) k ≢ some (some time)
    nothing empty zero time at = cc
    nothing empty (suc k) time at = empty k time at
next_collectdata_from i (some x ∷ heads) timed = elim (outcome (i + 1) heads i x) [
  | inl (same, none_earlier) ↦
      inr (0, x, rw is_timed (same ∙ ap (λ n. some (n, x)) (omega arith)), at_head none_earlier)
  | inr (k, better, chosen, lesser, earliest) ↦ inr (
    suc k,
    better,
    rw is_timed (chosen ∙ ap (λ n. some (n, better)) (omega arith)),
    behind_later lesser earliest,
  )
]
  where
    is_timed : (x == gst_clock_time_none) ≡ false
    is_timed =
        let different : x ≢ gst_clock_time_none = λ e. timed zero (ap (λ n. some (some n)) e) in
        ground arith

-- When every waiting frame has a time stamp: either no frame waits, and no pad is chosen; or the
-- pad is chosen whose frame is the earliest, the first of them where several are.
pub next_collectdata-IsEarliest : (heads : List (Option ℕ)) → AllTimed heads → Choice 0 heads
next_collectdata-IsEarliest heads timed = next_collectdata_from 0 heads timed
