-- ===== src/Muxer/Life.antt =====
-- `sptsmuxer_change_state`: the states of the element, and the collect pads that it starts and
-- stops.
use sptsmuxer.Base.{
  ◌≡◌, refl, sym, ap, ◌∙◌, All, List, [], ◌∷◌, ◌++◌, Bool, true, false, Option, none, some,
}

-- GstStateChange.
pub data Transition : Type 0 where
  null_to_ready : Transition
  ready_to_paused : Transition
  paused_to_playing : Transition
  playing_to_paused : Transition
  paused_to_ready : Transition
  ready_to_null : Transition

-- gst_collect_pads_start and gst_collect_pads_stop.
pub data CollectCall : Type 0 where
  collect_start : CollectCall
  collect_stop : CollectCall

-- The calls on the collect pads, and then the result of the parent class. PLAYING to PAUSED is the
-- default case.
unfoldable pub sptsmuxer_change_state {ℓ} :
    {Return : Type ℓ} → (Transition → Return) → Transition → List CollectCall × Return
sptsmuxer_change_state parent null_to_ready = ([], parent null_to_ready)
sptsmuxer_change_state parent ready_to_paused = (collect_start ∷ [], parent ready_to_paused)
sptsmuxer_change_state parent paused_to_playing = ([], parent paused_to_playing)
sptsmuxer_change_state parent playing_to_paused = ([], parent playing_to_paused)
sptsmuxer_change_state parent paused_to_ready = (collect_stop ∷ [], parent paused_to_ready)
sptsmuxer_change_state parent ready_to_null = ([], parent ready_to_null)

-- GstState.
pub data State : Type 0 where
  in_null : State
  in_ready : State
  in_paused : State
  in_playing : State

abbrev pub source : Transition → State
source null_to_ready = in_null
source ready_to_paused = in_ready
source paused_to_playing = in_paused
source playing_to_paused = in_playing
source paused_to_ready = in_paused
source ready_to_null = in_ready

abbrev pub target : Transition → State
target null_to_ready = in_ready
target ready_to_paused = in_paused
target paused_to_playing = in_playing
target playing_to_paused = in_paused
target paused_to_ready = in_ready
target ready_to_null = in_null

-- The transitions that GStreamer tries, with whether the parent class succeeds: else the element
-- stays in its state.
pub data Walk : State → List (Transition × Bool) → State → Type 0 where
  stay : {state : State} → Walk state [] state
  succeeds :
      {state out : State} (t : Transition) {ts : List (Transition × Bool)}
      → state ≡ source t
      → Walk (target t) ts out
      → Walk state ((t, true) ∷ ts) out
  fails :
      {state out : State} (t : Transition) {ts : List (Transition × Bool)}
      → state ≡ source t
      → Walk state ts out
      → Walk state ((t, false) ∷ ts) out

-- The collect pads are started or stopped although the element stays in its state.
abbrev pub leaves_behind : Transition → Bool
leaves_behind null_to_ready = false
leaves_behind ready_to_paused = true
leaves_behind paused_to_playing = false
leaves_behind playing_to_paused = false
leaves_behind paused_to_ready = true
leaves_behind ready_to_null = false

-- Whether the collect pads are to run.
abbrev pub collects : State → Bool
collects in_null = false
collects in_ready = false
collects in_paused = true
collects in_playing = true

-- Collect pads that may be started only when they are stopped, and stopped only when they run.
abbrev pub after_calls : Bool → List CollectCall → Option Bool
after_calls running [] = some running
after_calls true (collect_start ∷ calls) = none
after_calls false (collect_start ∷ calls) = after_calls true calls
after_calls true (collect_stop ∷ calls) = after_calls false calls
after_calls false (collect_stop ∷ calls) = none

-- The calls that some transitions make.
abbrev pub calls_of : List (Transition × Bool) → List CollectCall
calls_of [] = []
calls_of ((t, success) ∷ ts) = (sptsmuxer_change_state (λ _. success) t).0 ++ calls_of ts

-- The calls of a transition take the collect pads from its first state to its second.
change_state-after :
    (t : Transition) (success : Bool) (calls : List CollectCall)
    → after_calls (collects (source t)) ((sptsmuxer_change_state (λ _. success) t).0 ++ calls)
      ≡ after_calls (collects (target t)) calls
unfolding sptsmuxer_change_state
change_state-after null_to_ready success calls = refl
change_state-after ready_to_paused success calls = refl
change_state-after paused_to_playing success calls = refl
change_state-after playing_to_paused success calls = refl
change_state-after paused_to_ready success calls = refl
change_state-after ready_to_null success calls = refl

same_collects :
    (t : Transition) → leaves_behind t ≡ false → collects (target t) ≡ collects (source t)
same_collects null_to_ready e = refl
same_collects ready_to_paused e = cc
same_collects paused_to_playing e = refl
same_collects playing_to_paused e = refl
same_collects paused_to_ready e = cc
same_collects ready_to_null e = refl

-- Over any transitions that GStreamer tries one after the other, from one state to another, where
-- the parent class may fail at any but READY to PAUSED and PAUSED to READY: the collect pads are
-- never started while they run nor stopped while they do not, and they run in the end exactly in
-- PAUSED and PLAYING, if they did so at the beginning.
pub change_state-collects :
    {state out : State} (ts : List (Transition × Bool))
    → Walk state ts out
    → All (λ t. t.1 ≡ false → leaves_behind t.0 ≡ false) ts
    → after_calls (collects state) (calls_of ts) ≡ some (collects out)
change_state-collects [] stay harmless = refl
change_state-collects ((t, true) ∷ ts) (succeeds _ at w) harmless =
    ap (λ s. after_calls (collects s) (calls_of ((t, true) ∷ ts))) at
    ∙ change_state-after t true (calls_of ts)
    ∙ change_state-collects ts w harmless.1
change_state-collects ((t, false) ∷ ts) (fails _ at w) harmless =
    ap (λ s. after_calls (collects s) (calls_of ((t, false) ∷ ts))) at
    ∙ change_state-after t false (calls_of ts)
    ∙ ap (λ b. after_calls b (calls_of ts))
        (same_collects t (harmless.0 refl) ∙ sym (ap collects at))
    ∙ change_state-collects ts w harmless.1
