-- ===== src/Muxer/Reach.antt =====
-- Any interleaving of frames that arrive and calls of `sptsmuxer_collected`.
use sptsmuxer.Base.{
  ℕ, suc, ◌+◌, ◌≡◌, sym, ◌∙◌, ap, arith, List, [], ◌∷◌, ◌++◌, Bool, Option, Bytes, ok, ok-injective,
  All, All-append,
}
use mathlib.Core.Path.{subst}
use sptsmuxer.Spts.State.{SpTs, Buffer}
use sptsmuxer.Spts.Frame.Multiplexed.{HasSpace}
use sptsmuxer.Muxer.{MuxerState, SrcCall, sptsmuxer_collected}
use sptsmuxer.Muxer.Element.{Called-HasSpace, IsElement, IsFrame, CanPush-kept}
use sptsmuxer.Muxer.Collect.{sptsmuxer_collected-Called}

-- A frame arrives on one of the pads, behind those that wait there.
pub data Arrives : List (List Buffer) → Buffer → List (List Buffer) → Type 0 where
  here :
      {buffer : Buffer} {pad : List Buffer} {pads : List (List Buffer)}
      → Arrives (pad ∷ pads) buffer ((pad ++ (buffer ∷ [])) ∷ pads)
  there :
      {buffer : Buffer} {pad : List Buffer} {pads more : List (List Buffer)}
      → Arrives pads buffer more
      → Arrives (pad ∷ pads) buffer (pad ∷ more)

Arrives-All :
    (P : Buffer → Type 0) {pads more : List (List Buffer)} {buffer : Buffer}
    → Arrives pads buffer more
    → P buffer
    → All (All P) pads
    → All (All P) more
Arrives-All P {buffer = buffer} (here {pad = pad}) h all =
    (All-append P pad (buffer ∷ []) all.0 (h, tt), all.1)
Arrives-All P (there a) h all = (all.0, Arrives-All P a h all.1)

module _ (g_malloc : ℕ → Option Bytes) (gst_buffer_new_and_alloc : ℕ → Bytes)
    (uint64_scale : ℕ → ℕ → ℕ → ℕ) (video audio : Bool) where
  -- What happens to the element, with the number of the calls.
  pub data Reach : MuxerState → ℕ → MuxerState → Type 0 where
    start : {muxer : MuxerState} → Reach muxer 0 muxer
    arrive :
        {muxer out : MuxerState} {n : ℕ} {buffer : Buffer} {pads : List (List Buffer)}
        → Reach muxer n out
        → IsFrame video audio buffer
        → Arrives out.collect buffer pads
        → Reach muxer n (record out { collect = pads })
    call :
        {muxer out next : MuxerState} {n : ℕ} (handled : Bool) {calls : List SrcCall}
        → Reach muxer n out
        → sptsmuxer_collected g_malloc gst_buffer_new_and_alloc uint64_scale handled out
          ≡ ok (next, calls)
        → Reach muxer (suc n) next

  -- The invariant, with space for some more frames.
  record Reached (out : MuxerState) (size left : ℕ) : Type 0 where
    element : IsElement g_malloc uint64_scale video audio out size
    space : HasSpace element.started left

  few : {spts : SpTs} {left : ℕ} → HasSpace spts (suc left) → HasSpace spts 1
  few space = record {
    packets_space = omega (arith, space.packets_space);
    groups_space = omega (arith, space.groups_space);
  }

  Reach-Reached :
      {muxer out : MuxerState} {n : ℕ} (size left : ℕ)
      (e : IsElement g_malloc uint64_scale video audio muxer size)
      → HasSpace e.started (n + left)
      → Reach muxer n out
      → Reached out size left
  Reach-Reached {muxer} size left e space start = record {
    element = e;
    space = subst (HasSpace e.started) (omega arith) space;
  }
  Reach-Reached size left e space (arrive {out = out} {pads = pads} reach frame arrives) =
      let r = Reach-Reached size left e space reach in
      record {
        element = record {
          started = r.element.started;
          starts = r.element.starts;
          running = r.element.running;
          can_push = CanPush-kept g_malloc out size out.first out.spts pads r.element.can_push;
          queued = Arrives-All (IsFrame video audio) arrives frame r.element.queued;
        };
        space = r.space;
      }
  Reach-Reached size left e space (call {out = out} {n = n} handled reach returned) =
      let r =
        Reach-Reached size (suc left) e (subst (HasSpace e.started) (omega arith) space) reach in
      let c =
        sptsmuxer_collected-Called g_malloc gst_buffer_new_and_alloc uint64_scale video audio
          handled out size r.element (few r.space) in
      let same = ap (λ p. p.0) (ok-injective (sym c.returns ∙ returned)) in
      subst (λ m. Reached m size left) same
        (record {
          element = c.next;
          space =
              Called-HasSpace g_malloc gst_buffer_new_and_alloc uint64_scale video audio c r.space;
        })

  -- From an element that satisfies its invariant, after any interleaving of frames that arrive
  -- (with a time stamp, of one of the two kinds, below 2^32 - 22 bytes, not of 169 bytes in a
  -- stream without the clock) and calls of sptsmuxer_collected, as many as keep the counts below
  -- 2^64: the next call does not fault.
  pub Reach-safe :
      {muxer out : MuxerState} {n : ℕ} (size : ℕ)
      (e : IsElement g_malloc uint64_scale video audio muxer size)
      → HasSpace e.started (n + 1)
      → Reach muxer n out
      → (handled : Bool)
      → (next : MuxerState) × (calls : List SrcCall) × (sptsmuxer_collected g_malloc
            gst_buffer_new_and_alloc uint64_scale handled out
          ≡ ok (next, calls))
  Reach-safe {out = out} size e space reach handled =
      let r = Reach-Reached size 1 e space reach in
      let c =
        sptsmuxer_collected-Called g_malloc gst_buffer_new_and_alloc uint64_scale video audio
          handled out size r.element r.space in
      (c.out, _, c.returns)
