-- ===== src/Muxer/Element.antt =====
-- The element between two calls of `sptsmuxer_collected`, and what a call does.
use sptsmuxer.Base.{
  ℕ, suc, ◌+◌, ◌-◌, ◌*◌, ◌^◌, ◌≤◌, arith, ◌≡◌, ◌⊎◌, inl, inr, refl, ap, List, [], ◌∷◌, ◌++◌, Bool,
  false, Option, Bytes, ok, ◌>>=◌, All, length, map, replicate, if◌then◌else◌,
}
use sptsmuxer.Spts.State.{SpTs, Buffer}
use sptsmuxer.Spts.Frame.{gop_packets, spts_write_frame}
use sptsmuxer.Spts.Frame.Stepped.{IsPlayable, IsRunning}
use sptsmuxer.Spts.Frame.Multiplexed.{HasSpace}
use sptsmuxer.Muxer.{
  MuxerState, SrcCall, set_caps, push_segment, push_buffer, set_pcr_reference, write_next,
  sptsmuxer_collected,
}
use sptsmuxer.Muxer.Allocate.{CanPush, used_of, held_of}
use sptsmuxer.Muxer.Queue.{Pops, IsFrom, waiting, IsTimed}

-- The element with another program and other queues.
abbrev pub with_state : Bool → SpTs → List (List Buffer) → MuxerState → MuxerState
with_state first spts collect muxer = record muxer { first = first; spts = spts; collect = collect }

abbrev pub with_program : MuxerState → SpTs → List (List Buffer) → MuxerState
with_program muxer spts collect = with_state false spts collect muxer

-- What the source pad is asked to do before any buffer.
abbrev pub first_calls : Bool → List SrcCall
first_calls first = if first then set_caps 188 ∷ push_segment ∷ [] else []

-- A frame that can be queued. The Booleans say which of the streams carries the clock.
abbrev pub IsFrame : Bool → Bool → Buffer → Type 0
IsFrame video audio buffer = IsPlayable video audio buffer × IsTimed buffer

-- Nothing waits, and nothing is done.
abbrev pub Idle : List (List Buffer) → List (List Buffer) → SpTs → SpTs → List Bytes → Type 0
Idle before after started sent packets =
    (waiting before ≡ 0) × (after ≡ before) × (sent ≡ started) × (packets ≡ [])

module _ (g_malloc : ℕ → Option Bytes) where
  -- The push buffer alone says whether packets can be taken.
  abbrev pub CanPush-kept :
      (muxer : MuxerState) (size : ℕ) (first : Bool) (spts : SpTs) (collect : List (List Buffer))
      → CanPush g_malloc muxer size
      → CanPush g_malloc (record muxer { first = first; spts = spts; collect = collect }) size
  CanPush-kept muxer size first spts collect (inl (used, h)) = inl (
    used,
    record {
      base = with_state first spts collect h.base;
      buffer = h.buffer;
      held = h.held;
      held_count = h.held_count;
      held_bytes = h.held_bytes;
      at = ap (with_state first spts collect) h.at;
      whole = h.whole;
      room = h.room;
      size_bits = h.size_bits;
    },
  )
  CanPush-kept muxer size first spts collect (inr u) = inr (record {
    no_buffer = u.no_buffer;
    sized = u.sized;
    positive = u.positive;
    size_bits = u.size_bits;
    block = u.block;
    allocates = u.allocates;
    whole = u.whole;
  })

  pub used_of-kept :
      (muxer : MuxerState) (size : ℕ) (first : Bool) (spts : SpTs) (collect : List (List Buffer))
      (c : CanPush g_malloc muxer size)
      → used_of g_malloc (CanPush-kept muxer size first spts collect c) ≡ used_of g_malloc c
  used_of-kept muxer size first spts collect (inl h) = refl
  used_of-kept muxer size first spts collect (inr u) = refl

  pub held_of-kept :
      (muxer : MuxerState) (size : ℕ) (first : Bool) (spts : SpTs) (collect : List (List Buffer))
      (c : CanPush g_malloc muxer size)
      → held_of g_malloc (CanPush-kept muxer size first spts collect c) ≡ held_of g_malloc c
  held_of-kept muxer size first spts collect (inl h) = refl
  held_of-kept muxer size first spts collect (inr u) = refl

module _ (uint64_scale : ℕ → ℕ → ℕ → ℕ) (video audio : Bool) where
  -- The frame that a call takes.
  pub record Wrote (before after : List (List Buffer)) (started sent : SpTs) (packets : List Bytes)
      : Type 0 where
    pub buffer : Buffer
    pub is_frame : IsFrame video audio buffer
    pub pops : Pops before buffer after
    pub earliest : All (IsFrom buffer.timestamp) before
    pub writes : spts_write_frame uint64_scale started buffer ≡ ok (sent, packets)

module _ (g_malloc : ℕ → Option Bytes) (uint64_scale : ℕ → ℕ → ℕ → ℕ) (video audio : Bool) where
  -- The element between two calls. `started` is the program behind the first part of a call.
  pub record IsElement (muxer : MuxerState) (size : ℕ) : Type 0 where
    pub started : SpTs
    pub starts : (if muxer.first then set_pcr_reference muxer.spts else ok muxer.spts) ≡ ok started
    pub running : IsRunning uint64_scale video audio started
    pub can_push : CanPush g_malloc muxer size
    pub queued : All (All (IsFrame video audio)) muxer.collect

module _ (g_malloc : ℕ → Option Bytes) (gst_buffer_new_and_alloc : ℕ → Bytes)
    (uint64_scale : ℕ → ℕ → ℕ → ℕ) where
  abbrev pub Collects : Bool → MuxerState → MuxerState → List Bytes → Type 0
  Collects handled muxer out pushed =
      sptsmuxer_collected g_malloc gst_buffer_new_and_alloc uint64_scale handled muxer
      ≡ ok (out, first_calls muxer.first ++ map push_buffer pushed)

  -- The first call, with these frames on the pads: the caps and the segment, and then what is done
  -- with the program `started`, its clock set.
  abbrev pub FirstCall : Bool → MuxerState → SpTs → List (List Buffer) → Type 0
  FirstCall handled muxer started queues =
      sptsmuxer_collected g_malloc gst_buffer_new_and_alloc uint64_scale handled
        (record muxer { collect = queues })
      ≡ (write_next g_malloc gst_buffer_new_and_alloc uint64_scale
            (with_program muxer started queues)
          >>= λ r. ok (r.0, set_caps 188 ∷ push_segment ∷ map push_buffer r.1))

  module _ (video audio : Bool) where
    -- What a call leaves, and the GstBuffers that it pushes. The packets that the push buffer holds
    -- before the call and those of the call are, in their order, those that are gone with a push,
    -- and those that it holds behind the call.
    pub record Called {muxer : MuxerState} {size : ℕ}
        (e : IsElement g_malloc uint64_scale video audio muxer size)
        (Returns : MuxerState → List Bytes → Type 0) : Type 0 where
      pub out : MuxerState
      pub number : ℕ
      pub returns : Returns out (replicate number (gst_buffer_new_and_alloc (size * 188)))
      pub next : IsElement g_malloc uint64_scale video audio out size
      pub begun : out.first ≡ false
      pub packets : List Bytes
      pub count :
          number * size + used_of g_malloc next.can_push
          ≡ used_of g_malloc e.can_push + length packets
      pub gone : List Bytes
      pub order : gone ++ held_of g_malloc next.can_push ≡ held_of g_malloc e.can_push ++ packets
      pub grows :
          (next.started.packets_counter
            ≤ e.started.packets_counter
              + (e.started.gop_counter * gop_packets - e.started.packets_counter)
              + 2 ^ 32)
          × (next.started.gop_counter ≤ e.started.gop_counter + 1)
      pub effect :
          Idle muxer.collect out.collect e.started next.started packets
          ⊎ Wrote uint64_scale video audio muxer.collect out.collect e.started next.started packets

    -- The space for the frames behind a call.
    pub Called-HasSpace :
        {muxer : MuxerState} {size : ℕ} {e : IsElement g_malloc uint64_scale video audio muxer size}
        {Returns : MuxerState → List Bytes → Type 0} (c : Called e Returns) {n : ℕ}
        → HasSpace e.started (suc n)
        → HasSpace c.next.started n
    Called-HasSpace c space = record {
      packets_space = omega (arith, c.grows.0, space.packets_space, space.groups_space);
      groups_space = omega (arith, c.grows.0, c.grows.1, space.packets_space, space.groups_space);
    }
