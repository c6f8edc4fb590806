-- ===== src/Muxer/Allocate.antt =====
-- The push buffer from the first packet on, which allocates it.
use sptsmuxer.Base.{
  ℕ, ◌+◌, ◌*◌, ◌^◌, ◌<◌, ◌≡◌, ◌⊎◌, inl, inr, refl, sym, ap, ◌∙◌, take, ◌++◌, arith, List, [], ◌∷◌,
  true, Option, none, some, Bytes, ok, All, length, replicate, u32, ◌==◌,
}
use mathlib.Core.Path.{subst}
use sptsmuxer.Muxer.{MuxerState, collect_packet, sptsmuxer_push_packet_cb, push_packets}
use sptsmuxer.Muxer.Push.{IsPacket, SameProgram, with_buffer, joined, HasRoom, push_packets-Pushed}

module _ (g_malloc : ℕ → Option Bytes) where
  -- No push buffer yet, and g_malloc has one.
  pub record IsUnallocated (muxer : MuxerState) (size : ℕ) : Type 0 where
    pub no_buffer : muxer.pushbuf ≡ none
    pub sized : size ≡ muxer.pushbufsize
    pub positive : 0 < size
    pub size_bits : size * 188 < 2 ^ 32
    pub block : Bytes
    pub allocates : g_malloc (size * 188) ≡ some block
    pub whole : length block ≡ size * 188

  abbrev pub CanPush : MuxerState → ℕ → Type 0
  CanPush muxer size = ((used : ℕ) × HasRoom muxer size used) ⊎ IsUnallocated muxer size

  -- How many packets are in the push buffer.
  abbrev pub used_of : {muxer : MuxerState} {size : ℕ} → CanPush muxer size → ℕ
  used_of (inl (used, h)) = used
  used_of (inr u) = 0

  -- The packets that are in the push buffer.
  abbrev pub held_of : {muxer : MuxerState} {size : ℕ} → CanPush muxer size → List Bytes
  held_of (inl (used, h)) = h.held
  held_of (inr u) = []

  pub length-held_of :
      {muxer : MuxerState} {size : ℕ} (c : CanPush muxer size) → length (held_of c) ≡ used_of c
  length-held_of (inl (used, h)) = h.held_count
  length-held_of (inr u) = refl

  -- The block behind `pushbuf` begins with these packets. None are held where there is no block.
  abbrev pub Contains : Option Bytes → List Bytes → Type 0
  Contains none held = held ≡ []
  Contains (some block) held = take (length held * 188) block ≡ joined held

  pub held_of-Contains :
      {muxer : MuxerState} {size : ℕ} (c : CanPush muxer size) → Contains muxer.pushbuf (held_of c)
  held_of-Contains (inl (used, h)) =
      subst (λ m. Contains m.pushbuf h.held) (sym h.at)
        (ap (λ n. take (n * 188) h.buffer) h.held_count ∙ h.held_bytes)
  held_of-Contains (inr u) = subst (λ b. Contains b []) (sym u.no_buffer) refl

  pub used_of-room : {muxer : MuxerState} {size : ℕ} (c : CanPush muxer size) → used_of c < size
  used_of-room (inl (used, h)) = h.room
  used_of-room (inr u) = u.positive

module _ (g_malloc : ℕ → Option Bytes) (gst_buffer_new_and_alloc : ℕ → Bytes) where
  -- Packets that are taken, with the GstBuffers that they push.
  pub record Taken {muxer : MuxerState} {size : ℕ} (c : CanPush g_malloc muxer size)
      (packets : List Bytes) : Type 0 where
    pub out : MuxerState
    pub number : ℕ
    pub returns :
        push_packets g_malloc gst_buffer_new_and_alloc muxer packets
        ≡ ok (out, replicate number (gst_buffer_new_and_alloc (size * 188)))
    pub next : CanPush g_malloc out size
    pub count : number * size + used_of g_malloc next ≡ used_of g_malloc c + length packets
    pub gone : List Bytes
    pub order : gone ++ held_of g_malloc next ≡ held_of g_malloc c ++ packets
    pub kept : SameProgram muxer out

  module _ (muxer : MuxerState) (size : ℕ) (u : IsUnallocated g_malloc muxer size) where
    abbrev allocated : MuxerState
    allocated = with_buffer muxer size 0 u.block

    abbrev allocated-HasRoom : HasRoom allocated size 0
    allocated-HasRoom = record {
      base = muxer;
      buffer = u.block;
      held = [];
      held_count = refl;
      held_bytes = refl;
      at = refl;
      whole = u.whole;
      room = u.positive;
      size_bits = u.size_bits;
    }

    allocates_first :
        (packet : Bytes)
        → IsPacket packet
        → sptsmuxer_push_packet_cb g_malloc gst_buffer_new_and_alloc muxer packet
          ≡ sptsmuxer_push_packet_cb g_malloc gst_buffer_new_and_alloc allocated packet
    unfolding sptsmuxer_push_packet_cb
    allocates_first packet h =
        let is_packet : (length packet == 188) ≡ true = ground arith in
        let bytes : u32 (muxer.pushbufsize * 188) ≡ size * 188 =
          omega (arith, u.sized, u.size_bits) in
        rw (is_packet, u.no_buffer, bytes, u.allocates)
          (ap
            (λ n.
              collect_packet g_malloc gst_buffer_new_and_alloc (with_buffer muxer n 0 u.block)
                u.block packet)
            (sym u.sized))

  pub push_packets-Taken :
      (muxer : MuxerState) (size : ℕ) (packets : List Bytes)
      → All IsPacket packets
      → (c : CanPush g_malloc muxer size) → Taken c packets
  push_packets-Taken muxer size packets all (inl (used, h)) =
      let p = push_packets-Pushed g_malloc gst_buffer_new_and_alloc muxer size used packets all h in
      record {
        out = p.out;
        number = p.full;
        returns = p.returns;
        next = inl (p.used_next, p.next);
        count = p.count;
        gone = p.gone;
        order = p.order;
        kept = p.kept;
      }
  push_packets-Taken muxer size [] all (inr u) = record {
    out = muxer;
    number = 0;
    returns = unfold push_packets in refl;
    next = inr u;
    count = omega arith;
    gone = [];
    order = refl;
    kept = (refl, refl, refl);
  }
  push_packets-Taken muxer size (packet ∷ packets) all (inr u) =
      let p =
        push_packets-Pushed g_malloc gst_buffer_new_and_alloc (allocated muxer size u) size 0
          (packet ∷ packets) all (allocated-HasRoom muxer size u) in
      record {
        out = p.out;
        number = p.full;
        returns = unfold push_packets in rw (allocates_first muxer size u packet all.0) p.returns;
        next = inl (p.used_next, p.next);
        count = p.count;
        gone = p.gone;
        order = p.order;
        kept = p.kept;
      }
