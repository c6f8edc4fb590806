-- ===== src/Muxer/Push.antt =====
-- The push buffer: what becomes of the packets that `sptsmuxer_push_packet_cb` gets.
mod Room
pub use Room.*
use sptsmuxer.Base.{
  append-replicate, append_assoc, append-nil, ap₂, ℕ, ◌+◌, ◌*◌, ◌^◌, ◌≡◌, refl, sym, ◌∙◌, ap, arith,
  List, [], ◌∷◌, ◌++◌, true, false, Option, Bytes, ok, All, length, length-append, take, replicate,
  store, splice, lt→ltb, u32, ◌==◌,
}
use native.Mathlib.Decide.{dec_lt}
use native.Mathlib.Nat.{add-mul}
use sptsmuxer.Muxer.{MuxerState, flush, collect_packet, sptsmuxer_push_packet_cb, push_packets}

module _ (g_malloc : ℕ → Option Bytes) (gst_buffer_new_and_alloc : ℕ → Bytes) where
  -- What some packets leave, and how many GstBuffers they push. All of these have the bytes
  -- that GStreamer gives a new one. The packets held before and these are, in their order, those
  -- that were gone with a push, and those that are held.
  pub record Pushed {muxer : MuxerState} {size used : ℕ} (h : HasRoom muxer size used)
      (packets : List Bytes) (result : Bytes → MuxerState → ℕ → Type 0) : Type 0 where
    pub out : MuxerState
    pub full : ℕ
    pub used_next : ℕ
    pub returns : result (gst_buffer_new_and_alloc (size * 188)) out full
    pub next : HasRoom out size used_next
    pub count : full * size + used_next ≡ used + length packets
    pub gone : List Bytes
    pub order : gone ++ next.held ≡ h.held ++ packets
    pub kept : SameProgram muxer out

  abbrev One : MuxerState → Bytes → Bytes → MuxerState → ℕ → Type 0
  One muxer packet buffer out full =
      sptsmuxer_push_packet_cb g_malloc gst_buffer_new_and_alloc muxer packet
      ≡ ok (out, replicate full buffer, true)

  abbrev pub Many : MuxerState → List Bytes → Bytes → MuxerState → ℕ → Type 0
  Many muxer packets buffer out full =
      push_packets g_malloc gst_buffer_new_and_alloc muxer packets ≡ ok (out, replicate full buffer)

  module _ (muxer : MuxerState) (size used : ℕ) (buffer packet : Bytes) (hp : IsPacket packet)
      (h : HasRoom (with_buffer muxer size used buffer) size used)
      (whole : length buffer ≡ size * 188)
      (held_bytes : take (used * 188) buffer ≡ joined h.held) where
    abbrev stored : Bytes
    stored = splice buffer (used * 188) packet

    is_packet : (length packet == 188) ≡ true
    is_packet = ground arith

    offset : u32 (used * 188) ≡ used * 188
    offset = omega (arith, h.room, h.size_bits)

    stores : store buffer (used * 188) packet ≡ ok stored
    stores = store_within buffer packet (used * 188) (omega (arith, h.room))

    stored_whole : length stored ≡ size * 188
    stored_whole = length-splice buffer packet (used * 188) (omega (arith, h.room)) ∙ whole

    stored_bytes : take ((used + 1) * 188) stored ≡ joined (h.held ++ (packet ∷ []))
    stored_bytes =
        ap (λ n. take n stored) (omega arith)
        ∙ take-splice buffer packet (used * 188) (omega (arith, h.room))
        ∙ ap₂ (λ x y. x ++ y) held_bytes (sym (append-nil packet))
        ∙ sym (joined-append h.held (packet ∷ []))

    push_into : Pushed h (packet ∷ []) (One (with_buffer muxer size used buffer) packet)
    unfolding sptsmuxer_push_packet_cb collect_packet flush
    push_into =
        let next : u32 (used + 1) ≡ used + 1 = omega (arith, h.room, h.size_bits) in
        let bytes : u32 (size * 188) ≡ size * 188 = omega (arith, h.size_bits) in
        elim (dec_lt (used + 1) size) [
          | yes more ↦
              let open_still : (used + 1 == size) ≡ false = ground arith in
              record {
                out = with_buffer muxer size (used + 1) stored;
                full = 0;
                used_next = used + 1;
                returns =
                    rw (is_packet, lt→ltb used size h.room, offset, stores, next, open_still) refl;
                next = record {
                  base = muxer;
                  buffer = stored;
                  held = h.held ++ (packet ∷ []);
                  held_count = length-append h.held (packet ∷ []) ∙ omega (arith, h.held_count);
                  held_bytes = stored_bytes;
                  at = refl;
                  whole = stored_whole;
                  room = more;
                  size_bits = h.size_bits;
                };
                count = omega arith;
                gone = [];
                order = refl;
                kept = (refl, refl, refl);
              }
          | no full ↦
              let is_full : (used + 1 == size) ≡ true = ground arith in
              record {
                out = with_buffer muxer size 0 stored;
                full = 1;
                used_next = 0;
                returns =
                    rw (is_packet, lt→ltb used size h.room, offset, stores, next, is_full, bytes)
                      refl;
                next = record {
                  base = muxer;
                  buffer = stored;
                  held = [];
                  held_count = refl;
                  held_bytes = refl;
                  at = refl;
                  whole = stored_whole;
                  room = omega (arith, h.room);
                  size_bits = h.size_bits;
                };
                count = omega (arith, h.room);
                gone = h.held ++ (packet ∷ []);
                order = append-nil (h.held ++ (packet ∷ []));
                kept = (refl, refl, refl);
              }
        ]

  abbrev at_base :
      {muxer : MuxerState} {size used : ℕ} (h : HasRoom muxer size used)
      → HasRoom (with_buffer h.base size used h.buffer) size used
  at_base h = record {
    base = h.base;
    buffer = h.buffer;
    held = h.held;
    held_count = h.held_count;
    held_bytes = h.held_bytes;
    at = refl;
    whole = h.whole;
    room = h.room;
    size_bits = h.size_bits;
  }

  push_packet_Pushed :
      (muxer : MuxerState) (size used : ℕ) (packet : Bytes)
      → IsPacket packet
      → (h : HasRoom muxer size used) → Pushed h (packet ∷ []) (One muxer packet)
  push_packet_Pushed muxer size used packet hp h =
      let p = push_into h.base size used h.buffer packet hp (at_base h) h.whole h.held_bytes in
      record {
        out = p.out;
        full = p.full;
        used_next = p.used_next;
        returns =
            ap (λ m. sptsmuxer_push_packet_cb g_malloc gst_buffer_new_and_alloc m packet) h.at
            ∙ p.returns;
        next = p.next;
        count = p.count;
        gone = p.gone;
        order = p.order;
        kept = (
          p.kept.0 ∙ sym (ap (λ m. m.spts) h.at),
          p.kept.1 ∙ sym (ap (λ m. m.collect) h.at),
          p.kept.2 ∙ sym (ap (λ m. m.first) h.at),
        );
      }

  pub push_packets-Pushed :
      (muxer : MuxerState) (size used : ℕ) (packets : List Bytes)
      → All IsPacket packets
      → (h : HasRoom muxer size used) → Pushed h packets (Many muxer packets)
  unfolding push_packets
  push_packets-Pushed muxer size used [] all h = record {
    out = muxer;
    full = 0;
    used_next = used;
    returns = refl;
    next = h;
    count = omega arith;
    gone = [];
    order = sym (append-nil h.held);
    kept = (refl, refl, refl);
  }
  push_packets-Pushed muxer size used (packet ∷ packets) all h =
      let one = push_packet_Pushed muxer size used packet all.0 h in
      let others = push_packets-Pushed one.out size one.used_next packets all.1 one.next in
      record {
        out = others.out;
        full = one.full + others.full;
        used_next = others.used_next;
        returns =
            rw
              (
                one.returns,
                others.returns,
                append-replicate one.full others.full (gst_buffer_new_and_alloc (size * 188)),
              )
              refl;
        next = others.next;
        count =
            let shared : (one.full + others.full) * size ≡ one.full * size + others.full * size =
              add-mul one.full others.full size in
            omega (arith, one.count, others.count, shared);
        gone = one.gone ++ others.gone;
        order =
            append_assoc one.gone others.gone others.next.held
            ∙ ap (λ l. one.gone ++ l) others.order
            ∙ sym (append_assoc one.gone one.next.held packets)
            ∙ ap (λ l. l ++ packets) one.order
            ∙ append_assoc h.held (packet ∷ []) packets;
        kept = (others.kept.0 ∙ one.kept.0, others.kept.1 ∙ one.kept.1, others.kept.2 ∙ one.kept.2);
      }
