-- ===== src/Muxer/Unsized.antt =====
-- The push buffer of a new element before its size is set, and beside the block of another one:
-- `pushbuf` is one variable of the process, and is neither reset nor allocated again.
use sptsmuxer.Base.{
  ℕ, ◌+◌, ◌*◌, ◌^◌, ◌<◌, ◌≤◌, ◌≡◌, refl, sym, ◌∙◌, ap, arith, List, [], ◌∷◌, true, false, Option,
  none, some, Bytes, Result, ok, fault, out_of_bounds, ok-injective, ◌>>=◌, All, length, replicate,
  store, u32, lt→ltb, leb, ◌==◌,
}
use native.Mathlib.Decide.{dec_lt}
use sptsmuxer.Spts.State.{SpTs}
use sptsmuxer.Spts.Setup.{spts_new}
use sptsmuxer.Muxer.{
  MuxerState, sptsmuxer_push_packet_cb, collect_packet, flush, push_packets, sptsmuxer_init,
  sptsmuxer_set_property, pushbuf_size,
}
use sptsmuxer.Muxer.Push.{IsPacket, with_buffer, length-splice, store_within}

-- An element as it is made, with its size.
abbrev sized : ℕ → Option Bytes → MuxerState → MuxerState
sized size pushbuf muxer = record muxer { pushbufsize = size; pushbufused = 0; pushbuf = pushbuf }

init_sized :
    (pushbuf : Option Bytes) (muxer : MuxerState)
    → sptsmuxer_init pushbuf ≡ ok muxer
    → muxer ≡ sized 0 pushbuf muxer
unfolding sptsmuxer_init
init_sized pushbuf muxer made = from spts_new made
  where
    element : SpTs → MuxerState
    element spts = record {
      numvideosinkpads = 0;
      numaudiosinkpads = 0;
      collect = [];
      first = true;
      pushbufsize = 0;
      pushbufused = 0;
      pushbuf = pushbuf;
      spts = spts;
    }

    from :
        (r : Result SpTs)
        → (r >>= λ spts. ok (element spts)) ≡ ok muxer
        → muxer ≡ sized 0 pushbuf muxer
    from (ok spts) e =
        let same : element spts ≡ muxer = ok-injective e in sym same ∙ ap (sized 0 pushbuf) same
    from (fault f) e = absurd cc

module _ (g_malloc : ℕ → Option Bytes) (gst_buffer_new_and_alloc : ℕ → Bytes) where
  -- The empty GstBuffers that some packets push.
  abbrev pub empty_buffers : Option Bytes → ℕ → List Bytes
  empty_buffers none number = []
  empty_buffers (some block) number = replicate number (gst_buffer_new_and_alloc 0)

  unsized_lem :
      (base : MuxerState) (pushbuf : Option Bytes) (packets : List Bytes)
      → g_malloc 0 ≡ none
      → All IsPacket packets
      → push_packets g_malloc gst_buffer_new_and_alloc (sized 0 pushbuf base) packets
        ≡ ok (sized 0 pushbuf base, empty_buffers pushbuf (length packets))
  unfolding push_packets sptsmuxer_push_packet_cb collect_packet flush
  unsized_lem base none [] no_block all = refl
  unsized_lem base (some block) [] no_block all = refl
  unsized_lem base none (packet ∷ packets) no_block all =
      let is_packet : (length packet == 188) ≡ true =
        let h : length packet ≡ 188 = all.0 in ground arith in
      rw (is_packet, no_block, unsized_lem base none packets no_block all.1) refl
  unsized_lem base (some block) (packet ∷ packets) no_block all =
      let is_packet : (length packet == 188) ≡ true =
        let h : length packet ≡ 188 = all.0 in ground arith in
      rw (is_packet, unsized_lem base (some block) packets no_block all.1) refl

  -- In a new element, before a property is set, where g_malloc gives NULL for 0 bytes, any packets
  -- of 188 bytes leave the state as it is. If no element of the process has allocated the push
  -- buffer they are dropped; if one has, each of them pushes an empty GstBuffer.
  pub push_packets_unsized :
      (pushbuf : Option Bytes) (muxer : MuxerState) (packets : List Bytes)
      → g_malloc 0 ≡ none
      → sptsmuxer_init pushbuf ≡ ok muxer
      → All IsPacket packets
      → push_packets g_malloc gst_buffer_new_and_alloc muxer packets
        ≡ ok (muxer, empty_buffers pushbuf (length packets))
  push_packets_unsized pushbuf muxer packets no_block made all =
      let same : muxer ≡ sized 0 pushbuf muxer = init_sized pushbuf muxer made in
      ap (λ m. push_packets g_malloc gst_buffer_new_and_alloc m packets) same
      ∙ unsized_lem muxer pushbuf packets no_block all
      ∙ ap (λ m. ok (m, empty_buffers pushbuf (length packets))) (sym same)

  module _ (base : MuxerState) (size place : ℕ) (larger : place < size)
      (size_bits : size * 188 < 2 ^ 32) where
    overrun_from :
        (used : ℕ) (block : Bytes) (packets : List Bytes)
        → used ≤ place
        → length block ≡ place * 188
        → place < used + length packets
        → All IsPacket packets
        → push_packets g_malloc gst_buffer_new_and_alloc (with_buffer base size used block) packets
          ≡ fault out_of_bounds
    unfolding push_packets sptsmuxer_push_packet_cb collect_packet flush store
    overrun_from used block [] below whole more all = absurd (omega (arith, more))
    overrun_from used block (packet ∷ packets) below whole more all =
        let is_packet : (length packet == 188) ≡ true =
          let h : length packet ≡ 188 = all.0 in ground arith in
        let offset : u32 (used * 188) ≡ used * 188 = omega arith in
        let next : u32 (used + 1) ≡ used + 1 = omega arith in
        let room = lt→ltb used size (omega arith) in
        elim (dec_lt used place) [
          | yes within ↦
              let open_still : (used + 1 == size) ≡ false = ground arith in
              let fits : used * 188 + length packet ≤ length block = omega (arith, all.0) in
              rw
                (
                  is_packet,
                  room,
                  offset,
                  store_within block packet (used * 188) fits,
                  next,
                  open_still,
                  overrun_from (used + 1) _ packets (omega arith)
                      (length-splice block packet (used * 188) fits ∙ whole) (omega (arith, more))
                      all.1,
                )
                refl
          | no full ↦
              let outside : leb (used * 188 + length packet) (length block) ≡ false =
                let its_length : length packet ≡ 188 = all.0 in ground arith in
              rw (is_packet, room, offset, outside) refl
        ]

  -- A new element behind another one of the process that has allocated the push buffer for `place`
  -- packets, with a larger size of its own (below 2^32 bytes): with more than `place` packets of
  -- 188 bytes, the store of one of them is out of the bounds of the block.
  pub push_packets_overrun :
      (size place : ℕ) (block : Bytes) (muxer : MuxerState) (packets : List Bytes)
      → place < size
      → size * 188 < 2 ^ 32
      → length block ≡ place * 188
      → sptsmuxer_init (some block) ≡ ok muxer
      → place < length packets
      → All IsPacket packets
      → push_packets g_malloc gst_buffer_new_and_alloc
          (sptsmuxer_set_property muxer pushbuf_size size)
          packets
        ≡ fault out_of_bounds
  unfolding sptsmuxer_set_property
  push_packets_overrun size place block muxer packets larger size_bits whole made more all =
      ap
        (λ m.
          push_packets g_malloc gst_buffer_new_and_alloc (record m { pushbufsize = size }) packets)
        (init_sized (some block) muxer made)
      ∙ overrun_from muxer size place larger size_bits 0 block packets (omega arith) whole
          (omega (arith, more)) all
