-- ===== src/Muxer/Callback/Push.antt =====
-- The push buffer as the callback of spts.c: its calls on a list of packets.
use sptsmuxer.Base.{
  ℕ, ◌≡◌, refl, sym, ap, ◌∙◌, arith, Bool, Option, some, List, [], ◌∷◌, ◌++◌, Bytes, ok,
  bind-returns, ok-injective, append-nil, append_assoc, ◌>>=◌, load_lem, length, take_all,
}
use sptsmuxer.Ts.{tspacket_length}
use sptsmuxer.Spts.State.{SpTs}
use sptsmuxer.Spts.Callback.{Callback, write_packet}
use sptsmuxer.Spts.Callback.Agrees.{write_all}
use sptsmuxer.Muxer.{MuxerState, sptsmuxer_push_packet_cb, push_packets, flush, collect_packet}
use sptsmuxer.Muxer.Callback.{push_packet_cb}

abbrev pub with_spts : SpTs → MuxerState → MuxerState
with_spts spts muxer = record muxer { spts = spts }

module _ (g_malloc : ℕ → Option Bytes) (gst_buffer_new_and_alloc : ℕ → Bytes) where
  -- The callback neither reads nor writes `spts`.
  cb_with_spts :
      (spts : SpTs) (muxer : MuxerState) (packet : Bytes)
      → sptsmuxer_push_packet_cb g_malloc gst_buffer_new_and_alloc (with_spts spts muxer) packet
        ≡ (do
          (next, pushed, result) ←
              sptsmuxer_push_packet_cb g_malloc gst_buffer_new_and_alloc muxer packet
          ok (with_spts spts next, pushed, result))
  unfolding sptsmuxer_push_packet_cb collect_packet flush
  cb_with_spts spts muxer packet = ground arith

  cb-eq-ok :
      (spts : SpTs) (muxer : MuxerState) (packet : Bytes) {r : MuxerState × List Bytes × Bool}
      → sptsmuxer_push_packet_cb g_malloc gst_buffer_new_and_alloc (with_spts spts muxer) packet
        ≡ ok r
      → (next : MuxerState) × (sptsmuxer_push_packet_cb g_malloc gst_buffer_new_and_alloc muxer
            packet
          ≡ ok (next, r.1, r.2))
        × (with_spts spts next ≡ r.0)
  cb-eq-ok spts muxer packet {r} h =
      let (left, returns, e) =
        bind-returns (sptsmuxer_push_packet_cb g_malloc gst_buffer_new_and_alloc muxer packet)
          (λ l. ok (with_spts spts l.0, l.1, l.2)) (sym (cb_with_spts spts muxer packet) ∙ h) in
      (
        left.0,
        rw (← ok-injective e) returns,
        ap (λ (l : MuxerState × List Bytes × Bool). l.0) (ok-injective e),
      )

  -- The callback asserts the length.
  cb-length :
      (muxer : MuxerState) (packet : Bytes) {r : MuxerState × List Bytes × Bool}
      → sptsmuxer_push_packet_cb g_malloc gst_buffer_new_and_alloc muxer packet ≡ ok r
      → length packet ≡ tspacket_length
  unfolding sptsmuxer_push_packet_cb
  cb-length muxer packet h = ground arith

  push_packet_cb_lem :
      (muxer : MuxerState) (packet : Bytes) (before : List Bytes)
      {r : MuxerState × List Bytes × Bool}
      → sptsmuxer_push_packet_cb g_malloc gst_buffer_new_and_alloc muxer packet ≡ ok r
      → push_packet_cb g_malloc gst_buffer_new_and_alloc packet tspacket_length (muxer, before)
        ≡ ok ((r.0, before ++ r.1), r.2)
  unfolding push_packet_cb
  push_packet_cb_lem muxer packet before h =
      let whole : length packet ≡ 188 = cb-length muxer packet h in
      rw
        (
          load_lem packet 0 188 (omega (arith, whole)),
          take_all 188 packet (omega (arith, whole)),
          h,
        )
        refl

  abbrev pub with_data : MuxerState → List Bytes → Callback (MuxerState × List Bytes)
  with_data muxer pushed = record {
    write_func = some (push_packet_cb g_malloc gst_buffer_new_and_alloc);
    write_func_data = (muxer, pushed);
  }

  write_all-push_cons :
      (muxer : MuxerState) (packet : Bytes) (packets before : List Bytes)
      (r : MuxerState × List Bytes × Bool) (left : MuxerState) (others : List Bytes)
      → sptsmuxer_push_packet_cb g_malloc gst_buffer_new_and_alloc muxer packet ≡ ok r
      → write_all packets (with_data r.0 (before ++ r.1))
        ≡ ok (tt, with_data left ((before ++ r.1) ++ others))
      → write_all (packet ∷ packets) (with_data muxer before)
        ≡ ok (tt, with_data left (before ++ (r.1 ++ others)))
  unfolding write_all write_packet
  write_all-push_cons muxer packet packets before r left others returns all =
      rw (push_packet_cb_lem muxer packet before returns, all)
        (ap (λ p. ok (tt, with_data left p)) (append_assoc before r.1 others))

  pub write_all-push :
      (spts : SpTs) (muxer : MuxerState) (packets before : List Bytes) {r : MuxerState × List Bytes}
      → push_packets g_malloc gst_buffer_new_and_alloc (with_spts spts muxer) packets ≡ ok r
      → (left : MuxerState) × (write_all packets (with_data muxer before)
          ≡ ok (tt, with_data left (before ++ r.1)))
        × (with_spts spts left ≡ r.0)
  unfolding push_packets write_all write_packet
  write_all-push spts muxer [] before {r} h =
      let e = ok-injective h in
      (
        muxer,
        ap (λ p. ok (tt, with_data muxer p)) (sym (append-nil before))
            ∙ ap (λ (l : MuxerState × List Bytes). ok (tt, with_data muxer (before ++ l.1))) e,
        ap (λ (l : MuxerState × List Bytes). l.0) e,
      )
  write_all-push spts muxer (packet ∷ packets) before {r} h =
      let (one, writes, rest) =
        bind-returns
          (sptsmuxer_push_packet_cb g_malloc gst_buffer_new_and_alloc (with_spts spts muxer) packet)
          (λ l. (do
            (last, others) ← push_packets g_malloc gst_buffer_new_and_alloc l.0 packets
            ok (last, l.1 ++ others)))
          h in
      let (next, returns, same) = cb-eq-ok spts muxer packet writes in
      let (last, pushes, e) =
        bind-returns (push_packets g_malloc gst_buffer_new_and_alloc one.0 packets)
          (λ l. ok (l.0, one.1 ++ l.1)) rest in
      let (left, all, its) =
        write_all-push spts next packets (before ++ one.1) {r = last}
          (ap (λ m. push_packets g_malloc gst_buffer_new_and_alloc m packets) same ∙ pushes) in
      (
        left,
        write_all-push_cons muxer packet packets before (next, one.1, one.2) left last.1 returns all
            ∙ ap (λ (l : MuxerState × List Bytes). ok (tt, with_data left (before ++ l.1)))
                (ok-injective e),
        its ∙ ap (λ (l : MuxerState × List Bytes). l.0) (ok-injective e),
      )
