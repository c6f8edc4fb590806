-- ===== src/Spts/Packets/Rest.antt =====
-- The packets of a frame after the first: one round of the loop, and the loop.
use sptsmuxer.Base.{
  ℕ, zero, suc, ◌+◌, ◌-◌, ◌^◌, ◌≤◌, ◌<◌, ◌≡◌, refl, ◌∙◌, ap, arith, [], ◌∷◌, ◌++◌, Bytes, ok,
  length, length-drop, length-take, length-replicate, take, drop, replicate, u8, sub32, le→not_ltb,
  lt→ltb, load_lem, store, store_end, take_all,
}
use sptsmuxer.Ts.{
  spts_tspacket_adaptation_set, TsPacketAdaptationInfo, adaptation_bytes, adaptation_fields,
  stuffing_bytes_length,
}
use sptsmuxer.Ts.Header.{packet, set_adaptation_packet, adaptation_set_packet}
use sptsmuxer.Spts.Packets.{Sender, next_packet}
use sptsmuxer.Spts.Packets.Fill.{plain_field}

-- The adaptation field of n bytes in the last packet.
abbrev pub stuffing : ℕ → Bytes
stuffing zero = []
stuffing (suc n) = 0 ∷ replicate n 0xff

pub length-stuffing : (n : ℕ) → length (stuffing n) ≡ n
length-stuffing zero = refl
length-stuffing (suc n) = ap suc (length-replicate {A = ℕ} n 0xff)

module _ (pid counter : ℕ) (pid_bits : pid < 2 ^ 13) (counter_bits : counter < 16) (body : Bytes)
    (full : length body ≡ 184) where
  -- The field that is written, with the bytes of the frame over the rest of the packet. A field of
  -- no bytes is its length alone, though two bytes are written: the frame goes over the second.
  last_filled :
      (n : ℕ) (taken : Bytes)
      → n < 184
      → n + length taken ≡ 183
      → (adapted : Bytes) × (m : ℕ) × (spts_tspacket_adaptation_set
            (packet 0 pid 3 counter body)
            (record { field_flag = 0; adaptation_field_length = n; pcr = 0 })
          ≡ ok (adapted, m))
        × (store adapted (n + 1 + 4) taken
            ≡ ok (packet 0 pid 3 counter (n ∷ (stuffing n ++ taken))))
  last_filled zero taken bound total = (
    packet 0 pid 3 counter (0 ∷ 0 ∷ drop 2 body),
    2,
    unfold adaptation_bytes adaptation_fields stuffing_bytes_length in
        adaptation_set_packet 0 pid 3 counter body
          (record { field_flag = 0; adaptation_field_length = 0; pcr = 0 }) (omega arith),
    store_end (packet 0 pid 3 counter (0 ∷ [])) (0 ∷ drop 2 body) taken 5 refl
        (omega (arith, length-drop 2 body)),
  )
  last_filled (suc n) taken bound total = (
    packet 0 pid 3 counter ((suc n ∷ stuffing (suc n)) ++ drop (suc (suc n)) body),
    suc (suc n),
    adaptation_set_packet 0 pid 3 counter body info
          (rw bytes (omega (arith, length-stuffing (suc n))))
        ∙ rw bytes (
            ap
              (λ k.
                ok
                  (packet 0 pid 3 counter ((suc n ∷ stuffing (suc n)) ++ drop (suc k) body), suc k))
              (length-stuffing (suc n))),
    store_end (packet 0 pid 3 counter (suc n ∷ stuffing (suc n))) (drop (suc (suc n)) body) taken
        (suc n + 1 + 4) (omega (arith, length-stuffing (suc n)))
        (omega (arith, length-drop (suc (suc n)) body)),
  )
    where
      info : TsPacketAdaptationInfo
      info = record { field_flag = 0; adaptation_field_length = suc n; pcr = 0 }

      bytes : adaptation_bytes info ≡ suc n ∷ stuffing (suc n)
      bytes =
          plain_field (suc n) 0 (omega arith) (omega arith)
          ∙ ap (λ k. suc n ∷ 0 ∷ replicate k 0xff) (omega arith)

module _ (pid counter : ℕ) (pid_bits : pid < 2 ^ 13) (counter_bits : counter < 16) (s : Sender)
    (frame : Bytes) (left : s.buf + s.pes_packet_length ≡ length frame)
    (small : length frame < 2 ^ 32) where
  -- What is left of the frame.
  abbrev pub tail : Bytes
  tail = drop s.buf frame

  pub length-tail : length tail ≡ s.pes_packet_length
  length-tail = omega (arith, length-drop s.buf frame)

  -- A round with a whole payload left.
  pub full_round :
      (body : Bytes)
      → s.tspacket ≡ packet 0 pid 1 counter body
      → length body ≡ 184
      → 184 ≤ s.pes_packet_length
      → next_packet s frame
        ≡ ok (record s {
          tspacket = packet 0 pid 1 counter (take 184 tail);
          pes_packet_length = s.pes_packet_length - 184;
          buf = s.buf + 184;
        })
  unfolding next_packet
  full_round body at full enough =
      rw
        (
          le→not_ltb s.pes_packet_length 184 enough,
          load_lem frame s.buf 184 (omega arith),
          at,
          store_end (packet 0 pid 1 counter []) body (take 184 tail) 4 refl
              (omega (arith, length-take 184 tail, length-tail)),
          less,
        )
        refl
    where
      less : sub32 s.pes_packet_length 184 ≡ s.pes_packet_length - 184
      less = omega arith

  -- The last round, which fills its packet up with stuffing.
  pub last_round :
      (control : ℕ) (body : Bytes)
      → control < 4
      → s.tspacket ≡ packet 0 pid control counter body
      → length body ≡ 184
      → s.pes_packet_length < 184
      → 0 < s.pes_packet_length
      → next_packet s frame
        ≡ ok (record s {
          tspacket =
              packet 0 pid 3 counter
                ((183 - s.pes_packet_length) ∷ (stuffing (183 - s.pes_packet_length) ++ tail));
          pes_packet_length = 0;
        })
  unfolding next_packet
  last_round control body control_bits at full short some_left =
      let filled =
        last_filled pid counter pid_bits counter_bits body full (183 - s.pes_packet_length) tail
          (omega arith) (omega (arith, length-tail)) in
      rw
        (
          lt→ltb s.pes_packet_length 184 short,
          at,
          set_adaptation_packet 0 pid control counter body control_bits counter_bits,
          stuffed,
          filled.2,
          load_lem frame s.buf s.pes_packet_length (omega arith),
          take_all s.pes_packet_length tail (omega (arith, length-tail)),
          filled.3,
        )
        refl
    where
      stuffed : u8 (sub32 (sub32 184 s.pes_packet_length) 1) ≡ 183 - s.pes_packet_length
      stuffed = omega arith
