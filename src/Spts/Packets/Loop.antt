-- ===== src/Spts/Packets/Loop.antt =====
-- The loop over the packets of a frame after the first: it ends, and a receiver gets the rest of
-- the frame.
mod Rounds
pub use Rounds.*
use sptsmuxer.Base.{
  ℕ, zero, suc, ◌+◌, ◌-◌, ◌%◌, ◌^◌, ◌≤◌, ◌<◌, ◌≡◌, refl, sym, ◌∙◌, ap, arith, [], ◌∷◌, ◌++◌,
  append-nil, Bytes, length, length-append, length-drop, length-take, take, drop, le→not_ltb,
  drop_split,
}
use native.Mathlib.Decide.{dec_lt}
use sptsmuxer.Ts.Header.{packet}
use sptsmuxer.Ts.Decode.{decode_payload_packet, decode_adaptation_packet}
use sptsmuxer.Ts.Receive.{receive}
use sptsmuxer.Spts.Packets.{Sender, rest_packets}
use sptsmuxer.Spts.Packets.Rest.{stuffing, length-stuffing, full_round, last_round}

module _ (pid counter : ℕ) (hp : pid < 2 ^ 13) (hc : counter < 16) (frame : Bytes)
    (small : length frame < 2 ^ 32) (s : Sender) (body : Bytes) (full : length body ≡ 184)
    (pos : 0 < s.pes_packet_length) (left : s.buf + s.pes_packet_length ≡ length frame) where
  -- The sender once the last packet, or a whole one, is filled.
  abbrev last_packet : Bytes
  last_packet =
      (183 - s.pes_packet_length) ∷ (stuffing (183 - s.pes_packet_length) ++ drop s.buf frame)

  abbrev after_last : Sender
  after_last = record s { tspacket = packet 0 pid 3 counter last_packet; pes_packet_length = 0 }

  abbrev whole_packet : Bytes
  whole_packet = take 184 (drop s.buf frame)

  abbrev after_whole : Sender
  after_whole = record s {
    tspacket = packet 0 pid 1 counter whole_packet;
    pes_packet_length = s.pes_packet_length - 184;
    buf = s.buf + 184;
  }

  length-field :
      s.pes_packet_length < 184
      → length (stuffing (183 - s.pes_packet_length)) + length (drop s.buf frame) ≡ 183
  length-field fits =
      omega (arith, length-stuffing (183 - s.pes_packet_length), length-drop s.buf frame)

  length-last_packet : s.pes_packet_length < 184 → length last_packet ≡ 184
  length-last_packet fits = omega (
    arith,
    length-field fits,
    length-append (stuffing (183 - s.pes_packet_length)) (drop s.buf frame),
  )

  length-whole_packet : 184 ≤ s.pes_packet_length → length whole_packet ≡ 184
  length-whole_packet whole =
      omega (arith, length-take 184 (drop s.buf frame), length-drop s.buf frame)

  last_Sent :
      (fuel control : ℕ)
      → control < 4
      → s.tspacket ≡ packet 0 pid control counter body
      → s.pes_packet_length < 184
      → (let next = counted after_last pid 3 counter last_packet in
          Sent pid ((counter + 1) % 16) next frame (rest_packets fuel next frame))
      → Sent pid counter s frame (rest_packets (suc fuel) s frame)
  last_Sent fuel control hctl at fits =
      round_before pid counter hc frame fuel s after_last 3 last_packet
        (stuffing (183 - s.pes_packet_length)) (drop s.buf frame) pos
        (last_round pid counter hp hc s frame left small control body hctl at full fits pos) refl
        (omega arith) refl refl (omega arith)
        (decode_adaptation_packet 0 pid counter (omega arith) hp hc (183 - s.pes_packet_length)
          (stuffing (183 - s.pes_packet_length)) (drop s.buf frame)
          (sym (length-stuffing (183 - s.pes_packet_length))) (length-field fits) (omega arith))
        (remaining_lem s frame left ∙ sym (append-nil (drop s.buf frame)))

  whole_Sent :
      (fuel : ℕ)
      → s.tspacket ≡ packet 0 pid 1 counter body
      → 184 ≤ s.pes_packet_length
      → (let next = counted after_whole pid 1 counter whole_packet in
          Sent pid ((counter + 1) % 16) next frame (rest_packets fuel next frame))
      → Sent pid counter s frame (rest_packets (suc fuel) s frame)
  whole_Sent fuel at whole =
      round_before pid counter hc frame fuel s after_whole 1 whole_packet [] whole_packet pos
        (full_round pid counter hp hc s frame left small body at full whole) refl (omega arith) refl
        refl (omega arith)
        (decode_payload_packet 0 pid counter (omega arith) hp hc whole_packet
          (length-whole_packet whole))
        (remaining_lem s frame left
          ∙ drop_split s.buf 184 frame
          ∙ ap (λ l. whole_packet ++ l) (sym (remaining_lem after_whole frame (omega arith))))

-- The loop over the rest of a frame ends within any fuel above the number of bytes left, from a
-- packet of the PID that, if bytes are left, has no adaptation field; a receiver gets exactly
-- these bytes, in the number of packets that 184 bytes each need, and both counters and the
-- continuity counter advance by that number.
pub rest_packets-Sent :
    (pid fuel counter : ℕ) (s : Sender) (frame : Bytes) (control : ℕ) (body : Bytes)
    → pid < 2 ^ 13
    → counter < 16
    → length frame < 2 ^ 32
    → (0 < s.pes_packet_length → s.buf + s.pes_packet_length ≡ length frame)
    → s.pes_packet_length < fuel
    → (s.stream_packets < 2 ^ 64) × (s.all_packets < 2 ^ 64)
    → s.tspacket ≡ packet 0 pid control counter body
    → length body ≡ 184
    → control < 4
    → (0 < s.pes_packet_length → control ≡ 1)
    → Sent pid counter s frame (rest_packets fuel s frame)
rest_packets-Sent pid zero counter s frame control body hp hc small left enough counts at full hctl
      one =
    absurd (omega arith)
rest_packets-Sent pid (suc fuel) counter s frame control body hp hc small left enough counts at full
      hctl one =
    elim (dec_lt 0 s.pes_packet_length) [
      | no none_left ↦ record {
        done = s;
        packets = [];
        returns = unfold rest_packets in rw (le→not_ltb 0 s.pes_packet_length (omega arith)) refl;
        received = unfold receive in rw (le→not_ltb 0 s.pes_packet_length (omega arith)) refl;
        rounds = omega arith;
        emptied = omega arith;
        stream_count = omega arith;
        all_count = omega arith;
        control = control;
        rest = body;
        at = at ∙ ap (λ c. packet 0 pid control c body) (omega arith);
        full = full;
        control_bits = hctl;
      }
      | yes pos ↦ elim (dec_lt s.pes_packet_length 184) [
        | yes fits ↦
            let packet_full =
              length-last_packet pid counter hp hc frame small s body full pos (left pos) fits in
            last_Sent pid counter hp hc frame small s body full pos (left pos) fuel control hctl at
              fits
              (rest_packets-Sent pid fuel ((counter + 1) % 16)
                (counted (after_last pid counter hp hc frame small s body full pos (left pos)) pid 3
                  counter (last_packet pid counter hp hc frame small s body full pos (left pos)))
                frame 3 (last_packet pid counter hp hc frame small s body full pos (left pos)) hp
                (omega arith) small (λ h. absurd (omega arith)) (omega arith) (omega arith) refl
                packet_full (omega arith) (λ h. absurd (omega arith)))
        | no whole ↦
            let packet_full =
              length-whole_packet pid counter hp hc frame small s body full pos (left pos)
                (omega arith) in
            whole_Sent pid counter hp hc frame small s body full pos (left pos) fuel
              (at ∙ ap (λ c. packet 0 pid c counter body) (one pos)) (omega arith)
              (rest_packets-Sent pid fuel ((counter + 1) % 16)
                (counted (after_whole pid counter hp hc frame small s body full pos (left pos)) pid
                  1 counter (whole_packet pid counter hp hc frame small s body full pos (left pos)))
                frame 1 (whole_packet pid counter hp hc frame small s body full pos (left pos)) hp
                (omega arith) small (λ h. omega (arith, left pos)) (omega arith) (omega arith) refl
                packet_full (omega arith) (λ h. refl))
      ]
    ]
