-- ===== src/Spts/Packets/Loop/Rounds.antt =====
-- What the loop is to leave and to send, and one round before others.
use sptsmuxer.Base.{
  ℕ, suc, ◌+◌, ◌/◌, ◌%◌, ◌≤◌, ◌<◌, ◌≡◌, inl, inr, refl, sym, ◌∙◌, ap, arith, List, [], ◌∷◌, ◌++◌,
  some, Bytes, Result, ok, length, drop, u64, ltb, lt→ltb, if◌then◌else◌, Bool-cases, drop_all,
}
use sptsmuxer.Ts.Header.{packet, cc_inc_packet}
use sptsmuxer.Ts.Decode.{decode_ts}
use sptsmuxer.Ts.Receive.{receive, receive-cons}
use sptsmuxer.Spts.Packets.{Sender, next_packet, count_packet, rest_packets}

-- The sender after a packet of its PID is counted.
abbrev pub counted : Sender → ℕ → ℕ → ℕ → Bytes → Sender
counted s pid control counter rest = record s {
  tspacket = packet 0 pid control ((counter + 1) % 16) rest;
  stream_packets = u64 (s.stream_packets + 1);
  all_packets = u64 (s.all_packets + 1);
}

-- What the loop has still to send. The last round does not move `buf`.
abbrev pub remaining : Sender → Bytes → Bytes
remaining s frame = if ltb 0 s.pes_packet_length then drop s.buf frame else []

-- What the loop leaves and has sent, from the sender `s` with its packet at `counter`.
pub record Sent (pid counter : ℕ) (s : Sender) (frame : Bytes)
    (result : Result (Sender × List Bytes)) : Type 0 where
  pub done : Sender
  pub packets : List Bytes
  pub returns : result ≡ ok (done, packets)
  pub received : receive pid 0 counter packets ≡ some (remaining s frame)
  pub rounds : length packets ≡ (s.pes_packet_length + 183) / 184
  pub emptied : done.pes_packet_length ≡ 0
  pub stream_count : done.stream_packets ≡ u64 (s.stream_packets + length packets)
  pub all_count : done.all_packets ≡ u64 (s.all_packets + length packets)
  pub control : ℕ
  pub rest : Bytes
  pub at : done.tspacket ≡ packet 0 pid control ((counter + length packets) % 16) rest
  pub full : length rest ≡ 184
  pub control_bits : control < 4

module _ (pid counter : ℕ) (counter_bits : counter < 16) (frame : Bytes) where
  -- One round before the others.
  pub round_before :
      (fuel : ℕ) (s filled : Sender) (control : ℕ) (rest ad payload : Bytes)
      → 0 < s.pes_packet_length
      → next_packet s frame ≡ ok filled
      → filled.tspacket ≡ packet 0 pid control counter rest
      → control < 4
      → filled.stream_packets ≡ s.stream_packets
      → filled.all_packets ≡ s.all_packets
      → (s.pes_packet_length + 183) / 184 ≡ suc ((filled.pes_packet_length + 183) / 184)
      → decode_ts (packet 0 pid control counter rest)
        ≡ some (record {
          unit_start = 0;
          pid = pid;
          counter = counter;
          adaptation = ad;
          payload = payload;
        })
      → remaining s frame ≡ payload ++ remaining filled frame
      → (let next = counted filled pid control counter rest in
          Sent pid ((counter + 1) % 16) next frame (rest_packets fuel next frame))
      → Sent pid counter s frame (rest_packets (suc fuel) s frame)
  round_before fuel s filled control rest ad payload some_left e at control_bits same_stream
        same_all rounds d split sent =
      record {
        done = sent.done;
        packets = filled.tspacket ∷ sent.packets;
        returns =
            unfold rest_packets count_packet in
            rw
              (
                lt→ltb 0 s.pes_packet_length some_left,
                e,
                at,
                cc_inc_packet 0 pid control counter rest control_bits counter_bits,
                sent.returns,
              )
              refl;
        received = rw split (
            receive-cons pid 0 counter ad payload filled.tspacket (remaining filled frame)
              sent.packets (rw at d) sent.received);
        rounds = omega (arith, sent.rounds, rounds);
        emptied = sent.emptied;
        stream_count = omega (arith, sent.stream_count, same_stream);
        all_count = omega (arith, sent.all_count, same_all);
        control = sent.control;
        rest = sent.rest;
        at = sent.at ∙ ap (λ c. packet 0 pid sent.control c sent.rest) (omega arith);
        full = sent.full;
        control_bits = sent.control_bits;
      }

pub remaining_lem :
    (s : Sender) (frame : Bytes)
    → s.buf + s.pes_packet_length ≡ length frame
    → remaining s frame ≡ drop s.buf frame
remaining_lem s frame e = elim (Bool-cases (ltb 0 s.pes_packet_length)) [
  | inl some_left ↦ rw some_left refl
  | inr none_left ↦
      let at_end : length frame ≤ s.buf = ground arith in
      rw none_left (sym (drop_all s.buf frame at_end))
]
