-- ===== src/Spts/Packets/Whole.antt =====
-- All packets of a frame: what a receiver of the stream's PID gets from them.
use sptsmuxer.Base.{
  ℕ, suc, ◌+◌, ◌-◌, ◌/◌, ◌%◌, ◌^◌, ◌<◌, ◌≡◌, refl, ◌∙◌, ap, arith, List, ◌∷◌, ◌++◌, some, Bytes,
  Result, ok, length, take, append_assoc, take-append-drop, u32, u64, sub32,
}
use sptsmuxer.Pes.{PesHeaderInfo, pes_header_bytes}
use sptsmuxer.Ts.Header.{
  packet, set_start_packet, clear_start_packet, set_payload_only_packet, cc_inc_packet,
}
use sptsmuxer.Ts.Decode.{decode_ts, read_pcr}
use sptsmuxer.Ts.Receive.{receive, receive-cons}
use sptsmuxer.Spts.State.{SpTsStream}
use sptsmuxer.Spts.Packets.{Sender, count_packet, rest_packets, write_stream}
use sptsmuxer.Spts.Packets.First.{Begun, begun, Fits, capacity, clock_if, first_view}
use sptsmuxer.Spts.Packets.Loop.{Sent, remaining, remaining_lem, rest_packets-Sent}

-- A stream whose packet has its PID and stands at a continuity counter.
pub record IsReady (stream : SpTsStream) (pid counter : ℕ) : Type 0 where
  pub start : ℕ
  pub control : ℕ
  pub body : Bytes
  pub at : stream.tspacket ≡ packet start pid control counter body
  pub full : length body ≡ 184
  pub start_bit : start < 2
  pub control_bits : control < 4
  pub pid_bits : pid < 2 ^ 13
  pub counter_bits : counter < 16
  pub flags : stream.pes_header_info.pes_header_flag ≡ 0x8080
  pub header_length : stream.pes_header_info.pes_header_data_length ≡ 5
  pub count_bits : stream.packets_counter < 2 ^ 64

-- The parts of a stream that matter for it.
pub IsReady-kept :
    {s t : SpTsStream} {pid counter : ℕ}
    → IsReady s pid counter
    → t.tspacket ≡ s.tspacket
    → t.pes_header_info ≡ s.pes_header_info
    → t.packets_counter ≡ s.packets_counter
    → IsReady t pid counter
IsReady-kept r same_packet same_info same_count = record {
  start = r.start;
  control = r.control;
  body = r.body;
  at = same_packet ∙ r.at;
  full = r.full;
  start_bit = r.start_bit;
  control_bits = r.control_bits;
  pid_bits = r.pid_bits;
  counter_bits = r.counter_bits;
  flags = rw same_info r.flags;
  header_length = rw same_info r.header_length;
  count_bits = rw same_count r.count_bits;
}

-- The PES header of a frame.
abbrev pub frame_info : SpTsStream → ℕ → Bytes → PesHeaderInfo
frame_info stream pts frame = record stream.pes_header_info {
  pts = pts;
  pes_packet_length = u32 (length frame);
}

-- What `write_stream` leaves and has sent.
pub record Delivered (stream : SpTsStream) (pid counter all_packets pts : ℕ) (frame : Bytes)
    (result : Result (SpTsStream × ℕ × List Bytes)) : Type 0 where
  pub out : SpTsStream
  pub total : ℕ
  pub first : Bytes
  pub others : List Bytes
  pub returns : result ≡ ok (out, total, first ∷ others)
  pub received :
      receive pid 1 counter (first ∷ others)
      ≡ some (pes_header_bytes (frame_info stream pts frame) ++ frame)
  pub number : length others ≡ (length frame - capacity stream.pcr_reference + 183) / 184
  pub ready : IsReady out pid ((counter + suc (length others)) % 16)
  pub stream_count : out.packets_counter ≡ u64 (stream.packets_counter + suc (length others))
  pub all_count : total ≡ u64 (all_packets + suc (length others))
  pub kept :
      (out.pcr_reference ≡ stream.pcr_reference)
      × (out.pes_header_info.stream_id ≡ stream.pes_header_info.stream_id)
      × (out.frames_counter ≡ stream.frames_counter)
      × (out.last_gop_packets_counter ≡ stream.last_gop_packets_counter)
      × (out.max_gop_packets ≡ stream.max_gop_packets)
  pub clock_field : Bytes
  pub clock_payload : Bytes
  pub decoded : decode_ts first ≡ some (first_view pid counter clock_field clock_payload)
  pub timed : read_pcr clock_field ≡ clock_if stream.pcr_reference pts

module _ (stream : SpTsStream) (pid counter all_packets pts : ℕ) (frame : Bytes)
    (ready : IsReady stream pid counter) (small : length frame < 2 ^ 32 - 22)
    (fits : Fits stream.pcr_reference (length frame)) where
  abbrev info : PesHeaderInfo
  info = frame_info stream pts frame

  begin :
      Begun
        (packet 1 pid ready.control counter ready.body)
        stream.pcr_reference
        pid
        counter
        info
        frame
  begin =
      begun stream.pcr_reference pid ready.control counter ready.body info frame ready.pid_bits
        ready.control_bits ready.counter_bits ready.full (omega arith) small fits

  -- The sender as the loop begins.
  abbrev continuing : Sender
  continuing = record {
    tspacket = packet 0 pid 1 ((counter + 1) % 16) begin.rest;
    pes_packet_length = sub32 (u32 (length frame)) begin.size;
    buf = begin.size;
    stream_packets = u64 (stream.packets_counter + 1);
    all_packets = u64 (all_packets + 1);
  }

  sent :
      Sent pid
        ((counter + 1) % 16)
        continuing
        frame
        (rest_packets (suc (length frame)) continuing frame)
  sent =
      rest_packets-Sent pid (suc (length frame)) ((counter + 1) % 16) continuing frame 1 begin.rest
        ready.pid_bits (omega arith) (omega arith) (λ h. omega (arith, begin.within))
        (omega (arith, begin.within)) (omega arith) refl begin.full (omega arith) (λ h. refl)

  together :
      (pes_header_bytes info ++ take begin.size frame) ++ remaining continuing frame
      ≡ pes_header_bytes info ++ frame
  together =
      append_assoc (pes_header_bytes info) (take begin.size frame) (remaining continuing frame)
      ∙ ap (λ l. pes_header_bytes info ++ (take begin.size frame ++ l))
          (remaining_lem continuing frame (omega (arith, begin.within)))
      ∙ ap (λ l. pes_header_bytes info ++ l) (take-append-drop begin.size frame)

  -- For a stream that is ready on a PID and a frame below 2^32 - 22 bytes that the first packet
  -- gets right, write_stream ends and succeeds; a receiver of the PID that checks PID, start bit
  -- and continuity counter of every packet gets the PES header followed by the frame, and the
  -- number of packets, the counters, the clock and the state that is left are as stated.
  pub write_stream-Delivered :
      Delivered stream pid counter all_packets pts frame (write_stream stream all_packets pts frame)
  write_stream-Delivered = record {
    out = record stream {
      tspacket = sent.done.tspacket;
      packets_counter = sent.done.stream_packets;
      pes_header_info = record info { pes_packet_length = sent.done.pes_packet_length };
    };
    total = sent.done.all_packets;
    first = packet 1 pid begin.control counter begin.rest;
    others = sent.packets;
    returns =
        unfold write_stream count_packet in
        rw
          (
            ready.at,
            set_start_packet ready.start pid ready.control counter ready.body ready.start_bit
                ready.pid_bits,
            begin.starts,
            begin.puts,
            cc_inc_packet 1 pid begin.control counter begin.rest begin.control_bits
                ready.counter_bits,
            set_payload_only_packet 1 pid begin.control ((counter + 1) % 16) begin.rest
                begin.control_bits (omega arith),
            clear_start_packet 1 pid 1 ((counter + 1) % 16) begin.rest (omega arith) ready.pid_bits,
            sent.returns,
          )
          refl;
    received =
        receive-cons pid 1 counter begin.field (pes_header_bytes info ++ take begin.size frame)
          (packet 1 pid begin.control counter begin.rest) (remaining continuing frame) sent.packets
          begin.decoded sent.received
        ∙ ap some together;
    number = omega (arith, sent.rounds, begin.left, begin.within);
    ready = record {
      start = 0;
      control = sent.control;
      body = sent.rest;
      at = sent.at ∙ ap (λ c. packet 0 pid sent.control c sent.rest) (omega arith);
      full = sent.full;
      start_bit = omega arith;
      control_bits = sent.control_bits;
      pid_bits = ready.pid_bits;
      counter_bits = omega arith;
      flags = ready.flags;
      header_length = ready.header_length;
      count_bits = omega (arith, sent.stream_count);
    };
    stream_count = omega (arith, sent.stream_count);
    all_count = omega (arith, sent.all_count);
    kept = (refl, refl, refl, refl, refl);
    clock_field = begin.field;
    clock_payload = pes_header_bytes info ++ take begin.size frame;
    decoded = begin.decoded;
    timed = begin.timed;
  }
