-- ===== src/Spts/Packets.antt =====
-- The part of `spts_write_frame` that cuts one frame into packets (src/spts.c, from "unit start
-- indicator is true" on), on the stream that the first part has chosen.
pub mod Fill
pub mod First
pub mod Rest
pub mod Loop
pub mod Whole
pub mod Shift
use sptsmuxer.Base.{
  Bool, ℕ, zero, suc, ◌+◌, ◌-◌, ◌*◌, ◌^◌, List, [], ◌∷◌, u8, u32, u64, sub32, Bytes, Result, ok,
  fault, out_of_fuel, ◌>>=◌, store, load, length, ltb, if◌then◌else◌,
}
use sptsmuxer.Pes.{PesHeaderInfo, pes_header_set, pes_header_length}
use sptsmuxer.Ts.{
  TsPacketAdaptationInfo, pcr_flag, tspacket_header_length, tspacket_payload_length,
  tspacket_length, adaptation_field_payload_only, adaptation_field_adaptation_and_payload,
  spts_tspacket_header_set_start_unit_indicator, spts_tspacket_header_set_adaptation_field_control,
  spts_tspacket_header_cc_inc, spts_tspacket_adaptation_set,
}
use sptsmuxer.Spts.State.{SpTsStream}

-- TSPACKET_PAYLOAD_LENGTH - pes_header_length (…) - pes_packet_length - 1, into a guint8.
unfoldable pub filling_length : PesHeaderInfo → ℕ
filling_length info = u8 (
    sub32 (sub32 (sub32 tspacket_payload_length (pes_header_length info)) info.pes_packet_length) 1)

-- The adaptation field of the first packet of a stream that carries the clock.
unfoldable pub pcr_adaptation : PesHeaderInfo → TsPacketAdaptationInfo
pcr_adaptation info = record {
  field_flag = pcr_flag;
  adaptation_field_length =
      if ltb (u32 (0x7 + 1 + pes_header_length info + info.pes_packet_length))
        tspacket_payload_length
      then filling_length info
      else 0x7;
  pcr = if ltb info.pts 10250 then 0 else u64 ((info.pts - 10250) * 300);
}

-- The packet with its adaptation field, if it takes one, and the offset of what follows.
unfoldable pub start_packet : Bytes → Bool → PesHeaderInfo → Result (Bytes × ℕ)
start_packet tspacket pcr_reference info =
    if pcr_reference
    then (do
      marked ←
          spts_tspacket_header_set_adaptation_field_control tspacket
            adaptation_field_adaptation_and_payload
      (adapted, n) ← spts_tspacket_adaptation_set marked (pcr_adaptation info)
      ok (adapted, tspacket_header_length + n))
    else (if ltb (u32 (pes_header_length info + info.pes_packet_length)) tspacket_payload_length
        then (do
          marked ←
              spts_tspacket_header_set_adaptation_field_control tspacket
                adaptation_field_adaptation_and_payload
          (adapted, n) ←
              spts_tspacket_adaptation_set marked (record {
                field_flag = 0x00;
                adaptation_field_length = filling_length info;
                pcr = 0;
              })
          ok (adapted, tspacket_header_length + n))
        else (do
          marked ←
              spts_tspacket_header_set_adaptation_field_control tspacket
                adaptation_field_payload_only
          ok (marked, tspacket_header_length)))

-- The PES header at `offset`, then as much of the frame as the packet holds. Also the number of
-- bytes of the frame that were taken.
unfoldable pub put_payload : Bytes → ℕ → PesHeaderInfo → Bytes → Result (Bytes × ℕ)
put_payload tspacket offset info frame = do
  (headed, n) ← pes_header_set tspacket offset info
  let tspacket_payload_size = sub32 tspacket_length (offset + n)
  taken ← load frame 0 tspacket_payload_size
  filled ← store headed (offset + n) taken
  ok (filled, tspacket_payload_size)

-- What the loop works on: the packet, how much of the frame is left and where it begins, and the
-- packet counters of the stream and of the whole.
pub record Sender : Type 0 where
  pub tspacket : Bytes
  pub pes_packet_length : ℕ
  pub buf : ℕ
  pub stream_packets : ℕ
  pub all_packets : ℕ

-- The two counters and the continuity counter, once a packet is written.
unfoldable pub count_packet : Sender → Result Sender
count_packet s = do
  counted ← spts_tspacket_header_cc_inc s.tspacket
  ok (record s {
    tspacket = counted;
    stream_packets = u64 (s.stream_packets + 1);
    all_packets = u64 (s.all_packets + 1);
  })

-- The body of the loop up to the write: the packet as it is written, what is left, and where.
-- The clock that an earlier adaptation field left in `adaptation_info` is not read, at flag 0.
unfoldable pub next_packet : Sender → Bytes → Result Sender
next_packet s frame =
    if ltb s.pes_packet_length tspacket_payload_length
    then (do
      marked ←
          spts_tspacket_header_set_adaptation_field_control s.tspacket
            adaptation_field_adaptation_and_payload
      let adaptation_field_length = u8 (sub32 (sub32 tspacket_payload_length s.pes_packet_length) 1)
      (adapted, n) ←
          spts_tspacket_adaptation_set marked (record {
            field_flag = 0x00;
            adaptation_field_length = adaptation_field_length;
            pcr = 0;
          })
      let offset = adaptation_field_length + 1 + tspacket_header_length
      taken ← load frame s.buf s.pes_packet_length
      filled ← store adapted offset taken
      ok (record s { tspacket = filled; pes_packet_length = 0 }))
    else (do
      taken ← load frame s.buf tspacket_payload_length
      filled ← store s.tspacket tspacket_header_length taken
      ok (record s {
        tspacket = filled;
        pes_packet_length = sub32 s.pes_packet_length tspacket_payload_length;
        buf = s.buf + tspacket_payload_length;
      }))

-- `while (stream->pes_header_info.pes_packet_length > 0)`, on fuel.
unfoldable pub rest_packets : ℕ → Sender → Bytes → Result (Sender × List Bytes)
rest_packets zero s frame = fault out_of_fuel
rest_packets (suc fuel) s frame =
    let more = (do
      filled ← next_packet s frame
      counted ← count_packet filled
      (done, packets) ← rest_packets fuel counted frame
      ok (done, filled.tspacket ∷ packets)) in
    if ltb 0 s.pes_packet_length then more else ok (s, [])

-- The whole part, for `pts` in units of 90 kHz and a counter of all packets. A round of the loop
-- takes at least one byte, so that the fuel is enough.
unfoldable pub write_stream : SpTsStream → ℕ → ℕ → Bytes → Result (SpTsStream × ℕ × List Bytes)
write_stream stream all_packets pts frame = do
  started ← spts_tspacket_header_set_start_unit_indicator stream.tspacket 0x40
  let info = record stream.pes_header_info { pts = pts; pes_packet_length = u32 (length frame) }
  (begun, offset) ← start_packet started stream.pcr_reference info
  (first, size) ← put_payload begun offset info frame
  counted ← count_packet (record {
    tspacket = first;
    pes_packet_length = sub32 info.pes_packet_length size;
    buf = size;
    stream_packets = stream.packets_counter;
    all_packets = all_packets;
  })
  plain ←
      spts_tspacket_header_set_adaptation_field_control counted.tspacket
        adaptation_field_payload_only
  continuing ← spts_tspacket_header_set_start_unit_indicator plain 0x00
  (done, packets) ←
      rest_packets (suc (length frame)) (record counted { tspacket = continuing }) frame
  ok (
    record stream {
      tspacket = done.tspacket;
      packets_counter = done.stream_packets;
      pes_header_info = record info { pes_packet_length = done.pes_packet_length };
    },
    done.all_packets,
    first ∷ packets,
  )
