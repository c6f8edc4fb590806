-- ===== src/Spts/Frame/Carry.antt =====
-- A frame as a receiver of its stream gets it from a run of packets.
use sptsmuxer.Base.{
  ℕ, ◌+◌, ◌-◌, ◌%◌, ◌^◌, ◌<◌, ◌≡◌, refl, ◌∙◌, ap, arith, List, ◌∷◌, ◌++◌, Option, some, Bytes,
  Result, length, ◌==◌, if◌then◌else◌,
}
use sptsmuxer.Pes.{pes_header_bytes, stream_id_video}
use sptsmuxer.Pes.Decode.{PesHeader, decode_pes, decode_pes-pes_header_bytes}
use sptsmuxer.Ts.Decode.{TsView, decode_ts, read_pcr}
use sptsmuxer.Ts.Receive.{receive}
use sptsmuxer.Spts.State.{SpTsStream}
use sptsmuxer.Spts.Packets.First.{clock_if, first_view}
use sptsmuxer.Spts.Packets.Whole.{IsReady, Delivered, frame_info}

-- A receiver of the PID gets a PES packet that starts with the first of the packets, with this
-- header and, behind it, these bytes.
pub record Carries (pid counter : ℕ) (packets : List Bytes) (header : PesHeader) (bytes : Bytes)
    : Type 0 where
  pub pes : Bytes
  pub received : receive pid 1 counter packets ≡ some pes
  pub read : decode_pes pes ≡ some (header, bytes)

-- PES_packet_length: 0 for video.
abbrev pub length_field : ℕ → Bytes → ℕ
length_field stream_id bytes =
    if stream_id == stream_id_video then 0 else (length bytes + 8) % 2 ^ 16

pub Delivered-Carries :
    {stream : SpTsStream} {pid counter all_packets pts : ℕ} {frame : Bytes}
    {result : Result (SpTsStream × ℕ × List Bytes)}
    → length frame < 2 ^ 32 - 22
    → IsReady stream pid counter
    → (d : Delivered stream pid counter all_packets pts frame result)
    → Carries pid counter
        (d.first ∷ d.others)
        (record {
          stream_id = stream.pes_header_info.stream_id;
          packet_length = length_field stream.pes_header_info.stream_id frame;
          pts = pts % 2 ^ 33;
        })
        frame
Delivered-Carries {stream} {pts = pts} {frame = frame} small r d = record {
  pes = pes_header_bytes (frame_info stream pts frame) ++ frame;
  received = d.received;
  read =
      decode_pes-pes_header_bytes (frame_info stream pts frame) frame r.flags r.header_length
      ∙ ap
          (λ n. some (
            record {
              stream_id = stream.pes_header_info.stream_id;
              packet_length =
                  if stream.pes_header_info.stream_id == stream_id_video
                  then 0
                  else (n + 8) % 2 ^ 16;
              pts = pts % 2 ^ 33;
            },
            frame,
          ))
          (omega arith);
}

-- The first of the packets carries this clock, or none.
pub record HasClock (packets : List Bytes) (pcr : Option ℕ) : Type 0 where
  pub first : Bytes
  pub others : List Bytes
  pub view : TsView
  pub begins : packets ≡ first ∷ others
  pub decoded : decode_ts first ≡ some view
  pub timed : read_pcr view.adaptation ≡ pcr

pub Delivered-HasClock :
    {stream : SpTsStream} {pid counter all_packets pts : ℕ} {frame : Bytes}
    {result : Result (SpTsStream × ℕ × List Bytes)}
    → (d : Delivered stream pid counter all_packets pts frame result)
    → HasClock (d.first ∷ d.others) (clock_if stream.pcr_reference pts)
Delivered-HasClock {pid = pid} {counter = counter} d = record {
  first = d.first;
  others = d.others;
  view = first_view pid counter d.clock_field d.clock_payload;
  begins = refl;
  decoded = d.decoded;
  timed = d.timed;
}
