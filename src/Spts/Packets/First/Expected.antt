-- ===== src/Spts/Packets/First/Expected.antt =====
-- What the first packet of a frame is to be.
use sptsmuxer.Base.{
  ℕ, ◌+◌, ◌-◌, ◌*◌, ◌/◌, ◌%◌, ◌^◌, ◌≤◌, ◌<◌, ◌≡◌, arith, ◌++◌, Bool, Option, some, none, Bytes, ok,
  length, length-append, length-take, take, u64, ltb, if◌then◌else◌,
}
use sptsmuxer.Pes.{PesHeaderInfo, pes_header_bytes}
use sptsmuxer.Pes.Decode.{length-pes_header_bytes}
use sptsmuxer.Ts.Header.{packet}
use sptsmuxer.Ts.Decode.{TsView, decode_ts, read_pcr}
use sptsmuxer.Spts.Packets.{start_packet, put_payload}

-- The clock that goes with a time stamp: 10250 ticks of 90 kHz earlier, in ticks of 27 MHz.
abbrev pub clock_of : ℕ → ℕ
clock_of pts = if ltb pts 10250 then 0 else u64 ((pts - 10250) * 300)

-- The clock as 33 bits of base and the extension carry it.
abbrev pub wrapped : ℕ → ℕ
wrapped pcr = pcr / 300 % 2 ^ 33 * 300 + pcr % 300

-- The clock that the first packet carries, if it carries one.
abbrev pub clock_if : Bool → ℕ → Option ℕ
clock_if clock pts = if clock then some (wrapped (clock_of pts)) else none

-- How much of a frame the first packet holds.
abbrev pub capacity : Bool → ℕ
capacity clock = if clock then 162 else 170

abbrev pub first_view : ℕ → ℕ → Bytes → Bytes → TsView
first_view pid counter ad payload = record {
  unit_start = 1;
  pid = pid;
  counter = counter;
  adaptation = ad;
  payload = payload;
}

-- The first packet, written over the packet `tspacket`, and what a receiver makes of it.
pub record Begun (tspacket : Bytes) (clock : Bool) (pid counter : ℕ) (info : PesHeaderInfo)
    (frame : Bytes) : Type 0 where
  pub adapted : Bytes
  pub offset : ℕ
  pub control : ℕ
  pub rest : Bytes
  pub size : ℕ
  pub field : Bytes
  pub starts : start_packet tspacket clock info ≡ ok (adapted, offset)
  pub puts : put_payload adapted offset info frame ≡ ok (packet 1 pid control counter rest, size)
  pub full : length rest ≡ 184
  pub control_bits : control < 4
  pub within : size ≤ length frame
  pub left : length frame - size ≡ length frame - capacity clock
  pub decoded :
      decode_ts (packet 1 pid control counter rest)
      ≡ some (first_view pid counter field (pes_header_bytes info ++ take size frame))
  pub timed : read_pcr field ≡ clock_if clock info.pts

pub length-payload :
    (info : PesHeaderInfo) (frame : Bytes) (n : ℕ)
    → n ≤ length frame
    → length (pes_header_bytes info ++ take n frame) ≡ 14 + n
length-payload info frame n h = omega (
  arith,
  length-append (pes_header_bytes info) (take n frame),
  length-pes_header_bytes info,
  length-take n frame,
)
