-- ===== src/Spts/Packets/Shift.antt =====
-- A frame of 169 bytes in a stream without the clock: its PES packet starts one byte late.
use sptsmuxer.Base.{
  ℕ, ◌^◌, ◌<◌, ◌≡◌, refl, arith, [], ◌∷◌, ◌++◌, false, none, some, Bytes, ok, length, length-append,
  length-drop, length-take, take, drop,
}
use sptsmuxer.Pes.{
  PesHeaderInfo, pes_header_bytes, pes_header_length, packet_length_bytes, pts_bytes,
}
use sptsmuxer.Pes.Decode.{decode_pes, length-pes_header_bytes}
use sptsmuxer.Ts.{adaptation_bytes, adaptation_fields, stuffing_bytes_length}
use sptsmuxer.Ts.Header.{packet, set_adaptation_packet, adaptation_set_packet}
use sptsmuxer.Ts.Decode.{decode_ts, decode_adaptation_packet}
use sptsmuxer.Spts.Packets.{filling_length, start_packet, put_payload}
use sptsmuxer.Spts.Packets.Fill.{put_payload_lem}
use sptsmuxer.Spts.Packets.First.{first_view}

-- What the first packet of such a frame carries behind its header.
abbrev pub shifted : PesHeaderInfo → Bytes → Bytes
shifted info frame = 0 ∷ (pes_header_bytes info ++ take 168 frame)

shifted_unread : (info : PesHeaderInfo) (frame : Bytes) → decode_pes (shifted info frame) ≡ none
unfolding decode_pes pes_header_bytes packet_length_bytes pts_bytes
shifted_unread info frame = ground arith

-- A first packet for a frame of 169 bytes, in a stream without the clock: the length of the
-- adaptation field is 0, two bytes are written for it, and a receiver takes the second of them for
-- the start of the payload, which no decoder of PES packets accepts.
pub start_packet-shifted :
    (pid control counter : ℕ) (body : Bytes) (info : PesHeaderInfo) (frame : Bytes)
    → pid < 2 ^ 13
    → control < 4
    → counter < 16
    → length body ≡ 184
    → info.pes_packet_length ≡ length frame
    → length frame ≡ 169
    → (adapted : Bytes) × (rest : Bytes) × (start_packet
          (packet 1 pid control counter body)
          false
          info
        ≡ ok (adapted, 6))
      × (put_payload adapted 6 info frame ≡ ok (packet 1 pid 3 counter rest, 168))
      × (decode_ts (packet 1 pid 3 counter rest)
          ≡ some (first_view pid counter [] (shifted info frame)))
      × (decode_pes (shifted info frame) ≡ none)
unfolding start_packet pes_header_length filling_length adaptation_bytes adaptation_fields
    stuffing_bytes_length
start_packet-shifted pid control counter body info frame hp hctl hc full sized len = (
  packet 1 pid 3 counter (0 ∷ 0 ∷ drop 2 body),
  0 ∷ 0 ∷ (pes_header_bytes info ++ take 168 frame),
  rw
      (
        sized,
        len,
        set_adaptation_packet 1 pid control counter body hctl hc,
        adaptation_set_packet 1 pid 3 counter body
            (record { field_flag = 0; adaptation_field_length = 0; pcr = 0 }) (omega arith),
      )
      refl,
  put_payload_lem 1 pid 3 counter (0 ∷ 0 ∷ []) (drop 2 body) 6 info frame refl (omega arith)
      (omega (arith, length-drop 2 body)) (omega arith),
  decode_adaptation_packet 1 pid counter (omega arith) hp hc 0 [] (shifted info frame) refl
      (omega (
        arith,
        length-append (pes_header_bytes info) (take 168 frame),
        length-pes_header_bytes info,
        length-take 168 frame,
      ))
      (omega arith),
  shifted_unread info frame,
)
