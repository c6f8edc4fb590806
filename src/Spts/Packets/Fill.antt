-- ===== src/Spts/Packets/Fill.antt =====
-- How one packet is filled: an adaptation field, the PES header, and bytes of the frame.
use sptsmuxer.Base.{
  ℕ, ◌+◌, ◌-◌, ◌^◌, ◌≤◌, ◌<◌, ◌≡◌, refl, ap, arith, ◌∷◌, ◌++◌, append_assoc, Bytes, ok, length,
  length-append, length-drop, length-take, take, drop, replicate, store-append, store_end, load_lem,
  sub32,
}
use sptsmuxer.Pes.{PesHeaderInfo, pes_header_bytes, pes_header_set}
use sptsmuxer.Pes.Decode.{length-pes_header_bytes}
use sptsmuxer.Ts.{pcr_bytes, adaptation_fields, stuffing_bytes_length, adaptation_bytes}
use sptsmuxer.Ts.Header.{packet}
use sptsmuxer.Ts.Decode.{length-pcr_bytes}
use sptsmuxer.Spts.Packets.{put_payload}

-- A field with no flags: its length, the flags, and stuffing.
pub plain_field :
    (n pcr : ℕ)
    → 1 ≤ n
    → n < 2 ^ 8
    → adaptation_bytes (record { field_flag = 0; adaptation_field_length = n; pcr = pcr })
      ≡ n ∷ 0 ∷ replicate (n - 1) 0xff
unfolding adaptation_bytes adaptation_fields stuffing_bytes_length
plain_field n pcr pos bound = ap (λ k. n ∷ 0 ∷ replicate k 0xff) (ground arith)

-- A field with the clock.
pub clock_field :
    (n pcr : ℕ)
    → 7 ≤ n
    → n < 2 ^ 8
    → adaptation_bytes (record { field_flag = 0x10; adaptation_field_length = n; pcr = pcr })
      ≡ n ∷ 0x10 ∷ (pcr_bytes pcr ++ replicate (n - 7) 0xff)
unfolding adaptation_bytes adaptation_fields stuffing_bytes_length
clock_field n pcr enough bound =
    ap (λ k. n ∷ 0x10 ∷ (pcr_bytes pcr ++ replicate k 0xff)) (ground (arith, length-pcr_bytes pcr))

module _ (start pid control cc : ℕ) where
  -- The PES header and the frame behind a field of any length that leaves room for them.
  pub put_payload_lem :
      (field rest : Bytes) (off : ℕ) (info : PesHeaderInfo) (frame : Bytes)
      → off ≡ 4 + length field
      → length field ≤ 170
      → length field + length rest ≡ 184
      → 170 ≤ length field + length frame
      → put_payload (packet start pid control cc (field ++ rest)) off info frame
        ≡ ok (
          packet start pid control cc
              (field ++ (pes_header_bytes info ++ take (170 - length field) frame)),
          170 - length field,
        )
  unfolding put_payload pes_header_set
  put_payload_lem field rest off info frame e short full enough =
      rw
        (
          store-append (packet start pid control cc field) rest (pes_header_bytes info) off
              (omega arith) (omega (arith, length-pes_header_bytes info)),
          length-pes_header_bytes info,
          size,
          load_lem frame 0 (170 - length field) (omega arith),
          ← append_assoc field (pes_header_bytes info) (drop 14 rest),
          store_end (packet start pid control cc (field ++ pes_header_bytes info)) (drop 14 rest)
              (take (170 - length field) frame) (off + 14)
              (omega
                (arith, length-append field (pes_header_bytes info), length-pes_header_bytes info))
              (omega (arith, length-take (170 - length field) frame, length-drop 14 rest)),
          append_assoc field (pes_header_bytes info) (take (170 - length field) frame),
        )
        refl
    where
      size : sub32 188 (off + 14) ≡ 170 - length field
      size = omega arith
