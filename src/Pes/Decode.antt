-- ===== src/Pes/Decode.antt =====
-- What a receiver reads from a PES header (ISO/IEC 13818-1, 2.4.3.6), against `pes_header_set`.
use sptsmuxer.Base.{
  ℕ, ◌+◌, ◌-◌, ◌*◌, ◌/◌, ◌%◌, ◌^◌, ◌<◌, ◌≡◌, refl, arith, [], ◌∷◌, ◌++◌, Bytes, length, leb, ◌==◌,
  if◌then◌else◌, ◌&&◌, Option, some, none, bit_or, drop, table, all_below,
}
use sptsmuxer.Bits.{bit_and_mask, bit_or_fields}
use sptsmuxer.Pes.{PesHeaderInfo, packet_length_bytes, pts_bytes, pes_header_bytes, stream_id_video}

-- The fields that a receiver uses.
pub record PesHeader : Type 0 where
  pub stream_id : ℕ
  pub packet_length : ℕ
  pub pts : ℕ

-- Three parts of 3, 15 and 15 bits, each closed by a marker bit.
abbrev pub read_pts : ℕ → ℕ → ℕ → ℕ → ℕ → ℕ
read_pts p4 p3 p2 p1 p0 =
    p4 / 2 % 8 * 2 ^ 30 + (p3 * 2 ^ 7 + p2 / 2) * 2 ^ 15 + (p1 * 2 ^ 7 + p0 / 2)

-- A header that carries a time stamp and no decoding time, and the bytes behind it.
unfoldable pub decode_pes : Bytes → Option (PesHeader × Bytes)
decode_pes (s2 ∷ s1 ∷ s0 ∷ id ∷ l1 ∷ l0 ∷ f1 ∷ f0 ∷ n ∷ p4 ∷ p3 ∷ p2 ∷ p1 ∷ p0 ∷ rest) =
    if (s2 == 0 && s1 == 0 && s0 == 1 && f1 / 64 == 2 && f0 / 64 == 2 && leb 5 n)
      && (p4 / 16 == 2 && p4 % 2 == 1 && p2 % 2 == 1 && p0 % 2 == 1)
    then some (
      record { stream_id = id; packet_length = l1 * 2 ^ 8 + l0; pts = read_pts p4 p3 p2 p1 p0 },
      drop (n - 5) rest,
    )
    else none
decode_pes _ = none

top_byte : (x : ℕ) → x < 8 → bit_or (bit_or 0x20 (x * 2)) 1 ≡ 33 + x * 2
top_byte x h =
    table 8 (λ n. bit_or (bit_or 0x20 (n * 2)) 1) (λ n. 33 + n * 2) x (unfold all_below in refl) h

-- The stamp of `pts_bytes`, byte by byte, as arithmetic. The mask 0x7ffff is wider than the field
-- of 15 bits; the casts cut the surplus off.
pts_bytes_lem :
    (pts : ℕ)
    → pts_bytes pts
      ≡ (33 + pts / 2 ^ 30 % 8 * 2)
        ∷ (pts / 2 ^ 22 % 2 ^ 8)
        ∷ (pts / 2 ^ 15 % 2 ^ 7 * 2 + 1)
        ∷ (pts / 2 ^ 7 % 2 ^ 8)
        ∷ (pts % 2 ^ 7 * 2 + 1)
        ∷ []
unfolding pts_bytes
pts_bytes_lem pts = ground (
  arith,
  bit_and_mask 3 (pts / 2 ^ 30),
  bit_and_mask 19 (pts / 2 ^ 15),
  bit_and_mask 15 pts,
  bit_or_fields 1 (pts / 2 ^ 15 % 2 ^ 19) 1,
  bit_or_fields 1 (pts % 2 ^ 15) 1,
  top_byte (pts / 2 ^ 30 % 8),
)

packet_length_bytes_lem :
    (info : PesHeaderInfo)
    → packet_length_bytes info ≡ (
        let field =
          if info.stream_id == stream_id_video then 0 else (info.pes_packet_length + 8) % 2 ^ 16 in
        (field / 2 ^ 8) ∷ (field % 2 ^ 8) ∷ [])
unfolding packet_length_bytes
packet_length_bytes_lem info = ground (
  arith,
  bit_and_mask 8 ((info.pes_packet_length + 8) % 2 ^ 32 / 2 ^ 8),
  bit_and_mask 8 ((info.pes_packet_length + 8) % 2 ^ 32),
)

-- The header as a receiver reads it, for the flags and the header length that the muxer sets: a
-- time stamp modulo 2^33, a length of 0 for video, and else the length of the frame with 8 more,
-- modulo 2^16. What follows the header is left as it is.
pub decode_pes-pes_header_bytes :
    (info : PesHeaderInfo) (rest : Bytes)
    → info.pes_header_flag ≡ 0x8080
    → info.pes_header_data_length ≡ 5
    → decode_pes (pes_header_bytes info ++ rest)
      ≡ some (
        record {
          stream_id = info.stream_id;
          packet_length =
              if info.stream_id == stream_id_video
              then 0
              else (info.pes_packet_length + 8) % 2 ^ 16;
          pts = info.pts % 2 ^ 33;
        },
        rest,
      )
unfolding decode_pes pes_header_bytes
decode_pes-pes_header_bytes info rest flag len =
    rw (packet_length_bytes_lem info, pts_bytes_lem info.pts, flag, len) (ground arith)

pub length-pes_header_bytes : (info : PesHeaderInfo) → length (pes_header_bytes info) ≡ 14
unfolding pes_header_bytes
length-pes_header_bytes info = rw (packet_length_bytes_lem info, pts_bytes_lem info.pts) refl
