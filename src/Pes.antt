-- ===== src/Pes.antt =====
-- pes.c and pes.h: the header of a packet of the elementary stream (PES).
pub mod Decode
use sptsmuxer.Base.{
  ℕ, ◌+◌, ◌^◌, [], ◌∷◌, ◌++◌, bit_and, bit_or, u8, u32, ◌<<<◌, ◌>>>◌, Bytes, Result, ok, ◌>>=◌,
  store, length, ◌==◌, if◌then◌else◌,
}

abbrev pub stream_id_audio : ℕ
stream_id_audio = 0xc0

abbrev pub stream_id_video : ℕ
stream_id_video = 0xe0

pub record PesHeaderInfo : Type 0 where
  pub stream_id : ℕ
  pub pes_packet_length : ℕ
  pub pes_header_flag : ℕ
  pub pes_header_data_length : ℕ
  pub pts : ℕ
  pub dts : ℕ

-- The two bytes of PES_packet_length: 0 for video, else the length with the 8 bytes that follow
-- in the header.
unfoldable pub packet_length_bytes : PesHeaderInfo → Bytes
packet_length_bytes info =
    if info.stream_id == stream_id_video
    then 0 ∷ 0 ∷ []
    else let pes_packet_length = u32 (info.pes_packet_length + 8) in
      bit_and (pes_packet_length >>> 8) 0xff ∷ bit_and pes_packet_length 0xff ∷ []

-- The five bytes of the time stamp. `val` is 64 bits wide, and a store keeps 8 of them.
unfoldable pub pts_bytes : ℕ → Bytes
pts_bytes pts =
    let val1 = bit_or (bit_and (pts >>> 15) 0x7_ffff <<< 1) 1 in
    let val2 = bit_or (bit_and pts 0x7fff <<< 1) 1 in
    u8 (bit_or (bit_or 0x20 (bit_and (pts >>> 30) 0x07 <<< 1)) 0x01)
    ∷ u8 (val1 >>> 8)
    ∷ u8 val1
    ∷ u8 (val2 >>> 8)
    ∷ u8 val2
    ∷ []

-- What the run of `*buf++ = …` writes.
unfoldable pub pes_header_bytes : PesHeaderInfo → Bytes
pes_header_bytes info =
    (0x00 ∷ 0x00 ∷ 0x01 ∷ info.stream_id ∷ [])
    ++ (packet_length_bytes info
        ++ (bit_and (info.pes_header_flag >>> 8) 0xff
            ∷ bit_and info.pes_header_flag 0xff
            ∷ info.pes_header_data_length
            ∷ pts_bytes info.pts))

-- The header at `pesheader + off`, and the number of bytes written.
unfoldable pub pes_header_set : Bytes → ℕ → PesHeaderInfo → Result (Bytes × ℕ)
pes_header_set pesheader off info = do
  written ← store pesheader off (pes_header_bytes info)
  ok (written, length (pes_header_bytes info))

unfoldable pub pes_header_length : PesHeaderInfo → ℕ
pes_header_length info = 14
