-- ===== src/Crc.antt =====
-- crc.h: the table-driven checksum that closes each section of the PAT and the PMT.
pub mod Table
pub mod Residue
pub mod Bitwise
use sptsmuxer.Base.{ℕ, ◌^◌, [], ◌∷◌, bit_and, bit_xor, u32, ◌<<<◌, ◌>>>◌, Bytes, get_or}
use Table.{crc_tab}

-- One round of the loop: `crc = (crc << 8) ^ crc_tab[((crc >> 24) ^ *data++) & 0xff]`.
unfoldable pub crc_round : ℕ → ℕ → ℕ
unfolding crc_tab
crc_round crc byte =
    bit_xor (u32 (crc <<< 8)) (get_or crc_tab (bit_and (bit_xor (crc >>> 24) byte) 0xff) 0)

-- The rounds over the bytes that are left.
unfoldable pub crc_rounds : ℕ → Bytes → ℕ
unfolding crc_round
crc_rounds crc [] = crc
crc_rounds crc (byte ∷ rest) = crc_rounds (crc_round crc byte) rest

-- `calc_crc32 (data, datalen)` for the datalen bytes at data.
unfoldable pub calc_crc32 : Bytes → ℕ
unfolding crc_rounds
calc_crc32 bytes = crc_rounds 0xffff_ffff bytes

-- A checksum as it is written: `(crc >> 24) & 0xff`, and so on down.
unfoldable pub crc_bytes : ℕ → Bytes
crc_bytes crc =
    bit_and (crc >>> 24) 0xff
    ∷ bit_and (crc >>> 16) 0xff
    ∷ bit_and (crc >>> 8) 0xff
    ∷ bit_and crc 0xff
    ∷ []
