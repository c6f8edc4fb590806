-- ===== src/Ts.antt =====
-- The operations of spts.c on one packet of the transport stream, and their data in spts.h.
pub mod Header
pub mod Decode
pub mod Receive
pub mod Demux
use sptsmuxer.Base.{
  ℕ, ◌+◌, ◌-◌, ◌/◌, ◌%◌, ◌^◌, [], ◌∷◌, ◌++◌, Bool, false, bit_and, bit_or, u8, u64, sub8, ◌<<<◌,
  ◌>>>◌, Bytes, Result, ok, ◌>>=◌, store, memset, modify, length, replicate, ltb, ◌==◌,
  if◌then◌else◌,
}

abbrev pub pcr_flag : ℕ
pcr_flag = 0x10

abbrev pub tspacket_header_length : ℕ
tspacket_header_length = 4

abbrev pub tspacket_payload_length : ℕ
tspacket_payload_length = 184

abbrev pub tspacket_length : ℕ
tspacket_length = 188

abbrev pub scrambling_ctl_not_scrambled : ℕ
scrambling_ctl_not_scrambled = 0

abbrev pub adaptation_field_payload_only : ℕ
adaptation_field_payload_only = 0x10

abbrev pub adaptation_field_adaptation_and_payload : ℕ
adaptation_field_adaptation_and_payload = 0x30

pub record TsPacketHeaderInfo : Type 0 where
  pub transport_error_indicator : ℕ
  pub payload_unit_start_indicator : ℕ
  pub transport_priority : ℕ
  pub pid : ℕ
  pub transport_scrambling_control : ℕ
  pub adaptation_field_control : ℕ
  pub continuity_counter : ℕ

pub record TsPacket : Type 0 where
  pub pcr_reference : Bool
  pub content : Bytes

pub record TsPacketAdaptationInfo : Type 0 where
  pub field_flag : ℕ
  pub adaptation_field_length : ℕ
  pub pcr : ℕ

-- The four bytes that both `spts_tspacket_header_init` and `spts_tspacket_new` write.
unfoldable pub header_bytes : TsPacketHeaderInfo → Bytes
header_bytes info =
    0x47
    ∷ u8
        (bit_or (bit_or info.payload_unit_start_indicator info.transport_priority) (info.pid >>> 8))
    ∷ bit_and 0xff info.pid
    ∷ bit_or (bit_or info.transport_scrambling_control info.adaptation_field_control)
        info.continuity_counter
    ∷ []

unfoldable pub spts_tspacket_header_init : Bytes → TsPacketHeaderInfo → Result Bytes
spts_tspacket_header_init tspacket info = do
  cleared ← memset tspacket 0 0xff tspacket_length
  store cleared 0 (header_bytes info)

-- `g_slice_new0` gives a packet of zeros.
unfoldable pub spts_tspacket_new : TsPacketHeaderInfo → Result TsPacket
spts_tspacket_new info = do
  cleared ← memset (replicate tspacket_length 0) 0 0xff tspacket_length
  written ← store cleared 0 (header_bytes info)
  ok (record { pcr_reference = false; content = written })

unfoldable pub spts_tspacket_header_set_start_unit_indicator : Bytes → ℕ → Result Bytes
spts_tspacket_header_set_start_unit_indicator tspacket start_unit_indicator =
    modify tspacket 1 (λ b. bit_or (bit_and b 0xbf) start_unit_indicator)

unfoldable pub spts_tspacket_header_set_adaptation_field_control : Bytes → ℕ → Result Bytes
spts_tspacket_header_set_adaptation_field_control tspacket adaptation_field_control =
    modify tspacket 3 (λ b. bit_or (bit_and b 0xcf) adaptation_field_control)

unfoldable pub spts_tspacket_header_cc_inc : Bytes → Result Bytes
spts_tspacket_header_cc_inc tspacket =
    modify tspacket 3 (λ b. bit_or (bit_and b 0xf0) (bit_and (b + 1) 0x0f))

-- The six bytes of the program clock reference. `pcr_base << 7` is 64 bits wide.
unfoldable pub pcr_bytes : ℕ → Bytes
pcr_bytes pcr =
    let pcr_base = pcr / 300 in
    let pcr_ext = pcr % 300 in
    u8 (pcr_base >>> 25)
    ∷ u8 (pcr_base >>> 17)
    ∷ u8 (pcr_base >>> 9)
    ∷ u8 (pcr_base >>> 1)
    ∷ u8 (bit_or (bit_or (u64 (pcr_base <<< 7)) (pcr_ext >>> 8)) 0x7e)
    ∷ bit_and pcr_ext 0xff
    ∷ []

-- The fields of the adaptation field that come before the stuffing.
unfoldable pub adaptation_fields : TsPacketAdaptationInfo → Bytes
adaptation_fields info =
    info.adaptation_field_length
    ∷ info.field_flag
    ∷ (if bit_and info.field_flag pcr_flag == 0 then [] else pcr_bytes info.pcr)

-- The number of stuffing bytes, in a guint8. It is not computed where the length is 0.
unfoldable pub stuffing_bytes_length : TsPacketAdaptationInfo → ℕ
stuffing_bytes_length info =
    if ltb 0 info.adaptation_field_length
    then sub8 info.adaptation_field_length (length (adaptation_fields info) - 1)
    else 0

-- What is written behind the header of the packet, the stuffing included.
unfoldable pub adaptation_bytes : TsPacketAdaptationInfo → Bytes
adaptation_bytes info = adaptation_fields info ++ replicate (stuffing_bytes_length info) 0xff

-- The packet, and the number of bytes that were written.
unfoldable pub spts_tspacket_adaptation_set : Bytes → TsPacketAdaptationInfo → Result (Bytes × ℕ)
spts_tspacket_adaptation_set tspacket info = do
  written ← store tspacket tspacket_header_length (adaptation_bytes info)
  ok (written, length (adaptation_bytes info))
