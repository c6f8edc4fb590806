-- ===== src/Spts/State.antt =====
-- The state of a stream and of the whole, and a frame as it comes in.
use sptsmuxer.Base.{ℕ, Bool, Option, Bytes, Result, ok, ◌>>=◌, take, drop, ◌++◌}
use sptsmuxer.Psi.{PsiPmtSection, PsiPmtSectionInfo}
use sptsmuxer.Pes.{PesHeaderInfo}
use sptsmuxer.Ts.{TsPacket, TsPacketHeaderInfo}

abbrev pub program_number : ℕ
program_number = 0x16

abbrev pub pmt_pid : ℕ
pmt_pid = 0x20

abbrev pub video_pid : ℕ
video_pid = 0x0040

abbrev pub audio_pid : ℕ
audio_pid = 0x0041

-- SYS_CLOCK_FREQ / 25
abbrev pub default_pcr_interval : ℕ
default_pcr_interval = 1_080_000

pub record SpTsStream : Type 0 where
  pub tspacket_header_info : TsPacketHeaderInfo
  pub tspacket : Bytes
  pub pcr_reference : Bool
  pub packets_counter : ℕ
  pub last_gop_packets_counter : ℕ
  pub max_gop_packets : ℕ
  pub frames_counter : ℕ
  pub last_gop_frames_counter : ℕ
  pub pes_header_info : PesHeaderInfo

-- `pmt_section.data` points to byte 4 of `pmt_tspacket->data`: only its `section_info` is a field
-- here, and `pmt_section` below is the section with that view of the packet. The times are
-- gint64, as their bit patterns.
pub record SpTs : Type 0 where
  pub transport_id : ℕ
  pub pat : TsPacket
  pub pmt_tspacket : TsPacket
  pub nullpacket : Bytes
  pub pmt_section_info : PsiPmtSectionInfo
  pub audio_stream : Option SpTsStream
  pub video_stream : Option SpTsStream
  pub last_psi_ts : ℕ
  pub packets_counter : ℕ
  pub gop_counter : ℕ
  pub last_pcr_ts : ℕ
  pub pcr_interval : ℕ
  pub psi_interval : ℕ
  pub muxrate : ℕ

abbrev pub pmt_section : SpTs → PsiPmtSection
pmt_section spts = record {
  section_info = spts.pmt_section_info;
  content = drop 4 spts.pmt_tspacket.content;
}

-- A call that is given `&spts->pmt_section`: it writes through `data` into the packet.
abbrev pub on_pmt_section : SpTs → (PsiPmtSection → Result PsiPmtSection) → Result SpTs
on_pmt_section spts f = do
  section ← f (pmt_section spts)
  ok (record spts {
    pmt_section_info = section.section_info;
    pmt_tspacket = record spts.pmt_tspacket {
      content = take 4 spts.pmt_tspacket.content ++ section.content;
    };
  })

-- The name of the first structure of a buffer's caps, as far as the code tells names apart.
pub data CapsName : Type 0 where
  video_h264 : CapsName
  audio_mpeg : CapsName
  other_caps : CapsName

-- A GstBuffer: its caps, GST_BUFFER_FLAG_DELTA_UNIT, its time stamp and its bytes.
pub record Buffer : Type 0 where
  pub caps : CapsName
  pub delta_unit : Bool
  pub timestamp : ℕ
  pub bytes : Bytes
