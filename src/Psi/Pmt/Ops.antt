-- ===== src/Psi/Pmt/Ops.antt =====
-- Each operation of psi.c on the PMT refines the operation on the table that the section stands for.
use sptsmuxer.Base.{ℕ, ◌^◌, ◌≤◌, ◌<◌, ◌≡◌, arith, [], ◌∷◌, ◌++◌, length, some, ok}
use sptsmuxer.Psi.{PsiPmtSection, psi_pmt_section_pcr_pid_set, psi_pmt_section_stream_add}
use sptsmuxer.Psi.Pmt.Defs.{Pmt, Holds, IsClosed, decode_pmt, decode_pmt_lem}
use sptsmuxer.Psi.Pmt.Init.{after_pcr, pcr_pid_set_lem, pcr_pid_set-Holds, pcr_pid_set-IsClosed}
use sptsmuxer.Psi.Pmt.Add.{
  IsStreamType, after_add, stream_add_lem, stream_add-Holds, stream_add-IsClosed,
}

-- In a section that holds a table, setting the PID of the clock succeeds, and leaves a section
-- that holds the table with that PID, whose checksum is right, and which a receiver reads so.
pub pcr_pid_set_refines :
    {section : PsiPmtSection} {pmt : Pmt} (pid : ℕ)
    → pid < 2 ^ 13
    → Holds section pmt
    → (out : PsiPmtSection) × (psi_pmt_section_pcr_pid_set section pid ≡ ok out)
      × Holds out (record pmt { pcr = pid })
      × IsClosed out (record pmt { pcr = pid })
      × (decode_pmt out.content ≡ some (record pmt { pcr = pid }))
pcr_pid_set_refines {section} {pmt} pid hp h = (
  after_pcr section pmt h pid hp,
  pcr_pid_set_lem section pmt h pid hp,
  pcr_pid_set-Holds section pmt h pid hp,
  pcr_pid_set-IsClosed section pmt h pid hp,
  decode_pmt_lem (pcr_pid_set-Holds section pmt h pid hp)
      (pcr_pid_set-IsClosed section pmt h pid hp),
)

-- In a section that holds a table of at most 32 streams, adding an H.264 or an AAC stream
-- succeeds, and leaves a section that holds the table with that stream at the end, whose checksum
-- is right, and which a receiver reads so.
pub stream_add_refines :
    {section : PsiPmtSection} {pmt : Pmt} (kind pid : ℕ)
    → IsStreamType kind
    → pid < 2 ^ 13
    → length pmt.streams ≤ 32
    → Holds section pmt
    → let pmt' : Pmt = record pmt { streams = pmt.streams ++ ((kind, pid) ∷ []) } in
      (out : PsiPmtSection) × (psi_pmt_section_stream_add section kind pid ≡ ok out)
      × Holds out pmt'
      × IsClosed out pmt'
      × (decode_pmt out.content ≡ some pmt')
stream_add_refines {section} {pmt} kind pid known hp few h =
    let room : 9 ≤ length h.rest = omega (arith, h.size) in
    let holds = stream_add-Holds section pmt h kind pid known hp room in
    let is_closed = stream_add-IsClosed section pmt h kind pid known hp room in
    (
      after_add section pmt h kind pid known hp room,
      stream_add_lem section pmt h kind pid known hp room,
      holds,
      is_closed,
      decode_pmt_lem holds is_closed,
    )
