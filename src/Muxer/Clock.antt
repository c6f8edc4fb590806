-- ===== src/Muxer/Clock.antt =====
-- The stream of the clock, which the first call sets: what the receivers read from the two tables,
-- and the invariant of `spts_write_frame`.
use sptsmuxer.Base.{
  ℕ, ap, ◌^◌, ◌<◌, ◌≡◌, refl, ◌∙◌, arith, List, [], ◌∷◌, Bool, true, false, ◌||◌, none, some, ok,
  length, length-append, if◌then◌else◌, drop, ◌==◌,
}
use sptsmuxer.Psi.{PsiPmtSection}
use sptsmuxer.Psi.Pat.{decode_pat}
use sptsmuxer.Psi.Pmt.Defs.{Pmt, Holds, decode_pmt, decode_pmt_lem, length-entries, entries}
use sptsmuxer.Psi.Pmt.Init.{after_pcr, pcr_pid_set_lem, pcr_pid_set-Holds, pcr_pid_set-IsClosed}
use sptsmuxer.Spts.State.{SpTs, video_pid, audio_pid}
use sptsmuxer.Spts.Fresh.{set_up, new_audio, stream, stream-IsReady, pat_body}
use sptsmuxer.Crc.{calc_crc32, crc_round, crc_rounds}
use sptsmuxer.Crc.Table.{crc_tab}
use sptsmuxer.Spts.Frame.Valid.{IsMuxing}
use sptsmuxer.Spts.Frame.Stepped.{IsRunning}
use sptsmuxer.Muxer.{set_pcr_reference}
use sptsmuxer.Muxer.Setup.{HasStreams, if_there}

length-Holds :
    {section : PsiPmtSection} {pmt : Pmt} → Holds section pmt → length section.content ≡ 184
length-Holds {section} {pmt} h =
    ap length h.layout
    ∙ omega (arith, h.size, length-append (entries pmt.streams) h.rest, length-entries pmt.streams)

-- Audio only: the PID of the audio stream; with a video stream: that of the video stream.
abbrev pub clock_pid : Bool → ℕ
clock_pid video = if video then video_pid else audio_pid

-- The invariant, with every counter at its start.
pub record IsFresh (uint64_scale : ℕ → ℕ → ℕ → ℕ) (spts : SpTs) : Type 0 where
  pub running : IsRunning uint64_scale true false spts
  pub stream_counters : (running.muxing.video_counter ≡ 0) × (running.muxing.audio_counter ≡ 0)
  pub table_counters : (running.muxing.pat_counter ≡ 0) × (running.muxing.pmt_counter ≡ 0)
  pub counts : (spts.packets_counter ≡ 0) × (spts.gop_counter ≡ 0)

-- What the first call of `sptsmuxer_collected` makes of the program.
pub record Started (spts : SpTs) (streams : List (ℕ × ℕ)) (video audio : Bool) : Type 0 where
  pub out : SpTs
  pub returns : set_pcr_reference spts ≡ ok out
  pub pat : decode_pat (drop 4 out.pat.content) ≡ some ((0x16, 0x20) ∷ [])
  pub pmt :
      decode_pmt (drop 4 out.pmt_tspacket.content)
      ≡ some (record { program = 0x16; pcr = clock_pid video; streams = streams })

-- The same, with the invariant if both streams are there.
pub record Clocked (spts : SpTs) (streams : List (ℕ × ℕ)) (video audio : Bool) : Type 0 where
  pub started : Started spts streams video audio
  pub fresh :
      (uint64_scale : ℕ → ℕ → ℕ → ℕ)
      → video ≡ true
      → audio ≡ true
      → IsFresh uint64_scale started.out

pat_lem : decode_pat pat_body ≡ some ((0x16, 0x20) ∷ [])
unfolding decode_pat sptsmuxer.Psi.Section.read_section calc_crc32 crc_round crc_rounds crc_tab
pat_lem = refl

module _ (section : PsiPmtSection) (streams : List (ℕ × ℕ))
    (h : Holds section (record { program = 0x16; pcr = 0; streams = streams })) (pid : ℕ)
    (hp : pid < 2 ^ 13) where
  abbrev clocked : PsiPmtSection
  clocked = after_pcr section (record { program = 0x16; pcr = 0; streams = streams }) h pid hp

  clocked-Holds : Holds clocked (record { program = 0x16; pcr = pid; streams = streams })
  clocked-Holds =
      pcr_pid_set-Holds section (record { program = 0x16; pcr = 0; streams = streams }) h pid hp

  clocked_lem :
      decode_pmt clocked.content ≡ some (record { program = 0x16; pcr = pid; streams = streams })
  clocked_lem = decode_pmt_lem clocked-Holds (
      pcr_pid_set-IsClosed section (record { program = 0x16; pcr = 0; streams = streams }) h pid hp)

  abbrev clocked-IsMuxing :
      (video audio : Bool)
      → IsMuxing
          (set_up clocked (some (stream 0xe0 video_pid video)) (some (stream 0xc0 audio_pid audio)))
  clocked-IsMuxing video audio = record {
    video = stream 0xe0 video_pid video;
    audio = stream 0xc0 audio_pid audio;
    video_counter = 0;
    audio_counter = 0;
    has_video = refl;
    has_audio = refl;
    video_ready = stream-IsReady 0xe0 video_pid video (omega arith);
    audio_ready = stream-IsReady 0xc0 audio_pid audio (omega arith);
    video_id = refl;
    audio_id = refl;
    pat_counter = 0;
    pat_body = pat_body;
    pat_at = refl;
    pat_full = refl;
    pat_bits = omega arith;
    pmt_counter = 0;
    pmt_body = clocked.content;
    pmt_at = refl;
    pmt_full = length-Holds clocked-Holds;
    pmt_bits = omega arith;
    null_at = refl;
    count_bits = omega arith;
  }

module _ (spts : SpTs) (streams : List (ℕ × ℕ)) (audio : Bool)
    (h : HasStreams spts streams true audio) where
  abbrev info_video_pid : ℕ
  info_video_pid = h.section.section_info.video_pid

  start_video : Clocked spts streams true audio
  unfolding set_pcr_reference
  start_video =
      let bits : info_video_pid < 2 ^ 13 = omega (arith, h.video_noted) in
      let noted : (info_video_pid == 0) ≡ false = ground (arith, h.video_noted) in
      record {
        started = record {
          out =
              set_up (clocked h.section streams h.holds info_video_pid bits)
                (some (stream 0xe0 video_pid true)) (if_there audio new_audio);
          returns =
              rw
                (
                  h.at,
                  noted,
                  pcr_pid_set_lem h.section (record { program = 0x16; pcr = 0; streams = streams })
                      h.holds info_video_pid bits,
                )
                refl;
          pat = pat_lem;
          pmt =
              clocked_lem h.section streams h.holds info_video_pid bits
              ∙ ap (λ pid. some (record { program = 0x16; pcr = pid; streams = streams }))
                  h.video_noted;
        };
        fresh = λ uint64_scale _ there. rw there (record {
          running = record {
            muxing = clocked-IsMuxing h.section streams h.holds info_video_pid bits true false;
            video_reference = refl;
            audio_reference = refl;
          };
          stream_counters = (refl, refl);
          table_counters = (refl, refl);
          counts = (refl, refl);
        });
      }

module _ (spts : SpTs) (streams : List (ℕ × ℕ)) (h : HasStreams spts streams false true) where
  abbrev info_audio_pid : ℕ
  info_audio_pid = h.section.section_info.audio_pid

  start_audio : Clocked spts streams false true
  unfolding set_pcr_reference
  start_audio =
      let bits : info_audio_pid < 2 ^ 13 = omega (arith, h.audio_noted) in
      let no_video : (h.section.section_info.video_pid == 0) ≡ true =
        ground (arith, h.video_noted) in
      let noted : (info_audio_pid == 0) ≡ false = ground (arith, h.audio_noted) in
      record {
        started = record {
          out =
              set_up (clocked h.section streams h.holds info_audio_pid bits) none
                (some (stream 0xc0 audio_pid true));
          returns =
              rw
                (
                  h.at,
                  no_video,
                  noted,
                  pcr_pid_set_lem h.section (record { program = 0x16; pcr = 0; streams = streams })
                      h.holds info_audio_pid bits,
                )
                refl;
          pat = pat_lem;
          pmt =
              clocked_lem h.section streams h.holds info_audio_pid bits
              ∙ ap (λ pid. some (record { program = 0x16; pcr = pid; streams = streams }))
                  h.audio_noted;
        };
        fresh = λ uint64_scale there. absurd cc;
      }

-- The stream of the clock: video if there is any, else audio.
pub HasStreams-Clocked :
    (spts : SpTs) (streams : List (ℕ × ℕ)) (video audio : Bool)
    → HasStreams spts streams video audio
    → (video || audio) ≡ true
    → Clocked spts streams video audio
HasStreams-Clocked spts streams true audio h some_stream = start_video spts streams audio h
HasStreams-Clocked spts streams false true h some_stream = start_audio spts streams h
HasStreams-Clocked spts streams false false h some_stream = absurd cc
