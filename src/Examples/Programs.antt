-- ===== src/Examples/Programs.antt =====
-- Lists of frames, on instances.
use sptsmuxer.Base.{
  All, ◌+◌, ◌*◌, ◌≤◌, ◌≡◌, refl, inl, inr, arith, List, [], ◌∷◌, true, false, some, Bytes, ok,
  replicate, length,
}
use sptsmuxer.Spts.State.{SpTs, Buffer, video_pid, pmt_pid, audio_pid}
use sptsmuxer.Spts.Frame.{gop_packets}
use sptsmuxer.Spts.Frame.Faults.{write_frames}
use sptsmuxer.Spts.Frame.Stepped.{IsRunning}
use sptsmuxer.Spts.Frame.Run.{Ran, write_frames-Ran}
use sptsmuxer.Spts.Frame.Expected.{used_in_the_end, video_frames, audio_frames, groups}
use sptsmuxer.Spts.Frame.Program.{
  Receives, write_frames_received, write_frames_paced, write_frames_aligned, write_frames-IsForeign,
}
use sptsmuxer.Ts.Demux.{demux}
use sptsmuxer.Examples.{scale, two_streams, pmt_body, ready, running, idr_frame}
use sptsmuxer.Examples as Examples
use sptsmuxer.Spts.Fresh.{pat_body}
use sptsmuxer.Examples.Streams.{ready-IsMuxing, idr_small, audio_small, audio_fits}

write_frames-Ran_example :
    Ran scale true false ready (Examples.audio_frame ∷ idr_frame ∷ Examples.audio_frame ∷ [])
write_frames-Ran_example =
    write_frames-Ran scale true false ready
      (Examples.audio_frame ∷ idr_frame ∷ Examples.audio_frame ∷ [])
      (record { muxing = ready-IsMuxing; video_reference = refl; audio_reference = refl })
      (
        (audio_small, inr (refl, audio_fits)),
        ((idr_small, inl (refl, tt)), ((audio_small, inr (refl, audio_fits)), tt)),
      )
      (omega arith)

abbrev pub three_frames : List Buffer
three_frames = Examples.audio_frame ∷ idr_frame ∷ Examples.audio_frame ∷ []

abbrev pub ready-IsRunning : IsRunning scale true false ready
ready-IsRunning = record { muxing = ready-IsMuxing; video_reference = refl; audio_reference = refl }

write_frames_received_example :
    (out : SpTs) × (packets : List Bytes) × (write_frames scale ready three_frames
      ≡ ok (out, packets))
    × IsRunning scale true false out
    × Receives video_pid 0 packets (video_frames scale three_frames)
    × Receives audio_pid 0 packets (audio_frames scale false three_frames)
    × (demux 0 0 packets ≡ some ([], replicate (groups three_frames) pat_body))
    × (demux pmt_pid 0 packets ≡ some ([], replicate (groups three_frames) pmt_body))
write_frames_received_example =
    write_frames_received scale true false ready three_frames ready-IsRunning
      (
        (audio_small, inr (refl, audio_fits)),
        ((idr_small, inl (refl, tt)), ((audio_small, inr (refl, audio_fits)), tt)),
      )
      (record { packets_space = omega arith; groups_space = omega arith })

write_frames_paced_example :
    (out : SpTs) × (packets : List Bytes) × (write_frames scale ready three_frames
      ≡ ok (out, packets))
    × (out.packets_counter ≡ 0 + length packets)
    × (out.gop_counter ≡ 0 + groups three_frames)
    × (out.gop_counter * gop_packets ≤ out.packets_counter + 2100)
write_frames_paced_example =
    write_frames_paced scale true false ready three_frames ready-IsRunning
      (
        (audio_small, inr (refl, audio_fits)),
        ((idr_small, inl (refl, tt)), ((audio_small, inr (refl, audio_fits)), tt)),
      )
      (record { packets_space = omega arith; groups_space = omega arith }) (omega arith)

write_frames_aligned_example :
    (out : SpTs) × (packets : List Bytes) × (write_frames scale ready three_frames
      ≡ ok (out, packets))
    × (out.packets_counter ≡ 0 + length packets)
    × (out.packets_counter + gop_packets
        ≡ (0 + groups three_frames) * gop_packets
          + used_in_the_end true false false 2102 three_frames)
write_frames_aligned_example =
    write_frames_aligned scale true false ready three_frames 2102 ready-IsRunning
      (
        (audio_small, inr (refl, audio_fits)),
        ((idr_small, inl (refl, tt)), ((audio_small, inr (refl, audio_fits)), tt)),
      )
      (record { packets_space = omega arith; groups_space = omega arith }) refl
      ((λ e. absurd cc), ((λ e f. omega arith), ((λ e. absurd cc), tt)))

write_frames-IsForeign_example :
    (out : SpTs) × (packets : List Bytes) × (write_frames scale ready three_frames
      ≡ ok (out, packets))
    × All (λ p. length p ≡ 188) packets
    × (demux 0x50 0 packets ≡ some ([], []))
write_frames-IsForeign_example =
    write_frames-IsForeign scale true false ready three_frames 0x50 0 ready-IsRunning
      (
        (audio_small, inr (refl, audio_fits)),
        ((idr_small, inl (refl, tt)), ((audio_small, inr (refl, audio_fits)), tt)),
      )
      (record { packets_space = omega arith; groups_space = omega arith })
      (omega arith, omega arith, omega arith, omega arith, omega arith)
