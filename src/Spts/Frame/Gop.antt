-- ===== src/Spts/Frame/Gop.antt =====
-- The start of a group of pictures: padding up to the place of the group, then the tables.
use sptsmuxer.Base.{
  ℕ, zero, suc, ◌+◌, ◌-◌, ◌*◌, ◌%◌, ◌^◌, ◌<◌, ◌≡◌, refl, ap, ap₂, ◌∙◌, sub64, ltb, if◌then◌else◌,
  arith, [], ◌∷◌, ◌++◌, some, Bytes, ok, replicate, u64, lt→ltb, le→not_ltb,
}
use Prim.Native.Nat.{max}
use native.Mathlib.Decide.{dec_lt}
use sptsmuxer.Ts.Header.{packet, cc_inc_packet}
use sptsmuxer.Spts.State.{SpTs, SpTsStream, pmt_pid}
use sptsmuxer.Spts.Packets.Whole.{IsReady, IsReady-kept}
use sptsmuxer.Spts.Frame.{write_nulls, spts_psi_write, note_gop, begin_gop, gop_packets}
use sptsmuxer.Spts.Frame.Valid.{IsMuxing}

-- The padding loop ends within any fuel above the number of packets that are missing, has written
-- exactly these packets, and leaves the counter at the target or where it was, if that is above.
pub write_nulls_lem :
    (fuel : ℕ) (nullpacket : Bytes) (packets_counter target : ℕ)
    → target < 2 ^ 64
    → target - packets_counter < fuel
    → write_nulls fuel nullpacket packets_counter target
      ≡ ok (
        packets_counter + (target - packets_counter),
        replicate (target - packets_counter) nullpacket,
      )
unfolding write_nulls
write_nulls_lem zero nullpacket packets_counter target ht h = absurd (omega arith)
write_nulls_lem (suc fuel) nullpacket packets_counter target ht h =
    elim (dec_lt packets_counter target) [
      | yes more ↦
          let next : u64 (packets_counter + 1) ≡ packets_counter + 1 = omega arith in
          let missing : target - packets_counter ≡ suc (target - (packets_counter + 1)) =
            omega arith in
          rw
            (
              lt→ltb packets_counter target more,
              next,
              write_nulls_lem fuel nullpacket (packets_counter + 1) target ht (omega arith),
              missing,
            )
            (ap (λ n. ok (n, nullpacket ∷ replicate (target - (packets_counter + 1)) nullpacket))
              (omega arith))
      | no reached ↦
          let none_missing : target - packets_counter ≡ 0 = omega arith in
          rw (le→not_ltb packets_counter target (omega arith), none_missing)
            (ap (λ n. ok (n, [])) (omega arith))
    ]

-- The statistics of a stream at the start of a group: the most packets in a group so far, with those
-- since the last one, and the count of the packets now.
abbrev pub statistics : SpTsStream → SpTsStream
statistics stream = record stream {
  max_gop_packets =
      max stream.max_gop_packets (sub64 stream.packets_counter stream.last_gop_packets_counter);
  last_gop_packets_counter = stream.packets_counter;
}

note_gop_lem : (stream : SpTsStream) → note_gop stream ≡ statistics stream
unfolding note_gop
note_gop_lem stream =
    let most = sub64 stream.packets_counter stream.last_gop_packets_counter in
    ap
      (λ n. record stream {
        max_gop_packets = n;
        last_gop_packets_counter = stream.packets_counter;
      })
      (max_lem stream.max_gop_packets most)
  where
    max_lem : (m n : ℕ) → (if ltb m n then n else m) ≡ max m n
    max_lem m n = elim (dec_lt m n) [
      | yes less ↦ rw (lt→ltb m n less) (omega (arith, less))
      | no more ↦ rw (le→not_ltb m n (omega (arith, more))) (omega (arith, more))
    ]

pub note_gop-IsReady :
    {stream : SpTsStream} {pid counter : ℕ}
    → IsReady stream pid counter
    → IsReady (note_gop stream) pid counter
unfolding note_gop
note_gop-IsReady r = IsReady-kept r refl refl refl

module _ (spts : SpTs) (m : IsMuxing spts) (video : SpTsStream)
    (early : spts.gop_counter * gop_packets < 2 ^ 64) where
  -- The packets that are missing up to the place of the group.
  abbrev pub missing : ℕ
  missing = spts.gop_counter * gop_packets - spts.packets_counter

  abbrev pub begun : SpTs
  begun = record spts {
    pat = record spts.pat { content = packet 1 0 1 ((m.pat_counter + 1) % 16) m.pat_body };
    pmt_tspacket = record spts.pmt_tspacket {
      content = packet 1 pmt_pid 1 ((m.pmt_counter + 1) % 16) m.pmt_body;
    };
    packets_counter = u64 (u64 (spts.packets_counter + missing + 1) + 1);
    gop_counter = u64 (spts.gop_counter + 1);
    audio_stream = some (note_gop m.audio);
  }

  pub begin_gop_returns :
      begin_gop spts video
      ≡ ok (
        begun,
        note_gop (record video { last_gop_frames_counter = video.frames_counter }),
        replicate missing spts.nullpacket ++ (spts.pat.content ∷ spts.pmt_tspacket.content ∷ []),
      )
  unfolding begin_gop spts_psi_write
  begin_gop_returns =
      let target : u64 (spts.gop_counter * 2102) ≡ spts.gop_counter * 2102 = omega arith in
      rw
        (
          target,
          write_nulls_lem (suc missing) spts.nullpacket spts.packets_counter
              (spts.gop_counter * 2102) early (omega arith),
          m.pat_at,
          m.pmt_at,
          cc_inc_packet 1 0 1 m.pat_counter m.pat_body (omega arith) m.pat_bits,
          cc_inc_packet 1 pmt_pid 1 m.pmt_counter m.pmt_body (omega arith) m.pmt_bits,
          m.has_audio,
        )
        refl

  -- The start of a group, in a state that satisfies the invariant and whose place of the group is
  -- below 2^64: null packets up to that place, then the PAT and the PMT, whose continuity counters
  -- go up by one; the packets and the group are counted. Both streams note the most packets that
  -- they had in a group, with those since the last one, and the count of their packets now; the
  -- video stream also notes the count of its frames.
  pub begin_gop_lem :
      begin_gop spts video
      ≡ ok (
        record spts {
          pat = record spts.pat { content = packet 1 0 1 ((m.pat_counter + 1) % 16) m.pat_body };
          pmt_tspacket = record spts.pmt_tspacket {
            content = packet 1 pmt_pid 1 ((m.pmt_counter + 1) % 16) m.pmt_body;
          };
          packets_counter = u64 (u64 (spts.packets_counter + missing + 1) + 1);
          gop_counter = u64 (spts.gop_counter + 1);
          audio_stream = some (statistics m.audio);
        },
        statistics (record video { last_gop_frames_counter = video.frames_counter }),
        replicate missing spts.nullpacket ++ (spts.pat.content ∷ spts.pmt_tspacket.content ∷ []),
      )
  begin_gop_lem =
      begin_gop_returns
      ∙ ap₂
          (λ audio noted. ok (
            record begun { audio_stream = some audio },
            noted,
            replicate missing spts.nullpacket
                ++ (spts.pat.content ∷ spts.pmt_tspacket.content ∷ []),
          ))
          (note_gop_lem m.audio)
          (note_gop_lem (record video { last_gop_frames_counter = video.frames_counter }))

  pub noted_audio_id : (note_gop m.audio).pes_header_info.stream_id ≡ 0xc0
  unfolding note_gop
  noted_audio_id = m.audio_id

  abbrev pub begin_gop-IsMuxing : IsMuxing begun
  begin_gop-IsMuxing = record {
    video = m.video;
    audio = note_gop m.audio;
    video_counter = m.video_counter;
    audio_counter = m.audio_counter;
    has_video = m.has_video;
    has_audio = refl;
    video_ready = m.video_ready;
    audio_ready = note_gop-IsReady m.audio_ready;
    video_id = m.video_id;
    audio_id = noted_audio_id;
    pat_counter = (m.pat_counter + 1) % 16;
    pat_body = m.pat_body;
    pat_at = refl;
    pat_full = m.pat_full;
    pat_bits = pat_bits;
    pmt_counter = (m.pmt_counter + 1) % 16;
    pmt_body = m.pmt_body;
    pmt_at = refl;
    pmt_full = m.pmt_full;
    pmt_bits = pmt_bits;
    null_at = m.null_at;
    count_bits = count_bits;
  }
    where
      pat_bits : (m.pat_counter + 1) % 16 < 16
      pat_bits = omega arith

      pmt_bits : (m.pmt_counter + 1) % 16 < 16
      pmt_bits = omega arith

      count_bits : u64 (u64 (spts.packets_counter + missing + 1) + 1) < 2 ^ 64
      count_bits = omega arith
