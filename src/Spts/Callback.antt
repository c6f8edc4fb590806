-- ===== src/Spts/Callback.antt =====
-- src/spts.c with the callback that is called at each packet: `write_func` with its
-- `write_func_data`, and the functions that call it. Spts/Packets and Spts/Frame have the same
-- functions with the packets as a list that they return.
pub mod Agrees
pub mod Stream
pub mod Frame
pub mod Program
use sptsmuxer.Base.{
  ℕ, zero, suc, ◌+◌, ◌-◌, ◌*◌, ◌^◌, Bool, Option, none, some, u32, u64, sub32, Bytes, Result, ok,
  fault, out_of_fuel, uninitialised, null_pointer, deref, length, ltb, ◌==◌, if◌then◌else◌,
}
use sptsmuxer.Ts.{
  tspacket_length, adaptation_field_payload_only, spts_tspacket_header_cc_inc,
  spts_tspacket_header_set_start_unit_indicator, spts_tspacket_header_set_adaptation_field_control,
}
use sptsmuxer.Spts.State.{SpTs, SpTsStream, Buffer, video_h264, audio_mpeg, other_caps}
use sptsmuxer.Spts.Packets.{Sender, start_packet, put_payload, count_packet, next_packet}
use sptsmuxer.Spts.Frame.{gop_packets, note_gop, gsttime_to_mpegtime}

-- The two fields of `SpTs` for the callback. `Data` is what `write_func_data` points to, and the
-- callback gets a packet, its length and that. No callback is NULL, as `spts_new` leaves it.
pub record Callback {ℓ} (Data : Type ℓ) : Type ℓ where
  pub write_func : Option (Bytes → ℕ → Data → Result (Data × Bool))
  pub write_func_data : Data

-- An action that may call the callback, with its result.
abbrev pub Writes {ℓ κ} : Type ℓ → Type κ → Type (ℓ ⊔ κ)
Writes Data A = Callback Data → Result (A × Callback Data)

module _ {ℓ} {Data : Type ℓ} where
  abbrev pub spts_set_write_func :
      Callback Data → (Bytes → ℕ → Data → Result (Data × Bool)) → Data → Callback Data
  spts_set_write_func callback write_func write_func_data = record callback {
    write_func = some write_func;
    write_func_data = write_func_data;
  }

  abbrev pub pure {κ} : {A : Type κ} → A → Writes Data A
  pure a callback = ok (a, callback)

  -- What follows an action that has returned or faulted.
  abbrev pub followed {κ μ} :
      {A : Type κ} {B : Type μ}
      → Result (A × Callback Data)
      → (A → Writes Data B)
      → Result (B × Callback Data)
  followed (ok (a, next)) f = f a next
  followed (fault e) f = fault e

  infixl 5 ◌>>=◌ ◌>>◌
  abbrev pub ◌>>=◌ {κ μ} :
      {A : Type κ} {B : Type μ} → Writes Data A → (A → Writes Data B) → Writes Data B
  ◌>>=◌ m f callback = followed (m callback) f

  abbrev pub ◌>>◌ {κ} : {B : Type κ} → Writes Data (Unit {0}) → Writes Data B → Writes Data B
  m >> k = m >>= λ _. k

  -- A step that calls no callback.
  abbrev pub lift {κ} : {A : Type κ} → Result A → Writes Data A
  lift (ok a) callback = ok (a, callback)
  lift (fault e) callback = fault e

  -- The result of the callback is dropped.
  abbrev pub called : Callback Data → Result (Data × Bool) → Result (Unit {0} × Callback Data)
  called callback (ok (next, result)) = ok (tt, record callback { write_func_data = next })
  called callback (fault e) = fault e

  -- `write_func (packet, TSPACKET_LENGTH, write_func_data)`
  unfoldable pub write_packet : Bytes → Writes Data (Unit {0})
  write_packet packet callback = elim callback.write_func [
    | none ↦ fault null_pointer
    | some write_func ↦ called callback (write_func packet tspacket_length callback.write_func_data)
  ]

  -- The padding of a group, on fuel: the counter that is left.
  unfoldable pub write_nulls_to : ℕ → Bytes → ℕ → ℕ → Writes Data ℕ
  write_nulls_to zero nullpacket packets_counter target = lift (fault out_of_fuel)
  write_nulls_to (suc fuel) nullpacket packets_counter target =
      let more = (do
        write_packet nullpacket
        write_nulls_to fuel nullpacket (u64 (packets_counter + 1)) target) in
      if ltb packets_counter target then more else pure packets_counter

  unfoldable pub spts_psi_write_to : SpTs → Writes Data SpTs
  spts_psi_write_to spts = do
    write_packet spts.pat.content
    pat ← lift (spts_tspacket_header_cc_inc spts.pat.content)
    let once = record spts {
      pat = record spts.pat { content = pat };
      packets_counter = u64 (spts.packets_counter + 1);
    }
    write_packet once.pmt_tspacket.content
    pmt ← lift (spts_tspacket_header_cc_inc once.pmt_tspacket.content)
    pure (record once {
      pmt_tspacket = record once.pmt_tspacket { content = pmt };
      packets_counter = u64 (once.packets_counter + 1);
    })

  -- The body is disabled, and nothing calls it.
  unfoldable pub spts_pcronly_write : SpTs → ℕ → Writes Data SpTs
  spts_pcronly_write spts pcr = pure spts

  -- An IDR frame: the padding, the two tables and the statistics.
  unfoldable pub begin_gop_to : SpTs → SpTsStream → Writes Data (SpTs × SpTsStream)
  begin_gop_to spts video = do
    let target = u64 (spts.gop_counter * gop_packets)
    packets_counter ←
        write_nulls_to (suc (target - spts.packets_counter)) spts.nullpacket spts.packets_counter
          target
    written ← spts_psi_write_to (record spts { packets_counter = packets_counter })
    audio ← lift (deref written.audio_stream)
    pure (
      record written {
        gop_counter = u64 (written.gop_counter + 1);
        audio_stream = some (note_gop audio);
      },
      note_gop (record video { last_gop_frames_counter = video.frames_counter }),
    )

  -- The loop over the rest of the frame, on fuel.
  unfoldable pub rest_packets_to : ℕ → Sender → Bytes → Writes Data Sender
  rest_packets_to zero s frame = lift (fault out_of_fuel)
  rest_packets_to (suc fuel) s frame =
      let more = (do
        filled ← lift (next_packet s frame)
        write_packet filled.tspacket
        counted ← lift (count_packet filled)
        rest_packets_to fuel counted frame) in
      if ltb 0 s.pes_packet_length then more else pure s

  -- One frame on its stream: the stream, and the count of all packets.
  unfoldable pub write_stream_to : SpTsStream → ℕ → ℕ → Bytes → Writes Data (SpTsStream × ℕ)
  write_stream_to stream all_packets pts frame = do
    started ← lift (spts_tspacket_header_set_start_unit_indicator stream.tspacket 0x40)
    let info = record stream.pes_header_info { pts = pts; pes_packet_length = u32 (length frame) }
    (begun, offset) ← lift (start_packet started stream.pcr_reference info)
    (first, size) ← lift (put_payload begun offset info frame)
    write_packet first
    counted ← lift (
        count_packet (record {
          tspacket = first;
          pes_packet_length = sub32 info.pes_packet_length size;
          buf = size;
          stream_packets = stream.packets_counter;
          all_packets = all_packets;
        }))
    plain ← lift (
        spts_tspacket_header_set_adaptation_field_control counted.tspacket
          adaptation_field_payload_only)
    continuing ← lift (spts_tspacket_header_set_start_unit_indicator plain 0x00)
    done ← rest_packets_to (suc (length frame)) (record counted { tspacket = continuing }) frame
    pure (
      record stream {
        tspacket = done.tspacket;
        packets_counter = done.stream_packets;
        pes_header_info = record info { pes_packet_length = done.pes_packet_length };
      },
      done.all_packets,
    )

  module _ (uint64_scale : ℕ → ℕ → ℕ → ℕ) where
    unfoldable pub write_video_to : SpTs → Buffer → Writes Data SpTs
    write_video_to spts buffer = do
      stream ← lift (deref spts.video_stream)
      let counted = record stream { frames_counter = u64 (stream.frames_counter + 1) }
      (begun, video) ←
          (if buffer.delta_unit then pure (spts, counted) else begin_gop_to spts counted)
      (sent, packets_counter) ←
          write_stream_to video begun.packets_counter
            (gsttime_to_mpegtime uint64_scale buffer.timestamp) buffer.bytes
      pure (record begun { video_stream = some sent; packets_counter = packets_counter })

    unfoldable pub write_audio_to : SpTs → Buffer → Writes Data SpTs
    write_audio_to spts buffer = if spts.packets_counter == 0 then pure spts else (do
      stream ← lift (deref spts.audio_stream)
      (sent, packets_counter) ←
          write_stream_to stream spts.packets_counter
            (gsttime_to_mpegtime uint64_scale buffer.timestamp) buffer.bytes
      pure (record spts { audio_stream = some sent; packets_counter = packets_counter }))

    unfoldable pub spts_write_frame_to : SpTs → Buffer → Writes Data SpTs
    spts_write_frame_to spts buffer = elim buffer.caps [
      | video_h264 ↦ write_video_to spts buffer
      | audio_mpeg ↦ write_audio_to spts buffer
      | other_caps ↦ lift (fault uninitialised)
    ]
