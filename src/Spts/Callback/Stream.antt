-- ===== src/Spts/Callback/Stream.antt =====
-- The packets of one frame, written through the callback.
use sptsmuxer.Base.{ℕ, zero, suc, refl, inl, inr, Bool-cases, [], Bytes, out_of_fuel, ltb, length}
use sptsmuxer.Ts.{
  spts_tspacket_header_set_start_unit_indicator, spts_tspacket_header_set_adaptation_field_control,
  adaptation_field_payload_only,
}
use sptsmuxer.Spts.State.{SpTsStream}
use sptsmuxer.Spts.Packets.{
  Sender, rest_packets, write_stream, next_packet, count_packet, start_packet, put_payload,
}
use sptsmuxer.Spts.Callback.{rest_packets_to, write_stream_to}
use sptsmuxer.Spts.Callback.Agrees.{
  After-fault, After-ok, After-write, After-lift, After-call, After-tail, Returns, ReturnsPair,
}

module _ {ℓ} (Data : Type ℓ) where
  rest_packets-Returns :
      (fuel : ℕ) (s : Sender) (frame : Bytes)
      → Returns {Data = Data} [] (rest_packets fuel s frame) (rest_packets_to fuel s frame)
  unfolding rest_packets rest_packets_to
  rest_packets-Returns zero s frame = After-fault out_of_fuel
  rest_packets-Returns (suc fuel) s frame = elim (Bool-cases (ltb 0 s.pes_packet_length)) [
    | inl more ↦ rw more (
        After-lift (next_packet s frame) _ _ λ filled. After-write filled.tspacket _ _ (
          After-lift (count_packet filled) _ _ λ counted.
            After-tail _ _ _ (rest_packets-Returns fuel counted frame) (λ r. refl) (λ r. refl)))
    | inr done ↦ rw done (After-ok _ refl)
  ]

  pub write_stream-Returns :
      (stream : SpTsStream) (all_packets pts : ℕ) (frame : Bytes)
      → ReturnsPair {Data = Data} []
          (write_stream stream all_packets pts frame)
          (write_stream_to stream all_packets pts frame)
  unfolding write_stream write_stream_to
  write_stream-Returns stream all_packets pts frame =
      After-lift (spts_tspacket_header_set_start_unit_indicator stream.tspacket 0x40) _ _ λ started.
        After-lift (start_packet started stream.pcr_reference _) _ _ λ begun.
          After-lift (put_payload begun.0 begun.1 _ frame) _ _ λ first. After-write first.0 _ _ (
            After-lift (count_packet _) _ _ λ counted.
              After-lift
                (spts_tspacket_header_set_adaptation_field_control counted.tspacket
                  adaptation_field_payload_only)
                _ _
                λ plain.
                  After-lift (spts_tspacket_header_set_start_unit_indicator plain 0x00) _ _
                    λ continuing.
                      After-call _ _ _ _
                        (rest_packets-Returns (suc (length frame))
                          (record counted { tspacket = continuing }) frame)
                        λ done. After-ok _ refl)
