-- ===== src/Spts/Packets/First.antt =====
-- The first packet of a frame, in its three forms: with the clock, with stuffing, with neither.
mod Expected
pub use Expected.*
use sptsmuxer.Base.{
  ℕ, suc, ◌+◌, ◌-◌, ◌*◌, ◌^◌, ◌≤◌, ◌<◌, ◌≡◌, ◌≢◌, refl, sym, ◌∙◌, ap, arith, [], ◌∷◌, ◌++◌, Bool,
  true, false, Bytes, ok, length, length-append, length-drop, length-replicate, take, drop,
  replicate, u32, ltb, le→not_ltb, lt→ltb, if◌then◌else◌,
}
use native.Mathlib.Decide.{dec_lt}
use sptsmuxer.Pes.{PesHeaderInfo, pes_header_bytes, pes_header_length}
use sptsmuxer.Ts.{TsPacketAdaptationInfo, pcr_bytes, adaptation_bytes, spts_tspacket_adaptation_set}
use sptsmuxer.Ts.Header.{
  packet, set_adaptation_packet, set_payload_only_packet, adaptation_set_packet,
}
use sptsmuxer.Ts.Decode.{
  decode_payload_packet, decode_adaptation_packet, read_pcr, read_pcr-pcr_bytes, read_pcr_unset,
  read_pcr_empty, length-pcr_bytes,
}
use sptsmuxer.Spts.Packets.{filling_length, pcr_adaptation, start_packet}
use sptsmuxer.Spts.Packets.Fill.{plain_field, clock_field, put_payload_lem}

module _ (pid control counter : ℕ) (pid_bits : pid < 2 ^ 13) (control_bits : control < 4)
    (cc_bits : counter < 16) (body : Bytes) (full : length body ≡ 184) (info : PesHeaderInfo)
    (frame : Bytes) (sized : info.pes_packet_length ≡ length frame)
    (small : length frame < 2 ^ 32 - 22) where
  -- An adaptation field `n ∷ ad` of n bytes, whatever it holds.
  with_field :
      (clock : Bool) (n : ℕ) (ad : Bytes)
      → n ≡ length ad
      → n ≤ 169
      → 169 ≤ n + length frame
      → length frame - (169 - n) ≡ length frame - capacity clock
      → start_packet (packet 1 pid control counter body) clock info
        ≡ ok (packet 1 pid 3 counter ((n ∷ ad) ++ drop (suc n) body), 4 + suc n)
      → read_pcr ad ≡ clock_if clock info.pts
      → Begun (packet 1 pid control counter body) clock pid counter info frame
  with_field clock n ad e short enough left starts timed = record {
    adapted = packet 1 pid 3 counter ((n ∷ ad) ++ drop (suc n) body);
    offset = 4 + suc n;
    control = 3;
    rest = n ∷ (ad ++ (pes_header_bytes info ++ take (170 - suc (length ad)) frame));
    size = 170 - suc (length ad);
    field = ad;
    starts = starts;
    puts =
        put_payload_lem 1 pid 3 counter (n ∷ ad) (drop (suc n) body) (4 + suc n) info frame
          (omega arith) (omega arith) (omega (arith, length-drop (suc n) body)) (omega arith);
    full = omega (
      arith,
      length-append ad (pes_header_bytes info ++ take (170 - suc (length ad)) frame),
      length-payload info frame (170 - suc (length ad)) (omega arith),
    );
    control_bits = omega arith;
    within = omega arith;
    left = omega arith;
    decoded =
        decode_adaptation_packet 1 pid counter (omega arith) pid_bits cc_bits n ad
          (pes_header_bytes info ++ take (170 - suc (length ad)) frame) e
          (omega (arith, length-payload info frame (170 - suc (length ad)) (omega arith)))
          (omega arith);
    timed = timed;
  }

  -- The field that is set is as long as `n` says, and the packet is marked to have one.
  field_starts :
      (field_info : TsPacketAdaptationInfo) (n : ℕ) (ad : Bytes)
      → adaptation_bytes field_info ≡ n ∷ ad
      → n ≡ length ad
      → n ≤ 169
      → spts_tspacket_adaptation_set (packet 1 pid 3 counter body) field_info
        ≡ ok (packet 1 pid 3 counter ((n ∷ ad) ++ drop (suc n) body), suc n)
  field_starts field_info n ad bytes e short =
      adaptation_set_packet 1 pid 3 counter body field_info (rw bytes (omega arith))
      ∙ rw bytes
          (ap (λ k. ok (packet 1 pid 3 counter ((n ∷ ad) ++ drop (suc k) body), suc k)) (sym e))

  -- A frame of a stream that carries the clock.
  begun_clock : Begun (packet 1 pid control counter body) true pid counter info frame
  begun_clock =
      with_field true n ad ad_length (ground arith) (ground arith) (ground arith) starts
        (read_pcr-pcr_bytes pcr (replicate (n - 7) 0xff) (ground arith))
    where
      n : ℕ
      n = if ltb (length frame) 162 then 169 - length frame else 7

      pcr : ℕ
      pcr = clock_of info.pts

      ad : Bytes
      ad = 0x10 ∷ (pcr_bytes pcr ++ replicate (n - 7) 0xff)

      ad_length : n ≡ length ad
      ad_length = ground (
        arith,
        length-append (pcr_bytes pcr) (replicate (n - 7) 0xff),
        length-pcr_bytes pcr,
        length-replicate {A = ℕ} (n - 7) 0xff,
      )

      settings :
          pcr_adaptation info ≡ record { field_flag = 0x10; adaptation_field_length = n; pcr = pcr }
      settings = unfold pcr_adaptation filling_length pes_header_length in ground arith

      starts :
          start_packet (packet 1 pid control counter body) true info
          ≡ ok (packet 1 pid 3 counter ((n ∷ ad) ++ drop (suc n) body), 4 + suc n)
      starts =
          unfold start_packet in
          rw
            (
              set_adaptation_packet 1 pid control counter body control_bits cc_bits,
              settings,
              field_starts (record { field_flag = 0x10; adaptation_field_length = n; pcr = pcr }) n
                  ad (clock_field n pcr (ground arith) (ground arith)) ad_length (ground arith),
            )
            refl

  -- A frame of another stream that leaves room in its packet.
  begun_short :
      length frame < 169 → Begun (packet 1 pid control counter body) false pid counter info frame
  begun_short short =
      with_field false n ad ad_length (omega arith) (omega arith) (omega arith) starts
        (read_pcr_unset (replicate (n - 1) 0xff))
    where
      n : ℕ
      n = 169 - length frame

      ad : Bytes
      ad = 0 ∷ replicate (n - 1) 0xff

      ad_length : n ≡ length ad
      ad_length = omega (arith, length-replicate {A = ℕ} (n - 1) 0xff)

      settings : filling_length info ≡ n
      settings = unfold filling_length pes_header_length in ground arith

      starts :
          start_packet (packet 1 pid control counter body) false info
          ≡ ok (packet 1 pid 3 counter ((n ∷ ad) ++ drop (suc n) body), 4 + suc n)
      starts =
          unfold start_packet pes_header_length in
          rw
            (
              lt→ltb (u32 (14 + info.pes_packet_length)) 184 (omega arith),
              set_adaptation_packet 1 pid control counter body control_bits cc_bits,
              settings,
              field_starts (record { field_flag = 0; adaptation_field_length = n; pcr = 0 }) n ad
                  (plain_field n 0 (omega arith) (omega arith)) ad_length (omega arith),
            )
            refl

  -- A frame of another stream that fills its packet.
  begun_long :
      170 ≤ length frame → Begun (packet 1 pid control counter body) false pid counter info frame
  begun_long long = record {
    adapted = packet 1 pid 1 counter body;
    offset = 4;
    control = 1;
    rest = pes_header_bytes info ++ take 170 frame;
    size = 170;
    field = [];
    starts = starts;
    puts =
        put_payload_lem 1 pid 1 counter [] body 4 info frame refl (omega arith) (omega arith)
          (omega arith);
    full = length-payload info frame 170 long;
    control_bits = omega arith;
    within = long;
    left = refl;
    decoded =
        decode_payload_packet 1 pid counter (omega arith) pid_bits cc_bits
          (pes_header_bytes info ++ take 170 frame) (length-payload info frame 170 long);
    timed = read_pcr_empty;
  }
    where
      starts :
          start_packet (packet 1 pid control counter body) false info
          ≡ ok (packet 1 pid 1 counter body, 4)
      starts =
          unfold start_packet pes_header_length in
          rw
            (
              le→not_ltb (u32 (14 + info.pes_packet_length)) 184 (omega arith),
              set_payload_only_packet 1 pid control counter body control_bits cc_bits,
            )
            refl

  -- A frame of another stream, of any length but one.
  begun_plain :
      length frame ≢ 169 → Begun (packet 1 pid control counter body) false pid counter info frame
  begun_plain other = elim (dec_lt (length frame) 169) [
    | yes short ↦ begun_short short
    | no long ↦ begun_long (omega arith)
  ]

-- The frames that the first packet gets right: all of them in a stream with the clock, and those
-- of any other length than 169 bytes in another stream.
abbrev pub Fits : Bool → ℕ → Type 0
Fits true len = Unit {0}
Fits false len = len ≢ 169

-- The first packet of a frame below 2^32 - 22 bytes, of any such length for a stream with the
-- clock and of any but 169 bytes for another: it is built without a fault, has 188 bytes, and a
-- receiver finds in it the PES header and the start of the frame, and the clock exactly if the
-- stream has it; what is left is what the capacity of the packet leaves.
pub begun :
    (clock : Bool) (pid control counter : ℕ) (body : Bytes) (info : PesHeaderInfo) (frame : Bytes)
    → pid < 2 ^ 13
    → control < 4
    → counter < 16
    → length body ≡ 184
    → info.pes_packet_length ≡ length frame
    → length frame < 2 ^ 32 - 22
    → Fits clock (length frame)
    → Begun (packet 1 pid control counter body) clock pid counter info frame
begun true pid control counter body info frame hp hctl hc full sized small fits =
    begun_clock pid control counter hp hctl hc body full info frame sized small
begun false pid control counter body info frame hp hctl hc full sized small fits =
    begun_plain pid control counter hp hctl hc body full info frame sized small fits
