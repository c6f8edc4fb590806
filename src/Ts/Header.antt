-- ===== src/Ts/Header.antt =====
-- The header of a packet as four fields, and what the operations on it do to them.
use sptsmuxer.Base.{
  ℕ, ◌+◌, ◌*◌, ◌/◌, ◌%◌, ◌^◌, ◌≤◌, ◌<◌, ◌≡◌, refl, arith, [], ◌∷◌, ◌++◌, Bytes, ok, bit_and, bit_or,
  length, replicate, drop, store, store-append, memset, modify, false, drop_all, table, all_below,
}
use sptsmuxer.Bits.{low_byte}
use sptsmuxer.Ts.{
  TsPacketHeaderInfo, header_bytes, spts_tspacket_header_init, spts_tspacket_new,
  spts_tspacket_header_set_start_unit_indicator, spts_tspacket_header_set_adaptation_field_control,
  spts_tspacket_header_cc_inc, spts_tspacket_adaptation_set, TsPacketAdaptationInfo,
  adaptation_bytes,
}

-- The packets of this muxer: sync byte, unit start bit, priority bit set, PID, adaptation field
-- control, continuity counter, and the rest.
abbrev pub packet : ℕ → ℕ → ℕ → ℕ → Bytes → Bytes
packet start pid control cc body =
    0x47 ∷ (start * 64 + 32 + pid / 2 ^ 8) ∷ (pid % 2 ^ 8) ∷ (control * 16 + cc) ∷ body

next_counter :
    (b : ℕ) → b < 256 → bit_or (bit_and b 0xf0) (bit_and (b + 1) 0x0f) ≡ b / 16 * 16 + (b + 1) % 16
next_counter b h =
    table 256 (λ n. bit_or (bit_and n 0xf0) (bit_and (n + 1) 0x0f))
      (λ n. n / 16 * 16 + (n + 1) % 16) b (unfold all_below in refl) h

with_start : (b : ℕ) → b < 256 → bit_or (bit_and b 0xbf) 0x40 ≡ b / 128 * 128 + 64 + b % 64
with_start b h =
    table 256 (λ n. bit_or (bit_and n 0xbf) 0x40) (λ n. n / 128 * 128 + 64 + n % 64) b
      (unfold all_below in refl) h

without_start : (b : ℕ) → b < 256 → bit_or (bit_and b 0xbf) 0 ≡ b / 128 * 128 + b % 64
without_start b h =
    table 256 (λ n. bit_or (bit_and n 0xbf) 0) (λ n. n / 128 * 128 + n % 64) b
      (unfold all_below in refl) h

with_adaptation : (b : ℕ) → b < 256 → bit_or (bit_and b 0xcf) 0x30 ≡ b / 64 * 64 + 48 + b % 16
with_adaptation b h =
    table 256 (λ n. bit_or (bit_and n 0xcf) 0x30) (λ n. n / 64 * 64 + 48 + n % 16) b
      (unfold all_below in refl) h

without_adaptation : (b : ℕ) → b < 256 → bit_or (bit_and b 0xcf) 0x10 ≡ b / 64 * 64 + 16 + b % 16
without_adaptation b h =
    table 256 (λ n. bit_or (bit_and n 0xcf) 0x10) (λ n. n / 64 * 64 + 16 + n % 16) b
      (unfold all_below in refl) h

-- A byte of the header set anew.
at_byte1 :
    {x y : ℕ} (sync low flags : ℕ) (body : Bytes)
    → x ≡ y
    → ok (sync ∷ x ∷ low ∷ flags ∷ body) ≡ ok (sync ∷ y ∷ low ∷ flags ∷ body)
at_byte1 sync low flags body e = rw e

at_byte3 :
    {x y : ℕ} (sync high low : ℕ) (body : Bytes)
    → x ≡ y
    → ok (sync ∷ high ∷ low ∷ x ∷ body) ≡ ok (sync ∷ high ∷ low ∷ y ∷ body)
at_byte3 sync high low body e = rw e

module _ (start pid control cc : ℕ) (body : Bytes) where
  -- For an adaptation field control below 4 and a counter below 16, the operation takes the
  -- continuity counter to the next one modulo 16 and leaves the other fields and the rest of the
  -- packet.
  pub cc_inc_packet :
      control < 4
      → cc < 16
      → spts_tspacket_header_cc_inc (packet start pid control cc body)
        ≡ ok (packet start pid control ((cc + 1) % 16) body)
  unfolding spts_tspacket_header_cc_inc modify
  cc_inc_packet hc h = at_byte3 _ _ _ body (omega (arith, next_counter (control * 16 + cc)))

  pub set_start_packet :
      start < 2
      → pid < 2 ^ 13
      → spts_tspacket_header_set_start_unit_indicator (packet start pid control cc body) 0x40
        ≡ ok (packet 1 pid control cc body)
  unfolding spts_tspacket_header_set_start_unit_indicator modify
  set_start_packet hs hp =
      at_byte1 _ _ _ body (omega (arith, with_start (start * 64 + 32 + pid / 2 ^ 8)))

  pub clear_start_packet :
      start < 2
      → pid < 2 ^ 13
      → spts_tspacket_header_set_start_unit_indicator (packet start pid control cc body) 0x00
        ≡ ok (packet 0 pid control cc body)
  unfolding spts_tspacket_header_set_start_unit_indicator modify
  clear_start_packet hs hp =
      at_byte1 _ _ _ body (omega (arith, without_start (start * 64 + 32 + pid / 2 ^ 8)))

  pub set_adaptation_packet :
      control < 4
      → cc < 16
      → spts_tspacket_header_set_adaptation_field_control (packet start pid control cc body) 0x30
        ≡ ok (packet start pid 3 cc body)
  unfolding spts_tspacket_header_set_adaptation_field_control modify
  set_adaptation_packet hc h =
      at_byte3 _ _ _ body (omega (arith, with_adaptation (control * 16 + cc)))

  pub set_payload_only_packet :
      control < 4
      → cc < 16
      → spts_tspacket_header_set_adaptation_field_control (packet start pid control cc body) 0x10
        ≡ ok (packet start pid 1 cc body)
  unfolding spts_tspacket_header_set_adaptation_field_control modify
  set_payload_only_packet hc h =
      at_byte3 _ _ _ body (omega (arith, without_adaptation (control * 16 + cc)))

  -- The adaptation field goes behind the header, over what the packet held there.
  pub adaptation_set_packet :
      (info : TsPacketAdaptationInfo)
      → length (adaptation_bytes info) ≤ length body
      → spts_tspacket_adaptation_set (packet start pid control cc body) info
        ≡ ok (
          packet start pid control cc
              (adaptation_bytes info ++ drop (length (adaptation_bytes info)) body),
          length (adaptation_bytes info),
        )
  unfolding spts_tspacket_adaptation_set
  adaptation_set_packet info h =
      rw (store-append (packet start pid control cc []) body (adaptation_bytes info) 4 refl h)

-- A fresh packet is its header and 184 bytes 0xff, whatever the array held.
pub header_init_lem :
    (tspacket : Bytes) (info : TsPacketHeaderInfo)
    → length tspacket ≡ 188
    → spts_tspacket_header_init tspacket info ≡ ok (header_bytes info ++ replicate 184 0xff)
unfolding spts_tspacket_header_init memset header_bytes
header_init_lem tspacket info h =
    rw
      (
        store-append [] tspacket (replicate 188 0xff) 0 refl (omega arith),
        drop_all 188 tspacket (omega arith),
      )
      (unfold store in refl)

pub tspacket_new_lem :
    (info : TsPacketHeaderInfo)
    → spts_tspacket_new info
      ≡ ok (record { pcr_reference = false; content = header_bytes info ++ replicate 184 0xff })
unfolding spts_tspacket_new memset store header_bytes
tspacket_new_lem info = refl

-- The header of every packet that the muxer sets up, for its PID.
abbrev pub fresh_header : ℕ → TsPacketHeaderInfo
fresh_header pid = record {
  transport_error_indicator = 0;
  payload_unit_start_indicator = 0x40;
  transport_priority = 0x20;
  pid = pid;
  transport_scrambling_control = 0;
  adaptation_field_control = 0x10;
  continuity_counter = 0;
}

pub fresh_header-packet :
    (pid : ℕ) (body : Bytes)
    → pid < 2 ^ 13
    → header_bytes (fresh_header pid) ++ body ≡ packet 1 pid 1 0 body
unfolding header_bytes
fresh_header-packet pid body h = ground (arith, low_byte pid, high_bits (pid / 2 ^ 8) (omega arith))
  where
    high_bits : (x : ℕ) → x < 32 → bit_or 96 x ≡ 96 + x
    high_bits x hx = table 32 (bit_or 96) (λ n. 96 + n) x (unfold all_below in refl) hx
