-- ===== src/Ts/Decode.antt =====
-- What a receiver reads from a packet (ISO/IEC 13818-1, 2.4.3.2 to 2.4.3.5).
use sptsmuxer.Base.{
  ℕ, zero, suc, ◌+◌, ◌*◌, ◌/◌, ◌%◌, ◌^◌, ◌≤◌, ◌<◌, ◌≡◌, refl, arith, [], ◌∷◌, ◌++◌, Bytes, length,
  length-append, take, drop, take-append, drop-append, Option, some, none, leb, ◌==◌, if◌then◌else◌,
  ◌&&◌, bit_or, table, all_below,
}
use sptsmuxer.Bits.{bit_and_mask, bit_or_fields, bit_or_high}
use sptsmuxer.Ts.{pcr_bytes}
use sptsmuxer.Ts.Header.{packet}

pub record TsView : Type 0 where
  pub unit_start : ℕ
  pub pid : ℕ
  pub counter : ℕ
  pub adaptation : Bytes
  pub payload : Bytes

-- An adaptation field of n bytes behind its length, then the payload.
abbrev pub read_adaptation : Bytes → Option (Bytes × Bytes)
read_adaptation [] = none
read_adaptation (n ∷ rest) = if leb n 182 then some (take n rest, drop n rest) else none

-- The adaptation field and the payload, as the adaptation field control says: 1 payload only,
-- 2 adaptation field only (of 183 bytes), 3 both; 0 is reserved.
abbrev pub read_body : ℕ → Bytes → Option (Bytes × Bytes)
read_body zero body = none
read_body (suc zero) body = some ([], body)
read_body (suc (suc zero)) body = some (drop 1 body, [])
read_body (suc (suc (suc control))) body = read_adaptation body

abbrev view : ℕ → ℕ → ℕ → Option (Bytes × Bytes) → Option TsView
view start pid cc none = none
view start pid cc (some (ad, pay)) =
    some (record { unit_start = start; pid = pid; counter = cc; adaptation = ad; payload = pay })

-- A packet of 188 bytes with its sync byte, no error bit and no scrambling.
unfoldable pub decode_ts : Bytes → Option TsView
decode_ts (sync ∷ b1 ∷ b2 ∷ b3 ∷ body) =
    if sync == 0x47 && b1 / 128 == 0 && b3 / 64 == 0 && length body == 184
    then view (b1 / 64 % 2) (b1 % 32 * 2 ^ 8 + b2) (b3 % 16) (read_body (b3 / 16 % 4) body)
    else none
decode_ts _ = none

module _ (start pid cc : ℕ) (start_bit : start < 2) (pid_bits : pid < 2 ^ 13)
    (cc_bits : cc < 16) where
  pub decode_payload_packet :
      (body : Bytes)
      → length body ≡ 184
      → decode_ts (packet start pid 1 cc body)
        ≡ some (record {
          unit_start = start;
          pid = pid;
          counter = cc;
          adaptation = [];
          payload = body;
        })
  unfolding decode_ts
  decode_payload_packet body h = rw control (ground arith)
    where
      control : (1 * 16 + cc) / 16 % 4 ≡ 1
      control = omega arith

  pub decode_adaptation_packet :
      (n : ℕ) (ad pay : Bytes)
      → n ≡ length ad
      → length ad + length pay ≡ 183
      → n ≤ 182
      → decode_ts (packet start pid 3 cc (n ∷ (ad ++ pay)))
        ≡ some
            (record { unit_start = start; pid = pid; counter = cc; adaptation = ad; payload = pay })
  unfolding decode_ts
  decode_adaptation_packet n ad pay e total fits =
      rw (control, take-append n ad pay e, drop-append n 0 ad pay (omega arith))
        (ground (arith, length-append ad pay))
    where
      control : (3 * 16 + cc) / 16 % 4 ≡ 3
      control = omega arith

-- The clock reference of an adaptation field, if its flags announce one: 33 bits of the base, in
-- units of 300, and 9 bits of the extension.
abbrev pub clock : ℕ → ℕ → ℕ → ℕ → ℕ → ℕ → ℕ
clock b5 b4 b3 b2 b1 b0 =
    (b5 * 2 ^ 25 + b4 * 2 ^ 17 + b3 * 2 ^ 9 + b2 * 2 + b1 / 2 ^ 7) * 300 + (b1 % 2 * 2 ^ 8 + b0)

unfoldable pub read_pcr : Bytes → Option ℕ
read_pcr (flag ∷ b5 ∷ b4 ∷ b3 ∷ b2 ∷ b1 ∷ b0 ∷ rest) =
    if flag / 2 ^ 4 % 2 == 1 then some (clock b5 b4 b3 b2 b1 b0) else none
read_pcr _ = none

pub read_pcr_empty : read_pcr [] ≡ none
unfolding read_pcr
read_pcr_empty = refl

-- No flag, no clock.
pub read_pcr_unset : (rest : Bytes) → read_pcr (0 ∷ rest) ≡ none
unfolding read_pcr
read_pcr_unset [] = refl
read_pcr_unset (a ∷ []) = refl
read_pcr_unset (a ∷ b ∷ []) = refl
read_pcr_unset (a ∷ b ∷ c ∷ []) = refl
read_pcr_unset (a ∷ b ∷ c ∷ d ∷ []) = refl
read_pcr_unset (a ∷ b ∷ c ∷ d ∷ e ∷ []) = refl
read_pcr_unset (a ∷ b ∷ c ∷ d ∷ e ∷ f ∷ rest) = refl

reserved_bits : (x : ℕ) → x < 2 → bit_or x 0x7e ≡ 0x7e + x
reserved_bits x h = table 2 (λ n. bit_or n 0x7e) (λ n. 0x7e + n) x (unfold all_below in refl) h

pcr_bytes_lem :
    (pcr : ℕ)
    → pcr < 2 ^ 64
    → let base = pcr / 300 in
      pcr_bytes pcr
      ≡ (base / 2 ^ 25 % 2 ^ 8)
        ∷ (base / 2 ^ 17 % 2 ^ 8)
        ∷ (base / 2 ^ 9 % 2 ^ 8)
        ∷ (base / 2 % 2 ^ 8)
        ∷ (base % 2 * 2 ^ 7 + 0x7e + pcr % 300 / 2 ^ 8)
        ∷ (pcr % 300 % 2 ^ 8)
        ∷ []
unfolding pcr_bytes
pcr_bytes_lem pcr h = ground (
  arith,
  bit_and_mask 8 (pcr % 300),
  bit_or_fields 7 (pcr / 300) (pcr % 300 / 2 ^ 8),
  bit_or_high 7 (pcr / 300) (pcr % 300 / 2 ^ 8) 0x7e,
  reserved_bits (pcr % 300 / 2 ^ 8),
)

-- For a clock below 2^64, a receiver reads it back from the adaptation field, its base modulo
-- 2^33.
pub read_pcr-pcr_bytes :
    (pcr : ℕ) (rest : Bytes)
    → pcr < 2 ^ 64
    → read_pcr (0x10 ∷ (pcr_bytes pcr ++ rest)) ≡ some (pcr / 300 % 2 ^ 33 * 300 + pcr % 300)
unfolding read_pcr
read_pcr-pcr_bytes pcr rest h = rw (pcr_bytes_lem pcr h) (ground arith)

pub length-pcr_bytes : (pcr : ℕ) → length (pcr_bytes pcr) ≡ 6
unfolding pcr_bytes
length-pcr_bytes pcr = refl
