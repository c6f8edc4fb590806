-- ===== src/Crc/Residue.antt =====
-- What a receiver checks: the checksum over a message and its own checksum is 0.
use sptsmuxer.Base.{
  true, ℕ, ◌*◌, ◌/◌, ◌%◌, ◌^◌, ◌<◌, ◌≡◌, refl, ◌∙◌, arith, [], ◌∷◌, ◌++◌, bit_xor, bit_and, Bytes,
  get_or, ltb, all_below, all_below-at, ltb→lt,
}
use sptsmuxer.Bits.{bit_and_mask, bit_xor-lt, bit_xor_self, bit_xor_comm, zero-bit_xor}
use sptsmuxer.Crc.{crc_round, crc_rounds, calc_crc32, crc_bytes}
use sptsmuxer.Crc.Table.{crc_tab}

-- Every entry of the table has 32 bits.
tab-lt : (i : ℕ) → i < 256 → get_or crc_tab i 0 < 2 ^ 32
tab-lt i h = ltb→lt _ _ (all_below-at (λ n. ltb (get_or crc_tab n 0) (2 ^ 32)) i 256 h entries)
  where
    entries : all_below 256 (λ n. ltb (get_or crc_tab n 0) (2 ^ 32)) ≡ true
    entries = unfold all_below crc_tab in refl

-- A round keeps the checksum within 32 bits.
pub crc_round-lt : (crc byte : ℕ) → crc_round crc byte < 2 ^ 32
unfolding crc_round
crc_round-lt crc byte =
    bit_xor-lt 32 _ _ (omega arith)
      (tab-lt index (omega (arith, bit_and_mask 8 (bit_xor (crc / 2 ^ 24) byte))))
  where
    index : ℕ
    index = bit_and (bit_xor (crc / 2 ^ 24) byte) 0xff

pub crc_rounds-lt : (crc : ℕ) (bytes : Bytes) → crc < 2 ^ 32 → crc_rounds crc bytes < 2 ^ 32
unfolding crc_rounds
crc_rounds-lt crc [] h = h
crc_rounds-lt crc (byte ∷ rest) h = crc_rounds-lt (crc_round crc byte) rest (crc_round-lt crc byte)

pub crc_rounds-append :
    (crc : ℕ) (xs ys : Bytes) → crc_rounds crc (xs ++ ys) ≡ crc_rounds (crc_rounds crc xs) ys
unfolding crc_rounds
crc_rounds-append crc [] ys = refl
crc_rounds-append crc (x ∷ xs) ys = crc_rounds-append (crc_round crc x) xs ys

-- The top byte, met by itself, shifts out and leaves the rest.
crc_round_top : (crc byte : ℕ) → byte ≡ crc / 2 ^ 24 → crc_round crc byte ≡ crc * 2 ^ 8 % 2 ^ 32
unfolding crc_round crc_tab
crc_round_top crc byte e =
    rw (e, bit_xor_self (crc / 2 ^ 24), bit_xor_comm (crc * 2 ^ 8 % 2 ^ 32) 0)
      (zero-bit_xor (crc * 2 ^ 8 % 2 ^ 32))

four_rounds : (crc : ℕ) → crc < 2 ^ 32 → crc_rounds crc (crc_bytes crc) ≡ 0
unfolding crc_rounds crc_bytes
four_rounds crc h =
    rw
      (
        crc_round_top crc (bit_and (crc / 2 ^ 24) 0xff)
            (omega (arith, bit_and_mask 8 (crc / 2 ^ 24))),
        crc_round_top second (bit_and (crc / 2 ^ 16) 0xff)
            (omega (arith, bit_and_mask 8 (crc / 2 ^ 16))),
        crc_round_top third (bit_and (crc / 2 ^ 8) 0xff)
            (omega (arith, bit_and_mask 8 (crc / 2 ^ 8))),
        crc_round_top fourth (bit_and crc 0xff) (omega (arith, bit_and_mask 8 crc)),
      )
      (omega arith)
  where
    second : ℕ
    second = crc * 2 ^ 8 % 2 ^ 32

    third : ℕ
    third = second * 2 ^ 8 % 2 ^ 32

    fourth : ℕ
    fourth = third * 2 ^ 8 % 2 ^ 32

-- A message followed by its own checksum has the checksum 0, whatever the message.
pub calc_crc32-append-crc_bytes :
    (message : Bytes) → calc_crc32 (message ++ crc_bytes (calc_crc32 message)) ≡ 0
unfolding calc_crc32
calc_crc32-append-crc_bytes message =
    crc_rounds-append 0xffff_ffff message (crc_bytes (crc_rounds 0xffff_ffff message))
    ∙ four_rounds (crc_rounds 0xffff_ffff message) (crc_rounds-lt 0xffff_ffff message (omega arith))
