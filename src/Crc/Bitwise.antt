-- ===== src/Crc/Bitwise.antt =====
-- The table against the definition of the checksum: division by the polynomial 0x04c11db7, one
-- bit at a time, from the register 0xffffffff, with no final inversion (CRC-32/MPEG-2).
use sptsmuxer.Base.{
  ℕ, zero, suc, true, ◌*◌, ◌/◌, ◌%◌, ◌^◌, ◌≤◌, ◌<◌, ◌≡◌, refl, ◌∙◌, ap, sym, arith, [], ◌∷◌,
  bit_xor, Bytes, All, get_or, ltb, ◌==◌, all_below, table, u32, ◌<<<◌, if◌then◌else◌,
}
use native.Mathlib.Nat.{pow-suc, one-le-pow}
use sptsmuxer.Bits.{
  bit_and_mask, bit_xor-lt, bit_xor_parts, bit_xor_assoc, bit_xor_comm, zero-bit_xor,
}
use sptsmuxer.Crc.{crc_round, crc_rounds, calc_crc32}
use sptsmuxer.Crc.Residue.{crc_round-lt}
use sptsmuxer.Crc.Table.{crc_tab}

-- One bit: the register moves left, and the polynomial is subtracted if a 1 falls out.
shift_bit : ℕ → ℕ
shift_bit x = if ltb x (2 ^ 31) then u32 (x <<< 1) else bit_xor (u32 (x <<< 1)) 0x04c1_1db7

shift_bits : ℕ → ℕ → ℕ
unfolding shift_bit
shift_bits zero x = x
shift_bits (suc n) x = shift_bits n (shift_bit x)

divide_bytes : ℕ → Bytes → ℕ
unfolding shift_bits
divide_bytes crc [] = crc
divide_bytes crc (byte ∷ rest) = divide_bytes (shift_bits 8 (bit_xor crc (byte <<< 24))) rest

unfoldable pub crc32_mpeg2 : Bytes → ℕ
unfolding divide_bytes
crc32_mpeg2 bytes = divide_bytes 0xffff_ffff bytes

double : (a b : ℕ) → bit_xor a b * 2 ≡ bit_xor (a * 2) (b * 2)
double a b = ground (arith, bit_xor_parts 1 a 0 b 0, zero-bit_xor 0)

bit_xor-zero : (a : ℕ) → bit_xor a 0 ≡ a
bit_xor-zero a = bit_xor_comm a 0 ∙ zero-bit_xor a

swap_last : (a b c : ℕ) → bit_xor (bit_xor a b) c ≡ bit_xor (bit_xor a c) b
swap_last a b c =
    bit_xor_assoc a b c ∙ ap (bit_xor a) (bit_xor_comm b c) ∙ sym (bit_xor_assoc a c b)

-- A bit step is linear in what lies below the top bit.
shift_bit_linear :
    (x low : ℕ)
    → x < 2 ^ 32
    → low < 2 ^ 31
    → shift_bit (bit_xor x low) ≡ bit_xor (shift_bit x) (low * 2)
unfolding shift_bit
shift_bit_linear x low hx hl = ground (
  arith,
  bit_xor_parts 31 (x / 2 ^ 31) (x % 2 ^ 31) 0 low,
  bit_xor-zero (x / 2 ^ 31),
  bit_xor-lt 31 (x % 2 ^ 31) low,
  double (x % 2 ^ 31) low,
  swap_last (x % 2 ^ 31 * 2) (low * 2) 0x04c1_1db7,
)

shift_bit-lt : (x : ℕ) → shift_bit x < 2 ^ 32
unfolding shift_bit
shift_bit-lt x = ground (arith, bit_xor-lt 32 (x * 2 % 2 ^ 32) 0x04c1_1db7)

shift_bits_linear :
    (n x low : ℕ)
    → x < 2 ^ 32
    → low * 2 ^ n < 2 ^ 32
    → shift_bits n (bit_xor x low) ≡ bit_xor (shift_bits n x) (low * 2 ^ n)
unfolding shift_bits
shift_bits_linear zero x low hx hl = ap (bit_xor x) (omega arith)
shift_bits_linear (suc n) x low hx hl =
    rw (shift_bit_linear x low hx (omega (arith, doubled, small))) (
      shift_bits_linear n (shift_bit x) (low * 2) (shift_bit-lt x) (omega (arith, doubled, small))
      ∙ ap (bit_xor (shift_bits n (shift_bit x))) (omega (arith, doubled, small)))
  where
    doubled : low * 2 ^ suc n ≡ low * 2 ^ n * 2
    doubled = omega (arith, ap (λ (t : ℕ). low * t) (pow-suc 2 n))

    small : low ≤ low * 2 ^ n
    small = grind (arith, one-le-pow n 2)

-- Every entry of the table is its index, divided.
tab_entry : (i : ℕ) → i < 256 → shift_bits 8 (i * 2 ^ 24) ≡ get_or crc_tab i 0
tab_entry i h = table 256 (λ n. shift_bits 8 (n * 2 ^ 24)) (λ n. get_or crc_tab n 0) i entries h
  where
    entries : all_below 256 (λ n. shift_bits 8 (n * 2 ^ 24) == get_or crc_tab n 0) ≡ true
    entries = unfold all_below shift_bits crc_tab in refl

round_divides :
    (crc byte : ℕ)
    → crc < 2 ^ 32
    → byte < 2 ^ 8
    → crc_round crc byte ≡ shift_bits 8 (bit_xor crc (byte * 2 ^ 24))
unfolding crc_round
round_divides crc byte hc hb = ground (
  arith,
  bit_and_mask 8 index,
  bit_xor_parts 24 (crc / 2 ^ 24) (crc % 2 ^ 24) byte 0,
  bit_xor_parts 24 index 0 0 (crc % 2 ^ 24),
  bit_xor-lt 8 (crc / 2 ^ 24) byte,
  bit_xor-zero index,
  bit_xor-zero (crc % 2 ^ 24),
  zero-bit_xor (crc % 2 ^ 24),
  shift_bits_linear 8 (index * 2 ^ 24) (crc % 2 ^ 24),
  tab_entry index,
  bit_xor_comm (crc % 2 ^ 24 * 2 ^ 8) (get_or crc_tab index 0),
)
  where
    index : ℕ
    index = bit_xor (crc / 2 ^ 24) byte

rounds_divide :
    (crc : ℕ) (bytes : Bytes)
    → crc < 2 ^ 32
    → All (λ b. b < 2 ^ 8) bytes
    → crc_rounds crc bytes ≡ divide_bytes crc bytes
unfolding crc_rounds divide_bytes
rounds_divide crc [] hc h = refl
rounds_divide crc (byte ∷ rest) hc h =
    rounds_divide (crc_round crc byte) rest (crc_round-lt crc byte) h.1
    ∙ ap (λ c. divide_bytes c rest) (round_divides crc byte hc h.0)

-- On bytes, the table-driven checksum is the bit-by-bit division by the polynomial of
-- CRC-32/MPEG-2.
pub calc_crc32-eq-crc32_mpeg2 :
    (bytes : Bytes) → All (λ b. b < 2 ^ 8) bytes → calc_crc32 bytes ≡ crc32_mpeg2 bytes
unfolding calc_crc32 crc32_mpeg2
calc_crc32-eq-crc32_mpeg2 bytes h = rounds_divide 0xffff_ffff bytes (omega arith) h
