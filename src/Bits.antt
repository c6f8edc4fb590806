-- ===== src/Bits.antt =====
-- `|`, `&` and `^` of C at variables: the equation for the lowest digit, masks of low bits, and
-- fields that are put side by side.
mod Digits
mod Xor
pub use Digits.{bit_and_step, bit_or_step, bit_or_high, bit_or_fields, bit_and_mask, low_byte}
pub use Xor.*
