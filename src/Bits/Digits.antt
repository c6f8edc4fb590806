-- ===== src/Bits/Digits.antt =====
-- The native operations stand for a recursion on binary digits with fuel; here it loses its fuel.
use Prim.Native.Nat.{
  min, max, bitwise, digits, bit_and-bitwise, bit_or-bitwise, bit_xor-bitwise, differ,
}
use native.Mathlib.Nat.{le_refl, add-zero, pow-suc, one-le-pow}
use sptsmuxer.Base.{
  ℕ, zero, suc, ◌+◌, ◌-◌, ◌*◌, ◌/◌, ◌%◌, ◌^◌, ◌≤◌, ◌<◌, bit_and, bit_or, bit_xor, ◌≡◌, refl, ◌∙◌,
  ap, arith,
}

module _ (base : ℕ → ℕ) (op : ℕ → ℕ → ℕ) where
  -- More fuel than digits makes no difference.
  any_fuel :
      (y x first second : ℕ)
      → (x ≤ first) × (x ≤ second)
      → digits base op first x y ≡ digits base op second x y
  any_fuel y (suc x) zero second h = absurd (omega (arith, h.0))
  any_fuel y (suc x) first zero h = absurd (omega (arith, h.1))
  any_fuel y (suc x) (suc first) (suc second) h =
      let halves =
        any_fuel (y / 2) (suc x / 2) first second (omega (arith, h.0), omega (arith, h.1)) in
      rw halves
  any_fuel y zero zero zero h = refl
  any_fuel y zero zero (suc second) h = refl
  any_fuel y zero (suc first) zero h = refl
  any_fuel y zero (suc first) (suc second) h = refl

  pub lowest_digit :
      (x y : ℕ)
      → op (suc x % 2) (y % 2) + 2 * bitwise base op (suc x / 2) (y / 2) ≡ bitwise base op (suc x) y
  lowest_digit x y =
      let enough = any_fuel (y / 2) (suc x / 2) x (suc x / 2) (omega arith, le_refl _) in
      omega (arith, enough)

pub bit_or_step : (a b : ℕ) → max (a % 2) (b % 2) + 2 * bit_or (a / 2) (b / 2) ≡ bit_or a b
bit_or_step (suc x) y = simp bit_or-bitwise (lowest_digit (λ rest. rest) max x y)
bit_or_step zero y = simp bit_or-bitwise (omega arith)

pub bit_and_step : (a b : ℕ) → min (a % 2) (b % 2) + 2 * bit_and (a / 2) (b / 2) ≡ bit_and a b
bit_and_step (suc x) y = simp bit_and-bitwise (lowest_digit (λ rest. 0) min x y)
bit_and_step zero y = simp bit_and-bitwise (omega arith)

differ_digits : (x y : ℕ) → x < 2 → y < 2 → differ x y ≡ (x + y) % 2
differ_digits zero y hx hy = omega arith
differ_digits (suc zero) zero hx hy = refl
differ_digits (suc zero) (suc zero) hx hy = refl
differ_digits (suc zero) (suc (suc y)) hx hy = absurd (omega arith)
differ_digits (suc (suc x)) y hx hy = absurd (omega arith)

-- `^` adds the digits without a carry.
pub bit_xor_step : (a b : ℕ) → bit_xor a b ≡ bit_xor (a / 2) (b / 2) * 2 + (a % 2 + b % 2) % 2
bit_xor_step zero b = simp bit_xor-bitwise (omega arith)
bit_xor_step (suc a) b = omega (
  arith,
  bit_xor-bitwise (suc a) b,
  bit_xor-bitwise (suc a / 2) (b / 2),
  lowest_digit (λ y. y) differ a b,
  differ_digits (suc a % 2) (b % 2) (omega arith) (omega arith),
)

bit_or_zero_left : (b : ℕ) → bit_or 0 b ≡ b
bit_or_zero_left b = bit_or-bitwise 0 b

-- `|` and `&` with 0 on the right; the first number bounds the value on the left.
pub bit_or-zero : (k a : ℕ) → a ≤ k → bit_or a 0 ≡ a
bit_or-zero k zero h = refl
bit_or-zero zero (suc a) h = absurd (omega arith)
bit_or-zero (suc k) (suc a) h =
    omega (arith, bit_or_step (suc a) 0, bit_or-zero k (suc a / 2) (omega arith))

bit_and-zero : (k a : ℕ) → a ≤ k → bit_and a 0 ≡ 0
bit_and-zero k zero h = refl
bit_and-zero zero (suc a) h = absurd (omega arith)
bit_and-zero (suc k) (suc a) h =
    omega (arith, bit_and_step (suc a) 0, bit_and-zero k (suc a / 2) (omega arith))

-- `|` with a value of k bits leaves the digits above alone.
pub bit_or_high :
    (k q a b : ℕ) → a < 2 ^ k → b < 2 ^ k → bit_or (q * 2 ^ k + a) b ≡ q * 2 ^ k + bit_or a b
bit_or_high zero q a b ha hb = ground (arith, bit_or-zero q q (omega arith))
bit_or_high (suc k) q a b ha hb = ground (
  arith,
  pow-suc 2 k,
  ap (λ (t : ℕ). q * t) (pow-suc 2 k),
  bit_or_step (q * 2 ^ suc k + a) b,
  bit_or_step a b,
  bit_or_high k q (a / 2) (b / 2) (omega (arith, pow-suc 2 k)) (omega (arith, pow-suc 2 k)),
)

low_ones : (k q r : ℕ) → r < 2 ^ k → bit_and (q * 2 ^ k + r) (2 ^ k - 1) ≡ r
low_ones zero q r h = ground (arith, bit_and-zero (q * 1 + r) (q * 1 + r) (omega arith))
low_ones (suc k) q r h = ground (
  arith,
  one-le-pow k 2,
  pow-suc 2 k,
  ap (λ (t : ℕ). q * t) (pow-suc 2 k),
  bit_and_step (q * 2 ^ suc k + r) (2 ^ suc k - 1),
  low_ones k q (r / 2) (omega (arith, pow-suc 2 k)),
)

-- A mask of k ones is the remainder by 2 ^ k.
pub bit_and_mask : (k a : ℕ) → bit_and a (2 ^ k - 1) ≡ a % 2 ^ k
bit_and_mask k a = ground (arith, one-le-pow k 2, low_ones k (a / 2 ^ k) (a % 2 ^ k))

-- Fields side by side: `(q << k) | r` is a sum where r has k bits.
pub bit_or_fields : (k q r : ℕ) → r < 2 ^ k → bit_or (q * 2 ^ k) r ≡ q * 2 ^ k + r
bit_or_fields k q r h =
    ground (arith, one-le-pow k 2, bit_or_high k q 0 r, add-zero (q * 2 ^ k), bit_or_zero_left r)

and_comm_below : (k a b : ℕ) → a + b ≤ k → bit_and a b ≡ bit_and b a
and_comm_below zero zero zero h = refl
and_comm_below zero zero (suc b) h = absurd (omega arith)
and_comm_below zero (suc a) b h = absurd (omega arith)
and_comm_below (suc k) zero zero h = refl
and_comm_below (suc k) a b h =
    omega
      (arith, bit_and_step a b, bit_and_step b a, and_comm_below k (a / 2) (b / 2) (omega arith))

pub bit_and_comm : (a b : ℕ) → bit_and a b ≡ bit_and b a
bit_and_comm a b = and_comm_below (a + b) a b (omega arith)

-- The mask in front, as in `0xff & x`.
pub low_byte : (a : ℕ) → bit_and 0xff a ≡ a % 2 ^ 8
low_byte a = bit_and_comm 0xff a ∙ bit_and_mask 8 a
