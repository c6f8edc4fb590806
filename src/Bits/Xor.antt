-- ===== src/Bits/Xor.antt =====
-- The laws of `^`, each by recursion on a bound for the digits.
use native.Mathlib.Nat.{pow-suc}
use Prim.Native.Nat.{bit_xor-bitwise}
use sptsmuxer.Base.{ℕ, zero, suc, ◌+◌, ◌*◌, ◌/◌, ◌%◌, ◌^◌, ◌≤◌, ◌<◌, bit_xor, ◌≡◌, refl, ap, arith}
use sptsmuxer.Bits.Digits.{bit_xor_step}

pub bit_xor_half : (a b : ℕ) → bit_xor a b / 2 ≡ bit_xor (a / 2) (b / 2)
bit_xor_half a b = omega (arith, bit_xor_step a b)

pub bit_xor_parity : (a b : ℕ) → bit_xor a b % 2 ≡ (a % 2 + b % 2) % 2
bit_xor_parity a b = omega (arith, bit_xor_step a b)

pub zero-bit_xor : (a : ℕ) → bit_xor 0 a ≡ a
zero-bit_xor a = bit_xor-bitwise 0 a

xor_comm_below : (k a b : ℕ) → a + b ≤ k → bit_xor a b ≡ bit_xor b a
xor_comm_below zero zero zero h = refl
xor_comm_below zero zero (suc b) h = absurd (omega arith)
xor_comm_below zero (suc a) b h = absurd (omega arith)
xor_comm_below (suc k) zero zero h = refl
xor_comm_below (suc k) a b h =
    omega
      (arith, bit_xor_step a b, bit_xor_step b a, xor_comm_below k (a / 2) (b / 2) (omega arith))

pub bit_xor_comm : (a b : ℕ) → bit_xor a b ≡ bit_xor b a
bit_xor_comm a b = xor_comm_below (a + b) a b (omega arith)

xor_assoc_below :
    (k a b c : ℕ) → a + (b + c) ≤ k → bit_xor (bit_xor a b) c ≡ bit_xor a (bit_xor b c)
xor_assoc_below zero zero zero c h = simp zero-bit_xor
xor_assoc_below zero zero (suc b) c h = absurd (omega arith)
xor_assoc_below zero (suc a) b c h = absurd (omega arith)
xor_assoc_below (suc k) zero b c h = rw (zero-bit_xor b, zero-bit_xor (bit_xor b c))
xor_assoc_below (suc k) (suc a) b c h = ground (
  arith,
  bit_xor_step (bit_xor (suc a) b) c,
  bit_xor_step (suc a) (bit_xor b c),
  bit_xor_half (suc a) b,
  bit_xor_half b c,
  bit_xor_parity (suc a) b,
  bit_xor_parity b c,
  xor_assoc_below k (suc a / 2) (b / 2) (c / 2),
)

pub bit_xor_assoc : (a b c : ℕ) → bit_xor (bit_xor a b) c ≡ bit_xor a (bit_xor b c)
bit_xor_assoc a b c = xor_assoc_below (a + (b + c)) a b c (omega arith)

xor_self_below : (k a : ℕ) → a ≤ k → bit_xor a a ≡ 0
xor_self_below k zero h = refl
xor_self_below zero (suc a) h = absurd (omega arith)
xor_self_below (suc k) (suc a) h =
    omega (arith, bit_xor_step (suc a) (suc a), xor_self_below k (suc a / 2) (omega arith))

pub bit_xor_self : (a : ℕ) → bit_xor a a ≡ 0
bit_xor_self a = xor_self_below a a (omega arith)

pub bit_xor-lt : (k a b : ℕ) → a < 2 ^ k → b < 2 ^ k → bit_xor a b < 2 ^ k
bit_xor-lt zero zero zero ha hb = omega arith
bit_xor-lt zero zero (suc b) ha hb = absurd (omega arith)
bit_xor-lt zero (suc a) b ha hb = absurd (omega arith)
bit_xor-lt (suc k) a b ha hb = omega (
  arith,
  pow-suc 2 k,
  bit_xor_step a b,
  bit_xor-lt k (a / 2) (b / 2) (omega (arith, pow-suc 2 k)) (omega (arith, pow-suc 2 k)),
)

-- The parts above and below digit k are combined apart.
pub bit_xor_parts :
    (k p a q b : ℕ)
    → a < 2 ^ k
    → b < 2 ^ k
    → bit_xor (p * 2 ^ k + a) (q * 2 ^ k + b) ≡ bit_xor p q * 2 ^ k + bit_xor a b
bit_xor_parts zero p zero q zero ha hb = ground (arith, zero-bit_xor 0)
bit_xor_parts zero p zero q (suc b) ha hb = absurd (omega arith)
bit_xor_parts zero p (suc a) q b ha hb = absurd (omega arith)
bit_xor_parts (suc k) p a q b ha hb = ground (
  arith,
  pow-suc 2 k,
  ap (λ (t : ℕ). p * t) (pow-suc 2 k),
  ap (λ (t : ℕ). q * t) (pow-suc 2 k),
  ap (λ (t : ℕ). bit_xor p q * t) (pow-suc 2 k),
  bit_xor_step (p * 2 ^ suc k + a) (q * 2 ^ suc k + b),
  bit_xor_step a b,
  bit_xor_parts k p (a / 2) q (b / 2) (omega (arith, pow-suc 2 k)) (omega (arith, pow-suc 2 k)),
)
