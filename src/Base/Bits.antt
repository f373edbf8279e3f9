-- ===== src/Base/Bits.antt =====
-- `|` on words that share no bit is their sum.
use Prim.Native.Nat.{ℕ, zero, suc, ◌+◌, ◌*◌, ◌/◌, ◌%◌, ◌^◌, ◌≤◌, ◌<◌, max, bit_or, bit_or-bitwise}
use mathlib.Core.Path.{◌≡◌, ap, ◌∙◌}
use native.Mathlib.Nat.{pow-suc}
use native.Mathlib.Omega.{arith}
use stm32_usbfloppy_tracer.Base.Digits.{lowest_digit}

pub zero-bit_or : (b : ℕ) → bit_or 0 b ≡ b
zero-bit_or b = bit_or-bitwise 0 b

-- The lowest digit, and the rest.
pub bit_or_halves : (a b : ℕ) → max (a % 2) (b % 2) + 2 * bit_or (a / 2) (b / 2) ≡ bit_or a b
bit_or_halves a b = omega (
  arith,
  bit_or-bitwise a b,
  bit_or-bitwise (a / 2) (b / 2),
  lowest_digit (λ y. y) max (λ y. omega arith) a b,
)

bit_or-zero_fuel : (n a : ℕ) → a ≤ n → bit_or a 0 ≡ a
bit_or-zero_fuel n zero h = zero-bit_or 0
bit_or-zero_fuel zero (suc a) h = absurd (omega arith)
bit_or-zero_fuel (suc n) (suc a) h =
    omega (arith, bit_or_halves (suc a) 0, bit_or-zero_fuel n (suc a / 2) (omega arith))

pub bit_or-zero : (a : ℕ) → bit_or a 0 ≡ a
bit_or-zero a = bit_or-zero_fuel a a (omega arith)

-- A value above bit `k` and one below it.
pub bit_or-shifted : (k a b : ℕ) → b < 2 ^ k → bit_or (a * 2 ^ k) b ≡ a * 2 ^ k + b
bit_or-shifted zero a b h =
    let e : b ≡ 0 = omega arith in rw e (bit_or-zero (a * 2 ^ 0) ∙ omega arith)
bit_or-shifted (suc k) a b h =
    let x = a * 2 ^ k in
    let e : a * 2 ^ suc k ≡ x * 2 =
      omega (arith, pow-suc 2 k, ap (λ (t : ℕ). a * t) (pow-suc 2 k)) in
    let halved : x * 2 / 2 ≡ x = omega arith in
    rw e (
      omega (
        arith,
        bit_or_halves (x * 2) b,
        ap (λ v. bit_or v (b / 2)) halved,
        bit_or-shifted k a (b / 2) (omega (arith, pow-suc 2 k)),
      ))

pub bit_or-below_shifted : (k a b : ℕ) → b < 2 ^ k → bit_or b (a * 2 ^ k) ≡ a * 2 ^ k + b
bit_or-below_shifted zero a b h =
    let e : b ≡ 0 = omega arith in rw e (zero-bit_or (a * 2 ^ 0) ∙ omega arith)
bit_or-below_shifted (suc k) a b h =
    let x = a * 2 ^ k in
    let e : a * 2 ^ suc k ≡ x * 2 =
      omega (arith, pow-suc 2 k, ap (λ (t : ℕ). a * t) (pow-suc 2 k)) in
    let halved : x * 2 / 2 ≡ x = omega arith in
    rw e (
      omega (
        arith,
        bit_or_halves b (x * 2),
        ap (λ v. bit_or (b / 2) v) halved,
        bit_or-below_shifted k a (b / 2) (omega (arith, pow-suc 2 k)),
      ))
