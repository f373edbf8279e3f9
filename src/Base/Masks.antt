-- ===== src/Base/Masks.antt =====
-- `&` with a mask that has every second bit.
use Prim.Native.Nat.{
  ℕ, zero, suc, ◌+◌, ◌*◌, ◌/◌, ◌%◌, ◌^◌, ◌≤◌, ◌<◌, min, bit_and, bit_or, bit_xor, bit_and-bitwise,
}
use mathlib.Core.Path.{◌≡◌, refl, ap}
use native.Mathlib.Nat.{pow-suc}
use native.Mathlib.Omega.{arith}
use stm32_usbfloppy_tracer.Base.Bits.{bit_or_halves}
use stm32_usbfloppy_tracer.Base.Digits.{lowest_digit}
use stm32_usbfloppy_tracer.Base.Xor.{bit_xor_digits, zero-bit_xor}

zero-bit_and : (b : ℕ) → bit_and 0 b ≡ 0
zero-bit_and b = bit_and-bitwise 0 b

bit_and_digits : (a b : ℕ) → bit_and a b ≡ bit_and (a / 2) (b / 2) * 2 + min (a % 2) (b % 2)
bit_and_digits a b = omega (
  arith,
  bit_and-bitwise a b,
  bit_and-bitwise (a / 2) (b / 2),
  lowest_digit (λ y. zero) min (λ y. omega arith) a b,
)

bit_and-xor_fuel :
    (n a b m : ℕ) → a + b ≤ n → bit_and (bit_xor a b) m ≡ bit_xor (bit_and a m) (bit_and b m)
bit_and-xor_fuel zero a b m h =
    let ha : a ≡ 0 = omega arith in
    let hb : b ≡ 0 = omega arith in rw (ha, hb, zero-bit_xor, zero-bit_and, zero-bit_xor) refl
bit_and-xor_fuel (suc n) zero b m h =
    rw (zero-bit_xor b, zero-bit_and m, zero-bit_xor (bit_and b m)) refl
bit_and-xor_fuel (suc n) (suc a) b m h =
    let x = bit_and (suc a) m in
    let y = bit_and b m in
    let hx : x / 2 ≡ bit_and (suc a / 2) (m / 2) = omega (arith, bit_and_digits (suc a) m) in
    let hy : y / 2 ≡ bit_and (b / 2) (m / 2) = omega (arith, bit_and_digits b m) in
    let hz : bit_xor (suc a) b / 2 ≡ bit_xor (suc a / 2) (b / 2) =
      omega (arith, bit_xor_digits (suc a) b) in
    omega (
      arith,
      bit_and_digits (bit_xor (suc a) b) m,
      bit_xor_digits (suc a) b,
      bit_xor_digits x y,
      bit_and_digits (suc a) m,
      bit_and_digits b m,
      ap (λ v. bit_and v (m / 2)) hz,
      ap (λ v. bit_xor v (y / 2)) hx,
      ap (bit_xor (bit_and (suc a / 2) (m / 2))) hy,
      bit_and-xor_fuel n (suc a / 2) (b / 2) (m / 2) (omega arith),
    )

pub bit_and-bit_xor : (a b m : ℕ) → bit_and (bit_xor a b) m ≡ bit_xor (bit_and a m) (bit_and b m)
bit_and-bit_xor a b m = bit_and-xor_fuel (a + b) a b m (omega arith)

bit_and_twice_fuel : (n a m : ℕ) → a ≤ n → bit_and (bit_and a m) m ≡ bit_and a m
bit_and_twice_fuel n zero m h = rw (zero-bit_and m) (zero-bit_and m)
bit_and_twice_fuel zero (suc a) m h = absurd (omega arith)
bit_and_twice_fuel (suc n) (suc a) m h =
    let x = bit_and (suc a) m in
    let hx : x / 2 ≡ bit_and (suc a / 2) (m / 2) = omega (arith, bit_and_digits (suc a) m) in
    omega (
      arith,
      bit_and_digits x m,
      bit_and_digits (suc a) m,
      ap (λ v. bit_and v (m / 2)) hx,
      bit_and_twice_fuel n (suc a / 2) (m / 2) (omega arith),
    )

pub bit_and_twice : (a m : ℕ) → bit_and (bit_and a m) m ≡ bit_and a m
bit_and_twice a m = bit_and_twice_fuel a a m (omega arith)

bit_and_le_fuel : (n a m : ℕ) → a ≤ n → bit_and a m ≤ m
bit_and_le_fuel n zero m h = omega (arith, zero-bit_and m)
bit_and_le_fuel zero (suc a) m h = absurd (omega arith)
bit_and_le_fuel (suc n) (suc a) m h =
    omega (arith, bit_and_digits (suc a) m, bit_and_le_fuel n (suc a / 2) (m / 2) (omega arith))

pub bit_and_le : (a m : ℕ) → bit_and a m ≤ m
bit_and_le a m = bit_and_le_fuel a a m (omega arith)

bit_or_comm_fuel : (n a b : ℕ) → a + b ≤ n → bit_or a b ≡ bit_or b a
bit_or_comm_fuel zero a b h =
    let ha : a ≡ 0 = omega arith in let hb : b ≡ 0 = omega arith in rw (ha, hb) refl
bit_or_comm_fuel (suc n) zero zero h = refl
bit_or_comm_fuel (suc n) zero (suc b) h = omega (
  arith,
  bit_or_halves 0 (suc b),
  bit_or_halves (suc b) 0,
  bit_or_comm_fuel n 0 (suc b / 2) (omega arith),
)
bit_or_comm_fuel (suc n) (suc a) b h = omega (
  arith,
  bit_or_halves (suc a) b,
  bit_or_halves b (suc a),
  bit_or_comm_fuel n (suc a / 2) (b / 2) (omega arith),
)

pub bit_or_comm : (a b : ℕ) → bit_or a b ≡ bit_or b a
bit_or_comm a b = bit_or_comm_fuel (a + b) a b (omega arith)

-- Every second bit of 2 * k.
abbrev pub second_bits : ℕ → ℕ
second_bits zero = 0
second_bits (suc k) = second_bits k * 4 + 1

-- The even bits of a word, and its odd bits in front of the even ones.
bit_and-second_bits :
    (k v : ℕ) → bit_and v (second_bits (suc k)) ≡ bit_and (v / 4) (second_bits k) * 4 + v % 2
bit_and-second_bits k v =
    let m = second_bits k in
    let h : (m * 4 + 1) / 2 ≡ m * 2 = omega arith in
    let h' : (m * 2) / 2 ≡ m = omega arith in
    let q : v / 2 / 2 ≡ v / 4 = omega arith in
    omega (
      arith,
      bit_and_digits v (m * 4 + 1),
      ap (bit_and (v / 2)) h,
      bit_and_digits (v / 2) (m * 2),
      ap (bit_and (v / 2 / 2)) h',
      ap (λ w. bit_and w m) q,
    )

-- Two digits of `|`, where the first word has the even ones and the second the odd ones.
bit_or_pair :
    (x y a b : ℕ)
    → a < 2
    → b < 2
    → bit_or (x * 4 + a) (y * 8 + b * 2) ≡ bit_or x (y * 2) * 4 + b * 2 + a
bit_or_pair x y a b ha hb =
    let p : (x * 4 + a) / 2 ≡ x * 2 = omega arith in
    let q : (y * 8 + b * 2) / 2 ≡ y * 4 + b = omega arith in
    let p' : x * 2 / 2 ≡ x = omega arith in
    let q' : (y * 4 + b) / 2 ≡ y * 2 = omega arith in
    omega (
      arith,
      bit_or_halves (x * 4 + a) (y * 8 + b * 2),
      ap (λ w. bit_or w ((y * 8 + b * 2) / 2)) p,
      ap (bit_or (x * 2)) q,
      bit_or_halves (x * 2) (y * 4 + b),
      ap (λ w. bit_or w ((y * 4 + b) / 2)) p',
      ap (bit_or x) q',
    )

-- The two halves joined are the word.
pub join-second_bits :
    (k v : ℕ)
    → v < 4 ^ k
    → bit_or (bit_and v (second_bits k)) (bit_and (v / 2) (second_bits k) * 2) ≡ v
join-second_bits zero v h = let e : v ≡ 0 = omega arith in rw e refl
join-second_bits (suc k) v h =
    let m = second_bits k in
    let x = bit_and (v / 4) m in
    let y = bit_and (v / 4 / 2) m in
    let q : v / 2 / 4 ≡ v / 4 / 2 = omega arith in
    let e₁ : bit_and v (second_bits (suc k)) ≡ x * 4 + v % 2 = bit_and-second_bits k v in
    let e₂ : bit_and (v / 2) (second_bits (suc k)) * 2 ≡ y * 8 + v / 2 % 2 * 2 =
      omega (arith, bit_and-second_bits k (v / 2), ap (λ w. bit_and w m) q) in
    let i = join-second_bits k (v / 4) (omega (arith, pow-suc 4 k)) in
    rw (e₁, e₂) (omega (arith, bit_or_pair x y (v % 2) (v / 2 % 2) (omega arith) (omega arith), i))
