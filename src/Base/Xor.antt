-- ===== src/Base/Xor.antt =====
-- `^` by its digits: what the block checksums need.
use Prim.Native.Nat.{
  ℕ, zero, suc, ◌+◌, ◌*◌, ◌/◌, ◌%◌, ◌^◌, ◌≤◌, ◌<◌, bit_xor, differ, bit_xor-bitwise,
}
use mathlib.Core.Path.{◌≡◌, refl, sym, ap, ◌∙◌}
use native.Mathlib.Nat.{pow-suc}
use native.Mathlib.Omega.{arith}
use stm32_usbfloppy_tracer.Base.Digits.{lowest_digit}

pub zero-bit_xor : (b : ℕ) → bit_xor 0 b ≡ b
zero-bit_xor b = bit_xor-bitwise 0 b

differ_digits : (x y : ℕ) → x < 2 → y < 2 → differ x y ≡ (x + y) % 2
differ_digits zero zero p q = refl
differ_digits zero (suc zero) p q = refl
differ_digits (suc zero) zero p q = refl
differ_digits (suc zero) (suc zero) p q = refl
differ_digits (suc (suc x)) y p q = absurd (omega arith)
differ_digits x (suc (suc y)) p q = absurd (omega arith)

first_digit : (y : ℕ) → y ≡ y / 2 * 2 + differ 0 (y % 2)
first_digit y = omega (arith, differ_digits 0 (y % 2) (omega arith) (omega arith))

-- The lowest digit, and the rest.
pub bit_xor_digits : (a b : ℕ) → bit_xor a b ≡ bit_xor (a / 2) (b / 2) * 2 + (a + b) % 2
bit_xor_digits a b = omega (
  arith,
  bit_xor-bitwise a b,
  bit_xor-bitwise (a / 2) (b / 2),
  differ_digits (a % 2) (b % 2) (omega arith) (omega arith),
  lowest_digit (λ y. y) differ first_digit a b,
)

bit_xor-half : (a b : ℕ) → bit_xor a b / 2 ≡ bit_xor (a / 2) (b / 2)
bit_xor-half a b = omega (arith, bit_xor_digits a b)

bit_xor_self_fuel : (n a : ℕ) → a ≤ n → bit_xor a a ≡ 0
bit_xor_self_fuel n zero h = zero-bit_xor 0
bit_xor_self_fuel zero (suc a) h = absurd (omega arith)
bit_xor_self_fuel (suc n) (suc a) h =
    omega (arith, bit_xor_digits (suc a) (suc a), bit_xor_self_fuel n (suc a / 2) (omega arith))

pub bit_xor_self : (a : ℕ) → bit_xor a a ≡ 0
bit_xor_self a = bit_xor_self_fuel a a (omega arith)

bit_xor_assoc_fuel :
    (n a b c : ℕ) → a + b + c ≤ n → bit_xor (bit_xor a b) c ≡ bit_xor a (bit_xor b c)
bit_xor_assoc_fuel zero a b c h =
    let ha : a ≡ 0 = omega arith in
    let hb : b ≡ 0 = omega arith in let hc : c ≡ 0 = omega arith in rw (ha, hb, hc) refl
bit_xor_assoc_fuel (suc n) zero b c h = rw (zero-bit_xor b, zero-bit_xor (bit_xor b c)) refl
bit_xor_assoc_fuel (suc n) (suc a) b c h = omega (
  arith,
  bit_xor_digits (bit_xor (suc a) b) c,
  bit_xor_digits (suc a) (bit_xor b c),
  bit_xor_digits (suc a) b,
  bit_xor_digits b c,
  ap (λ v. bit_xor v (c / 2)) (bit_xor-half (suc a) b),
  ap (bit_xor (suc a / 2)) (bit_xor-half b c),
  bit_xor_assoc_fuel n (suc a / 2) (b / 2) (c / 2) (omega arith),
)

pub bit_xor_assoc : (a b c : ℕ) → bit_xor (bit_xor a b) c ≡ bit_xor a (bit_xor b c)
bit_xor_assoc a b c = bit_xor_assoc_fuel (a + b + c) a b c (omega arith)

bit_xor_comm_fuel : (n a b : ℕ) → a + b ≤ n → bit_xor a b ≡ bit_xor b a
bit_xor_comm_fuel zero a b h =
    let ha : a ≡ 0 = omega arith in let hb : b ≡ 0 = omega arith in rw (ha, hb) refl
bit_xor_comm_fuel (suc n) zero zero h = refl
bit_xor_comm_fuel (suc n) zero (suc b) h = omega (
  arith,
  bit_xor_digits 0 (suc b),
  bit_xor_digits (suc b) 0,
  bit_xor_comm_fuel n 0 (suc b / 2) (omega arith),
)
bit_xor_comm_fuel (suc n) (suc a) b h = omega (
  arith,
  bit_xor_digits (suc a) b,
  bit_xor_digits b (suc a),
  bit_xor_comm_fuel n (suc a / 2) (b / 2) (omega arith),
)

pub bit_xor_comm : (a b : ℕ) → bit_xor a b ≡ bit_xor b a
bit_xor_comm a b = bit_xor_comm_fuel (a + b) a b (omega arith)

-- Words of k bits stay words of k bits.
pub bit_xor-below : (k a b : ℕ) → a < 2 ^ k → b < 2 ^ k → bit_xor a b < 2 ^ k
bit_xor-below zero a b p q =
    let ha : a ≡ 0 = omega arith in
    let hb : b ≡ 0 = omega arith in
    omega (arith, zero-bit_xor 0, ap (bit_xor a) hb, ap (λ v. bit_xor v 0) ha)
bit_xor-below (suc k) a b p q =
    let e = pow-suc 2 k in
    omega (
      arith,
      e,
      bit_xor_digits a b,
      bit_xor-below k (a / 2) (b / 2) (omega (arith, e)) (omega (arith, e)),
    )

pub bit_xor-zero : (a : ℕ) → bit_xor a 0 ≡ a
bit_xor-zero a = bit_xor_comm a 0 ∙ zero-bit_xor a

-- A pair of words that is taken in between two others.
pub bit_xor_swap :
    (a b c d : ℕ) → bit_xor (bit_xor a b) (bit_xor c d) ≡ bit_xor (bit_xor a c) (bit_xor b d)
bit_xor_swap a b c d =
    bit_xor_assoc a b (bit_xor c d)
    ∙ ap (bit_xor a)
        (sym (bit_xor_assoc b c d) ∙ ap (λ v. bit_xor v d) (bit_xor_comm b c) ∙ bit_xor_assoc c b d)
    ∙ sym (bit_xor_assoc a c (bit_xor b d))
