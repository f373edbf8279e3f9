-- ===== src/Base/Words.antt =====
-- Machine words as native numbers. A value of w bits is a number below 2 ^ w, an i32 is its bit
-- pattern, and every operation that can leave the range wraps. `x >> k` is `x / 2 ^ k` and
-- `x & (2 ^ k - 1)` is `x % 2 ^ k`, which are exact on numbers.
use Prim.Native.Nat.{ℕ, ◌+◌, ◌-◌, ◌*◌, ◌/◌, ◌%◌, ◌^◌, ◌<◌}
use mathlib.Core.Path.{◌≡◌, refl, ap}
use mathlib.Core.Bool.{Bool, true, false}
use mathlib.Core.List.{List, [], ◌∷◌, ◌++◌}
use native.Mathlib.Omega.{arith}
use stm32_usbfloppy_tracer.Base.Tests.{ltb, leb, ◌==◌}
use stm32_usbfloppy_tracer.Base.Lists.{length}
use native.Mathlib.Nat.{pow-suc}

abbrev pub u8 : ℕ → ℕ
u8 n = n % 256

abbrev pub IsU8 : ℕ → Type 0
IsU8 n = n < 256

abbrev pub u16 : ℕ → ℕ
u16 n = n % 65536

abbrev pub u32 : ℕ → ℕ
u32 n = n % 4294967296

abbrev pub u64 : ℕ → ℕ
u64 n = n % 18446744073709551616

abbrev pub IsU32 : ℕ → Type 0
IsU32 n = n < 4294967296

-- a - b of two 32-bit words, wrapping.
abbrev pub sub32 : ℕ → ℕ → ℕ
sub32 a b = (a + 4294967296 - b) % 4294967296

-- The order of two i32 patterns: adding 2 ^ 31 turns the signed order into the plain one.
abbrev pub le_i32 : ℕ → ℕ → Bool
le_i32 a b = leb ((a + 2147483648) % 4294967296) ((b + 2147483648) % 4294967296)

abbrev pub lt_i32 : ℕ → ℕ → Bool
lt_i32 a b = ltb ((a + 2147483648) % 4294967296) ((b + 2147483648) % 4294967296)

-- `struct Bit(pub bool)`.
abbrev pub Bit : Type 0
Bit = Bool

abbrev pub bit_value : Bit → ℕ
bit_value true = 1
bit_value false = 0

-- `(w & (1 << k)) != 0`, with `2 ^ k` given.
abbrev pub has_bit : ℕ → ℕ → Bool
has_bit mask w = (w / mask) % 2 == 1

-- The number that bits spell, most significant first, behind the bits of `acc`.
unfoldable pub bits_value : ℕ → List Bit → ℕ
bits_value acc [] = acc
bits_value acc (b ∷ bs) = bits_value (acc * 2 + bit_value b) bs

pub bits_value-append :
    (acc : ℕ) (xs ys : List Bit) → bits_value acc (xs ++ ys) ≡ bits_value (bits_value acc xs) ys
unfolding bits_value
bits_value-append acc [] ys = refl
bits_value-append acc (x ∷ xs) ys = bits_value-append (acc * 2 + bit_value x) xs ys

-- What stands in front of bits is shifted by their number.
pub bits_value-shift :
    (y : ℕ) (bs : List Bit) → bits_value y bs ≡ y * 2 ^ length bs + bits_value 0 bs
unfolding bits_value
bits_value-shift y [] = omega arith
bits_value-shift y (b ∷ bs) = omega (
  arith,
  bits_value-shift (y * 2 + bit_value b) bs,
  bits_value-shift (0 * 2 + bit_value b) bs,
  pow-suc 2 (length bs),
  ap (λ (t : ℕ). y * t) (pow-suc 2 (length bs)),
)

pub bit_value-lt : (b : Bit) → bit_value b < 2
bit_value-lt true = omega arith
bit_value-lt false = omega arith
