-- ===== src/Base/Digits.antt =====
-- The word operations of the machine are one recursion on binary digits; here is its equation
-- for the lowest digit, for any digit operation.
use Prim.Native.Nat.{ℕ, zero, suc, ◌+◌, ◌*◌, ◌/◌, ◌%◌, ◌≤◌, ◌-◌, digits, bitwise}
use mathlib.Core.Path.{◌≡◌, refl, ap, ◌∙◌}
use native.Mathlib.Omega.{arith}

module _ (rest : ℕ → ℕ) (op : ℕ → ℕ → ℕ)
    (at_zero : (y : ℕ) → rest y ≡ rest (y / 2) * 2 + op 0 (y % 2)) where
  one_more : (fuel x y : ℕ) → x ≤ fuel → digits rest op (suc fuel) x y ≡ digits rest op fuel x y
  one_more zero zero y h = refl
  one_more (suc fuel) zero y h = refl
  one_more zero (suc x) y h = absurd (omega arith)
  one_more (suc fuel) (suc x) y h = omega (arith, one_more fuel (suc x / 2) (y / 2) (omega arith))

  enough :
      (extra fuel x y : ℕ) → x ≤ fuel → digits rest op (extra + fuel) x y ≡ digits rest op fuel x y
  enough zero fuel x y h =
      let none_more : 0 + fuel ≡ fuel = omega arith in ap (λ n. digits rest op n x y) none_more
  enough (suc extra) fuel x y h =
      let one_less : suc extra + fuel ≡ suc (extra + fuel) = omega arith in
      ap (λ n. digits rest op n x y) one_less
      ∙ one_more (extra + fuel) x y (omega arith)
      ∙ enough extra fuel x y h

  pub lowest_digit :
      (x y : ℕ) → bitwise rest op x y ≡ bitwise rest op (x / 2) (y / 2) * 2 + op (x % 2) (y % 2)
  lowest_digit zero y = at_zero y
  lowest_digit (suc x) y =
      let half = suc x / 2 in
      let total : x ≡ (x - half) + half = omega arith in
      ap (λ fuel. digits rest op fuel half (y / 2) * 2 + op (suc x % 2) (y % 2)) total
      ∙ omega (arith, enough (x - half) half half (y / 2) (omega arith))
