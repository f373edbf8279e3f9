-- ===== src/Fluxpulse/Cells.antt =====
-- util/src/fluxpulse.rs: durations back to cells, with room for half a cell of error.
use stm32_usbfloppy_tracer.Base.{
  Bit, List, [], arith, false, inr, lt_i32, replicate, some, sub32, suc, true, u32, zero, ℕ, ◌*◌,
  ◌++◌, ◌+◌, ◌-◌, ◌/◌, ◌<◌, ◌∷◌, ◌≡◌, ◌≤◌, ◌⊎◌,
}
use stm32_usbfloppy_tracer.Fluxpulse.{feed_to_cells, half_i32, to_cells, to_cells_loop}

-- The cells of a flux reversal `n + 1` cells after the one before.
abbrev pub gap : ℕ → List Bit
gap n = replicate n false ++ (true ∷ [])

-- A round of the loop, where more than one and a half cells are left.
long_enough :
    (c duration : ℕ)
    → c + c / 2 < duration
    → duration < 2147483648
    → (lt_i32 (u32 (c + half_i32 c)) duration ≡ true) × (sub32 duration c ≡ duration - c)
long_enough c duration h hd = (ground arith, ground arith)

to_cells_loop-gap :
    (n fuel c duration : ℕ)
    → 0 < c
    → c + c / 2 < 2147483648
    → duration < 2147483648
    → n < fuel
    → (n ≡ 0) ⊎ (n * c + c / 2 < duration)
    → duration ≤ suc n * c + c / 2
    → to_cells_loop fuel c duration ≡ some (gap n)
unfolding to_cells_loop
to_cells_loop-gap n zero c duration hc hb hd hf lo hi = absurd (omega arith)
to_cells_loop-gap zero (suc fuel) c duration hc hb hd hf lo hi = ground arith
to_cells_loop-gap (suc n) (suc fuel) c duration hc hb hd hf lo hi =
    let more : suc n * c + c / 2 < duration = ground arith in
    let (test, less) = long_enough c duration (omega arith) hd in
    rw (test, less)
      (rw (
        to_cells_loop-gap n fuel c (duration - c) hc hb (omega arith) (omega arith)
          (inr (omega arith)) (omega arith)))

le_product : (n c : ℕ) → 0 < c → n ≤ n * c
le_product n c h = grind arith

-- A duration nearer to `n + 1` cells than to any other number of them is read as `n` zeros and a
-- one, and the loop ends. The upper end of the range, an odd half cell, belongs to it.
pub feed_to_cells-gap :
    (n c duration : ℕ)
    → 0 < c
    → c + c / 2 < 2147483648
    → duration < 2147483648
    → (n ≡ 0) ⊎ (n * c + c / 2 < duration)
    → duration ≤ suc n * c + c / 2
    → feed_to_cells c duration ≡ some (gap n)
unfolding feed_to_cells
feed_to_cells-gap n c duration hc hb hd lo hi =
    to_cells_loop-gap n (suc duration) c duration hc hb hd (ground (arith, le_product n c hc)) lo hi

-- One duration more.
pub to_cells-cons :
    (c p : ℕ) (ps : List ℕ) (cells rest : List Bit)
    → feed_to_cells c p ≡ some cells
    → to_cells c ps ≡ some rest
    → to_cells c (p ∷ ps) ≡ some (cells ++ rest)
unfolding to_cells
to_cells-cons c p ps cells rest e e' = ground arith
