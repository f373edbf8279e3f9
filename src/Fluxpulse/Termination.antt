-- ===== src/Fluxpulse/Termination.antt =====
-- util/src/fluxpulse.rs: the reader of pulses ends.
use stm32_usbfloppy_tracer.Fluxpulse.{feed_to_cells, half_i32, to_cells, to_cells_loop}
use stm32_usbfloppy_tracer.Fluxpulse.Cells.{to_cells-cons}
use stm32_usbfloppy_tracer.Base.{
  All, Bit, Bool-cases, IsU8, List, [], arith, false, inl, inr, lt_i32, map, refl, some, sub32, suc,
  true, u32, zero, ℕ, ◌*◌, ◌++◌, ◌+◌, ◌-◌, ◌/◌, ◌<◌, ◌∷◌, ◌≡◌,
}

to_cells_loop_more :
    (fuel c duration less : ℕ) (cells : List Bit)
    → lt_i32 (u32 (c + half_i32 c)) duration ≡ true
    → sub32 duration c ≡ less
    → to_cells_loop fuel c less ≡ some cells
    → to_cells_loop (suc fuel) c duration ≡ some (false ∷ cells)
unfolding to_cells_loop
to_cells_loop_more fuel c duration less cells e d q = rw (e, d, q) refl

-- With a positive cell duration every round takes time off.
to_cells_loop_ends :
    (fuel c duration : ℕ)
    → 0 < c
    → c + c / 2 < 2147483648
    → duration < 2147483648
    → duration < fuel
    → (cells : List Bit) × (to_cells_loop fuel c duration ≡ some cells)
unfolding to_cells_loop
to_cells_loop_ends zero c duration hc hb hd hf = absurd (omega arith)
to_cells_loop_ends (suc fuel) c duration hc hb hd hf =
    elim (Bool-cases (lt_i32 (u32 (c + half_i32 c)) duration)) [
      | inl e ↦
          let less : c < duration = ground arith in
          let (cells, q) =
            to_cells_loop_ends fuel c (duration - c) hc hb (omega arith) (omega arith) in
          (
            false ∷ cells,
            to_cells_loop_more fuel c duration (duration - c) cells e (omega (arith, less)) q,
          )
      | inr e ↦ (true ∷ [], rw e refl)
    ]

-- The reader at a positive cell duration ends on any pulses.
pub to_cells_ends :
    (c : ℕ) (ps : List ℕ)
    → 0 < c
    → c + c / 2 < 2147483648
    → All (λ p. p < 2147483648) ps
    → (cells : List Bit) × (to_cells c ps ≡ some cells)
unfolding to_cells
to_cells_ends c [] hc hb h = ([], refl)
to_cells_ends c (p ∷ ps) hc hb (hp, h) =
    let (now, e) = to_cells_loop_ends (suc p) c p hc hb hp (omega arith) in
    let (later, e') = to_cells_ends c ps hc hb h in
    (now ++ later, to_cells-cons c p ps now later (unfold feed_to_cells in e) e')

-- Pulses that come as bytes, in units of 8 ticks.
pub small_pulses :
    (track : List ℕ) → All IsU8 track → All (λ p. p < 2147483648) (map (λ f. f * 8) track)
small_pulses [] h = tt
small_pulses (f ∷ track) (p, h) = (omega arith, small_pulses track h)
