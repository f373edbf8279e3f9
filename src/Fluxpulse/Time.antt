-- ===== src/Fluxpulse/Time.antt =====
-- util/src/fluxpulse.rs: the generator loses no time, in any of its modes.
use stm32_usbfloppy_tracer.Base.{
  Bit, Bool-cases, IsU32, List, [], ap, arith, false, if◌then◌else◌, inl, inr, length, refl, run,
  suc, u32, ℕ, ◌%◌, ◌*◌, ◌++◌, ◌+◌, ◌==◌, ◌∙◌, ◌∷◌, ◌≡◌,
}
use stm32_usbfloppy_tracer.Fluxpulse.{FluxPulseGenerator, feed, five_zeros, flush}

abbrev pub total : List ℕ → ℕ
total [] = 0
total (p ∷ ps) = p + total ps

pub total-append : (xs ys : List ℕ) → total (xs ++ ys) ≡ total xs + total ys
total-append [] ys = omega arith
total-append (x ∷ xs) ys = omega (arith, total-append xs ys)

-- The fields are 32-bit words.
pub record IsWord (g : FluxPulseGenerator) : Type 0 where
  pub duration : IsU32 g.cell_duration
  pub accumulator : IsU32 g.pulse_accumulator
  pub compensation : IsU32 g.precompensation

-- One step adds one cell's duration to what is written and kept, modulo 2 ^ 32.
record Keeps (g : FluxPulseGenerator) (r : FluxPulseGenerator × List ℕ) (cells : ℕ) : Type 0 where
  time :
      u32 (total r.1 + r.0.pulse_accumulator) ≡ u32 (g.pulse_accumulator + cells * g.cell_duration)
  duration : r.0.cell_duration ≡ g.cell_duration
  word : IsWord r.0

feed-Keeps : (g : FluxPulseGenerator) (cell : Bit) → IsWord g → Keeps g (feed g cell) 1
unfolding feed
feed-Keeps g cell h = ground arith

add_times :
    (o₁ o₂ a₀ a₁ a₂ d d₁ n : ℕ)
    → d₁ ≡ d
    → u32 (o₁ + a₁) ≡ u32 (a₀ + 1 * d)
    → u32 (o₂ + a₂) ≡ u32 (a₁ + n * d₁)
    → u32 (o₁ + o₂ + a₂) ≡ u32 (a₀ + suc n * d)
add_times o₁ o₂ a₀ a₁ a₂ d d₁ n e now later = omega (arith, ap (λ (t : ℕ). n * t) e)

run-Keeps :
    (cells : List Bit) (g : FluxPulseGenerator)
    → IsWord g
    → Keeps g (run feed g cells) (length cells)
unfolding run
run-Keeps [] g h = record { time = omega (arith, h.accumulator); duration = refl; word = h }
run-Keeps (c ∷ cells) g h =
    let now = feed-Keeps g c h in
    let later = run-Keeps cells (feed g c).0 now.word in
    record {
      time = rw (total-append (feed g c).1 (run feed (feed g c).0 cells).1) (
          add_times _ _ g.pulse_accumulator (feed g c).0.pulse_accumulator _ g.cell_duration _
            (length cells) now.duration now.time later.time);
      duration = later.duration ∙ now.duration;
      word = later.word;
    }

-- Over any cells, in any mode and with any precompensation, the durations that are written and the
-- time still held add up to what was held before and a cell's duration for each cell, modulo 2 ^ 32.
pub run_time :
    (g : FluxPulseGenerator) (cells : List Bit)
    → IsWord g
    → u32 (total (run feed g cells).1 + (run feed g cells).0.pulse_accumulator)
      ≡ u32 (g.pulse_accumulator + length cells * g.cell_duration)
run_time g cells h = (run-Keeps cells g h).time

-- A flush keeps the time too: it feeds five cells where the window still holds a flux reversal, and
-- none where it does not.
pub flush_time :
    (g : FluxPulseGenerator)
    → IsWord g
    → u32 (total (flush g).1 + (flush g).0.pulse_accumulator)
      ≡ u32 (g.pulse_accumulator + (if g.shift_word % 32 == 0 then 0 else 5) * g.cell_duration)
unfolding flush
flush_time g h = elim (Bool-cases (g.shift_word % 32 == 0)) [
  | inl empty ↦ rw empty (omega (arith, h.accumulator))
  | inr full ↦ rw full (
      run_time
        (record g { enable_non_flux_reversal_generator = false; enable_weak_bit_generator = false })
        five_zeros
        (record {
          duration = h.duration;
          accumulator = h.accumulator;
          compensation = h.compensation;
        }))
]
