-- ===== src/FluxWriter/Ending.antt =====
-- firmware/src/flux_writer.rs, `tim4_pulse_complete_callback`: how a transmission ends behind its last
-- pulse.
use native.Mathlib.Nat.{zero-add, add-zero, suc-add}
use stm32_usbfloppy_tracer.FluxWriter.{
  FluxWriter, count_last_pulse, force_inactive, swap_buffers, tim4_irq,
  tim4_pulse_complete_callback,
}
use stm32_usbfloppy_tracer.Base.{
  Outcome, Outcome-cases, ap, arith, done, false, inl, inr, length, lt→ltb, ne→==, refl, sub32, suc,
  true, zero, ℕ, ◌+◌, ◌-◌, ◌<◌, ◌>>=◌, ◌∙◌, ◌≡◌, ◌≤◌,
}

-- n timer interrupts.
unfoldable pub pulses_complete : ℕ → FluxWriter → Outcome {0} FluxWriter
pulses_complete zero s = done s
pulses_complete (suc n) s = tim4_irq true s >>= pulses_complete n

-- The count of the last pulses, with everything else as it was.
abbrev pub counted : ℕ → FluxWriter → FluxWriter
counted n s = record s { number_of_last_pulses = n }

irq-counted :
    (s : FluxWriter) (n : ℕ)
    → s.last_dma_frame_active ≡ true
    → 0 < n
    → n < 1000
    → tim4_irq true (counted (n + 1) s) ≡ done (counted n s)
unfolding tim4_irq tim4_pulse_complete_callback count_last_pulse
irq-counted s n last low high =
    let next : sub32 (n + 1) 1 ≡ n = omega arith in
    rw
      (
        last,
        next,
        ne→== n 0 (omega arith),
        ne→== n 4294967295 (omega arith),
        ne→== n 4294967294 (omega arith),
      )
      refl

pulses_complete-counted :
    (k n : ℕ) (s : FluxWriter)
    → s.last_dma_frame_active ≡ true
    → 0 < n
    → n + k < 1000
    → pulses_complete k (counted (n + k) s) ≡ done (counted n s)
unfolding pulses_complete
pulses_complete-counted zero n s last low high = rw add-zero refl
pulses_complete-counted (suc k) n s last low high =
    let one : n + suc k ≡ (n + k) + 1 = omega arith in
    rw (one, irq-counted s (n + k) last (omega arith) (omega arith))
      (pulses_complete-counted k n s last low (omega arith))

pulses_complete-add :
    (k m : ℕ) (s : FluxWriter)
    → pulses_complete (k + m) s ≡ (pulses_complete k s >>= pulses_complete m)
unfolding pulses_complete
pulses_complete-add zero m s = rw zero-add refl
pulses_complete-add (suc k) m s = rw suc-add (elim (Outcome-cases (tim4_irq true s)) [
  | inl (s', e) ↦ rw e (pulses_complete-add k m s')
  | inr (inl e) ↦ rw e refl
  | inr (inr e) ↦ rw e refl
])

-- The flux writer behind its last pulse.
abbrev pub ended : FluxWriter → FluxWriter
ended s = record s {
  number_of_last_pulses = 4294967294;
  dma_enabled = false;
  output = force_inactive;
  timer_enabled = false;
  write_gate = false;
}

last_three :
    (s : FluxWriter)
    → s.last_dma_frame_active ≡ true
    → pulses_complete 3 (counted 1 s) ≡ done (ended s)
unfolding pulses_complete tim4_irq tim4_pulse_complete_callback count_last_pulse
last_three s last = rw last refl

swap_buffers-counted :
    (s : FluxWriter)
    → length s.current_buffer < 16
    → ((swap_buffers s).last_dma_frame_active ≡ true)
      × (swap_buffers s ≡ counted (length s.current_buffer + 1) (swap_buffers s))
unfolding swap_buffers
swap_buffers-counted s short = rw (lt→ltb _ _ short) (refl, refl)

-- A swap that gives the DMA unit a buffer of n pulses, fewer than 16, ends the transmission: through
-- the next n timer interrupts only the count changes, and three more turn the DMA stream, the output,
-- and then the timer and the write gate off.
pub swap_buffers-ended :
    (s : FluxWriter)
    → length s.current_buffer < 16
    → ((k : ℕ)
        → k ≤ length s.current_buffer
        → pulses_complete k (swap_buffers s)
          ≡ done (counted ((length s.current_buffer - k) + 1) (swap_buffers s)))
      × (pulses_complete (length s.current_buffer + 3) (swap_buffers s)
          ≡ done (ended (swap_buffers s)))
swap_buffers-ended s short =
    let (last, count) = swap_buffers-counted s short in
    let s' = swap_buffers s in
    let n = length s.current_buffer in
    let down : (k : ℕ) → k ≤ n → pulses_complete k s' ≡ done (counted ((n - k) + 1) s') = λ k below.
      let whole : n + 1 ≡ ((n - k) + 1) + k = omega arith in
      ap (pulses_complete k) (count ∙ ap (λ m. counted m s') whole)
      ∙ pulses_complete-counted k ((n - k) + 1) s' last (omega arith) (omega arith) in
    let rest : (n - n) + 1 ≡ 1 = omega arith in
    (down, pulses_complete-add n 3 s' ∙ rw (down n (omega arith), rest) (last_three s' last))
