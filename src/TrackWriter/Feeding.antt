-- ===== src/TrackWriter/Feeding.antt =====
-- firmware/src/track_raw.rs, `feed_mfm_raw_iterator_to_writer`: the queue takes the generator's pulses
-- in order, and has room for them.
use stm32_usbfloppy_tracer.Fluxpulse
use stm32_usbfloppy_tracer.Fluxpulse.{
  FluxPulseGenerator, feed_non_flux_reversal, feed_reversal, feed_weak, five_zeros, flush,
  shift_cell, weak_cell_len,
}
use mathlib.Core.List.{map-append}
use stm32_usbfloppy_tracer.TrackWriter.{ok}
use stm32_usbfloppy_tracer.TrackWriter.Writing.{Device, enqueue, feed_cells}
use stm32_usbfloppy_tracer.TrackWriter.Interrupts.{stream}
use stm32_usbfloppy_tracer.Drive.Stepper.{Wires}
use stm32_usbfloppy_tracer.Base.{
  Bit, Bool, List, [], append-nil, append_assoc, arith, false, has_bit, if◌then◌else◌, le_i32,
  length, length-append, lt→ltb, map, run, true, u16, ℕ, ◌%◌, ◌++◌, ◌+◌, ◌==◌, ◌∙◌, ◌∷◌, ◌≡◌, ◌≤◌,
}

record Short (n : ℕ) (r : FluxPulseGenerator × List ℕ) : Type 0 where
  bound : length r.1 ≤ n

if-Short :
    (n : ℕ) (b : Bool) (x y : FluxPulseGenerator × List ℕ)
    → Short n x
    → Short n y
    → Short n (if b then x else y)
if-Short n true x y h k = h
if-Short n false x y h k = k

one-Short : (g : FluxPulseGenerator) (f : ℕ) → Short 1 (g, f ∷ [])
one-Short g f = record { bound = omega arith }

none-Short : (n : ℕ) (g : FluxPulseGenerator) → Short n (g, [])
none-Short n g = record { bound = omega arith }

-- A cell makes one pulse at most.
feed-Short : (g : FluxPulseGenerator) (cell : Bit) → Short 1 (Fluxpulse.feed g cell)
unfolding Fluxpulse.feed
feed-Short g cell =
    let g' = shift_cell g cell in
    if-Short 1 g'.special_generator_state _ _
      (if-Short 1 g'.enable_weak_bit_generator _ _
        (unfold feed_weak in
          if-Short 1 (le_i32 (weak_cell_len g'.cell_duration) g'.pulse_accumulator) _ _
            (one-Short _ _) (none-Short 1 _))
        (if-Short 1 g'.enable_non_flux_reversal_generator _ _
          (unfold feed_non_flux_reversal in one-Short _ _) (none-Short 1 _)))
      (if-Short 1 (has_bit 32 g'.shift_word) _ _ (unfold feed_reversal in one-Short _ _)
        (none-Short 1 _))

length-feed : (g : FluxPulseGenerator) (cell : Bit) → length (Fluxpulse.feed g cell).1 ≤ 1
length-feed g cell = (feed-Short g cell).bound

pub length-run :
    (g : FluxPulseGenerator) (cells : List Bit)
    → length (run Fluxpulse.feed g cells).1 ≤ length cells
unfolding run
length-run g [] = omega arith
length-run g (cell ∷ cells) =
    let r = Fluxpulse.feed g cell in
    let whole = length-append r.1 (run Fluxpulse.feed r.0 cells).1 in
    omega (arith, whole, length-feed g cell, length-run r.0 cells)

pub length-flush : (g : FluxPulseGenerator) → length (Fluxpulse.flush g).1 ≤ 5
unfolding Fluxpulse.flush
length-flush g =
    (if-Short 5 (g.shift_word % 32 == 0) _ _ (none-Short 5 _)
      (record { bound = length-run _ five_zeros })).bound

module _ {W : Type 0} where
  -- The device with pulses put into the queue.
  abbrev pub queued : Device W → List ℕ → Device W
  queued d fs = record d { writer = record (d.writer) { cons = d.writer.cons ++ fs } }

  pub queued-stream : (d : Device W) (fs : List ℕ) → stream (queued d fs) ≡ stream d ++ map u16 fs
  queued-stream d fs = simp (map-append, append_assoc)

module _ {W : Type 0} (io : Wires W) (capacity : ℕ) where
  pub enqueue-queued :
      (fs : List ℕ) (d : Device W)
      → length d.writer.cons + length fs ≤ capacity
      → enqueue io capacity fs d ≡ ok (queued d fs)
  unfolding enqueue
  enqueue-queued [] d room = simp append-nil
  enqueue-queued (f ∷ fs) d room =
      let d' = queued d (f ∷ []) in
      let one = length-append d.writer.cons (f ∷ []) in
      rw (lt→ltb (length d.writer.cons) capacity (omega arith))
        (enqueue-queued fs d' (omega (arith, one)) ∙ simp append_assoc)

  -- The result of cells on the queue.
  pub feed_cells-queued :
      (g : FluxPulseGenerator) (cells : List Bit) (d : Device W)
      → length d.writer.cons + length cells ≤ capacity
      → feed_cells io capacity g cells d
        ≡ ok ((run Fluxpulse.feed g cells).0, queued d (run Fluxpulse.feed g cells).1)
  unfolding feed_cells run
  feed_cells-queued g [] d room = simp append-nil
  feed_cells-queued g (cell ∷ cells) d room =
      let r = Fluxpulse.feed g cell in
      let more = length-feed g cell in
      let whole = length-append d.writer.cons r.1 in
      rw (enqueue-queued r.1 d (omega (arith, more))) (
        feed_cells-queued r.0 cells (queued d r.1) (omega (arith, more, whole)) ∙ simp append_assoc)
