-- ===== src/TrackWriter/Writing.antt =====
-- firmware/src/track_raw.rs, `write_track` and `feed_mfm_raw_iterator_to_writer`, with the interrupts
-- of firmware/src/interrupts.rs that can come meanwhile. The queue to the flux writer is heapless',
-- which holds `capacity` items. Interrupts come at every `yield_now` and before every byte, as the
-- two lists of moments say; where the code waits and they have ended, the run stops there.
use stm32_usbfloppy_tracer.Fluxpulse
use stm32_usbfloppy_tracer.Drive.Control
use stm32_usbfloppy_tracer.FluxWriter.{
  FluxWriter, clear_buffers, dma1_stream6_irq, enable_write_head, prepare_transmit, start_transmit,
  tim4_irq, transmission_active,
}
use stm32_usbfloppy_tracer.Fluxpulse.{FluxPulseGenerator, flush}
use stm32_usbfloppy_tracer.TrackWriter.{RawTrackError, Result, err, no_index_pulse, ok}
use stm32_usbfloppy_tracer.Drive.Control.{FloppyControl, selected_is_spinning, spin_selected}
use stm32_usbfloppy_tracer.Drive.Stepper.{Wires}
use stm32_usbfloppy_tracer.CellData.{RawCellData, RawCellPart}
use stm32_usbfloppy_tracer.Bitstream.{to_bit_stream}
use stm32_usbfloppy_tracer.RawTrack.Writability.{at_duration}
use stm32_usbfloppy_tracer.Base.{
  Bit, Bool, List, Outcome, [], done, fail, false, if◌then◌else◌, length, ltb, not, panic, true, ℕ,
  ◌++◌, ◌∷◌,
}

pub data Interrupt : Type 0 where
  exti3 sys_tick : Interrupt
  tim4 : Bool → Interrupt
  dma1_stream6 : Bool → Bool → Interrupt

-- Why a run stops: a panic of the code, or moments that have ended.
pub data Stop : Type 0 where
  buffer_overflow underflow no_part unexpected_underflow program_flow moments_ended : Stop

-- `wires` is the pins of the stepper; `handed` is what the DMA unit has got, in order.
pub record Device (W : Type 0) : Type 0 where
  pub writer : FluxWriter
  pub control : FloppyControl
  pub wires : W
  pub index_occured : Bool
  pub start_transmit_on_index : Bool
  pub handed : List ℕ
  pub before_bytes : List (List Interrupt)
  pub at_yields : List (List Interrupt)

abbrev pub then_run : {A B : Type 0} → Result Stop A → (A → Result Stop B) → Result Stop B
then_run (ok a) f = f a
then_run (err e) f = err e

abbrev pub checked : {A : Type 0} → Outcome {0} A → Result Stop A
checked (done a) = ok a
checked fail = err program_flow
checked panic = err program_flow

-- `EXTI3`, the index: a transmission that waits for it starts. The flux reader's part is left out.
unfoldable pub index_irq : {W : Type 0} → Device W → Device W
index_irq d =
    let seen = record d { index_occured = true } in
    if d.start_transmit_on_index
    then record seen { start_transmit_on_index = false; writer = start_transmit d.writer }
    else seen

-- The writer behind `DMA1_STREAM6`, with the buffer that a swap gives to the DMA unit.
abbrev pub hand_over : {W : Type 0} → Bool → Device W → FluxWriter → Device W
hand_over complete d s = record d {
  writer = s;
  handed = if complete then d.handed ++ s.back_buffer else d.handed;
}

-- The generator as `write_track` sets it up.
abbrev pub writing_generator : ℕ → RawCellData → RawCellPart → FluxPulseGenerator
writing_generator write_precompensation track part = record (Fluxpulse.new part.cell_size) {
  precompensation = write_precompensation;
  enable_non_flux_reversal_generator = track.has_non_flux_reversal_area;
  enable_weak_bit_generator = not track.has_non_flux_reversal_area;
}

-- Behind the data, `flux_reader::BUFFER_SIZE` times two cells.
abbrev pub trailing_cells : List Bit
trailing_cells =
    false ∷ true ∷ false ∷ true ∷ false ∷ true ∷ false ∷ true ∷ false ∷ true ∷ false ∷ true ∷ false
    ∷ true ∷ false ∷ true ∷ []

-- The end of `write_track`, once the wait for the transmission is over.
abbrev pub when_transmitting :
    {W : Type 0}
    → RawCellData
    → (Device W → Result Stop (Device W))
    → Bool × Device W
    → Result Stop (Result RawTrackError RawCellData × Device W)
when_transmitting track go (true, d) = then_run (go d) (λ d'. ok (ok track, d'))
when_transmitting track go (false, d) = ok (err no_index_pulse, d)

module _ {W : Type 0} (io : Wires W) where
  unfoldable pub interrupt : Interrupt → Device W → Result Stop (Device W)
  unfolding index_irq
  interrupt exti3 d = ok (index_irq d)
  interrupt sys_tick d =
      then_run (checked (Control.run io d.control d.wires))
        (λ r. ok (record d { control = r.0; wires = r.1 }))
  interrupt (tim4 update_pending) d =
      then_run (checked (tim4_irq update_pending d.writer)) (λ s. ok (record d { writer = s }))
  interrupt (dma1_stream6 complete error) d =
      then_run (checked (dma1_stream6_irq complete error d.writer))
        (λ s. ok (hand_over complete d s))

  unfoldable pub interrupts : List Interrupt → Device W → Result Stop (Device W)
  interrupts [] d = ok d
  interrupts (i ∷ is) d = then_run (interrupt i d) (interrupts is)

  -- The interrupts that come before the next byte.
  unfoldable pub before_byte : List (List Interrupt) → Device W → Result Stop (Device W)
  before_byte [] d = ok d
  before_byte (moment ∷ moments) d = interrupts moment (record d { before_bytes = moments })

  -- `while write_prod_cell.len() > 70 { yield_now }`.
  unfoldable pub wait_for_room : List (List Interrupt) → Device W → Result Stop (Device W)
  wait_for_room [] d = if ltb 70 (length d.writer.cons) then err moments_ended else ok d
  wait_for_room (moment ∷ moments) d =
      if ltb 70 (length d.writer.cons)
      then then_run (interrupts moment (record d { at_yields = moments })) (wait_for_room moments)
      else ok d

  -- `async_wait_for_transmit`: true once the timer runs, false if the motor stops before.
  unfoldable pub wait_for_transmit :
      List (List Interrupt) → Device W → Result Stop (Bool × Device W)
  wait_for_transmit [] d =
      if transmission_active d.writer
      then ok (true, d)
      else (if selected_is_spinning d.control then err moments_ended else ok (false, d))
  wait_for_transmit (moment ∷ moments) d =
      if transmission_active d.writer
      then ok (true, d)
      else (if selected_is_spinning d.control
          then then_run (interrupts moment (record d { at_yields = moments }))
              (wait_for_transmit moments)
          else ok (false, d))

  -- The generator's sink: `enqueue(..).expect("Unexpected Buffer Overflow")`.
  unfoldable pub enqueue : ℕ → List ℕ → Device W → Result Stop (Device W)
  enqueue capacity [] d = ok d
  enqueue capacity (f ∷ fs) d =
      if ltb (length d.writer.cons) capacity
      then enqueue capacity fs
          (record d { writer = record (d.writer) { cons = d.writer.cons ++ f ∷ [] } })
      else err buffer_overflow

  -- Cells fed to the generator, whose pulses go to the queue.
  unfoldable pub feed_cells :
      ℕ → FluxPulseGenerator → List Bit → Device W → Result Stop (FluxPulseGenerator × Device W)
  feed_cells capacity g [] d = ok (g, d)
  feed_cells capacity g (cell ∷ cells) d =
      then_run (enqueue capacity (Fluxpulse.feed g cell).1 d)
        (feed_cells capacity (Fluxpulse.feed g cell).0 cells)

  unfoldable pub feed_mfm_raw_iterator_to_writer :
      ℕ → FluxPulseGenerator → List ℕ → Device W → Result Stop (FluxPulseGenerator × Device W)
  unfolding feed_cells
  feed_mfm_raw_iterator_to_writer capacity g [] d = ok (g, d)
  feed_mfm_raw_iterator_to_writer capacity g (mfm_byte ∷ bytes) d =
      then_run (before_byte d.before_bytes d) (λ d₁.
        if ltb 20 (length d₁.writer.cons)
        then then_run (wait_for_room d₁.at_yields d₁) (λ d₂.
          then_run (feed_cells capacity g (to_bit_stream mfm_byte) d₂)
            (λ r. feed_mfm_raw_iterator_to_writer capacity r.0 bytes r.1))
        else err underflow)

  -- `for part in parts`.
  unfoldable pub feed_part_cells :
      ℕ
      → FluxPulseGenerator
      → List RawCellPart
      → Device W
      → Result Stop (FluxPulseGenerator × Device W)
  unfolding feed_mfm_raw_iterator_to_writer at_duration
  feed_part_cells capacity g [] d = ok (g, d)
  feed_part_cells capacity g (part ∷ parts) d =
      then_run
        (feed_mfm_raw_iterator_to_writer capacity (at_duration part.cell_size g) part.cells d)
        (λ r. feed_part_cells capacity r.0 parts r.1)

  -- `while write_prod_cell.len() < 70`: the generator, the bytes that are left and the device.
  unfoldable pub prefill_queue :
      ℕ
      → FluxPulseGenerator
      → List ℕ
      → Device W
      → Result Stop ((FluxPulseGenerator × List ℕ) × Device W)
  unfolding feed_cells
  prefill_queue capacity g [] d =
      if ltb (length d.writer.cons) 70 then err unexpected_underflow else ok ((g, []), d)
  prefill_queue capacity g (mfm_byte ∷ bytes) d =
      if ltb (length d.writer.cons) 70
      then then_run (feed_cells capacity g (to_bit_stream mfm_byte) d)
          (λ r. prefill_queue capacity r.0 bytes r.1)
      else ok ((g, mfm_byte ∷ bytes), d)

  -- The last part of `write_track`: what the prefill left, the other parts, and as many pulses as the
  -- flux reader's buffer is long.
  unfoldable pub feed_rest :
      ℕ → FluxPulseGenerator → List ℕ → List RawCellPart → Device W → Result Stop (Device W)
  unfolding feed_mfm_raw_iterator_to_writer feed_part_cells feed_cells enqueue
  feed_rest capacity g bytes parts d =
      then_run (feed_mfm_raw_iterator_to_writer capacity g bytes d) (λ r.
        then_run (feed_part_cells capacity r.0 parts r.1) (λ r₂.
          then_run (feed_cells capacity r₂.0 trailing_cells r₂.1)
            (λ r₃. enqueue capacity (flush r₃.0).1 r₃.1)))

  -- `write_track` behind the first part's look-up, to the start of the transmission.
  unfoldable pub start_writing :
      ℕ
      → FluxPulseGenerator
      → List ℕ
      → Device W
      → Result Stop ((FluxPulseGenerator × List ℕ) × Device W)
  unfolding prefill_queue spin_selected prepare_transmit clear_buffers enable_write_head
  start_writing capacity g bytes d =
      let spinning = record d {
        writer = enable_write_head (clear_buffers d.writer);
        control = spin_selected d.control;
      } in
      then_run (prefill_queue capacity g bytes spinning) (λ r.
        then_run (checked (prepare_transmit r.1.writer))
          (λ s. ok (r.0, record (hand_over true r.1 s) { start_transmit_on_index = true })))

  -- `write_track` from the look-up of the first part on.
  unfoldable pub write_parts :
      ℕ
      → ℕ
      → RawCellData
      → List RawCellPart
      → Device W
      → Result Stop (Result RawTrackError RawCellData × Device W)
  unfolding start_writing feed_rest wait_for_transmit
  write_parts capacity write_precompensation track [] d = err no_part
  write_parts capacity write_precompensation track (part ∷ parts) d =
      let g = writing_generator write_precompensation track part in
      then_run (start_writing capacity g part.cells d) (λ r.
        then_run (wait_for_transmit r.1.at_yields r.1)
          (when_transmitting track (feed_rest capacity r.0.0 r.0.1 parts)))

  unfoldable pub write_track :
      ℕ → ℕ → RawCellData → Device W → Result Stop (Result RawTrackError RawCellData × Device W)
  unfolding write_parts
  write_track capacity write_precompensation track d =
      write_parts capacity write_precompensation track track.parts d
