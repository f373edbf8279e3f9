-- ===== src/Runs/Writing.antt =====
-- Writing a track: a selected drive without a stepper, a flux writer that rests, and a short track.
use stm32_usbfloppy_tracer.Drive.Unit.{PinState, new, spin_motor}
use stm32_usbfloppy_tracer.Drive.Control.{
  FloppyControl, new_control, selected_is_spinning, spin_selected,
}
use stm32_usbfloppy_tracer.Drive.Stepper.{Wires}
use stm32_usbfloppy_tracer.CellData.{DriveSelectState, RawCellData, RawCellPart}
use stm32_usbfloppy_tracer.Fluxpulse
use stm32_usbfloppy_tracer.Fluxpulse.{FluxPulseGenerator, feed}
use stm32_usbfloppy_tracer.FluxWriter.{FluxWriter, force_inactive, prepare_transmit, swap_buffers}
use stm32_usbfloppy_tracer.FluxWriter.Order.{
  Event, enqueued, enqueued_pulses, event, held, run-held, swapped,
}
use stm32_usbfloppy_tracer.FluxWriter.Preparing.{IsIdle, IsPrepared, prepare_transmit-IsPrepared}
use stm32_usbfloppy_tracer.FluxWriter.Ending.{counted, ended, pulses_complete, swap_buffers-ended}
use stm32_usbfloppy_tracer.TrackWriter.{ok}
use stm32_usbfloppy_tracer.TrackWriter.Writing.{Device, exti3, write_track, writing_generator}
use stm32_usbfloppy_tracer.TrackWriter.Interrupts.{Holds, stream}
use stm32_usbfloppy_tracer.TrackWriter.Stream.{fed_track}
use stm32_usbfloppy_tracer.TrackWriter.Order.{IsTrackWritten, write_track-in_order}
use stm32_usbfloppy_tracer.TrackWriter.Pacing.{swap_moment}
use stm32_usbfloppy_tracer.TrackWriter.Waiting.{IsServedBy}
use stm32_usbfloppy_tracer.TrackWriter.Handler.{RawTrackHandler}
use stm32_usbfloppy_tracer.TrackWriter.Completion.{write_track-completes}
use stm32_usbfloppy_tracer.Bitstream.RoundTrip.{to_bit_streams}
use stm32_usbfloppy_tracer.Bitstream.{to_bit_stream}
use stm32_usbfloppy_tracer.Base.{
  List, [], arith, done, false, length, map, panic, refl, replicate, run, u16, ℕ, ◌++◌, ◌+◌, ◌-◌,
  ◌∷◌, ◌≡◌, ◌≤◌,
}

abbrev still : Wires {0} Unit
still = record {
  set_direction_wire = λ l w. w;
  set_step_wire = λ l w. w;
  track_00_low = λ w. false;
}

-- n pulses wait in the queue.
abbrev resting : ℕ → FluxWriter
resting n = record {
  current_buffer = [];
  back_buffer = [];
  last_dma_frame_active = false;
  number_of_last_pulses = 0;
  cons = replicate n 336;
  write_gate = false;
  dma_enabled = false;
  timer_enabled = false;
  update_interrupt = false;
  output = force_inactive;
}

abbrev two_swaps : List Event
two_swaps = swapped ∷ enqueued 70000 ∷ swapped ∷ []

run-held_example :
    (run event (resting 20) two_swaps).1 ++ held (run event (resting 20) two_swaps).0
    ≡ held (resting 20) ++ map u16 (enqueued_pulses two_swaps)
run-held_example = run-held (resting 20) two_swaps

prepare_transmit-IsPrepared_example :
    (IsIdle (resting 20)
      → (s' : FluxWriter) × ((prepare_transmit (resting 20) ≡ done s')
          × IsPrepared (resting 20).cons s'))
    × (¬ IsIdle (resting 20) → prepare_transmit (resting 20) ≡ panic)
prepare_transmit-IsPrepared_example = prepare_transmit-IsPrepared (resting 20)

abbrev three_left : FluxWriter
three_left = record (resting 0) { current_buffer = 336 ∷ 504 ∷ 336 ∷ [] }

swap_buffers-ended_example :
    ((k : ℕ)
      → k ≤ 3
      → pulses_complete k (swap_buffers three_left)
        ≡ done (counted ((3 - k) + 1) (swap_buffers three_left)))
    × (pulses_complete 6 (swap_buffers three_left) ≡ done (ended (swap_buffers three_left)))
swap_buffers-ended_example = swap_buffers-ended three_left (omega arith)

abbrev selected : FloppyControl
selected =
    record (new_control (new PinState.high PinState.high) (new PinState.high PinState.high)
      PinState.high PinState.high) { drive_select = DriveSelectState.drive_a }

-- An index at the first yield, and n swaps.
abbrev served : ℕ → Device Unit
served n = record {
  writer = resting 0;
  control = selected;
  wires = tt;
  index_occured = false;
  start_transmit_on_index = false;
  handed = [];
  before_bytes = [];
  at_yields = (exti3 ∷ []) ∷ replicate n swap_moment;
}

abbrev first_part : RawCellPart
first_part = record { cell_size = 168; cells = replicate 20 170 }

abbrev second_part : RawCellPart
second_part = record { cell_size = 160; cells = 68 ∷ 17 ∷ [] }

abbrev short_track : RawCellData
short_track = record {
  speeds = [];
  cells = replicate 20 170 ++ 68 ∷ 17 ∷ [];
  has_non_flux_reversal_area = false;
  parts = first_part ∷ second_part ∷ [];
}

abbrev short_generator : FluxPulseGenerator
short_generator = writing_generator 12 short_track first_part

abbrev short_pulses : List ℕ
short_pulses = (fed_track short_generator (first_part ∷ second_part ∷ [])).1

write_track-in_order_example :
    Holds
      (IsTrackWritten (served 2) short_track short_pulses)
      (write_track still 127 12 short_track (served 2))
write_track-in_order_example =
    write_track-in_order still 127 (omega arith) 12 short_track first_part (second_part ∷ [])
      (served 2) refl

served-IsServedBy : IsServedBy 13 (served 13)
served-IsServedBy = (
  (refl, unfold spin_motor spin_selected selected_is_spinning new_control new in refl),
  (refl, refl),
)

first_pulses :
    length (run Fluxpulse.feed short_generator (to_bit_streams (replicate 20 170))).1 ≡ 78
unfolding run Fluxpulse.feed to_bit_stream Fluxpulse.new
first_pulses = refl

write_track-completes_example :
    (e : Device Unit) × ((write_track still 127 12 short_track (served 13) ≡ ok (ok short_track, e))
      × (stream e ≡ map u16 short_pulses))
write_track-completes_example =
    write_track-completes still 127 (omega arith) 12 short_track first_part (second_part ∷ []) 13
      (served 13) refl served-IsServedBy (omega (arith, first_pulses)) (omega arith)

-- A write of the short track, then a read back before which no index pulse comes.
abbrev handler : RawTrackHandler Unit
handler = record { device = served 13; read_backs = (false, []) ∷ [] }
