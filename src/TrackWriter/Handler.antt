-- ===== src/TrackWriter/Handler.antt =====
-- firmware/src/track_raw.rs: `write_track` and `verify_track` of RawTrackHandler, together under
-- `write_and_verify`. What each read back finds is a list: whether the index pulse came, and the polls
-- of the flux. Where this list or the interrupts end, the handler still waits.
use stm32_usbfloppy_tracer.TrackVerifier.Comparison.{verify_track}
use stm32_usbfloppy_tracer.CellData.{RawCellData}
use stm32_usbfloppy_tracer.Drive.Control.{spin_selected}
use stm32_usbfloppy_tracer.TrackVerifier.{Poll, Progress, failed, panicked, returned, running}
use stm32_usbfloppy_tracer.TrackVerifier.Comparison
use stm32_usbfloppy_tracer.Drive.Stepper.{Wires}
use stm32_usbfloppy_tracer.TrackWriter.{
  Async, RawTrackError, Result, TrackIo, err, has_panicked, ok, reached, still_waiting,
}
use stm32_usbfloppy_tracer.TrackWriter.Writing
use stm32_usbfloppy_tracer.TrackWriter.Writing.{
  Device, Stop, buffer_overflow, moments_ended, no_part, program_flow, underflow,
  unexpected_underflow, write_track,
}
use stm32_usbfloppy_tracer.Base.{Bool, List, [], ℕ, ◌∷◌}

pub record RawTrackHandler (W : Type 0) : Type 0 where
  pub device : Device W
  pub read_backs : List (Bool × List Poll)

module _ {W : Type 0} where
  -- The end of a write: a panic, or the interrupts have ended before it.
  abbrev pub written :
      RawTrackHandler W
      → Result Stop (Result RawTrackError RawCellData × Device W)
      → Async (Result RawTrackError RawCellData × RawTrackHandler W)
  written h (ok (r, d)) = reached (r, record h { device = d })
  written h (err moments_ended) = still_waiting
  written h (err buffer_overflow) = has_panicked
  written h (err underflow) = has_panicked
  written h (err no_part) = has_panicked
  written h (err unexpected_underflow) = has_panicked
  written h (err program_flow) = has_panicked

  -- The end of a read back; an error gives the track back.
  abbrev pub read_back :
      RawCellData
      → RawTrackHandler W
      → Progress ℕ
      → Async (Result (RawTrackError × RawCellData) ℕ × RawTrackHandler W)
  read_back track h (returned max_err) = reached (ok max_err, h)
  read_back track h (failed e) = reached (err (e, track), h)
  read_back track h panicked = has_panicked
  read_back track h running = still_waiting

  -- `verify_track` keeps the motor spinning, and reads what comes.
  unfoldable pub verify_next :
      RawCellData
      → RawTrackHandler W
      → List (Bool × List Poll)
      → Async (Result (RawTrackError × RawCellData) ℕ × RawTrackHandler W)
  unfolding Comparison.verify_track spin_selected
  verify_next track h [] = still_waiting
  verify_next track h ((index_came, polls) ∷ later) =
      let spinning = record (h.device) { control = spin_selected h.device.control } in
      read_back track (record h { device = spinning; read_backs = later })
        (Comparison.verify_track track index_came polls)

  unfoldable pub device_io : ℕ → Wires W → TrackIo (RawTrackHandler W)
  unfolding Writing.write_track verify_next
  device_io capacity wires = record {
    write_track = λ write_precompensation track h.
        written h (Writing.write_track wires capacity write_precompensation track h.device);
    verify_track = λ track h. verify_next track h h.read_backs;
  }
