-- ===== src/TrackWriter/Reporting.antt =====
-- firmware/src/track_raw.rs: what write_and_verify reports over the handler's own write_track and
-- verify_track.
use stm32_usbfloppy_tracer.CellData.{RawCellData}
use stm32_usbfloppy_tracer.TrackVerifier.Comparison
use stm32_usbfloppy_tracer.TrackWriter.{RawTrackError, Result, err, no_index_pulse, ok}
use stm32_usbfloppy_tracer.TrackWriter.Writing
use stm32_usbfloppy_tracer.TrackWriter.Writing.{Device, Stop}
use stm32_usbfloppy_tracer.Base.{◌≡◌}

module _ {W : Type 0} where
  -- The only error that is returned is a missing index pulse.
  abbrev MissesIndex : Result Stop (Result RawTrackError RawCellData × Device W) → Type 0
  MissesIndex (ok (ok track, d)) = Unit
  MissesIndex (ok (err e, d)) = e ≡ no_index_pulse
  MissesIndex (err stop) = Unit
