-- ===== src/TrackWriter.antt =====
-- firmware/src/track_raw.rs, `write_and_verify`: a track is written and read back until it matches.
-- Writing and reading back one time (`write_track`, `verify_track`) are an interface here, which
-- TrackWriter.Handler fills.
pub mod Attempts
pub mod Handler
pub mod Reporting
pub mod Writing
pub mod Interrupts
pub mod Feeding
pub mod Stream
pub mod Prefill
pub mod Order
pub mod Pacing
pub mod Waiting
pub mod Completion
use stm32_usbfloppy_tracer.Base.{Bool, if◌then◌else◌, suc, u8, zero, ℕ, ◌+◌, ◌==◌}
use stm32_usbfloppy_tracer.CellData.{RawCellData}

pub data RawTrackError : Type 0 where
  no_index_pulse no_incoming_data no_cross_correlation data_not_equal write_protected :
      RawTrackError

pub data Result (E A : Type 0) : Type 0 where
  ok : A → Result E A
  err : E → Result E A

pub record WriteVerifyError : Type 0 where
  pub error : RawTrackError
  pub write_operations : ℕ  -- u8
  pub verify_operations : ℕ  -- u8

pub record WriteVerifySuccess : Type 0 where
  pub write_operations : ℕ  -- u8
  pub verify_operations : ℕ  -- u8
  pub write_precompensation : ℕ  -- PulseDuration(i32)
  pub max_err : ℕ  -- PulseDuration(i32)

-- How a coroutine stands: it has returned, it still waits, or it has panicked.
pub data Async (A : Type 0) : Type 0 where
  reached : A → Async A
  still_waiting has_panicked : Async A

abbrev pub and_then : {A B : Type 0} → Async A → (A → Async B) → Async B
and_then (reached a) f = f a
and_then still_waiting f = still_waiting
and_then has_panicked f = has_panicked

-- The two operations on the drive, on a state W of it. TrackWriter.Handler has the program's own.
pub record TrackIo (W : Type 0) : Type 0 where
  pub write_track : ℕ → RawCellData → W → Async (Result RawTrackError RawCellData × W)
  pub verify_track : RawCellData → W → Async (Result (RawTrackError × RawCellData) ℕ × W)

-- How the loop over the three reads ends, with the verify operations so far.
pub data VerifyEnd : Type 0 where
  verified : ℕ → ℕ → VerifyEnd
  write_again : RawCellData → ℕ → VerifyEnd
  aborted : RawTrackError → ℕ → VerifyEnd

module _ {W : Type 0} (io : TrackIo W) where
  abbrev pub after_verify :
      ℕ
      → ℕ
      → (RawCellData → W → Async (VerifyEnd × W))
      → Result (RawTrackError × RawCellData) ℕ × W
      → Async (VerifyEnd × W)
  after_verify read_try ops again (ok max_err, w) = reached (verified max_err ops, w)
  after_verify read_try ops again (err (data_not_equal, track), w) = again track w
  after_verify read_try ops again (err (no_cross_correlation, track), w) =
      if read_try == 0 then again track w else reached (write_again track ops, w)
  after_verify read_try ops again (err (no_incoming_data, track), w) =
      reached (aborted no_incoming_data ops, w)
  after_verify read_try ops again (err (no_index_pulse, track), w) =
      reached (aborted no_index_pulse ops, w)
  after_verify read_try ops again (err (write_protected, track), w) = has_panicked

  -- `for read_try in ..`, with the tries that are left.
  unfoldable pub verify_loop : ℕ → ℕ → ℕ → RawCellData → W → Async (VerifyEnd × W)
  verify_loop zero read_try ops raw_cell_data w = reached (write_again raw_cell_data ops, w)
  verify_loop (suc left) read_try ops raw_cell_data w = and_then (io.verify_track raw_cell_data w) (
      after_verify read_try (u8 (ops + 1))
        (λ track w'. verify_loop left (suc read_try) (u8 (ops + 1)) track w'))

  abbrev pub Report : Type 0
  Report = Async (Result WriteVerifyError WriteVerifySuccess × W)

  abbrev pub after_reads : ℕ → ℕ → (ℕ → RawCellData → W → Report) → VerifyEnd × W → Report
  after_reads precompensation writes again (verified max_err ops, w) = reached (
    ok (record {
      write_operations = writes;
      verify_operations = ops;
      write_precompensation = precompensation;
      max_err = max_err;
    }),
    w,
  )
  after_reads precompensation writes again (write_again track ops, w) = again ops track w
  after_reads precompensation writes again (aborted error ops, w) =
      reached
        (err (record { error = error; write_operations = writes; verify_operations = ops }), w)

  abbrev pub after_write :
      ℕ → ℕ → (RawCellData → W → Report) → Result RawTrackError RawCellData × W → Report
  after_write writes ops go (ok track, w) = go track w
  after_write writes ops go (err error, w) =
      reached
        (err (record { error = error; write_operations = writes; verify_operations = ops }), w)

  -- `for _ in 0..5`, with the rounds that are left.
  unfoldable pub write_loop : ℕ → ℕ → ℕ → ℕ → RawCellData → W → Report
  unfolding verify_loop
  write_loop zero precompensation writes ops raw_cell_data w = reached (
    err (record { error = data_not_equal; write_operations = writes; verify_operations = ops }),
    w,
  )
  write_loop (suc left) precompensation writes ops raw_cell_data w =
      and_then (io.write_track precompensation raw_cell_data w) (
        after_write (u8 (writes + 1)) ops (λ track w'. and_then (verify_loop 3 0 ops track w') (
          after_reads precompensation (u8 (writes + 1)) (λ ops' track' w''.
            write_loop left precompensation (u8 (writes + 1)) ops' track' w''))))

  -- `write_and_verify` once the track is selected; whether the disk is write protected is read from
  -- the drive.
  unfoldable pub write_and_verify : Bool → ℕ → RawCellData → W → Report
  unfolding write_loop
  write_and_verify is_protected precompensation raw_cell_data w =
      if is_protected
      then reached
          (err (record { error = write_protected; write_operations = 0; verify_operations = 0 }), w)
      else write_loop 5 precompensation 0 0 raw_cell_data w
