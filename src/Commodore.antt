-- ===== src/Commodore.antt =====
-- util/src/c64_geometry.rs: the tracks of a disk of the Commodore 64.
pub mod Image
pub mod Parser
pub mod Search
pub mod Blocks
pub mod Track
pub mod Results
pub mod Cells
pub mod RoundTrip
pub mod Termination
use stm32_usbfloppy_tracer.Base.{Outcome, done, if◌then◌else◌, leb, panic, ℕ, ◌==◌}

pub record TrackConfiguration : Type 0 where
  pub cellsize : ℕ  -- usize
  pub sectors : ℕ  -- u8
  pub gap_size : ℕ  -- usize

abbrev configuration : ℕ → ℕ → ℕ → TrackConfiguration
configuration cellsize sectors gap_size = record {
  cellsize = cellsize;
  sectors = sectors;
  gap_size = gap_size;
}

-- Tracks count from 1.
unfoldable pub get_track_settings : ℕ → Outcome TrackConfiguration
get_track_settings track =
    if track == 0
    then panic
    else if leb track 17
    then done (configuration 227 21 8)
    else if leb track 24
    then done (configuration 245 19 17)
    else if leb track 30
    then done (configuration 262 18 12)
    else done (configuration 280 17 9)
