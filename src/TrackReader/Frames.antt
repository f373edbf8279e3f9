-- ===== src/TrackReader/Frames.antt =====
-- firmware/src/track_raw.rs, `read_track`: the frames hold the pulses that were read.
use stm32_usbfloppy_tracer.TrackReader.{
  Reading, Recording, complete, reduce_pulse, timed_out, timeout_limit, unfinished,
}
use stm32_usbfloppy_tracer.Base.{
  All, IsU8, List, Option, [], arith, concat, length, map, none, some, true, ℕ, ◌*◌, ◌++◌, ◌+◌, ◌<◌,
  ◌∷◌, ◌≡◌, ◌≤◌,
}

-- The pulses that polls found.
unfoldable pub pulses_of : List (Option ℕ) → List ℕ
pulses_of [] = []
pulses_of (none ∷ polls) = pulses_of polls
pulses_of (some pulse ∷ polls) = pulse ∷ pulses_of polls

-- All that was collected, sent or not.
abbrev pub collected : Recording → List ℕ
collected r = concat r.frames ++ r.collect_buffer

abbrev pub IsFrame : List ℕ → Type 0
IsFrame frame = length frame ≡ 64

-- The frames are full, and the buffer is not.
abbrev pub IsFramed : Recording → Type 0
IsFramed r = All IsFrame r.frames × (length r.collect_buffer < 64)

-- Why the reading ends: with enough recorded, at the limit of polls without a pulse, or with no poll
-- left.
abbrev pub IsEnd : Recording → Reading → List (Option ℕ) → Type 0
IsEnd r complete rest = r.required_duration_was_recorded ≡ true
IsEnd r timed_out rest = r.timeout ≡ timeout_limit
IsEnd r unfinished rest = rest ≡ []

-- What the polls that a result does not leave over add to a recording.
abbrev Adds : Recording → List (Option ℕ) → Recording × Reading × List (Option ℕ) → Type 0
Adds r polls result =
    (used : List (Option ℕ)) × ((polls ≡ used ++ result.2)
      × ((collected result.0 ≡ collected r ++ map reduce_pulse (pulses_of used))
          × (IsFramed result.0 × IsEnd result.0 result.1 result.2)))

-- A reduced pulse fits in a byte, and below 2044 ticks the host, which multiplies it by 8, is off by
-- at most 4 ticks.
pub reduce_pulse-error :
    (pulse : ℕ)
    → pulse < 2044
    → IsU8 (reduce_pulse pulse)
      × (reduce_pulse pulse * 8 ≤ pulse + 4)
      × (pulse ≤ reduce_pulse pulse * 8 + 4)
unfolding reduce_pulse
reduce_pulse-error pulse h = (ground arith, ground arith, ground arith)
