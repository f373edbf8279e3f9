-- ===== src/TrackReader.antt =====
-- firmware/src/track_raw.rs, `read_track`: the pulses of a track as frames of 64 bytes for the host.
-- A poll of the pulse queue is the pulse that it finds, if any.
pub mod Frames
use stm32_usbfloppy_tracer.TrackWriter.{no_incoming_data, no_index_pulse}
use stm32_usbfloppy_tracer.TrackVerifier.{
  Poll, Progress, async_read_flux, failed, idle, pulse, returned, stopped, ◌then◌,
}
use stm32_usbfloppy_tracer.Base.{
  Bool, List, Option, [], false, has_bit, if◌then◌else◌, leb, length, ltb, map, none, some, u32, ℕ,
  ◌++◌, ◌+◌, ◌-◌, ◌/◌, ◌==◌, ◌||◌, ◌∷◌,
}

-- The variables of the loop, and what was given to `write_consume`.
pub record Recording : Type 0 where
  pub collect_buffer : List ℕ
  pub frames : List (List ℕ)
  pub timeout : ℕ
  pub duration_yet_recorded : ℕ  -- u32
  pub required_duration_was_recorded : Bool

-- How the reading stands: the end package was sent, an error, or still waiting for polls.
pub data Reading : Type 0 where
  complete timed_out unfinished : Reading

abbrev pub start : Recording
start = record {
  collect_buffer = [];
  frames = [];
  timeout = 0;
  duration_yet_recorded = 0;
  required_duration_was_recorded = false;
}

-- A pulse in units of 8 ticks, rounded, and 0xff where it is longer.
unfoldable pub reduce_pulse : ℕ → ℕ
reduce_pulse duration =
    let rounded = if has_bit 4 duration then duration / 8 + 1 else duration / 8 in
    if ltb 0xff rounded then 0xff else rounded

-- A full buffer becomes a frame. The reading is over with the frame that reaches the duration.
unfoldable pub send_full : ℕ → Recording → Recording
send_full duration_to_record r =
    if length r.collect_buffer == 64
    then record r {
      frames = r.frames ++ (r.collect_buffer ∷ []);
      collect_buffer = [];
      required_duration_was_recorded =
          leb duration_to_record r.duration_yet_recorded || r.required_duration_was_recorded;
    }
    else r

-- One turn of the inner loop.
unfoldable pub record_poll : ℕ → Recording → Option ℕ → Recording
unfolding reduce_pulse send_full
record_poll duration_to_record r (some duration) = send_full duration_to_record (record r {
  timeout = 0;
  duration_yet_recorded = u32 (r.duration_yet_recorded + duration);
  collect_buffer = r.collect_buffer ++ (reduce_pulse duration ∷ []);
})
record_poll duration_to_record r none = record r { timeout = r.timeout + 1 }

abbrev pub timeout_limit : ℕ
timeout_limit = 0x00800000

-- Five turns for each turn of the outer loop, `left` of them in this one. The polls that are not used
-- are the last result.
unfoldable pub recording_loop :
    ℕ → ℕ → Recording → List (Option ℕ) → Recording × Reading × List (Option ℕ)
unfolding record_poll
recording_loop duration_to_record left before [] = (before, unfinished, [])
recording_loop duration_to_record left before (poll ∷ polls) =
    let r = record_poll duration_to_record before poll in
    let next_turn = recording_loop duration_to_record (left - 1) r polls in
    let next_round = recording_loop duration_to_record 5 r polls in
    if r.timeout == timeout_limit
    then (r, timed_out, polls)
    else if leb left 1
    then (if r.required_duration_was_recorded then (r, complete, polls) else next_round)
    else next_turn

-- The frames for the host, an empty one at the end.
unfoldable pub record_frames : ℕ → List (Option ℕ) → List (List ℕ) × Reading
unfolding recording_loop
record_frames duration_to_record polls =
    let r = recording_loop duration_to_record 5 start polls in
    elim r.1 [
      | complete ↦ (r.0.frames ++ ([] ∷ []), complete)
      | timed_out ↦ (r.0.frames, timed_out)
      | unfinished ↦ (r.0.frames, unfinished)
    ]

-- `dequeue`, for which the motor does not matter.
abbrev pub dequeue : Poll → Option ℕ
dequeue (pulse f) = some f
dequeue idle = none
dequeue stopped = none

-- `read_track` behind the start of the reception, where `started` is whether the index pulse came if
-- it was waited for. The first two pulses are thrown away.
unfoldable pub read_track : ℕ → Bool → List Poll → Progress (List (List ℕ) × Reading)
unfolding async_read_flux record_frames
read_track duration_to_record started polls =
    if started
    then (async_read_flux polls then λ first. elim first.0 [
      | none ↦ failed no_incoming_data
      | some f ↦ async_read_flux first.1 then λ second.
          returned (record_frames duration_to_record (map dequeue second.1))
    ])
    else failed no_index_pulse
