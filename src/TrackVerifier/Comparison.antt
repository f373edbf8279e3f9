-- ===== src/TrackVerifier/Comparison.antt =====
-- firmware/src/track_raw.rs, `verify_track`: the comparison behind the correlation, and all of it.
use stm32_usbfloppy_tracer.Fluxpulse
use stm32_usbfloppy_tracer.Fluxpulse.{flush}
use stm32_usbfloppy_tracer.Bitstream.{to_bit_stream}
use stm32_usbfloppy_tracer.CellData.{RawCellData, RawCellPart, similar}
use stm32_usbfloppy_tracer.TrackWriter.{data_not_equal, no_index_pulse}
use stm32_usbfloppy_tracer.TrackVerifier.{
  GroundTruth, Poll, Progress, correlate, failed, generate_ground_truth, idle, panicked, pulse,
  read_data_window_size, record_loop, remove_repeated, returned, running, stopped, ◌then◌,
}
use stm32_usbfloppy_tracer.Base.{
  Bool, List, [], drop, false, if◌then◌else◌, le_i32, length, lt_i32, ltb, max, not, run, sub32,
  true, u32, ℕ, ◌*◌, ◌++◌, ◌-◌, ◌/◌, ◌∷◌,
}

-- `generate_groundtruth` while comparing: at most one byte at a time.
unfoldable pub generate_groundtruth : GroundTruth → GroundTruth
unfolding run to_bit_stream Fluxpulse.feed flush
generate_groundtruth t =
    if ltb (length t.queue) 30
    then elim t.iter [
      | ◌∷◌ val iter ↦
          let fed = run Fluxpulse.feed t.generator (to_bit_stream val) in
          record t { queue = t.queue ++ fed.1; generator = fed.0; iter = iter }
      | [] ↦ elim t.parts [
        | ◌∷◌ part parts ↦ record t {
          generator = record t.generator { cell_duration = part.cell_size };
          iter = part.cells;
          parts = parts;
        }
        | [] ↦
            let fed = flush t.generator in record t { queue = t.queue ++ fed.1; generator = fed.0 }
      ]
    ]
    else t

-- `abs_diff` of two i32 patterns.
abbrev pub abs_diff : ℕ → ℕ → ℕ
abs_diff a b = if le_i32 a b then sub32 b a else sub32 a b

-- One comparison: the ground truth behind it and the maximum difference so far.
unfoldable pub compare_one : ℕ → ℕ → GroundTruth → ℕ → ℕ → Progress (GroundTruth × ℕ)
unfolding similar
compare_one cell_size threshold t maximum_diff readback = elim t.queue [
  | [] ↦ panicked
  | ◌∷◌ reference rest ↦
      if lt_i32 (u32 (cell_size * 10)) reference
      then elim rest [
        | [] ↦ panicked
        | ◌∷◌ next rest' ↦ returned (record t { queue = rest' }, maximum_diff)
      ]
      else if similar reference readback threshold
      then returned (record t { queue = rest }, max maximum_diff (abs_diff reference readback))
      else failed data_not_equal
]

-- The comparison of what was read so far.
unfoldable pub compare_read : ℕ → ℕ → GroundTruth → ℕ → List ℕ → Progress (GroundTruth × ℕ)
unfolding generate_groundtruth compare_one
compare_read cell_size threshold t maximum_diff [] = returned (generate_groundtruth t, maximum_diff)
compare_read cell_size threshold t maximum_diff (readback ∷ read) =
    compare_one cell_size threshold (generate_groundtruth t) maximum_diff readback then λ r.
    compare_read cell_size threshold r.0 r.1 read

abbrev pub is_empty : List ℕ → Bool
is_empty [] = true
is_empty (x ∷ xs) = false

-- The comparison of live data, until no ground truth is left. A poll without a pulse yields, whether
-- the motor spins or not.
unfoldable pub compare_live : ℕ → ℕ → GroundTruth → ℕ → List Poll → Progress ℕ
unfolding generate_groundtruth compare_one
compare_live cell_size threshold before maximum_diff [] =
    let t = generate_groundtruth before in
    if is_empty t.queue then returned maximum_diff else running
compare_live cell_size threshold before maximum_diff (idle ∷ polls) =
    let t = generate_groundtruth before in
    let rest = compare_live cell_size threshold t maximum_diff polls in
    if is_empty t.queue then returned maximum_diff else rest
compare_live cell_size threshold before maximum_diff (stopped ∷ polls) =
    let t = generate_groundtruth before in
    let rest = compare_live cell_size threshold t maximum_diff polls in
    if is_empty t.queue then returned maximum_diff else rest
compare_live cell_size threshold before maximum_diff (pulse f ∷ polls) =
    let t = generate_groundtruth before in
    if is_empty t.queue
    then returned maximum_diff
    else (compare_one cell_size threshold t maximum_diff f then λ r.
        compare_live cell_size threshold r.0 r.1 polls)

-- Division of an i32 by a small positive number, rounded towards 0.
abbrev pub div_i32 : ℕ → ℕ → ℕ
div_i32 v k = if ltb v 2147483648 then v / k else sub32 0 ((4294967296 - v) / k)

-- What is written at the start of the track, before any of it is fed.
abbrev pub first_truth : RawCellData → RawCellPart → List RawCellPart → GroundTruth
first_truth track part parts = record {
  queue = [];
  generator = record (Fluxpulse.new part.cell_size) {
    enable_weak_bit_generator = not track.has_non_flux_reversal_area;
  };
  iter = part.cells;
  parts = parts;
}

-- From the sixth duration of the ground truth on, which has to be there.
unfoldable pub synchronize_from : ℕ → ℕ → GroundTruth → List Poll → List ℕ → Progress ℕ
unfolding remove_repeated generate_ground_truth record_loop correlate compare_read compare_live
synchronize_from cell_size threshold t polls [] = panicked
synchronize_from cell_size threshold t polls (last ∷ rest) =
    remove_repeated last (record t { queue = rest }) polls then λ removed.
    (generate_ground_truth removed.0 then λ truth.
    (record_loop read_data_window_size [] removed.1 then λ read.
    (correlate read_data_window_size 0 threshold truth.queue read.0 then λ found.
    (compare_read cell_size threshold truth 0 found.1 then λ compared.
    compare_live cell_size threshold compared.0 compared.1 read.1))))

-- Behind the first index pulse, with the first 20 durations of the ground truth at least.
unfoldable pub synchronize_and_compare : ℕ → ℕ → GroundTruth → List Poll → Progress ℕ
unfolding synchronize_from
synchronize_and_compare cell_size threshold t polls =
    synchronize_from cell_size threshold t polls (drop 5 t.queue)

-- `verify_track`, where `index_came` is whether the index pulse came in time, with the polls behind it.
unfoldable pub verify_track : RawCellData → Bool → List Poll → Progress ℕ
unfolding synchronize_and_compare
verify_track track index_came polls = elim track.parts [
  | [] ↦ panicked
  | ◌∷◌ part parts ↦ generate_ground_truth (first_truth track part parts) then λ t.
      if index_came
      then synchronize_and_compare part.cell_size (div_i32 (u32 (part.cell_size * 35)) 100) t polls
      else failed no_index_pulse
]
