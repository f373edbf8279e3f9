-- ===== src/TrackVerifier/Errors.antt =====
-- firmware/src/track_raw.rs, `verify_track`: it never ends with the error WriteProtected.
use stm32_usbfloppy_tracer.Fluxpulse
use stm32_usbfloppy_tracer.Fluxpulse.{FluxPulseGenerator}
use stm32_usbfloppy_tracer.Bitstream.{to_bit_stream}
use stm32_usbfloppy_tracer.CellData.{RawCellData, RawCellPart, similar}
use stm32_usbfloppy_tracer.TrackWriter.{no_incoming_data, write_protected}
use stm32_usbfloppy_tracer.TrackVerifier.{
  GroundTruth, Poll, Progress, all_similar, async_read_flux, compare_window_size, correlate, failed,
  fill_loop, generate_ground_truth, idle, panicked, pop_front, pulse, read_data_window_size,
  record_loop, removal_loop, remove_repeated, repeats, returned, running, stopped, ◌then◌,
}
use stm32_usbfloppy_tracer.TrackVerifier.Comparison.{
  compare_live, compare_one, compare_read, div_i32, first_truth, generate_groundtruth, is_empty,
  synchronize_and_compare, synchronize_from, verify_track,
}
use stm32_usbfloppy_tracer.Base.{
  Bool, List, Option, [], drop, false, if◌then◌else◌, length, lt_i32, ltb, none, run, some, suc,
  take, true, u32, zero, ℕ, ◌*◌, ◌++◌, ◌∷◌, ◌≢◌,
}

-- A run that does not end with the write protection.
abbrev pub Unprotected : {A : Type 0} → Progress A → Type 0
Unprotected (returned a) = Unit
Unprotected (failed e) = e ≢ write_protected
Unprotected panicked = Unit
Unprotected running = Unit

then-Unprotected :
    {A B : Type 0} (r : Progress A) (f : A → Progress B)
    → Unprotected r
    → ((a : A) → Unprotected (f a))
    → Unprotected (r then f)
then-Unprotected (returned a) f h k = k a
then-Unprotected (failed e) f h k = h
then-Unprotected panicked f h k = tt
then-Unprotected running f h k = tt

if-Unprotected :
    {A : Type 0} (b : Bool) (r s : Progress A)
    → Unprotected r
    → Unprotected s
    → Unprotected (if b then r else s)
if-Unprotected true r s h k = h
if-Unprotected false r s h k = k

async_read_flux-Unprotected : (polls : List Poll) → Unprotected (async_read_flux polls)
unfolding async_read_flux
async_read_flux-Unprotected [] = tt
async_read_flux-Unprotected (pulse f ∷ polls) = tt
async_read_flux-Unprotected (idle ∷ polls) = async_read_flux-Unprotected polls
async_read_flux-Unprotected (stopped ∷ polls) = tt

fill_loop-Unprotected :
    (queue : List ℕ) (g : FluxPulseGenerator) (bytes : List ℕ)
    → Unprotected (fill_loop queue g bytes)
unfolding fill_loop
fill_loop-Unprotected queue g [] = if-Unprotected (ltb (length queue) compare_window_size) _ _ tt tt
fill_loop-Unprotected queue g (b ∷ bytes) =
    if-Unprotected (ltb (length queue) compare_window_size) _ _
      (fill_loop-Unprotected (queue ++ (run Fluxpulse.feed g (to_bit_stream b)).1)
        (run Fluxpulse.feed g (to_bit_stream b)).0 bytes)
      tt

generate_ground_truth-Unprotected : (t : GroundTruth) → Unprotected (generate_ground_truth t)
unfolding generate_ground_truth
generate_ground_truth-Unprotected t =
    then-Unprotected (fill_loop t.queue t.generator t.iter) _
      (fill_loop-Unprotected t.queue t.generator t.iter) (λ r. tt)

repeats-Unprotected : (last : ℕ) (queue : List ℕ) → Unprotected (repeats last queue)
repeats-Unprotected last [] = tt
repeats-Unprotected last (front ∷ rest) = tt

removal_loop-Unprotected :
    (last : ℕ) (t : GroundTruth) (polls : List Poll) → Unprotected (removal_loop last t polls)
unfolding removal_loop
removal_loop-Unprotected last t [] = tt
removal_loop-Unprotected last t (idle ∷ polls) = removal_loop-Unprotected last t polls
removal_loop-Unprotected last t (stopped ∷ polls) = λ e. cc
removal_loop-Unprotected last t (pulse f ∷ polls) =
    then-Unprotected (generate_ground_truth t) _ (generate_ground_truth-Unprotected t) (λ t'.
      then-Unprotected (repeats last t'.queue) _ (repeats-Unprotected last t'.queue)
        (λ same. if-Unprotected same _ _ (removal_loop-Unprotected last (pop_front t') polls) tt))

remove_repeated-Unprotected :
    (last : ℕ) (t : GroundTruth) (polls : List Poll) → Unprotected (remove_repeated last t polls)
unfolding remove_repeated
remove_repeated-Unprotected last t polls =
    then-Unprotected (repeats last t.queue) _ (repeats-Unprotected last t.queue)
      (λ same. if-Unprotected same _ _ (removal_loop-Unprotected last (pop_front t) polls) tt)

read_or_fail :
    (o : Option ℕ) (f : ℕ → Progress (List ℕ × List Poll))
    → ((i : ℕ) → Unprotected (f i))
    → Unprotected (elim o as (λ _. Progress (List ℕ × List Poll)) [
      | none ↦ failed no_incoming_data
      | some i ↦ f i
    ])
read_or_fail none f h = λ e. cc
read_or_fail (some i) f h = h i

record_loop-Unprotected :
    (left : ℕ) (queue : List ℕ) (polls : List Poll) → Unprotected (record_loop left queue polls)
unfolding record_loop
record_loop-Unprotected zero queue polls = tt
record_loop-Unprotected (suc left) queue polls =
    then-Unprotected (async_read_flux polls) _ (async_read_flux-Unprotected polls) (λ r.
      read_or_fail r.0 (λ f. record_loop left (queue ++ (f ∷ [])) r.1)
        (λ f. record_loop-Unprotected left (queue ++ (f ∷ [])) r.1))

correlate-Unprotected :
    (left position threshold : ℕ) (truth read : List ℕ)
    → Unprotected (correlate left position threshold truth read)
unfolding correlate
correlate-Unprotected zero position threshold truth read = tt
correlate-Unprotected (suc left) position threshold truth read =
    if-Unprotected (ltb (length read) compare_window_size) _ _ (λ e. cc)
      (if-Unprotected (all_similar threshold (take compare_window_size read) truth) _ _ tt
        (correlate-Unprotected left (suc position) threshold truth (drop 1 read)))

compare_one-Unprotected :
    (cell_size threshold : ℕ) (t : GroundTruth) (maximum_diff readback : ℕ)
    → Unprotected (compare_one cell_size threshold t maximum_diff readback)
unfolding compare_one
compare_one-Unprotected cell_size threshold t maximum_diff readback = go t.queue
  where
    go :
        (queue : List ℕ)
        → Unprotected
            (compare_one cell_size threshold (record t { queue = queue }) maximum_diff readback)
    go [] = tt
    go (reference ∷ []) =
        if-Unprotected (lt_i32 (u32 (cell_size * 10)) reference) _ _ tt
          (if-Unprotected (similar reference readback threshold) _ _ tt (λ e. cc))
    go (reference ∷ next ∷ rest) =
        if-Unprotected (lt_i32 (u32 (cell_size * 10)) reference) _ _ tt
          (if-Unprotected (similar reference readback threshold) _ _ tt (λ e. cc))

compare_read-Unprotected :
    (cell_size threshold : ℕ) (t : GroundTruth) (maximum_diff : ℕ) (read : List ℕ)
    → Unprotected (compare_read cell_size threshold t maximum_diff read)
unfolding compare_read
compare_read-Unprotected cell_size threshold t maximum_diff [] = tt
compare_read-Unprotected cell_size threshold t maximum_diff (readback ∷ read) =
    then-Unprotected
      (compare_one cell_size threshold (generate_groundtruth t) maximum_diff readback) _
      (compare_one-Unprotected cell_size threshold (generate_groundtruth t) maximum_diff readback)
      (λ r. compare_read-Unprotected cell_size threshold r.0 r.1 read)

compare_live-Unprotected :
    (cell_size threshold : ℕ) (t : GroundTruth) (maximum_diff : ℕ) (polls : List Poll)
    → Unprotected (compare_live cell_size threshold t maximum_diff polls)
unfolding compare_live
compare_live-Unprotected cell_size threshold before maximum_diff [] =
    if-Unprotected (is_empty (generate_groundtruth before).queue) _ _ tt tt
compare_live-Unprotected cell_size threshold before maximum_diff (idle ∷ polls) =
    if-Unprotected (is_empty (generate_groundtruth before).queue) _ _ tt (
      compare_live-Unprotected cell_size threshold (generate_groundtruth before) maximum_diff polls)
compare_live-Unprotected cell_size threshold before maximum_diff (stopped ∷ polls) =
    if-Unprotected (is_empty (generate_groundtruth before).queue) _ _ tt (
      compare_live-Unprotected cell_size threshold (generate_groundtruth before) maximum_diff polls)
compare_live-Unprotected cell_size threshold before maximum_diff (pulse f ∷ polls) =
    let t = generate_groundtruth before in
    if-Unprotected (is_empty t.queue) _ _ tt (
      then-Unprotected (compare_one cell_size threshold t maximum_diff f) _
        (compare_one-Unprotected cell_size threshold t maximum_diff f)
        (λ r. compare_live-Unprotected cell_size threshold r.0 r.1 polls))

synchronize_from-Unprotected :
    (cell_size threshold : ℕ) (t : GroundTruth) (polls : List Poll) (front : List ℕ)
    → Unprotected (synchronize_from cell_size threshold t polls front)
unfolding synchronize_from
synchronize_from-Unprotected cell_size threshold t polls [] = tt
synchronize_from-Unprotected cell_size threshold t polls (last ∷ rest) =
    then-Unprotected (remove_repeated last (record t { queue = rest }) polls) _
      (remove_repeated-Unprotected last (record t { queue = rest }) polls)
      (λ removed.
        then-Unprotected (generate_ground_truth removed.0) _
          (generate_ground_truth-Unprotected removed.0)
          (λ truth.
            then-Unprotected (record_loop read_data_window_size [] removed.1) _
              (record_loop-Unprotected read_data_window_size [] removed.1)
              (λ read.
                then-Unprotected (correlate read_data_window_size 0 threshold truth.queue read.0) _
                  (correlate-Unprotected read_data_window_size 0 threshold truth.queue read.0)
                  (λ found.
                    then-Unprotected (compare_read cell_size threshold truth 0 found.1) _
                      (compare_read-Unprotected cell_size threshold truth 0 found.1)
                      (λ compared.
                        compare_live-Unprotected cell_size threshold compared.0 compared.1
                          read.1)))))

pub verify_track-Unprotected :
    (track : RawCellData) (index_came : Bool) (polls : List Poll)
    → Unprotected (verify_track track index_came polls)
unfolding verify_track
verify_track-Unprotected track index_came polls = go track.parts
  where
    go :
        (parts : List RawCellPart)
        → Unprotected (verify_track (record track { parts = parts }) index_came polls)
    go [] = tt
    go (part ∷ parts) =
        let t₀ = first_truth (record track { parts = part ∷ parts }) part parts in
        let threshold = div_i32 (u32 (part.cell_size * 35)) 100 in
        then-Unprotected (generate_ground_truth t₀) _ (generate_ground_truth-Unprotected t₀) (λ t.
          if-Unprotected index_came _ _
            (unfold synchronize_and_compare in
              synchronize_from-Unprotected part.cell_size threshold t polls (drop 5 t.queue))
            (λ e. cc))
