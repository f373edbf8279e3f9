-- ===== src/TrackVerifier.antt =====
-- firmware/src/track_raw.rs, `verify_track` and `async_read_flux`: what was written is compared with
-- what is read. The flux is the list of what the polls of its queue find.
pub mod Correlation
pub mod Comparison
pub mod Waiting
pub mod Errors
use stm32_usbfloppy_tracer.Fluxpulse
use stm32_usbfloppy_tracer.Fluxpulse.{FluxPulseGenerator}
use stm32_usbfloppy_tracer.Bitstream.{to_bit_stream}
use stm32_usbfloppy_tracer.CellData.{RawCellPart, similar}
use stm32_usbfloppy_tracer.TrackWriter.{RawTrackError, no_cross_correlation, no_incoming_data}
use stm32_usbfloppy_tracer.Base.{
  Bool, List, Option, [], drop, if◌then◌else◌, length, ltb, none, run, some, suc, take, true, zero,
  ℕ, ◌&&◌, ◌++◌, ◌==◌, ◌∷◌,
}

-- A poll of the queue: a pulse, or none, with the motor spinning or not.
pub data Poll : Type 0 where
  pulse : ℕ → Poll
  idle stopped : Poll

-- How a coroutine stands after some polls.
pub data Progress (A : Type 0) : Type 0 where
  returned : A → Progress A
  failed : RawTrackError → Progress A
  panicked running : Progress A

infixl 5 ◌then◌
abbrev pub ◌then◌ : {A B : Type 0} → Progress A → (A → Progress B) → Progress B
returned a then f = f a
failed e then f = failed e
panicked then f = panicked
running then f = running

-- `async_read_flux`: none if the motor has stopped.
unfoldable pub async_read_flux : List Poll → Progress (Option ℕ × List Poll)
async_read_flux [] = running
async_read_flux (pulse f ∷ polls) = returned (some f, polls)
async_read_flux (idle ∷ polls) = async_read_flux polls
async_read_flux (stopped ∷ polls) = returned (none, polls)

abbrev pub compare_window_size : ℕ
compare_window_size = 20

abbrev pub read_data_window_size : ℕ
read_data_window_size = 200

-- The durations that were written and are not compared yet, and what makes more of them.
pub record GroundTruth : Type 0 where
  pub queue : List ℕ
  pub generator : FluxPulseGenerator
  pub iter : List ℕ
  pub parts : List RawCellPart

-- `generate_ground_truth`: bytes are fed until the window is filled.
unfoldable pub fill_loop :
    List ℕ → FluxPulseGenerator → List ℕ → Progress (List ℕ × FluxPulseGenerator × List ℕ)
fill_loop queue g [] =
    if ltb (length queue) compare_window_size then panicked else returned (queue, g, [])
fill_loop queue g (b ∷ iter) =
    let fed = run Fluxpulse.feed g (to_bit_stream b) in
    let rest = fill_loop (queue ++ fed.1) fed.0 iter in
    if ltb (length queue) compare_window_size then rest else returned (queue, g, b ∷ iter)

unfoldable pub generate_ground_truth : GroundTruth → Progress GroundTruth
unfolding fill_loop
generate_ground_truth t = fill_loop t.queue t.generator t.iter then λ r.
    returned (record t { queue = r.0; generator = r.1; iter = r.2 })

-- Whether the next duration of the ground truth is the one before it.
abbrev pub repeats : ℕ → List ℕ → Progress Bool
repeats last [] = panicked
repeats last (front ∷ rest) = returned (front == last)

abbrev pub pop_front : GroundTruth → GroundTruth
pop_front t = record t { queue = drop 1 t.queue }

-- The loop that removes repeated durations, from the pulse that it reads for each.
unfoldable pub removal_loop : ℕ → GroundTruth → List Poll → Progress (GroundTruth × List Poll)
unfolding generate_ground_truth
removal_loop last t [] = running
removal_loop last t (idle ∷ polls) = removal_loop last t polls
removal_loop last t (stopped ∷ polls) = failed no_incoming_data
removal_loop last t (pulse f ∷ polls) = generate_ground_truth t then λ t'.
    (repeats last t'.queue then λ same.
    (let rest = removal_loop last (pop_front t') polls in
      if same then rest else returned (t', polls)))

unfoldable pub remove_repeated : ℕ → GroundTruth → List Poll → Progress (GroundTruth × List Poll)
unfolding removal_loop
remove_repeated last t polls = repeats last t.queue then λ same.
    (if same then removal_loop last (pop_front t) polls else returned (t, polls))

-- The next pulses, by the number that is left to read.
unfoldable pub record_loop : ℕ → List ℕ → List Poll → Progress (List ℕ × List Poll)
unfolding async_read_flux
record_loop zero queue polls = returned (queue, polls)
record_loop (suc left) queue polls = async_read_flux polls then λ r. elim r.0 [
  | none ↦ failed no_incoming_data
  | some f ↦ record_loop left (queue ++ (f ∷ [])) r.1
]

-- `zip` and `all`: the pairs that both have are similar.
unfoldable pub all_similar : ℕ → List ℕ → List ℕ → Bool
unfolding similar
all_similar threshold [] ys = true
all_similar threshold (x ∷ xs) [] = true
all_similar threshold (x ∷ xs) (y ∷ ys) = similar y x threshold && all_similar threshold xs ys

-- The correlation, by the positions that are left: the position that matches and what was read from
-- there on. It panics where no position is left, as the assertion behind the loop does.
unfoldable pub correlate : ℕ → ℕ → ℕ → List ℕ → List ℕ → Progress (ℕ × List ℕ)
unfolding all_similar
correlate zero position threshold truth read = panicked
correlate (suc left) position threshold truth read =
    let rest = correlate left (suc position) threshold truth (drop 1 read) in
    if ltb (length read) compare_window_size
    then failed no_cross_correlation
    else if all_similar threshold (take compare_window_size read) truth
    then returned (position, read)
    else rest
