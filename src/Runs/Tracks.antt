-- ===== src/Runs/Tracks.antt =====
-- Tracks that are read from a drive: firmware/src/track_raw.rs.
use stm32_usbfloppy_tracer.Fluxpulse
use stm32_usbfloppy_tracer.TrackWriter.{no_cross_correlation}
use stm32_usbfloppy_tracer.TrackVerifier.{
  GroundTruth, correlate, failed, returned, running, stopped,
}
use stm32_usbfloppy_tracer.TrackVerifier.Comparison.{compare_live}
use stm32_usbfloppy_tracer.TrackVerifier.Correlation.{correlate_lem, matches, none_before}
use stm32_usbfloppy_tracer.TrackVerifier.Waiting.{compare_live-stopped}
use stm32_usbfloppy_tracer.FluxReader.{FluxReader, dma_swapped_buffer_callback}
use stm32_usbfloppy_tracer.FluxReader.Durations.{IsRecorded, callback-IsRecorded}
use stm32_usbfloppy_tracer.Base.{
  List, Option, [], arith, done, drop, none, panic, refl, replicate, some, true, ℕ, ◌+◌, ◌<◌, ◌∷◌,
  ◌≡◌, ◌≤◌, ◌⊎◌,
}

abbrev some_truth : List ℕ
some_truth = replicate 20 168

abbrev some_flux : List ℕ
some_flux = 336 ∷ replicate 199 170

correlate_lem_example :
    ((correlate 200 0 58 some_truth some_flux ≡ failed no_cross_correlation)
      × (none_before 58 some_truth some_flux 181 ≡ true))
    ⊎ ((i : ℕ) × (i < 181)
        × (correlate 200 0 58 some_truth some_flux ≡ returned (i, drop i some_flux))
        × (matches 58 some_truth some_flux i ≡ true)
        × (none_before 58 some_truth some_flux i ≡ true))
correlate_lem_example = correlate_lem 58 some_truth some_flux refl

abbrev a_pulse_left : GroundTruth
a_pulse_left = record { queue = 168 ∷ []; generator = Fluxpulse.new 168; iter = []; parts = [] }

compare_live-stopped_example : compare_live 168 58 a_pulse_left 0 (replicate 3 stopped) ≡ running
compare_live-stopped_example = compare_live-stopped 3 168 58 0 a_pulse_left refl

abbrev some_polls : List (Option ℕ)
some_polls = some 340 ∷ none ∷ some 168 ∷ []

-- The counter wraps between two captured pulses.
abbrev wrapping : FluxReader
wrapping = record {
  current_buffer = replicate 2 0;
  back_buffer = 4294967290 ∷ 300 ∷ [];
  last_pulse_cnt = 4294967000;
  prod = 336 ∷ [];
  dma_enabled = true;
  timer_enabled = true;
}

callback-IsRecorded_example :
    (1 + 2 ≤ 511
      → (s' : FluxReader) × ((dma_swapped_buffer_callback 511 wrapping ≡ done s')
          × IsRecorded wrapping s'))
    × (511 < 1 + 2 → dma_swapped_buffer_callback 511 wrapping ≡ panic)
callback-IsRecorded_example =
    callback-IsRecorded 511 wrapping (omega arith) (omega arith, (omega arith, tt)) (omega arith)
