-- ===== src/TrackVerifier/Waiting.antt =====
-- firmware/src/track_raw.rs, `verify_track`: what happens when no more flux comes.
use stm32_usbfloppy_tracer.TrackWriter.{no_incoming_data}
use stm32_usbfloppy_tracer.TrackVerifier.{
  GroundTruth, Poll, async_read_flux, failed, record_loop, running, stopped,
}
use stm32_usbfloppy_tracer.TrackVerifier.Comparison.{compare_live, generate_groundtruth, is_empty}
use stm32_usbfloppy_tracer.Fluxpulse.{FluxPulseGenerator}
use stm32_usbfloppy_tracer.CellData.{RawCellPart}
use stm32_usbfloppy_tracer.Base.{
  Bool-cases, List, [], arith, false, inl, inr, length, ltb, refl, replicate, suc, zero, ℕ, ◌<◌,
  ◌∷◌, ◌≡◌,
}

-- While pulses are still being collected, a motor that stops ends the reading with an error.
pub record_loop-stopped :
    (left : ℕ) (queue : List ℕ) (polls : List Poll)
    → 0 < left
    → record_loop left queue (stopped ∷ polls) ≡ failed no_incoming_data
unfolding record_loop async_read_flux
record_loop-stopped zero queue polls h = absurd (omega arith)
record_loop-stopped (suc left) queue polls h = refl

keeps :
    (x : ℕ) (q : List ℕ) (g : FluxPulseGenerator) (iter : List ℕ) (parts : List RawCellPart)
    → is_empty
        (generate_groundtruth
          (record { queue = x ∷ q; generator = g; iter = iter; parts = parts })).queue
      ≡ false
unfolding generate_groundtruth
keeps x q g (v ∷ vs) parts = elim (Bool-cases (ltb (length (x ∷ q)) 30)) [
  | inl e ↦ rw e refl
  | inr e ↦ rw e refl
]
keeps x q g [] (part ∷ parts) = elim (Bool-cases (ltb (length (x ∷ q)) 30)) [
  | inl e ↦ rw e refl
  | inr e ↦ rw e refl
]
keeps x q g [] [] = elim (Bool-cases (ltb (length (x ∷ q)) 30)) [
  | inl e ↦ rw e refl
  | inr e ↦ rw e refl
]

any_queue :
    (q : List ℕ) (g : FluxPulseGenerator) (iter : List ℕ) (parts : List RawCellPart)
    → is_empty q ≡ false
    → is_empty
        (generate_groundtruth
          (record { queue = q; generator = g; iter = iter; parts = parts })).queue
      ≡ false
any_queue [] g iter parts h = absurd (cc h)
any_queue (x ∷ q) g iter parts h = keeps x q g iter parts

generate_groundtruth-keeps :
    (t : GroundTruth) → is_empty t.queue ≡ false → is_empty (generate_groundtruth t).queue ≡ false
generate_groundtruth-keeps t h = any_queue t.queue t.generator t.iter t.parts h

-- In the comparison of live data nothing ends the wait for a pulse: however many polls find that the
-- motor has stopped, verify_track goes on polling while there is ground truth to compare with.
pub compare_live-stopped :
    (n cell_size threshold maximum_diff : ℕ) (t : GroundTruth)
    → is_empty t.queue ≡ false
    → compare_live cell_size threshold t maximum_diff (replicate n stopped) ≡ running
unfolding compare_live
compare_live-stopped zero cell_size threshold maximum_diff t h =
    rw (generate_groundtruth-keeps t h) refl
compare_live-stopped (suc n) cell_size threshold maximum_diff t h =
    let k = generate_groundtruth-keeps t h in
    rw k (compare_live-stopped n cell_size threshold maximum_diff (generate_groundtruth t) k)
