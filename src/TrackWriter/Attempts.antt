-- ===== src/TrackWriter/Attempts.antt =====
-- How many attempts a report of write_and_verify counts, and what it reports.
use stm32_usbfloppy_tracer.CellData.{RawCellData}
use stm32_usbfloppy_tracer.TrackWriter.{
  Async, RawTrackError, Report, Result, TrackIo, VerifyEnd, WriteVerifyError, WriteVerifySuccess,
  aborted, after_reads, after_verify, after_write, and_then, data_not_equal, err, has_panicked,
  no_cross_correlation, no_incoming_data, no_index_pulse, ok, reached, still_waiting, verified,
  verify_loop, write_again, write_and_verify, write_loop, write_protected,
}
use stm32_usbfloppy_tracer.Base.{
  Bool-cases, arith, false, inl, inr, refl, suc, u8, zero, ℕ, ◌*◌, ◌+◌, ◌==◌, ◌≡◌, ◌≢◌, ◌≤◌, ◌⊎◌,
}

-- Writing only misses the index pulse, and reading back never finds the write protection.
pub record HasKnownErrors {W : Type 0} (io : TrackIo W) : Type 0 where
  pub write_error :
      (precompensation : ℕ) (track : RawCellData) (w w' : W) (e : RawTrackError)
      → io.write_track precompensation track w ≡ reached (err e, w')
      → e ≡ no_index_pulse
  pub verify_error :
      (track track' : RawCellData) (w w' : W)
      → io.verify_track track w ≢ reached (err (write_protected, track'), w')

-- A drive that does not answer.
abbrev pub NoAnswer : RawTrackError → Type 0
NoAnswer e = (e ≡ no_index_pulse) ⊎ (e ≡ no_incoming_data)

-- The counts of operations that a report may have.
abbrev pub Counts : ℕ → ℕ → Type 0
Counts writes verifies = (writes ≤ 5) × (verifies ≤ 3 * writes)

-- The states that writes with one precompensation and reads back lead to.
pub data Reachable {W : Type 0} (io : TrackIo W) (precompensation : ℕ) (start : W)
    : W → Type 0 where
  at_start : Reachable io precompensation start start
  wrote :
      (track : RawCellData) (w w' : W) (r : Result RawTrackError RawCellData)
      → Reachable io precompensation start w
      → io.write_track precompensation track w ≡ reached (r, w')
      → Reachable io precompensation start w'
  read :
      (track : RawCellData) (w w' : W) (r : Result (RawTrackError × RawCellData) ℕ)
      → Reachable io precompensation start w
      → io.verify_track track w ≡ reached (r, w')
      → Reachable io precompensation start w'

module _ {W : Type 0} (io : TrackIo W) (precompensation : ℕ) (start : W) where
  -- The state behind a successful read back.
  abbrev pub Verified : ℕ → W → Type 0
  Verified max_err w' =
      (track : RawCellData) × (w : W) × (Reachable io precompensation start w
        × (io.verify_track track w ≡ reached (ok max_err, w')))

  -- A write or a read back that a run comes to and that still waits, or panics.
  abbrev pub Waits : Type 0
  Waits =
      (track : RawCellData) × (w : W) × (Reachable io precompensation start w
        × ((io.write_track precompensation track w ≡ still_waiting)
            ⊎ (io.verify_track track w ≡ still_waiting)))

  abbrev pub Panics : Type 0
  Panics =
      (track : RawCellData) × (w : W) × (Reachable io precompensation start w
        × ((io.write_track precompensation track w ≡ has_panicked)
            ⊎ (io.verify_track track w ≡ has_panicked)))

  -- A success ends behind a successful read back, with at least as many reads as writes; an error names a
  -- drive that does not answer, or data that never matched in five writes. Without a report a write
  -- or a read back has not returned.
  abbrev pub Reports : Async (Result WriteVerifyError WriteVerifySuccess × W) → Type 0
  Reports (reached (ok s, w)) =
      Counts s.write_operations s.verify_operations
      × (1 ≤ s.write_operations)
      × (s.write_operations ≤ s.verify_operations)
      × (s.write_precompensation ≡ precompensation)
      × Verified s.max_err w
  Reports (reached (err e, w)) =
      Counts e.write_operations e.verify_operations
      × (NoAnswer e.error ⊎ ((e.error ≡ data_not_equal) × (e.write_operations ≡ 5)))
  Reports still_waiting = Waits
  Reports has_panicked = Panics

pub Async-cases :
    {A : Type 0} (r : Async A)
    → ((a : A) × (r ≡ reached a)) ⊎ ((r ≡ still_waiting) ⊎ (r ≡ has_panicked))
Async-cases (reached a) = inl (a, refl)
Async-cases still_waiting = inr (inl refl)
Async-cases has_panicked = inr (inr refl)

module _ {W : Type 0} (io : TrackIo W) (known : HasKnownErrors io) (p : ℕ) (start : W) where
  abbrev At : W → Type 0
  At = Reachable io p start

  -- The end of the reads, with at least lo and at most hi verify operations.
  Ends : ℕ → ℕ → Async (VerifyEnd × W) → Type 0
  Ends lo hi (reached (verified max_err ops, w)) =
      (lo ≤ ops) × (ops ≤ hi) × Verified io p start max_err w
  Ends lo hi (reached (write_again track ops, w)) = (lo ≤ ops) × (ops ≤ hi) × At w
  Ends lo hi (reached (aborted error ops, w)) = (ops ≤ hi) × NoAnswer error
  Ends lo hi still_waiting = Waits io p start
  Ends lo hi has_panicked = Panics io p start

  after_verify-Ends :
      (read_try ops hi : ℕ) (again : RawCellData → W → Async (VerifyEnd × W)) (track : RawCellData)
      (w : W) (r : Result (RawTrackError × RawCellData) ℕ × W)
      → At w
      → io.verify_track track w ≡ reached r
      → ops ≤ hi
      → ((track' : RawCellData) (w' : W) → At w' → Ends ops hi (again track' w'))
      → Ends ops hi (after_verify io read_try ops again r)
  unfolding Ends
  after_verify-Ends read_try ops hi again track w (ok max_err, w') at_w e h f =
      (omega arith, h, (track, w, (at_w, e)))
  after_verify-Ends read_try ops hi again track w (err (data_not_equal, t), w') at_w e h f =
      f t w' (read track w w' _ at_w e)
  after_verify-Ends read_try ops hi again track w (err (no_cross_correlation, t), w') at_w e h f =
      elim (Bool-cases (read_try == 0)) [
        | inl z ↦ rw z (f t w' (read track w w' _ at_w e))
        | inr z ↦ rw z (omega arith, h, read track w w' _ at_w e)
      ]
  after_verify-Ends read_try ops hi again track w (err (no_incoming_data, t), w') at_w e h f =
      (h, inr refl)
  after_verify-Ends read_try ops hi again track w (err (no_index_pulse, t), w') at_w e h f =
      (h, inl refl)
  after_verify-Ends read_try ops hi again track w (err (write_protected, t), w') at_w e h f =
      absurd (known.verify_error track t w w' e)

  weaken_end : (lo hi : ℕ) (r : Async (VerifyEnd × W)) → Ends (suc lo) hi r → Ends lo hi r
  unfolding Ends
  weaken_end lo hi (reached (verified max_err ops, w)) (a, b, v) = (omega arith, b, v)
  weaken_end lo hi (reached (write_again track ops, w)) (a, b, v) = (omega arith, b, v)
  weaken_end lo hi (reached (aborted error ops, w)) h = h
  weaken_end lo hi still_waiting h = h
  weaken_end lo hi has_panicked h = h

  verify_loop-step :
      (left read_try ops : ℕ) (track : RawCellData) (w : W)
      → At w
      → ((read_try' ops' : ℕ) (track' : RawCellData) (w' : W)
          → At w'
          → ops' + left ≤ 15
          → Ends ops' (ops' + left) (verify_loop io left read_try' ops' track' w'))
      → ops + suc left ≤ 15
      → Ends (suc ops) (suc ops + left) (verify_loop io (suc left) read_try ops track w)
  unfolding verify_loop
  verify_loop-step left read_try ops track w at_w f h =
      let e : u8 (ops + 1) ≡ suc ops = omega arith in
      elim (Async-cases (io.verify_track track w)) [
        | inl (r, q) ↦
            rw (q, e)
              (after_verify-Ends read_try (suc ops) (suc ops + left) _ track w r at_w q
                (omega arith)
                (λ track' w' at_w'. f (suc read_try) (suc ops) track' w' at_w' (omega arith)))
        | inr (inl q) ↦ rw q (unfold Ends in (track, w, (at_w, inr q)))
        | inr (inr q) ↦ rw q (unfold Ends in (track, w, (at_w, inr q)))
      ]

  verify_loop-Ends :
      (left read_try ops : ℕ) (track : RawCellData) (w : W)
      → At w
      → ops + left ≤ 15
      → Ends ops (ops + left) (verify_loop io left read_try ops track w)
  verify_loop-Ends zero read_try ops track w at_w h =
      unfold verify_loop Ends in (omega arith, omega arith, at_w)
  verify_loop-Ends (suc left) read_try ops track w at_w h =
      let e : ops + suc left ≡ suc ops + left = omega arith in
      rw e (
        weaken_end ops (suc ops + left) _
          (verify_loop-step left read_try ops track w at_w (verify_loop-Ends left) h))

  -- What a round of the outer loop is given.
  abbrev Reached : ℕ → ℕ → ℕ → Type 0
  Reached left writes ops = (left + writes ≡ 5) × (writes ≤ ops) × (ops ≤ 3 * writes)

  after_reads-Reports :
      (left writes ops : ℕ) (again : ℕ → RawCellData → W → Report io) (r : Async (VerifyEnd × W))
      → Reached (suc left) writes ops
      → Ends (suc ops) (suc ops + 2) r
      → ((ops' : ℕ) (track : RawCellData) (w : W)
          → At w
          → Reached left (suc writes) ops'
          → Reports io p start (again ops' track w))
      → Reports io p start (and_then r (after_reads io p (suc writes) again))
  unfolding Ends
  after_reads-Reports left writes ops again (reached (verified max_err ops', w)) (h₁, h₂, h₃)
        (e₁, e₂, v) f =
      ((omega arith, omega arith), omega arith, omega arith, refl, v)
  after_reads-Reports left writes ops again (reached (write_again track ops', w)) (h₁, h₂, h₃)
        (e₁, e₂, at_w) f =
      f ops' track w at_w (omega arith, omega arith, omega arith)
  after_reads-Reports left writes ops again (reached (aborted error ops', w)) (h₁, h₂, h₃) (e₁, n)
        f =
      ((omega arith, omega arith), inl n)
  after_reads-Reports left writes ops again still_waiting h e f = e
  after_reads-Reports left writes ops again has_panicked h e f = e

  after_write-Reports :
      (left writes ops : ℕ) (track : RawCellData) (w : W) (go : RawCellData → W → Report io)
      → At w
      → Reached (suc left) writes ops
      → ((track' : RawCellData) (w' : W) → At w' → Reports io p start (go track' w'))
      → Reports io p start
          (and_then (io.write_track p track w) (after_write io (suc writes) ops go))
  after_write-Reports left writes ops track w go at_w (h₁, h₂, h₃) f =
      elim (Async-cases (io.write_track p track w)) [
        | inl ((ok t, w'), q) ↦ rw q (f t w' (wrote track w w' (ok t) at_w q))
        | inl ((err error, w'), q) ↦
            rw q ((omega arith, omega arith), inl (inl (known.write_error p track w w' error q)))
        | inr (inl q) ↦ rw q (track, w, (at_w, inl q))
        | inr (inr q) ↦ rw q (track, w, (at_w, inl q))
      ]

  write_loop-Reports :
      (left writes ops : ℕ) (track : RawCellData) (w : W)
      → At w
      → Reached left writes ops
      → Reports io p start (write_loop io left p writes ops track w)
  unfolding write_loop
  write_loop-Reports zero writes ops track w at_w (e, a, b) =
      ((omega arith, b), inr (refl, omega arith))
  write_loop-Reports (suc left) writes ops track w at_w (e, a, b) =
      let n : u8 (writes + 1) ≡ suc writes = omega arith in
      rw n (
        after_write-Reports left writes ops track w _ at_w (e, a, b)
          (λ track' w' at_w'.
            after_reads-Reports left writes ops _ (verify_loop io 3 0 ops track' w') (e, a, b)
              (verify_loop-step 2 0 ops track' w' at_w' (verify_loop-Ends 2) (omega arith))
              (λ ops' t w''. write_loop-Reports left (suc writes) ops' t w'')))

  -- Over any writes and reads back with these errors, on a disk that is not write protected.
  pub write_and_verify-Reports :
      (track : RawCellData) → Reports io p start (write_and_verify io false p track start)
  unfolding write_and_verify
  write_and_verify-Reports track =
      write_loop-Reports 5 0 0 track start at_start (refl, omega arith, omega arith)
