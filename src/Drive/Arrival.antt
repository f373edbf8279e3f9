-- ===== src/Drive/Arrival.antt =====
-- A step that select_track starts comes to its end while the timer runs, and what a selection in
-- between does to it.
use stm32_usbfloppy_tracer.Drive.Control
use stm32_usbfloppy_tracer.Base.{
  Option, Outcome, ap, arith, done, none, refl, some, suc, sym, zero, ℕ, ◌>>=◌, ◌∙◌, ◌≡◌,
}
use stm32_usbfloppy_tracer.CellData.{DriveSelectState, unselected}
use stm32_usbfloppy_tracer.Drive.Unit.{HeadPosition, disable_select_signal_if_possible}
use stm32_usbfloppy_tracer.Drive.Stepper.{
  Poll, StepTask, Wires, await, pending, poll_on, read_track_00, ready, ret, set_direction_pin,
  set_step_pin, yield_now,
}
use stm32_usbfloppy_tracer.Drive.Control.{FloppyControl, poll_step, polled}
use stm32_usbfloppy_tracer.Drive.Safety.{
  IsResting, IsStepping, drives_ran, finish_step-rested, rested, StepsFor, StepsFor-ran,
}

-- The head position of the selected drive.
abbrev pub position_of : DriveSelectState → FloppyControl → Option HeadPosition
position_of unselected c = none
position_of DriveSelectState.drive_a c = c.drive_a.head_position
position_of DriveSelectState.drive_b c = c.drive_b.head_position

position_of-rested :
    (d : DriveSelectState) (c : FloppyControl) (p : HeadPosition)
    → StepsFor d c.drive_a.head_position c.drive_b.head_position
    → position_of d (rested d c p) ≡ some p
position_of-rested unselected c p h = cc
position_of-rested DriveSelectState.drive_a c p h = unfold disable_select_signal_if_possible in refl
position_of-rested DriveSelectState.drive_b c p h = unfold disable_select_signal_if_possible in refl

module _ {ℓ} {W : Type ℓ} (wires : Wires W) where
  -- What one poll does to the whole wait.
  abbrev Polled : Poll × W → (HeadPosition × W) × ℕ → Type ℓ
  Polled (ready p, w) r = r ≡ ((p, w), 0)
  Polled (pending k, w) r = r ≡ ((await wires k w).0, suc (await wires k w).1)

  poll_on-await : (k : StepTask) (w : W) → Polled (poll_on wires k w) (await wires k w)
  unfolding poll_on await
  poll_on-await (ret p) w = refl
  poll_on-await (yield_now k) w = refl
  poll_on-await (set_direction_pin l k) w = poll_on-await k (wires.set_direction_wire l w)
  poll_on-await (set_step_pin l k) w = poll_on-await k (wires.set_step_wire l w)
  poll_on-await (read_track_00 k) w = poll_on-await (k (wires.track_00_low w)) w

  -- n ticks of the timer.
  unfoldable pub runs : ℕ → FloppyControl → W → Outcome (FloppyControl × W)
  runs zero c w = done (c, w)
  runs (suc n) c w = Control.run wires c w >>= λ r. runs n r.0 r.1

  abbrev pub ArrivesAt : FloppyControl → (HeadPosition × W) × ℕ → W → Type ℓ
  ArrivesAt c r w =
      (c' : FloppyControl) × (runs (suc r.1) c w ≡ done (c', r.0.1))
      × IsResting c'
      × (position_of c.drive_select c' ≡ some r.0.0)

  run-stepping :
      (c : FloppyControl) (k : StepTask) (w : W)
      → c.floppy_step_progress ≡ some k
      → Control.run wires c w ≡ polled wires (drives_ran c) (poll_on wires k w)
  unfolding Control.run
  run-stepping c k w p = ap (λ o. poll_step wires (drives_ran c) o w) p

  arrive_from :
      (n : ℕ) (c : FloppyControl) (k : StepTask) (w : W) (q : Poll × W)
      → poll_on wires k w ≡ q
      → Polled q (await wires k w)
      → (await wires k w).1 ≡ n
      → IsStepping c k
      → ArrivesAt c (await wires k w) w
  unfolding runs
  arrive_from n c k w (ready pos, w') e a l (p, s, h) =
      let d = c.drive_select in
      let c₁ = drives_ran c in
      let h' = StepsFor-ran d c h in
      let f = finish_step-rested d c₁ pos refl s h' in
      rw a (
        rested d c₁ pos,
        rw (run-stepping c k w p, e, f.0) refl,
        f.1,
        position_of-rested d c₁ pos h',
      )
  arrive_from zero c k w (pending k', w') e a l (p, s, h) =
      let bad : suc (await wires k' w').1 ≡ zero = sym (ap (λ r. r.1) a) ∙ l in cc
  arrive_from (suc n) c k w (pending k', w') e a l (p, s, h) =
      let c₁ = record (drives_ran c) { floppy_step_progress = some k' } in
      let l' : (await wires k' w').1 ≡ n = omega (arith, ap (λ r. r.1) a) in
      let ih =
        arrive_from n c₁ k' w' (poll_on wires k' w') refl (poll_on-await k' w') l'
          (refl, s, StepsFor-ran c.drive_select c h) in
      rw a (ih.0, rw (run-stepping c k w p, e) ih.1, ih.2, ih.3)

  -- While a step is in progress for the selected drive, and the selection stands: after as many
  -- ticks of the timer as the step has suspension points and one more, nothing is lent, the drive
  -- has moved as the step moves it, and the selected drive's position is the one that the step
  -- returned.
  pub runs-arrive :
      (c : FloppyControl) (k : StepTask) (w : W) → IsStepping c k → ArrivesAt c (await wires k w) w
  runs-arrive c k w h =
      arrive_from (await wires k w).1 c k w (poll_on wires k w) refl (poll_on-await k w) refl h
