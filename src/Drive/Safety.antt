-- ===== src/Drive/Safety.antt =====
-- The control never loses the stepper or a head position, and when its assertions fail.
use stm32_usbfloppy_tracer.Base.{
  Option, ap, done, false, inl, inr, none, refl, some, suc, true, zero, ◌∙◌, ◌≡◌, ◌⊎◌,
}
use stm32_usbfloppy_tracer.CellData.{DriveSelectState, unselected}
use stm32_usbfloppy_tracer.Drive.Unit.{
  FloppyDriveUnit, HeadPosition, MotorState, disable_select_signal_if_possible,
  insert_current_head_position, inserted, is_none, off, on, run, run_motor, stop_motor,
}
use stm32_usbfloppy_tracer.Drive.Stepper.{Poll, StepTask, Wires, pending, poll_on, ready}
use stm32_usbfloppy_tracer.Drive.Control
use stm32_usbfloppy_tracer.Drive.Control.{
  FloppyControl, finish_step, poll_step, polled, put_selected, selected_drive_unit,
}

abbrev pub other : DriveSelectState → DriveSelectState
other unselected = unselected
other DriveSelectState.drive_a = DriveSelectState.drive_b
other DriveSelectState.drive_b = DriveSelectState.drive_a

-- Nothing is lent: the stepper is there, and both drives have their position.
abbrev pub IsResting : FloppyControl → Type 0
IsResting c =
    (c.floppy_step_progress ≡ none)
    × (c.floppy_step_signals ≡ true)
    × (is_none c.drive_a.head_position ≡ false)
    × (is_none c.drive_b.head_position ≡ false)

-- A step is in progress for the selected drive, whose position it has, and no other is lent.
abbrev pub StepsFor : DriveSelectState → Option HeadPosition → Option HeadPosition → Type 0
StepsFor unselected a b = true ≡ false
StepsFor DriveSelectState.drive_a a b = (a ≡ none) × (is_none b ≡ false)
StepsFor DriveSelectState.drive_b a b = (b ≡ none) × (is_none a ≡ false)

abbrev pub IsStepping : FloppyControl → StepTask → Type 0
IsStepping c k =
    (c.floppy_step_progress ≡ some k)
    × (c.floppy_step_signals ≡ false)
    × StepsFor c.drive_select c.drive_a.head_position c.drive_b.head_position

abbrev pub IsSound : FloppyControl → Type 0
IsSound c = IsResting c ⊎ ((k : StepTask) × IsStepping c k)

head-run_motor :
    (m : MotorState) (u : FloppyDriveUnit) → (run_motor m u).head_position ≡ u.head_position
head-run_motor off u = refl
head-run_motor (on zero) u = unfold stop_motor disable_select_signal_if_possible in refl
head-run_motor (on (suc n)) u = refl

pub head-run : (u : FloppyDriveUnit) → (run u).head_position ≡ u.head_position
unfolding run
head-run u = head-run_motor u.motor_state u

-- The drives after a tick of the timer.
abbrev pub drives_ran : FloppyControl → FloppyControl
drives_ran c = record c { drive_a = run c.drive_a; drive_b = run c.drive_b }

pub StepsFor-ran :
    (d : DriveSelectState) (c : FloppyControl)
    → StepsFor d c.drive_a.head_position c.drive_b.head_position
    → StepsFor d (run c.drive_a).head_position (run c.drive_b).head_position
StepsFor-ran unselected c h = h
StepsFor-ran DriveSelectState.drive_a c (a, b) =
    (head-run c.drive_a ∙ a, ap is_none (head-run c.drive_b) ∙ b)
StepsFor-ran DriveSelectState.drive_b c (b, a) =
    (head-run c.drive_b ∙ b, ap is_none (head-run c.drive_a) ∙ a)

pub IsResting-ran : (c : FloppyControl) → IsResting c → IsResting (drives_ran c)
IsResting-ran c (p, s, a, b) =
    (p, s, ap is_none (head-run c.drive_a) ∙ a, ap is_none (head-run c.drive_b) ∙ b)

-- The selected drive takes its position back.
abbrev pub rested : DriveSelectState → FloppyControl → HeadPosition → FloppyControl
rested unselected c p = c
rested DriveSelectState.drive_a c p = record c {
  floppy_step_signals = true;
  floppy_step_progress = none;
  drive_a = disable_select_signal_if_possible (record c.drive_a { head_position = some p });
}
rested DriveSelectState.drive_b c p = record c {
  floppy_step_signals = true;
  floppy_step_progress = none;
  drive_b = disable_select_signal_if_possible (record c.drive_b { head_position = some p });
}

pub finish_step-rested :
    (d : DriveSelectState) (c : FloppyControl) (p : HeadPosition)
    → c.drive_select ≡ d
    → c.floppy_step_signals ≡ false
    → StepsFor d c.drive_a.head_position c.drive_b.head_position
    → (finish_step c p ≡ done (rested d c p)) × IsResting (rested d c p)
unfolding finish_step selected_drive_unit put_selected insert_current_head_position inserted
    disable_select_signal_if_possible
finish_step-rested unselected c p e s h = cc
finish_step-rested DriveSelectState.drive_a c p e s (a, b) =
    (rw (s, e, a) refl, (refl, refl, refl, b))
finish_step-rested DriveSelectState.drive_b c p e s (b, a) =
    (rw (s, e, b) refl, (refl, refl, a, refl))

module _ {ℓ} {W : Type ℓ} (wires : Wires W) where
  -- The control that a tick leaves, and that it is sound.
  abbrev pub RunsTo : FloppyControl → W → Type ℓ
  RunsTo c w = (r : FloppyControl × W) × (Control.run wires c w ≡ done r) × IsSound r.0

  polled-IsSound :
      (c : FloppyControl) (k : StepTask) (r : Poll × W)
      → IsStepping c k
      → (q : FloppyControl × W) × (polled wires c r ≡ done q) × IsSound q.0
  polled-IsSound c k (pending k', w) (p, s, h) = (_, refl, inr (k', (refl, s, h)))
  polled-IsSound c k (ready pos, w) (p, s, h) =
      let d = c.drive_select in
      let f = finish_step-rested d c pos refl s h in ((rested d c pos, w), rw f.0 refl, inl f.1)

  -- A timer tick on a sound control (either nothing is lent, or a step is in progress and only the
  -- selected drive's position and the stepper are lent to it) does not panic and leaves a sound
  -- control.
  pub run-IsSound : (c : FloppyControl) (w : W) → IsSound c → RunsTo c w
  unfolding Control.run
  run-IsSound c w (inl h) = ((drives_ran c, w), rw h.0 refl, inl (IsResting-ran c h))
  run-IsSound c w (inr (k, (p, s, h))) =
      let (q, e, sound) =
        polled-IsSound (drives_ran c) k (poll_on wires k w)
          (p, s, StepsFor-ran c.drive_select c h) in
      (q, ap (λ o. poll_step wires (drives_ran c) o w) p ∙ e, sound)
