-- ===== src/Runs/Drives.antt =====
-- The drives and the stepper: a drive with 83 cylinders' worth of head travel, told as a pair of a
-- cylinder and a direction level.
use stm32_usbfloppy_tracer.Drive.Unit
use stm32_usbfloppy_tracer.Base.{
  arith, done, false, inr, leb, none, panic, refl, some, ℕ, ◌-◌, ◌==◌, ◌≡◌, ◌⊎◌,
}
use stm32_usbfloppy_tracer.CellData.{DriveSelectState, Track, unselected}
use stm32_usbfloppy_tracer.Drive.Unit.{
  FloppyDriveUnit, HeadPosition, PinState, cylinder, is_spinning, low, new, spin_motor, unknown,
}
use stm32_usbfloppy_tracer.Drive.Select.{
  IsWired, motor_level, select_level, spin_motor-ticked, spins, step-IsWired, ticked,
}
use stm32_usbfloppy_tracer.Drive.Stepper.{StepTask, Wires, await, step_to_cylinder}
use stm32_usbfloppy_tracer.Drive.Motion.{
  Arrives, IsDrive, moved, step_to_cylinder_gives_up, step_to_cylinder_known,
  step_to_cylinder_unknown,
}
use stm32_usbfloppy_tracer.Drive.Control.{
  FloppyControl, finish_step, new_control, select_drive, select_track,
}
use stm32_usbfloppy_tracer.Drive.Safety.{IsResting, IsStepping, RunsTo, run-IsSound}
use stm32_usbfloppy_tracer.Drive.Arrival.{ArrivesAt, position_of, runs-arrive}
use stm32_usbfloppy_tracer.Drive.Selection.{
  finish_step-other, select_track-IsResting, select_track-stepping,
}

abbrev moves : PinState → ℕ × PinState → ℕ × PinState
moves low (c, d) = (moved d c, d)
moves PinState.high (c, d) = (c, d)

abbrev wires : Wires (ℕ × PinState)
wires = record {
  set_direction_wire = λ l w. (w.0, l);
  set_step_wire = moves;
  track_00_low = λ w. w.0 == 0;
}

abbrev at : ℕ × PinState → ℕ
at w = w.0

abbrev dir : ℕ × PinState → PinState
dir w = w.1

dir-moves : (l : PinState) (w : ℕ × PinState) → dir (moves l w) ≡ dir w
dir-moves low w = refl
dir-moves PinState.high w = refl

wires-IsDrive : IsDrive wires at dir
wires-IsDrive = record {
  at_direction = λ l w. refl;
  dir_direction = λ l w. refl;
  at_low = λ w. refl;
  at_high = λ w. refl;
  dir_step = dir-moves;
  sensor = λ w. refl;
}

step_to_cylinder_known_example :
    Arrives at 40 (await wires (step_to_cylinder (cylinder 3) 40) (3, PinState.high)).0
step_to_cylinder_known_example =
    step_to_cylinder_known wires at dir wires-IsDrive (3, PinState.high) 40

step_to_cylinder_unknown_example :
    Arrives at 2 (await wires (step_to_cylinder unknown 2) (79, low)).0
step_to_cylinder_unknown_example =
    step_to_cylinder_unknown wires at dir wires-IsDrive (79, low) 2 (omega arith)

step_to_cylinder_gives_up_example :
    let r = (await wires (step_to_cylinder unknown 2) (95, low)).0 in
    (r.0 ≡ unknown) × (at r.1 ≡ 95 - 90)
step_to_cylinder_gives_up_example =
    step_to_cylinder_gives_up wires at dir wires-IsDrive (95, low) 2 (omega arith)

abbrev unit_a : FloppyDriveUnit
unit_a = Unit.new PinState.high PinState.high

abbrev lent_unit : FloppyDriveUnit
lent_unit = record unit_a { out_drive_select = low; head_position = none }

spin_motor-ticked_example : is_spinning (ticked 601 (spin_motor unit_a)) ≡ leb 601 600
spin_motor-ticked_example = spin_motor-ticked 601 unit_a

step-IsWired_example : IsWired (spin_motor unit_a)
step-IsWired_example =
    step-IsWired unit_a (spin_motor unit_a) (spins unit_a)
      (unfold Unit.new select_level motor_level in (refl, refl))

abbrev resting : FloppyControl
resting = record (new_control unit_a unit_a PinState.high PinState.high) {
  drive_select = DriveSelectState.drive_a;
}

resting-IsResting : IsResting resting
resting-IsResting = unfold new_control Unit.new in (refl, refl, refl, refl)

abbrev to_2 : StepTask
to_2 = step_to_cylinder unknown 2

abbrev stepping : FloppyControl
stepping = record resting {
  floppy_step_signals = false;
  floppy_step_progress = some to_2;
  drive_a = lent_unit;
}

stepping-IsStepping : IsStepping stepping to_2
stepping-IsStepping = unfold new_control Unit.new in (refl, refl, (refl, refl))

run-IsSound_example : RunsTo wires stepping (5, low)
run-IsSound_example = run-IsSound wires stepping (5, low) (inr (to_2, stepping-IsStepping))

runs-arrive_example : ArrivesAt wires stepping (await wires to_2 (5, low)) (5, low)
runs-arrive_example = runs-arrive wires stepping to_2 (5, low) stepping-IsStepping

abbrev track_2 : Track
track_2 = record { cylinder = 2; head = 1 }

select_track-IsResting_example :
    let p = position_of resting.drive_select resting in
    (c' : FloppyControl) × (select_track resting track_2 ≡ done c')
    × ((p ≡ some (cylinder 2)) × IsResting c'
        ⊎ ((q : HeadPosition) × (p ≡ some q) × IsStepping c' (step_to_cylinder q 2)))
select_track-IsResting_example =
    select_track-IsResting resting track_2 resting-IsResting (unfold new_control in λ e. cc)

select_track-stepping_example : select_track stepping track_2 ≡ panic
select_track-stepping_example = select_track-stepping stepping to_2 track_2 stepping-IsStepping

finish_step-other_example : finish_step (select_drive stepping unselected) unknown ≡ panic
finish_step-other_example =
    finish_step-other stepping to_2 unselected unknown stepping-IsStepping (λ e. cc)
