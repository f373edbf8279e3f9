-- ===== src/Drive/Control.antt =====
-- firmware/src/floppy_control.rs: the two drives and the stepper they share. The stepper's pins are
-- there (`floppy_step_signals` is Some) or lent to a step in progress.
use stm32_usbfloppy_tracer.Drive.Unit
use stm32_usbfloppy_tracer.Base.{
  Bool, Option, Outcome, done, false, if◌then◌else◌, none, panic, some, true, ℕ, ◌==◌, ◌>>=◌,
}
use stm32_usbfloppy_tracer.CellData.{Density, DriveSelectState, Track, single_double, unselected}
use stm32_usbfloppy_tracer.Drive.Unit.{
  FloppyDriveUnit, HeadPosition, PinState, cylinder, head_position_equals,
  insert_current_head_position, is_none, is_set_low, is_spinning, low, selection_signal_active,
  spin_motor, stop_motor, take_head_position_for_stepping,
}
use stm32_usbfloppy_tracer.Drive.Stepper.{
  Poll, StepTask, Wires, pending, poll_on, ready, step_to_cylinder,
}

pub record FloppyControl : Type 0 where
  pub out_head_select : PinState
  pub out_density_select : PinState
  pub floppy_step_signals : Bool
  pub floppy_step_progress : Option StepTask
  pub drive_a : FloppyDriveUnit
  pub drive_b : FloppyDriveUnit
  pub drive_select : DriveSelectState

unfoldable pub new_control : FloppyDriveUnit → FloppyDriveUnit → PinState → PinState → FloppyControl
new_control drive_a drive_b out_head_select out_density_select = record {
  out_head_select = out_head_select;
  out_density_select = out_density_select;
  floppy_step_signals = true;
  floppy_step_progress = none;
  drive_a = drive_a;
  drive_b = drive_b;
  drive_select = unselected;
}

abbrev pub density_level : Density → PinState
density_level Density.high = PinState.high
density_level single_double = low

unfoldable pub select_density : FloppyControl → Density → FloppyControl
select_density c dens = record c { out_density_select = density_level dens }

-- The unit that a selection names, and the control with that unit replaced.
abbrev pub unit_of : DriveSelectState → FloppyControl → Option FloppyDriveUnit
unit_of unselected c = none
unit_of DriveSelectState.drive_a c = some c.drive_a
unit_of DriveSelectState.drive_b c = some c.drive_b

abbrev pub with_unit : DriveSelectState → FloppyControl → FloppyDriveUnit → FloppyControl
with_unit unselected c u = c
with_unit DriveSelectState.drive_a c u = record c { drive_a = u }
with_unit DriveSelectState.drive_b c u = record c { drive_b = u }

unfoldable pub selected_drive_unit : FloppyControl → Option FloppyDriveUnit
selected_drive_unit c = unit_of c.drive_select c

unfoldable pub put_selected : FloppyControl → FloppyDriveUnit → FloppyControl
put_selected c u = with_unit c.drive_select c u

abbrev pub expect {ℓ} : {A : Type ℓ} → Option A → Outcome A
expect none = panic
expect (some a) = done a

-- The pin is read while the selected drive answers; the pin's level comes from the drive.
unfoldable pub write_protection_is_active : FloppyControl → PinState → Outcome Bool
unfolding selected_drive_unit selection_signal_active
write_protection_is_active c in_write_protect = expect (selected_drive_unit c) >>= λ u.
    if selection_signal_active u then done (is_set_low in_write_protect) else panic

abbrev pub on_unit :
    (FloppyDriveUnit → FloppyDriveUnit) → FloppyControl → Option FloppyDriveUnit → FloppyControl
on_unit f c none = c
on_unit f c (some u) = put_selected c (f u)

unfoldable pub spin_selected : FloppyControl → FloppyControl
unfolding selected_drive_unit put_selected
spin_selected c = on_unit spin_motor c (selected_drive_unit c)

unfoldable pub stop_selected : FloppyControl → FloppyControl
unfolding selected_drive_unit put_selected
stop_selected c = on_unit stop_motor c (selected_drive_unit c)

abbrev pub unit_is_spinning : Option FloppyDriveUnit → Bool
unit_is_spinning none = false
unit_is_spinning (some u) = is_spinning u

unfoldable pub selected_is_spinning : FloppyControl → Bool
unfolding selected_drive_unit is_spinning
selected_is_spinning c = unit_is_spinning (selected_drive_unit c)

unfoldable pub select_drive : FloppyControl → DriveSelectState → FloppyControl
select_drive c state = record c { drive_select = state }

-- `floppy_step_signals.take().expect(..)`, and the step that borrows the pins.
unfoldable pub start_step : FloppyControl → HeadPosition → ℕ → Outcome FloppyControl
unfolding step_to_cylinder
start_step c position wanted =
    if c.floppy_step_signals
    then done (record c {
      floppy_step_signals = false;
      floppy_step_progress = some (step_to_cylinder position wanted);
    })
    else panic

unfoldable pub step_selected : FloppyControl → FloppyDriveUnit → ℕ → Outcome FloppyControl
unfolding head_position_equals put_selected take_head_position_for_stepping
step_selected c u wanted =
    if head_position_equals u wanted
    then done c
    else (take_head_position_for_stepping u >>= λ r. start_step (put_selected c r.1) r.0 wanted)

unfoldable pub select_track : FloppyControl → Track → Outcome FloppyControl
unfolding selected_drive_unit step_selected
select_track c track = expect (selected_drive_unit c) >>= λ u.
    (step_selected c u track.cylinder >>= λ c'.
    done (record c' { out_head_select = if track.head == 0 then PinState.high else low }))

unfoldable pub reached_selected_cylinder : FloppyControl → Bool
reached_selected_cylinder c = is_none c.floppy_step_progress

-- The step has come to its end at `position`: the pins come back and the selected drive gets its
-- position.
unfoldable pub finish_step : FloppyControl → HeadPosition → Outcome FloppyControl
unfolding selected_drive_unit put_selected insert_current_head_position
finish_step c position =
    if c.floppy_step_signals
    then panic
    else (expect (selected_drive_unit c) >>= λ u.
        (insert_current_head_position position u >>= λ u'.
        done
          (record (put_selected c u') { floppy_step_signals = true; floppy_step_progress = none })))

module _ {ℓ} {W : Type ℓ} (wires : Wires W) where
  abbrev pub polled : FloppyControl → Poll × W → Outcome (FloppyControl × W)
  polled c (pending k, w) = done (record c { floppy_step_progress = some k }, w)
  polled c (ready p, w) = finish_step c p >>= λ c'. done (c', w)

  abbrev pub poll_step : FloppyControl → Option StepTask → W → Outcome (FloppyControl × W)
  poll_step c none w = done (c, w)
  poll_step c (some k) w = polled c (poll_on wires k w)

  -- `FloppyControl::run`, called by the timer.
  unfoldable pub run : FloppyControl → W → Outcome (FloppyControl × W)
  unfolding finish_step poll_on
  run c w =
      let c' = record c { drive_a = Unit.run c.drive_a; drive_b = Unit.run c.drive_b } in
      poll_step c' c'.floppy_step_progress w
