-- ===== src/Drive/Unit.antt =====
-- firmware/src/floppy_drive_unit.rs: one drive. A pin is the level last put on it; motor enable and
-- drive select are active low.
use stm32_usbfloppy_tracer.Base.{
  Bool, Option, Outcome, done, false, none, panic, some, suc, true, zero, ℕ, ◌==◌,
}

pub data PinState : Type 0 where
  low : PinState
  high : PinState

pub data MotorState : Type 0 where
  off : MotorState
  on : ℕ → MotorState

pub data HeadPosition : Type 0 where
  unknown : HeadPosition
  cylinder : ℕ → HeadPosition

pub record FloppyDriveUnit : Type 0 where
  pub out_motor_enable : PinState
  pub out_drive_select : PinState
  pub motor_state : MotorState
  pub head_position : Option HeadPosition

-- The pins arrive from the board's set-up at the levels it gave them.
unfoldable pub new : PinState → PinState → FloppyDriveUnit
new out_motor_enable out_drive_select = record {
  out_motor_enable = out_motor_enable;
  out_drive_select = out_drive_select;
  motor_state = off;
  head_position = some unknown;
}

unfoldable pub spin_motor : FloppyDriveUnit → FloppyDriveUnit
spin_motor u = record u { out_motor_enable = low; out_drive_select = low; motor_state = on 600 }

-- The level of drive select after `disable_select_signal_if_possible`.
unfoldable pub select_if_needed : MotorState → Option HeadPosition → PinState → PinState
select_if_needed off (some p) level = high
select_if_needed off none level = level
select_if_needed (on n) p level = level

unfoldable pub disable_select_signal_if_possible : FloppyDriveUnit → FloppyDriveUnit
unfolding select_if_needed
disable_select_signal_if_possible u = record u {
  out_drive_select = select_if_needed u.motor_state u.head_position u.out_drive_select;
}

abbrev pub is_set_low : PinState → Bool
is_set_low low = true
is_set_low high = false

unfoldable pub selection_signal_active : FloppyDriveUnit → Bool
selection_signal_active u = is_set_low u.out_drive_select

unfoldable pub stop_motor : FloppyDriveUnit → FloppyDriveUnit
unfolding disable_select_signal_if_possible
stop_motor u =
    disable_select_signal_if_possible (record u { out_motor_enable = high; motor_state = off })

abbrev pub run_motor : MotorState → FloppyDriveUnit → FloppyDriveUnit
run_motor off u = u
run_motor (on zero) u = stop_motor u
run_motor (on (suc n)) u = record u { motor_state = on n }

unfoldable pub run : FloppyDriveUnit → FloppyDriveUnit
run u = run_motor u.motor_state u

abbrev pub motor_is_on : MotorState → Bool
motor_is_on off = false
motor_is_on (on n) = true

unfoldable pub is_spinning : FloppyDriveUnit → Bool
is_spinning u = motor_is_on u.motor_state

abbrev pub taken : Option HeadPosition → FloppyDriveUnit → Outcome (HeadPosition × FloppyDriveUnit)
taken none u = panic
taken (some p) u = done (p, record u { out_drive_select = low; head_position = none })

-- `expect`: panics where the position is already taken.
unfoldable pub take_head_position_for_stepping :
    FloppyDriveUnit → Outcome (HeadPosition × FloppyDriveUnit)
take_head_position_for_stepping u = taken u.head_position u

abbrev pub is_none {ℓ} : {A : Type ℓ} → Option A → Bool
is_none none = true
is_none (some x) = false

-- `assert!`: panics where a position is there.
unfoldable pub inserted :
    Option HeadPosition → HeadPosition → FloppyDriveUnit → Outcome FloppyDriveUnit
inserted none pos u =
    done (disable_select_signal_if_possible (record u { head_position = some pos }))
inserted (some old) pos u = panic

unfoldable pub insert_current_head_position :
    HeadPosition → FloppyDriveUnit → Outcome FloppyDriveUnit
unfolding inserted
insert_current_head_position pos u = inserted u.head_position pos u

abbrev pub position_equals : Option HeadPosition → ℕ → Bool
position_equals (some (cylinder c)) wanted = c == wanted
position_equals (some unknown) wanted = false
position_equals none wanted = false

unfoldable pub head_position_equals : FloppyDriveUnit → ℕ → Bool
head_position_equals u wanted = position_equals u.head_position wanted
