-- ===== src/Drive/Select.antt =====
-- When a drive holds its motor and its select line.
use stm32_usbfloppy_tracer.Base.{
  Option, ap, arith, done, false, leb, none, refl, some, subst, suc, sym, zero, ℕ, ◌∙◌, ◌≡◌,
}
use stm32_usbfloppy_tracer.Drive.Unit.{
  FloppyDriveUnit, HeadPosition, MotorState, PinState, disable_select_signal_if_possible, high,
  insert_current_head_position, inserted, is_spinning, low, off, on, run, run_motor,
  select_if_needed, spin_motor, stop_motor, take_head_position_for_stepping, taken,
}

-- The level drive select has to have: low while the motor is on or the head is stepping.
unfoldable pub select_level : MotorState → Option HeadPosition → PinState
select_level off (some p) = high
select_level off none = low
select_level (on n) p = low

unfoldable pub motor_level : MotorState → PinState
motor_level off = high
motor_level (on n) = low

abbrev pub IsWired : FloppyDriveUnit → Type 0
IsWired u =
    (u.out_drive_select ≡ select_level u.motor_state u.head_position)
    × (u.out_motor_enable ≡ motor_level u.motor_state)

-- What can happen to a drive.
pub data UnitStep : FloppyDriveUnit → FloppyDriveUnit → Type 0 where
  spins : (u : FloppyDriveUnit) → UnitStep u (spin_motor u)
  stops : (u : FloppyDriveUnit) → UnitStep u (stop_motor u)
  ticks : (u : FloppyDriveUnit) → UnitStep u (run u)
  takes :
      (u u' : FloppyDriveUnit) (p : HeadPosition)
      → take_head_position_for_stepping u ≡ done (p, u')
      → UnitStep u u'
  inserts :
      (u u' : FloppyDriveUnit) (p : HeadPosition)
      → insert_current_head_position p u ≡ done u'
      → UnitStep u u'

select_if_needed-low :
    (m : MotorState) (h : Option HeadPosition) → select_if_needed m h low ≡ select_level m h
unfolding select_if_needed select_level
select_if_needed-low off (some p) = refl
select_if_needed-low off none = refl
select_if_needed-low (on n) h = refl

select_if_needed-off :
    (m : MotorState) (h : Option HeadPosition)
    → select_if_needed off h (select_level m h) ≡ select_level off h
unfolding select_if_needed select_level
select_if_needed-off m (some p) = refl
select_if_needed-off off none = refl
select_if_needed-off (on n) none = refl

stop_motor-IsWired : (u : FloppyDriveUnit) → IsWired u → IsWired (stop_motor u)
unfolding stop_motor disable_select_signal_if_possible motor_level
stop_motor-IsWired u (s, m) = (rw s (select_if_needed-off u.motor_state u.head_position), refl)

run_motor-IsWired :
    (u : FloppyDriveUnit) (m : MotorState) → u.motor_state ≡ m → IsWired u → IsWired (run_motor m u)
run_motor-IsWired u off e h = h
run_motor-IsWired u (on zero) e h = stop_motor-IsWired u h
run_motor-IsWired u (on (suc n)) e (s, m) =
    unfold select_level motor_level in (s ∙ rw e refl, m ∙ rw e refl)

select_level-none : (m : MotorState) → select_level m none ≡ low
unfolding select_level
select_level-none off = refl
select_level-none (on n) = refl

take-IsWired :
    (u u' : FloppyDriveUnit) (p : HeadPosition) (h : Option HeadPosition)
    → taken h u ≡ done (p, u')
    → IsWired u
    → IsWired u'
take-IsWired u u' p none e w = cc
take-IsWired u u' p (some q) e (s, m) =
    let d : record u { out_drive_select = low; head_position = none } ≡ u' = cc in
    subst IsWired d (sym (select_level-none u.motor_state), m)

inserted-IsWired :
    (u u' : FloppyDriveUnit) (p : HeadPosition) (h : Option HeadPosition)
    → u.head_position ≡ h
    → inserted h p u ≡ done u'
    → IsWired u
    → IsWired u'
unfolding inserted
inserted-IsWired u u' p (some q) eh e w = cc
inserted-IsWired u u' p none eh e (s, m) =
    let v = record u { head_position = some p } in
    let d : disable_select_signal_if_possible v ≡ u' = cc in
    let l : u.out_drive_select ≡ low = s ∙ rw eh (select_level-none u.motor_state) in
    subst IsWired d (
      unfold disable_select_signal_if_possible in
      (rw l (select_if_needed-low u.motor_state (some p)), m))

-- Every operation of a drive keeps its two lines right: drive select is low exactly while the motor
-- is on or the head position is lent to a step, and motor enable is low exactly while the motor is
-- on.
pub step-IsWired : (u u' : FloppyDriveUnit) → UnitStep u u' → IsWired u → IsWired u'
step-IsWired _ _ (spins u) (s, m) = unfold spin_motor select_level motor_level in (refl, refl)
step-IsWired _ _ (stops u) h = stop_motor-IsWired u h
step-IsWired _ _ (ticks u) h = unfold run in run_motor-IsWired u u.motor_state refl h
step-IsWired _ _ (takes u u' p e) h =
    unfold take_head_position_for_stepping in take-IsWired u u' p u.head_position e h
step-IsWired _ _ (inserts u u' p e) h =
    unfold insert_current_head_position in inserted-IsWired u u' p u.head_position refl e h

-- n ticks of the timer.
unfoldable pub ticked : ℕ → FloppyDriveUnit → FloppyDriveUnit
unfolding run
ticked zero u = u
ticked (suc n) u = ticked n (run u)

run_motor-off : (u : FloppyDriveUnit) → u.motor_state ≡ off → run u ≡ u
unfolding run
run_motor-off u h = rw h refl

ticked_off : (n : ℕ) (u : FloppyDriveUnit) → u.motor_state ≡ off → is_spinning (ticked n u) ≡ false
unfolding ticked is_spinning
ticked_off zero u h = rw h refl
ticked_off (suc n) u h = ap (λ v. is_spinning (ticked n v)) (run_motor-off u h) ∙ ticked_off n u h

ticked_on :
    (n k : ℕ) (u : FloppyDriveUnit) → u.motor_state ≡ on k → is_spinning (ticked n u) ≡ leb n k
unfolding ticked is_spinning
ticked_on zero k u h = rw h (ground arith)
ticked_on (suc n) zero u h =
    ticked_off n (run u) (unfold run stop_motor disable_select_signal_if_possible in rw h refl)
    ∙ ground arith
ticked_on (suc n) (suc k) u h = ticked_on n k (run u) (unfold run in rw h refl) ∙ ground arith

-- After spin_motor the motor is on for exactly 600 ticks, and off from the next one on.
pub spin_motor-ticked :
    (n : ℕ) (u : FloppyDriveUnit) → is_spinning (ticked n (spin_motor u)) ≡ leb n 600
spin_motor-ticked n u = ticked_on n 600 (spin_motor u) (unfold spin_motor in refl)
