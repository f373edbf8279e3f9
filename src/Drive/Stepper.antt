-- ===== src/Drive/Stepper.antt =====
-- firmware/src/floppy_stepper.rs: the head stepper. An async function is the tree of what it does
-- between its suspension points, with its reads of the track 0 sensor as branches.
use stm32_usbfloppy_tracer.Base.{Bool, if◌then◌else◌, ltb, suc, zero, ℕ, ◌+◌, ◌-◌, ◌==◌}
use stm32_usbfloppy_tracer.Drive.Unit.{HeadPosition, PinState, cylinder, high, low, unknown}

pub data StepDirection : Type 0 where
  inward : StepDirection
  outward : StepDirection

pub data StepTask : Type 0 where
  ret : HeadPosition → StepTask
  yield_now : StepTask → StepTask
  set_direction_pin : PinState → StepTask → StepTask
  set_step_pin : PinState → StepTask → StepTask
  -- `true` where in_track_00 is low: the head stands on cylinder 0.
  read_track_00 : (Bool → StepTask) → StepTask

unfoldable pub wait : ℕ → StepTask → StepTask
wait zero k = k
wait (suc n) k = yield_now (wait n k)

abbrev pub duration_change_settle_time : ℕ
duration_change_settle_time = 10

abbrev pub head_settle_time : ℕ
head_settle_time = 10

unfoldable pub wait_for_head_to_settle : StepTask → StepTask
unfolding wait
wait_for_head_to_settle k = wait head_settle_time k

abbrev pub direction_level : StepDirection → PinState
direction_level inward = low
direction_level outward = high

unfoldable pub set_direction : StepDirection → StepTask → StepTask
unfolding wait
set_direction direction k =
    set_direction_pin (direction_level direction) (wait duration_change_settle_time k)

unfoldable pub perform_step : StepTask → StepTask
perform_step k = set_step_pin low (yield_now (set_step_pin high (yield_now k)))

-- `for _ in 0..n` around a step.
unfoldable pub perform_steps : ℕ → StepTask → StepTask
unfolding perform_step
perform_steps zero k = k
perform_steps (suc n) k = perform_step (perform_steps n k)

-- At most n steps, until the sensor sees cylinder 0.
unfoldable pub home : ℕ → StepTask → StepTask
unfolding perform_step
home zero k = k
home (suc n) k =
    let rest = home n k in perform_step (read_track_00 (λ at_0. if at_0 then k else rest))

-- The part of step_to_cylinder that starts from a known cylinder.
unfoldable pub step_from : ℕ → ℕ → StepTask
step_from current_pos wanted_cylinder =
    if current_pos == wanted_cylinder
    then ret (cylinder current_pos)
    else set_direction (if ltb current_pos wanted_cylinder then inward else outward) (
        perform_steps ((current_pos - wanted_cylinder) + (wanted_cylinder - current_pos))
          (wait_for_head_to_settle (ret (cylinder wanted_cylinder))))

unfoldable pub step_to_cylinder : HeadPosition → ℕ → StepTask
step_to_cylinder unknown wanted_cylinder = set_direction outward (
    home 90 (
      wait_for_head_to_settle
        (read_track_00 (λ at_0. if at_0 then step_from 0 wanted_cylinder else ret unknown))))
step_to_cylinder (cylinder pos) wanted_cylinder = step_from pos wanted_cylinder

pub data Poll : Type 0 where
  ready : HeadPosition → Poll
  pending : StepTask → Poll

-- The wires to the drive: what a level on the two output pins does to it, and what the sensor pin
-- says. The drive is outside the firmware.
pub record Wires {ℓ} (W : Type ℓ) : Type ℓ where
  pub set_direction_wire : PinState → W → W
  pub set_step_wire : PinState → W → W
  pub track_00_low : W → Bool

module _ {ℓ} {W : Type ℓ} (wires : Wires W) where
  -- `Cassette::poll_on`: up to the next suspension point.
  unfoldable pub poll_on : StepTask → W → Poll × W
  poll_on (ret p) w = (ready p, w)
  poll_on (yield_now k) w = (pending k, w)
  poll_on (set_direction_pin l k) w = poll_on k (wires.set_direction_wire l w)
  poll_on (set_step_pin l k) w = poll_on k (wires.set_step_wire l w)
  poll_on (read_track_00 k) w = poll_on (k (wires.track_00_low w)) w

  -- Polled until it is ready: the position, the drive, and the number of polls that left it pending.
  unfoldable pub await : StepTask → W → (HeadPosition × W) × ℕ
  await (ret p) w = ((p, w), 0)
  await (yield_now k) w = let r = await k w in (r.0, suc r.1)
  await (set_direction_pin l k) w = await k (wires.set_direction_wire l w)
  await (set_step_pin l k) w = await k (wires.set_step_wire l w)
  await (read_track_00 k) w = await (k (wires.track_00_low w)) w
