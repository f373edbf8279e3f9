-- ===== src/Drive/Motion.antt =====
-- Where the head ends up after step_to_cylinder.
use stm32_usbfloppy_tracer.Base.{
  ==→eq, Bool-cases, ap, arith, eq→==, false, if◌then◌else◌, inl, inr, ltb, ltb→ge, ltb→lt, ne→==,
  refl, suc, sym, zero, ℕ, ◌+◌, ◌-◌, ◌<◌, ◌==◌, ◌∙◌, ◌≡◌, ◌≤◌,
}
use stm32_usbfloppy_tracer.Drive.Unit.{HeadPosition, PinState, cylinder, high, low, unknown}
use stm32_usbfloppy_tracer.Drive.Stepper.{
  StepDirection, StepTask, Wires, await, direction_level, home, inward, outward, perform_step,
  perform_steps, read_track_00, ret, set_direction, step_from, step_to_cylinder, wait,
  wait_for_head_to_settle,
}

-- The cylinder one step further: `low` on the direction pin points inward, and cylinder 0 has a
-- stop behind it.
abbrev pub moved : PinState → ℕ → ℕ
moved low c = suc c
moved high zero = zero
moved high (suc c) = c

-- A drive that has a cylinder and a direction: the direction pin sets the direction, the falling
-- step pin moves the head, and the sensor sees cylinder 0.
pub record IsDrive {ℓ} {W : Type ℓ} (wires : Wires W) (at : W → ℕ) (dir : W → PinState)
    : Type ℓ where
  pub at_direction : (l : PinState) (w : W) → at (wires.set_direction_wire l w) ≡ at w
  pub dir_direction : (l : PinState) (w : W) → dir (wires.set_direction_wire l w) ≡ l
  pub at_low : (w : W) → at (wires.set_step_wire low w) ≡ moved (dir w) (at w)
  pub at_high : (w : W) → at (wires.set_step_wire high w) ≡ at w
  pub dir_step : (l : PinState) (w : W) → dir (wires.set_step_wire l w) ≡ dir w
  pub sensor : (w : W) → wires.track_00_low w ≡ (at w == 0)

-- The code's position and the drive's are the wanted cylinder.
abbrev pub Arrives {ℓ} : {W : Type ℓ} → (W → ℕ) → ℕ → HeadPosition × W → Type 0
Arrives at wanted r = (r.0 ≡ cylinder wanted) × (at r.1 ≡ wanted)

module _ {ℓ} {W : Type ℓ} (wires : Wires W) (at : W → ℕ) (dir : W → PinState)
    (drive : IsDrive wires at dir) where
  await-wait : (n : ℕ) (k : StepTask) (w : W) → (await wires (wait n k) w).0 ≡ (await wires k w).0
  unfolding wait await
  await-wait zero k w = refl
  await-wait (suc n) k w = await-wait n k w

  -- One step of the head.
  abbrev stepped : W → W
  stepped w = wires.set_step_wire high (wires.set_step_wire low w)

  at-stepped : (w : W) → at (stepped w) ≡ moved (dir w) (at w)
  at-stepped w = drive.at_high (wires.set_step_wire low w) ∙ drive.at_low w

  dir-stepped : (w : W) → dir (stepped w) ≡ dir w
  dir-stepped w = drive.dir_step high (wires.set_step_wire low w) ∙ drive.dir_step low w

  await-perform_step :
      (k : StepTask) (w : W) → (await wires (perform_step k) w).0 ≡ (await wires k (stepped w)).0
  unfolding perform_step await
  await-perform_step k w = refl

  unfoldable steps_of : ℕ → W → W
  steps_of zero w = w
  steps_of (suc n) w = steps_of n (stepped w)

  await-perform_steps :
      (n : ℕ) (k : StepTask) (w : W)
      → (await wires (perform_steps n k) w).0 ≡ (await wires k (steps_of n w)).0
  unfolding perform_steps steps_of
  await-perform_steps zero k w = refl
  await-perform_steps (suc n) k w =
      await-perform_step (perform_steps n k) w ∙ await-perform_steps n k (stepped w)

  at-inward : (n : ℕ) (w : W) → dir w ≡ low → at (steps_of n w) ≡ at w + n
  unfolding steps_of
  at-inward zero w h = omega arith
  at-inward (suc n) w h =
      let e : at (stepped w) ≡ suc (at w) = at-stepped w ∙ rw h refl in
      let r = at-inward n (stepped w) (dir-stepped w ∙ h) in omega arith

  at-outward : (n : ℕ) (w : W) → dir w ≡ high → at (steps_of n w) ≡ at w - n
  unfolding steps_of
  at-outward zero w h = omega arith
  at-outward (suc n) w h =
      let e : at (stepped w) ≡ at w - 1 = at-stepped w ∙ rw h (ground arith) in
      let r = at-outward n (stepped w) (dir-stepped w ∙ h) in omega arith

  await-set_direction :
      (d : StepDirection) (k : StepTask) (w : W)
      → (await wires (set_direction d k) w).0
        ≡ (await wires k (wires.set_direction_wire (direction_level d) w)).0
  unfolding set_direction await
  await-set_direction d k w = await-wait 10 k (wires.set_direction_wire (direction_level d) w)

  await-settle :
      (p : HeadPosition) (w : W) → (await wires (wait_for_head_to_settle (ret p)) w).0 ≡ (p, w)
  unfolding wait_for_head_to_settle await
  await-settle p w = await-wait 10 (ret p) w

  -- A direction, a number of steps, and the time to settle.
  abbrev along : StepDirection → ℕ → W → W
  along d n w = steps_of n (wires.set_direction_wire (direction_level d) w)

  await-along :
      (d : StepDirection) (n : ℕ) (p : HeadPosition) (w : W)
      → (await wires (set_direction d (perform_steps n (wait_for_head_to_settle (ret p)))) w).0
        ≡ (p, along d n w)
  await-along d n p w =
      let k = wait_for_head_to_settle (ret p) in
      let w₁ = wires.set_direction_wire (direction_level d) w in
      await-set_direction d (perform_steps n k) w
      ∙ await-perform_steps n k w₁
      ∙ await-settle p (steps_of n w₁)

  at-along_inward : (n : ℕ) (w : W) → at (along inward n w) ≡ at w + n
  at-along_inward n w =
      at-inward n (wires.set_direction_wire low w) (drive.dir_direction low w)
      ∙ ap (λ c. c + n) (drive.at_direction low w)

  at-along_outward : (n : ℕ) (w : W) → at (along outward n w) ≡ at w - n
  at-along_outward n w =
      at-outward n (wires.set_direction_wire high w) (drive.dir_direction high w)
      ∙ ap (λ c. c - n) (drive.at_direction high w)

  await-step_from :
      (w : W) (wanted : ℕ) → Arrives at wanted (await wires (step_from (at w) wanted) w).0
  unfolding step_from
  await-step_from w wanted = elim (Bool-cases (at w == wanted)) [
    | inl e ↦ rw e (unfold await in (ap cylinder (==→eq (at w) wanted e), ==→eq (at w) wanted e))
    | inr e ↦ elim (Bool-cases (ltb (at w) wanted)) [
      | inl l ↦
          rw (e, l, await-along inward (away (at w)) (cylinder wanted) w)
            (refl, at-along_inward (away (at w)) w ∙ omega (arith, ltb→lt (at w) wanted l))
      | inr l ↦
          rw (e, l, await-along outward (away (at w)) (cylinder wanted) w)
            (refl, at-along_outward (away (at w)) w ∙ omega (arith, ltb→ge (at w) wanted l))
    ]
  ]
    where
      away : ℕ → ℕ
      away c = (c - wanted) + (wanted - c)

  at-stepped_high : (w : W) → dir w ≡ high → at (stepped w) ≡ at w - 1
  at-stepped_high w h = at-stepped w ∙ rw h (ground arith)

  await-home_step :
      (n : ℕ) (k : StepTask) (w : W)
      → (await wires (home (suc n) k) w).0
        ≡ (await wires (if at (stepped w) == 0 then k else home n k) (stepped w)).0
  unfolding home perform_step await
  await-home_step n k w =
      ap (λ b. (await wires (if b then k else home n k) (stepped w)).0) (drive.sensor (stepped w))

  await-home :
      (n : ℕ) (k : StepTask) (w : W)
      → dir w ≡ high
      → (w' : W) × ((await wires (home n k) w).0 ≡ (await wires k w').0) × (at w' ≡ at w - n)
  await-home zero k w h = unfold home in (w, refl, omega arith)
  await-home (suc n) k w h = rw (await-home_step n k w) (elim (Bool-cases (at (stepped w) == 0)) [
    | inl e ↦ (stepped w, rw e refl, omega (arith, at-stepped_high w h, ==→eq (at (stepped w)) 0 e))
    | inr e ↦ rw e (further (await-home n k (stepped w) (dir-stepped w ∙ h)))
  ])
    where
      further :
          ((w' : W) × ((await wires (home n k) (stepped w)).0 ≡ (await wires k w').0)
            × (at w' ≡ at (stepped w) - n))
          → (w' : W) × ((await wires (home n k) (stepped w)).0 ≡ (await wires k w').0)
            × (at w' ≡ at w - suc n)
      further (w', e₁, e₂) = (w', e₁, omega (arith, at-stepped_high w h))

  -- For any drive that has a cylinder and a direction: started from the cylinder that the head is
  -- on, step_to_cylinder returns the wanted cylinder, and the head is on it.
  pub step_to_cylinder_known :
      (w : W) (wanted : ℕ)
      → Arrives at wanted (await wires (step_to_cylinder (cylinder (at w)) wanted) w).0
  unfolding step_to_cylinder
  step_to_cylinder_known w wanted = await-step_from w wanted

  abbrev located : ℕ → StepTask
  located wanted = read_track_00 (λ at_0. if at_0 then step_from 0 wanted else ret unknown)

  await-located :
      (w : W) (wanted : ℕ)
      → (await wires (wait_for_head_to_settle (located wanted)) w).0
        ≡ (await wires (if at w == 0 then step_from 0 wanted else ret unknown) w).0
  unfolding wait_for_head_to_settle await
  await-located w wanted =
      await-wait 10 (located wanted) w
      ∙ ap (λ b. (await wires (if b then step_from 0 wanted else ret unknown) w).0) (drive.sensor w)

  -- Up to the second look at the sensor.
  await-homed :
      (w : W) (wanted : ℕ)
      → (w' : W) × (at w' ≡ at w - 90)
        × ((await wires (step_to_cylinder unknown wanted) w).0
            ≡ (await wires (if at w' == 0 then step_from 0 wanted else ret unknown) w').0)
  unfolding step_to_cylinder
  await-homed w wanted =
      let k = wait_for_head_to_settle (located wanted) in
      let w₁ = wires.set_direction_wire high w in
      let h = await-home 90 k w₁ (drive.dir_direction high w) in
      (
        h.0,
        h.2 ∙ ap (λ c. c - 90) (drive.at_direction high w),
        await-set_direction outward (home 90 k) w ∙ h.1 ∙ await-located h.0 wanted,
      )

  -- For any drive that has a cylinder and a direction: started from an unknown position, with the
  -- head at most on cylinder 90, step_to_cylinder returns the wanted cylinder, and the head is on
  -- it.
  pub step_to_cylinder_unknown :
      (w : W) (wanted : ℕ)
      → at w ≤ 90
      → Arrives at wanted (await wires (step_to_cylinder unknown wanted) w).0
  step_to_cylinder_unknown w wanted h = arrive (await-homed w wanted)
    where
      arrive :
          ((w' : W) × (at w' ≡ at w - 90)
            × ((await wires (step_to_cylinder unknown wanted) w).0
                ≡ (await wires (if at w' == 0 then step_from 0 wanted else ret unknown) w').0))
          → Arrives at wanted (await wires (step_to_cylinder unknown wanted) w).0
      arrive (w', e₁, e₂) =
          let z : at w' ≡ 0 = omega arith in
          let m : step_from (at w') wanted ≡ step_from 0 wanted = ap (λ c. step_from c wanted) z in
          rw (e₂, eq→== (at w') 0 z, sym m) (await-step_from w' wanted)

  -- For any drive that has a cylinder and a direction: started from an unknown position, with the
  -- head further in than cylinder 90, step_to_cylinder returns an unknown position, and the head is
  -- 90 cylinders further out.
  pub step_to_cylinder_gives_up :
      (w : W) (wanted : ℕ)
      → 90 < at w
      → let r = (await wires (step_to_cylinder unknown wanted) w).0 in
        (r.0 ≡ unknown) × (at r.1 ≡ at w - 90)
  step_to_cylinder_gives_up w wanted h = arrive (await-homed w wanted)
    where
      arrive :
          ((w' : W) × (at w' ≡ at w - 90)
            × ((await wires (step_to_cylinder unknown wanted) w).0
                ≡ (await wires (if at w' == 0 then step_from 0 wanted else ret unknown) w').0))
          → let r = (await wires (step_to_cylinder unknown wanted) w).0 in
            (r.0 ≡ unknown) × (at r.1 ≡ at w - 90)
      arrive (w', e₁, e₂) =
          let z : (at w' == 0) ≡ false = ne→== (at w') 0 (λ e. omega arith) in
          rw (e₂, z) (unfold await in (refl, e₁))
