-- ===== src/Drive/Selection.antt =====
-- What select_track and select_drive do to a control that rests and to one that steps.
use stm32_usbfloppy_tracer.Base.{
  ==→eq, Bool-cases, Option, ap, done, false, if◌then◌else◌, inl, inr, none, panic, refl, some,
  subst, sym, true, ℕ, ◌==◌, ◌≡◌, ◌≢◌, ◌⊎◌,
}
use stm32_usbfloppy_tracer.CellData.{DriveSelectState, Track, unselected}
use stm32_usbfloppy_tracer.Drive.Unit.{
  HeadPosition, PinState, cylinder, head_position_equals, insert_current_head_position, inserted,
  is_none, low, position_equals, take_head_position_for_stepping, unknown,
}
use stm32_usbfloppy_tracer.Drive.Stepper.{StepTask, step_to_cylinder}
use stm32_usbfloppy_tracer.Drive.Control.{
  FloppyControl, finish_step, put_selected, select_drive, select_track, selected_drive_unit,
  start_step, step_selected,
}
use stm32_usbfloppy_tracer.Drive.Safety.{IsResting, IsStepping, StepsFor}
use stm32_usbfloppy_tracer.Drive.Arrival.{position_of}

abbrev head_level : Track → PinState
head_level t = if t.head == 0 then PinState.high else low

-- The control while a step for drive d is in progress.
abbrev lent : DriveSelectState → FloppyControl → Track → HeadPosition → FloppyControl
lent unselected c t p = c
lent DriveSelectState.drive_a c t p = record c {
  floppy_step_signals = false;
  floppy_step_progress = some (step_to_cylinder p t.cylinder);
  out_head_select = head_level t;
  drive_a = record c.drive_a { out_drive_select = low; head_position = none };
}
lent DriveSelectState.drive_b c t p = record c {
  floppy_step_signals = false;
  floppy_step_progress = some (step_to_cylinder p t.cylinder);
  out_head_select = head_level t;
  drive_b = record c.drive_b { out_drive_select = low; head_position = none };
}

select_track-there :
    (d : DriveSelectState) (c : FloppyControl) (t : Track)
    → c.drive_select ≡ d
    → position_equals (position_of d c) t.cylinder ≡ true
    → select_track c t ≡ done (record c { out_head_select = head_level t })
unfolding select_track selected_drive_unit step_selected head_position_equals
select_track-there unselected c t e h = cc
select_track-there DriveSelectState.drive_a c t e h = rw (e, h) refl
select_track-there DriveSelectState.drive_b c t e h = rw (e, h) refl

select_track-away :
    (d : DriveSelectState) (c : FloppyControl) (t : Track) (p : HeadPosition)
    → c.drive_select ≡ d
    → IsResting c
    → position_of d c ≡ some p
    → position_equals (position_of d c) t.cylinder ≡ false
    → (select_track c t ≡ done (lent d c t p))
      × IsStepping (lent d c t p) (step_to_cylinder p t.cylinder)
unfolding select_track selected_drive_unit step_selected head_position_equals
    take_head_position_for_stepping put_selected start_step
select_track-away unselected c t p e r ep h = cc
select_track-away DriveSelectState.drive_a c t p e (n, s, a, b) ep h = (
  rw (e, h, ep, s) refl,
  (refl, refl, subst (λ d. StepsFor d none c.drive_b.head_position) (sym e) (refl, b)),
)
select_track-away DriveSelectState.drive_b c t p e (n, s, a, b) ep h = (
  rw (e, h, ep, s) refl,
  (refl, refl, subst (λ d. StepsFor d c.drive_a.head_position none) (sym e) (refl, a)),
)

some_of : {A : Type 0} (o : Option A) → is_none o ≡ false → (a : A) × (o ≡ some a)
some_of none h = cc
some_of (some a) h = (a, refl)

position_of-resting :
    (d : DriveSelectState) (c : FloppyControl)
    → d ≢ unselected
    → IsResting c
    → (p : HeadPosition) × (position_of d c ≡ some p)
position_of-resting unselected c d h = elim (d refl) [ ]
position_of-resting DriveSelectState.drive_a c d (n, s, a, b) = some_of c.drive_a.head_position a
position_of-resting DriveSelectState.drive_b c d (n, s, a, b) = some_of c.drive_b.head_position b

position_equals→some :
    (o : Option HeadPosition) (n : ℕ) → position_equals o n ≡ true → o ≡ some (cylinder n)
position_equals→some none n h = cc
position_equals→some (some unknown) n h = cc
position_equals→some (some (cylinder c)) n h = ap (λ x. some (cylinder x)) (==→eq c n h)

-- With a drive selected and nothing lent, select_track does not panic: either that drive's head
-- position is the wanted cylinder and nothing is lent, or the step from its position to the wanted
-- cylinder is in progress.
pub select_track-IsResting :
    (c : FloppyControl) (t : Track)
    → IsResting c
    → c.drive_select ≢ unselected
    → let at = position_of c.drive_select c in
      (c' : FloppyControl) × (select_track c t ≡ done c')
      × ((at ≡ some (cylinder t.cylinder)) × IsResting c'
          ⊎ ((p : HeadPosition) × (at ≡ some p) × IsStepping c' (step_to_cylinder p t.cylinder)))
select_track-IsResting c t h d =
    elim (Bool-cases (position_equals (position_of c.drive_select c) t.cylinder)) [
      | inl e ↦ (
        record c { out_head_select = head_level t },
        select_track-there c.drive_select c t refl e,
        inl (position_equals→some (position_of c.drive_select c) t.cylinder e, h),
      )
      | inr e ↦
          (let (p, ep) = position_of-resting c.drive_select c d h in
            let r = select_track-away c.drive_select c t p refl h ep e in
            (lent c.drive_select c t p, r.0, inr (p, ep, r.1)))
    ]

-- While a step is in progress, select_track panics.
pub select_track-stepping :
    (c : FloppyControl) (k : StepTask) (t : Track) → IsStepping c k → select_track c t ≡ panic
unfolding select_track selected_drive_unit step_selected head_position_equals
    take_head_position_for_stepping
select_track-stepping c k t (p, s, h) = by_drive c.drive_select refl h
  where
    by_drive :
        (d : DriveSelectState)
        → c.drive_select ≡ d
        → StepsFor d c.drive_a.head_position c.drive_b.head_position
        → select_track c t ≡ panic
    by_drive unselected e h = cc
    by_drive DriveSelectState.drive_a e (a, b) = rw (e, a) refl
    by_drive DriveSelectState.drive_b e (b, a) = rw (e, b) refl

-- If the selection changes while a step is in progress, the end of the step panics.
pub finish_step-other :
    (c : FloppyControl) (k : StepTask) (d : DriveSelectState) (p : HeadPosition)
    → IsStepping c k
    → d ≢ c.drive_select
    → finish_step (select_drive c d) p ≡ panic
unfolding finish_step select_drive selected_drive_unit insert_current_head_position inserted
finish_step-other c k d p (t, s, h) n = by_drive c.drive_select d n h
  where
    by_drive :
        (d d' : DriveSelectState)
        → d' ≢ d
        → StepsFor d c.drive_a.head_position c.drive_b.head_position
        → finish_step (select_drive c d') p ≡ panic
    by_drive unselected d' n h = cc
    by_drive DriveSelectState.drive_a unselected n (a, b) = rw s refl
    by_drive DriveSelectState.drive_a DriveSelectState.drive_a n h = elim (n refl) [ ]
    by_drive DriveSelectState.drive_a DriveSelectState.drive_b n (a, b) =
        let (q, e) = some_of c.drive_b.head_position b in rw (s, e) refl
    by_drive DriveSelectState.drive_b unselected n (b, a) = rw s refl
    by_drive DriveSelectState.drive_b DriveSelectState.drive_b n h = elim (n refl) [ ]
    by_drive DriveSelectState.drive_b DriveSelectState.drive_a n (b, a) =
        let (q, e) = some_of c.drive_a.head_position a in rw (s, e) refl
