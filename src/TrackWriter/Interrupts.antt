-- ===== src/TrackWriter/Interrupts.antt =====
-- firmware/src/interrupts.rs: no interrupt changes the stream of pulses, and the queue only gets
-- shorter by one.
use stm32_usbfloppy_tracer.Drive.Control
use stm32_usbfloppy_tracer.Drive.Control.{selected_is_spinning}
use stm32_usbfloppy_tracer.FluxWriter.{
  FluxWriter, count_last_pulse, dma1_stream6_irq, dma_swapped_buffer_callback, start_transmit,
  tim4_irq, tim4_pulse_complete_callback,
}
use stm32_usbfloppy_tracer.FluxWriter.Order.{
  callback-cons, callback-held, count_last_pulse-held, held,
}
use stm32_usbfloppy_tracer.TrackWriter.{Result, err, ok}
use stm32_usbfloppy_tracer.TrackWriter.Writing.{
  Device, Interrupt, Stop, before_byte, buffer_overflow, checked, dma1_stream6, exti3, hand_over,
  index_irq, interrupt, interrupts, sys_tick, then_run, tim4, wait_for_room, wait_for_transmit,
}
use stm32_usbfloppy_tracer.Drive.Stepper.{Wires}
use stm32_usbfloppy_tracer.Base.{
  Bool, Bool-cases, List, Outcome, [], ap, append_assoc, arith, done, fail, false, if◌then◌else◌,
  inl, inr, length, ltb, ltb→ge, panic, refl, sub32, true, ℕ, ◌++◌, ◌∙◌, ◌∷◌, ◌≡◌, ◌≢◌, ◌≤◌,
}

-- A run stops with a result that has the property, or for a reason other than a full queue.
abbrev pub Holds : {A : Type 0} → (A → Type 0) → Result Stop A → Type 0
Holds P (ok a) = P a
Holds P (err e) = e ≢ buffer_overflow

pub Holds-then :
    {A B : Type 0} (P : A → Type 0) (Q : B → Type 0) (r : Result Stop A) (f : A → Result Stop B)
    → Holds P r
    → ((a : A) → P a → Holds Q (f a))
    → Holds Q (then_run r f)
Holds-then P Q (ok a) f h go = go a h
Holds-then P Q (err e) f h go = h

pub Holds-weaken :
    {A : Type 0} (P Q : A → Type 0) (r : Result Stop A)
    → Holds P r
    → ((a : A) → P a → Q a)
    → Holds Q r
Holds-weaken P Q (ok a) h go = go a h
Holds-weaken P Q (err e) h go = h

Holds-checked :
    {A : Type 0} (P : A → Type 0) (r : Outcome A)
    → ((a : A) → r ≡ done a → P a)
    → Holds P (checked r)
Holds-checked P (done a) h = h a refl
Holds-checked P fail h = λ e. cc
Holds-checked P panic h = λ e. cc

Holds-if :
    {A : Type 0} (P : A → Type 0) (b : Bool) (a : A)
    → P a
    → Holds P (checked (if b then done a else panic))
Holds-if P true a h = h
Holds-if P false a h = λ e. cc

pub Holds-branch :
    {A : Type 0} (P : A → Type 0) (b : Bool) (x y : Result Stop A)
    → (b ≡ true → Holds P x)
    → (b ≡ false → Holds P y)
    → Holds P (if b then x else y)
Holds-branch P true x y h k = h refl
Holds-branch P false x y h k = k refl

module _ {W : Type 0} where
  -- All that the DMA unit has got or will get.
  abbrev pub stream : Device W → List ℕ
  stream d = d.handed ++ held d.writer

  -- Between two states the DMA unit gets on, and the queue has not grown.
  abbrev pub IsServed : Device W → Device W → Type 0
  IsServed d d' = (stream d' ≡ stream d) × (length d'.writer.cons ≤ length d.writer.cons)

  pub IsServed-more : (d e f : Device W) → IsServed d e → IsServed e f → IsServed d f
  IsServed-more d e f (s, l) (s', l') = (s' ∙ s, omega arith)

module _ {W : Type 0} (io : Wires W) where
  index_irq-IsServed : (d : Device W) → IsServed d (index_irq d)
  unfolding index_irq
  index_irq-IsServed d = elim (Bool-cases d.start_transmit_on_index) [
    | inl e ↦ rw e (unfold start_transmit in (refl, omega arith))
    | inr e ↦ rw e (refl, omega arith)
  ]

  tim4_irq-IsServed :
      (u : Bool) (d : Device W)
      → Holds
          (IsServed d)
          (then_run (checked (tim4_irq u d.writer)) (λ s. ok (record d { writer = s })))
  unfolding tim4_irq tim4_pulse_complete_callback
  tim4_irq-IsServed false d = (refl, omega arith)
  tim4_irq-IsServed true d =
      let n = sub32 d.writer.number_of_last_pulses 1 in
      let Same : FluxWriter → Type 0 = λ s. (held s ≡ held d.writer) × (s.cons ≡ d.writer.cons) in
      Holds-then Same (IsServed d) _ (λ s. ok (record d { writer = s }))
        (Holds-if Same d.writer.last_dma_frame_active (count_last_pulse n d.writer)
          (count_last_pulse-held n d.writer))
        (λ s (same, queue). (ap (λ l. d.handed ++ l) same, omega (arith, ap length queue)))

  dma1_stream6_irq-IsServed :
      (complete error : Bool) (d : Device W)
      → Holds (IsServed d) (
          then_run
            (checked (dma1_stream6_irq complete error d.writer))
            (λ s. ok (hand_over complete d s)))
  unfolding dma1_stream6_irq
  dma1_stream6_irq-IsServed complete true d = λ h. cc
  dma1_stream6_irq-IsServed false false d = (refl, omega arith)
  dma1_stream6_irq-IsServed true false d =
      let s' = dma_swapped_buffer_callback d.writer in
      (
        append_assoc d.handed s'.back_buffer (held s')
            ∙ ap (λ l. d.handed ++ l) (callback-held d.writer),
        callback-cons d.writer,
      )

  interrupt-IsServed : (i : Interrupt) (d : Device W) → Holds (IsServed d) (interrupt io i d)
  unfolding interrupt
  interrupt-IsServed exti3 d = index_irq-IsServed d
  interrupt-IsServed sys_tick d =
      Holds-then (λ _. Unit) (IsServed d) (checked (Control.run io d.control d.wires)) _
        (Holds-checked _ _ (λ a e. tt)) (λ r _. (refl, omega arith))
  interrupt-IsServed (tim4 u) d = tim4_irq-IsServed u d
  interrupt-IsServed (dma1_stream6 complete error) d = dma1_stream6_irq-IsServed complete error d

  pub interrupts-IsServed :
      (is : List Interrupt) (d : Device W) → Holds (IsServed d) (interrupts io is d)
  unfolding interrupts
  interrupts-IsServed [] d = (refl, omega arith)
  interrupts-IsServed (i ∷ is) d =
      Holds-then (IsServed d) (IsServed d) (interrupt io i d) (interrupts io is)
        (interrupt-IsServed i d)
        (λ e h.
          Holds-weaken (IsServed e) (IsServed d) (interrupts io is e) (interrupts-IsServed is e)
            (λ f k. IsServed-more d e f h k))

  pub before_byte-IsServed :
      (ms : List (List Interrupt)) (d : Device W) → Holds (IsServed d) (before_byte io ms d)
  unfolding before_byte
  before_byte-IsServed [] d = (refl, omega arith)
  before_byte-IsServed (m ∷ ms) d = interrupts-IsServed m (record d { before_bytes = ms })

  -- After a wait the queue holds at most 70 pulses.
  pub wait_for_room-IsServed :
      (ms : List (List Interrupt)) (d : Device W)
      → Holds (λ d'. IsServed d d' × (length d'.writer.cons ≤ 70)) (wait_for_room io ms d)
  unfolding wait_for_room
  wait_for_room-IsServed [] d = elim (Bool-cases (ltb 70 (length d.writer.cons))) [
    | inl e ↦ rw e (λ h. cc)
    | inr e ↦ rw e ((refl, omega arith), ltb→ge _ _ e)
  ]
  wait_for_room-IsServed (m ∷ ms) d = elim (Bool-cases (ltb 70 (length d.writer.cons))) [
    | inl e ↦
        let d₀ = record d { at_yields = ms } in
        rw e (
          Holds-then (IsServed d) _ (interrupts io m d₀) (wait_for_room io ms)
            (interrupts-IsServed m d₀)
            (λ d₁ h.
              Holds-weaken _ _ (wait_for_room io ms d₁) (wait_for_room-IsServed ms d₁)
                (λ f (k, room). (IsServed-more d d₁ f h k, room))))
    | inr e ↦ rw e ((refl, omega arith), ltb→ge _ _ e)
  ]

  -- Without a transmission the motor has stopped.
  abbrev pub IsWaited : Device W → Bool × Device W → Type 0
  IsWaited d r = IsServed d r.1 × ((r.0 ≡ false) → selected_is_spinning r.1.control ≡ false)

  pub wait_for_transmit-IsWaited :
      (ms : List (List Interrupt)) (d : Device W) → Holds (IsWaited d) (wait_for_transmit io ms d)
  unfolding wait_for_transmit
  wait_for_transmit-IsWaited [] d =
      Holds-branch (IsWaited d) d.writer.timer_enabled _ _ (λ e. ((refl, omega arith), λ h. cc))
        (λ e.
          Holds-branch (IsWaited d) (selected_is_spinning d.control) _ _ (λ k. λ h. cc)
            (λ k. ((refl, omega arith), λ h. k)))
  wait_for_transmit-IsWaited (m ∷ ms) d =
      Holds-branch (IsWaited d) d.writer.timer_enabled _ _ (λ e. ((refl, omega arith), λ h. cc))
        (λ e.
          Holds-branch (IsWaited d) (selected_is_spinning d.control) _ _
            (λ k.
              let d₀ = record d { at_yields = ms } in
              Holds-then (IsServed d) (IsWaited d) (interrupts io m d₀) (wait_for_transmit io ms)
                (interrupts-IsServed m d₀)
                (λ d₁ h.
                  Holds-weaken (IsWaited d₁) (IsWaited d) (wait_for_transmit io ms d₁)
                    (wait_for_transmit-IsWaited ms d₁)
                    (λ f (k, stopped). (IsServed-more d d₁ f.1 h k, stopped))))
            (λ k. ((refl, omega arith), λ h. k)))
