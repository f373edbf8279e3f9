-- ===== src/FluxWriter/Preparing.antt =====
-- firmware/src/flux_writer.rs, `prepare_transmit`: when a transmission can be set up.
use stm32_usbfloppy_tracer.FluxWriter.{
  FluxWriter, dma_swapped_buffer_callback, fill, fill_buffer, prefill, prepare_transmit, pwm_mode1,
  swap_buffers,
}
use stm32_usbfloppy_tracer.FluxWriter.Order.{callback-held, fill-length, fill_buffer-held, held}
use stm32_usbfloppy_tracer.Base.{
  ==→eq, ==→ne, Bool, Bool-cases, List, [], ap, arith, done, eq→==, false, inl, inr, length,
  length-append, ltb, map, ne→==, panic, refl, true, u16, ℕ, ◌++◌, ◌+◌, ◌<◌, ◌==◌, ◌||◌, ◌∙◌, ◌∷◌,
  ◌≡◌, ◌≤◌,
}

fill-full :
    (buffer queue : List ℕ)
    → length buffer ≤ 16
    → 16 ≤ length buffer + length queue
    → length (fill buffer queue).0 ≡ 16
unfolding fill
fill-full buffer [] h k = omega arith
fill-full buffer (p ∷ ps) h k = elim (Bool-cases (length buffer == 16)) [
  | inl e ↦ rw e (==→eq _ _ e)
  | inr e ↦
      let one = length-append buffer (u16 p ∷ []) in
      rw e
        (fill-full (buffer ++ u16 p ∷ []) ps (omega (arith, ==→ne _ _ e, one)) (omega (arith, one)))
]

fill-short :
    (buffer queue : List ℕ) → length buffer + length queue < 16 → length (fill buffer queue).0 < 16
unfolding fill
fill-short buffer [] h = omega arith
fill-short buffer (p ∷ ps) h =
    let one = length-append buffer (u16 p ∷ []) in
    rw (ne→== (length buffer) 16 (omega arith))
      (fill-short (buffer ++ u16 p ∷ []) ps (omega (arith, one)))

-- Nothing transmits, and a full buffer waits.
abbrev pub IsIdle : FluxWriter → Type 0
IsIdle s = ((s.dma_enabled || s.timer_enabled) ≡ false) × (16 ≤ length s.cons)

-- A transmission is set up: the DMA unit has a full buffer, the front of the queue, no frame is the
-- last, and the timer does not run yet.
abbrev pub IsPrepared : List ℕ → FluxWriter → Type 0
IsPrepared queue s =
    (length s.back_buffer ≡ 16)
    × ((s.back_buffer ++ held s ≡ map u16 queue)
        × ((s.last_dma_frame_active ≡ false)
            × ((length s.current_buffer ≤ 16) × (s.timer_enabled ≡ false))))

prefill-current_buffer :
    (s : FluxWriter)
    → (length (prefill s).current_buffer ≤ 16) × ((prefill s).timer_enabled ≡ s.timer_enabled)
unfolding prefill dma_swapped_buffer_callback swap_buffers fill_buffer
prefill-current_buffer s =
    let short = (fill-length [] (fill [] s.cons).1 (omega arith)).0 in
    elim (Bool-cases (ltb (length (fill [] s.cons).0) 16)) [
      | inl e ↦ rw e (short, refl)
      | inr e ↦ rw e (short, refl)
    ]

or_false : (a b : Bool) → (a || b) ≡ false → b ≡ false
or_false true b h = cc
or_false false b h = h

prefill-back_buffer : (s : FluxWriter) → (prefill s).back_buffer ≡ (fill [] s.cons).0
unfolding prefill dma_swapped_buffer_callback swap_buffers fill_buffer
prefill-back_buffer s = elim (Bool-cases (ltb (length (fill [] s.cons).0) 16)) [
  | inl e ↦ rw e refl
  | inr e ↦ rw e refl
]

prefill-held : (s : FluxWriter) → (prefill s).back_buffer ++ held (prefill s) ≡ map u16 s.cons
unfolding prefill
prefill-held s =
    let empty = record s { current_buffer = []; back_buffer = [] } in
    callback-held (fill_buffer empty) ∙ fill_buffer-held empty

-- prepare_transmit of an idle flux writer with at least 16 pulses in its queue sets a transmission up;
-- while the DMA stream or the timer runs, or with fewer pulses, it panics.
pub prepare_transmit-IsPrepared :
    (s : FluxWriter)
    → (IsIdle s → (s' : FluxWriter) × ((prepare_transmit s ≡ done s') × IsPrepared s.cons s'))
      × (¬ IsIdle s → prepare_transmit s ≡ panic)
unfolding prepare_transmit
prepare_transmit-IsPrepared s =
    let filled = prefill-back_buffer s in
    (
      λ (idle, waiting).
          let full : length (prefill s).back_buffer ≡ 16 =
            ap length filled ∙ fill-full [] s.cons (omega arith) (omega (arith, waiting)) in
          (
            record (prefill s) { update_interrupt = false; output = pwm_mode1 },
            (
              rw (idle, eq→== _ _ full) refl,
              (
                full,
                (
                  prefill-held s,
                  (
                    refl,
                    (
                      (prefill-current_buffer s).0,
                      (prefill-current_buffer s).1 ∙ or_false _ _ idle,
                    ),
                  ),
                ),
              ),
            ),
          ),
      λ busy. elim (Bool-cases (s.dma_enabled || s.timer_enabled)) [
        | inl e ↦ rw e refl
        | inr e ↦
            let few : length s.cons < 16 = grind arith in
            let short = fill-short [] s.cons (omega (arith, few)) in
            rw
              (
                e,
                ne→== (length (prefill s).back_buffer) 16 (omega (arith, short, ap length filled)),
              )
              refl
      ],
    )
