-- ===== src/FluxWriter/Order.antt =====
-- firmware/src/flux_writer.rs, `fill_buffer` and `dma_swapped_buffer_callback`: the queue and the two
-- buffers keep the pulses in order.
use mathlib.Core.List.{map-append}
use stm32_usbfloppy_tracer.FluxWriter.{
  FluxWriter, count_last_pulse, dma_swapped_buffer_callback, fill, fill_buffer, swap_buffers,
}
use stm32_usbfloppy_tracer.Base.{
  ==→eq, ==→ne, Bool-cases, List, [], ap, append-nil, append_assoc, arith, inl, inr, length,
  length-append, ltb, map, refl, run, sym, u16, ℕ, ◌++◌, ◌+◌, ◌==◌, ◌∙◌, ◌∷◌, ◌≡◌, ◌≤◌, ◌⊎◌,
}

fill-in_order :
    (buffer queue : List ℕ)
    → (fill buffer queue).0 ++ map u16 (fill buffer queue).1 ≡ buffer ++ map u16 queue
unfolding fill
fill-in_order buffer [] = refl
fill-in_order buffer (p ∷ ps) = elim (Bool-cases (length buffer == 16)) [
  | inl e ↦ rw e refl
  | inr e ↦
      rw e (fill-in_order (buffer ++ u16 p ∷ []) ps ∙ append_assoc buffer (u16 p ∷ []) (map u16 ps))
]

pub fill-length :
    (buffer queue : List ℕ)
    → length buffer ≤ 16
    → (length (fill buffer queue).0 ≤ 16)
      × ((length (fill buffer queue).1 ≡ 0) ⊎ (length (fill buffer queue).0 ≡ 16))
unfolding fill
fill-length buffer [] h = (h, inl refl)
fill-length buffer (p ∷ ps) h = elim (Bool-cases (length buffer == 16)) [
  | inl e ↦ rw e (h, inr (==→eq _ _ e))
  | inr e ↦ rw e (
      fill-length (buffer ++ u16 p ∷ []) ps
        (omega (arith, ==→ne _ _ e, length-append buffer (u16 p ∷ []))))
]

-- The pulses that the buffer for the next swap and the queue hold, as the DMA unit will get them.
abbrev pub held : FluxWriter → List ℕ
held s = s.current_buffer ++ map u16 s.cons

pub fill_buffer-held : (s : FluxWriter) → held (fill_buffer s) ≡ map u16 s.cons
unfolding fill_buffer
fill_buffer-held s = fill-in_order [] s.cons

-- A swap hands the front of what is held to the DMA unit.
pub callback-held :
    (s : FluxWriter)
    → (dma_swapped_buffer_callback s).back_buffer ++ held (dma_swapped_buffer_callback s) ≡ held s
unfolding dma_swapped_buffer_callback swap_buffers
callback-held s = elim (Bool-cases (ltb (length s.current_buffer) 16)) [
  | inl e ↦ rw e (rw fill_buffer-held (unfold fill_buffer in refl))
  | inr e ↦ rw e (rw fill_buffer-held (unfold fill_buffer in refl))
]

-- What reaches the flux writer: a pulse in its queue, or a swap of the DMA unit's buffers.
pub data Event : Type 0 where
  enqueued : ℕ → Event
  swapped : Event

-- A swap's output is the buffer that it gives to the DMA unit.
unfoldable pub event : FluxWriter → Event → FluxWriter × List ℕ
event s (enqueued pulse) = (record s { cons = s.cons ++ pulse ∷ [] }, [])
event s swapped = (dma_swapped_buffer_callback s, (dma_swapped_buffer_callback s).back_buffer)

unfoldable pub enqueued_pulses : List Event → List ℕ
enqueued_pulses [] = []
enqueued_pulses (enqueued pulse ∷ events) = pulse ∷ enqueued_pulses events
enqueued_pulses (swapped ∷ events) = enqueued_pulses events

-- Over any sequence of pulses put into the queue and buffer swaps, the buffers that the DMA unit gets,
-- then what the flux writer still holds, are what it held before, then the new pulses, each as a u16.
pub run-held :
    (s : FluxWriter) (events : List Event)
    → (run event s events).1 ++ held (run event s events).0
      ≡ held s ++ map u16 (enqueued_pulses events)
unfolding event enqueued_pulses run
run-held s [] = sym (append-nil (held s))
run-held s (enqueued pulse ∷ events) =
    run-held (record s { cons = s.cons ++ pulse ∷ [] }) events ∙ simp (map-append, append_assoc)
run-held s (swapped ∷ events) =
    let s' = dma_swapped_buffer_callback s in
    let rest = run event s' events in
    append_assoc s'.back_buffer rest.1 (held rest.0)
    ∙ ap (λ l. s'.back_buffer ++ l) (run-held s' events)
    ∙ sym (append_assoc s'.back_buffer (held s') (map u16 (enqueued_pulses events)))
    ∙ ap (λ l. l ++ map u16 (enqueued_pulses events)) (callback-held s)

fill_lengths : (buffer queue : List ℕ) → length (fill buffer queue).1 ≤ length queue
unfolding fill
fill_lengths buffer [] = omega arith
fill_lengths buffer (p ∷ ps) = elim (Bool-cases (length buffer == 16)) [
  | inl e ↦ rw e (omega arith)
  | inr e ↦ rw e (omega (arith, fill_lengths (buffer ++ u16 p ∷ []) ps))
]

pub callback-cons : (s : FluxWriter) → length (dma_swapped_buffer_callback s).cons ≤ length s.cons
unfolding dma_swapped_buffer_callback swap_buffers fill_buffer
callback-cons s = elim (Bool-cases (ltb (length s.current_buffer) 16)) [
  | inl e ↦ rw e (fill_lengths [] s.cons)
  | inr e ↦ rw e (fill_lengths [] s.cons)
]

-- The timer's interrupt changes neither what is held nor the queue.
pub count_last_pulse-held :
    (n : ℕ) (s : FluxWriter)
    → (held (count_last_pulse n s) ≡ held s) × ((count_last_pulse n s).cons ≡ s.cons)
unfolding count_last_pulse
count_last_pulse-held n s = elim (Bool-cases (n == 0)) [
  | inl a ↦ rw a (refl, refl)
  | inr a ↦ elim (Bool-cases (n == 4294967295)) [
    | inl b ↦ rw (a, b) (refl, refl)
    | inr b ↦ elim (Bool-cases (n == 4294967294)) [
      | inl c ↦ rw (a, b, c) (refl, refl)
      | inr c ↦ rw (a, b, c) (refl, refl)
    ]
  ]
]

fill_takes :
    (buffer queue : List ℕ)
    → length buffer ≤ 16
    → 16 ≤ length buffer + length queue
    → length (fill buffer queue).1 + 16 ≡ length buffer + length queue
unfolding fill
fill_takes buffer [] h k = omega arith
fill_takes buffer (p ∷ ps) h k = elim (Bool-cases (length buffer == 16)) [
  | inl e ↦ rw e (omega (arith, ==→eq _ _ e))
  | inr e ↦
      let one = length-append buffer (u16 p ∷ []) in
      rw e (
        omega (
          arith,
          one,
          fill_takes (buffer ++ u16 p ∷ []) ps (omega (arith, ==→ne _ _ e, one))
              (omega (arith, one)),
        ))
]

-- A swap takes 16 pulses from a queue that has them.
pub callback-takes :
    (s : FluxWriter)
    → 16 ≤ length s.cons
    → length (dma_swapped_buffer_callback s).cons + 16 ≡ length s.cons
unfolding dma_swapped_buffer_callback swap_buffers fill_buffer
callback-takes s waiting =
    let takes = fill_takes [] s.cons (omega arith) (omega (arith, waiting)) in
    elim (Bool-cases (ltb (length s.current_buffer) 16)) [
      | inl e ↦ rw e (omega (arith, takes))
      | inr e ↦ rw e (omega (arith, takes))
    ]
