-- ===== src/TrackWriter/Waiting.antt =====
-- firmware/src/track_raw.rs, `write_track`: the prefill and the wait for the index come to their end.
use stm32_usbfloppy_tracer.TrackWriter.Prefill.{IsPrefilled, prefill_queue-IsPrefilled}
use stm32_usbfloppy_tracer.TrackWriter.{ok}
use stm32_usbfloppy_tracer.FluxWriter.Preparing.{prepare_transmit-IsPrepared}
use stm32_usbfloppy_tracer.FluxWriter.Order.{held}
use stm32_usbfloppy_tracer.FluxWriter.{clear_buffers, enable_write_head, start_transmit}
use stm32_usbfloppy_tracer.Fluxpulse
use stm32_usbfloppy_tracer.Fluxpulse.{FluxPulseGenerator}
use stm32_usbfloppy_tracer.TrackWriter.Writing.{
  Device, Interrupt, exti3, index_irq, interrupt, interrupts, prefill_queue, start_writing,
  then_run, wait_for_transmit,
}
use stm32_usbfloppy_tracer.TrackWriter.Feeding.{feed_cells-queued, queued}
use stm32_usbfloppy_tracer.TrackWriter.Pacing.{
  Returns, Returns-Holds, Returns-branch, Returns-then, swap_moment,
}
use stm32_usbfloppy_tracer.Bitstream.{to_bit_stream}
use stm32_usbfloppy_tracer.Bitstream.RoundTrip.{length-to_bit_stream, to_bit_streams}
use stm32_usbfloppy_tracer.Drive.Control.{selected_is_spinning, spin_selected}
use stm32_usbfloppy_tracer.Drive.Stepper.{Wires}
use stm32_usbfloppy_tracer.Base.{
  Bool, List, [], ap, arith, false, if◌then◌else◌, length, length-append, length-map, ltb, ltb→lt,
  map, refl, replicate, run, run-append, subst, sym, true, u16, ℕ, ◌+◌, ◌<◌, ◌||◌, ◌∙◌, ◌∷◌, ◌≡◌,
  ◌≤◌,
}

if_true : {A : Type 0} (b : Bool) (x y : A) → b ≡ true → (if b then x else y) ≡ x
if_true true x y h = refl
if_true false x y h = cc

module _ {W : Type 0} where
  -- Nothing transmits, the selected drive spins once told to, and after an index there are k swaps.
  abbrev pub IsServedBy : ℕ → Device W → Type 0
  IsServedBy k d =
      (((d.writer.dma_enabled || d.writer.timer_enabled) ≡ false)
        × (selected_is_spinning (spin_selected d.control) ≡ true))
      × ((d.before_bytes ≡ []) × (d.at_yields ≡ (exti3 ∷ []) ∷ replicate k swap_moment))

  -- Set up, and waiting for the index.
  abbrev pub IsWaiting : ℕ → Device W → Type 0
  IsWaiting k d =
      ((selected_is_spinning d.control ≡ true)
        × ((d.writer.timer_enabled ≡ false) × (d.start_transmit_on_index ≡ true)))
      × (((d.before_bytes ≡ []) × (d.at_yields ≡ (exti3 ∷ []) ∷ replicate k swap_moment))
          × ((20 < length d.writer.cons) × (length d.writer.cons ≤ 78)))

  -- The device at the index.
  abbrev pub at_index : ℕ → Device W → Device W
  at_index k d = record d {
    at_yields = replicate k swap_moment;
    index_occured = true;
    start_transmit_on_index = false;
    writer = start_transmit d.writer;
  }

module _ {W : Type 0} (io : Wires W) (capacity : ℕ) (holds : 127 ≤ capacity) where
  prefill_queue-Returns :
      (g : FluxPulseGenerator) (bytes : List ℕ) (d : Device W)
      → 70 ≤ length d.writer.cons + length (run Fluxpulse.feed g (to_bit_streams bytes)).1
      → Returns (λ _. Unit) (prefill_queue io capacity g bytes d)
  unfolding prefill_queue
  prefill_queue-Returns g [] d h =
      let full : 70 ≤ length d.writer.cons + 0 = unfold run in h in
      Returns-branch (λ _. Unit) (ltb (length d.writer.cons) 70) _ _
        (λ e. absurd (omega (arith, full, ltb→lt _ _ e))) (λ _. tt)
  prefill_queue-Returns g (b ∷ bytes) d h =
      let bits = to_bit_stream b in
      let r = run Fluxpulse.feed g bits in
      let whole = run-append Fluxpulse.feed g bits (to_bit_streams bytes) in
      Returns-branch (λ _. Unit) (ltb (length d.writer.cons) 70) _ _
        (λ e.
          rw
            (feed_cells-queued io capacity g bits d
              (omega (arith, ltb→lt _ _ e, length-to_bit_stream b)))
            (prefill_queue-Returns r.0 bytes (queued d r.1) (
              omega (
                arith,
                h,
                ap (λ x. length x.1) whole,
                length-append d.writer.cons r.1,
                length-append r.1 (run Fluxpulse.feed r.0 (to_bit_streams bytes)).1,
              ))))
        (λ _. tt)

  pub start_writing-IsWaiting :
      (g : FluxPulseGenerator) (bytes : List ℕ) (k : ℕ) (d : Device W)
      → IsServedBy k d
      → 70 ≤ length (run Fluxpulse.feed g (to_bit_streams bytes)).1
      → Returns
          (λ r. IsWaiting k r.1 × (length r.0.1 ≤ length bytes))
          (start_writing io capacity g bytes d)
  unfolding start_writing clear_buffers enable_write_head
  start_writing-IsWaiting g bytes k d ((idle, spins), (none_before, yields)) long =
      let spinning = record d {
        writer = enable_write_head (clear_buffers d.writer);
        control = spin_selected d.control;
      } in
      let Q : (FluxPulseGenerator × List ℕ) × Device W → Type 0 =
        λ r. IsWaiting k r.1 × (length r.0.1 ≤ length bytes) in
      let prefilled =
        Returns-Holds (λ _. Unit) (IsPrefilled spinning g bytes) _
          (prefill_queue-Returns g bytes spinning (omega (arith, long)))
          (prefill_queue-IsPrefilled io capacity holds g bytes spinning (omega arith)) in
      Returns-then (λ r. Unit × IsPrefilled spinning g bytes r) Q
        (prefill_queue io capacity g bytes spinning) _ prefilled
        (λ r (u, (eaten, (split, ((gen, dev), (enough, few))))).
          let queue = r.1.writer.cons in
          let idle_still =
            ap (λ (x : Device W). x.writer.dma_enabled || x.writer.timer_enabled) dev ∙ idle in
          let (s, (same, (full, (out, (frame, (current, timer)))))) =
            (prepare_transmit-IsPrepared r.1.writer).0 (idle_still, omega (arith, enough)) in
          let counts : length queue ≡ 16 + (length s.current_buffer + length s.cons) = omega (
            arith,
            full,
            ap length out,
            length-append s.back_buffer (held s),
            length-append s.current_buffer (map u16 s.cons),
            length-map s.cons u16,
            length-map queue u16,
          ) in
          rw same (
            (
              (ap (λ (x : Device W). selected_is_spinning x.control) dev ∙ spins, (timer, refl)),
              (
                (
                  ap (λ (x : Device W). x.before_bytes) dev ∙ none_before,
                  ap (λ (x : Device W). x.at_yields) dev ∙ yields,
                ),
                (omega (arith, counts, current, enough), omega (arith, counts, few)),
              ),
            ),
            omega (arith, ap length split, length-append eaten r.0.1),
          ))

  transmitting :
      (ms : List (List Interrupt)) (d : Device W)
      → d.writer.timer_enabled ≡ true
      → wait_for_transmit io ms d ≡ ok (true, d)
  unfolding wait_for_transmit
  transmitting [] d h = if_true d.writer.timer_enabled _ _ h
  transmitting (m ∷ ms) d h = if_true d.writer.timer_enabled _ _ h

  pub wait_for_transmit-at_index :
      (k : ℕ) (d : Device W)
      → IsWaiting k d
      → Returns (λ r. r ≡ (true, at_index k d)) (wait_for_transmit io d.at_yields d)
  unfolding wait_for_transmit
  wait_for_transmit-at_index k d ((spins, (timer, start)), ((none_before, yields), bounds)) =
      let ms = replicate k swap_moment in
      let d₀ = record d { at_yields = ms } in
      let R : Bool × Device W → Type 0 = λ r. r ≡ (true, at_index k d) in
      let index : interrupts io (exti3 ∷ []) d₀ ≡ ok (at_index k d) =
        unfold interrupts interrupt index_irq in
        ap ok (if_true d.start_transmit_on_index _ _ start) in
      let now : wait_for_transmit io ms (at_index k d) ≡ ok (true, at_index k d) =
        transmitting ms (at_index k d) (unfold start_transmit in refl) in
      subst (λ y. Returns R (wait_for_transmit io y d)) (sym yields)
        (Returns-branch R d.writer.timer_enabled _ _ (λ e. cc)
          (λ _.
            Returns-branch R (selected_is_spinning d.control) _ _
              (λ _.
                subst (λ x. Returns R (then_run x (wait_for_transmit io ms))) (sym index)
                  (subst (Returns R) (sym now) refl))
              (λ e. cc)))
