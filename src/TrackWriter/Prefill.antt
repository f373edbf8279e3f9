-- ===== src/TrackWriter/Prefill.antt =====
-- firmware/src/track_raw.rs, `write_track`: the prefill of the queue and the start of the transmission.
use stm32_usbfloppy_tracer.Drive.Control.{spin_selected}
use stm32_usbfloppy_tracer.Fluxpulse
use stm32_usbfloppy_tracer.Fluxpulse.{FluxPulseGenerator}
use stm32_usbfloppy_tracer.FluxWriter.{
  FluxWriter, clear_buffers, enable_write_head, prepare_transmit,
}
use stm32_usbfloppy_tracer.FluxWriter.Preparing.{IsPrepared, prepare_transmit-IsPrepared}
use stm32_usbfloppy_tracer.FluxWriter.Order.{held}
use stm32_usbfloppy_tracer.TrackWriter.Writing.{Device, checked, prefill_queue, start_writing}
use stm32_usbfloppy_tracer.TrackWriter.Interrupts.{
  Holds, Holds-branch, Holds-then, Holds-weaken, stream,
}
use stm32_usbfloppy_tracer.TrackWriter.Feeding.{feed_cells-queued, length-run, queued}
use stm32_usbfloppy_tracer.Bitstream.{to_bit_stream}
use stm32_usbfloppy_tracer.Bitstream.RoundTrip.{length-to_bit_stream, to_bit_streams}
use stm32_usbfloppy_tracer.Drive.Stepper.{Wires}
use stm32_usbfloppy_tracer.Base.{
  Bool-cases, List, [], ap, append-nil, append_assoc, arith, inl, inr, length, length-append,
  length-map, ltb, ltb→ge, ltb→lt, map, refl, run, run-append, sym, u16, ℕ, ◌++◌, ◌||◌, ◌∙◌, ◌∷◌,
  ◌≡◌, ◌≤◌,
}

module _ {W : Type 0} where
  -- The queue has got the first bytes, and is filled to 70 pulses or more.
  abbrev pub IsPrefilled :
      Device W → FluxPulseGenerator → List ℕ → (FluxPulseGenerator × List ℕ) × Device W → Type 0
  IsPrefilled d g bytes r =
      (eaten : List ℕ) × ((bytes ≡ eaten ++ r.0.1)
        × (((r.0.0 ≡ (run Fluxpulse.feed g (to_bit_streams eaten)).0)
              × (r.1 ≡ queued d (run Fluxpulse.feed g (to_bit_streams eaten)).1))
            × ((70 ≤ length r.1.writer.cons) × (length r.1.writer.cons ≤ 78))))

  queued_twice : (d : Device W) (fs gs : List ℕ) → queued (queued d fs) gs ≡ queued d (fs ++ gs)
  queued_twice d fs gs = rw append_assoc refl

  -- The first bytes are in the stream, behind what the DMA unit had got before.
  abbrev pub IsStarted :
      Device W → FluxPulseGenerator → List ℕ → (FluxPulseGenerator × List ℕ) × Device W → Type 0
  IsStarted d g bytes r =
      (eaten : List ℕ) × ((bytes ≡ eaten ++ r.0.1)
        × ((r.0.0 ≡ (run Fluxpulse.feed g (to_bit_streams eaten)).0)
            × ((stream r.1 ≡ d.handed ++ map u16 (run Fluxpulse.feed g (to_bit_streams eaten)).1)
                × (length r.1.writer.cons ≤ 78))))

prepare_transmit-Holds :
    (s : FluxWriter) → 16 ≤ length s.cons → Holds (IsPrepared s.cons) (checked (prepare_transmit s))
prepare_transmit-Holds s waiting = elim (Bool-cases (s.dma_enabled || s.timer_enabled)) [
  | inl e ↦ rw ((prepare_transmit-IsPrepared s).1 (λ idle. cc)) (λ h. cc)
  | inr e ↦
      let (s', (same, prepared)) = (prepare_transmit-IsPrepared s).0 (e, waiting) in
      rw same prepared
]

module _ {W : Type 0} (io : Wires W) (capacity : ℕ) (holds : 127 ≤ capacity) where
  pub prefill_queue-IsPrefilled :
      (g : FluxPulseGenerator) (bytes : List ℕ) (d : Device W)
      → length d.writer.cons ≤ 78
      → Holds (IsPrefilled d g bytes) (prefill_queue io capacity g bytes d)
  unfolding prefill_queue
  prefill_queue-IsPrefilled g [] d h =
      Holds-branch (IsPrefilled d g []) (ltb (length d.writer.cons) 70) _ _ (λ _. λ e. cc)
        (λ e. ([], (refl, (unfold run in (refl, simp append-nil), (ltb→ge _ _ e, h)))))
  prefill_queue-IsPrefilled g (b ∷ bytes) d h =
      let bits = to_bit_stream b in
      let r₁ = run Fluxpulse.feed g bits in
      let d₁ = queued d r₁.1 in
      let P = IsPrefilled d g (b ∷ bytes) in
      Holds-branch P (ltb (length d.writer.cons) 70) _ _
        (λ e.
          let below = ltb→lt _ _ e in
          let eight = length-to_bit_stream b in
          rw (feed_cells-queued io capacity g bits d (omega (arith, below, eight))) (
            Holds-weaken (IsPrefilled d₁ r₁.0 bytes) P (prefill_queue io capacity r₁.0 bytes d₁)
              (prefill_queue-IsPrefilled r₁.0 bytes d₁
                (omega (arith, below, eight, length-append d.writer.cons r₁.1, length-run g bits)))
              (λ r (eaten, (split, ((gen, dev), bounds))).
                let whole = run-append Fluxpulse.feed g bits (to_bit_streams eaten) in
                (
                  b ∷ eaten,
                  (
                    ap (λ l. b ∷ l) split,
                    (
                      (
                        gen ∙ sym (ap (λ x. x.0) whole),
                        dev ∙ queued_twice d r₁.1 _ ∙ sym (ap (λ x. queued d x.1) whole),
                      ),
                      bounds,
                    ),
                  ),
                ))))
        (λ e. ([], (refl, (unfold run in (refl, simp append-nil), (ltb→ge _ _ e, h)))))

  pub start_writing-IsStarted :
      (g : FluxPulseGenerator) (bytes : List ℕ) (d : Device W)
      → Holds (IsStarted d g bytes) (start_writing io capacity g bytes d)
  unfolding start_writing clear_buffers enable_write_head
  start_writing-IsStarted g bytes d =
      let spinning = record d {
        writer = enable_write_head (clear_buffers d.writer);
        control = spin_selected d.control;
      } in
      let P = IsStarted d g bytes in
      Holds-then (IsPrefilled spinning g bytes) P (prefill_queue io capacity g bytes spinning) _
        (prefill_queue-IsPrefilled g bytes spinning (omega arith))
        (λ r (eaten, (split, ((gen, dev), (enough, few)))).
          Holds-then (IsPrepared r.1.writer.cons) P (checked (prepare_transmit r.1.writer)) _
            (prepare_transmit-Holds r.1.writer (omega (arith, enough)))
            (λ s (full, (out, _)).
              let queue = r.1.writer.cons in
              let shorter : length s.cons ≤ length queue = omega (
                arith,
                ap length out,
                length-append s.back_buffer (held s),
                length-append s.current_buffer (map u16 s.cons),
                length-map s.cons u16,
                length-map queue u16,
              ) in
              (
                eaten,
                (
                  split,
                  (
                    gen,
                    (
                      append_assoc r.1.handed s.back_buffer (held s)
                          ∙ ap (λ l. r.1.handed ++ l) out
                          ∙ ap (λ (x : Device W). x.handed ++ map u16 x.writer.cons) dev,
                      omega (arith, shorter, few),
                    ),
                  ),
                ),
              )))
