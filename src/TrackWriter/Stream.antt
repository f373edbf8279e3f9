-- ===== src/TrackWriter/Stream.antt =====
-- firmware/src/track_raw.rs, `write_track`: bytes and parts fed to the queue while interrupts take from
-- it.
use stm32_usbfloppy_tracer.Fluxpulse
use stm32_usbfloppy_tracer.Fluxpulse.{FluxPulseGenerator, flush}
use mathlib.Core.List.{map-append}
use stm32_usbfloppy_tracer.TrackWriter.Writing.{
  Device, before_byte, feed_cells, feed_mfm_raw_iterator_to_writer, feed_part_cells, trailing_cells,
  wait_for_room,
}
use stm32_usbfloppy_tracer.TrackWriter.Interrupts.{
  Holds, Holds-branch, Holds-then, Holds-weaken, IsServed, before_byte-IsServed, IsServed-more,
  stream, wait_for_room-IsServed,
}
use stm32_usbfloppy_tracer.TrackWriter.Feeding.{feed_cells-queued, length-run, queued-stream}
use stm32_usbfloppy_tracer.Bitstream.{to_bit_stream}
use stm32_usbfloppy_tracer.Bitstream.RoundTrip.{length-to_bit_stream, to_bit_streams}
use stm32_usbfloppy_tracer.RawTrack.Writability.{at_duration}
use stm32_usbfloppy_tracer.CellData.{RawCellPart}
use stm32_usbfloppy_tracer.Drive.Stepper.{Wires}
use stm32_usbfloppy_tracer.Base.{
  Bit, List, [], ap, append-nil, append_assoc, arith, length, length-append, ltb, map, refl, run,
  run-append, subst, sym, u16, ℕ, ◌++◌, ◌+◌, ◌∙◌, ◌∷◌, ◌≡◌, ◌≤◌,
}

-- What a generator does: where it ends, and its pulses.
abbrev pub Fed : Type 0
Fed = FluxPulseGenerator × List ℕ

abbrev pub fed_then : Fed → (FluxPulseGenerator → Fed) → Fed
fed_then (g, fs) more = ((more g).0, fs ++ (more g).1)

-- The cells of the parts, each at its part's cell duration.
unfoldable pub fed_parts : List RawCellPart → FluxPulseGenerator → Fed
fed_parts [] g = (g, [])
fed_parts (part ∷ parts) g =
    fed_then (run Fluxpulse.feed (at_duration part.cell_size g) (to_bit_streams part.cells))
      (fed_parts parts)

-- All that a track's writing makes of its parts.
unfoldable pub fed_track : FluxPulseGenerator → List RawCellPart → Fed
unfolding fed_parts
fed_track g parts =
    fed_then (fed_then (fed_parts parts g) (λ g'. run Fluxpulse.feed g' trailing_cells)) flush

module _ {W : Type 0} where
  -- The stream has got a generator's pulses, and at most n of them are in the queue.
  abbrev pub IsWritten : Device W → Fed → ℕ → FluxPulseGenerator × Device W → Type 0
  IsWritten d e n r =
      (r.0 ≡ e.0) × ((stream r.1 ≡ stream d ++ map u16 e.1) × (length r.1.writer.cons ≤ n))

  pub IsWritten-then :
      (d : Device W) (e : Fed) (more : FluxPulseGenerator → Fed) (m n : ℕ)
      (r r' : FluxPulseGenerator × Device W)
      → IsWritten d e m r
      → IsWritten r.1 (more r.0) n r'
      → IsWritten d (fed_then e more) n r'
  IsWritten-then d e more m n r r' (g, (s, l)) (g', (s', l')) = (
    g' ∙ ap (λ x. (more x).0) g,
    (
      s'
          ∙ ap (λ t. t ++ map u16 (more r.0).1) s
          ∙ ap (λ x. (stream d ++ map u16 e.1) ++ map u16 (more x).1) g
          ∙ simp (map-append, append_assoc),
      l',
    ),
  )

  served-IsWritten :
      (d d' : Device W) (e : Fed) (n : ℕ) (r : FluxPulseGenerator × Device W)
      → IsServed d d'
      → IsWritten d' e n r
      → IsWritten d e n r
  served-IsWritten d d' e n r (s, l) (g, (s', l')) = (g, (s' ∙ ap (λ t. t ++ map u16 e.1) s, l'))

module _ {W : Type 0} (io : Wires W) (capacity : ℕ) (holds : 127 ≤ capacity) where
  pub feed_cells-IsWritten :
      (g : FluxPulseGenerator) (cells : List Bit) (d : Device W) (n : ℕ)
      → length d.writer.cons + length cells ≤ n
      → n ≤ 127
      → Holds (IsWritten d (run Fluxpulse.feed g cells) n) (feed_cells io capacity g cells d)
  feed_cells-IsWritten g cells d n room low =
      let fs = (run Fluxpulse.feed g cells).1 in
      rw (feed_cells-queued io capacity g cells d (omega arith)) (
        refl,
        (queued-stream d fs, omega (arith, length-append d.writer.cons fs, length-run g cells)),
      )

  pub feed_bytes-IsWritten :
      (g : FluxPulseGenerator) (bytes : List ℕ) (d : Device W)
      → length d.writer.cons ≤ 78
      → Holds
          (IsWritten d (run Fluxpulse.feed g (to_bit_streams bytes)) 78)
          (feed_mfm_raw_iterator_to_writer io capacity g bytes d)
  unfolding feed_mfm_raw_iterator_to_writer
  feed_bytes-IsWritten g [] d h = unfold run in (refl, (sym (append-nil (stream d)), h))
  feed_bytes-IsWritten g (b ∷ bytes) d h =
      let P = IsWritten d (run Fluxpulse.feed g (to_bit_streams (b ∷ bytes))) 78 in
      Holds-then (IsServed d) P (before_byte io d.before_bytes d) _
        (before_byte-IsServed io d.before_bytes d)
        (λ d₁ s₁.
          Holds-branch P (ltb 20 (length d₁.writer.cons)) _ _
            (λ _.
              Holds-then (λ d₂. IsServed d₁ d₂ × (length d₂.writer.cons ≤ 70)) P
                (wait_for_room io d₁.at_yields d₁) _ (wait_for_room-IsServed io d₁.at_yields d₁)
                (λ d₂ (s₂, room).
                  Holds-then (IsWritten d₂ (run Fluxpulse.feed g (to_bit_stream b)) 78) P
                    (feed_cells io capacity g (to_bit_stream b) d₂) _
                    (feed_cells-IsWritten g (to_bit_stream b) d₂ 78
                      (omega (arith, length-to_bit_stream b)) (omega arith))
                    (λ r w.
                      Holds-weaken
                        (IsWritten r.1 (run Fluxpulse.feed r.0 (to_bit_streams bytes)) 78) P
                        (feed_mfm_raw_iterator_to_writer io capacity r.0 bytes r.1)
                        (feed_bytes-IsWritten r.0 bytes r.1 w.1.1)
                        (λ r' w'.
                          subst (λ e. IsWritten d e 78 r')
                            (sym (
                              run-append Fluxpulse.feed g (to_bit_stream b) (to_bit_streams bytes)))
                            (IsWritten-then d (run Fluxpulse.feed g (to_bit_stream b))
                              (λ x. run Fluxpulse.feed x (to_bit_streams bytes)) 78 78 r r'
                              (served-IsWritten d d₂ _ 78 r (IsServed-more d d₁ d₂ s₁ s₂) w) w')))))
            (λ _. λ e. cc))

  pub feed_part_cells-IsWritten :
      (g : FluxPulseGenerator) (parts : List RawCellPart) (d : Device W)
      → length d.writer.cons ≤ 78
      → Holds (IsWritten d (fed_parts parts g) 78) (feed_part_cells io capacity g parts d)
  unfolding feed_part_cells fed_parts
  feed_part_cells-IsWritten g [] d h = (refl, (sym (append-nil (stream d)), h))
  feed_part_cells-IsWritten g (part ∷ parts) d h =
      let g' = at_duration part.cell_size g in
      let e = run Fluxpulse.feed g' (to_bit_streams part.cells) in
      Holds-then (IsWritten d e 78) (IsWritten d (fed_parts (part ∷ parts) g) 78)
        (feed_mfm_raw_iterator_to_writer io capacity g' part.cells d) _
        (feed_bytes-IsWritten g' part.cells d h)
        (λ r w.
          Holds-weaken (IsWritten r.1 (fed_parts parts r.0) 78)
            (IsWritten d (fed_parts (part ∷ parts) g) 78)
            (feed_part_cells io capacity r.0 parts r.1)
            (feed_part_cells-IsWritten r.0 parts r.1 w.1.1)
            (λ r' w'. IsWritten-then d e (fed_parts parts) 78 78 r r' w w'))
