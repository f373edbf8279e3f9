-- ===== src/TrackWriter/Order.antt =====
-- firmware/src/track_raw.rs, `write_track`: what reaches the DMA unit, and the room in the queue.
use stm32_usbfloppy_tracer.Drive.Control.{selected_is_spinning}
use stm32_usbfloppy_tracer.TrackWriter.{RawTrackError, Result, err, no_index_pulse, ok}
use stm32_usbfloppy_tracer.RawTrack.Writability.{at_duration}
use stm32_usbfloppy_tracer.Fluxpulse
use stm32_usbfloppy_tracer.Fluxpulse.{FluxPulseGenerator, flush}
use mathlib.Core.List.{map-append}
use stm32_usbfloppy_tracer.TrackWriter.Writing.{
  Device, Stop, enqueue, feed_cells, feed_mfm_raw_iterator_to_writer, feed_part_cells, feed_rest,
  start_writing, trailing_cells, wait_for_transmit, when_transmitting, write_parts, write_track,
  writing_generator,
}
use stm32_usbfloppy_tracer.TrackWriter.Interrupts.{
  Holds, Holds-then, Holds-weaken, IsServed, IsWaited, stream, wait_for_transmit-IsWaited,
}
use stm32_usbfloppy_tracer.TrackWriter.Feeding.{enqueue-queued, length-flush, queued, queued-stream}
use stm32_usbfloppy_tracer.TrackWriter.Stream.{
  Fed, IsWritten, fed_parts, fed_then, fed_track, feed_bytes-IsWritten, feed_cells-IsWritten,
  feed_part_cells-IsWritten, IsWritten-then,
}
use stm32_usbfloppy_tracer.Bitstream.RoundTrip.{to_bit_streams, to_bit_streams-append}
use stm32_usbfloppy_tracer.CellData.{RawCellData, RawCellPart}
use stm32_usbfloppy_tracer.Drive.Stepper.{Wires}
use stm32_usbfloppy_tracer.Base.{
  Bool, List, ap, append_assoc, arith, false, inl, inr, length, length-append, map, refl, run,
  run-append, subst, sym, true, u16, ℕ, ◌++◌, ◌∙◌, ◌∷◌, ◌≡◌, ◌≤◌, ◌⊎◌,
}
use stm32_usbfloppy_tracer.TrackWriter.Prefill.{IsStarted, start_writing-IsStarted}

-- What is written behind the prefill.
abbrev fed_rest : List ℕ → List RawCellPart → FluxPulseGenerator → Fed
fed_rest bytes parts g =
    fed_then
      (fed_then (fed_then (run Fluxpulse.feed g (to_bit_streams bytes)) (fed_parts parts))
        (λ g'. run Fluxpulse.feed g' trailing_cells))
      Fluxpulse.flush

fed_track-split :
    (g : FluxPulseGenerator) (part : RawCellPart) (parts : List RawCellPart) (eaten bytes : List ℕ)
    → part.cells ≡ eaten ++ bytes
    → at_duration part.cell_size g ≡ g
    → (fed_track g (part ∷ parts)).1
      ≡ (fed_then (run Fluxpulse.feed g (to_bit_streams eaten)) (fed_rest bytes parts)).1
unfolding fed_track fed_parts
fed_track-split g part parts eaten bytes split same =
    rw
      (
        same,
        split,
        to_bit_streams-append eaten bytes,
        run-append Fluxpulse.feed g (to_bit_streams eaten) (to_bit_streams bytes),
      )
      (simp append_assoc)

joined : (xs fs gs : List ℕ) → (xs ++ map u16 fs) ++ map u16 gs ≡ xs ++ map u16 (fs ++ gs)
joined xs fs gs = simp (map-append, append_assoc)

module _ {W : Type 0} where
  -- The track is written, or the motor has stopped before its index.
  abbrev pub IsTrackWritten :
      Device W → RawCellData → List ℕ → Result RawTrackError RawCellData × Device W → Type 0
  IsTrackWritten d track fs r =
      ((r.0 ≡ ok track) × (stream r.1 ≡ d.handed ++ map u16 fs))
      ⊎ ((r.0 ≡ err no_index_pulse) × (selected_is_spinning r.1.control ≡ false))

module _ {W : Type 0} (io : Wires W) (capacity : ℕ) (holds : 127 ≤ capacity) where
  feed_rest-Holds :
      (g : FluxPulseGenerator) (bytes : List ℕ) (parts : List RawCellPart) (d : Device W)
      → length d.writer.cons ≤ 78
      → Holds
          (λ d'. stream d' ≡ stream d ++ map u16 (fed_rest bytes parts g).1)
          (feed_rest io capacity g bytes parts d)
  unfolding feed_rest
  feed_rest-Holds g bytes parts d h =
      let e₁ = run Fluxpulse.feed g (to_bit_streams bytes) in
      let e₂ = fed_then e₁ (fed_parts parts) in
      let e₃ = fed_then e₂ (λ x. run Fluxpulse.feed x trailing_cells) in
      let P : Device W → Type 0 =
        λ d'. stream d' ≡ stream d ++ map u16 (fed_rest bytes parts g).1 in
      Holds-then (IsWritten d e₁ 78) P (feed_mfm_raw_iterator_to_writer io capacity g bytes d) _
        (feed_bytes-IsWritten io capacity holds g bytes d h)
        (λ r w.
          Holds-then (IsWritten r.1 (fed_parts parts r.0) 78) P
            (feed_part_cells io capacity r.0 parts r.1) _
            (feed_part_cells-IsWritten io capacity holds r.0 parts r.1 w.1.1)
            (λ r₂ w₂.
              Holds-then (IsWritten r₂.1 (run Fluxpulse.feed r₂.0 trailing_cells) 94) P
                (feed_cells io capacity r₂.0 trailing_cells r₂.1) _
                (feed_cells-IsWritten io capacity holds r₂.0 trailing_cells r₂.1 94
                  (omega (arith, w₂.1.1)) (omega arith))
                (λ r₃ w₃.
                  let fs = (Fluxpulse.flush r₃.0).1 in
                  let done₂ = IsWritten-then d e₁ (fed_parts parts) 78 78 r r₂ w w₂ in
                  let done₃ =
                    IsWritten-then d e₂ (λ x. run Fluxpulse.feed x trailing_cells) 78 94 r₂ r₃ done₂
                      w₃ in
                  let queue : enqueue io capacity fs r₃.1 ≡ ok (queued r₃.1 fs) =
                    enqueue-queued io capacity fs r₃.1 (omega (arith, w₃.1.1, length-flush r₃.0)) in
                  let last : IsWritten r₃.1 (Fluxpulse.flush r₃.0) 99
                      ((Fluxpulse.flush r₃.0).0, queued r₃.1 fs) =
                    (
                      refl,
                      (
                        queued-stream r₃.1 fs,
                        omega (arith, length-append r₃.1.writer.cons fs, w₃.1.1, length-flush r₃.0),
                      ),
                    ) in
                  rw queue
                    (IsWritten-then d e₃ Fluxpulse.flush 94 99 r₃
                      ((Fluxpulse.flush r₃.0).0, queued r₃.1 fs) done₃ last).1.0)))

  when_transmitting-IsTrackWritten :
      (track : RawCellData) (fs : List ℕ) (d d' : Device W) (go : Device W → Result Stop (Device W))
      (r : Bool × Device W)
      → IsWaited io d' r
      → (IsServed d' r.1 → Holds (λ e. stream e ≡ d.handed ++ map u16 fs) (go r.1))
      → Holds (IsTrackWritten d track fs) (when_transmitting track go r)
  when_transmitting-IsTrackWritten track fs d d' go (true, e) (served, stopped) writes =
      Holds-then (λ x. stream x ≡ d.handed ++ map u16 fs) (IsTrackWritten d track fs) (go e) _
        (writes served) (λ f h. inl (refl, h))
  when_transmitting-IsTrackWritten track fs d d' go (false, e) (served, stopped) writes =
      inr (refl, stopped refl)

  write_parts-in_order :
      (write_precompensation : ℕ) (track : RawCellData) (part : RawCellPart)
      (parts : List RawCellPart) (d : Device W)
      → Holds
          (IsTrackWritten d track
            (fed_track (writing_generator write_precompensation track part) (part ∷ parts)).1)
          (write_parts io capacity write_precompensation track (part ∷ parts) d)
  unfolding write_parts
  write_parts-in_order write_precompensation track part parts d =
      let g = writing_generator write_precompensation track part in
      let fs = (fed_track g (part ∷ parts)).1 in
      let P = IsTrackWritten d track fs in
      (Holds-then (IsStarted d g part.cells) P (start_writing io capacity g part.cells d) _
        (start_writing-IsStarted io capacity holds g part.cells d)
        (λ r (eaten, (split, (gen, (begun, room)))).
          let go = feed_rest io capacity r.0.0 r.0.1 parts in
          Holds-then (IsWaited io r.1) P (wait_for_transmit io r.1.at_yields r.1) _
            (wait_for_transmit-IsWaited io r.1.at_yields r.1)
            (λ t waited.
              when_transmitting-IsTrackWritten track fs d r.1 go t waited (λ (same, queue).
                Holds-weaken (λ e. stream e ≡ stream t.1 ++ map u16 (fed_rest r.0.1 parts r.0.0).1)
                  (λ e. stream e ≡ d.handed ++ map u16 fs) (go t.1)
                  (feed_rest-Holds r.0.0 r.0.1 parts t.1 (omega (arith, queue, room)))
                  (λ e written.
                    written
                    ∙ ap (λ l. l ++ map u16 (fed_rest r.0.1 parts r.0.0).1) (same ∙ begun)
                    ∙ (ap
                          (λ x.
                            (d.handed ++ map u16 (run Fluxpulse.feed g (to_bit_streams eaten)).1)
                            ++ map u16 (fed_rest r.0.1 parts x).1)
                          gen
                        ∙ joined d.handed (run Fluxpulse.feed g (to_bit_streams eaten)).1 _
                        ∙ ap (λ l. d.handed ++ map u16 l)
                            (sym (
                              fed_track-split g part parts eaten r.0.1 split
                                (unfold Fluxpulse.new in refl)))))))))

  -- For a queue with room for 127 pulses or more, and whichever interrupts come: write_track of a track
  -- with a part never stops on a full queue, and if it comes to its end, then either it returns the
  -- track, and what the DMA unit has got since and will get is exactly the pulses of the parts' cells,
  -- each part at its cell size, then of the trailing cells and the flush, as u16; or it returns
  -- NoIndexPulse, and the motor has stopped.
  pub write_track-in_order :
      (write_precompensation : ℕ) (track : RawCellData) (part : RawCellPart)
      (parts : List RawCellPart) (d : Device W)
      → track.parts ≡ part ∷ parts
      → Holds
          (IsTrackWritten d track
            (fed_track (writing_generator write_precompensation track part) (part ∷ parts)).1)
          (write_track io capacity write_precompensation track d)
  unfolding write_track
  write_track-in_order write_precompensation track part parts d h =
      subst
        (λ ps.
          Holds
            (IsTrackWritten d track
              (fed_track (writing_generator write_precompensation track part) (part ∷ parts)).1)
            (write_parts io capacity write_precompensation track ps d))
        (sym h) (write_parts-in_order write_precompensation track part parts d)
