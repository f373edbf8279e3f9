-- ===== src/TrackWriter/Completion.antt =====
-- firmware/src/track_raw.rs, `write_track`: with an index and then a DMA interrupt at every yield the
-- whole track is written.
use stm32_usbfloppy_tracer.TrackWriter.Order.{IsTrackWritten, write_track-in_order}
use stm32_usbfloppy_tracer.TrackWriter.Stream.{fed_track}
use stm32_usbfloppy_tracer.TrackWriter.Interrupts.{stream}
use stm32_usbfloppy_tracer.TrackWriter.{RawTrackError, Result, err, no_index_pulse, ok}
use stm32_usbfloppy_tracer.FluxWriter.{start_transmit}
use stm32_usbfloppy_tracer.Fluxpulse
use stm32_usbfloppy_tracer.Fluxpulse.{FluxPulseGenerator, flush}
use stm32_usbfloppy_tracer.TrackWriter.Writing.{
  Device, feed_cells, feed_mfm_raw_iterator_to_writer, feed_part_cells, feed_rest, start_writing,
  trailing_cells, wait_for_transmit, when_transmitting, write_parts, write_track, writing_generator,
}
use stm32_usbfloppy_tracer.TrackWriter.Feeding.{enqueue-queued, length-flush}
use stm32_usbfloppy_tracer.TrackWriter.Pacing.{
  IsPaced, Returns, Returns-Holds, Returns-ok, Returns-then, feed_bytes-IsPaced, feed_cells-IsPaced,
}
use stm32_usbfloppy_tracer.Bitstream.RoundTrip.{to_bit_streams}
use stm32_usbfloppy_tracer.CellData.{RawCellData, RawCellPart}
use stm32_usbfloppy_tracer.Drive.Stepper.{Wires}
use stm32_usbfloppy_tracer.RawTrack.Writability.{at_duration}
use stm32_usbfloppy_tracer.Base.{
  List, [], ap, arith, inl, inr, length, map, refl, run, subst, sym, true, u16, ℕ, ◌*◌, ◌++◌, ◌+◌,
  ◌∙◌, ◌∷◌, ◌≡◌, ◌≤◌,
}
use stm32_usbfloppy_tracer.TrackWriter.Waiting.{
  IsServedBy, IsWaiting, at_index, start_writing-IsWaiting, wait_for_transmit-at_index,
}

-- The cells of parts, eight in a byte.
abbrev pub cell_count : List RawCellPart → ℕ
cell_count [] = 0
cell_count (part ∷ parts) = 8 * length part.cells + cell_count parts

-- The first part's cells fill the queue to 70 pulses.
abbrev pub IsLongEnough : FluxPulseGenerator → RawCellPart → Type 0
IsLongEnough g part = 70 ≤ length (run Fluxpulse.feed g (to_bit_streams part.cells)).1

contrary :
    (track : RawCellData) (r : Result RawTrackError RawCellData)
    → r ≡ ok track
    → ¬ (r ≡ err no_index_pulse)
contrary track r h k = cc

module _ {W : Type 0} (io : Wires W) (capacity : ℕ) (holds : 127 ≤ capacity) where
  feed_part_cells-IsPaced :
      (g : FluxPulseGenerator) (parts : List RawCellPart) (m : ℕ) (d : Device W)
      → IsPaced 78 (cell_count parts + m) d
      → Returns (λ r. IsPaced 78 m r.1) (feed_part_cells io capacity g parts d)
  unfolding feed_part_cells
  feed_part_cells-IsPaced g [] m d (k, (env, (bounds, room))) =
      (k, (env, (bounds, omega (arith, room))))
  feed_part_cells-IsPaced g (part ∷ parts) m d (k, (env, (bounds, room))) =
      let g' = at_duration part.cell_size g in
      let more = cell_count parts + m in
      Returns-then (λ r. IsPaced 78 more r.1) (λ r. IsPaced 78 m r.1)
        (feed_mfm_raw_iterator_to_writer io capacity g' part.cells d) _
        (feed_bytes-IsPaced io capacity holds g' part.cells more d
          (k, (env, (bounds, omega (arith, room)))))
        (λ r next. feed_part_cells-IsPaced r.0 parts m r.1 next)

  feed_rest-Returns :
      (g : FluxPulseGenerator) (bytes : List ℕ) (parts : List RawCellPart) (d : Device W)
      → IsPaced 78 (8 * length bytes + (cell_count parts + 16)) d
      → Returns (λ _. Unit) (feed_rest io capacity g bytes parts d)
  unfolding feed_rest
  feed_rest-Returns g bytes parts d paced =
      let more = cell_count parts + 16 in
      let P : Device W → Type 0 = λ _. Unit in
      Returns-then (λ r. IsPaced 78 more r.1) P
        (feed_mfm_raw_iterator_to_writer io capacity g bytes d) _
        (feed_bytes-IsPaced io capacity holds g bytes more d paced)
        (λ r next.
          Returns-then (λ r₂. IsPaced 78 16 r₂.1) P (feed_part_cells io capacity r.0 parts r.1) _
            (feed_part_cells-IsPaced r.0 parts 16 r.1 next)
            (λ r₂ last.
              Returns-then (λ r₃. IsPaced 94 0 r₃.1) P
                (feed_cells io capacity r₂.0 trailing_cells r₂.1) _
                (feed_cells-IsPaced io capacity holds r₂.0 trailing_cells 78 0 r₂.1 last
                  (omega arith))
                (λ r₃ (k, (env, ((low, few), room))).
                  rw
                    (enqueue-queued io capacity (Fluxpulse.flush r₃.0).1 r₃.1
                      (omega (arith, few, length-flush r₃.0)))
                    tt)))

  write_parts-Returns :
      (write_precompensation : ℕ) (track : RawCellData) (part : RawCellPart)
      (parts : List RawCellPart) (k : ℕ) (d : Device W)
      → IsServedBy k d
      → IsLongEnough (writing_generator write_precompensation track part) part
      → cell_count (part ∷ parts) + 24 ≤ 16 * k
      → Returns
          (λ r. r.0 ≡ ok track)
          (write_parts io capacity write_precompensation track (part ∷ parts) d)
  unfolding write_parts
  write_parts-Returns write_precompensation track part parts k d served long enough =
      let g = writing_generator write_precompensation track part in
      let P : Result RawTrackError RawCellData × Device W → Type 0 = λ r. r.0 ≡ ok track in
      Returns-then (λ r. IsWaiting k r.1 × (length r.0.1 ≤ length part.cells)) P
        (start_writing io capacity g part.cells d) _
        (start_writing-IsWaiting io capacity holds g part.cells k d served long)
        (λ r (waiting, fewer).
          let go = feed_rest io capacity r.0.0 r.0.1 parts in
          let (_, ((none_before, yields), (low, few))) = waiting in
          let paced : IsPaced 78 (8 * length r.0.1 + (cell_count parts + 16)) (at_index k r.1) = (
            k,
            (
              (none_before, refl),
              (
                unfold start_transmit in (low, few),
                unfold start_transmit in omega (arith, few, fewer, enough),
              ),
            ),
          ) in
          Returns-then (λ t. t ≡ (true, at_index k r.1)) P (wait_for_transmit io r.1.at_yields r.1)
            _ (wait_for_transmit-at_index io capacity holds k r.1 waiting)
            (λ t e.
              subst (λ x. Returns P (when_transmitting track go x)) (sym e)
                (Returns-then (λ _. Unit) P (go (at_index k r.1)) _
                  (feed_rest-Returns r.0.0 r.0.1 parts (at_index k r.1) paced) (λ f u. refl))))

  -- For a queue with room for 127 pulses or more: if nothing transmits, the selected drive spins once
  -- told to, no interrupt comes between two yields, at the first yield the index comes and at each of
  -- the next k one swap of the DMA unit's buffers, the first part's cells make at least 70 pulses, and
  -- 16 times k is 24 more than the cells of all parts or larger, then write_track returns the track, and
  -- what the DMA unit has got since and will get is exactly the pulses of the parts' cells, each part
  -- at its cell size, then of the trailing cells and the flush, as u16.
  pub write_track-completes :
      (write_precompensation : ℕ) (track : RawCellData) (part : RawCellPart)
      (parts : List RawCellPart) (k : ℕ) (d : Device W)
      → track.parts ≡ part ∷ parts
      → IsServedBy k d
      → IsLongEnough (writing_generator write_precompensation track part) part
      → cell_count (part ∷ parts) + 24 ≤ 16 * k
      → (e : Device W) × ((write_track io capacity write_precompensation track d ≡ ok (ok track, e))
          × (stream e
              ≡ d.handed
                ++ map u16
                    (fed_track
                      (writing_generator write_precompensation track part)
                      (part ∷ parts)).1))
  write_track-completes write_precompensation track part parts k d h served long enough =
      let g = writing_generator write_precompensation track part in
      let fs = (fed_track g (part ∷ parts)).1 in
      let ends : Returns (λ r. r.0 ≡ ok track)
          (write_track io capacity write_precompensation track d) =
        unfold write_track in
        subst
          (λ ps.
            Returns (λ r. r.0 ≡ ok track)
              (write_parts io capacity write_precompensation track ps d))
          (sym h)
          (write_parts-Returns write_precompensation track part parts k d served long enough) in
      let (r, (same, (back, written))) =
        Returns-ok (λ r. (r.0 ≡ ok track) × IsTrackWritten d track fs r)
          (write_track io capacity write_precompensation track d)
          (Returns-Holds (λ r. r.0 ≡ ok track) (IsTrackWritten d track fs)
            (write_track io capacity write_precompensation track d) ends
            (write_track-in_order io capacity holds write_precompensation track part parts d h)) in
      elim written [
        | inl (_, out) ↦ (r.1, (same ∙ ap (λ x. ok (x, r.1)) back, out))
        | inr (other, _) ↦ absurd (contrary track r.0 back other)
      ]
