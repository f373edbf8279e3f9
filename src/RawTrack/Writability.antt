-- ===== src/RawTrack/Writability.antt =====
-- tool/src/rawtrack.rs, `check_writability`: whether a drive can write the pulses of an MFM track.
-- What the code prints, and the offset that it keeps for this, are left out.
use stm32_usbfloppy_tracer.Fluxpulse
use stm32_usbfloppy_tracer.Fluxpulse.{FluxPulseGenerator, feed}
use stm32_usbfloppy_tracer.Bitstream.{to_bit_stream}
use stm32_usbfloppy_tracer.Bitstream.RoundTrip.{to_bit_streams}
use stm32_usbfloppy_tracer.CellData.{
  DensityMap, DensityMapEntry, RawCellPart, gcr, mfm, split_in_parts,
}
use stm32_usbfloppy_tracer.RawTrack.{RawTrack}
use stm32_usbfloppy_tracer.Base.{
  All, Bit, Bool, Bool-cases, List, Outcome, [], ap, done, fail, false, if◌then◌else◌, inl, inr,
  lt_i32, refl, run, run-append, sym, true, u32, ℕ, ◌++◌, ◌+◌, ◌>>=◌, ◌↔◌, ◌∙◌, ◌∷◌, ◌≡◌,
}

-- The generator, and the flag that its callback clears.
pub record WriteCheck : Type 0 where
  pub generator : FluxPulseGenerator
  pub is_writable : Bool

-- The callback on the pulses in turn.
unfoldable pub note_pulses : ℕ → Bool → List ℕ → Bool
note_pulses minimum is_writable [] = is_writable
note_pulses minimum is_writable (f ∷ fs) =
    note_pulses minimum (if lt_i32 f minimum then false else is_writable) fs

unfoldable pub feed_noted : ℕ → WriteCheck → List Bit → WriteCheck
unfolding note_pulses
feed_noted minimum s cells =
    let r = run feed s.generator cells in
    record { generator = r.0; is_writable = note_pulses minimum s.is_writable r.1 }

unfoldable pub feed_bytes : ℕ → WriteCheck → List ℕ → WriteCheck
unfolding feed_noted to_bit_stream
feed_bytes minimum s [] = s
feed_bytes minimum s (cell_byte ∷ cells) =
    feed_bytes minimum (feed_noted minimum s (to_bit_stream cell_byte)) cells

unfoldable pub at_duration : ℕ → FluxPulseGenerator → FluxPulseGenerator
at_duration d g = record g { cell_duration = d }

unfoldable pub feed_parts : ℕ → WriteCheck → List RawCellPart → WriteCheck
unfolding feed_bytes at_duration
feed_parts minimum s [] = s
feed_parts minimum s (part ∷ parts) =
    feed_parts minimum
      (feed_bytes minimum (record s { generator = at_duration part.cell_size s.generator })
        part.cells)
      parts

-- The parts of an MFM track, behind one cell without a flux reversal.
unfoldable pub check_parts : ℕ → List RawCellPart → Outcome {0} Unit
unfolding feed_noted feed_parts Fluxpulse.new
check_parts first_cell_size parts =
    let minimum = u32 (first_cell_size + 40) in
    let start : WriteCheck = record {
      generator = Fluxpulse.new first_cell_size;
      is_writable = true;
    } in
    if (feed_parts minimum (feed_noted minimum start (false ∷ [])) parts).is_writable
    then done tt
    else fail

-- `anyhow::Result<()>`: `fail` is any of its errors.
unfoldable pub check_writability : RawTrack → Outcome {0} Unit
unfolding check_parts split_in_parts
check_writability track = elim track.densitymap [
  | [] ↦ fail
  | first ∷ _ ↦ elim track.encoding [
    | gcr ↦ done tt
    | mfm ↦ split_in_parts track.densitymap track.raw_data >>= check_parts first.cell_size
  ]
]

-- The pulses that the cells of the parts make.
abbrev pub part_pulses : FluxPulseGenerator → List RawCellPart → List ℕ
part_pulses g [] = []
part_pulses g (part ∷ parts) =
    let r = run feed (at_duration part.cell_size g) (to_bit_streams part.cells) in
    r.1 ++ part_pulses r.0 parts

abbrev pub IsLong : ℕ → ℕ → Type 0
IsLong minimum f = lt_i32 f minimum ≡ false

note_pulses-append :
    (m : ℕ) (fs gs : List ℕ) (ok : Bool)
    → note_pulses m ok (fs ++ gs) ≡ note_pulses m (note_pulses m ok fs) gs
unfolding note_pulses
note_pulses-append m [] gs ok = refl
note_pulses-append m (f ∷ fs) gs ok = note_pulses-append m fs gs _

note_pulses-false : (m : ℕ) (fs : List ℕ) → note_pulses m false fs ≡ false
unfolding note_pulses
note_pulses-false m [] = refl
note_pulses-false m (f ∷ fs) = elim (Bool-cases (lt_i32 f m)) [
  | inl e ↦ rw e (note_pulses-false m fs)
  | inr e ↦ rw e (note_pulses-false m fs)
]

clash : ¬ (true ≡ false)
clash h = cc

-- The flag stands exactly if no pulse is too short.
note_pulses-IsLong : (m : ℕ) (fs : List ℕ) → (note_pulses m true fs ≡ true) ↔ All (IsLong m) fs
unfolding note_pulses
note_pulses-IsLong m [] = (λ h. tt, λ h. refl)
note_pulses-IsLong m (f ∷ fs) = elim (Bool-cases (lt_i32 f m)) [
  | inl e ↦ (
    λ h.
        let cleared : note_pulses m false fs ≡ true = rw e at h in
        absurd (clash (sym cleared ∙ note_pulses-false m fs)),
    λ h. absurd (clash (sym e ∙ h.0)),
  )
  | inr e ↦ (
    λ h.
        let kept : note_pulses m true fs ≡ true = rw e at h in
        (e, (note_pulses-IsLong m fs).0 kept),
    λ h. rw e ((note_pulses-IsLong m fs).1 h.1),
  )
]

feed_bytes_lem :
    (m : ℕ) (s : WriteCheck) (cells : List ℕ)
    → feed_bytes m s cells ≡ feed_noted m s (to_bit_streams cells)
unfolding feed_bytes feed_noted
feed_bytes_lem m s [] = unfold run note_pulses in refl
feed_bytes_lem m s (b ∷ cells) =
    rw
      (
        feed_bytes_lem m (feed_noted m s (to_bit_stream b)) cells,
        run-append feed s.generator (to_bit_stream b) (to_bit_streams cells),
        note_pulses-append,
      )
      refl

feed_parts_lem :
    (m : ℕ) (s : WriteCheck) (parts : List RawCellPart)
    → (feed_parts m s parts).is_writable
      ≡ note_pulses m s.is_writable (part_pulses s.generator parts)
unfolding feed_parts
feed_parts_lem m s [] = unfold note_pulses in refl
feed_parts_lem m s (part ∷ parts) =
    let s' = record s { generator = at_duration part.cell_size s.generator } in
    let fed = feed_noted m s' (to_bit_streams part.cells) in
    let r = run feed s'.generator (to_bit_streams part.cells) in
    ap (λ x. (feed_parts m x parts).is_writable) (feed_bytes_lem m s' part.cells)
    ∙ feed_parts_lem m fed parts
    ∙ sym (note_pulses-append m r.1 (part_pulses r.0 parts) s.is_writable)

-- The pulses that come out of the generator for the parts, where it starts at the first cell size and
-- is fed one cell without a flux reversal. It is not flushed, as in the code: the pulses of reversals
-- among the last five cells are still in its window and not among these.
abbrev pub track_pulses : ℕ → List RawCellPart → List ℕ
track_pulses first_cell_size parts =
    let r = run feed (Fluxpulse.new first_cell_size) (false ∷ []) in r.1 ++ part_pulses r.0 parts

abbrev accepted : Outcome {0} Unit
accepted = done tt

done_if : (b : Bool) → ((if b then accepted else fail) ≡ accepted) ↔ (b ≡ true)
done_if true = (λ h. refl, λ h. refl)
done_if false = (λ h. cc, λ h. cc)

check_parts-IsLong :
    (size : ℕ) (parts : List RawCellPart)
    → (check_parts size parts ≡ done tt) ↔ All (IsLong (u32 (size + 40))) (track_pulses size parts)
unfolding check_parts
check_parts-IsLong size parts =
    let m = u32 (size + 40) in
    let start : WriteCheck = record { generator = Fluxpulse.new size; is_writable = true } in
    let r = run feed (Fluxpulse.new size) (false ∷ []) in
    let flag =
      feed_parts_lem m (feed_noted m start (false ∷ [])) parts
      ∙ sym (note_pulses-append m r.1 (part_pulses r.0 parts) true) in
    let long = note_pulses-IsLong m (track_pulses size parts) in
    (λ h. long.0 (sym flag ∙ (done_if _).0 h), λ h. (done_if _).1 (flag ∙ long.1 h))

-- check_writability of an MFM track with a first entry in its density map, which splits its data into
-- parts, succeeds exactly if no pulse is shorter than the first cell size and 40 ticks among those that
-- the generator gives out while it is fed the parts' cells, behind one cell without a flux reversal.
-- Pulses that a flush would give out, of reversals among the last five cells, do not count.
pub check_writability-IsLong :
    (track : RawTrack) (first : DensityMapEntry) (rest : DensityMap) (parts : List RawCellPart)
    → track.encoding ≡ mfm
    → track.densitymap ≡ first ∷ rest
    → split_in_parts (first ∷ rest) track.raw_data ≡ done parts
    → (check_writability track ≡ done tt)
      ↔ All (IsLong (u32 (first.cell_size + 40))) (track_pulses first.cell_size parts)
unfolding check_writability
check_writability-IsLong track first rest parts e d h =
    rw (d, e, h) (check_parts-IsLong first.cell_size parts)
