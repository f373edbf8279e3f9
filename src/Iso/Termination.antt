-- ===== src/Iso/Termination.antt =====
-- tool/src/track_parser/iso.rs: parsing a track ends, whatever was read.
use stm32_usbfloppy_tracer.Mfm
use stm32_usbfloppy_tracer.Mfm.{MfmWord, feed, new_decoder}
use stm32_usbfloppy_tracer.Fluxpulse.Termination.{small_pulses, to_cells_ends}
use stm32_usbfloppy_tracer.CellData.{Density, high, single_double}
use stm32_usbfloppy_tracer.Sectors.{CollectedSector, TrackPayload, concatenate_sectors}
use stm32_usbfloppy_tracer.Iso.Parser.{
  Ended, IsoTrackParser, Search, expected_of, failed, finish, finish_search, fresh, panicked,
  parse_raw_track, parse_words, searched,
}
use stm32_usbfloppy_tracer.Iso.Safety.{NamesAllocatable, NotPanicked, search-NotPanicked}
use stm32_usbfloppy_tracer.Fluxpulse.{to_cells}
use stm32_usbfloppy_tracer.Iso.Search.{search_ends}
use stm32_usbfloppy_tracer.Base.{
  All, Bit, Bool-cases, IsU8, List, NoPanic, NoPanic-expect_some, NoPanic-then, Option, Outcome, [],
  arith, done, expect_some, inl, inr, length, map, none, refl, run, some, subst, ℕ, ◌*◌, ◌+◌, ◌/◌,
  ◌<◌, ◌==◌, ◌>>=◌, ◌∷◌, ◌≡◌, ◌≢◌,
}

finish-NoPanic :
    (p : IsoTrackParser) (duplicates : ℕ) (all : List CollectedSector)
    → NoPanic (finish p duplicates all).1
unfolding finish
finish-NoPanic p duplicates [] = tt
finish-NoPanic p duplicates (s ∷ ss) = number p.expected_sectors_per_track
  where
    payload : NoPanic (
        expect_some p.expected_cylinder >>= λ cylinder.
        (expect_some p.expected_head >>= λ head. done (concatenate_sectors (s ∷ ss) cylinder head)))
    payload =
        NoPanic-then (expect_some p.expected_cylinder) _ (NoPanic-expect_some p.expected_cylinder)
          (λ c.
            NoPanic-then (expect_some p.expected_head) _ (NoPanic-expect_some p.expected_head)
              (λ h. tt))

    number :
        (expected : Option ℕ)
        → NoPanic
            (finish (record p { expected_sectors_per_track = expected }) duplicates (s ∷ ss)).1
    number none = payload
    number (some n) = elim (Bool-cases (length (s ∷ ss) == n)) [
      | inl e ↦ rw e payload
      | inr e ↦ rw e tt
    ]

finish_search-NoPanic :
    (p : IsoTrackParser) (found : Option (List CollectedSector)) (st : Search) (ended : Ended)
    → st.found ≡ found
    → ended ≢ panicked
    → NoPanic (finish_search p (st, ended)).1
unfolding finish_search
finish_search-NoPanic p found st failed e h = tt
finish_search-NoPanic p found st panicked e h = absurd (h refl)
finish_search-NoPanic p none st searched e h = rw e tt
finish_search-NoPanic p (some all) st searched e h =
    rw e (finish-NoPanic (record p { collected_sectors = some all }) st.duplicates all)

parse_words_ends :
    (crc : List ℕ → ℕ) (p : IsoTrackParser) (words : List MfmWord)
    → (r : IsoTrackParser × Outcome TrackPayload) × ((parse_words crc p words ≡ some r)
        × (All NamesAllocatable words → NoPanic r.1))
unfolding parse_words
parse_words_ends crc p words =
    let x = expected_of p in
    let st = fresh p.collected_sectors in
    let (r, e) = search_ends crc x (length words) st words (omega arith) in
    (
      finish_search p r,
      (
        rw e refl,
        λ h.
            let safe = search-NotPanicked crc x (length words) st words tt h in
            let kept : r.1 ≢ panicked = subst (NotPanicked crc x) e safe in
            finish_search-NoPanic p r.0.found r.0 r.1 refl kept,
      ),
    )

cellsize_bounds :
    (density : Density)
    → let c = elim density as (λ _. ℕ) [ high ↦ 84 | single_double ↦ 168 ] in
      (0 < c) × (c + c / 2 < 2147483648)
cellsize_bounds high = (omega arith, omega arith)
cellsize_bounds single_double = (omega arith, omega arith)

abbrev pub cellsize_of : Density → ℕ
cellsize_of density = elim density as (λ _. ℕ) [ high ↦ 84 | single_double ↦ 168 ]

-- Parsing any bytes as a track ends, whatever the parser holds: neither loop of it runs out of fuel. Its
-- pulses are cells, and it returns a parser and a payload, an error or a panic; without a byte among
-- the words decoded from the cells that is 56 modulo 64, a size code of more bytes than an allocation
-- may have, it is no panic.
pub parse_iso_track_ends :
    (crc : List ℕ → ℕ) (p : IsoTrackParser) (track : List ℕ)
    → All IsU8 track
    → (cells : List Bit) × ((to_cells (cellsize_of p.density) (map (λ f. f * 8) track) ≡ some cells)
        × ((r : IsoTrackParser × Outcome TrackPayload) × ((parse_raw_track crc p track ≡ some r)
              × (All NamesAllocatable (run Mfm.feed new_decoder cells).1 → NoPanic r.1))))
unfolding parse_raw_track
parse_iso_track_ends crc p track h =
    let c = cellsize_of p.density in
    let (lo, up) = cellsize_bounds p.density in
    let (cells, e) = to_cells_ends c (map (λ f. f * 8) track) lo up (small_pulses track h) in
    let (r, (e', returns)) = parse_words_ends crc p (run Mfm.feed new_decoder cells).1 in
    (cells, (e, (r, (rw (parse_raw_track, e) e', returns))))
