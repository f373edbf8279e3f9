-- ===== src/Commodore/Termination.antt =====
-- tool/src/track_parser/c64.rs: parsing a track ends, whatever was read.
use stm32_usbfloppy_tracer.Fluxpulse.Termination.{small_pulses, to_cells_ends}
use stm32_usbfloppy_tracer.Gcr
use stm32_usbfloppy_tracer.Gcr.{GcrDecoderResult}
use stm32_usbfloppy_tracer.Sectors.{CollectedSector, TrackPayload}
use stm32_usbfloppy_tracer.Commodore.{TrackConfiguration, get_track_settings}
use stm32_usbfloppy_tracer.Commodore.Parser.{
  C64TrackParser, Ended, Search, all_read, by_error, by_panic, expect_track, finish,
  parse_raw_track, parse_results,
}
use stm32_usbfloppy_tracer.Commodore.Results.{waiting}
use stm32_usbfloppy_tracer.Commodore.Search.{search_ends}
use stm32_usbfloppy_tracer.Base.{
  All, Bool-cases, IsU8, List, NoPanic, NoPanic-expect_some, NoPanic-then, Option, Outcome, [],
  arith, done, expect_some, fail, inl, inr, leb, length, map, none, panic, refl, run, some, subst,
  ℕ, ◌*◌, ◌+◌, ◌/◌, ◌<◌, ◌==◌, ◌>>=◌, ◌≡◌, ◌≢◌,
}

finish-NoPanic :
    (p : C64TrackParser) (config : TrackConfiguration) (ended : Ended)
    → ended ≢ by_panic
    → NoPanic (finish p config ended).1
unfolding finish
finish-NoPanic p config by_error h = tt
finish-NoPanic p config by_panic h = absurd (h refl)
finish-NoPanic p config all_read h = collected p.collected_sectors
  where
    collected :
        (got : Option (List CollectedSector))
        → NoPanic (finish (record p { collected_sectors = got }) config all_read).1
    collected none = tt
    collected (some all) = elim (Bool-cases (length all == config.sectors)) [
      | inl e ↦ rw e (
          NoPanic-then (expect_some p.expected_track_number) _
            (NoPanic-expect_some p.expected_track_number) (λ t. tt))
      | inr e ↦ rw e tt
    ]

-- There is a result, and it is no panic.
abbrev pub Ends : {P : Type 0} → Option (P × Outcome TrackPayload) → Type 0
Ends {P = P} o = (r : P × Outcome TrackPayload) × ((o ≡ some r) × NoPanic r.1)

parse_results-Ends :
    (p : C64TrackParser) (config : TrackConfiguration) (rs : List GcrDecoderResult)
    → Ends (parse_results p config rs)
unfolding parse_results
parse_results-Ends p config rs =
    let st : Search = record {
      awaiting_data_block = 0;
      sector_header = [];
      found = p.collected_sectors;
    } in
    let (r, (e, h)) = search_ends (length rs) p.expected_track_number st rs (omega arith) in
    let p' = record p { collected_sectors = r.0 } in
    (finish p' config r.1, (rw e refl, finish-NoPanic p' config r.1 h))

abbrev IsReadable : TrackConfiguration → Type 0
IsReadable config = (0 < config.cellsize) × (config.cellsize < 1000)

-- What holds of the result, where there is one.
abbrev WhereDone : {A : Type 0} → (A → Type 0) → Outcome A → Type 0
WhereDone P (done a) = P a
WhereDone P fail = Unit
WhereDone P panic = Unit

get_track_settings-IsReadable : (t : ℕ) → WhereDone IsReadable (get_track_settings t)
unfolding get_track_settings
get_track_settings-IsReadable t = elim (Bool-cases (t == 0)) [
  | inl a ↦ rw a tt
  | inr a ↦ elim (Bool-cases (leb t 17)) [
    | inl b ↦ rw (a, b) (omega arith, omega arith)
    | inr b ↦ elim (Bool-cases (leb t 24)) [
      | inl c ↦ rw (a, b, c) (omega arith, omega arith)
      | inr c ↦ elim (Bool-cases (leb t 30)) [
        | inl d ↦ rw (a, b, c, d) (omega arith, omega arith)
        | inr d ↦ rw (a, b, c, d) (omega arith, omega arith)
      ]
    ]
  ]
]

parse_waiting-Ends :
    (config : TrackConfiguration) (t : ℕ) (got : List CollectedSector) (track : List ℕ)
    → IsReadable config
    → All IsU8 track
    → Ends (parse_raw_track (waiting config t got) track)
unfolding parse_raw_track
parse_waiting-Ends config t got track (lo, hi) hs =
    let (cells, e) =
      to_cells_ends config.cellsize (map (λ f. f * 8) track) lo (omega arith)
        (small_pulses track hs) in
    let (r, (e', h)) =
      parse_results-Ends (waiting config t got) config (run Gcr.feed Gcr.new cells).1 in
    (r, (rw (parse_raw_track, e) e', h))

abbrev AfterExpect : C64TrackParser → Type 0
AfterExpect p =
    (config : TrackConfiguration) × (t : ℕ) × (p ≡ waiting config t []) × IsReadable config

expect_track-ready :
    (p : C64TrackParser) (cylinder head : ℕ) → WhereDone AfterExpect (expect_track p cylinder head)
unfolding expect_track
expect_track-ready p cylinder head = elim (Bool-cases (head == 0)) [
  | inr e ↦ rw e tt
  | inl e ↦ rw e (
      ready (get_track_settings (cylinder / 2 + 1))
        (get_track_settings-IsReadable (cylinder / 2 + 1)))
]
  where
    ready :
        (o : Outcome TrackConfiguration)
        → WhereDone IsReadable o
        → WhereDone AfterExpect (
            o >>= λ c. done (record p {
              track_config = some c;
              expected_track_number = some (cylinder / 2 + 1);
              collected_sectors = some [];
            }))
    ready (done c) h = (c, cylinder / 2 + 1, refl, h)
    ready fail h = tt
    ready panic h = tt

-- A parser that expects any track of the disk ends on any bytes: it returns a parser and a payload
-- or an error, never a panic, and neither loop of it runs out of fuel.
pub parse_raw_track_ends :
    (p p' : C64TrackParser) (cylinder head : ℕ) (track : List ℕ)
    → expect_track p cylinder head ≡ done p'
    → All IsU8 track
    → (r : C64TrackParser × Outcome TrackPayload) × ((parse_raw_track p' track ≡ some r)
        × NoPanic r.1)
parse_raw_track_ends p p' cylinder head track h hs =
    let (config, t, e, ok) = subst (WhereDone AfterExpect) h (expect_track-ready p cylinder head) in
    rw e (parse_waiting-Ends config t [] track ok hs)
