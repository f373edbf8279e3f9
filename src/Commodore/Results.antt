-- ===== src/Commodore/Results.antt =====
-- tool/src/track_parser/c64.rs: the payload of a track, after any number of attempts that failed.
use stm32_usbfloppy_tracer.Commodore.Search.{search_all}
use stm32_usbfloppy_tracer.Gcr.{GcrDecoderResult, byte}
use stm32_usbfloppy_tracer.Sectors.{CollectedSector, TrackPayload, concatenate_sectors}
use stm32_usbfloppy_tracer.Sectors.Sorted.{IsDistinct, IsOf, in_order}
use stm32_usbfloppy_tracer.Sectors.Order.{concatenate_sectors-in_order, length-full}
use stm32_usbfloppy_tracer.Commodore.{TrackConfiguration}
use stm32_usbfloppy_tracer.Commodore.Parser.{C64TrackParser, all_read, finish, parse_results}
use stm32_usbfloppy_tracer.Commodore.Blocks.{search-bytes, searching}
use stm32_usbfloppy_tracer.Commodore.Track.{Recorded, search-Recorded}
use stm32_usbfloppy_tracer.Base.{
  All, List, [], ap, arith, done, eq→==, length, map, none, refl, some, u32, ℕ, ◌*◌, ◌++◌, ◌-◌, ◌∙◌,
  ◌≡◌,
}

-- A parser that waits for the track t, with the sectors that it has.
abbrev pub waiting : TrackConfiguration → ℕ → List CollectedSector → C64TrackParser
waiting config t got = record {
  collected_sectors = some got;
  track_config = some config;
  expected_track_number = some t;
}

abbrev pub track_payload : ℕ → List ℕ → TrackPayload
track_payload t bytes = record { cylinder = u32 ((t - 1) * 2); head = 0; payload = bytes }

-- A search that found as many sectors as there are makes the payload of them.
parse-found :
    (config : TrackConfiguration) (t : ℕ) (all : List CollectedSector) (rs : List GcrDecoderResult)
    (got : List CollectedSector)
    → search_all (some t) (searching 0 [] got) rs ≡ some (some all, all_read)
    → length all ≡ config.sectors
    → parse_results (waiting config t got) config rs
      ≡ some (
        record (waiting config t got) { collected_sectors = none },
        done (concatenate_sectors all (u32 ((t - 1) * 2)) 0),
      )
unfolding parse_results search_all finish
parse-found config t all rs got e m = rw e (rw (eq→== (length all) config.sectors m) refl)

-- A complete reading of the track t gives its sectors in their order, if the parser had no sectors
-- or any of the track's from earlier readings.
pub parse_results-Recorded :
    (table : ℕ → List ℕ) (config : TrackConfiguration) (t : ℕ) (got : List CollectedSector)
    (lead : List ℕ) (rs : List GcrDecoderResult)
    → Recorded table t 0 config.sectors rs
    → All (IsOf table config.sectors) got
    → IsDistinct got
    → parse_results (waiting config t got) config (map byte lead ++ rs)
      ≡ some (
        record (waiting config t got) { collected_sectors = none },
        done (track_payload t (in_order table 0 config.sectors)),
      )
unfolding parse_results
parse_results-Recorded table config t got lead rs rec hg hd =
    let (all, e, (h, d, kept, there)) =
      search-Recorded table t config.sectors 0 config.sectors 0 [] got rs rec (omega arith)
        (omega arith) hg hd in
    let m = length-full table config.sectors all h d (λ i p. there i (omega arith) (omega arith)) in
    let z : 0 - length lead ≡ 0 = omega arith in
    let found : search_all (some t) (searching 0 [] got) (map byte lead ++ rs)
        ≡ some (some all, all_read) =
      search-bytes lead (some t) 0 [] got rs ∙ rw z e in
    parse-found config t all (map byte lead ++ rs) got found m
    ∙ ap
        (λ l.
          some
            (record (waiting config t got) { collected_sectors = none }, done (track_payload t l)))
        (concatenate_sectors-in_order table config.sectors (u32 ((t - 1) * 2)) 0 all h d m)
