-- ===== src/Iso/Results.antt =====
-- tool/src/track_parser/iso.rs: the payload of a track, after any number of attempts that failed.
use stm32_usbfloppy_tracer.Mfm.{MfmWord}
use stm32_usbfloppy_tracer.CellData.{Density, DiskType}
use stm32_usbfloppy_tracer.Sectors.{CollectedSector, TrackPayload, concatenate_sectors}
use stm32_usbfloppy_tracer.Sectors.Sorted.{in_order}
use stm32_usbfloppy_tracer.Sectors.Order.{concatenate_sectors-in_order_from}
use stm32_usbfloppy_tracer.Iso.Tracks.{crc_bytes}
use stm32_usbfloppy_tracer.Iso.Parser.{
  IsoTrackParser, finish, finish_search, parse_words, searched, unwrap_type,
}
use stm32_usbfloppy_tracer.Iso.Search.{search_all}
use stm32_usbfloppy_tracer.Iso.Blocks.{expecting, searching}
use stm32_usbfloppy_tracer.Iso.Readings.{
  AreOf, IsNumber, IsTotal, Misses, Recorded, search-Recorded, total_number,
}
use stm32_usbfloppy_tracer.Base.{
  All, List, Option, [], ap, arith, done, eq→==, length, none, refl, some, suc, ℕ, ◌++◌, ◌<◌, ◌∙◌,
  ◌∷◌, ◌≡◌,
}

-- A parser that waits for a track, with the sectors that it has and what it knows of the disk.
abbrev pub waiting :
    Option ℕ → ℕ → ℕ → Density → Option DiskType → Option (List CollectedSector) → IsoTrackParser
waiting total c hd density disk_type got = record {
  collected_sectors = got;
  expected_sectors_per_track = total;
  expected_cylinder = some c;
  expected_head = some hd;
  density = density;
  assumed_disk_type = disk_type;
}

abbrev pub track_payload : ℕ → ℕ → List ℕ → TrackPayload
track_payload c hd bytes = record { cylinder = c; head = hd; payload = bytes }

finish-full :
    (n c hd d : ℕ) (density : Density) (disk_type : Option DiskType) (total : Option ℕ)
    (all : List CollectedSector)
    → 0 < n
    → IsTotal n total
    → length all ≡ n
    → finish (waiting total c hd density disk_type (some all)) d all ≡ (
      waiting (some n) c hd density (some (unwrap_type disk_type d)) none,
      done (concatenate_sectors all c hd),
    )
unfolding finish
finish-full n c hd d density disk_type total [] hn t l = absurd (omega arith)
finish-full n c hd d density disk_type none (s ∷ ss) hn t l = rw l refl
finish-full n c hd d density disk_type (some m) (s ∷ ss) hn t l =
    rw l (rw (total_number n m t) (rw (eq→== n n refl) refl))

parse_words-found :
    (crc : List ℕ → ℕ) (n c hd a d : ℕ) (h : List ℕ) (density : Density)
    (disk_type : Option DiskType) (total : Option ℕ) (got all : List CollectedSector)
    (ws : List MfmWord)
    → 0 < n
    → IsTotal n total
    → search_all crc (expecting total c hd) (searching 0 0 [] got) ws
      ≡ some (searching a d h all, searched)
    → length all ≡ n
    → parse_words crc (waiting total c hd density disk_type (some got)) ws
      ≡ some (
        waiting (some n) c hd density (some (unwrap_type disk_type d)) none,
        done (concatenate_sectors all c hd),
      )
unfolding parse_words search_all finish_search
parse_words-found crc n c hd a d h density disk_type total got all ws hn t e l =
    rw e (ap some (finish-full n c hd d density disk_type total all hn t l))

-- A complete reading of a track gives its sectors in their order, if the parser had no sectors or any
-- of the track's from earlier readings.
pub parse_words-Recorded :
    (crc : List ℕ → ℕ) (n c hd : ℕ) (table : ℕ → List ℕ) (is : List ℕ) (density : Density)
    (disk_type : Option DiskType) (total : Option ℕ) (got : List CollectedSector)
    (ws : List MfmWord)
    → ((bs : List ℕ) → crc (bs ++ crc_bytes (crc bs)) ≡ 0)
    → 0 < n
    → IsTotal n total
    → AreOf table n got
    → All (IsNumber n) is
    → Misses n is got
    → Recorded crc table c hd is ws
    → (disk_type' : DiskType) × (parse_words crc
          (waiting total c hd density disk_type (some got))
          ws
        ≡ some (
          waiting (some n) c hd density (some disk_type') none,
          done (track_payload c hd (in_order table 1 n)),
        ))
unfolding concatenate_sectors
parse_words-Recorded crc n c hd table is density disk_type total got ws crc_own hn t g his m r =
    let (a, d, h, all, e, g', l) =
      search-Recorded crc crc_own total c hd n table is 0 0 [] got ws r t his (omega arith) g m in
    let payload =
      concatenate_sectors-in_order_from table 1 (suc n) c hd all g'.from_one g'.of_table g'.distinct
        (omega (arith, l)) in
    let parser = waiting (some n) c hd density (some (unwrap_type disk_type d)) none in
    (
      unwrap_type disk_type d,
      parse_words-found crc n c hd a d h density disk_type total got all ws hn t e l
          ∙ ap (λ bytes. some (parser, done (track_payload c hd bytes)))
              (payload ∙ ap (in_order table 1) l),
    )
