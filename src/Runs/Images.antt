-- ===== src/Runs/Images.antt =====
-- The sectors of disk images: tool/src/track_parser and tool/src/image_reader.
use stm32_usbfloppy_tracer.Gcr
use stm32_usbfloppy_tracer.Bitstream.RoundTrip.{to_bit_streams}
use stm32_usbfloppy_tracer.Sectors.{TrackPayload, concatenate_sectors, has_index}
use stm32_usbfloppy_tracer.Sectors.Sorted.{in_order}
use stm32_usbfloppy_tracer.Sectors.Order.{concatenate_sectors-in_order}
use stm32_usbfloppy_tracer.Commodore.{TrackConfiguration, get_track_settings}
use stm32_usbfloppy_tracer.Commodore.Image.{generate_track}
use stm32_usbfloppy_tracer.Commodore.Parser.{
  C64TrackParser, expect_track, new_parser, parse_raw_track, parse_results,
}
use stm32_usbfloppy_tracer.Commodore.Blocks.{collected}
use stm32_usbfloppy_tracer.Commodore.Results.{track_payload, waiting}
use stm32_usbfloppy_tracer.Commodore.Cells.{IsSector}
use stm32_usbfloppy_tracer.Commodore.RoundTrip.{parse_results-generate_track}
use stm32_usbfloppy_tracer.Commodore.Termination.{parse_raw_track_ends}
use stm32_usbfloppy_tracer.Mfm.{RawMfmWord}
use stm32_usbfloppy_tracer.CellData.{single_double}
use stm32_usbfloppy_tracer.Amiga.{
  be_longs, data_checksum, data_halves, header_halves, sector_header,
}
use stm32_usbfloppy_tracer.Amiga.Parser
use stm32_usbfloppy_tracer.Amiga.Parser.{AmigaTrackParser, parse_amiga_sector}
use stm32_usbfloppy_tracer.Amiga.Sector.{data_bits}
use stm32_usbfloppy_tracer.Amiga.Search.{parse_amiga_track_ends}
use stm32_usbfloppy_tracer.Amiga.RoundTrip.{parse_amiga_sector-generated, track_number}
use stm32_usbfloppy_tracer.Base.{
  All-replicate, IsU8, List, NoPanic, Outcome, [], arith, concat, done, map, none, refl, replicate,
  run, some, ℕ, ◌++◌, ◌+◌, ◌∷◌, ◌≡◌,
}

concatenate_sectors-in_order_example :
    (concatenate_sectors (collected 1 (11 ∷ []) ∷ collected 0 (10 ∷ []) ∷ []) 4 0).payload
    ≡ in_order (λ i. (10 + i) ∷ []) 0 2
concatenate_sectors-in_order_example =
    concatenate_sectors-in_order (λ i. (10 + i) ∷ []) 2 4 0
      (collected 1 (11 ∷ []) ∷ collected 0 (10 ∷ []) ∷ [])
      ((omega arith, refl), ((omega arith, refl), tt)) (unfold has_index in (refl, (refl, tt))) refl

-- The outermost zone of a disk, where a track has 17 sectors.
abbrev outer_zone : TrackConfiguration
outer_zone = record { cellsize = 280; sectors = 17; gap_size = 9 }

abbrev a_sector : List ℕ
a_sector = replicate 256 0xa5

abbrev some_sectors : List (List ℕ)
some_sectors = replicate 17 a_sector

a_sector-IsSector : IsSector a_sector
a_sector-IsSector = (refl, All-replicate IsU8 256 0xa5 (omega arith))

-- Sector 3 was found by an earlier reading.
parse_results-generate_track_example :
    (trackbuf : List ℕ) × (generate_track 31 (some_sectors ++ []) ≡ done (trackbuf, outer_zone, []))
    × (parse_results
          (waiting outer_zone 31 (collected 3 a_sector ∷ []))
          outer_zone
          (run Gcr.feed Gcr.new (to_bit_streams trackbuf)).1
        ≡ some (
          record (waiting outer_zone 31 (collected 3 a_sector ∷ [])) { collected_sectors = none },
          done (track_payload 31 (concat some_sectors)),
        ))
parse_results-generate_track_example =
    parse_results-generate_track 31 outer_zone some_sectors [] (collected 3 a_sector ∷ [])
      (omega arith) (unfold get_track_settings in refl) refl (omega arith)
      (All-replicate IsSector 17 a_sector a_sector-IsSector) ((omega arith, refl), tt)
      (unfold has_index in (refl, tt))

abbrev inner_zone : TrackConfiguration
inner_zone = record { cellsize = 227; sectors = 21; gap_size = 8 }

parse_raw_track_ends_example :
    (r : C64TrackParser × Outcome TrackPayload) × ((parse_raw_track
          (waiting inner_zone 1 [])
          (28 ∷ 56 ∷ 255 ∷ [])
        ≡ some r)
      × NoPanic r.1)
parse_raw_track_ends_example =
    parse_raw_track_ends new_parser (waiting inner_zone 1 []) 0 0 (28 ∷ 56 ∷ 255 ∷ [])
      (unfold expect_track new_parser get_track_settings in refl)
      (omega arith, (omega arith, (omega arith, tt)))

-- The words of a sector, without clock bits.
abbrev some_words : List ℕ
unfolding sector_header header_halves data_halves be_longs
some_words =
    map data_bits
      (header_halves (sector_header 30 1 4) ++ data_halves (be_longs (replicate 512 0x12)))

parse_amiga_sector-generated_example :
    parse_amiga_sector
      (track_number 30 1)
      (map RawMfmWord.raw some_words ++ (RawMfmWord.sync_word ∷ []))
    ≡ (some (record { index = 4; payload = replicate 512 0x12 }), RawMfmWord.sync_word ∷ [])
parse_amiga_sector-generated_example =
    parse_amiga_sector-generated 30 1 4 (replicate 512 0x12) some_words (RawMfmWord.sync_word ∷ [])
      (omega arith) (omega arith) (omega arith) refl (All-replicate IsU8 512 0x12 (omega arith))
      (unfold some_words sector_header header_halves data_halves be_longs data_checksum in refl)

parse_amiga_track_ends_example :
    (r : AmigaTrackParser × Outcome TrackPayload) × ((Parser.parse_raw_track
          (Parser.expect_track (Parser.new_parser single_double) 0 0)
          (42 ∷ 63 ∷ [])
        ≡ some r)
      × NoPanic r.1)
parse_amiga_track_ends_example =
    parse_amiga_track_ends (Parser.expect_track (Parser.new_parser single_double) 0 0)
      (42 ∷ 63 ∷ []) (omega arith, (omega arith, tt))
