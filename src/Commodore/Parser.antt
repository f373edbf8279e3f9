-- ===== src/Commodore/Parser.antt =====
-- tool/src/track_parser/c64.rs: the sectors in a track that was read from a disk of the Commodore 64.
use stm32_usbfloppy_tracer.Gcr
use mathlib.Core.Option
use stm32_usbfloppy_tracer.Gcr.{GcrDecoderResult, byte, sync}
use stm32_usbfloppy_tracer.Fluxpulse.{to_cells}
use stm32_usbfloppy_tracer.Sectors.{CollectedSector, TrackPayload, concatenate_sectors, has_index}
use stm32_usbfloppy_tracer.Commodore.{TrackConfiguration, get_track_settings}
use stm32_usbfloppy_tracer.Base.{
  List, Option, Outcome, [], bit_xor, done, expect_some, fail, get_elem?, if◌then◌else◌, length,
  ltb, map, none, panic, run, some, suc, u32, zero, ℕ, ◌&&◌, ◌*◌, ◌++◌, ◌+◌, ◌-◌, ◌/◌, ◌==◌, ◌>>=◌,
  ◌∷◌,
}

pub record C64TrackParser : Type 0 where
  pub collected_sectors : Option (List CollectedSector)
  pub track_config : Option TrackConfiguration
  pub expected_track_number : Option ℕ

unfoldable pub new_parser : C64TrackParser
new_parser = record { collected_sectors = none; track_config = none; expected_track_number = none }

abbrev pub sector_size : ℕ
sector_size = 256

-- What the search keeps between two sync marks. `awaiting_data_block` is an i32 that is only ever
-- tested for being positive, so 0 stands for all that is not.
pub record Search : Type 0 where
  pub awaiting_data_block : ℕ
  pub sector_header : List ℕ
  pub found : Option (List CollectedSector)

-- The `for` loops that read n bytes: an item that is none ends the loop, and is used up.
unfoldable pub read_bytes : ℕ → List GcrDecoderResult → List ℕ × List GcrDecoderResult
read_bytes zero rest = ([], rest)
read_bytes (suc n) [] = ([], [])
read_bytes (suc n) (sync ∷ rest) = ([], rest)
read_bytes (suc n) (byte b ∷ rest) = let r = read_bytes n rest in (b ∷ r.0, r.1)

-- `reduce(|accu, input| accu ^ input)`.
unfoldable pub xor_from : ℕ → List ℕ → ℕ
xor_from accu [] = accu
xor_from accu (b ∷ bs) = xor_from (bit_xor accu b) bs

unfoldable pub reduce_xor : List ℕ → Option ℕ
unfolding xor_from
reduce_xor [] = none
reduce_xor (b ∷ bs) = some (xor_from b bs)

-- `resize(size, 0)`.
unfoldable pub resize : ℕ → List ℕ → List ℕ
resize zero bs = []
resize (suc n) [] = 0 ∷ resize n []
resize (suc n) (b ∷ bs) = b ∷ resize n bs

-- A header block: a good one of a sector that is still missing activates the reading of data.
unfoldable pub header_block : Option ℕ → Search → List ℕ → Outcome Search
unfolding reduce_xor has_index
header_block expected st header = expect_some (reduce_xor header) >>= λ checksum.
    if (length header == 5) && (checksum == 0)
    then (expect_some st.found >>= λ collected_sectors.
        (expect_some (get_elem? header 1) >>= λ sector_index.
        (expect_some (get_elem? header 2) >>= λ track.
        (expect_some expected >>= λ expected_track_number.
        if track == expected_track_number
        then done (record st {
          sector_header = header;
          awaiting_data_block =
              if has_index sector_index collected_sectors then st.awaiting_data_block else 20;
        })
        else fail))))
    else done (record st { sector_header = header })

-- A data block, with its checksum at the end.
unfoldable pub data_block : Search → List ℕ → Outcome Search
unfolding reduce_xor resize
data_block st sector_data = expect_some (reduce_xor sector_data) >>= λ checksum.
    if checksum == 0
    then (expect_some st.found >>= λ collected_sectors.
        (expect_some (get_elem? st.sector_header 1) >>= λ index. done (record st {
          found = some (
              collected_sectors
              ++ (record { index = index; payload = resize sector_size sector_data } ∷ []));
        })))
    else (expect_some (get_elem? st.sector_header 1) >>= λ index. done st)

-- Behind a sync mark: the kind of the block, and the block. An item that starts no block is used up.
unfoldable pub block :
    Option ℕ → Search → List GcrDecoderResult → Outcome (Search × List GcrDecoderResult)
unfolding header_block data_block read_bytes
block expected st [] = done (st, [])
block expected st (sync ∷ rest) = done (st, rest)
block expected st (byte mark ∷ rest) =
    if mark == 0x08
    then (let r = read_bytes 5 rest in header_block expected st r.0 >>= λ st'. done (st', r.1))
    else if (mark == 0x07) && ltb 0 st.awaiting_data_block
    then (let r = read_bytes (sector_size + 1) rest in data_block st r.0 >>= λ st'. done (st', r.1))
    else done (st, rest)

abbrev pub tick : Search → Search
tick st = record st { awaiting_data_block = st.awaiting_data_block - 1 }

-- One round of the `while` loop.
unfoldable pub search_step :
    Option ℕ
    → Search
    → GcrDecoderResult
    → List GcrDecoderResult
    → Outcome (Search × List GcrDecoderResult)
unfolding block
search_step expected st sync rest = block expected (tick st) rest
search_step expected st (byte b) rest = done (tick st, rest)

pub data Ended : Type 0 where
  all_read by_error by_panic : Ended

-- The loop on fuel, with the sectors that are found when it ends, be it by an error; `none` means
-- that the fuel ran out.
unfoldable pub search :
    ℕ → Option ℕ → Search → List GcrDecoderResult → Option (Option (List CollectedSector) × Ended)
unfolding search_step
search fuel expected st [] = some (st.found, all_read)
search zero expected st (r ∷ rest) = none
search (suc fuel) expected st (r ∷ rest) = elim (search_step expected st r rest) [
  | done next ↦ search fuel expected next.0 next.1
  | fail ↦ some (st.found, by_error)
  | panic ↦ some (st.found, by_panic)
]

-- What follows the search: all sectors, or an error that keeps those that were found.
unfoldable pub finish :
    C64TrackParser → TrackConfiguration → Ended → C64TrackParser × Outcome TrackPayload
unfolding concatenate_sectors
finish p track_config ended = elim ended [
  | by_error ↦ (p, fail)
  | by_panic ↦ (p, panic)
  | all_read ↦ elim p.collected_sectors [
    | none ↦ (p, fail)
    | some collected_sectors ↦
        if length collected_sectors == track_config.sectors
        then (
          record p { collected_sectors = none },
          expect_some p.expected_track_number >>= λ expected_track_number.
              done
                (concatenate_sectors collected_sectors (u32 ((expected_track_number - 1) * 2)) 0),
        )
        else (p, fail)
  ]
]

unfoldable pub parse_results :
    C64TrackParser
    → TrackConfiguration
    → List GcrDecoderResult
    → Option (C64TrackParser × Outcome TrackPayload)
unfolding search finish
parse_results p track_config gcr_results =
    Option.map (λ r. finish (record p { collected_sectors = r.0 }) track_config r.1)
      (search (length gcr_results) p.expected_track_number
        (record { awaiting_data_block = 0; sector_header = []; found = p.collected_sectors })
        gcr_results)

-- `parse_raw_track`, with the parser behind it. The pulses are multiplied by 8, for which the GCR
-- decoder reads the cells.
unfoldable pub parse_raw_track :
    C64TrackParser → List ℕ → Option (C64TrackParser × Outcome TrackPayload)
unfolding to_cells run Gcr.feed Gcr.new parse_results
parse_raw_track p track = elim p.track_config [
  | none ↦ some (p, fail)
  | some track_config ↦ elim (to_cells track_config.cellsize (map (λ f. f * 8) track)) [
    | none ↦ none
    | some cells ↦ parse_results p track_config (run Gcr.feed Gcr.new cells).1
  ]
]

unfoldable pub expect_track : C64TrackParser → ℕ → ℕ → Outcome C64TrackParser
unfolding get_track_settings
expect_track p cylinder head =
    if head == 0
    then (get_track_settings (cylinder / 2 + 1) >>= λ track_config. done (record p {
      track_config = some track_config;
      expected_track_number = some (cylinder / 2 + 1);
      collected_sectors = some [];
    }))
    else panic

abbrev pub step_size : ℕ
step_size = 2
