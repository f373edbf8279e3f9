-- ===== src/Iso/Parser.antt =====
-- tool/src/track_parser/iso.rs: the sectors in a track that was read from a disk of a PC or an Atari.
-- The checksum (crate crc16) is a parameter.
use stm32_usbfloppy_tracer.Mfm
use stm32_usbfloppy_tracer.Mfm.{MfmWord, enc, new_decoder, sync_word}
use stm32_usbfloppy_tracer.Fluxpulse.{to_cells}
use stm32_usbfloppy_tracer.CellData.{Density, DiskType, high, inch_3_5, inch_5_25, single_double}
use stm32_usbfloppy_tracer.RawTrack.{TrackFilter}
use stm32_usbfloppy_tracer.Sectors.{CollectedSector, TrackPayload, concatenate_sectors, has_index}
use stm32_usbfloppy_tracer.Iso.Tracks.{iso_dam, iso_idam, synced}
use mathlib.Core.Option
use stm32_usbfloppy_tracer.Base.{
  List, Option, Outcome, [], done, expect_some, fail, get_elem?, if◌then◌else◌, length, ltb, map,
  none, panic, run, some, suc, zero, ℕ, ◌%◌, ◌&&◌, ◌*◌, ◌++◌, ◌+◌, ◌-◌, ◌==◌, ◌>>=◌, ◌^◌, ◌∷◌,
}

pub record IsoTrackParser : Type 0 where
  pub collected_sectors : Option (List CollectedSector)
  pub expected_sectors_per_track : Option ℕ
  pub expected_cylinder : Option ℕ
  pub expected_head : Option ℕ
  pub density : Density
  pub assumed_disk_type : Option DiskType

unfoldable pub new_parser : Option ℕ → Density → IsoTrackParser
new_parser expected_sectors_per_track density = record {
  collected_sectors = none;
  expected_sectors_per_track = expected_sectors_per_track;
  expected_cylinder = none;
  expected_head = none;
  density = density;
  assumed_disk_type = none;
}

unfoldable pub default_trackfilter : TrackFilter
default_trackfilter = record { cyl_start = some 0; cyl_end = some 79; head = none }

-- What the search keeps between two sync marks. `awaiting_dam` is an i32 that is only ever tested
-- for being positive, so 0 stands for all that is not.
pub record Search : Type 0 where
  pub awaiting_dam : ℕ
  pub sector_header : List ℕ
  pub duplicates : ℕ
  pub found : Option (List CollectedSector)

-- What the search compares with and does not change.
pub record Expected : Type 0 where
  pub sectors_per_track : Option ℕ
  pub cylinder : Option ℕ
  pub head : Option ℕ

-- The loop that reads n header bytes: an item that is none is used up and left out.
unfoldable pub read_header : ℕ → List MfmWord → List ℕ × List MfmWord
read_header zero rest = ([], rest)
read_header (suc n) [] = ([], [])
read_header (suc n) (MfmWord.sync_word ∷ rest) = read_header n rest
read_header (suc n) (MfmWord.enc b ∷ rest) = let r = read_header n rest in (b ∷ r.0, r.1)

-- The loop that reads n data bytes: an item that is none ends it, and is used up.
unfoldable pub read_data : ℕ → List MfmWord → List ℕ × List MfmWord
read_data zero rest = ([], rest)
read_data (suc n) [] = ([], [])
read_data (suc n) (MfmWord.sync_word ∷ rest) = ([], rest)
read_data (suc n) (MfmWord.enc b ∷ rest) = let r = read_data n rest in (b ∷ r.0, r.1)

-- `resize(size, 0)`.
unfoldable pub resize : ℕ → List ℕ → List ℕ
resize zero bs = []
resize (suc n) [] = 0 ∷ resize n []
resize (suc n) (b ∷ bs) = b ∷ resize n bs

-- `128 << code` on a usize of 64 bits, where the shift counts modulo 64.
unfoldable pub sector_size_of : ℕ → ℕ
sector_size_of code = 128 * 2 ^ (code % 64) % 2 ^ 64

abbrev pub isize_max : ℕ
isize_max = 9223372036854775807

-- How a round of the search ends.
pub data Round : Type 0 where
  search_on : Search → List MfmWord → Round
  all_found : Search → Round
  by_error by_panic : Round

-- How the search ends.
pub data Ended : Type 0 where
  searched failed panicked : Ended

-- An index out of bounds and a value that is not there are errors.
abbrev pub or_error : {A : Type 0} → Option A → (A → Round) → Round
or_error none f = by_error
or_error (some a) f = f a

-- A good header: its sector is awaited if it is missing and the cylinder is right.
unfoldable pub good_header : Expected → Search → ℕ → List ℕ → List MfmWord → Round
unfolding has_index
good_header x st sector_index header rest = or_error st.found (λ collected_sectors.
    or_error (get_elem? header 0) (λ cylinder. or_error (get_elem? header 1) (λ head.
      or_error x.head (λ expected_head.
        if has_index sector_index collected_sectors
        then (if head == expected_head
            then search_on (record st { duplicates = st.duplicates + 1 }) rest
            else by_error)
        else or_error x.cylinder (λ expected_cylinder.
          if head == expected_head
          then search_on
              (if cylinder == expected_cylinder then record st { awaiting_dam = 40 } else st) rest
          else by_error)))))

-- Behind a sector that was collected: with all that are expected the search ends.
unfoldable pub after_sector : Option ℕ → ℕ → Search → List MfmWord → Round
after_sector none count st rest = search_on st rest
after_sector (some expected) count st rest =
    if expected == count then all_found st else search_on st rest

-- The data of a sector and the checksum behind it.
unfoldable pub good_data : Expected → Search → ℕ → List ℕ → List MfmWord → Round
unfolding resize after_sector
good_data x st sector_size sector_data rest =
    or_error (get_elem? st.sector_header 2) (λ sector_index. or_error st.found (λ collected_sectors.
      let all =
        collected_sectors
        ++ (record { index = sector_index; payload = resize sector_size sector_data } ∷ []) in
      let st' = record st { found = some all } in
      after_sector x.sectors_per_track (length all) st' rest))

abbrev pub tick : Search → Search
tick st = record st { awaiting_dam = st.awaiting_dam - 1 }

module _ (crc : List ℕ → ℕ) where
  unfoldable pub header_block : Expected → Search → List ℕ → List MfmWord → Round
  unfolding good_header
  header_block x st header rest = or_error (get_elem? header 2) (λ sector_index.
      let st' = record st { sector_header = header } in
      if crc (synced (iso_idam ∷ header)) == 0
      then good_header x st' sector_index header rest
      else search_on st' rest)

  -- `Vec::with_capacity` panics at more than `isize::MAX` bytes; that fewer are there is assumed.
  unfoldable pub data_block : Expected → Search → List MfmWord → Round
  unfolding read_data good_data sector_size_of
  data_block x st words = or_error (get_elem? st.sector_header 3) (λ size_code.
      let sector_size = sector_size_of size_code in
      let r = read_data (sector_size + 2) words in
      let read = or_error (get_elem? st.sector_header 2) (λ sector_index.
        if crc (synced (iso_dam ∷ r.0)) == 0
        then good_data x st sector_size r.0 r.1
        else search_on st r.1) in
      if ltb isize_max (sector_size + 2) then by_panic else read)

  -- Behind a sync mark: the kind of the block, and the block. An item that starts none is used up.
  unfoldable pub block : Expected → Search → List MfmWord → Round
  unfolding header_block data_block read_header
  block x st [] = search_on st []
  block x st (MfmWord.sync_word ∷ words) = search_on st words
  block x st (MfmWord.enc mark ∷ words) =
      if mark == iso_idam
      then (let r = read_header 6 words in header_block x st r.0 r.1)
      else if (mark == iso_dam) && ltb 0 st.awaiting_dam
      then data_block x st words
      else search_on st words

  -- One round of the `while` loop.
  unfoldable pub search_step : Expected → Search → MfmWord → List MfmWord → Round
  unfolding block
  search_step x st MfmWord.sync_word words = block x (tick st) words
  search_step x st (MfmWord.enc b) words = search_on (tick st) words

  -- The loop on fuel, with what is found when it ends, and how it does; `none`
  -- means that the fuel ran out.
  unfoldable pub search : ℕ → Expected → Search → List MfmWord → Option (Search × Ended)
  unfolding search_step
  search fuel x st [] = some (st, searched)
  search zero x st (w ∷ words) = none
  search (suc fuel) x st (w ∷ words) = elim (search_step x st w words) [
    | search_on st' rest ↦ search fuel x st' rest
    | all_found st' ↦ some (st', searched)
    | by_error ↦ some (st, failed)
    | by_panic ↦ some (st, panicked)
  ]

abbrev pub unwrap_type : Option DiskType → ℕ → DiskType
unwrap_type (some t) duplicates = t
unwrap_type none duplicates = if ltb 5 duplicates then inch_5_25 else inch_3_5

-- What follows the search: the first track sets the number of sectors and the type of the disk.
unfoldable pub finish :
    IsoTrackParser → ℕ → List CollectedSector → IsoTrackParser × Outcome TrackPayload
unfolding concatenate_sectors
finish p duplicates [] = (p, fail)
finish p duplicates (s ∷ ss) =
    let all = s ∷ ss in
    let p' = record p { assumed_disk_type = some (unwrap_type p.assumed_disk_type duplicates) } in
    let p'' = record p' {
      collected_sectors = none;
      expected_sectors_per_track = some (length all);
    } in
    let payload : IsoTrackParser × Outcome TrackPayload = (
      p'',
      expect_some p.expected_cylinder >>= λ cylinder.
          (expect_some p.expected_head >>= λ head. done (concatenate_sectors all cylinder head)),
    ) in
    elim p.expected_sectors_per_track [
      | none ↦ payload
      | some expected ↦ if length all == expected then payload else (p', fail)
    ]

unfoldable pub finish_search :
    IsoTrackParser → Search × Ended → IsoTrackParser × Outcome TrackPayload
unfolding finish
finish_search p (st, failed) = (record p { collected_sectors = st.found }, fail)
finish_search p (st, panicked) = (record p { collected_sectors = st.found }, panic)
finish_search p (st, searched) = elim st.found [
  | none ↦ (record p { collected_sectors = none }, fail)
  | some all ↦ finish (record p { collected_sectors = some all }) st.duplicates all
]

abbrev pub expected_of : IsoTrackParser → Expected
expected_of p = record {
  sectors_per_track = p.expected_sectors_per_track;
  cylinder = p.expected_cylinder;
  head = p.expected_head;
}

abbrev pub fresh : Option (List CollectedSector) → Search
fresh got = record { awaiting_dam = 0; sector_header = []; duplicates = 0; found = got }

unfoldable pub parse_words :
    (List ℕ → ℕ) → IsoTrackParser → List MfmWord → Option (IsoTrackParser × Outcome TrackPayload)
unfolding search finish_search
parse_words crc p words =
    Option.map (finish_search p)
      (search crc (length words) (expected_of p) (fresh p.collected_sectors) words)

-- `parse_raw_track`, with the parser behind it.
unfoldable pub parse_raw_track :
    (List ℕ → ℕ) → IsoTrackParser → List ℕ → Option (IsoTrackParser × Outcome TrackPayload)
unfolding to_cells run Mfm.feed new_decoder parse_words
parse_raw_track crc p track =
    let cellsize = elim p.density as (λ _. ℕ) [ high ↦ 84 | single_double ↦ 168 ] in
    elim (to_cells cellsize (map (λ f. f * 8) track)) [
      | none ↦ none
      | some cells ↦ parse_words crc p (run Mfm.feed new_decoder cells).1
    ]

unfoldable pub expect_track : IsoTrackParser → ℕ → ℕ → IsoTrackParser
expect_track p cylinder head = record p {
  expected_cylinder = some cylinder;
  expected_head = some head;
  collected_sectors = some [];
}
