-- ===== src/Amiga/Parser.antt =====
-- tool/src/track_parser/amiga.rs: the sectors in a track that was read from an Amiga disk.
use stm32_usbfloppy_tracer.Mfm.{RawMfmWord, feed_seperator, new_seperator}
use stm32_usbfloppy_tracer.Fluxpulse.{to_cells}
use stm32_usbfloppy_tracer.CellData.{Density, high, single_double}
use stm32_usbfloppy_tracer.Sectors.{CollectedSector, TrackPayload, concatenate_sectors, has_index}
use stm32_usbfloppy_tracer.Amiga.{amiga_mfm_mask}
use mathlib.Core.Option
use stm32_usbfloppy_tracer.Base.{
  List, Option, Outcome, [], bit_and, bit_or, bit_xor, done, fail, if◌then◌else◌, length, map, none,
  run, some, suc, u32, zero, ℕ, ◌%◌, ◌*◌, ◌++◌, ◌+◌, ◌/◌, ◌==◌, ◌∷◌,
}

abbrev pub words_per_sector : ℕ
words_per_sector = 128

-- A sync mark and the end of the track read as 0.
unfoldable pub read_even_bits : List RawMfmWord → ℕ × List RawMfmWord
read_even_bits (RawMfmWord.raw r ∷ rest) = (bit_and r amiga_mfm_mask, rest)
read_even_bits (RawMfmWord.sync_word ∷ rest) = (0, rest)
read_even_bits [] = (0, [])

-- Several reads in a row.
unfoldable pub read_words : ℕ → List RawMfmWord → List ℕ × List RawMfmWord
unfolding read_even_bits
read_words zero words = ([], words)
read_words (suc n) words =
    let first = read_even_bits words in
    let rest = read_words n first.1 in (first.0 ∷ rest.0, rest.1)

unfoldable pub xor_all : ℕ → List ℕ → ℕ
xor_all checksum [] = checksum
xor_all checksum (word ∷ words) = xor_all (bit_xor checksum word) words

abbrev pub to_be_bytes : ℕ → List ℕ
to_be_bytes v = v / 16777216 % 256 ∷ v / 65536 % 256 ∷ v / 256 % 256 ∷ v % 256 ∷ []

-- The data: an odd word is written as four bytes, which are read again and joined with the even word.
unfoldable pub join_words : List ℕ → List ℕ → List ℕ
join_words [] evens = []
join_words (o ∷ odds) [] = to_be_bytes (u32 (o * 2)) ++ join_words odds []
join_words (o ∷ odds) (e ∷ evens) = to_be_bytes (bit_or e (u32 (o * 2))) ++ join_words odds evens

-- What the header says, behind its two words.
unfoldable pub sector_body : ℕ → ℕ → ℕ → List RawMfmWord → Option CollectedSector × List RawMfmWord
sector_body sector odd_word even_word words =
    let label = read_words 10 words in
    let check = read_words 2 label.1 in
    let odds = read_words words_per_sector check.1 in
    let evens = read_words words_per_sector odds.1 in
    if xor_all (bit_xor odd_word even_word) label.0 == 0
    then (if xor_all (xor_all (xor_all 0 check.0) odds.0) evens.0 == 0
        then (some (record { index = sector; payload = join_words odds.0 evens.0 }), evens.1)
        else (none, evens.1))
    else (none, label.1)

-- A second sync mark reads as 0, which no header does.
unfoldable pub skip_zero : ℕ × List RawMfmWord → ℕ × List RawMfmWord
skip_zero first = if first.0 == 0 then read_even_bits first.1 else first

-- `parse_amiga_sector`, with what it leaves of the words.
unfoldable pub parse_amiga_sector : ℕ → List RawMfmWord → Option CollectedSector × List RawMfmWord
parse_amiga_sector expected_track_number words =
    let first = read_even_bits words in
    let odd_word = skip_zero first in
    let even_word = read_even_bits odd_word.1 in
    let header = bit_or (u32 (odd_word.0 * 2)) even_word.0 in
    if bit_and header 0xff00_0000 == 0xff00_0000
    then (if expected_track_number == header / 65536 % 256
        then sector_body (header / 256 % 256) odd_word.0 even_word.0 even_word.1
        else (none, even_word.1))
    else (none, even_word.1)

pub record AmigaTrackParser : Type 0 where
  pub collected_sectors : Option (List CollectedSector)
  pub expected_sectors_per_track : ℕ
  pub expected_track_number : Option ℕ

unfoldable pub new_parser : Density → AmigaTrackParser
new_parser disk_type = record {
  collected_sectors = none;
  expected_sectors_per_track = elim disk_type [ high ↦ 22 | single_double ↦ 11 ];
  expected_track_number = none;
}

-- How the search goes on behind a sync mark.
pub data Next : Type 0 where
  search_on : List CollectedSector → List RawMfmWord → Next
  all_found : List CollectedSector → Next

unfoldable pub collect_sector :
    ℕ → List CollectedSector → Option CollectedSector × List RawMfmWord → Next
collect_sector expected_sectors_per_track got (none, words) = search_on got words
collect_sector expected_sectors_per_track got (some sector, words) =
    if has_index sector.index got
    then search_on got words
    else (if length got + 1 == expected_sectors_per_track
        then all_found (got ++ (sector ∷ []))
        else search_on (got ++ (sector ∷ [])) words)

-- The search on fuel; `none` means that the fuel ran out.
unfoldable pub search :
    ℕ → ℕ → ℕ → List CollectedSector → List RawMfmWord → Option (List CollectedSector)
search fuel total track got [] = some got
search zero total track got (word ∷ words) = none
search (suc fuel) total track got (RawMfmWord.raw r ∷ words) = search fuel total track got words
search (suc fuel) total track got (RawMfmWord.sync_word ∷ words) =
    elim (collect_sector total got (parse_amiga_sector track words)) [
      | search_on got' rest ↦ search fuel total track got' rest
      | all_found got' ↦ some got'
    ]

-- What follows the search.
unfoldable pub finish :
    AmigaTrackParser → ℕ → List CollectedSector → AmigaTrackParser × Outcome TrackPayload
unfolding concatenate_sectors
finish p track got =
    if length got == p.expected_sectors_per_track
    then (
      record p { collected_sectors = none },
      done (concatenate_sectors got (track / 2) (track % 2)),
    )
    else (record p { collected_sectors = some got }, fail)

unfoldable pub parse_words :
    AmigaTrackParser → List RawMfmWord → Option (AmigaTrackParser × Outcome TrackPayload)
unfolding search finish
parse_words p words = elim p.expected_track_number [
  | none ↦ some (p, fail)
  | some track ↦ elim p.collected_sectors [
    | none ↦ some (p, fail)
    | some got ↦
        Option.map (finish p track)
          (search (length words) p.expected_sectors_per_track track got words)
  ]
]

-- `parse_raw_track`, with the parser behind it.
unfoldable pub parse_raw_track :
    AmigaTrackParser → List ℕ → Option (AmigaTrackParser × Outcome TrackPayload)
unfolding to_cells run feed_seperator new_seperator parse_words
parse_raw_track p track = elim (to_cells 168 (map (λ f. f * 8) track)) [
  | none ↦ none
  | some cells ↦ parse_words p (run feed_seperator new_seperator cells).1
]

unfoldable pub expect_track : AmigaTrackParser → ℕ → ℕ → AmigaTrackParser
expect_track p cylinder head = record p {
  expected_track_number = some (bit_or (u32 (cylinder * 2)) head);
  collected_sectors = some [];
}
