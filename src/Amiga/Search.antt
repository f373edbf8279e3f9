-- ===== src/Amiga/Search.antt =====
-- tool/src/track_parser/amiga.rs: parsing a track ends, whatever was read.
use stm32_usbfloppy_tracer.Fluxpulse.Termination.{small_pulses, to_cells_ends}
use stm32_usbfloppy_tracer.Mfm.{RawMfmWord, feed_seperator, new_seperator}
use stm32_usbfloppy_tracer.Sectors.{CollectedSector, TrackPayload, has_index}
use stm32_usbfloppy_tracer.Amiga.Parser.{
  AmigaTrackParser, Next, all_found, collect_sector, finish, parse_amiga_sector, parse_raw_track,
  parse_words, read_even_bits, read_words, search, search_on, sector_body, skip_zero, xor_all,
}
use stm32_usbfloppy_tracer.Base.{
  All, Bool-cases, IsU8, List, NoPanic, Option, Outcome, [], arith, bit_and, bit_or, bit_xor, fail,
  inl, inr, length, map, none, refl, run, some, suc, u32, zero, ℕ, ◌%◌, ◌*◌, ◌+◌, ◌/◌, ◌==◌, ◌∷◌,
  ◌≡◌, ◌≤◌, ◌⊎◌,
}

length-read_even_bits : (ws : List RawMfmWord) → length (read_even_bits ws).1 ≤ length ws
unfolding read_even_bits
length-read_even_bits [] = omega arith
length-read_even_bits (RawMfmWord.raw r ∷ ws) = omega arith
length-read_even_bits (RawMfmWord.sync_word ∷ ws) = omega arith

length-read_words : (n : ℕ) (ws : List RawMfmWord) → length (read_words n ws).1 ≤ length ws
unfolding read_words
length-read_words zero ws = omega arith
length-read_words (suc n) ws =
    omega (arith, length-read_even_bits ws, length-read_words n (read_even_bits ws).1)

length-skip_zero : (first : ℕ × List RawMfmWord) → length (skip_zero first).1 ≤ length first.1
unfolding skip_zero
length-skip_zero first = elim (Bool-cases (first.0 == 0)) [
  | inl e ↦ rw e (length-read_even_bits first.1)
  | inr e ↦ rw e (omega arith)
]

length-sector_body :
    (s o e : ℕ) (ws : List RawMfmWord) → length (sector_body s o e ws).1 ≤ length ws
unfolding sector_body
length-sector_body s o e ws =
    let label = (read_words 10 ws).1 in
    let check = (read_words 2 label).1 in
    let odds = (read_words 128 check).1 in
    let a = length-read_words 10 ws in
    let d : length (read_words 128 odds).1 ≤ length ws = omega (
      arith,
      a,
      length-read_words 2 label,
      length-read_words 128 check,
      length-read_words 128 odds,
    ) in
    let header_good = xor_all (bit_xor o e) (read_words 10 ws).0 == 0 in
    let data_good =
      xor_all (xor_all (xor_all 0 (read_words 2 label).0) (read_words 128 check).0)
        (read_words 128 odds).0
      == 0 in
    elim (Bool-cases header_good) [
      | inr q ↦ rw q a
      | inl q ↦ elim (Bool-cases data_good) [ inl p ↦ rw (q, p) d | inr p ↦ rw (q, p) d ]
    ]

length-parse_amiga_sector :
    (t : ℕ) (ws : List RawMfmWord) → length (parse_amiga_sector t ws).1 ≤ length ws
unfolding parse_amiga_sector
length-parse_amiga_sector t ws =
    let odd_word = skip_zero (read_even_bits ws) in
    let even_word = read_even_bits odd_word.1 in
    let header = bit_or (u32 (odd_word.0 * 2)) even_word.0 in
    let a : length even_word.1 ≤ length ws = omega (
      arith,
      length-read_even_bits ws,
      length-skip_zero (read_even_bits ws),
      length-read_even_bits odd_word.1,
    ) in
    let body = length-sector_body (header / 256 % 256) odd_word.0 even_word.0 even_word.1 in
    elim (Bool-cases (bit_and header 0xff00_0000 == 0xff00_0000)) [
      | inr q ↦ rw q a
      | inl q ↦ elim (Bool-cases (t == header / 65536 % 256)) [
        | inl p ↦ rw (q, p) (omega (arith, a, body))
        | inr p ↦ rw (q, p) a
      ]
    ]

-- What is left to search behind a sector.
unfoldable IsWithin : ℕ → Next → Type 0
IsWithin n (search_on got ws) = length ws ≤ n
IsWithin n (all_found got) = Unit

collect_sector-IsWithin :
    (total n : ℕ) (got : List CollectedSector) (r : Option CollectedSector × List RawMfmWord)
    → length r.1 ≤ n
    → IsWithin n (collect_sector total got r)
unfolding collect_sector IsWithin
collect_sector-IsWithin total n got (none, ws) h = h
collect_sector-IsWithin total n got (some s, ws) h = elim (Bool-cases (has_index s.index got)) [
  | inl e ↦ rw e h
  | inr e ↦ elim (Bool-cases (length got + 1 == total)) [
    | inl q ↦ rw (e, q) tt
    | inr q ↦ rw (e, q) h
  ]
]

Next-cases :
    (x : Next)
    → ((got : List CollectedSector) × (ws : List RawMfmWord) × (x ≡ search_on got ws))
      ⊎ ((got : List CollectedSector) × (x ≡ all_found got))
Next-cases (search_on got ws) = inl (got, ws, refl)
Next-cases (all_found got) = inr (got, refl)

search_on-IsWithin :
    (n : ℕ) (x : Next) (got : List CollectedSector) (ws : List RawMfmWord)
    → IsWithin n x
    → x ≡ search_on got ws
    → length ws ≤ n
search_on-IsWithin n x got ws h e = unfold IsWithin in rw e at h

search_ends :
    (fuel total track : ℕ) (got : List CollectedSector) (ws : List RawMfmWord)
    → length ws ≤ fuel
    → (all : List CollectedSector) × (search fuel total track got ws ≡ some all)
unfolding search
search_ends fuel total track got [] h = (got, refl)
search_ends zero total track got (w ∷ ws) h = absurd (omega arith)
search_ends (suc fuel) total track got (RawMfmWord.raw r ∷ ws) h =
    search_ends fuel total track got ws (omega arith)
search_ends (suc fuel) total track got (RawMfmWord.sync_word ∷ ws) h =
    let r = parse_amiga_sector track ws in
    let w = collect_sector-IsWithin total (length ws) got r (length-parse_amiga_sector track ws) in
    elim (Next-cases (collect_sector total got r)) [
      | inl (got', rest, e) ↦
          let less = search_on-IsWithin (length ws) (collect_sector total got r) got' rest w e in
          rw (search, e) (search_ends fuel total track got' rest (omega (arith, less)))
      | inr (got', e) ↦ rw (search, e) (got', refl)
    ]

-- A parser with these fields.
abbrev parser : Option (List CollectedSector) → ℕ → Option ℕ → AmigaTrackParser
parser got total track = record {
  collected_sectors = got;
  expected_sectors_per_track = total;
  expected_track_number = track;
}

finish-NoPanic :
    (p : AmigaTrackParser) (track : ℕ) (got : List CollectedSector) → NoPanic (finish p track got).1
unfolding finish
finish-NoPanic p track got = elim (Bool-cases (length got == p.expected_sectors_per_track)) [
  | inl e ↦ rw e tt
  | inr e ↦ rw e tt
]

parser_ends :
    (got : Option (List CollectedSector)) (total : ℕ) (track : Option ℕ) (words : List RawMfmWord)
    → (r : AmigaTrackParser × Outcome TrackPayload) × ((parse_words (parser got total track) words
          ≡ some r)
        × NoPanic r.1)
unfolding parse_words
parser_ends got total none words = ((parser got total none, fail), (refl, tt))
parser_ends none total (some track) words = ((parser none total (some track), fail), (refl, tt))
parser_ends (some got) total (some track) words =
    let (all, e) = search_ends (length words) total track got words (omega arith) in
    let p = parser (some got) total (some track) in
    (finish p track all, (rw (parse_words, e) refl, finish-NoPanic p track all))

-- Parsing any bytes as a track ends, whatever the parser holds: it returns a parser and a payload or an
-- error, never a panic, and neither loop of it runs out of fuel.
pub parse_amiga_track_ends :
    (p : AmigaTrackParser) (track : List ℕ)
    → All IsU8 track
    → (r : AmigaTrackParser × Outcome TrackPayload) × ((parse_raw_track p track ≡ some r)
        × NoPanic r.1)
unfolding parse_raw_track
parse_amiga_track_ends p track h =
    let (cells, e) =
      to_cells_ends 168 (map (λ f. f * 8) track) (omega arith) (omega arith)
        (small_pulses track h) in
    let (r, (e', returns)) =
      parser_ends p.collected_sectors p.expected_sectors_per_track p.expected_track_number
        (run feed_seperator new_seperator cells).1 in
    (r, (rw (parse_raw_track, e) e', returns))
