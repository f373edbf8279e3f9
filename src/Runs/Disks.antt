-- ===== src/Runs/Disks.antt =====
-- Sector images and the raw tracks made of them: image_iso.rs and rawtrack.rs.
use stm32_usbfloppy_tracer.Fluxpulse
use stm32_usbfloppy_tracer.Bitstream.RoundTrip.{to_bit_streams}
use stm32_usbfloppy_tracer.Mfm
use stm32_usbfloppy_tracer.Mfm.{feed, new_decoder}
use stm32_usbfloppy_tracer.CellData.{DiskType, mfm, single_double, split_in_parts}
use stm32_usbfloppy_tracer.Sectors.{TrackPayload, has_index}
use stm32_usbfloppy_tracer.Iso
use stm32_usbfloppy_tracer.Iso.Tracks.{crc_bytes, generate_iso_track}
use stm32_usbfloppy_tracer.Iso.Parser.{
  IsoTrackParser, by_panic, data_block, expect_track, expected_of, fresh, new_parser,
  parse_raw_track, parse_words, sector_size_of,
}
use stm32_usbfloppy_tracer.Iso.Blocks.{collected}
use stm32_usbfloppy_tracer.Iso.Results.{track_payload, waiting}
use stm32_usbfloppy_tracer.Iso.Written.{IsSector}
use stm32_usbfloppy_tracer.Iso.RoundTrip.{parse_words-generate_iso_track}
use stm32_usbfloppy_tracer.Iso.Termination.{cellsize_of, parse_iso_track_ends}
use stm32_usbfloppy_tracer.RawTrack.{RawTrack}
use stm32_usbfloppy_tracer.RawTrack.Writability.{
  IsLong, check_writability, check_writability-IsLong, track_pulses,
}
use stm32_usbfloppy_tracer.CellData.{DiskType, mfm, single_double, split_in_parts}
use stm32_usbfloppy_tracer.Mfm
use stm32_usbfloppy_tracer.Mfm.{new_decoder}
use stm32_usbfloppy_tracer.Fluxpulse.{to_cells}
use stm32_usbfloppy_tracer.Iso.Safety.{NamesAllocatable}
use stm32_usbfloppy_tracer.Base.{
  All, All-replicate, Bit, IsU8, List, NoPanic, Outcome, [], arith, concat, done, fail, false, inr,
  map, none, refl, replicate, run, some, ℕ, ◌%◌, ◌*◌, ◌++◌, ◌+◌, ◌-◌, ◌↔◌, ◌∷◌, ◌≡◌,
}
use stm32_usbfloppy_tracer.Iso.{calculate_floppy_geometry, generate_interleaving_table}
use stm32_usbfloppy_tracer.Iso.Geometry.{
  IsGeometryOf, calculate_floppy_geometry_complete, image_size,
}
use stm32_usbfloppy_tracer.Iso.Interleaving.{count, table_for, table_for-times, times}

calculate_floppy_geometry_test : calculate_floppy_geometry 737280 ≡ done (80, 9)
unfolding calculate_floppy_geometry
calculate_floppy_geometry_test = refl

calculate_floppy_geometry_complete_example :
    (g : ℕ × ℕ) × (calculate_floppy_geometry (image_size 40 18) ≡ done g)
    × IsGeometryOf (image_size 40 18) g
calculate_floppy_geometry_complete_example = calculate_floppy_geometry_complete 40 18 refl refl

-- Sector 2 of a disk with 10 sectors per track.
table_for-times_example : count 1 (table_for 10) ≡ times 10 1
table_for-times_example = table_for-times 10 1 refl (omega arith)

generate_interleaving_table_test :
    generate_interleaving_table 10 1 ≡ done (5 ∷ 0 ∷ 6 ∷ 0 ∷ 7 ∷ 0 ∷ 8 ∷ 0 ∷ 9 ∷ 0 ∷ [])
unfolding generate_interleaving_table
generate_interleaving_table_test = refl

-- A track of two bytes at half cells of 84 ticks.
abbrev mfm_track : ℕ → ℕ → RawTrack
mfm_track a b = record {
  cylinder = 40;
  head = 1;
  raw_data = a ∷ b ∷ [];
  densitymap = (record { number_of_cellbytes = 2; cell_size = 84 }) ∷ [];
  encoding = mfm;
  write_precompensation = 0;
  has_non_flux_reversal_area = false;
}

check_writability_test : check_writability (mfm_track 0x44 0x89) ≡ done tt
unfolding check_writability run Fluxpulse.feed
check_writability_test = refl

-- Two reversals in the last two cells are a pulse of one cell that the check does not see.
check_writability_unseen : check_writability (mfm_track 0x44 0x03) ≡ done tt
unfolding check_writability run Fluxpulse.feed
check_writability_unseen = refl

-- Two flux reversals without a half cell in between.
check_writability_refused : check_writability (mfm_track 0x46 0x89) ≡ fail
unfolding check_writability run Fluxpulse.feed
check_writability_refused = refl

check_writability-IsLong_example :
    (check_writability (mfm_track 0x44 0x89) ≡ done tt)
    ↔ All
        (IsLong 124)
        (track_pulses 84 ((record { cell_size = 84; cells = 0x44 ∷ 0x89 ∷ [] }) ∷ []))
unfolding split_in_parts
check_writability-IsLong_example =
    check_writability-IsLong (mfm_track 0x44 0x89)
      (record { number_of_cellbytes = 2; cell_size = 84 }) []
      ((record { cell_size = 84; cells = 0x44 ∷ 0x89 ∷ [] }) ∷ []) refl refl refl

-- A checksum that makes the sum of the bytes 0, in place of the crate's.
abbrev sum_all : List ℕ → ℕ
sum_all [] = 0
sum_all (b ∷ bs) = b + sum_all bs

abbrev sum_checksum : List ℕ → ℕ
sum_checksum bs = (256 - sum_all bs % 256) % 256

sum_all-append : (xs ys : List ℕ) → sum_all (xs ++ ys) ≡ sum_all xs + sum_all ys
sum_all-append [] ys = omega arith
sum_all-append (x ∷ xs) ys = omega (arith, sum_all-append xs ys)

sum_checksum_own : (bs : List ℕ) → sum_checksum (bs ++ crc_bytes (sum_checksum bs)) ≡ 0
sum_checksum_own bs = omega (arith, sum_all-append bs (crc_bytes (sum_checksum bs)))

abbrev nine_sectors : List (List ℕ)
nine_sectors = replicate 9 (replicate 512 0xe5)

-- Sector 3 was found by an earlier reading.
parse_words-generate_iso_track_example :
    (track : List ℕ) × (disk_type : DiskType) × (generate_iso_track sum_checksum 40 1
        (Iso.new 9)
        (nine_sectors ++ [])
      ≡ done (track, []))
    × (parse_words sum_checksum
          (waiting (some 9) 40 1 single_double none (some (collected 3 (replicate 512 0xe5) ∷ [])))
          (run Mfm.feed new_decoder (to_bit_streams track)).1
        ≡ some (
          waiting (some 9) 40 1 single_double (some disk_type) none,
          done (track_payload 40 1 (concat nine_sectors)),
        ))
parse_words-generate_iso_track_example =
    parse_words-generate_iso_track sum_checksum 40 1 9 nine_sectors [] single_double none (some 9)
      (collected 3 (replicate 512 0xe5) ∷ []) sum_checksum_own (omega arith) (omega arith) refl
      (omega arith) refl
      (All-replicate IsSector 9 (replicate 512 0xe5)
        (refl, All-replicate IsU8 512 0xe5 (omega arith)))
      (inr refl)
      (record {
        from_one = (omega arith, tt);
        of_table = ((omega arith, refl), tt);
        distinct = unfold has_index in (refl, tt);
      })

abbrev iso_parser : IsoTrackParser
unfolding expect_track new_parser
iso_parser = expect_track (new_parser none single_double) 0 0

abbrev three_pulses : List ℕ
three_pulses = 42 ∷ 63 ∷ 42 ∷ []

parse_iso_track_ends_example :
    (cells : List Bit) × ((to_cells (cellsize_of iso_parser.density) (map (λ f. f * 8) three_pulses)
        ≡ some cells)
      × ((r : IsoTrackParser × Outcome TrackPayload) × ((parse_raw_track sum_checksum iso_parser
                three_pulses
              ≡ some r)
            × (All NamesAllocatable (run Mfm.feed new_decoder cells).1 → NoPanic r.1))))
parse_iso_track_ends_example =
    parse_iso_track_ends sum_checksum iso_parser three_pulses
      (omega arith, (omega arith, (omega arith, tt)))

-- A data block behind a header with a size code of 56.
size_code_test :
    data_block sum_checksum
      (expected_of iso_parser)
      (record (fresh (some [])) { sector_header = 0 ∷ 0 ∷ 1 ∷ 56 ∷ [] })
      []
    ≡ by_panic
unfolding data_block sector_size_of
size_code_test = refl
