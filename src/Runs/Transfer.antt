-- ===== src/Runs/Transfer.antt =====
-- A track on its way to the disk: rawtrack.rs, usb_commands.rs, vendor_class.rs, track_raw.rs and
-- the cell data of util/src/lib.rs.
use stm32_usbfloppy_tracer.Usb.Device
use stm32_usbfloppy_tracer.Base.{
  List, [], arith, concat, done, false, map, none, refl, some, suc, true, zero, ℕ, ◌∷◌, ◌≡◌,
}
use stm32_usbfloppy_tracer.CellData.{
  DensityMap, RawCellData, RawCellPart, drive_b, high, inch_3_5, mfm, single_double, split_in_parts,
}
use stm32_usbfloppy_tracer.CellData.Laws.{part_cells, part_of, size_of, split_in_parts_fits}
use stm32_usbfloppy_tracer.RawTrack.{RawImage, RawTrack, TrackFilter, filter_tracks}
use stm32_usbfloppy_tracer.RawTrack.Filter.{Kept, filter_tracks-Kept}
use stm32_usbfloppy_tracer.Usb.Configure.{Configures, poll-configure_device}
use stm32_usbfloppy_tracer.Usb.RoundTrip.{Delivers, IsIdle, IsSendable, polls-write_raw_track}
use stm32_usbfloppy_tracer.TrackWriter.{
  RawTrackError, Result, TrackIo, data_not_equal, err, no_cross_correlation, ok, reached,
  write_and_verify,
}

abbrev two_speeds : DensityMap
two_speeds =
    record { number_of_cellbytes = 2; cell_size = 168 }
    ∷ record { number_of_cellbytes = 1; cell_size = 170 }
    ∷ []

abbrev three_bytes : List ℕ
three_bytes = 0x44 ∷ 0x89 ∷ 0x55 ∷ []

abbrev some_track : RawTrack
some_track = record {
  cylinder = 40;
  head = 1;
  raw_data = three_bytes;
  densitymap = two_speeds;
  encoding = mfm;
  write_precompensation = 7;
  has_non_flux_reversal_area = true;
}

some_track-IsSendable : IsSendable some_track
some_track-IsSendable = record {
  head = omega arith;
  cylinder = omega arith;
  precompensation = omega arith;
  carried = ((omega arith, omega arith), ((omega arith, omega arith), tt));
  table = omega arith;
  some_data = omega arith;
  size = omega arith;
  described = refl;
}

new-IsIdle : IsIdle Device.new
new-IsIdle =
    unfold Device.new in
    record { no_blocks = refl; no_data = refl; no_speeds = refl; no_command = refl }

polls-write_raw_track_example : Delivers some_track Device.new
polls-write_raw_track_example =
    polls-write_raw_track some_track Device.new some_track-IsSendable new-IsIdle

poll-configure_device_example : Configures drive_b high 14000000 Device.new
poll-configure_device_example =
    poll-configure_device drive_b high 14000000 Device.new (λ e. cc) (omega arith)
      (unfold Device.new in refl)

split_in_parts_fits_example :
    (parts : List RawCellPart) × (split_in_parts two_speeds three_bytes ≡ done parts)
    × (map size_of parts ≡ map part_of two_speeds)
    × (concat (map part_cells parts) ≡ three_bytes)
split_in_parts_fits_example = split_in_parts_fits two_speeds three_bytes refl

abbrev inner_cylinders : TrackFilter
inner_cylinders = record { cyl_start = some 41; cyl_end = none; head = some 1 }

abbrev some_image : RawImage
some_image = record {
  density = single_double;
  disk_type = inch_3_5;
  tracks = some_track ∷ record some_track { cylinder = 41 } ∷ [];
}

filter_tracks-Kept_example :
    Kept inner_cylinders some_image.tracks (filter_tracks some_image inner_cylinders).tracks
filter_tracks-Kept_example = filter_tracks-Kept some_image inner_cylinders

-- A drive whose first read finds no correlation, whose second differs, and whose third matches; its
-- state is the number of reads.
abbrev read_result : ℕ → RawCellData → Result (RawTrackError × RawCellData) ℕ
read_result zero track = err (no_cross_correlation, track)
read_result (suc zero) track = err (data_not_equal, track)
read_result (suc (suc n)) track = ok 5

abbrev third_read : TrackIo ℕ
third_read = record {
  write_track = λ precompensation track n. reached (ok track, n);
  verify_track = λ track n. reached (read_result n track, suc n);
}

abbrev three_cells : RawCellData
three_cells = record {
  speeds = two_speeds;
  cells = three_bytes;
  has_non_flux_reversal_area = false;
  parts = [];
}

write_and_verify_test :
    write_and_verify third_read false 7 three_cells 0
    ≡ reached (
      ok (record {
        write_operations = 1;
        verify_operations = 3;
        write_precompensation = 7;
        max_err = 5;
      }),
      3,
    )
unfolding write_and_verify
write_and_verify_test = refl
