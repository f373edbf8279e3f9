-- ===== src/Commodore/Image.antt =====
-- tool/src/image_reader/image_d64.rs: the GCR tracks of a D64 image.
use stm32_usbfloppy_tracer.RawTrack
use stm32_usbfloppy_tracer.RawTrack.{RawImage, RawTrack}
use stm32_usbfloppy_tracer.CellData.{gcr, inch_5_25, single_double}
use stm32_usbfloppy_tracer.Bitstream.{pack, to_bit_stream}
use stm32_usbfloppy_tracer.Gcr.{to_gcr_stream}
use stm32_usbfloppy_tracer.Commodore.{TrackConfiguration, get_track_settings}
use stm32_usbfloppy_tracer.Base.{
  Bit, List, Outcome, [], bit_xor, chunks_exact, done, fail, if◌then◌else◌, leb, length, replicate,
  suc, zero, ℕ, ◌*◌, ◌++◌, ◌+◌, ◌/◌, ◌==◌, ◌>>=◌, ◌∷◌,
}

abbrev pub cylinders : ℕ
cylinders = 35

abbrev pub sectors_total : ℕ
sectors_total = 683

abbrev pub bytes_per_sector : ℕ
bytes_per_sector = 256

abbrev pub id1 : ℕ
id1 = 0x39

abbrev pub id2 : ℕ
id2 = 0x30

-- `feed_raw` and `feed_gcr` on several bytes in turn: the cells that the collector is fed.
unfoldable pub feed_raw : List ℕ → List Bit
unfolding to_bit_stream
feed_raw [] = []
feed_raw (word ∷ words) = to_bit_stream word ++ feed_raw words

unfoldable pub feed_gcr : List ℕ → List Bit
unfolding to_gcr_stream
feed_gcr [] = []
feed_gcr (word ∷ words) = to_gcr_stream word ++ feed_gcr words

abbrev pub header_checksum : ℕ → ℕ → ℕ
header_checksum sector tracknum = bit_xor (bit_xor (bit_xor sector tracknum) id1) id2

-- The header's bytes behind its mark.
abbrev pub header_bytes : ℕ → ℕ → List ℕ
header_bytes sector tracknum = header_checksum sector tracknum ∷ sector ∷ tracknum ∷ id2 ∷ id1 ∷ []

-- The checksum of a block, from what it was before.
unfoldable pub xor_bytes : ℕ → List ℕ → ℕ
xor_bytes checksum [] = checksum
xor_bytes checksum (b ∷ bs) = xor_bytes (bit_xor checksum b) bs

-- All cells of a sector, its headers and gaps.
unfoldable pub sector_cells : ℕ → ℕ → ℕ → List ℕ → List Bit
unfolding feed_raw feed_gcr xor_bytes
sector_cells tracknum gap_size sector sector_buffer =
    feed_raw (replicate 5 0xff)
    ++ feed_gcr (0x08 ∷ header_bytes sector tracknum ++ (0x0f ∷ 0x0f ∷ []))
    ++ feed_raw (replicate 5 0x55)
    ++ feed_raw (replicate 5 0xff)
    ++ feed_gcr (0x07 ∷ sector_buffer ++ (xor_bytes 0 sector_buffer ∷ 0x00 ∷ 0x00 ∷ []))
    ++ feed_raw (replicate gap_size 0x55)

-- The loop over the sectors, by the sectors that are left; each has a collector of its own. It
-- returns the bytes of the track, and what is left of the image.
unfoldable pub sectors_loop : ℕ → ℕ → ℕ → ℕ → List (List ℕ) → Outcome (List ℕ × List (List ℕ))
unfolding sector_cells pack
sectors_loop tracknum gap_size sector zero sectors = done ([], sectors)
sectors_loop tracknum gap_size sector (suc left) [] = fail
sectors_loop tracknum gap_size sector (suc left) (sector_buffer ∷ sectors) =
    let rest = sectors_loop tracknum gap_size (suc sector) left sectors in
    if length sector_buffer == bytes_per_sector
    then (rest >>= λ r.
        done (pack (sector_cells tracknum gap_size sector sector_buffer) ++ r.0, r.1))
    else fail

unfoldable pub generate_track :
    ℕ → List (List ℕ) → Outcome (List ℕ × TrackConfiguration × List (List ℕ))
unfolding sectors_loop get_track_settings
generate_track tracknum sectors = get_track_settings tracknum >>= λ settings.
    if leb settings.sectors (length sectors)
    then (sectors_loop tracknum settings.gap_size 0 settings.sectors sectors >>= λ r.
        done (r.0, settings, r.1))
    else fail

-- The loop over the cylinders, by those that are left.
unfoldable pub cylinders_loop : ℕ → ℕ → List (List ℕ) → Outcome (List RawTrack)
unfolding generate_track RawTrack.new
cylinders_loop src_cylinder zero sectors = done []
cylinders_loop src_cylinder (suc left) sectors = generate_track (src_cylinder + 1) sectors >>= λ t.
    (let (trackbuf, settings, sectors') = t in
      cylinders_loop (suc src_cylinder) left sectors' >>= λ rest. done (
        RawTrack.new (src_cylinder * 2) 0 trackbuf
          (record { number_of_cellbytes = length trackbuf; cell_size = settings.cellsize } ∷ []) gcr
        ∷ rest))

-- `parse_d64_image` on the bytes of the file.
unfoldable pub parse_d64_image : List ℕ → Outcome RawImage
unfolding cylinders_loop chunks_exact
parse_d64_image whole_file_buffer =
    let sectors =
      chunks_exact bytes_per_sector (length whole_file_buffer / bytes_per_sector)
        whole_file_buffer in
    if length whole_file_buffer == 174848
    then (if length sectors == sectors_total
        then (cylinders_loop 0 cylinders sectors >>= λ tracks.
            done (record { tracks = tracks; disk_type = inch_5_25; density = single_double }))
        else fail)
    else fail
