-- ===== src/Iso/Tracks.antt =====
-- tool/src/image_reader/image_iso.rs: the MFM tracks of a sector image. The checksum (crate crc16) is
-- a parameter.
use stm32_usbfloppy_tracer.RawTrack.{RawImage, RawTrack}
use stm32_usbfloppy_tracer.CellData.{high, inch_3_5, mfm, single_double}
use stm32_usbfloppy_tracer.Bitstream.{pack}
use stm32_usbfloppy_tracer.RawTrack
use stm32_usbfloppy_tracer.Base.{
  Bit, List, Option, Outcome, [], chunks_exact, done, expect_some, fail, get_elem?, if◌then◌else◌,
  leb, length, none, replicate, run, some, suc, u8, zero, ℕ, ◌%◌, ◌++◌, ◌+◌, ◌/◌, ◌>>=◌, ◌∷◌,
}
use stm32_usbfloppy_tracer.Mfm.{
  MfmEncoder, feed_encoded8, feed_word, iso_sync_byte, new_encoder, sync_word,
}
use stm32_usbfloppy_tracer.Iso
use stm32_usbfloppy_tracer.Iso.{
  IsoGeometry, calculate_floppy_geometry, generate_interleaving_table, geometry,
}

abbrev pub iso_idam : ℕ
iso_idam = 0xfe

abbrev pub iso_dam : ℕ
iso_dam = 0xfb

-- Feeding an encoder: what it keeps, and the cells it emits.
abbrev pub Feeding : Type 0
Feeding = MfmEncoder → MfmEncoder × List Bit

infixr 4 ◌⊳◌
unfoldable pub ◌⊳◌ : Feeding → Feeding → Feeding
(f ⊳ g) e = let a = f e in let b = g a.0 in (b.0, a.1 ++ b.1)

unfoldable pub feed_bytes : List ℕ → Feeding
unfolding run
feed_bytes bytes e = run feed_encoded8 e bytes

unfoldable pub generate_iso_gap : ℕ → ℕ → Feeding
unfolding feed_bytes
generate_iso_gap gap_size value = feed_bytes (replicate gap_size value)

unfoldable pub three_sync_words : Feeding
unfolding run
three_sync_words e = run feed_word e (sync_word ∷ sync_word ∷ sync_word ∷ [])

abbrev pub synced : List ℕ → List ℕ
synced bytes = iso_sync_byte ∷ iso_sync_byte ∷ iso_sync_byte ∷ bytes

abbrev pub crc_bytes : ℕ → List ℕ
crc_bytes crc16 = u8 (crc16 / 256) ∷ crc16 % 256 ∷ []

abbrev pub unwrap_or : Option ℕ → ℕ → ℕ
unwrap_or none d = d
unwrap_or (some a) d = a

unfoldable pub generate_iso_data_header : ℕ → Option ℕ → Feeding
unfolding ◌⊳◌ generate_iso_gap three_sync_words feed_bytes
generate_iso_data_header gap3b_size address_mark =
    generate_iso_gap gap3b_size 0
    ⊳ three_sync_words
    ⊳ feed_bytes (unwrap_or address_mark iso_dam ∷ [])

-- The next count sectors of the image, numbered from sector + 1; it is an error if the image has
-- no more.
unfoldable pub next_sectors : ℕ → ℕ → List (List ℕ) → Outcome (List (ℕ × List ℕ) × List (List ℕ))
next_sectors sector zero sectors_in = done ([], sectors_in)
next_sectors sector (suc count) [] = fail
next_sectors sector (suc count) (sectordata ∷ sectors_in) =
    next_sectors (suc sector) count sectors_in >>= λ r.
    done ((u8 (u8 sector + 1), sectordata) ∷ r.0, r.1)

module _ (crc : List ℕ → ℕ) where
  unfoldable pub generate_iso_sectorheader : ℕ → ℕ → ℕ → ℕ → ℕ → Feeding
  unfolding ◌⊳◌ generate_iso_gap three_sync_words feed_bytes
  generate_iso_sectorheader gap2_size idam_cylinder idam_head idam_sector idam_size =
      let sector_header = iso_idam ∷ idam_cylinder ∷ idam_head ∷ idam_sector ∷ idam_size ∷ [] in
      generate_iso_gap gap2_size 0
      ⊳ three_sync_words
      ⊳ feed_bytes sector_header
      ⊳ feed_bytes (crc_bytes (crc (synced sector_header)))

  unfoldable pub generate_iso_data_with_crc : List ℕ → Option ℕ → Feeding
  unfolding ◌⊳◌ feed_bytes
  generate_iso_data_with_crc sectordata address_mark =
      feed_bytes sectordata
      ⊳ feed_bytes (crc_bytes (crc (synced (unwrap_or address_mark iso_dam ∷ sectordata))))

  -- One sector of the track, with its headers and gaps.
  unfoldable pub feed_sector : ℕ → ℕ → IsoGeometry → ℕ × List ℕ → Feeding
  unfolding ◌⊳◌ generate_iso_sectorheader generate_iso_gap generate_iso_data_header
      generate_iso_data_with_crc
  feed_sector cylinder head geometry (idam_sector, sectordata) =
      generate_iso_sectorheader geometry.gap2_size (u8 cylinder) (u8 head) idam_sector 2
      ⊳ generate_iso_gap geometry.gap3a_size 0x4e
      ⊳ generate_iso_data_header geometry.gap3b_size none
      ⊳ generate_iso_data_with_crc sectordata none
      ⊳ generate_iso_gap geometry.gap4_size 0x4e

  -- The sectors in the order of the table; an index out of bounds is an error.
  unfoldable pub feed_sectors : ℕ → ℕ → IsoGeometry → List (ℕ × List ℕ) → List ℕ → Outcome Feeding
  unfolding feed_sector ◌⊳◌ generate_iso_gap
  feed_sectors cylinder head geometry sectors [] = done (generate_iso_gap geometry.gap5_size 0x4e)
  feed_sectors cylinder head geometry sectors (index ∷ table) =
      expect_some (get_elem? sectors index) >>= λ sector.
      (feed_sectors cylinder head geometry sectors table >>= λ rest.
      done (feed_sector cylinder head geometry sector ⊳ rest))

  -- `generate_iso_track`: the bytes of the track, and the sectors of the image that are left.
  unfoldable pub generate_iso_track :
      ℕ → ℕ → IsoGeometry → List (List ℕ) → Outcome (List ℕ × List (List ℕ))
  unfolding next_sectors generate_interleaving_table feed_sectors ◌⊳◌ generate_iso_gap pack
  generate_iso_track cylinder head geometry sectors_in =
      next_sectors 0 geometry.sectors_per_track sectors_in >>= λ taken.
      (generate_interleaving_table geometry.sectors_per_track geometry.interleaving >>= λ table.
      (feed_sectors cylinder head geometry taken.0 table >>= λ sectors.
      done (pack ((generate_iso_gap geometry.gap1_size 0x4e ⊳ sectors) new_encoder).1, taken.1)))

  -- The tracks of one image, cylinder by cylinder and head by head.
  unfoldable pub heads_loop :
      ℕ → ℕ → ℕ → ℕ → IsoGeometry → List (List ℕ) → Outcome (List RawTrack × List (List ℕ))
  unfolding generate_iso_track RawTrack.new
  heads_loop zero head cellsize cylinder geometry sectors = done ([], sectors)
  heads_loop (suc count) head cellsize cylinder geometry sectors =
      generate_iso_track cylinder head geometry sectors >>= λ track.
      (heads_loop count (suc head) cellsize cylinder geometry track.1 >>= λ rest. done (
        RawTrack.new cylinder head track.0
              (record { number_of_cellbytes = length track.0; cell_size = cellsize } ∷ []) mfm
            ∷ rest.0,
        rest.1,
      ))

  unfoldable pub image_loop : ℕ → ℕ → ℕ → IsoGeometry → List (List ℕ) → Outcome (List RawTrack)
  unfolding heads_loop
  image_loop zero cylinder cellsize geometry sectors = done []
  image_loop (suc count) cylinder cellsize geometry sectors =
      heads_loop 2 0 cellsize cylinder geometry sectors >>= λ tracks.
      (image_loop count (suc cylinder) cellsize geometry tracks.1 >>= λ rest.
      done (tracks.0 ++ rest))

  -- `parse_iso_image` on the bytes of the file.
  unfoldable pub parse_iso_image : List ℕ → Outcome RawImage
  unfolding calculate_floppy_geometry image_loop Iso.new chunks_exact
  parse_iso_image buffer = calculate_floppy_geometry (length buffer) >>= λ found.
      (let (cylinders, sectors_per_track) = found in
        let high_density = leb 15 sectors_per_track in
        image_loop cylinders 0 (if high_density then 84 else 168) (Iso.new sectors_per_track)
          (chunks_exact 512 (length buffer / 512) buffer)
        >>= λ tracks. done (record {
          density = if high_density then high else single_double;
          disk_type = inch_3_5;
          tracks = tracks;
        }))
