-- ===== src/Amiga.antt =====
-- tool/src/image_reader/image_adf.rs: the MFM tracks of an Amiga image.
pub mod Parser
pub mod Search
pub mod Checksum
pub mod Sector
pub mod RoundTrip
use stm32_usbfloppy_tracer.Mfm
use stm32_usbfloppy_tracer.Mfm.{
  MfmEncoder, MfmWord, feed_encoded8, feed_even16_32, feed_odd16_32, feed_word, new_encoder,
  sync_word,
}
use stm32_usbfloppy_tracer.Mfm.{
  MfmEncoder, MfmWord, feed_encoded8, feed_even16_32, feed_odd16_32, feed_word, new_encoder,
  sync_word,
}
use stm32_usbfloppy_tracer.Iso.Tracks.{Feeding, ◌⊳◌}
use stm32_usbfloppy_tracer.Bitstream.{pack}
use stm32_usbfloppy_tracer.CellData.{inch_3_5, mfm, single_double}
use stm32_usbfloppy_tracer.RawTrack
use stm32_usbfloppy_tracer.RawTrack.{RawImage, RawTrack}
use stm32_usbfloppy_tracer.Base.{
  Bit, List, Outcome, [], bit_and, bit_or, bit_xor, chunks_exact, done, fail, if◌then◌else◌, length,
  ltb, map, run, suc, u32, zero, ℕ, ◌%◌, ◌*◌, ◌++◌, ◌+◌, ◌-◌, ◌/◌, ◌==◌, ◌>>=◌, ◌∷◌,
}

abbrev pub amiga_mfm_mask : ℕ
amiga_mfm_mask = 0x5555_5555

abbrev pub sectors_per_track : ℕ
sectors_per_track = 11

abbrev pub cylinders : ℕ
cylinders = 80

abbrev pub heads : ℕ
heads = 2

abbrev pub bytes_per_sector : ℕ
bytes_per_sector = 512

-- A call of `feed_odd16_32` or `feed_even16_32`.
pub data Half : Type 0 where
  odd even : ℕ → Half

unfoldable pub feed_half : MfmEncoder → Half → MfmEncoder × List Bit
unfolding feed_odd16_32 feed_even16_32
feed_half e (odd v) = feed_odd16_32 e v
feed_half e (even v) = feed_even16_32 e v

-- The data bits of a half: those at the odd places, shifted to the even ones, or those there.
abbrev pub odd_bits : ℕ → ℕ
odd_bits v = bit_and (v / 2) amiga_mfm_mask

abbrev pub even_bits : ℕ → ℕ
even_bits v = bit_and v amiga_mfm_mask

unfoldable pub sector_header : ℕ → ℕ → ℕ → ℕ
sector_header cylinder head sector =
    bit_or
      (bit_or (bit_or (bit_or 0xff00_0000 (u32 (cylinder * 131072))) (u32 (head * 65536)))
        (u32 (sector * 256)))
      (sectors_per_track - sector)

-- `u32::from_be_bytes` on the chunks of four bytes.
unfoldable pub be_longs : List ℕ → List ℕ
be_longs (a ∷ b ∷ c ∷ d ∷ rest) = (((a * 256 + b) * 256 + c) * 256 + d) ∷ be_longs rest
be_longs rest = []

unfoldable pub data_checksum : ℕ → List ℕ → ℕ
data_checksum checksum [] = checksum
data_checksum checksum (word ∷ longs) =
    data_checksum (bit_xor (bit_xor checksum (even_bits word)) (odd_bits word)) longs

-- The header with its label and checksum.
unfoldable pub header_halves : ℕ → List Half
header_halves header =
    odd header
    ∷ even header
    ∷ odd 0
    ∷ odd 0
    ∷ odd 0
    ∷ odd 0
    ∷ even 0
    ∷ even 0
    ∷ even 0
    ∷ even 0
    ∷ odd 0
    ∷ even (bit_xor (odd_bits header) (even_bits header))
    ∷ []

-- The data with its checksum in front.
unfoldable pub data_halves : List ℕ → List Half
unfolding data_checksum
data_halves longs = odd 0 ∷ even (data_checksum 0 longs) ∷ map odd longs ++ map even longs

abbrev pub feed_halves : List Half → Feeding
feed_halves halves e = run feed_half e halves

unfoldable pub generate_sector : ℕ → ℕ → ℕ → List ℕ → Outcome Feeding
unfolding ◌⊳◌ run feed_encoded8 feed_word feed_half sector_header header_halves data_halves be_longs
generate_sector cylinder head sector sectordata =
    if ltb head 2
    then (if length sectordata == 512
        then done (
            (λ e. run feed_encoded8 e (0 ∷ 0 ∷ []))
            ⊳ (λ e. run feed_word e (Mfm.MfmWord.sync_word ∷ Mfm.MfmWord.sync_word ∷ []))
            ⊳ feed_halves (header_halves (sector_header cylinder head sector))
            ⊳ feed_halves (data_halves (be_longs sectordata)))
        else fail)
    else fail

-- The loop over the sectors, by those that are left, with what is left of the image.
unfoldable pub generate_sectors : ℕ → ℕ → ℕ → ℕ → List (List ℕ) → Outcome (Feeding × List (List ℕ))
unfolding generate_sector ◌⊳◌
generate_sectors cylinder head sector zero sectors = done ((λ e. (e, [])), sectors)
generate_sectors cylinder head sector (suc left) [] = fail
generate_sectors cylinder head sector (suc left) (sectordata ∷ sectors) =
    generate_sector cylinder head sector sectordata >>= λ fed.
    (generate_sectors cylinder head (suc sector) left sectors >>= λ rest.
    done (fed ⊳ rest.0, rest.1))

unfoldable pub generate_track : ℕ → ℕ → List (List ℕ) → Outcome (List ℕ × List (List ℕ))
unfolding generate_sectors pack new_encoder
generate_track cylinder head sectors =
    generate_sectors cylinder head 0 sectors_per_track sectors >>= λ r.
    done (pack (r.0 new_encoder).1, r.1)

-- The loops over the cylinders and heads, by the tracks that are left: track n has cylinder n / 2 and
-- head n % 2.
unfoldable pub tracks_loop : ℕ → ℕ → List (List ℕ) → Outcome (List RawTrack)
unfolding generate_track RawTrack.new
tracks_loop track zero sectors = done []
tracks_loop track (suc left) sectors =
    generate_track (track / heads) (track % heads) sectors >>= λ t.
    (tracks_loop (suc track) left t.1 >>= λ rest. done (
      RawTrack.new (track / heads) (track % heads) t.0
        (record { number_of_cellbytes = length t.0; cell_size = 168 } ∷ []) mfm
      ∷ rest))

-- `parse_adf_image` on the bytes of the file.
unfoldable pub parse_adf_image : List ℕ → Outcome RawImage
unfolding tracks_loop chunks_exact
parse_adf_image buffer =
    if length buffer == 901120
    then (tracks_loop 0 (cylinders * heads)
          (chunks_exact bytes_per_sector (length buffer / bytes_per_sector) buffer)
        >>= λ tracks.
            done (record { tracks = tracks; density = single_double; disk_type = inch_3_5 }))
    else fail
