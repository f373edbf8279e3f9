-- ===== src/Iso/Written.antt =====
-- tool/src/image_reader/image_iso.rs: the cells of a track, and the reading that they make.
use stm32_usbfloppy_tracer.Iso.Readings.{Recorded}
use stm32_usbfloppy_tracer.Mfm.{new_decoder, new_encoder}
use stm32_usbfloppy_tracer.Iso.Numbering.{Covers, get_elem?-number, next_sectors-number, number}
use stm32_usbfloppy_tracer.Iso.Layout.{
  Decoded-Recorded, HasGaps, IsSectorOf, block_parts, feed_sector-Writes, next-IsCodable,
  next_parts,
}
use stm32_usbfloppy_tracer.Iso.Feeding.{Writes, gap-Writes, ⊳-Writes}
use stm32_usbfloppy_tracer.Iso.Tracks.{
  Feeding, feed_sector, feed_sectors, generate_iso_gap, generate_iso_track, ◌⊳◌,
}
use stm32_usbfloppy_tracer.Iso.{IsoGeometry, generate_interleaving_table}
use stm32_usbfloppy_tracer.Mfm.Window.{last_of-append}
use stm32_usbfloppy_tracer.Bitstream.{pack, to_bit_stream}
use stm32_usbfloppy_tracer.Bitstream.RoundTrip.{
  length-to_bit_stream, to_bit_streams, to_bit_streams-append,
}
use stm32_usbfloppy_tracer.Mfm
use stm32_usbfloppy_tracer.Mfm.Encode.{cells_of, cells_of-append, last_of}
use stm32_usbfloppy_tracer.Mfm.RoundTrip.{sync_front}
use stm32_usbfloppy_tracer.Mfm.Parts.{Part, coded, mark, mark_cells, parts_cells, run-track}
use stm32_usbfloppy_tracer.Base.{
  All, All-append, All-replicate, Bit, IsU8, List, [], ap, append_assoc, arith, done, false,
  get_elem?, get_or, length, length-append, map, refl, replicate, run, some, suc, true, u8, zero, ℕ,
  ◌*◌, ◌++◌, ◌+◌, ◌-◌, ◌<◌, ◌∙◌, ◌∷◌, ◌≡◌,
}

length-cells_of : (last : Bit) (ds : List Bit) → length (cells_of last ds) ≡ 2 * length ds
unfolding cells_of
length-cells_of last [] = refl
length-cells_of last (d ∷ ds) = omega (arith, length-cells_of d ds)

length-streams : (bs : List ℕ) → length (to_bit_streams bs) ≡ 8 * length bs
length-streams [] = refl
length-streams (b ∷ bs) = omega (
  arith,
  length-append (to_bit_stream b) (to_bit_streams bs),
  length-to_bit_stream b,
  length-streams bs,
)

length-mark_cells : (last : Bit) → length (mark_cells last) ≡ 96
unfolding cells_of sync_front to_bit_stream
length-mark_cells last = refl

-- The parts fill whole bytes.
pub length-parts_cells :
    (last : Bit) (ps : List Part) → (k : ℕ) × (length (parts_cells last ps) ≡ 8 * k)
length-parts_cells last [] = (0, refl)
length-parts_cells last (coded bs ∷ ps) =
    let later = parts_cells (last_of last (to_bit_streams bs)) ps in
    let (k, e) = length-parts_cells (last_of last (to_bit_streams bs)) ps in
    (
      2 * length bs + k,
      omega (
        arith,
        length-append (cells_of last (to_bit_streams bs)) later,
        length-cells_of last (to_bit_streams bs),
        length-streams bs,
        e,
      ),
    )
length-parts_cells last (mark ∷ ps) =
    let (k, e) = length-parts_cells true ps in
    (
      12 + k,
      omega
          (arith, length-append (mark_cells last) (parts_cells true ps), length-mark_cells last, e),
    )

-- Bytes behind bytes are bytes.
parts_cells-coded :
    (last : Bit) (xs ys : List ℕ) (ps : List Part)
    → parts_cells last (coded xs ∷ coded ys ∷ ps) ≡ parts_cells last (coded (xs ++ ys) ∷ ps)
parts_cells-coded last xs ys ps =
    let front = to_bit_streams xs in
    let back = to_bit_streams ys in
    rw (to_bit_streams-append xs ys)
      (rw (cells_of-append last front back, last_of-append last front back) (simp append_assoc))

-- The sectors of a track of the image, by their numbers.
abbrev pub sector_table : List (List ℕ) → ℕ → List ℕ
sector_table sectors s = get_or sectors (s - 1) []

-- A sector of 512 bytes.
abbrev pub IsSector : List ℕ → Type 0
IsSector ds = (length ds ≡ 512) × All IsU8 ds

abbrev pub numbered : List (List ℕ) → ℕ → ℕ × List ℕ
numbered sectors i = (i + 1, get_or sectors i [])

pub get_or-IsSector :
    (i : ℕ) (sectors : List (List ℕ))
    → i < length sectors
    → All IsSector sectors
    → IsSector (get_or sectors i [])
get_or-IsSector i [] h hs = absurd (omega arith)
get_or-IsSector zero (ds ∷ sectors) h (hd, hs) = hd
get_or-IsSector (suc i) (ds ∷ sectors) h (hd, hs) = get_or-IsSector i sectors (omega arith) hs

module _ (crc : List ℕ → ℕ) (c hd : ℕ) (g : IsoGeometry) (gaps : HasGaps g)
    (sectors : List (List ℕ)) (hc : IsU8 c) (hh : IsU8 hd) (small : length sectors < 256) where
  picked-IsSectorOf :
      (is : List ℕ)
      → All IsSector sectors
      → All (λ i. i < length sectors) is
      → All (IsSectorOf crc c hd g gaps (sector_table sectors)) (map (numbered sectors) is)
  picked-IsSectorOf [] h hs = tt
  picked-IsSectorOf (i ∷ is) h (hi, hs) =
      let (l, b) = get_or-IsSector i sectors hi h in
      let same : i + 1 - 1 ≡ i = omega arith in
      ((ap (λ j. get_or sectors j []) same, l, b, omega arith), picked-IsSectorOf is h hs)

  -- The encoder is fed the parts of the sectors that the table names.
  feed_sectors-Writes :
      (is : List ℕ)
      → All (λ i. i < length sectors) is
      → (f : Feeding) × (feed_sectors crc c hd g (number 0 sectors) is ≡ done f)
        × Writes f (next_parts crc c hd g gaps (map (numbered sectors) is))
  unfolding feed_sectors
  feed_sectors-Writes [] h = (generate_iso_gap g.gap5_size 0x4e, refl, gap-Writes g.gap5_size 0x4e)
  feed_sectors-Writes (i ∷ is) (hi, h) =
      let (f, e, w) = feed_sectors-Writes is h in
      let sector : get_elem? (number 0 sectors) i ≡ some (i + 1, get_or sectors i []) =
        get_elem?-number 0 i sectors hi (omega arith)
        ∙ ap (λ s. some (s, get_or sectors i [])) (omega arith) in
      let u : (v : ℕ) → IsU8 v → u8 v ≡ v = λ v p. omega arith in
      (
        feed_sector crc c hd g (i + 1, get_or sectors i []) ⊳ f,
        rw sector (rw e refl),
        ⊳-Writes _ _ _ _
            (feed_sector-Writes crc c hd g gaps (i + 1) (get_or sectors i []) (u c hc) (u hd hh)) w,
      )

-- What the decoder makes of the cells of the named sectors is a complete reading.
module _ (crc : List ℕ → ℕ) (c hd : ℕ) (g : IsoGeometry) (gaps : HasGaps g)
    (sectors : List (List ℕ)) (hc : IsU8 c) (hh : IsU8 hd) (hs : All IsSector sectors)
    (small : length sectors < 256) where
  unfoldable pub track_parts : List ℕ → List Part
  track_parts is =
      coded (replicate g.gap1_size 0x4e) ∷ next_parts crc c hd g gaps (map (numbered sectors) is)

  pub track-Recorded :
      (is : List ℕ)
      → 0 < length sectors
      → Covers (length sectors) is
      → Recorded crc
          (sector_table sectors)
          c
          hd
          (map (λ s. s.0) (map (numbered sectors) is))
          (run Mfm.feed new_decoder (parts_cells false (track_parts is))).1
  unfolding track_parts
  track-Recorded [] hn (_, all) = absurd (cc (all 0 hn))
  track-Recorded (i ∷ is) hn (below, all) =
      let table = sector_table sectors in
      let lead : List ℕ = replicate g.gap1_size 0x4e ++ replicate gaps.gap2_left 0 in
      let rest = next_parts crc c hd g gaps (map (numbered sectors) is) in
      let parts = block_parts crc c hd g gaps (numbered sectors i) rest in
      let (first, more) = picked-IsSectorOf crc c hd g gaps sectors hc hh small (i ∷ is) hs below in
      let lead_bytes =
        All-append IsU8 (replicate g.gap1_size 0x4e) (replicate gaps.gap2_left 0)
          (All-replicate IsU8 g.gap1_size 0x4e (omega arith))
          (All-replicate IsU8 gaps.gap2_left 0 (omega arith)) in
      let codable =
        next-IsCodable crc c hd g gaps table (map (numbered sectors) (i ∷ is)) hc hh
          (first, more) in
      let (ws, e, decoded) = run-track lead parts lead_bytes codable.1.1 in
      rw
        (
          parts_cells-coded false (replicate g.gap1_size 0x4e) (replicate gaps.gap2_left 0)
              (mark ∷ parts),
          e,
        )
        (Decoded-Recorded crc c hd g gaps table [] (numbered sectors i) (map (numbered sectors) is)
          ws first more decoded)

  pub generate_iso_track-parts :
      (is : List ℕ) (rest : List (List ℕ))
      → g.sectors_per_track ≡ length sectors
      → generate_interleaving_table (length sectors) g.interleaving ≡ done is
      → All (λ i. i < length sectors) is
      → generate_iso_track crc c hd g (sectors ++ rest)
        ≡ done (pack (parts_cells false (track_parts is)), rest)
  unfolding generate_iso_track new_encoder track_parts
  generate_iso_track-parts is rest total e below =
      let (f, q, w) = feed_sectors-Writes crc c hd g gaps sectors hc hh small is below in
      let whole = ⊳-Writes _ _ _ _ (gap-Writes g.gap1_size 0x4e) w in
      rw total (
        rw (next_sectors-number 0 sectors rest)
          (rw e (rw q (ap (λ r. done (pack r.1, rest)) (whole.written false)))))
