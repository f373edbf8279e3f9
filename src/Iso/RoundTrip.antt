-- ===== src/Iso/RoundTrip.antt =====
-- image_iso.rs and track_parser/iso.rs: a generated track is read back.
use stm32_usbfloppy_tracer.Iso.Results.{parse_words-Recorded, track_payload, waiting}
use stm32_usbfloppy_tracer.Iso.Parser.{parse_words}
use stm32_usbfloppy_tracer.Sectors.Order.{in_order-list}
use stm32_usbfloppy_tracer.CellData.{Density, DiskType}
use stm32_usbfloppy_tracer.Bitstream.Packing.{to_bit_streams-pack}
use stm32_usbfloppy_tracer.Iso.Readings.{AreOf, IsNumber, IsTotal, Misses}
use stm32_usbfloppy_tracer.Iso.Geometry.{contains}
use stm32_usbfloppy_tracer.Sectors.{CollectedSector}
use stm32_usbfloppy_tracer.Mfm.{new_decoder}
use stm32_usbfloppy_tracer.Iso.Numbering.{Covers, new-HasGaps, new-sectors, table-Covers}
use stm32_usbfloppy_tracer.Iso.Written.{
  IsSector, generate_iso_track-parts, length-parts_cells, numbered, sector_table, track-Recorded,
  track_parts,
}
use stm32_usbfloppy_tracer.Sectors.Sorted.{in_order}
use stm32_usbfloppy_tracer.Iso.Tracks.{crc_bytes, generate_iso_track}
use stm32_usbfloppy_tracer.Iso.{possible_sector_counts}
use stm32_usbfloppy_tracer.Bitstream.{pack}
use stm32_usbfloppy_tracer.Bitstream.RoundTrip.{to_bit_streams}
use stm32_usbfloppy_tracer.Mfm
use stm32_usbfloppy_tracer.Mfm.Parts.{parts_cells}
use stm32_usbfloppy_tracer.Iso
use stm32_usbfloppy_tracer.Base.{
  ==_iff, All, Bool-cases, IsU8, List, Option, [], ap, arith, concat, done, eq→==, false, get_or,
  inl, inr, length, map, ne→==, none, refl, run, some, sym, true, ℕ, ◌++◌, ◌+◌, ◌-◌, ◌<◌, ◌==◌, ◌∙◌,
  ◌∷◌, ◌≡◌, ◌≢◌,
}

contains-numbered :
    (sectors : List (List ℕ)) (i : ℕ) (is : List ℕ)
    → contains i is ≡ true
    → contains (i + 1) (map (λ s. s.0) (map (numbered sectors) is)) ≡ true
contains-numbered sectors i [] h = cc
contains-numbered sectors i (j ∷ is) h = elim (Bool-cases (i == j)) [
  | inl e ↦ rw (eq→== (i + 1) (j + 1) (ap (λ k. k + 1) ((==_iff i j).0 e))) refl
  | inr e ↦
      rw (ne→== (i + 1) (j + 1) (λ q. ground (arith, e)))
        (contains-numbered sectors i is (rw e at h))
]

numbered-IsNumber :
    (sectors : List (List ℕ)) (n : ℕ) (is : List ℕ)
    → All (λ i. i < n) is
    → All (IsNumber n) (map (λ s. s.0) (map (numbered sectors) is))
numbered-IsNumber sectors n [] h = tt
numbered-IsNumber sectors n (i ∷ is) (hi, h) =
    ((omega arith, omega arith), numbered-IsNumber sectors n is h)

Covers-Misses :
    (sectors : List (List ℕ)) (n : ℕ) (is : List ℕ) (got : List CollectedSector)
    → Covers n is
    → Misses n (map (λ s. s.0) (map (numbered sectors) is)) got
Covers-Misses sectors n is got (_, all) i (l, u) =
    let same : i - 1 + 1 ≡ i = omega arith in
    inr (rw same at (contains-numbered sectors (i - 1) is (all (i - 1) (omega arith))))

-- For a cylinder and a head that fit in bytes, each possible number of sectors per track but 10, as
-- many sectors of 512 bytes and any more behind them, and a checksum that is 0 on what ends in its own
-- checksum: generate_iso_track makes a track of these sectors. Its bits, decoded and parsed, give the
-- payload of exactly these sectors in their order, whether the parser had none of them or any from
-- readings that failed, and whether it knew how many to expect or not; it does from then on.
pub parse_words-generate_iso_track :
    (crc : List ℕ → ℕ) (c hd n : ℕ) (sectors rest : List (List ℕ)) (density : Density)
    (disk_type : Option DiskType) (total : Option ℕ) (got : List CollectedSector)
    → ((bs : List ℕ) → crc (bs ++ crc_bytes (crc bs)) ≡ 0)
    → IsU8 c
    → IsU8 hd
    → contains n possible_sector_counts ≡ true
    → n ≢ 10
    → length sectors ≡ n
    → All IsSector sectors
    → IsTotal n total
    → AreOf (sector_table sectors) n got
    → (track : List ℕ) × (disk_type' : DiskType) × (generate_iso_track crc c hd
          (Iso.new n)
          (sectors ++ rest)
        ≡ done (track, rest))
      × (parse_words crc
            (waiting total c hd density disk_type (some got))
            (run Mfm.feed new_decoder (to_bit_streams track)).1
          ≡ some (
            waiting (some n) c hd density (some disk_type') none,
            done (track_payload c hd (concat sectors)),
          ))
parse_words-generate_iso_track crc c hd n sectors rest density disk_type total got own hc hh hn ne l
      hs t a =
    let g = Iso.new n in
    let gaps = new-HasGaps n in
    let (is, e, cov) = table-Covers n hn ne in
    let range : (0 < n) × (n < 256) = ground (arith, hn) in
    let small : length sectors < 256 = omega (arith, l, range.1) in
    let covers : Covers (length sectors) is = rw l cov in
    let cells = parts_cells false (track_parts crc c hd g gaps sectors hc hh hs small is) in
    let (k, whole) =
      length-parts_cells false (track_parts crc c hd g gaps sectors hc hh hs small is) in
    let rec =
      track-Recorded crc c hd g gaps sectors hc hh hs small is (omega (arith, l, range.0)) covers in
    let (disk_type', e') =
      parse_words-Recorded crc n c hd (sector_table sectors)
        (map (λ s. s.0) (map (numbered sectors) is)) density disk_type total got
        (run Mfm.feed new_decoder cells).1 own range.0 t a (numbered-IsNumber sectors n is cov.0)
        (Covers-Misses sectors n is got cov) rec in
    (
      pack cells,
      disk_type',
      generate_iso_track-parts crc c hd g gaps sectors hc hh hs small is rest
          (new-sectors n ∙ sym l) (rw l e) covers.0,
      rw (to_bit_streams-pack k cells whole) (
          e'
          ∙ ap
              (λ bytes. some (
                waiting (some n) c hd density (some disk_type') none,
                done (track_payload c hd bytes),
              ))
              (ap (in_order (sector_table sectors) 1) (sym l)
                ∙ in_order-list sectors (sector_table sectors) 1
                    (λ i. ap (λ j. get_or sectors j []) (omega arith)))),
    )
