-- ===== src/Commodore/RoundTrip.antt =====
-- tool/src/image_reader/image_d64.rs and tool/src/track_parser/c64.rs: a generated track, read back.
use stm32_usbfloppy_tracer.Sectors.Order.{in_order-list}
use stm32_usbfloppy_tracer.Bitstream.{pack, to_bit_stream}
use stm32_usbfloppy_tracer.Bitstream.RoundTrip.{
  length-to_bit_stream, to_bit_streams, to_bit_streams-append,
}
use stm32_usbfloppy_tracer.Bitstream.Packing.{to_bit_streams-pack}
use stm32_usbfloppy_tracer.Gcr
use stm32_usbfloppy_tracer.Gcr.{to_gcr_stream}
use stm32_usbfloppy_tracer.Gcr.Cells.{length-to_gcr_stream}
use stm32_usbfloppy_tracer.Sectors.{CollectedSector}
use stm32_usbfloppy_tracer.Sectors.Sorted.{IsDistinct, IsOf, in_order}
use stm32_usbfloppy_tracer.Commodore.{TrackConfiguration, get_track_settings}
use stm32_usbfloppy_tracer.Commodore.Image.{
  feed_gcr, feed_raw, generate_track, header_bytes, sector_cells, sectors_loop, xor_bytes,
}
use stm32_usbfloppy_tracer.Commodore.Parser.{parse_results}
use stm32_usbfloppy_tracer.Commodore.Results.{parse_results-Recorded, track_payload, waiting}
use stm32_usbfloppy_tracer.Commodore.Track.{Recorded}
use stm32_usbfloppy_tracer.Commodore.Cells.{IsSector, run-track, track_cells}
use stm32_usbfloppy_tracer.Base.{
  All, IsU8, List, [], ap, arith, concat, done, eq→==, get_or, length, length-append,
  length-replicate, le→leb, none, refl, replicate, run, some, subst, suc, sym, ℕ, ◌*◌, ◌++◌, ◌+◌,
  ◌<◌, ◌∙◌, ◌∷◌, ◌≡◌,
}

length-feed_raw : (bs : List ℕ) → length (feed_raw bs) ≡ 8 * length bs
unfolding feed_raw
length-feed_raw [] = refl
length-feed_raw (b ∷ bs) = omega (
  arith,
  length-append (to_bit_stream b) (feed_raw bs),
  length-to_bit_stream b,
  length-feed_raw bs,
)

length-feed_gcr : (bs : List ℕ) → length (feed_gcr bs) ≡ 10 * length bs
unfolding feed_gcr
length-feed_gcr [] = refl
length-feed_gcr (b ∷ bs) = omega (
  arith,
  length-append (to_gcr_stream b) (feed_gcr bs),
  length-to_gcr_stream b,
  length-feed_gcr bs,
)

-- A sector fills whole bytes.
length-sector_cells :
    (t g s : ℕ) (bs : List ℕ) → length bs ≡ 256 → length (sector_cells t g s bs) ≡ 8 * (350 + g)
unfolding sector_cells
length-sector_cells t g s bs h =
    let header = 0x08 ∷ header_bytes s t ++ (0x0f ∷ 0x0f ∷ []) in
    let tail = xor_bytes 0 bs ∷ 0x00 ∷ 0x00 ∷ [] in
    let e = feed_raw (replicate g 0x55) in
    let d = feed_gcr (0x07 ∷ bs ++ tail) ++ e in
    let c = feed_raw (replicate 5 0xff) ++ d in
    let b = feed_raw (replicate 5 0x55) ++ c in
    let a = feed_gcr header ++ b in
    omega (
      arith,
      h,
      length-append (feed_raw (replicate 5 0xff)) a,
      length-append (feed_gcr header) b,
      length-append (feed_raw (replicate 5 0x55)) c,
      length-append (feed_raw (replicate 5 0xff)) d,
      length-append (feed_gcr (0x07 ∷ bs ++ tail)) e,
      length-append bs tail,
      length-feed_raw (replicate 5 0xff),
      length-feed_raw (replicate 5 0x55),
      length-feed_raw (replicate g 0x55),
      length-replicate {A = ℕ} g 0x55,
      length-feed_gcr header,
      length-feed_gcr (0x07 ∷ bs ++ tail),
    )

-- The bytes of the sectors from s on hold exactly their cells.
sectors_loop_lem :
    (t g s : ℕ) (sectors rest : List (List ℕ))
    → All IsSector sectors
    → (trackbuf : List ℕ) × (sectors_loop t g s (length sectors) (sectors ++ rest)
        ≡ done (trackbuf, rest))
      × (to_bit_streams trackbuf ≡ track_cells t g s sectors)
unfolding sectors_loop track_cells
sectors_loop_lem t g s [] rest h = ([], refl, refl)
sectors_loop_lem t g s (bs ∷ sectors) rest ((hl, hb), h) =
    let (trackbuf, e, c) = sectors_loop_lem t g (suc s) sectors rest h in
    (
      pack (sector_cells t g s bs) ++ trackbuf,
      rw (eq→== (length bs) 256 hl) (rw e refl),
      to_bit_streams-append (pack (sector_cells t g s bs)) trackbuf
          ∙ ap (λ l. l ++ to_bit_streams trackbuf)
              (to_bit_streams-pack (350 + g) (sector_cells t g s bs)
                (length-sector_cells t g s bs hl))
          ∙ ap (λ l. sector_cells t g s bs ++ l) c,
    )

-- The sectors of a track of the image.
abbrev pub sector_table : List (List ℕ) → ℕ → List ℕ
sector_table sectors i = get_or sectors i []

-- For a track number below 256 that has settings, as many sectors of 256 bytes as it needs, and any
-- more behind them: generate_track makes a track of these sectors. Its bits, decoded and parsed,
-- give the payload of exactly these sectors in their order, whether the parser had none of them or
-- any from readings that failed.
pub parse_results-generate_track :
    (t : ℕ) (config : TrackConfiguration) (sectors rest : List (List ℕ))
    (got : List CollectedSector)
    → IsU8 t
    → get_track_settings t ≡ done config
    → length sectors ≡ config.sectors
    → config.sectors < 256
    → All IsSector sectors
    → All (IsOf (sector_table sectors) config.sectors) got
    → IsDistinct got
    → (trackbuf : List ℕ) × (generate_track t (sectors ++ rest) ≡ done (trackbuf, config, rest))
      × (parse_results
            (waiting config t got)
            config
            (run Gcr.feed Gcr.new (to_bit_streams trackbuf)).1
          ≡ some (
            record (waiting config t got) { collected_sectors = none },
            done (track_payload t (concat sectors)),
          ))
unfolding generate_track
parse_results-generate_track t config sectors rest got ht hc hn hs h hg hd =
    let g = config.gap_size in
    let (trackbuf, e, cells) = sectors_loop_lem t g 0 sectors rest h in
    let (lead, rs, rec, e') =
      run-track (sector_table sectors) t g 0 sectors Gcr.new (unfold Gcr.new in omega arith)
        (omega (arith, hn)) ht h (λ i. ap (sector_table sectors) (omega arith)) in
    let parsed =
      parse_results-Recorded (sector_table sectors) config t got lead rs
        (subst (λ n. Recorded (sector_table sectors) t 0 n rs) hn rec) hg hd in
    (
      trackbuf,
      rw (hc) (
          rw
            (le→leb config.sectors (length (sectors ++ rest))
              (omega (arith, hn, length-append sectors rest)))
            (rw (sym hn) (rw e refl))),
      rw cells (rw e' parsed)
          ∙ ap
              (λ l. some (
                record (waiting config t got) { collected_sectors = none },
                done (track_payload t l),
              ))
              (ap (in_order (sector_table sectors) 0) (sym hn)
                ∙ in_order-list sectors (sector_table sectors) 0
                    (λ i. ap (sector_table sectors) (omega arith))),
    )
