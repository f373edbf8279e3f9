-- ===== src/Iso/Layout.antt =====
-- tool/src/image_reader/image_iso.rs: the parts of the sectors of a track, and what the decoder makes of
-- them.
use stm32_usbfloppy_tracer.Iso.Blocks.{data_bytes, header_bytes}
use mathlib.Core.List.{map-append}
use stm32_usbfloppy_tracer.Iso.Readings.{Recorded, recorded, recorded_end}
use stm32_usbfloppy_tracer.Mfm.{MfmWord}
use stm32_usbfloppy_tracer.Mfm.Parts.{
  Decoded, IsCodable, Part, coded, decoded_bytes, decoded_end, decoded_mark, mark, three_zeros,
}
use stm32_usbfloppy_tracer.Iso.{IsoGeometry}
use stm32_usbfloppy_tracer.Iso.Tracks.{
  crc_bytes, feed_sector, generate_iso_data_header, generate_iso_data_with_crc, generate_iso_gap,
  generate_iso_sectorheader, iso_dam, iso_idam, synced,
}
use stm32_usbfloppy_tracer.Iso.Feeding.{
  Writes, feed_bytes-Writes, gap-Writes, mark-Writes, ⊳-Writes,
}
use stm32_usbfloppy_tracer.Base.{
  All, All-replicate, IsU8, List, [], append-nil, append_assoc, arith, length, map, none, refl,
  replicate, subst, u8, ℕ, ◌++◌, ◌+◌, ◌∷◌, ◌≡◌,
}

-- What the layout of the sectors needs of a geometry: room for the sync marks, and as much between a
-- header and its data as the parser waits for.
pub record HasGaps (g : IsoGeometry) : Type 0 where
  pub gap2_left : ℕ
  pub gap2 : g.gap2_size ≡ gap2_left + 3
  pub gap3a : g.gap3a_size ≡ 22
  pub gap3b : g.gap3b_size ≡ 12

module _ (crc : List ℕ → ℕ) (c hd : ℕ) (g : IsoGeometry) (gaps : HasGaps g) where
  -- Behind a header's mark.
  abbrev pub block_parts : ℕ × List ℕ → List Part → List Part
  block_parts (s, ds) rest =
      coded (iso_idam ∷ c ∷ hd ∷ s ∷ 2 ∷ [])
      ∷ coded (crc_bytes (crc (synced (iso_idam ∷ c ∷ hd ∷ s ∷ 2 ∷ []))))
      ∷ coded (replicate 22 0x4e)
      ∷ coded (replicate 9 0)
      ∷ mark
      ∷ coded (iso_dam ∷ [])
      ∷ coded ds
      ∷ coded (crc_bytes (crc (synced (iso_dam ∷ ds))))
      ∷ coded (replicate g.gap4_size 0x4e)
      ∷ rest

  -- Sectors, and the gap at the end of the track.
  abbrev pub next_parts : List (ℕ × List ℕ) → List Part
  next_parts [] = coded (replicate g.gap5_size 0x4e) ∷ []
  next_parts (sector ∷ sectors) =
      coded (replicate gaps.gap2_left 0) ∷ mark ∷ block_parts sector (next_parts sectors)

  header-Writes :
      (s : ℕ)
      → u8 c ≡ c
      → u8 hd ≡ hd
      → Writes (generate_iso_sectorheader crc g.gap2_size (u8 c) (u8 hd) s 2) (
          coded (replicate gaps.gap2_left 0)
          ∷ mark
          ∷ coded (iso_idam ∷ c ∷ hd ∷ s ∷ 2 ∷ [])
          ∷ coded (crc_bytes (crc (synced (iso_idam ∷ c ∷ hd ∷ s ∷ 2 ∷ []))))
          ∷ [])
  unfolding generate_iso_sectorheader
  header-Writes s hc hh =
      let header = iso_idam ∷ c ∷ hd ∷ s ∷ 2 ∷ [] in
      rw (gaps.gap2, hc, hh)
        (mark-Writes gaps.gap2_left _ _ (
          ⊳-Writes _ _ _ _ (feed_bytes-Writes header)
            (feed_bytes-Writes (crc_bytes (crc (synced header))))))

  data_header-Writes :
      Writes
        (generate_iso_data_header g.gap3b_size none)
        (coded (replicate 9 0) ∷ mark ∷ coded (iso_dam ∷ []) ∷ [])
  unfolding generate_iso_data_header
  data_header-Writes = rw gaps.gap3b (mark-Writes 9 _ _ (feed_bytes-Writes (iso_dam ∷ [])))

  data-Writes :
      (ds : List ℕ)
      → Writes
          (generate_iso_data_with_crc crc ds none)
          (coded ds ∷ coded (crc_bytes (crc (synced (iso_dam ∷ ds)))) ∷ [])
  unfolding generate_iso_data_with_crc
  data-Writes ds =
      ⊳-Writes _ _ _ _ (feed_bytes-Writes ds)
        (feed_bytes-Writes (crc_bytes (crc (synced (iso_dam ∷ ds)))))

  pub feed_sector-Writes :
      (s : ℕ) (ds : List ℕ)
      → u8 c ≡ c
      → u8 hd ≡ hd
      → Writes
          (feed_sector crc c hd g (s, ds))
          (coded (replicate gaps.gap2_left 0) ∷ mark ∷ block_parts (s, ds) [])
  unfolding feed_sector
  feed_sector-Writes s ds hc hh =
      let gap3a : Writes (generate_iso_gap g.gap3a_size 0x4e) (coded (replicate 22 0x4e) ∷ []) =
        rw gaps.gap3a (gap-Writes 22 0x4e) in
      ⊳-Writes _ _ _ _ (header-Writes s hc hh) (
        ⊳-Writes _ _ _ _ gap3a (
          ⊳-Writes _ _ _ _ data_header-Writes
            (⊳-Writes _ _ _ _ (data-Writes ds) (gap-Writes g.gap4_size 0x4e))))

  -- A sector of the table, with its data.
  abbrev pub IsSectorOf : (ℕ → List ℕ) → ℕ × List ℕ → Type 0
  IsSectorOf table (s, ds) = (table s ≡ ds) × (length ds ≡ 512) × All IsU8 ds × IsU8 s

  -- The words between a header and its data.
  abbrev middle_bytes : ℕ → ℕ → List ℕ
  middle_bytes a b = replicate 22 0x4e ++ (replicate 9 0 ++ (three_zeros ++ (a ∷ b ∷ [])))

  -- The words of a sector whose parts are decoded.
  Recorded-block :
      (table : ℕ → List ℕ) (lead is : List ℕ) (s a b : ℕ) (ds : List ℕ) (rest : List MfmWord)
      → IsSectorOf table (s, ds)
      → Recorded crc table c hd is rest
      → Recorded crc table c hd (s ∷ is) (
          map MfmWord.enc lead
          ++ (MfmWord.sync_word ∷ MfmWord.enc iso_idam ∷ map MfmWord.enc (header_bytes crc c hd s)
              ++ (map MfmWord.enc (middle_bytes a b)
                  ++ (MfmWord.sync_word ∷ MfmWord.enc iso_dam ∷ map MfmWord.enc ds
                      ++ (map MfmWord.enc (crc_bytes (crc (synced (iso_dam ∷ ds)))) ++ rest)))))
  Recorded-block table lead is s a b ds rest (ht, hl, hb, hs) more =
      let head =
        MfmWord.sync_word ∷ MfmWord.enc iso_idam ∷ map MfmWord.enc (header_bytes crc c hd s) in
      let middle = map MfmWord.enc (middle_bytes a b) in
      let sum = crc_bytes (crc (synced (iso_dam ∷ ds))) in
      let whole : map MfmWord.enc (data_bytes crc (table s)) ++ rest
          ≡ map MfmWord.enc ds ++ (map MfmWord.enc sum ++ rest) =
        rw (ht, map-append MfmWord.enc ds sum) (simp append_assoc) in
      subst
        (λ l. Recorded crc table c hd (s ∷ is) (
          map MfmWord.enc lead
          ++ (head ++ (middle ++ (MfmWord.sync_word ∷ MfmWord.enc iso_dam ∷ l)))))
        whole
        (recorded s is lead (middle_bytes a b) rest (omega arith) (omega arith) (rw ht hl) more)

  -- What the decoder makes of sectors, from behind the first mark on.
  pub Decoded-Recorded :
      (table : ℕ → List ℕ) (lead : List ℕ) (sector : ℕ × List ℕ) (sectors : List (ℕ × List ℕ))
      (ws : List MfmWord)
      → IsSectorOf table sector
      → All (IsSectorOf table) sectors
      → Decoded (block_parts sector (next_parts sectors)) ws
      → Recorded crc table c hd
          (map (λ s. s.0) (sector ∷ sectors))
          (map MfmWord.enc lead ++ (MfmWord.sync_word ∷ ws))
  Decoded-Recorded table lead (s, ds) [] _ (ht, hl, hb, hs) h
        (decoded_bytes _ _ _ (
          decoded_bytes _ _ _ (
            decoded_bytes _ _ _ (
              decoded_bytes _ _ _ (
                decoded_mark a b _ _ (
                  decoded_bytes _ _ _ (
                    decoded_bytes _ _ _ (
                      decoded_bytes _ _ _
                        (decoded_bytes _ _ _ (decoded_bytes _ _ _ decoded_end)))))))))) =
      let behind = replicate g.gap4_size 0x4e ++ replicate g.gap5_size 0x4e in
      let e : map MfmWord.enc behind
          ≡ map MfmWord.enc (replicate g.gap4_size 0x4e)
            ++ (map MfmWord.enc (replicate g.gap5_size 0x4e) ++ []) =
        rw (append-nil, map-append) refl in
      Recorded-block table lead [] s a b ds _ (ht, hl, hb, hs)
        (subst (Recorded crc table c hd []) e (recorded_end behind))
  Decoded-Recorded table lead (s, ds) (next ∷ sectors) _ (ht, hl, hb, hs) (hn, h)
        (decoded_bytes _ _ _ (
          decoded_bytes _ _ _ (
            decoded_bytes _ _ _ (
              decoded_bytes _ _ _ (
                decoded_mark a b _ _ (
                  decoded_bytes _ _ _ (
                    decoded_bytes _ _ _ (
                      decoded_bytes _ _ _ (
                        decoded_bytes _ _ _
                          (decoded_bytes _ _ _ (decoded_mark a' b' _ ws more))))))))))) =
      let zeros = replicate gaps.gap2_left 0 in
      let gap4 = replicate g.gap4_size 0x4e in
      let mark_words = three_zeros ++ (a' ∷ b' ∷ []) in
      let e : map MfmWord.enc (gap4 ++ (zeros ++ mark_words)) ++ (MfmWord.sync_word ∷ ws)
          ≡ map MfmWord.enc gap4
            ++ (map MfmWord.enc zeros ++ (map MfmWord.enc mark_words ++ (MfmWord.sync_word ∷ ws))) =
        simp (map-append, append_assoc) in
      Recorded-block table lead (next.0 ∷ map (λ s. s.0) sectors) s a b ds _ (ht, hl, hb, hs)
        (subst (Recorded crc table c hd (next.0 ∷ map (λ s. s.0) sectors)) e
          (Decoded-Recorded table (gap4 ++ (zeros ++ mark_words)) next sectors ws hn h more))

  block-IsCodable :
      (s : ℕ) (ds : List ℕ) (rest : List Part)
      → IsU8 c
      → IsU8 hd
      → IsU8 s
      → All IsU8 ds
      → All IsCodable rest
      → All IsCodable (block_parts (s, ds) rest)
  block-IsCodable s ds rest hc hh hs hb h =
      let sum : (v : ℕ) → All IsU8 (crc_bytes v) = λ v. (omega arith, (omega arith, tt)) in
      (
        (omega arith, (hc, (hh, (hs, (omega arith, tt))))),
        (
          sum (crc (synced (iso_idam ∷ c ∷ hd ∷ s ∷ 2 ∷ []))),
          (
            All-replicate IsU8 22 0x4e (omega arith),
            (
              All-replicate IsU8 9 0 (omega arith),
              (
                tt,
                (
                  (omega arith, tt),
                  (
                    hb,
                    (
                      sum (crc (synced (iso_dam ∷ ds))),
                      (All-replicate IsU8 g.gap4_size 0x4e (omega arith), h),
                    ),
                  ),
                ),
              ),
            ),
          ),
        ),
      )

  pub next-IsCodable :
      (table : ℕ → List ℕ) (sectors : List (ℕ × List ℕ))
      → IsU8 c
      → IsU8 hd
      → All (IsSectorOf table) sectors
      → All IsCodable (next_parts sectors)
  next-IsCodable table [] hc hh h = (All-replicate IsU8 g.gap5_size 0x4e (omega arith), tt)
  next-IsCodable table ((s, ds) ∷ sectors) hc hh ((ht, hl, hb, hs), h) = (
    All-replicate IsU8 gaps.gap2_left 0 (omega arith),
    (
      tt,
      block-IsCodable s ds (next_parts sectors) hc hh hs hb (next-IsCodable table sectors hc hh h),
    ),
  )
