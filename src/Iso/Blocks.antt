-- ===== src/Iso/Blocks.antt =====
-- tool/src/track_parser/iso.rs: the search on the blocks that image_iso.rs writes.
use stm32_usbfloppy_tracer.Mfm.{MfmWord}
use stm32_usbfloppy_tracer.Sectors.{CollectedSector, has_index}
use stm32_usbfloppy_tracer.Iso.Tracks.{crc_bytes, iso_dam, iso_idam, synced}
use stm32_usbfloppy_tracer.Iso.Parser.{
  Expected, Search, after_sector, block, data_block, good_data, good_header, header_block,
  read_data, resize, search_on, search_step, sector_size_of,
}
use stm32_usbfloppy_tracer.Iso.Search.{search_all, search_all_step}
use stm32_usbfloppy_tracer.Base.{
  List, Option, [], ap, arith, eq→==, false, length, length-append, lt→ltb, map, refl, some, suc,
  true, zero, ℕ, ◌++◌, ◌+◌, ◌-◌, ◌<◌, ◌∙◌, ◌∷◌, ◌≡◌, ◌≤◌,
}

read_data-map :
    (bs : List ℕ) (ws : List MfmWord) → read_data (length bs) (map MfmWord.enc bs ++ ws) ≡ (bs, ws)
unfolding read_data
read_data-map [] ws = refl
read_data-map (b ∷ bs) ws = rw (read_data-map bs ws) refl

resize-append : (bs cs : List ℕ) (n : ℕ) → length bs ≡ n → resize n (bs ++ cs) ≡ bs
unfolding resize
resize-append [] cs zero h = refl
resize-append [] cs (suc n) h = absurd (omega arith)
resize-append (b ∷ bs) cs zero h = absurd (omega arith)
resize-append (b ∷ bs) cs (suc n) h = ap (λ l. b ∷ l) (resize-append bs cs n (omega arith))

abbrev pub searching : ℕ → ℕ → List ℕ → List CollectedSector → Search
searching awaiting duplicates header got = record {
  awaiting_dam = awaiting;
  sector_header = header;
  duplicates = duplicates;
  found = some got;
}

abbrev pub collected : ℕ → List ℕ → CollectedSector
collected index payload = record { index = index; payload = payload }

abbrev pub expecting : Option ℕ → ℕ → ℕ → Expected
expecting total cylinder head = record {
  sectors_per_track = total;
  cylinder = some cylinder;
  head = some head;
}

module _ (crc : List ℕ → ℕ) where
  -- The six bytes of a header, and the data with their checksum.
  abbrev pub header_bytes : ℕ → ℕ → ℕ → List ℕ
  header_bytes c hd s = c ∷ hd ∷ s ∷ 2 ∷ crc_bytes (crc (synced (iso_idam ∷ c ∷ hd ∷ s ∷ 2 ∷ [])))

  abbrev pub data_bytes : List ℕ → List ℕ
  data_bytes ds = ds ++ crc_bytes (crc (synced (iso_dam ∷ ds)))

  -- Bytes without a sync mark in front only let the time for a data block run out.
  pub search-bytes :
      (x : Expected) (js : List ℕ) (a d : ℕ) (h : List ℕ) (got : List CollectedSector)
      (ws : List MfmWord)
      → search_all crc x (searching a d h got) (map MfmWord.enc js ++ ws)
        ≡ search_all crc x (searching (a - length js) d h got) ws
  search-bytes x [] a d h got ws =
      let n : a ≡ a - 0 = omega arith in ap (λ v. search_all crc x (searching v d h got) ws) n
  search-bytes x (j ∷ js) a d h got ws =
      search_all_step crc x (searching a d h got) (searching (a - 1) d h got) (MfmWord.enc j)
        (map MfmWord.enc js ++ ws) (map MfmWord.enc js ++ ws) (unfold search_step in refl)
      ∙ search-bytes x js (a - 1) d h got ws
      ∙ ap (λ v. search_all crc x (searching v d h got) ws) (omega arith)

module _ (crc : List ℕ → ℕ) (crc_own : (bs : List ℕ) → crc (bs ++ crc_bytes (crc bs)) ≡ 0)
    (total : Option ℕ) (c hd : ℕ) where
  header_block-step :
      (s a a' d d' : ℕ) (old : List ℕ) (got : List CollectedSector) (ws : List MfmWord)
      → good_header
          (expecting total c hd)
          (searching a d (header_bytes crc c hd s) got)
          s
          (header_bytes crc c hd s)
          ws
        ≡ search_on (searching a' d' (header_bytes crc c hd s) got) ws
      → header_block crc (expecting total c hd) (searching a d old got) (header_bytes crc c hd s) ws
        ≡ search_on (searching a' d' (header_bytes crc c hd s) got) ws
  unfolding header_block
  header_block-step s a a' d d' old got ws good =
      rw (crc_own (synced (iso_idam ∷ c ∷ hd ∷ s ∷ 2 ∷ []))) good

  good_header-new :
      (s a d : ℕ) (got : List CollectedSector) (ws : List MfmWord)
      → has_index s got ≡ false
      → good_header
          (expecting total c hd)
          (searching a d (header_bytes crc c hd s) got)
          s
          (header_bytes crc c hd s)
          ws
        ≡ search_on (searching 40 d (header_bytes crc c hd s) got) ws
  unfolding good_header
  good_header-new s a d got ws h = rw h (rw (eq→== hd hd refl) (rw (eq→== c c refl) refl))

  good_header-known :
      (s a d : ℕ) (got : List CollectedSector) (ws : List MfmWord)
      → has_index s got ≡ true
      → good_header
          (expecting total c hd)
          (searching a d (header_bytes crc c hd s) got)
          s
          (header_bytes crc c hd s)
          ws
        ≡ search_on (searching a (d + 1) (header_bytes crc c hd s) got) ws
  unfolding good_header
  good_header-known s a d got ws h = rw h (rw (eq→== hd hd refl) refl)

  search-header :
      (s a a' d d' : ℕ) (old : List ℕ) (got : List CollectedSector) (ws : List MfmWord)
      → good_header
          (expecting total c hd)
          (searching (a - 1) d (header_bytes crc c hd s) got)
          s
          (header_bytes crc c hd s)
          ws
        ≡ search_on (searching a' d' (header_bytes crc c hd s) got) ws
      → search_all crc (expecting total c hd) (searching a d old got) (
          MfmWord.sync_word ∷ MfmWord.enc iso_idam ∷ map MfmWord.enc (header_bytes crc c hd s)
          ++ ws)
        ≡ search_all crc (expecting total c hd) (searching a' d' (header_bytes crc c hd s) got) ws
  search-header s a a' d d' old got ws good =
      let h6 = header_bytes crc c hd s in
      search_all_step crc (expecting total c hd) (searching a d old got) (searching a' d' h6 got)
        MfmWord.sync_word (MfmWord.enc iso_idam ∷ map MfmWord.enc h6 ++ ws) ws
        (unfold search_step block in (header_block-step s (a - 1) a' d d' old got ws good))

  -- A data block in time is collected under its header's index.
  pub data-step :
      (s a d : ℕ) (ds : List ℕ) (got : List CollectedSector) (ws : List MfmWord)
      → length ds ≡ 512
      → 1 < a
      → search_step crc
          (expecting total c hd)
          (searching a d (header_bytes crc c hd s) got)
          MfmWord.sync_word
          (MfmWord.enc iso_dam ∷ map MfmWord.enc (data_bytes crc ds) ++ ws)
        ≡ after_sector total
            (length got + 1)
            (searching (a - 1) d (header_bytes crc c hd s) (got ++ (collected s ds ∷ [])))
            ws
  unfolding search_step block data_block good_data sector_size_of
  data-step s a d ds got ws hl ha =
      let whole = data_bytes crc ds in
      let sum = crc_bytes (crc (synced (iso_dam ∷ ds))) in
      let n : length whole ≡ 514 = omega (arith, length-append ds sum) in
      let q : read_data 514 (map MfmWord.enc whole ++ ws) ≡ (whole, ws) =
        rw n at (read_data-map whole ws) in
      rw (lt→ltb 0 (a - 1) (omega arith)) (
        rw q (
          rw (crc_own (synced (iso_dam ∷ ds)))
            (rw (resize-append ds sum 512 hl, length-append got (collected s ds ∷ [])) refl)))

  -- A header of a sector that is still missing allows its data block, one of a sector that was
  -- found is counted.
  pub search-new_header :
      (s a d : ℕ) (old : List ℕ) (got : List CollectedSector) (ws : List MfmWord)
      → has_index s got ≡ false
      → search_all crc (expecting total c hd) (searching a d old got) (
          MfmWord.sync_word ∷ MfmWord.enc iso_idam ∷ map MfmWord.enc (header_bytes crc c hd s)
          ++ ws)
        ≡ search_all crc (expecting total c hd) (searching 40 d (header_bytes crc c hd s) got) ws
  search-new_header s a d old got ws h =
      search-header s a 40 d d old got ws (good_header-new s (a - 1) d got ws h)

  pub search-known_header :
      (s a d : ℕ) (old : List ℕ) (got : List CollectedSector) (ws : List MfmWord)
      → has_index s got ≡ true
      → search_all crc (expecting total c hd) (searching a d old got) (
          MfmWord.sync_word ∷ MfmWord.enc iso_idam ∷ map MfmWord.enc (header_bytes crc c hd s)
          ++ ws)
        ≡ search_all crc
            (expecting total c hd)
            (searching (a - 1) (d + 1) (header_bytes crc c hd s) got)
            ws
  search-known_header s a d old got ws h =
      search-header s a (a - 1) d (d + 1) old got ws (good_header-known s (a - 1) d got ws h)

  -- A data block that is too late, or not wanted, is passed over.
  pub search-late :
      (a d : ℕ) (h ds : List ℕ) (got : List CollectedSector) (ws : List MfmWord)
      → a ≤ 1
      → search_all crc
          (expecting total c hd)
          (searching a d h got)
          (MfmWord.sync_word ∷ MfmWord.enc iso_dam ∷ map MfmWord.enc ds ++ ws)
        ≡ search_all crc (expecting total c hd) (searching 0 d h got) ws
  search-late a d h ds got ws ha =
      let e : a - 1 ≡ 0 = omega arith in
      search_all_step crc (expecting total c hd) (searching a d h got) (searching 0 d h got)
        MfmWord.sync_word (MfmWord.enc iso_dam ∷ map MfmWord.enc ds ++ ws)
        (map MfmWord.enc ds ++ ws) (unfold search_step block in rw e refl)
      ∙ search-bytes crc (expecting total c hd) ds 0 d h got ws
      ∙ ap (λ v. search_all crc (expecting total c hd) (searching v d h got) ws) (omega arith)
