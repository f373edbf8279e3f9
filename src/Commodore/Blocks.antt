-- ===== src/Commodore/Blocks.antt =====
-- tool/src/track_parser/c64.rs: the search on the blocks that image_d64.rs writes.
use stm32_usbfloppy_tracer.Gcr.{GcrDecoderResult, byte, sync}
use stm32_usbfloppy_tracer.Sectors.{CollectedSector, has_index}
use stm32_usbfloppy_tracer.Commodore.Image.{header_bytes, header_checksum, id1, id2, xor_bytes}
use stm32_usbfloppy_tracer.Commodore.Parser.{
  Search, block, data_block, header_block, read_bytes, reduce_xor, resize, search_step, xor_from,
}
use stm32_usbfloppy_tracer.Commodore.Search.{search_all, search_all_step}
use stm32_usbfloppy_tracer.Base.{
  List, Option, [], ap, arith, bit_xor, bit_xor_self, bit_xor_assoc, done, eq→==, get_elem?,
  if◌then◌else◌, length, length-append, lt→ltb, map, refl, some, suc, zero, zero-bit_xor, ℕ, ◌++◌,
  ◌-◌, ◌<◌, ◌∙◌, ◌∷◌, ◌≡◌, ◌≤◌,
}

read_bytes-map :
    (bs : List ℕ) (rs : List GcrDecoderResult)
    → read_bytes (length bs) (map byte bs ++ rs) ≡ (bs, rs)
unfolding read_bytes
read_bytes-map [] rs = refl
read_bytes-map (b ∷ bs) rs = rw (read_bytes-map bs rs) refl

xor_from-append :
    (accu c : ℕ) (bs : List ℕ) → xor_from accu (bs ++ (c ∷ [])) ≡ bit_xor (xor_bytes accu bs) c
unfolding xor_from xor_bytes
xor_from-append accu c [] = refl
xor_from-append accu c (b ∷ bs) = xor_from-append (bit_xor accu b) c bs

-- A block with its checksum behind it passes the test.
reduce_xor-block : (bs : List ℕ) → reduce_xor (bs ++ (xor_bytes 0 bs ∷ [])) ≡ some 0
unfolding reduce_xor xor_bytes
reduce_xor-block [] = unfold xor_from in refl
reduce_xor-block (b ∷ bs) =
    rw (zero-bit_xor b)
      (ap some (xor_from-append b (xor_bytes b bs) bs ∙ bit_xor_self (xor_bytes b bs)))

reduce_xor-header : (sector tracknum : ℕ) → reduce_xor (header_bytes sector tracknum) ≡ some 0
unfolding reduce_xor xor_from
reduce_xor-header s t =
    let u = bit_xor s t in
    let x = header_checksum s t in
    ap some (
      ap (λ v. bit_xor (bit_xor v id2) id1) (bit_xor_assoc x s t)
      ∙ bit_xor_assoc (bit_xor x u) id2 id1
      ∙ bit_xor_assoc x u (bit_xor id2 id1)
      ∙ ap (λ v. bit_xor v (bit_xor u (bit_xor id2 id1))) (bit_xor_assoc u id1 id2)
      ∙ bit_xor_self (bit_xor u (bit_xor id1 id2)))

resize-append : (bs cs : List ℕ) (n : ℕ) → length bs ≡ n → resize n (bs ++ cs) ≡ bs
unfolding resize
resize-append [] cs zero h = refl
resize-append [] cs (suc n) h = absurd (omega arith)
resize-append (b ∷ bs) cs zero h = absurd (omega arith)
resize-append (b ∷ bs) cs (suc n) h = ap (λ l. b ∷ l) (resize-append bs cs n (omega arith))

abbrev pub searching : ℕ → List ℕ → List CollectedSector → Search
searching awaiting header got = record {
  awaiting_data_block = awaiting;
  sector_header = header;
  found = some got;
}

-- Bytes without a sync mark in front only let the time for a data block run out.
pub search-bytes :
    (js : List ℕ) (e : Option ℕ) (a : ℕ) (h : List ℕ) (got : List CollectedSector)
    (rs : List GcrDecoderResult)
    → search_all e (searching a h got) (map byte js ++ rs)
      ≡ search_all e (searching (a - length js) h got) rs
search-bytes [] e a h got rs =
    let n : a ≡ a - 0 = omega arith in ap (λ v. search_all e (searching v h got) rs) n
search-bytes (j ∷ js) e a h got rs =
    search_all_step e (searching a h got) (searching (a - 1) h got) (byte j) (map byte js ++ rs)
      (map byte js ++ rs) (unfold search_step in refl)
    ∙ search-bytes js e (a - 1) h got rs
    ∙ ap (λ v. search_all e (searching v h got) rs) (omega arith)

abbrev pub collected : ℕ → List ℕ → CollectedSector
collected index payload = record { index = index; payload = payload }

-- The time that a header leaves for its data block.
abbrev pub time_for : ℕ → ℕ → List CollectedSector → ℕ
time_for sector a got = if has_index sector got then a - 1 else 20

-- What a header says, whatever stands in its other fields.
abbrev IsHeader : ℕ → ℕ → List ℕ → Type 0
IsHeader s t h =
    (reduce_xor h ≡ some 0) × (length h ≡ 5) × (get_elem? h 1 ≡ some s) × (get_elem? h 2 ≡ some t)

header_block-good :
    (s t a : ℕ) (old h : List ℕ) (got : List CollectedSector)
    → IsHeader s t h
    → header_block (some t) (searching a old got) h
      ≡ done (searching (if has_index s got then a else 20) h got)
unfolding header_block
header_block-good s t a old h got (sum, l, hs, ht) = rw (sum, l, hs, ht) (rw (eq→== t t refl) refl)

data_block-good :
    (s t a : ℕ) (ds : List ℕ) (got : List CollectedSector)
    → length ds ≡ 256
    → data_block (searching a (header_bytes s t) got) (ds ++ (xor_bytes 0 ds ∷ []))
      ≡ done (searching a (header_bytes s t) (got ++ (collected s ds ∷ [])))
unfolding data_block
data_block-good s t a ds got h =
    rw (reduce_xor-block ds) (rw (resize-append ds (xor_bytes 0 ds ∷ []) 256 h) refl)

search-good_header :
    (s t a : ℕ) (old h : List ℕ) (got : List CollectedSector) (rs : List GcrDecoderResult)
    → IsHeader s t h
    → search_all (some t) (searching a old got) (sync ∷ byte 0x08 ∷ map byte h ++ rs)
      ≡ search_all (some t) (searching (time_for s a got) h got) rs
search-good_header s t a old h got rs good =
    let q : read_bytes 5 (map byte h ++ rs) ≡ (h, rs) = rw good.1 at (read_bytes-map h rs) in
    search_all_step (some t) (searching a old got) (searching (time_for s a got) h got) sync
      (byte 0x08 ∷ map byte h ++ rs) rs
      (unfold search_step block in rw q (rw (header_block-good s t (a - 1) old h got good)))

-- The header of a sector that is still missing allows its data block.
pub search-header :
    (s t a v : ℕ) (old : List ℕ) (got : List CollectedSector) (rs : List GcrDecoderResult)
    → time_for s a got ≡ v
    → search_all
        (some t)
        (searching a old got)
        (sync ∷ byte 0x08 ∷ map byte (header_bytes s t) ++ rs)
      ≡ search_all (some t) (searching v (header_bytes s t) got) rs
search-header s t a v old got rs time =
    search-good_header s t a old (header_bytes s t) got rs (reduce_xor-header s t, refl, refl, refl)
    ∙ ap (λ w. search_all (some t) (searching w (header_bytes s t) got) rs) time

-- A data block in time is collected under its header's index.
pub search-data :
    (s t a : ℕ) (ds : List ℕ) (got : List CollectedSector) (rs : List GcrDecoderResult)
    → length ds ≡ 256
    → 1 < a
    → search_all
        (some t)
        (searching a (header_bytes s t) got)
        (sync ∷ byte 0x07 ∷ map byte (ds ++ (xor_bytes 0 ds ∷ [])) ++ rs)
      ≡ search_all (some t) (searching (a - 1) (header_bytes s t) (got ++ (collected s ds ∷ []))) rs
search-data s t a ds got rs hl ha =
    let whole = ds ++ (xor_bytes 0 ds ∷ []) in
    let e : length whole ≡ 257 = omega (arith, length-append ds (xor_bytes 0 ds ∷ [])) in
    let q : read_bytes 257 (map byte whole ++ rs) ≡ (whole, rs) =
      rw e at (read_bytes-map whole rs) in
    search_all_step (some t) (searching a (header_bytes s t) got)
      (searching (a - 1) (header_bytes s t) (got ++ (collected s ds ∷ []))) sync
      (byte 0x07 ∷ map byte whole ++ rs) rs
      (unfold search_step block in
        rw (lt→ltb 0 (a - 1) (omega arith)) (rw q (rw (data_block-good s t (a - 1) ds got hl))))

-- One that is too late, or not wanted, is passed over.
pub search-late :
    (t a : ℕ) (h ds : List ℕ) (got : List CollectedSector) (rs : List GcrDecoderResult)
    → a ≤ 1
    → search_all (some t) (searching a h got) (sync ∷ byte 0x07 ∷ map byte ds ++ rs)
      ≡ search_all (some t) (searching 0 h got) rs
search-late t a h ds got rs ha =
    let e : a - 1 ≡ 0 = omega arith in
    search_all_step (some t) (searching a h got) (searching 0 h got) sync
      (byte 0x07 ∷ map byte ds ++ rs) (map byte ds ++ rs) (unfold search_step block in rw e refl)
    ∙ search-bytes ds (some t) 0 h got rs
    ∙ ap (λ v. search_all (some t) (searching v h got) rs) (omega arith)
