-- ===== src/Commodore/Cells.antt =====
-- tool/src/image_reader/image_d64.rs and util/src/gcr.rs: what the decoder makes of a generated sector.
use mathlib.Core.List.{map-append}
use stm32_usbfloppy_tracer.Bitstream.{to_bit_stream}
use stm32_usbfloppy_tracer.Gcr.{
  GcrDecoder, GcrDecoderResult, byte, feed, gcr_word, sync, to_gcr_stream,
}
use stm32_usbfloppy_tracer.Gcr.Cells.{quiet, within}
use stm32_usbfloppy_tracer.Gcr.RoundTrip.{run-sync_streams, to_gcr_streams}
use stm32_usbfloppy_tracer.Gcr.Quiet.{run-quiet, run-within}
use stm32_usbfloppy_tracer.Commodore.Image.{
  feed_gcr, feed_raw, header_bytes, id1, id2, sector_cells, xor_bytes,
}
use stm32_usbfloppy_tracer.Commodore.Track.{Recorded, recorded, recorded_end, sector_results}
use stm32_usbfloppy_tracer.Base.{
  All, All-append, Bit, IsU8, List, [], ap, append-nil, append_assoc, arith, bit_xor, bit_xor-below,
  get_or, length, lt→leb, map, refl, replicate, run, run-append, run-then, some, subst, suc, sym,
  zero, ℕ, ◌++◌, ◌+◌, ◌<◌, ◌∙◌, ◌∷◌, ◌≡◌, ◌≤◌,
}

feed_gcr_lem : (bytes : List ℕ) → feed_gcr bytes ≡ to_gcr_streams bytes
unfolding feed_gcr
feed_gcr_lem [] = refl
feed_gcr_lem (b ∷ bs) = ap (λ l. to_gcr_stream b ++ l) (feed_gcr_lem bs)

abbrev ones : List Bit
ones = feed_raw (replicate 5 0xff)

abbrev gap : ℕ → List Bit
gap n = feed_raw (replicate n 0x55)

-- A gap byte begins with a zero and leaves a single one behind.
quiet-gap_byte : (o : ℕ) (bs : List Bit) → o < 10 → quiet o (to_bit_stream 0x55 ++ bs) ≡ quiet 1 bs
unfolding quiet to_bit_stream
quiet-gap_byte o bs h = rw (lt→leb 10 o h) refl

quiet-gap : (n o : ℕ) → o < 10 → (o' : ℕ) × (quiet o (gap n) ≡ some o') × (o' < 10)
unfolding feed_raw
quiet-gap zero o h = (o, unfold quiet in refl, h)
quiet-gap (suc n) o h =
    let (o', e, h') = quiet-gap n 1 (omega arith) in (o', quiet-gap_byte o (gap n) h ∙ e, h')

-- 40 ones in a row.
quiet-ones : (o : ℕ) → o < 10 → quiet o ones ≡ some (o + 40)
unfolding quiet feed_raw to_bit_stream
quiet-ones o h = ap some (omega arith)

quiet-gap-ones : (o : ℕ) → o < 10 → quiet o (gap 5 ++ ones) ≡ some 41
unfolding quiet feed_raw to_bit_stream
quiet-gap-ones o h = rw (lt→leb 10 o h) refl

length-gap-ones : length (gap 5 ++ ones) ≡ 80
unfolding feed_raw to_bit_stream
length-gap-ones = refl

xor_bytes-IsU8 : (c : ℕ) (bs : List ℕ) → IsU8 c → All IsU8 bs → IsU8 (xor_bytes c bs)
unfolding xor_bytes
xor_bytes-IsU8 c [] h hs = h
xor_bytes-IsU8 c (b ∷ bs) h (hb, hs) = xor_bytes-IsU8 (bit_xor c b) bs (bit_xor-below 8 c b h hb) hs

header_bytes-IsU8 :
    (s t : ℕ) → IsU8 s → IsU8 t → All IsU8 (0x08 ∷ header_bytes s t ++ (0x0f ∷ 0x0f ∷ []))
header_bytes-IsU8 s t hs ht =
    let c =
      bit_xor-below 8 (bit_xor (bit_xor s t) id1) id2
        (bit_xor-below 8 (bit_xor s t) id1 (bit_xor-below 8 s t hs ht) (omega arith))
        (omega arith) in
    (omega arith, (c, (hs, (ht, (omega arith, (omega arith, (omega arith, (omega arith, tt))))))))

block_bytes-IsU8 :
    (bs : List ℕ) → All IsU8 bs → All IsU8 (0x07 ∷ bs ++ (xor_bytes 0 bs ∷ 0x00 ∷ 0x00 ∷ []))
block_bytes-IsU8 bs h = (
  omega arith,
  All-append IsU8 bs (xor_bytes 0 bs ∷ 0x00 ∷ 0x00 ∷ []) h
      (xor_bytes-IsU8 0 bs (omega arith) h, (omega arith, (omega arith, tt))),
)

abbrev header_block_bytes : ℕ → ℕ → List ℕ
header_block_bytes s t = header_bytes s t ++ (0x0f ∷ 0x0f ∷ [])

abbrev data_block_bytes : List ℕ → List ℕ
data_block_bytes bs = bs ++ (xor_bytes 0 bs ∷ 0x00 ∷ 0x00 ∷ [])

-- All of a sector behind the ones that begin it.
abbrev block_cells : ℕ → ℕ → ℕ → List ℕ → List Bit
block_cells t g s bs =
    feed_gcr (0x08 ∷ header_block_bytes s t)
    ++ ((gap 5 ++ ones) ++ (feed_gcr (0x07 ∷ data_block_bytes bs) ++ gap g))

-- The items that come out, in the form that the parser's theorem has.
sector_results_parts :
    (t s : ℕ) (bs js ks : List ℕ)
    → (sync ∷ map byte (0x08 ∷ header_block_bytes s t))
        ++ (map byte js ++ ((sync ∷ map byte (0x07 ∷ data_block_bytes bs)) ++ map byte ks))
      ≡ sector_results t s bs (0x0f ∷ 0x0f ∷ js) (0 ∷ 0 ∷ ks) []
unfolding sector_results
sector_results_parts t s bs js ks =
    rw
      (
        map-append byte bs (xor_bytes 0 bs ∷ 0 ∷ 0 ∷ []),
        map-append byte bs (xor_bytes 0 bs ∷ []),
        append-nil,
      )
      (rw append_assoc (rw append_assoc refl))

-- Behind a sync mark's ones come the two blocks, ten bytes apart.
run-blocks :
    (t g s : ℕ) (bs : List ℕ) (d : GcrDecoder)
    → 10 ≤ d.ones_count
    → IsU8 s
    → IsU8 t
    → All IsU8 bs
    → (middle behind : List ℕ) × (length middle ≡ 10)
      × ((run feed d (block_cells t g s bs)).1 ≡ sector_results t s bs middle behind [])
      × ((run feed d (block_cells t g s bs)).0.ones_count < 10)
run-blocks t g s bs d hd hs ht hb =
    let header = header_block_bytes s t in
    let block = data_block_bytes bs in
    let (y, o, ho, e₁) =
      run-sync_streams d 0x08 header hd (unfold gcr_word in omega arith)
        (header_bytes-IsU8 s t hs ht) in
    let (js, y', i', hi, n, e₂) =
      run-within (gap 5 ++ ones) y 0 o 41 (omega arith) (quiet-gap-ones o (omega arith)) in
    let (z, p, hp, e₃) =
      run-sync_streams (within y' i' 41) 0x07 block (omega arith) (unfold gcr_word in omega arith)
        (block_bytes-IsU8 bs hb) in
    let (p', q, hp') = quiet-gap g p (omega arith) in
    let (ks, e₄, left) = run-quiet (gap g) (within z 0 p) p' q in
    let all : run feed d (block_cells t g s bs) ≡ (
      (run feed (within z 0 p) (gap g)).0,
      (sync ∷ map byte (0x08 ∷ header))
          ++ (map byte js
              ++ ((sync ∷ map byte (0x07 ∷ block)) ++ (run feed (within z 0 p) (gap g)).1)),
    ) =
      run-then feed d (within y 0 o) (feed_gcr (0x08 ∷ header))
        ((gap 5 ++ ones) ++ (feed_gcr (0x07 ∷ block) ++ gap g)) (sync ∷ map byte (0x08 ∷ header))
        (ap (λ l. run feed d l) (feed_gcr_lem (0x08 ∷ header)) ∙ e₁)
      ∙ rw
          (run-then feed (within y 0 o) (within y' i' 41) (gap 5 ++ ones)
            (feed_gcr (0x07 ∷ block) ++ gap g) (map byte js) e₂)
          (rw
            (run-then feed (within y' i' 41) (within z 0 p) (feed_gcr (0x07 ∷ block)) (gap g)
              (sync ∷ map byte (0x07 ∷ block))
              (ap (λ l. run feed (within y' i' 41) l) (feed_gcr_lem (0x07 ∷ block)) ∙ e₃))
            refl) in
    (
      0x0f ∷ 0x0f ∷ js,
      0 ∷ 0 ∷ ks,
      omega (arith, n, length-gap-ones),
      ap (λ r. r.1) all ∙ rw e₄ (sector_results_parts t s bs js ks),
      omega (arith, ap (λ r. r.0.ones_count) all, left, hp'),
    )

-- A whole sector, whatever the decoder did before.
pub run-sector :
    (t g s : ℕ) (bs : List ℕ) (d : GcrDecoder)
    → d.ones_count < 10
    → IsU8 s
    → IsU8 t
    → All IsU8 bs
    → (lead middle behind : List ℕ) × (length middle ≡ 10)
      × ((run feed d (sector_cells t g s bs)).1
          ≡ map byte lead ++ sector_results t s bs middle behind [])
      × ((run feed d (sector_cells t g s bs)).0.ones_count < 10)
unfolding sector_cells
run-sector t g s bs d hd hs ht hb =
    let (js, e, o) = run-quiet ones d (d.ones_count + 40) (quiet-ones d.ones_count hd) in
    let (middle, behind, n, e', o') =
      run-blocks t g s bs (run feed d ones).0 (omega (arith, o)) hs ht hb in
    let split = run-append feed d ones (block_cells t g s bs) in
    let same : sector_cells t g s bs ≡ ones ++ block_cells t g s bs =
      ap (λ l. ones ++ (feed_gcr (0x08 ∷ header_block_bytes s t) ++ l))
        (sym (append_assoc (gap 5) ones (feed_gcr (0x07 ∷ data_block_bytes bs) ++ gap g))) in
    let all = ap (λ l. run feed d l) same ∙ split in
    (
      js,
      middle,
      behind,
      n,
      ap (λ r. r.1) all ∙ rw (e, e') refl,
      omega (arith, ap (λ r. r.0.ones_count) all, o'),
    )

-- The cells of sectors from s on.
unfoldable pub track_cells : ℕ → ℕ → ℕ → List (List ℕ) → List Bit
unfolding sector_cells
track_cells t g s [] = []
track_cells t g s (bs ∷ rest) = sector_cells t g s bs ++ track_cells t g (suc s) rest

abbrev pub IsSector : List ℕ → Type 0
IsSector bs = (length bs ≡ 256) × All IsU8 bs

-- What one sector leaves behind belongs to it, with what comes in front of the next.
sector_results-behind :
    (t s : ℕ) (bs middle behind lead : List ℕ) (rest : List GcrDecoderResult)
    → sector_results t s bs middle behind [] ++ (map byte lead ++ rest)
      ≡ sector_results t s bs middle (behind ++ lead) rest
unfolding sector_results
sector_results-behind t s bs middle behind lead rest =
    rw (append-nil, map-append byte behind lead)
      (rw append_assoc (rw append_assoc (rw append_assoc refl)))

-- The items of a sector and of what follows it.
join_results :
    (t s : ℕ) (bs lead middle behind lead' : List ℕ) (rs : List GcrDecoderResult)
    → (map byte lead ++ sector_results t s bs middle behind []) ++ (map byte lead' ++ rs)
      ≡ map byte lead ++ sector_results t s bs middle (behind ++ lead') rs
join_results t s bs lead middle behind lead' rs =
    rw append_assoc
      (ap (λ l. map byte lead ++ l) (sector_results-behind t s bs middle behind lead' rs))

-- The decoder makes of the cells of sectors what the parser's theorem asks for.
pub run-track :
    (table : ℕ → List ℕ) (t g s : ℕ) (sectors : List (List ℕ)) (d : GcrDecoder)
    → d.ones_count < 10
    → s + length sectors < 256
    → IsU8 t
    → All IsSector sectors
    → ((i : ℕ) → get_or sectors i [] ≡ table (s + i))
    → (lead : List ℕ) × (rs : List GcrDecoderResult) × Recorded table t s (length sectors) rs
      × ((run feed d (track_cells t g s sectors)).1 ≡ map byte lead ++ rs)
unfolding track_cells
run-track table t g s [] d hd hs ht h same = ([], [], recorded_end s, unfold run in refl)
run-track table t g s (bs ∷ rest) d hd hs ht ((hl, hb), h) same =
    let first : table s ≡ bs = sym (same 0 ∙ ap table (omega arith)) in
    let (lead, middle, behind, n, e, o) = run-sector t g s bs d hd (omega arith) ht hb in
    let d' = (run feed d (sector_cells t g s bs)).0 in
    let (lead', rs, r, e') =
      run-track table t g (suc s) rest d' o (omega arith) ht h
        (λ i. same (suc i) ∙ ap table (omega arith)) in
    (
      lead,
      sector_results t s bs middle (behind ++ lead') rs,
      subst
          (λ x.
            Recorded table t s (suc (length rest))
              (sector_results t s x middle (behind ++ lead') rs))
          first
          (recorded s (length rest) middle (behind ++ lead') rs (omega arith) (omega arith)
            (ap length first ∙ hl) r),
      ap (λ r. r.1) (run-append feed d (sector_cells t g s bs) (track_cells t g (suc s) rest))
          ∙ rw (e, e') (join_results t s bs lead middle behind lead' rs),
    )
