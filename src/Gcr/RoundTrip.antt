-- ===== src/Gcr/RoundTrip.antt =====
-- util/src/gcr.rs: the decoder on what the encoder writes behind a sync mark.
use stm32_usbfloppy_tracer.Base.{
  All, Bit, IsU8, List, [], ap, arith, bits_value, concat, false, has_bit, length, map, refl,
  replicate, run, run-append, run-cons, some, suc, true, u16, zero, ℕ, ◌*◌, ◌++◌, ◌+◌, ◌<◌, ◌∙◌,
  ◌∷◌, ◌≡◌, ◌≤◌,
}
use stm32_usbfloppy_tracer.Gcr.{
  GcrDecoder, byte, collect, decode_word, detect_sync, feed, gcr_word, sync, to_gcr_stream,
  to_gcr_stream_loop,
}
use stm32_usbfloppy_tracer.Gcr.Cells.{
  calm, decode_word-gcr, decode_word-u64, length-to_gcr_stream, quiet, run-to_gcr_stream,
  run_to_end, within,
}

abbrev pub to_gcr_streams : List ℕ → List Bit
to_gcr_streams bytes = concat (map to_gcr_stream bytes)

pub run-to_gcr_streams :
    (bytes : List ℕ) (y o : ℕ)
    → o < 5
    → All IsU8 bytes
    → (y' : ℕ) × (o' : ℕ) × (o' < 5)
      × (run feed (within y 0 o) (to_gcr_streams bytes) ≡ (within y' 0 o', map byte bytes))
run-to_gcr_streams [] y o ho hs = (y, o, ho, unfold run in refl)
run-to_gcr_streams (b ∷ bytes) y o ho (hb, hs) =
    let (o₁, q, ho₁) = calm b o hb ho in
    let (y', o', ho', e) = run-to_gcr_streams bytes (bits_value y (to_gcr_stream b)) o₁ ho₁ hs in
    (
      y',
      o',
      ho',
      rw (run-append feed (within y 0 o) (to_gcr_stream b) (to_gcr_streams bytes)) (
          rw
            (run-to_gcr_stream (to_gcr_stream b) b y o o₁ (length-to_gcr_stream b)
              (decode_word-gcr b hb) q)
            (rw e refl)),
    )

-- The zero that ends a sync mark is the first cell of the byte behind it.
feed_sync :
    (d : GcrDecoder)
    → 10 ≤ d.ones_count
    → feed d false ≡ (within (d.gcr_word_buffer * 2 + 0) 1 0, sync ∷ [])
unfolding feed
feed_sync d h = ground arith

-- The byte behind a sync mark, whose code begins with a zero.
run-sync_byte :
    (d : GcrDecoder) (bs : List Bit) (b o' : ℕ)
    → 10 ≤ d.ones_count
    → length bs ≡ 9
    → decode_word (bits_value 0 (false ∷ bs)) ≡ b
    → quiet 0 bs ≡ some o'
    → run feed d (false ∷ bs)
      ≡ (within (bits_value d.gcr_word_buffer (false ∷ bs)) 0 o', sync ∷ byte b ∷ [])
run-sync_byte d [] b o' h hl hd hq = absurd (omega arith)
run-sync_byte d (c ∷ cs) b o' h hl hd hq =
    let y = d.gcr_word_buffer in
    run-cons feed (c ∷ cs) (feed_sync d h)
    ∙ rw (run_to_end cs c (y * 2 + 0) 1 0 o' hq (omega arith))
        (unfold bits_value in rw (decode_word-u64 y (false ∷ c ∷ cs) (omega arith)) (rw hd))

feed_one :
    (d : GcrDecoder) → d.ones_count < 4294967295 → (feed d true).0.ones_count ≡ d.ones_count + 1
unfolding feed detect_sync collect
feed_one d h = ground arith

ones_count-run :
    (n : ℕ) (d : GcrDecoder)
    → d.ones_count + n < 4294967296
    → (run feed d (replicate n true)).0.ones_count ≡ d.ones_count + n
unfolding run
ones_count-run zero d h = omega arith
ones_count-run (suc n) d h =
    let e = feed_one d (omega arith) in
    omega (arith, e, ones_count-run n (feed d true).0 (omega (arith, e)))

-- A code below 512 begins with a zero.
no_top_bit : (w : ℕ) → w < 512 → has_bit 512 w ≡ false
no_top_bit w h = ground arith

abbrev tail_cells : ℕ → List Bit
tail_cells b = to_gcr_stream_loop 9 (u16 (gcr_word b * 2))

to_gcr_stream_zero : (b : ℕ) → gcr_word b < 512 → to_gcr_stream b ≡ false ∷ tail_cells b
unfolding to_gcr_stream_loop
to_gcr_stream_zero b h =
    unfold to_gcr_stream in ap (λ x. x ∷ tail_cells b) (no_top_bit (gcr_word b) h)

run-leading :
    (d : GcrDecoder) (b : ℕ)
    → 10 ≤ d.ones_count
    → gcr_word b < 512
    → IsU8 b
    → (y : ℕ) × (o : ℕ) × (o < 5)
      × (run feed d (to_gcr_stream b) ≡ (within y 0 o, sync ∷ byte b ∷ []))
run-leading d b h hg hb =
    let (o, q, ho) = calm b 0 hb (omega arith) in
    let e = to_gcr_stream_zero b hg in
    (
      bits_value d.gcr_word_buffer (false ∷ tail_cells b),
      o,
      ho,
      rw e (
          run-sync_byte d (tail_cells b) b o h (unfold to_gcr_stream_loop in refl)
            (rw e at (decode_word-gcr b hb)) (unfold quiet in rw e at q)),
    )

-- Behind a sync mark of ten ones or more, whatever the decoder did before, come a sync and then
-- exactly the bytes that were coded, where the first byte's code begins with a zero.
pub run-sync_streams :
    (d : GcrDecoder) (b : ℕ) (bytes : List ℕ)
    → 10 ≤ d.ones_count
    → gcr_word b < 512
    → All IsU8 (b ∷ bytes)
    → (y : ℕ) × (o : ℕ) × (o < 5)
      × (run feed d (to_gcr_streams (b ∷ bytes)) ≡ (within y 0 o, sync ∷ map byte (b ∷ bytes)))
run-sync_streams d b bytes h hg (hb, hs) =
    let (y, o, ho, e) = run-leading d b h hg hb in
    let (y', o', ho', e') = run-to_gcr_streams bytes y o ho hs in
    (
      y',
      o',
      ho',
      rw (run-append feed d (to_gcr_stream b) (to_gcr_streams bytes)) (rw e (rw e' refl)),
    )

-- A sync mark of at least ten ones and coded bytes, fed to a decoder in any state whose count of
-- ones stays in its range: behind what the ones alone bring out come a sync and exactly the bytes.
-- The code of the first byte has to begin with a zero, as those of the block marks 7 and 8 do.
pub decoder-sync_streams :
    (d : GcrDecoder) (n b : ℕ) (bytes : List ℕ)
    → 10 ≤ n
    → d.ones_count + n < 4294967296
    → gcr_word b < 512
    → All IsU8 (b ∷ bytes)
    → (run feed d (replicate n true ++ to_gcr_streams (b ∷ bytes))).1
      ≡ (run feed d (replicate n true)).1 ++ (sync ∷ map byte (b ∷ bytes))
decoder-sync_streams d n b bytes hn hd hg hs =
    rw (run-append feed d (replicate n true) (to_gcr_streams (b ∷ bytes))) (
      let (y, o, ho, e) =
        run-sync_streams (run feed d (replicate n true)).0 b bytes
          (omega (arith, ones_count-run n d hd)) hg hs in
      rw e refl)
