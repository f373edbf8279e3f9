-- ===== src/Mfm/Decode.antt =====
-- util/src/mfm.rs: the decoder in sync, cell by cell and byte by byte.
use stm32_usbfloppy_tracer.Bitstream.{to_bit_stream}
use stm32_usbfloppy_tracer.Bitstream.RoundTrip.{
  bits_value-over_byte, length-to_bit_stream, to_bit_streams,
}
use stm32_usbfloppy_tracer.Mfm.Encode.{cells_of, cells_of-append, clock, last_of}
use stm32_usbfloppy_tracer.Base.{
  All, Bit, Bool, IsU8, List, [], ap, arith, bit_value, bits_value, bits_value-append, false,
  length, map, not, refl, run, run-cons, run-then, true, u32, u64, u8, ℕ, ◌%◌, ◌*◌, ◌+◌, ◌<◌, ◌==◌,
  ◌^◌, ◌∙◌, ◌∷◌, ◌≡◌,
}
use stm32_usbfloppy_tracer.Mfm.{MfmDecoder, MfmWord, collect, feed}
use stm32_usbfloppy_tracer.Mfm.Window.{
  &&_parts, magic, no_sync, no_sync-parts, slide, window-bits_value,
}

-- In sync: `w` is all that the sync register was given, `y` what the byte register was given,
-- `i` the cells of this byte so far, `z` the count of zeros.
abbrev pub synced : ℕ → ℕ → ℕ → ℕ → MfmDecoder
synced w y i z = record {
  sync_buffer = u64 w;
  byte_buffer = u8 y;
  shift_count = i;
  in_sync = true;
  zero_count = z;
  sync_detector_active = true;
}

abbrev pub zeros_after : ℕ → Bit → ℕ
zeros_after z true = 0
zeros_after z false = u32 (z + 1)

pub shift_in : (w : ℕ) (c : Bit) → u64 (u64 w * 2) + bit_value c ≡ u64 (w * 2 + bit_value c)
shift_in w c = ground arith

pub shift_in_byte : (y : ℕ) (d : Bit) → u8 (u8 y * 2) + bit_value d ≡ u8 (y * 2 + bit_value d)
shift_in_byte y d = ground arith

pub seen : (w : ℕ) (c : Bit) → u64 (w * 2 + bit_value c) % 2 ^ 48 ≡ slide (w % 2 ^ 48) c
seen w c = omega arith

module _ (w y i z : ℕ) (c : Bit) (calm : (slide (w % 2 ^ 48) c == magic) ≡ false) where
  -- A cell that completes no sync pattern goes to the byte.
  pub feed_calm :
      feed (synced w y i z) c ≡ collect (synced (w * 2 + bit_value c) y i (zeros_after z c)) c
  unfolding feed
  feed_calm = ground (arith, calm, shift_in w c, seen w c)

  pub feed_clock :
      i % 2 ≡ 0
      → i < 15
      → feed (synced w y i z) c ≡ (synced (w * 2 + bit_value c) y (i + 1) (zeros_after z c), [])
  unfolding collect
  feed_clock h hi = ground (arith, feed_calm)

  pub feed_data :
      i % 2 ≡ 1
      → i < 15
      → feed (synced w y i z) c
        ≡ (synced (w * 2 + bit_value c) (y * 2 + bit_value c) (i + 1) (zeros_after z c), [])
  unfolding collect
  feed_data h hi = ground (arith, feed_calm, shift_in_byte y c)

  pub feed_last :
      i ≡ 15
      → feed (synced w y i z) c ≡ (
        synced (w * 2 + bit_value c) (y * 2 + bit_value c) 0 (zeros_after z c),
        MfmWord.enc (u8 (y * 2 + bit_value c)) ∷ [],
      )
  unfolding collect
  feed_last h = ground (arith, feed_calm, shift_in_byte y c)

unfoldable pub zeros : ℕ → List Bit → ℕ
zeros z [] = z
zeros z (c ∷ cs) = zeros (zeros_after z c) cs

pub not-true : (b : Bool) → not b ≡ true → b ≡ false
not-true true h = cc
not-true false h = refl

-- The two cells of a bit complete no sync pattern, and what follows does not either.
calm_pair :
    (w : ℕ) (c d : Bit) (cs : List Bit)
    → no_sync (w % 2 ^ 48) (c ∷ d ∷ cs) ≡ true
    → ((slide (w % 2 ^ 48) c == magic) ≡ false)
      × ((slide ((w * 2 + bit_value c) % 2 ^ 48) d == magic) ≡ false)
      × (no_sync (((w * 2 + bit_value c) * 2 + bit_value d) % 2 ^ 48) cs ≡ true)
unfolding no_sync
calm_pair w c d cs h =
    let m = w % 2 ^ 48 in
    let (first, r) = &&_parts (not (slide m c == magic)) _ h in
    let (second, rest) = &&_parts (not (slide (slide m c) d == magic)) _ r in
    let e : slide m c ≡ (w * 2 + bit_value c) % 2 ^ 48 = omega arith in
    let e' : slide (slide m c) d ≡ ((w * 2 + bit_value c) * 2 + bit_value d) % 2 ^ 48 =
      omega arith in
    (not-true _ first, rw e at (not-true _ second), rw e' at rest)

-- The cells of the bits that a byte still lacks.
run_pairs :
    (ds : List Bit) (last d : Bit) (w y i z : ℕ)
    → i % 2 ≡ 0
    → i + 2 * length ds ≡ 14
    → no_sync (w % 2 ^ 48) (cells_of last (d ∷ ds)) ≡ true
    → run feed (synced w y i z) (cells_of last (d ∷ ds)) ≡ (
      synced
          (bits_value w (cells_of last (d ∷ ds)))
          (bits_value y (d ∷ ds))
          0
          (zeros z (cells_of last (d ∷ ds))),
      MfmWord.enc (u8 (bits_value y (d ∷ ds))) ∷ [],
    )
unfolding cells_of bits_value zeros
run_pairs [] last d w y i z hi hl h =
    let (first, second, _) = calm_pair w (clock last d) d [] h in
    run-cons feed (d ∷ []) (feed_clock w y i z (clock last d) first hi (omega arith))
    ∙ rw
        (run-cons feed [] (
          feed_last (w * 2 + bit_value (clock last d)) y (i + 1) (zeros_after z (clock last d)) d
            second (omega arith)))
        (unfold run in refl)
run_pairs (d' ∷ ds) last d w y i z hi hl h =
    let c = clock last d in
    let (first, second, rest) = calm_pair w c d (cells_of d (d' ∷ ds)) h in
    let w' = w * 2 + bit_value c in
    let z' = zeros_after z c in
    run-cons feed (d ∷ cells_of d (d' ∷ ds)) (feed_clock w y i z c first hi (omega arith))
    ∙ rw
        (run-cons feed (cells_of d (d' ∷ ds))
          (feed_data w' y (i + 1) z' d second (omega arith) (omega arith)))
        (run_pairs ds d d' (w' * 2 + bit_value d) (y * 2 + bit_value d) (i + 1 + 1)
          (zeros_after z' d) (omega arith) (omega arith) rest)

-- The sixteen cells of a byte.
run_byte :
    (bs : List Bit) (last : Bit) (w y z b : ℕ)
    → length bs ≡ 8
    → u8 (bits_value y bs) ≡ b
    → no_sync (w % 2 ^ 48) (cells_of last bs) ≡ true
    → run feed (synced w y 0 z) (cells_of last bs) ≡ (
      synced (bits_value w (cells_of last bs)) b 0 (zeros z (cells_of last bs)),
      MfmWord.enc b ∷ [],
    )
run_byte [] last w y z b hl hv h = absurd (omega arith)
run_byte (d ∷ ds) last w y z b hl hv h =
    let e : u8 b ≡ b = omega (arith, hv) in
    run_pairs ds last d w y 0 z refl (omega arith) h ∙ rw (hv, e)

-- In sync and at a byte's start, the cells of any bytes that complete no sync pattern bring out
-- exactly the bytes, and end at a byte's start.
pub run_whole :
    (bytes : List ℕ) (last : Bit) (w y z : ℕ)
    → All IsU8 bytes
    → no_sync (w % 2 ^ 48) (cells_of last (to_bit_streams bytes)) ≡ true
    → (y' : ℕ) × (z' : ℕ) × (run feed (synced w y 0 z) (cells_of last (to_bit_streams bytes)) ≡ (
      synced (bits_value w (cells_of last (to_bit_streams bytes))) y' 0 z',
      map MfmWord.enc bytes,
    ))
run_whole [] last w y z hs h = (y, z, unfold run cells_of bits_value in refl)
run_whole (b ∷ bytes) last w y z (hb, hs) h =
    let now = cells_of last (to_bit_stream b) in
    let last' = last_of last (to_bit_stream b) in
    let later = cells_of last' (to_bit_streams bytes) in
    let e = cells_of-append last (to_bit_stream b) (to_bit_streams bytes) in
    let (calm, calm') = no_sync-parts (w % 2 ^ 48) now _ (rw e at h) in
    let (y', z', e') =
      run_whole bytes last' (bits_value w now) b (zeros z now) hs
        (rw (window-bits_value w now) at calm') in
    (
      y',
      z',
      rw (e, bits_value-append w now later)
          (run-then feed (synced w y 0 z) (synced (bits_value w now) b 0 (zeros z now)) now later
              (MfmWord.enc b ∷ [])
              (run_byte (to_bit_stream b) last w y z b (length-to_bit_stream b)
                (bits_value-over_byte y b hb) calm)
            ∙ rw e' refl),
    )

pub run_bytes :
    (bytes : List ℕ) (last : Bit) (w y z : ℕ)
    → All IsU8 bytes
    → no_sync (w % 2 ^ 48) (cells_of last (to_bit_streams bytes)) ≡ true
    → (run feed (synced w y 0 z) (cells_of last (to_bit_streams bytes))).1 ≡ map MfmWord.enc bytes
run_bytes bytes last w y z hs h =
    let (y', z', e) = run_whole bytes last w y z hs h in ap (λ r. r.1) e
