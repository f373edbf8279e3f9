-- ===== src/Mfm/RoundTrip.antt =====
-- util/src/mfm.rs: the decoder on what the encoder writes behind three sync words.
use stm32_usbfloppy_tracer.Mfm.Encode.{cells_of, run-enc}
use stm32_usbfloppy_tracer.Bitstream.RoundTrip.{to_bit_streams}
use stm32_usbfloppy_tracer.Base.{
  All, Bit, IsU8, List, [], ap, append_assoc, arith, bit_value, bits_value, bits_value-shift, map,
  refl, run, run-append, run-cons, true, u64, ℕ, ◌%◌, ◌*◌, ◌++◌, ◌+◌, ◌<◌, ◌^◌, ◌∙◌, ◌∷◌, ◌≡◌,
}
use stm32_usbfloppy_tracer.Mfm.{
  MfmDecoder, MfmEncoder, MfmWord, collect, feed, feed_word, iso_sync_word, raw_loop,
}
use stm32_usbfloppy_tracer.Mfm.Window.{magic, sync-cells_of}
use stm32_usbfloppy_tracer.Mfm.Decode.{run_bytes, synced}

abbrev pub three_syncs : List MfmWord
three_syncs = MfmWord.sync_word ∷ MfmWord.sync_word ∷ MfmWord.sync_word ∷ []

-- The cells of three sync words but for the last, which is set.
unfoldable pub sync_front : List Bit
unfolding raw_loop
sync_front =
    raw_loop 32768 16 iso_sync_word ++ (raw_loop 32768 16 iso_sync_word ++ raw_loop 16384 15 0x2244)

pub run-three_syncs :
    (e : MfmEncoder)
    → run feed_word e three_syncs ≡ (record { last_bit = true }, sync_front ++ (true ∷ []))
unfolding run feed_word sync_front
run-three_syncs e = refl

-- What the sync register was given, whatever else the decoder does.
pub record Tracks (d : MfmDecoder) (w : ℕ) : Type 0 where
  pub active : d.sync_detector_active ≡ true
  pub buffer : d.sync_buffer ≡ u64 w

feed-Tracks :
    (d : MfmDecoder) (w : ℕ) (c : Bit) → Tracks d w → Tracks (feed d c).0 (w * 2 + bit_value c)
unfolding feed collect
feed-Tracks d w c t = ground arith

run-Tracks :
    (cs : List Bit) (d : MfmDecoder) (w : ℕ)
    → Tracks d w
    → Tracks (run feed d cs).0 (bits_value w cs)
unfolding run bits_value
run-Tracks [] d w t = t
run-Tracks (c ∷ cs) d w t = run-Tracks cs (feed d c).0 (w * 2 + bit_value c) (feed-Tracks d w c t)

-- The last cell of the sync words.
pub feed-magic :
    (d : MfmDecoder) (w : ℕ)
    → Tracks d w
    → (w * 2 + 1) % 2 ^ 48 ≡ magic
    → feed d true ≡ (synced (w * 2 + 1) 0 0 0, MfmWord.sync_word ∷ [])
unfolding feed
feed-magic d w t h = ground arith

pub front_value : (w : ℕ) → (bits_value w sync_front * 2 + 1) % 2 ^ 48 ≡ magic
unfolding sync_front
front_value w = rw (bits_value-shift w sync_front) (unfold bits_value in omega arith)

run-front :
    (d : MfmDecoder) (cs : List Bit)
    → Tracks d d.sync_buffer
    → run feed d (sync_front ++ (true ∷ cs)) ≡ (
        let w = bits_value d.sync_buffer sync_front * 2 + 1 in
        (
          (run feed (synced w 0 0 0) cs).0,
          (run feed d sync_front).1 ++ (MfmWord.sync_word ∷ (run feed (synced w 0 0 0) cs).1),
        ))
run-front d cs t =
    let w = bits_value d.sync_buffer sync_front in
    run-append feed d sync_front (true ∷ cs)
    ∙ rw (
        run-cons feed cs (
          feed-magic (run feed d sync_front).0 w (run-Tracks sync_front d d.sync_buffer t)
            (front_value d.sync_buffer)))

-- Three sync words and any bytes, encoded from any encoder state and fed to a decoder in any state
-- that looks for syncs: behind what the first 47 cells bring out come one sync word and exactly the
-- bytes, with no further sync word.
pub decoder-encoder :
    (d : MfmDecoder) (e : MfmEncoder) (bytes : List ℕ)
    → d.sync_detector_active ≡ true
    → d.sync_buffer < 18446744073709551616
    → All IsU8 bytes
    → (run feed d (run feed_word e (three_syncs ++ map MfmWord.enc bytes)).1).1
      ≡ (run feed d sync_front).1 ++ (MfmWord.sync_word ∷ map MfmWord.enc bytes)
decoder-encoder d e bytes ha hb hs =
    let tracks : Tracks d d.sync_buffer = record { active = ha; buffer = omega arith } in
    let cells = cells_of true (to_bit_streams bytes) in
    let w = bits_value d.sync_buffer sync_front * 2 + 1 in
    rw (run-append feed_word e three_syncs (map MfmWord.enc bytes), run-three_syncs e)
      (rw (run-enc (record { last_bit = true }) bytes, append_assoc)
        (ap (λ r. r.1) (run-front d cells tracks)
          ∙ rw (
              run_bytes bytes true w 0 0 hs
                (rw (front_value d.sync_buffer) (sync-cells_of bytes hs)))))
