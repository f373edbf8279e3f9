-- ===== src/Mfm/Encode.antt =====
-- util/src/mfm.rs: what the encoder writes, described cell by cell.
use stm32_usbfloppy_tracer.Base.{
  Bit, List, [], ap, false, has_bit, map, not, refl, run, run-cons, suc, sym, true, u8, zero, ℕ,
  ◌*◌, ◌++◌, ◌||◌, ◌∙◌, ◌∷◌, ◌≡◌,
}
use stm32_usbfloppy_tracer.Bitstream.{to_bit_stream, to_bit_stream_loop}
use stm32_usbfloppy_tracer.Bitstream.RoundTrip.{to_bit_streams}
use stm32_usbfloppy_tracer.Mfm.{
  MfmEncoder, MfmWord, encode_mfm_bit, feed_encoded8, feed_encoded8_loop, feed_word,
}

-- A clock cell is set between two zeros only; the data cell follows.
abbrev pub clock : Bit → Bit → Bit
clock last d = not (last || d)

unfoldable pub cells_of : Bit → List Bit → List Bit
cells_of last [] = []
cells_of last (d ∷ ds) = clock last d ∷ d ∷ cells_of d ds

-- The last data bit that was written.
unfoldable pub last_of : Bit → List Bit → Bit
last_of last [] = last
last_of last (d ∷ ds) = last_of d ds

pub cells_of-append :
    (last : Bit) (xs ys : List Bit)
    → cells_of last (xs ++ ys) ≡ cells_of last xs ++ cells_of (last_of last xs) ys
unfolding cells_of last_of
cells_of-append last [] ys = refl
cells_of-append last (d ∷ xs) ys = rw (cells_of-append d xs ys)

encode_mfm_bit-cells :
    (last d : Bit)
    → encode_mfm_bit (record { last_bit = last }) d
      ≡ (record { last_bit = d }, clock last d ∷ d ∷ [])
unfolding encode_mfm_bit
encode_mfm_bit-cells true true = refl
encode_mfm_bit-cells true false = refl
encode_mfm_bit-cells false true = refl
encode_mfm_bit-cells false false = refl

feed_encoded8_loop-cells :
    (n : ℕ) (last : Bit) (val : ℕ)
    → feed_encoded8_loop n (record { last_bit = last }) val ≡ (
      record { last_bit = last_of last (to_bit_stream_loop n val) },
      cells_of last (to_bit_stream_loop n val),
    )
unfolding feed_encoded8_loop to_bit_stream_loop cells_of last_of
feed_encoded8_loop-cells zero last val = refl
feed_encoded8_loop-cells (suc n) last val =
    rw (encode_mfm_bit-cells last (has_bit 128 val))
      (rw (feed_encoded8_loop-cells n (has_bit 128 val) (u8 (val * 2))))

-- A byte is encoded as the cells of its bits.
pub feed_encoded8-cells :
    (e : MfmEncoder) (val : ℕ)
    → feed_encoded8 e val ≡ (
      record { last_bit = last_of e.last_bit (to_bit_stream val) },
      cells_of e.last_bit (to_bit_stream val),
    )
unfolding feed_encoded8 to_bit_stream
feed_encoded8-cells e val = feed_encoded8_loop-cells 8 e.last_bit val

feed_word-cells :
    (e : MfmEncoder) (val : ℕ)
    → feed_word e (MfmWord.enc val) ≡ (
      record { last_bit = last_of e.last_bit (to_bit_stream val) },
      cells_of e.last_bit (to_bit_stream val),
    )
unfolding feed_word
feed_word-cells e val = feed_encoded8-cells e val

-- So are several.
pub run-enc :
    (e : MfmEncoder) (bytes : List ℕ)
    → (run feed_word e (map MfmWord.enc bytes)).1 ≡ cells_of e.last_bit (to_bit_streams bytes)
run-enc e [] = unfold run cells_of in refl
run-enc e (b ∷ bytes) =
    ap (λ r. r.1) (run-cons feed_word (map MfmWord.enc bytes) (feed_word-cells e b))
    ∙ rw (run-enc (record { last_bit = last_of e.last_bit (to_bit_stream b) }) bytes)
        (sym (cells_of-append e.last_bit (to_bit_stream b) (to_bit_streams bytes)))
