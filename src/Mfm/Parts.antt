-- ===== src/Mfm/Parts.antt =====
-- util/src/mfm.rs: the decoder on a whole track, in which sync marks stand between coded bytes.
use stm32_usbfloppy_tracer.Mfm.Calm.{run-unsynced, run_within, unsynced}
use stm32_usbfloppy_tracer.Mfm.Decode.{run_whole, synced}
use stm32_usbfloppy_tracer.Bitstream.{to_bit_stream}
use stm32_usbfloppy_tracer.Bitstream.RoundTrip.{to_bit_streams}
use stm32_usbfloppy_tracer.Mfm.{MfmWord, feed, new_decoder}
use stm32_usbfloppy_tracer.Mfm.Encode.{cells_of, last_of}
use stm32_usbfloppy_tracer.Mfm.Window.{
  IsReady, IsReady-bytes, magic, magic-IsReady, no_sync, window-bits_value, zero-IsReady,
}
use stm32_usbfloppy_tracer.Mfm.RoundTrip.{Tracks, feed-magic, front_value, sync_front}
use stm32_usbfloppy_tracer.Base.{
  All, Bit, IsU8, List, [], ap, append_assoc, arith, bits_value, bits_value-shift, false, length,
  map, refl, run, run-cons, run-then, true, ℕ, ◌%◌, ◌*◌, ◌++◌, ◌+◌, ◌^◌, ◌∙◌, ◌∷◌, ◌≡◌,
}

-- Coded bytes, or three coded zeros and three sync words.
pub data Part : Type 0 where
  coded : List ℕ → Part
  mark : Part

abbrev pub three_zeros : List ℕ
three_zeros = 0 ∷ 0 ∷ 0 ∷ []

abbrev pub mark_cells : Bit → List Bit
mark_cells last = cells_of last (to_bit_streams three_zeros) ++ (sync_front ++ (true ∷ []))

abbrev pub part_cells : Bit → Part → List Bit
part_cells last (coded bs) = cells_of last (to_bit_streams bs)
part_cells last mark = mark_cells last

-- The last data bit that a part writes.
abbrev pub part_last : Bit → Part → Bit
part_last last (coded bs) = last_of last (to_bit_streams bs)
part_last last mark = true

abbrev pub parts_last : Bit → List Part → Bit
parts_last last [] = last
parts_last last (p ∷ ps) = parts_last (part_last last p) ps

abbrev pub parts_cells : Bit → List Part → List Bit
parts_cells last [] = []
parts_cells last (p ∷ ps) = part_cells last p ++ parts_cells (part_last last p) ps

-- The words that come out for some parts: the two words before a sync word are the sync words before
-- it, read as bytes.
pub data Decoded : List Part → List MfmWord → Type 0 where
  decoded_end : Decoded [] []
  decoded_bytes :
      (bs : List ℕ) (ps : List Part) (ws : List MfmWord)
      → Decoded ps ws
      → Decoded (coded bs ∷ ps) (map MfmWord.enc bs ++ ws)
  decoded_mark :
      (a b : ℕ) (ps : List Part) (ws : List MfmWord)
      → Decoded ps ws
      → Decoded
          (mark ∷ ps)
          (map MfmWord.enc (three_zeros ++ (a ∷ b ∷ [])) ++ (MfmWord.sync_word ∷ ws))

-- The window behind three zeros holds nothing else.
zeros_window : Bit → ℕ
zeros_window true = 0x2aaa_aaaa_aaaa
zeros_window false = 0xaaaa_aaaa_aaaa

after_zeros :
    (last : Bit) (w : ℕ)
    → bits_value w (cells_of last (to_bit_streams three_zeros)) % 2 ^ 48 ≡ zeros_window last
unfolding zeros_window
after_zeros true w =
    rw (bits_value-shift w (cells_of true (to_bit_streams three_zeros)))
      (unfold bits_value cells_of to_bit_stream in omega arith)
after_zeros false w =
    rw (bits_value-shift w (cells_of false (to_bit_streams three_zeros)))
      (unfold bits_value cells_of to_bit_stream in omega arith)

-- From there on only the last cell of the sync words completes the pattern.
front_calm : (last : Bit) → no_sync (zeros_window last) sync_front ≡ true
unfolding zeros_window no_sync sync_front
front_calm true = refl
front_calm false = refl

two_of :
    (js : List ℕ)
    → length js ≡ 2
    → (a : ℕ) × (b : ℕ) × (map MfmWord.enc js ≡ map MfmWord.enc (a ∷ b ∷ []))
two_of [] h = absurd (omega arith)
two_of (a ∷ []) h = absurd (omega arith)
two_of (a ∷ b ∷ []) h = (a, b, refl)
two_of (a ∷ b ∷ c ∷ js) h = absurd (omega arith)

length-sync_front : length sync_front ≡ 47
unfolding sync_front
length-sync_front = refl

module _ (last : Bit) (w : ℕ) (ready : IsReady last (w % 2 ^ 48)) where
  zeros_calm :
      (no_sync (w % 2 ^ 48) (cells_of last (to_bit_streams three_zeros)) ≡ true)
      × (no_sync (bits_value w (cells_of last (to_bit_streams three_zeros)) % 2 ^ 48) sync_front
          ≡ true)
  zeros_calm = (
    (IsReady-bytes three_zeros last (w % 2 ^ 48) ready
        (omega arith, (omega arith, (omega arith, tt)))).0,
    rw (after_zeros last w) (front_calm last),
  )

  -- A mark in the midst of bytes.
  run-mark :
      (y z : ℕ)
      → (a : ℕ) × (b : ℕ) × (w' : ℕ) × (run feed (synced w y 0 z) (mark_cells last) ≡ (
        synced w' 0 0 0,
        map MfmWord.enc (three_zeros ++ (a ∷ b ∷ [])) ++ (MfmWord.sync_word ∷ []),
      ))
        × (w' % 2 ^ 48 ≡ magic)
  run-mark y z =
      let zeros = cells_of last (to_bit_streams three_zeros) in
      let w₁ = bits_value w zeros in
      let (y₁, z₁, e₁) =
        run_whole three_zeros last w y z (omega arith, (omega arith, (omega arith, tt)))
          zeros_calm.0 in
      let (js, y₂, i₂, z₂, e₂, h₂, n) =
        run_within sync_front w₁ y₁ 0 z₁ (omega arith) zeros_calm.1 in
      let (a, b, two) = two_of js (omega (arith, length-sync_front)) in
      let w₂ = bits_value w₁ sync_front in
      let tracks : Tracks (synced w₂ y₂ i₂ z₂) w₂ = record { active = refl; buffer = refl } in
      let e₃ = feed-magic (synced w₂ y₂ i₂ z₂) w₂ tracks (front_value w₁) in
      (
        a,
        b,
        w₂ * 2 + 1,
        run-then feed (synced w y 0 z) (synced w₁ y₁ 0 z₁) zeros (sync_front ++ (true ∷ [])) _ e₁
            ∙ rw
                (run-then feed (synced w₁ y₁ 0 z₁) (synced w₂ y₂ i₂ z₂) sync_front (true ∷ [])
                  (map MfmWord.enc js) e₂)
                (rw (run-cons feed [] e₃, two) (unfold run in refl)),
        front_value w₁,
      )

  -- The first mark.
  run-first_mark :
      (z : ℕ)
      → (w' : ℕ) × (run feed (unsynced w z) (mark_cells last)
          ≡ (synced w' 0 0 0, MfmWord.sync_word ∷ []))
        × (w' % 2 ^ 48 ≡ magic)
  run-first_mark z =
      let zeros = cells_of last (to_bit_streams three_zeros) in
      let w₁ = bits_value w zeros in
      let (z₁, e₁) = run-unsynced zeros w z zeros_calm.0 in
      let (z₂, e₂) = run-unsynced sync_front w₁ z₁ zeros_calm.1 in
      let w₂ = bits_value w₁ sync_front in
      let tracks : Tracks (unsynced w₂ z₂) w₂ = record { active = refl; buffer = refl } in
      let e₃ = feed-magic (unsynced w₂ z₂) w₂ tracks (front_value w₁) in
      (
        w₂ * 2 + 1,
        run-then feed (unsynced w z) (unsynced w₁ z₁) zeros (sync_front ++ (true ∷ [])) [] e₁
            ∙ rw (run-then feed (unsynced w₁ z₁) (unsynced w₂ z₂) sync_front (true ∷ []) [] e₂)
                (rw (run-cons feed [] e₃) (unfold run in refl)),
        front_value w₁,
      )

abbrev pub IsCodable : Part → Type 0
IsCodable (coded bs) = All IsU8 bs
IsCodable mark = Unit

-- In sync, at a byte's start and behind a ready window, the decoder makes of parts their bytes and
-- their sync words.
pub run-parts :
    (ps : List Part) (last : Bit) (w y z : ℕ)
    → IsReady last (w % 2 ^ 48)
    → All IsCodable ps
    → Decoded ps (run feed (synced w y 0 z) (parts_cells last ps)).1
run-parts [] last w y z ready h = unfold run in decoded_end
run-parts (coded bs ∷ ps) last w y z ready (hb, h) =
    let cells = cells_of last (to_bit_streams bs) in
    let (calm, ready') = IsReady-bytes bs last (w % 2 ^ 48) ready hb in
    let (y', z', e) = run_whole bs last w y z hb calm in
    let next =
      run-parts ps (last_of last (to_bit_streams bs)) (bits_value w cells) y' z'
        (rw (window-bits_value w cells) at ready') h in
    rw (run-then feed (synced w y 0 z) (synced (bits_value w cells) y' 0 z') cells _ _ e)
      (decoded_bytes bs ps _ next)
run-parts (mark ∷ ps) last w y z ready (_, h) =
    let (a, b, w', e, m) = run-mark last w ready y z in
    let next = run-parts ps true w' 0 0 (rw m magic-IsReady) h in
    rw (run-then feed (synced w y 0 z) (synced w' 0 0 0) (mark_cells last) _ _ e, append_assoc)
      (decoded_mark a b ps _ next)

-- A new decoder on the cells of a track that begins with bytes and a mark: the first word that comes out
-- is the sync word of that mark, so that the bytes in front of it are lost. What follows is, for
-- every further part in its order, exactly its bytes, or for a mark the three zeros in front of it,
-- two bytes that are left open, and one sync word.
pub run-track :
    (lead : List ℕ) (ps : List Part)
    → All IsU8 lead
    → All IsCodable ps
    → (ws : List MfmWord) × ((run feed new_decoder (parts_cells false (coded lead ∷ mark ∷ ps))).1
        ≡ MfmWord.sync_word ∷ ws)
      × Decoded ps ws
unfolding new_decoder
run-track lead ps hl h =
    let cells = cells_of false (to_bit_streams lead) in
    let last = last_of false (to_bit_streams lead) in
    let (calm, ready) = IsReady-bytes lead false 0 zero-IsReady hl in
    let (z, e) = run-unsynced cells 0 0 calm in
    let w = bits_value 0 cells in
    let (w', e', m) = run-first_mark last w (rw (window-bits_value 0 cells) at ready) z in
    (
      (run feed (synced w' 0 0 0) (parts_cells true ps)).1,
      ap (λ r. r.1)
            (run-then feed (unsynced 0 0) (unsynced w z) cells
              (mark_cells last ++ parts_cells true ps) [] e)
          ∙ ap (λ r. r.1)
              (run-then feed (unsynced w z) (synced w' 0 0 0) (mark_cells last)
                (parts_cells true ps) (MfmWord.sync_word ∷ []) e'),
      run-parts ps true w' 0 0 (rw m magic-IsReady) h,
    )
