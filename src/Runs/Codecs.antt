-- ===== src/Runs/Codecs.antt =====
-- The codecs of util/src: bitstream.rs, gcr.rs, mfm.rs, fluxpulse.rs.
use stm32_usbfloppy_tracer.Gcr
use stm32_usbfloppy_tracer.Mfm
use stm32_usbfloppy_tracer.Fluxpulse
use stm32_usbfloppy_tracer.Base.{
  All, Bit, IsU8, List, [], arith, false, length, map, refl, replicate, run, some, take, true, u32,
  ℕ, ◌*◌, ◌++◌, ◌+◌, ◌∷◌, ◌≡◌,
}
use stm32_usbfloppy_tracer.Gcr.{byte, gcr_word, sync}
use stm32_usbfloppy_tracer.Gcr.RoundTrip.{decoder-sync_streams, to_gcr_streams}
use stm32_usbfloppy_tracer.Mfm.{MfmWord, enc, feed_word, new_decoder, new_encoder, sync_word}
use stm32_usbfloppy_tracer.Mfm.Parts.{Decoded, Part, coded, mark, parts_cells, run-track}
use stm32_usbfloppy_tracer.Mfm.RoundTrip.{decoder-encoder, sync_front, three_syncs}
use stm32_usbfloppy_tracer.Fluxpulse.{FluxPulseGenerator, to_cells}
use stm32_usbfloppy_tracer.Fluxpulse.Time.{run_time, total}
use stm32_usbfloppy_tracer.Fluxpulse.Pulses.{pulses, run-pulses, window_of}
use stm32_usbfloppy_tracer.Fluxpulse.RoundTrip.{to_cells-written, written}

abbrev some_bytes : List ℕ
some_bytes = 0xa1 ∷ 0x00 ∷ 0xff ∷ 0x4e ∷ []

some_bytes-IsU8 : All IsU8 some_bytes
some_bytes-IsU8 = (omega arith, (omega arith, (omega arith, (omega arith, tt))))

-- A header block of the Commodore 64: the mark 8 and three bytes.
decoder-sync_streams_example :
    (run Gcr.feed Gcr.new (replicate 12 true ++ to_gcr_streams (0x08 ∷ 0x41 ∷ 0x00 ∷ []))).1
    ≡ (run Gcr.feed Gcr.new (replicate 12 true)).1 ++ (sync ∷ map byte (0x08 ∷ 0x41 ∷ 0x00 ∷ []))
decoder-sync_streams_example =
    decoder-sync_streams Gcr.new 12 0x08 (0x41 ∷ 0x00 ∷ []) (omega arith)
      (unfold Gcr.new in omega arith) (unfold gcr_word in omega arith)
      (omega arith, (omega arith, (omega arith, tt)))

decoder-encoder_example :
    (run Mfm.feed new_decoder
      (run feed_word new_encoder (three_syncs ++ map MfmWord.enc some_bytes)).1).1
    ≡ (run Mfm.feed new_decoder sync_front).1 ++ (MfmWord.sync_word ∷ map MfmWord.enc some_bytes)
decoder-encoder_example =
    decoder-encoder new_decoder new_encoder some_bytes (unfold new_decoder in refl)
      (unfold new_decoder in omega arith) some_bytes-IsU8

abbrev dense : FluxPulseGenerator
dense = Fluxpulse.new 168

abbrev some_cells : List Bit
some_cells = true ∷ false ∷ true ∷ false ∷ false ∷ false ∷ true ∷ []

run_time_example :
    u32 (
      total (run Fluxpulse.feed dense some_cells).1
      + (run Fluxpulse.feed dense some_cells).0.pulse_accumulator)
    ≡ u32 (dense.pulse_accumulator + length some_cells * dense.cell_duration)
run_time_example = run_time dense some_cells (
    unfold Fluxpulse.new in
    record { duration = omega arith; accumulator = omega arith; compensation = omega arith })

run-pulses_example :
    (run Fluxpulse.feed dense some_cells).1
    ≡ pulses dense.pulse_accumulator dense.cell_duration
        (take (length some_cells) (window_of dense.shift_word ++ some_cells))
run-pulses_example = run-pulses some_cells dense (unfold Fluxpulse.new in ground arith)

to_cells-written_example :
    to_cells 168 (written 168 ((true ∷ false ∷ false ∷ []) ++ (true ∷ [])))
    ≡ some ((true ∷ false ∷ false ∷ []) ++ (true ∷ []))
to_cells-written_example =
    to_cells-written 168 (true ∷ false ∷ false ∷ []) (omega arith) (omega arith)

-- A gap, and a mark with two bytes behind it.
abbrev some_parts : List Part
some_parts = coded (0x4e ∷ []) ∷ mark ∷ coded (0xfe ∷ 3 ∷ []) ∷ []

run-track_example :
    (ws : List MfmWord) × ((run Mfm.feed new_decoder (parts_cells false some_parts)).1
      ≡ MfmWord.sync_word ∷ ws)
    × Decoded (coded (0xfe ∷ 3 ∷ []) ∷ []) ws
run-track_example =
    run-track (0x4e ∷ []) (coded (0xfe ∷ 3 ∷ []) ∷ []) (omega arith, tt)
      ((omega arith, (omega arith, tt)), tt)
