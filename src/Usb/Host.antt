-- ===== src/Usb/Host.antt =====
-- tool/src/usb_commands.rs: what the host writes to the bulk endpoint, and what it makes of the
-- packets that it reads. The transfers are rusb's; a transfer that fails ends the call with an error.
use stm32_usbfloppy_tracer.Base.{
  Bool, List, Outcome, [], bit_or, done, drop, fail, if◌then◌else◌, leb, length, lt_i32, replicate,
  suc, take, u32, zero, ℕ, ◌%◌, ◌&&◌, ◌*◌, ◌++◌, ◌+◌, ◌/◌, ◌==◌, ◌>>=◌, ◌∷◌,
}
use stm32_usbfloppy_tracer.CellData.{Density, DensityMap, DriveSelectState, drive_b, high}
use stm32_usbfloppy_tracer.RawTrack.{RawTrack}

-- `u32::to_le_bytes`.
abbrev pub to_le_bytes : ℕ → List ℕ
to_le_bytes w = w % 256 ∷ w / 256 % 256 ∷ w / 65536 % 256 ∷ w / 16777216 % 256 ∷ []

-- Words into a zeroed buffer of `n` words; `writer.next()` fails where the buffer is full.
unfoldable pub put_words : ℕ → List ℕ → Outcome (List ℕ)
put_words n [] = done (replicate (n * 4) 0)
put_words zero (w ∷ ws) = fail
put_words (suc n) (w ∷ ws) = put_words n ws >>= λ rest. done (to_le_bytes w ++ rest)

-- `slice::chunks`: pieces of `n` bytes, the last one perhaps shorter; `fuel` bounds their number.
unfoldable pub chunks_loop : ℕ → ℕ → List ℕ → List (List ℕ)
chunks_loop zero n xs = []
chunks_loop (suc fuel) n [] = []
chunks_loop (suc fuel) n (x ∷ xs) = take n (x ∷ xs) ∷ chunks_loop fuel n (drop n (x ∷ xs))

unfoldable pub chunks : ℕ → List ℕ → List (List ℕ)
unfolding chunks_loop
chunks n xs = chunks_loop (length xs) n xs

unfoldable pub configure_device : DriveSelectState → Density → ℕ → Outcome (List ℕ)
unfolding put_words
configure_device select_drive density index_sim_frequency =
    let drive : ℕ = elim select_drive [ drive_b ↦ 1 | _ ↦ 0 ] in
    let dens : ℕ = elim density [ high ↦ 2 | _ ↦ 0 ] in
    put_words 3 (0x1234_0002 ∷ bit_or drive dens ∷ index_sim_frequency ∷ [])

-- The request of `read_raw_track`.
unfoldable pub read_request : ℕ → ℕ → Bool → ℕ → Outcome (List ℕ)
unfolding put_words
read_request cylinder head wait_for_index duration_to_record = put_words 16 (
    0x1234_0004
    ∷ bit_or (bit_or cylinder (u32 (head * 256))) (if wait_for_index then 512 else 0)
    ∷ u32 duration_to_record
    ∷ [])

-- The loop of `read_raw_track` over the packets that come: full packets are data, an empty one ends
-- it, any other is an error text. Where no packet comes the read times out.
unfoldable pub read_packets : List (List ℕ) → List ℕ → Outcome (List ℕ)
read_packets [] result = fail
read_packets (p ∷ ps) result =
    let rest = read_packets ps (result ++ p) in
    if length p == 64 then rest else (if length p == 0 then done result else fail)

-- The number of blocks that follow the header.
abbrev pub block_count : ℕ → ℕ
block_count size = size / 64 + (if size % 64 == 0 then 0 else 1)

unfoldable pub density_words : DensityMap → Outcome (List ℕ)
density_words [] = done []
density_words (e ∷ es) =
    let rest = density_words es in
    if lt_i32 e.cell_size 512
    then (rest >>= λ ws. done (bit_or (u32 (u32 e.number_of_cellbytes * 512)) e.cell_size ∷ ws))
    else fail

-- Fields 00000000 PPPPPPPP 000000NH CCCCCCCC.
abbrev pub packed_configuration : RawTrack → ℕ
packed_configuration t =
    bit_or
      (bit_or (bit_or t.cylinder (u32 (t.head * 256)))
        (if t.has_non_flux_reversal_area then 0x200 else 0))
      (u32 (t.write_precompensation * 65536))

abbrev pub write_header : RawTrack → List ℕ
write_header t =
    0x1234_0001
    ∷ u32 (length t.raw_data)
    ∷ u32 (block_count (length t.raw_data))
    ∷ packed_configuration t
    ∷ u32 (length t.densitymap)
    ∷ []

-- `write_raw_track`: the packets that it sends, the header first.
unfoldable pub write_raw_track : RawTrack → Outcome (List (List ℕ))
unfolding put_words density_words chunks
write_raw_track t =
    if leb t.head 1 && (leb t.cylinder 0xff && leb t.write_precompensation 0xff)
    then (density_words t.densitymap >>= λ words.
        put_words 16 (write_header t ++ words) >>= λ command. done (command ∷ chunks 64 t.raw_data))
    else fail
