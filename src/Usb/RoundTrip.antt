-- ===== src/Usb/RoundTrip.antt =====
-- A track from tool/src/usb_commands.rs to firmware/src/vendor_class.rs.
use stm32_usbfloppy_tracer.CellData.{RawCellData, construct}
use stm32_usbfloppy_tracer.Usb.Blocks.{
  complete_write_lem, concat-chunks, length-chunks, polls-cons, polls_blocks,
}
use stm32_usbfloppy_tracer.Base.{
  IsU32, List, [], ap, append-nil, arith, concat, done, length, length-append, length-map,
  length-replicate, le→leb, map, none, refl, replicate, some, suc, sym, u32, u8, ℕ, ◌*◌, ◌++◌, ◌-◌,
  ◌<◌, ◌∙◌, ◌∷◌, ◌≡◌, ◌≤◌,
}
use stm32_usbfloppy_tracer.CellData.Laws.{construct_fits, total_bytes}
use stm32_usbfloppy_tracer.RawTrack.{RawTrack}
use stm32_usbfloppy_tracer.Usb.Host.{
  block_count, chunks, packed_configuration, to_le_bytes, write_raw_track,
}
use stm32_usbfloppy_tracer.Usb.Device.{
  Command, VendorClass, handle_command, poll, polls, take_command, write_track_command,
  write_verify_raw_track,
}
use stm32_usbfloppy_tracer.Usb.Header.{
  Carried, density_words-Carried, entry_word, flag, length-words_bytes, next_word-to_le_bytes,
  packed_fields, push_speeds-words, put_words-fits, words_bytes, write_track_command_lem,
}

-- A track that the protocol can carry: the fields fit, the speed table fits in the command packet,
-- and the map describes exactly the data, of which there is some.
pub record IsSendable (t : RawTrack) : Type 0 where
  pub head : t.head ≤ 1
  pub cylinder : t.cylinder ≤ 0xff
  pub precompensation : t.write_precompensation ≤ 0xff
  pub carried : Carried t.densitymap
  pub table : length t.densitymap ≤ 11
  pub some_data : 0 < length t.raw_data
  pub size : IsU32 (length t.raw_data)
  pub described : total_bytes t.densitymap ≡ length t.raw_data

-- A device between two commands, with its last command taken.
pub record IsIdle (s : VendorClass) : Type 0 where
  pub no_blocks : s.remaining_blocks ≡ 0
  pub no_data : s.receive_buffer ≡ []
  pub no_speeds : s.speeds ≡ []
  pub no_command : s.current_command ≡ none

abbrev header_words : RawTrack → List ℕ
header_words t =
    0x1234_0001
    ∷ length t.raw_data
    ∷ block_count (length t.raw_data)
    ∷ packed_configuration t
    ∷ length t.densitymap
    ∷ map entry_word t.densitymap

abbrev padding : RawTrack → List ℕ
padding t = replicate ((16 - length (header_words t)) * 4) 0

abbrev command_packet : RawTrack → List ℕ
command_packet t = words_bytes (header_words t) ++ padding t

-- A packet that fills the buffer, between two commands.
pub poll_command_packet :
    (s : VendorClass) (p : List ℕ)
    → s.remaining_blocks ≡ 0
    → length p ≡ 64
    → poll s p ≡ handle_command s p
unfolding poll
poll_command_packet s p h len = rw (h, len) (rw append-nil)

handle_write :
    (s : VendorClass) (header : List ℕ)
    → handle_command s (to_le_bytes 0x1234_0001 ++ header) ≡ done (write_track_command s header, [])
unfolding handle_command
handle_write s header = rw (next_word-to_le_bytes 0x1234_0001 header (omega arith))

nonempty : (l : List (List ℕ)) → 0 < length l → (b : List ℕ) × (bs : List (List ℕ)) × (l ≡ b ∷ bs)
nonempty [] h = absurd (omega arith)
nonempty (b ∷ bs) h = (b, bs, refl)

some_blocks : (n : ℕ) → 0 < n → 0 < block_count n
some_blocks n h = ground arith

small_blocks : (n : ℕ) → IsU32 n → u32 (block_count n) ≡ block_count n
small_blocks n h = ground arith

-- The command that the device makes of a track.
abbrev pub sent : RawTrack → RawCellData → Command
sent t raw =
    write_verify_raw_track (record { cylinder = t.cylinder; head = t.head }) raw
      t.write_precompensation

-- What the device stores of the command.
announced : RawTrack → VendorClass → VendorClass
announced t s = record s {
  expected_size = length t.raw_data;
  remaining_blocks = block_count (length t.raw_data);
  cylinder = t.cylinder;
  head = t.head;
  has_non_flux_reversal_area = t.has_non_flux_reversal_area;
  write_precompensation = t.write_precompensation;
  speeds = t.densitymap;
}

-- The command packet, in the order of the device's reads.
table_bytes : RawTrack → List ℕ
table_bytes t = words_bytes (map entry_word t.densitymap) ++ padding t

module _ (t : RawTrack) (h : IsSendable t) where
  write_raw_track_lem : write_raw_track t ≡ done (command_packet t ∷ chunks 64 t.raw_data)
  unfolding write_raw_track
  write_raw_track_lem =
      let words = header_words t in
      let fits : length words ≤ 16 = omega (arith, length-map t.densitymap entry_word, h.table) in
      let size : u32 (length t.raw_data) ≡ length t.raw_data = omega (arith, h.size) in
      let blocks : u32 (block_count (length t.raw_data)) ≡ block_count (length t.raw_data) =
        small_blocks (length t.raw_data) h.size in
      let count : u32 (length t.densitymap) ≡ length t.densitymap = omega (arith, h.table) in
      rw
        (
          le→leb t.head 1 h.head,
          le→leb t.cylinder 0xff h.cylinder,
          le→leb t.write_precompensation 0xff h.precompensation,
        )
        (rw (density_words-Carried t.densitymap h.carried)
          (rw (size, blocks, count) (rw (put_words-fits 16 words fits))))

  length-command_packet : length (command_packet t) ≡ 64
  length-command_packet =
      let words = header_words t in
      omega (
        arith,
        length-append (words_bytes words) (padding t),
        length-words_bytes words,
        length-replicate {A = ℕ} ((16 - length words) * 4) 0,
        length-map t.densitymap entry_word,
        h.table,
      )

  write_track_command-packet :
      (s : VendorClass)
      → IsIdle s
      → write_track_command s (
          words_bytes (
            length t.raw_data
            ∷ block_count (length t.raw_data)
            ∷ packed_configuration t
            ∷ length t.densitymap
            ∷ [])
          ++ table_bytes t)
        ≡ announced t s
  unfolding announced table_bytes
  write_track_command-packet s idle =
      let (cyl, head, flag, wp, word) = packed_fields t h.head h.cylinder h.precompensation in
      let blocks : IsU32 (block_count (length t.raw_data)) =
        omega (arith, small_blocks (length t.raw_data) h.size) in
      write_track_command_lem s (length t.raw_data) (block_count (length t.raw_data))
        (packed_configuration t) (length t.densitymap) (table_bytes t) h.size blocks word
        (omega (arith, h.table))
      ∙ rw (cyl, head, flag, wp)
          (rw (idle.no_speeds, push_speeds-words t.densitymap (padding t) [] h.carried))

  poll-command : (s : VendorClass) → IsIdle s → poll s (command_packet t) ≡ done (announced t s, [])
  unfolding table_bytes
  poll-command s idle =
      poll_command_packet s (command_packet t) idle.no_blocks length-command_packet
      ∙ handle_write s _
      ∙ ap (λ x. done (x, [])) (write_track_command-packet s idle)

  polls_data :
      (s : VendorClass) (raw : RawCellData)
      → IsIdle s
      → construct t.densitymap t.raw_data t.has_non_flux_reversal_area ≡ done raw
      → polls (announced t s) (chunks 64 t.raw_data)
        ≡ done (
          record (announced t s) {
            remaining_blocks = 0;
            receive_buffer = [];
            speeds = [];
            current_command = some (sent t raw);
          },
          [],
        )
  unfolding announced
  polls_data s raw idle c =
      let (b, bs, e) =
        nonempty (chunks 64 t.raw_data)
          (omega (arith, length-chunks t.raw_data, some_blocks (length t.raw_data) h.some_data)) in
      let len : block_count (length t.raw_data) ≡ suc (length bs) =
        sym (length-chunks t.raw_data) ∙ ap length e in
      let all : concat (b ∷ bs) ≡ t.raw_data = ap concat (sym e) ∙ concat-chunks t.raw_data in
      let s' : VendorClass = record (announced t s) {
        receive_buffer = t.raw_data;
        remaining_blocks = 0;
      } in
      let cyl : u8 t.cylinder ≡ t.cylinder = omega (arith, h.cylinder) in
      let head : u8 t.head ≡ t.head = omega (arith, h.head) in
      rw e (
        polls_blocks bs b (announced t s) _ len (
          rw (idle.no_data, all)
            (complete_write_lem s' raw refl c idle.no_command ∙ rw (cyl, head))))

-- The host's packets leave the device with exactly the write command of the track, its data split by
-- the host's density map, with no request to another part, and between two commands again.
abbrev pub Delivers : RawTrack → VendorClass → Type 0
Delivers t s =
    (packets : List (List ℕ)) × (raw : RawCellData) × (s' : VendorClass) × (write_raw_track t
      ≡ done packets)
    × (construct t.densitymap t.raw_data t.has_non_flux_reversal_area ≡ done raw)
    × (polls s packets ≡ done (s', []))
    × ((take_command s').1 ≡ some (sent t raw))
    × IsIdle (take_command s').0

-- For every track that the protocol can carry and a device between two commands: the host's packets
-- leave the device with exactly the write command of that track, its data split by the host's
-- density map, with no request to another part, and between two commands again.
pub polls-write_raw_track :
    (t : RawTrack) (s : VendorClass) → IsSendable t → IsIdle s → Delivers t s
polls-write_raw_track t s h idle =
    let (raw, c) =
      construct_fits t.densitymap t.raw_data t.has_non_flux_reversal_area h.described in
    (
      command_packet t ∷ chunks 64 t.raw_data,
      raw,
      record (announced t s) {
        remaining_blocks = 0;
        receive_buffer = [];
        speeds = [];
        current_command = some (sent t raw);
      },
      write_raw_track_lem t h,
      c,
      polls-cons s (command_packet t) (chunks 64 t.raw_data) (poll-command t h s idle)
          (polls_data t h s raw idle c),
      unfold take_command in refl,
      unfold take_command in
          record { no_blocks = refl; no_data = refl; no_speeds = refl; no_command = refl },
    )
