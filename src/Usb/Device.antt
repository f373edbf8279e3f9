-- ===== src/Usb/Device.antt =====
-- firmware/src/vendor_class.rs: the device's end. The USB peripheral is usb-device's; a packet that
-- it hands over is a list of at most 64 bytes.
use stm32_usbfloppy_tracer.Base.{
  Bool, List, Option, Outcome, [], done, false, has_bit, if◌then◌else◌, leb, length, ltb, none,
  panic, replicate, some, suc, u8, zero, ℕ, ◌%◌, ◌*◌, ◌++◌, ◌+◌, ◌-◌, ◌/◌, ◌==◌, ◌>>=◌, ◌∷◌,
}
use stm32_usbfloppy_tracer.CellData.{
  Density, DensityMap, DensityMapEntry, DriveSelectState, RawCellData, Track, construct, drive_a,
  drive_b, high, single_double,
}

pub data Command : Type 0 where
  write_verify_raw_track : Track → RawCellData → ℕ → Command
  read_track : Track → ℕ → Bool → Command

-- What a command asks of the other parts: `INDEX_SIM` and `FLOPPY_CONTROL`.
pub data Request : Type 0 where
  configure_index_sim : ℕ → Request
  select_drive : DriveSelectState → Request
  select_density : Density → Request
  select_track : Track → Request

pub record VendorClass : Type 0 where
  pub receive_buffer : List ℕ
  pub speeds : DensityMap
  pub remaining_blocks : ℕ  -- u32
  pub expected_size : ℕ  -- usize
  pub cylinder : ℕ  -- u32
  pub head : ℕ  -- u32
  pub has_non_flux_reversal_area : Bool
  pub write_precompensation : ℕ  -- PulseDuration(i32)
  pub tx_buffer : List (List ℕ)
  pub current_command : Option Command

unfoldable pub new : VendorClass
new = record {
  receive_buffer = [];
  speeds = [];
  remaining_blocks = 0;
  expected_size = 0;
  cylinder = 0;
  head = 0;
  has_non_flux_reversal_area = false;
  write_precompensation = 0;
  tx_buffer = [];
  current_command = none;
}

unfoldable pub take_command : VendorClass → VendorClass × Option Command
take_command s = (record s { current_command = none }, s.current_command)

-- `response` asserts less than 60 bytes, `write` and `write_consume` at most 64.
unfoldable pub response : VendorClass → List ℕ → Outcome VendorClass
response s text =
    if ltb (length text) 60
    then done (record s { tx_buffer = s.tx_buffer ++ (text ∷ []) })
    else panic

unfoldable pub write_consume : VendorClass → List ℕ → Outcome VendorClass
write_consume s bytes =
    if leb (length bytes) 64
    then done (record s { tx_buffer = s.tx_buffer ++ (bytes ∷ []) })
    else panic

-- `handle_transmit`, where `accepted` is whether the endpoint takes the packet.
unfoldable pub handle_transmit : VendorClass → Bool → VendorClass × Option (List ℕ)
handle_transmit s accepted = elim s.tx_buffer [
  | [] ↦ (s, none)
  | front ∷ rest ↦ if accepted then (record s { tx_buffer = rest }, some front) else (s, none)
]

-- `u32::from_le_bytes(header.next()?.try_into().ok()?)`.
unfoldable pub next_word : List ℕ → Option (ℕ × List ℕ)
next_word (a ∷ b ∷ c ∷ d ∷ rest) = some (a + b * 256 + c * 65536 + d * 16777216, rest)
next_word _ = none

-- `?` on a word: without it the handler returns, with what it has changed so far.
abbrev pub with_word {ℓ} : {R : Type ℓ} → Option (ℕ × List ℕ) → R → (ℕ → List ℕ → R) → R
with_word none early k = early
with_word (some (w, rest)) early k = k w rest

abbrev pub density_entry : ℕ → DensityMapEntry
density_entry table_entry = record {
  number_of_cellbytes = table_entry / 512;
  cell_size = table_entry % 512;
}

-- The loop over the speed table.
unfoldable pub push_speeds : ℕ → List ℕ → DensityMap → DensityMap
push_speeds zero header speeds = speeds
push_speeds (suc n) header speeds =
    with_word (next_word header) speeds
      λ w rest. push_speeds n rest (speeds ++ (density_entry w ∷ []))

unfoldable pub write_track_command : VendorClass → List ℕ → VendorClass
write_track_command s header = with_word (next_word header) s λ size header.
    let s = record s { expected_size = size } in
    with_word (next_word header) s λ blocks header.
      let s = record s { remaining_blocks = blocks } in
      with_word (next_word header) s λ packed header.
        let s = record s {
          cylinder = packed % 256;
          head = packed / 256 % 2;
          has_non_flux_reversal_area = has_bit 512 packed;
          write_precompensation = packed / 65536 % 256;
        } in
        with_word (next_word header) s λ speed_table_size header. record s {
          speeds = push_speeds speed_table_size header s.speeds;
        }

unfoldable pub configure_command : List ℕ → List Request
configure_command header = with_word (next_word header) [] λ settings header.
    with_word (next_word header) [] λ index_sim_frequency header.
      configure_index_sim index_sim_frequency
      ∷ select_drive (if has_bit 1 settings then drive_b else drive_a)
      ∷ select_density (if has_bit 2 settings then high else single_double)
      ∷ []

unfoldable pub step_command : List ℕ → List Request
step_command header =
    with_word (next_word header) []
      λ cylinder header. select_track (record { cylinder = u8 cylinder; head = 0 }) ∷ []

-- `current_command.replace(c)`, with the assertion that no command is lost.
unfoldable pub put_command : VendorClass → Command → Outcome VendorClass
put_command s c = elim s.current_command [
  | none ↦ done (record s { current_command = some c })
  | some old ↦ panic
]

unfoldable pub read_track_command : VendorClass → List ℕ → Outcome VendorClass
read_track_command s header = with_word (next_word header) (done s) λ packed header.
    with_word (next_word header) (done s) λ duration_to_record header. put_command s (
      read_track (record { cylinder = packed % 256; head = packed / 256 % 2 }) duration_to_record
        (has_bit 512 packed))

-- `handle_command`: its only caller drops whether the header was complete.
unfoldable pub handle_command : VendorClass → List ℕ → Outcome (VendorClass × List Request)
handle_command s buf = with_word (next_word buf) (done (s, [])) λ command header.
    if command == 0x1234_0001
    then done (write_track_command s header, [])
    else (if command == 0x1234_0002
        then done (s, configure_command header)
        else (if command == 0x1234_0003
            then done (s, step_command header)
            else (if command == 0x1234_0004
                then (read_track_command s header >>= λ s'. done (s', []))
                else done (s, []))))

-- The end of `poll`: all blocks are there.
unfoldable pub complete_write : VendorClass → Outcome VendorClass
complete_write s =
    if s.expected_size == length s.receive_buffer
    then (elim (construct s.speeds s.receive_buffer s.has_non_flux_reversal_area) [
      | done raw_cell_data ↦
          put_command (record s { receive_buffer = []; speeds = [] })
            (write_verify_raw_track (record { cylinder = u8 s.cylinder; head = u8 s.head })
              raw_cell_data s.write_precompensation)
      | _ ↦ panic
    ])
    else panic

-- `poll` on a packet. A command is read from the whole buffer of 64 bytes, zeros behind the packet.
unfoldable pub poll : VendorClass → List ℕ → Outcome (VendorClass × List Request)
poll s packet =
    if s.remaining_blocks == 0
    then handle_command s (packet ++ replicate (64 - length packet) 0)
    else (let s' = record s {
      receive_buffer = s.receive_buffer ++ packet;
      remaining_blocks = s.remaining_blocks - 1;
    } in
        if s'.remaining_blocks == 0
        then (complete_write s' >>= λ r. done (r, []))
        else done (s', []))

-- Packets in turn, with all requests.
unfoldable pub polls : VendorClass → List (List ℕ) → Outcome (VendorClass × List Request)
polls s [] = done (s, [])
polls s (p ∷ ps) = poll s p >>= λ r. polls r.0 ps >>= λ r'. done (r'.0, r.1 ++ r'.1)
