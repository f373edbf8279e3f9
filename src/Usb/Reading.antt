-- ===== src/Usb/Reading.antt =====
-- The read command from tool/src/usb_commands.rs to firmware/src/vendor_class.rs, and the answer.
use stm32_usbfloppy_tracer.Base.{
  Bool, IsU32, List, [], arith, bit_or, bit_or-below_shifted, bit_or-zero, done, eq→==, false,
  has_bit, if◌then◌else◌, ne→==, none, refl, replicate, some, true, u32, ℕ, ◌%◌, ◌*◌, ◌++◌, ◌+◌,
  ◌/◌, ◌<◌, ◌>>=◌, ◌^◌, ◌∙◌, ◌∷◌, ◌≡◌, ◌≤◌,
}
use stm32_usbfloppy_tracer.Usb.Host.{put_words, read_request, to_le_bytes}
use stm32_usbfloppy_tracer.Usb.Device.{
  Command, VendorClass, handle_command, poll, put_command, read_track, read_track_command,
}
use stm32_usbfloppy_tracer.Usb.RoundTrip.{poll_command_packet}
use stm32_usbfloppy_tracer.Usb.Header.{flag, next_word-to_le_bytes, words_bytes}

abbrev packed_request : ℕ → ℕ → Bool → ℕ
packed_request cylinder head wait_for_index =
    bit_or (bit_or cylinder (u32 (head * 256))) (if wait_for_index then 512 else 0)

request_sum :
    (c h : ℕ) (b : Bool) → c ≤ 0xff → h ≤ 1 → packed_request c h b ≡ flag b * 512 + (h * 256 + c)
request_sum c h true hc hh =
    let e : u32 (h * 256) ≡ h * 2 ^ 8 = omega arith in
    rw e (
      rw (bit_or-below_shifted 8 h c (omega arith))
        (bit_or-below_shifted 9 1 (h * 2 ^ 8 + c) (omega arith)))
request_sum c h false hc hh =
    let e : u32 (h * 256) ≡ h * 2 ^ 8 = omega arith in
    rw e (rw (bit_or-below_shifted 8 h c (omega arith)) (bit_or-zero (h * 2 ^ 8 + c) ∙ omega arith))

flag_bit : (b : Bool) (x : ℕ) → x < 512 → has_bit 512 (flag b * 512 + x) ≡ b
flag_bit true x h = eq→== _ 1 (omega arith)
flag_bit false x h = ne→== _ 1 (λ e. omega arith)

flag_sum : (b : Bool) (x : ℕ) → x < 512 → (flag b * 512 + x < 1024) × ((flag b * 512 + x) % 512 ≡ x)
flag_sum true x h = (omega arith, omega arith)
flag_sum false x h = (omega arith, omega arith)

abbrev pub request_packet : ℕ → ℕ → Bool → ℕ → List ℕ
request_packet c h b d =
    words_bytes (0x1234_0004 ∷ packed_request c h b ∷ u32 d ∷ []) ++ replicate 52 0

-- The device after a read request: the command waits to be taken.
abbrev pub told_to_read : VendorClass → ℕ → ℕ → Bool → ℕ → VendorClass
told_to_read s cylinder head wait_for_index duration = record s {
  current_command =
      some (read_track (record { cylinder = cylinder; head = head }) duration wait_for_index);
}

handle_read :
    (s : VendorClass) (packed d : ℕ) (rest : List ℕ)
    → IsU32 packed
    → IsU32 d
    → handle_command s (words_bytes (0x1234_0004 ∷ packed ∷ d ∷ []) ++ rest) ≡ (
        put_command s (
          read_track
            (record { cylinder = packed % 256; head = packed / 256 % 2 })
            d
            (has_bit 512 packed))
        >>= λ s'. done (s', []))
unfolding handle_command read_track_command
handle_read s packed d rest hp hd =
    let h₂ = to_le_bytes d ++ rest in
    rw (next_word-to_le_bytes 0x1234_0004 (to_le_bytes packed ++ h₂) (omega arith))
      (rw (next_word-to_le_bytes packed h₂ hp) (rw (next_word-to_le_bytes d rest hd)))

put_command-none :
    (s : VendorClass) (c : Command)
    → s.current_command ≡ none
    → put_command s c ≡ done (record s { current_command = some c })
unfolding put_command
put_command-none s c h = rw h refl

-- For a cylinder up to 255, a head up to 1, a 32-bit duration, and a device between two commands whose last
-- command was taken: the request of read_raw_track leaves the device with exactly the read command
-- of that track and duration, and changes nothing else in it.
pub poll-read_request :
    (c h d : ℕ) (b : Bool) (s : VendorClass)
    → c ≤ 0xff
    → h ≤ 1
    → IsU32 d
    → s.remaining_blocks ≡ 0
    → s.current_command ≡ none
    → (packet : List ℕ) × (read_request c h b d ≡ done packet)
      × (poll s packet ≡ done (told_to_read s c h b d, []))
poll-read_request c h d b s hc hh hd hr hn =
    let x = h * 256 + c in
    let packed = packed_request c h b in
    let sum : packed ≡ flag b * 512 + x = request_sum c h b hc hh in
    let (small, low) = flag_sum b x (omega arith) in
    let duration : u32 d ≡ d = omega arith in
    let cylinder : packed % 256 ≡ c = rw sum (omega arith) in
    let head : packed / 256 % 2 ≡ h = rw sum (omega arith) in
    let wait : has_bit 512 packed ≡ b = rw sum (flag_bit b x (omega arith)) in
    (
      request_packet c h b d,
      unfold read_request put_words in refl,
      poll_command_packet s (request_packet c h b d) hr refl
          ∙ handle_read s packed (u32 d) (replicate 52 0) (rw sum (omega arith)) (rw duration hd)
          ∙ rw (put_command-none s _ hn) (rw (cylinder, head, wait, duration) refl),
    )
