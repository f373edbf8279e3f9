-- ===== src/Usb/Header.antt =====
-- The command buffer between tool/src/usb_commands.rs and firmware/src/vendor_class.rs: what the host
-- packs, the device unpacks.
use stm32_usbfloppy_tracer.RawTrack.{RawTrack}
use stm32_usbfloppy_tracer.Base.{
  All, Bool, IsU32, List, [], ap, append-nil, append_assoc, arith, bit_or-below_shifted,
  bit_or-shifted, concat, done, eq→==, false, has_bit, if◌then◌else◌, length, lt_i32, map, ne→==,
  refl, replicate, some, suc, sym, true, u32, zero, ℕ, ◌%◌, ◌*◌, ◌++◌, ◌+◌, ◌-◌, ◌/◌, ◌<◌, ◌^◌, ◌∙◌,
  ◌∷◌, ◌≡◌, ◌≤◌,
}
use native.Mathlib.Nat.{suc-sub-suc, sub-zero}
use stm32_usbfloppy_tracer.CellData.{DensityMap, DensityMapEntry}
use stm32_usbfloppy_tracer.Usb.Host.{density_words, packed_configuration, put_words, to_le_bytes}
use stm32_usbfloppy_tracer.Usb.Device.{
  VendorClass, density_entry, next_word, push_speeds, write_track_command,
}

-- A word survives its bytes.
pub next_word-to_le_bytes :
    (w : ℕ) (rest : List ℕ) → IsU32 w → next_word (to_le_bytes w ++ rest) ≡ some (w, rest)
unfolding next_word
next_word-to_le_bytes w rest h = ground arith

-- A density map that the protocol can carry: 9 bits for a cell size, 23 for a number of bytes.
abbrev pub Carried : DensityMap → Type 0
Carried m = All (λ e. (e.cell_size < 512) × (e.number_of_cellbytes < 8388608)) m

abbrev pub entry_word : DensityMapEntry → ℕ
entry_word e = e.number_of_cellbytes * 512 + e.cell_size

pub density_words-Carried : (m : DensityMap) → Carried m → density_words m ≡ done (map entry_word m)
unfolding density_words
density_words-Carried [] h = refl
density_words-Carried (e ∷ es) ((hc, hn), hs) =
    let small : lt_i32 e.cell_size 512 ≡ true = ground arith in
    let shifted : u32 (u32 e.number_of_cellbytes * 512) ≡ e.number_of_cellbytes * 512 =
      omega arith in
    rw (small, density_words-Carried es hs)
      (rw shifted (rw (bit_or-shifted 9 e.number_of_cellbytes e.cell_size hc)))

-- The bytes of words, and a buffer that holds them with zeros behind.
abbrev pub words_bytes : List ℕ → List ℕ
words_bytes ws = concat (map to_le_bytes ws)

pub put_words-fits :
    (n : ℕ) (ws : List ℕ)
    → length ws ≤ n
    → put_words n ws ≡ done (words_bytes ws ++ replicate ((n - length ws) * 4) 0)
unfolding put_words
put_words-fits n [] h = rw sub-zero
put_words-fits zero (w ∷ ws) h = absurd (omega arith)
put_words-fits (suc n) (w ∷ ws) h = rw (put_words-fits n ws (omega arith), suc-sub-suc)

-- What `next_word` and its users do with a word that is there.
push_speeds-word :
    (n w : ℕ) (header rest : List ℕ) (speeds : DensityMap)
    → next_word header ≡ some (w, rest)
    → push_speeds (suc n) header speeds ≡ push_speeds n rest (speeds ++ (density_entry w ∷ []))
unfolding push_speeds
push_speeds-word n w header rest speeds h = ground arith

density_entry-entry_word :
    (e : DensityMapEntry) → e.cell_size < 512 → density_entry (entry_word e) ≡ e
density_entry-entry_word e h = ground arith

-- The loop over the speed table reads back the map.
pub push_speeds-words :
    (m : DensityMap) (rest : List ℕ) (speeds : DensityMap)
    → Carried m
    → push_speeds (length m) (words_bytes (map entry_word m) ++ rest) speeds ≡ speeds ++ m
push_speeds-words [] rest speeds h = unfold push_speeds in sym (append-nil speeds)
push_speeds-words (e ∷ m) rest speeds ((hc, hn), hs) =
    let later = words_bytes (map entry_word m) ++ rest in
    push_speeds-word (length m) (entry_word e) (to_le_bytes (entry_word e) ++ later) later speeds
      (next_word-to_le_bytes (entry_word e) later (omega arith))
    ∙ ap (λ x. push_speeds (length m) later (speeds ++ (x ∷ []))) (density_entry-entry_word e hc)
    ∙ push_speeds-words m rest (speeds ++ (e ∷ [])) hs
    ∙ append_assoc speeds (e ∷ []) m

pub length-words_bytes : (ws : List ℕ) → length (words_bytes ws) ≡ length ws * 4
length-words_bytes [] = refl
length-words_bytes (w ∷ ws) = omega (arith, length-words_bytes ws)

-- The fields of the packed configuration.
abbrev pub flag : Bool → ℕ
flag true = 1
flag false = 0

packed_sum :
    (t : RawTrack)
    → t.head ≤ 1
    → t.cylinder ≤ 0xff
    → t.write_precompensation ≤ 0xff
    → packed_configuration t
      ≡ t.write_precompensation * 65536
        + (flag t.has_non_flux_reversal_area * 512 + (t.head * 256 + t.cylinder))
packed_sum t hh hc hw =
    let b = t.has_non_flux_reversal_area in
    let e₁ : u32 (t.head * 256) ≡ t.head * 2 ^ 8 = omega arith in
    let e₂ : (if b then 0x200 else 0) ≡ flag b * 2 ^ 9 = flag_mask b in
    let e₃ : u32 (t.write_precompensation * 65536) ≡ t.write_precompensation * 2 ^ 16 =
      omega arith in
    rw (e₁, e₂, e₃)
      (rw (bit_or-below_shifted 8 t.head t.cylinder (omega arith)) (
        rw (bit_or-below_shifted 9 (flag b) (t.head * 2 ^ 8 + t.cylinder) (omega arith))
          (bit_or-below_shifted 16 t.write_precompensation _ (omega (arith, flag_small b)))))
  where
    flag_mask : (b : Bool) → (if b then 0x200 else 0) ≡ flag b * 2 ^ 9
    flag_mask true = refl
    flag_mask false = refl

    flag_small : (b : Bool) → flag b ≤ 1
    flag_small true = omega arith
    flag_small false = omega arith

-- For a head of at most 1, a cylinder and a precompensation of at most 255, the packed
-- configuration has 32 bits, and the device's masks and shifts take the cylinder, the head, the
-- flag and the precompensation out of it as they went in.
pub packed_fields :
    (t : RawTrack)
    → t.head ≤ 1
    → t.cylinder ≤ 0xff
    → t.write_precompensation ≤ 0xff
    → let packed = packed_configuration t in
      (packed % 256 ≡ t.cylinder)
      × (packed / 256 % 2 ≡ t.head)
      × (has_bit 512 packed ≡ t.has_non_flux_reversal_area)
      × (packed / 65536 % 256 ≡ t.write_precompensation)
      × IsU32 packed
packed_fields t hh hc hw = rw (packed_sum t hh hc hw) (fields t.has_non_flux_reversal_area)
  where
    fields :
        (b : Bool)
        → let packed =
            t.write_precompensation * 65536 + (flag b * 512 + (t.head * 256 + t.cylinder)) in
          (packed % 256 ≡ t.cylinder)
          × (packed / 256 % 2 ≡ t.head)
          × (has_bit 512 packed ≡ b)
          × (packed / 65536 % 256 ≡ t.write_precompensation)
          × IsU32 packed
    fields true = (omega arith, omega arith, eq→== _ 1 (omega arith), omega arith, omega arith)
    fields false =
        (omega arith, omega arith, ne→== _ 1 (λ e. omega arith), omega arith, omega arith)

-- The device on a write command whose words are all there.
pub write_track_command_lem :
    (s : VendorClass) (size blocks packed count : ℕ) (table : List ℕ)
    → IsU32 size
    → IsU32 blocks
    → IsU32 packed
    → IsU32 count
    → write_track_command s (words_bytes (size ∷ blocks ∷ packed ∷ count ∷ []) ++ table)
      ≡ record s {
        expected_size = size;
        remaining_blocks = blocks;
        cylinder = packed % 256;
        head = packed / 256 % 2;
        has_non_flux_reversal_area = has_bit 512 packed;
        write_precompensation = packed / 65536 % 256;
        speeds = push_speeds count table s.speeds;
      }
unfolding write_track_command
write_track_command_lem s size blocks packed count table hs hb hp hc =
    let h₄ = to_le_bytes count ++ table in
    let h₃ = to_le_bytes packed ++ h₄ in
    let h₂ = to_le_bytes blocks ++ h₃ in
    rw (next_word-to_le_bytes size h₂ hs) (
      rw (next_word-to_le_bytes blocks h₃ hb)
        (rw (next_word-to_le_bytes packed h₄ hp) (rw (next_word-to_le_bytes count table hc))))
