-- ===== src/Mfm.antt =====
-- util/src/mfm.rs: modified frequency modulation, a clock cell and a data cell for each bit.
pub mod Encode
pub mod Window
pub mod Decode
pub mod Calm
pub mod RoundTrip
pub mod Parts
use stm32_usbfloppy_tracer.Base.{
  ℕ, zero, suc, ◌+◌, ◌-◌, ◌*◌, ◌/◌, ◌%◌, ◌^◌, Bit, Bool, true, false, bit_value, has_bit, u8, u16,
  u32, u64, ◌==◌, if◌then◌else◌, List, [], ◌∷◌, ◌++◌,
}

pub data MfmWord : Type 0 where
  enc : ℕ → MfmWord
  sync_word : MfmWord

pub data RawMfmWord : Type 0 where
  raw : ℕ → RawMfmWord
  sync_word : RawMfmWord

abbrev pub iso_sync_word : ℕ
iso_sync_word = 0x4489

abbrev pub iso_sync_byte : ℕ
iso_sync_byte = 0xA1

-- The one field of the encoder beside its sink.
pub record MfmEncoder : Type 0 where
  pub last_bit : Bit

unfoldable pub new_encoder : MfmEncoder
new_encoder = record { last_bit = false }

-- `encode_mfm_bit`, with the test `(val & mask) == 0` as its argument.
unfoldable pub encode_mfm_bit : MfmEncoder → Bool → MfmEncoder × List Bit
encode_mfm_bit e false =
    (record { last_bit = false }, if e.last_bit then false ∷ false ∷ [] else true ∷ false ∷ [])
encode_mfm_bit e true = (record { last_bit = true }, false ∷ true ∷ [])

-- The loops of `feed_encoded8` and `feed_odd16_32`, by the rounds that are left.
unfoldable pub feed_encoded8_loop : ℕ → MfmEncoder → ℕ → MfmEncoder × List Bit
unfolding encode_mfm_bit
feed_encoded8_loop zero e val = (e, [])
feed_encoded8_loop (suc n) e val =
    let (e', cells) = encode_mfm_bit e (has_bit 128 val) in
    let (e'', rest) = feed_encoded8_loop n e' (u8 (val * 2)) in (e'', cells ++ rest)

unfoldable pub feed_encoded8 : MfmEncoder → ℕ → MfmEncoder × List Bit
unfolding feed_encoded8_loop
feed_encoded8 e val = feed_encoded8_loop 8 e val

unfoldable pub feed_odd16_32_loop : ℕ → MfmEncoder → ℕ → MfmEncoder × List Bit
unfolding encode_mfm_bit
feed_odd16_32_loop zero e val = (e, [])
feed_odd16_32_loop (suc n) e val =
    let (e', cells) = encode_mfm_bit e (has_bit 2147483648 val) in
    let (e'', rest) = feed_odd16_32_loop n e' (u32 (val * 4)) in (e'', cells ++ rest)

unfoldable pub feed_odd16_32 : MfmEncoder → ℕ → MfmEncoder × List Bit
unfolding feed_odd16_32_loop
feed_odd16_32 e val = feed_odd16_32_loop 16 e val

unfoldable pub feed_even16_32 : MfmEncoder → ℕ → MfmEncoder × List Bit
unfolding feed_odd16_32
feed_even16_32 e val = feed_odd16_32 e (u32 (val * 2))

-- The bits of a word of the given size, most significant first: `top` is the mask of its first bit.
unfoldable pub raw_loop : ℕ → ℕ → ℕ → List Bit
raw_loop top zero val = []
raw_loop top (suc n) val = has_bit top val ∷ raw_loop top n ((val * 2) % (top * 2))

unfoldable pub feed_raw16 : MfmEncoder → ℕ → MfmEncoder × List Bit
unfolding raw_loop
feed_raw16 e val = (record { last_bit = has_bit 1 val }, raw_loop 32768 16 val)

unfoldable pub feed_raw8 : MfmEncoder → ℕ → MfmEncoder × List Bit
unfolding raw_loop
feed_raw8 e val = (record { last_bit = has_bit 1 val }, raw_loop 128 8 val)

-- `feed_raw_var` shifts a u32 whatever `len` is, and tests bit `len - 1`.
unfoldable pub raw_var_loop : ℕ → ℕ → ℕ → List Bit
raw_var_loop mask zero val = []
raw_var_loop mask (suc n) val = has_bit mask val ∷ raw_var_loop mask n (u32 (val * 2))

unfoldable pub feed_raw_var : MfmEncoder → ℕ → ℕ → MfmEncoder × List Bit
unfolding raw_var_loop
feed_raw_var e val len = (record { last_bit = has_bit 1 val }, raw_var_loop (2 ^ (len - 1)) len val)

unfoldable pub feed_word : MfmEncoder → MfmWord → MfmEncoder × List Bit
unfolding feed_encoded8 feed_raw16
feed_word e (MfmWord.enc x) = feed_encoded8 e x
feed_word e MfmWord.sync_word = (record { last_bit = true }, (feed_raw16 e iso_sync_word).1)

pub record MfmDecoder : Type 0 where
  pub sync_buffer : ℕ  -- u64
  pub byte_buffer : ℕ  -- u8
  pub shift_count : ℕ  -- u8
  pub in_sync : Bool
  pub zero_count : ℕ  -- i32
  pub sync_detector_active : Bool

unfoldable pub new_decoder : MfmDecoder
new_decoder = record {
  sync_buffer = 0;
  byte_buffer = 0;
  shift_count = 0;
  in_sync = false;
  zero_count = 0;
  sync_detector_active = true;
}

-- The end of `feed`: in sync, every second cell is a data bit, and sixteen cells are a byte.
unfoldable pub collect : MfmDecoder → Bit → MfmDecoder × List MfmWord
collect d cell =
    let byte_buffer =
      if d.shift_count % 2 == 1 then u8 (d.byte_buffer * 2) + bit_value cell else d.byte_buffer in
    let shift_count = u8 (d.shift_count + 1) in
    if d.in_sync
    then (if shift_count == 16
        then (record d { byte_buffer = byte_buffer; shift_count = 0 }, MfmWord.enc byte_buffer ∷ [])
        else (record d { byte_buffer = byte_buffer; shift_count = shift_count }, []))
    else (d, [])

unfoldable pub feed : MfmDecoder → Bit → MfmDecoder × List MfmWord
unfolding collect
feed d cell =
    let zero_count = if cell then 0 else u32 (d.zero_count + 1) in
    let sync_buffer = u64 (d.sync_buffer * 2) + bit_value cell in
    if d.sync_detector_active
    then (if sync_buffer % 2 ^ 48 == 0x4489_4489_4489
        then (
          record d {
            sync_buffer = sync_buffer;
            zero_count = zero_count;
            in_sync = true;
            shift_count = 0;
            byte_buffer = 0;
          },
          MfmWord.sync_word ∷ [],
        )
        else collect (record d { sync_buffer = sync_buffer; zero_count = zero_count }) cell)
    else collect (record d { zero_count = zero_count }) cell

pub record MfmDataSeperator : Type 0 where
  pub sync_buffer : ℕ  -- u64
  pub word_buffer : ℕ  -- u32
  pub in_sync : Bool
  pub shift_count : ℕ  -- u8

unfoldable pub new_seperator : MfmDataSeperator
new_seperator = record { sync_buffer = 0; word_buffer = 0; in_sync = false; shift_count = 0 }

unfoldable pub feed_seperator : MfmDataSeperator → Bit → MfmDataSeperator × List RawMfmWord
feed_seperator d cell =
    let sync_buffer = u64 (d.sync_buffer * 2) + bit_value cell in
    let word_buffer = u32 (d.word_buffer * 2) + bit_value cell in
    let shift_count = u8 (d.shift_count + 1) in
    if sync_buffer % 2 ^ 32 == 0x4489_4489
    then (
      record { sync_buffer = sync_buffer; in_sync = true; shift_count = 0; word_buffer = 0 },
      RawMfmWord.sync_word ∷ [],
    )
    else (if d.in_sync
        then (if shift_count == 32
            then (
              record d { sync_buffer = sync_buffer; word_buffer = word_buffer; shift_count = 0 },
              RawMfmWord.raw word_buffer ∷ [],
            )
            else (
              record d {
                sync_buffer = sync_buffer;
                word_buffer = word_buffer;
                shift_count = shift_count;
              },
              [],
            ))
        else (record d { sync_buffer = sync_buffer }, []))
