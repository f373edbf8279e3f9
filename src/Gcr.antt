-- ===== src/Gcr.antt =====
-- util/src/gcr.rs: the group coded recording of the Commodore 64, five bits for each nibble.
pub mod Cells
pub mod RoundTrip
pub mod Quiet
use stm32_usbfloppy_tracer.Base.{
  ℕ, zero, suc, ◌+◌, ◌*◌, ◌/◌, ◌%◌, Bit, Bool, true, false, bit_value, has_bit, u8, u16, u32, u64,
  leb, ◌==◌, if◌then◌else◌, List, [], ◌∷◌, ◌++◌, get_or,
}

pub data GcrDecoderResult : Type 0 where
  sync : GcrDecoderResult
  byte : ℕ → GcrDecoderResult

unfoldable pub gcr_encode_table : List ℕ
gcr_encode_table =
    0b01010 ∷ 0b01011 ∷ 0b10010 ∷ 0b10011 ∷ 0b01110 ∷ 0b01111 ∷ 0b10110 ∷ 0b10111 ∷ 0b01001
    ∷ 0b11001 ∷ 0b11010 ∷ 0b11011 ∷ 0b01101 ∷ 0b11101 ∷ 0b11110 ∷ 0b10101 ∷ []

unfoldable pub gcr_decode_table : List ℕ
gcr_decode_table =
    0 ∷ 0 ∷ 0 ∷ 0 ∷ 0 ∷ 0 ∷ 0 ∷ 0 ∷ 0 ∷ 8 ∷ 0 ∷ 1 ∷ 0 ∷ 12 ∷ 4 ∷ 5 ∷ 0 ∷ 0 ∷ 2 ∷ 3 ∷ 0 ∷ 15 ∷ 6 ∷ 7
    ∷ 0 ∷ 9 ∷ 10 ∷ 11 ∷ 0 ∷ 13 ∷ 14 ∷ 0 ∷ []

-- `index_or_default!`.
abbrev index_or_default : List ℕ → ℕ → ℕ
index_or_default a i = get_or a i 0

-- Both codes have five bits, so the `|` of the shifted one and the other is their sum.
unfoldable pub gcr_word : ℕ → ℕ
unfolding gcr_encode_table
gcr_word b =
    index_or_default gcr_encode_table (b / 16) * 32 + index_or_default gcr_encode_table (b % 16)

unfoldable pub to_gcr_stream_loop : ℕ → ℕ → List Bit
to_gcr_stream_loop zero word = []
to_gcr_stream_loop (suc n) word = has_bit 512 word ∷ to_gcr_stream_loop n (u16 (word * 2))

unfoldable pub to_gcr_stream : ℕ → List Bit
unfolding gcr_word to_gcr_stream_loop
to_gcr_stream b = to_gcr_stream_loop 10 (gcr_word b)

pub record GcrDecoder : Type 0 where
  pub gcr_word_buffer : ℕ  -- u64
  pub shift_count : ℕ  -- u8
  pub in_sync : Bool
  pub ones_count : ℕ  -- u32

unfoldable pub new : GcrDecoder
new = record { gcr_word_buffer = 0; shift_count = 0; in_sync = false; ones_count = 0 }

-- The first half of `feed`: ten ones or more, ended by a zero, are a sync mark.
unfoldable pub detect_sync : GcrDecoder → Bit → GcrDecoder × List GcrDecoderResult
detect_sync d true = (record d { ones_count = u32 (d.ones_count + 1) }, [])
detect_sync d false =
    if leb 10 d.ones_count
    then (record d { in_sync = true; shift_count = 0; ones_count = 0 }, sync ∷ [])
    else (record d { ones_count = 0 }, [])

-- The two nibbles of ten bits; a code that the table lacks reads as 0. `|` joins nibbles.
unfoldable pub decode_word : ℕ → ℕ
unfolding gcr_decode_table
decode_word w =
    index_or_default gcr_decode_table ((w / 32) % 32) * 16
    + index_or_default gcr_decode_table (w % 32)

-- The second half of `feed`: collect ten bits, and emit their byte.
unfoldable pub collect : GcrDecoder → Bit → GcrDecoder × List GcrDecoderResult
unfolding decode_word
collect d cell =
    let buffer = u64 (d.gcr_word_buffer * 2) + bit_value cell in
    let count = u8 (d.shift_count + 1) in
    if leb 10 count
    then (record d { gcr_word_buffer = buffer; shift_count = 0 }, byte (decode_word buffer) ∷ [])
    else (record d { gcr_word_buffer = buffer; shift_count = count }, [])

unfoldable pub feed : GcrDecoder → Bit → GcrDecoder × List GcrDecoderResult
unfolding detect_sync collect
feed d cell =
    let (d', found) = detect_sync d cell in
    if d'.in_sync then (let (d'', out) = collect d' cell in (d'', found ++ out)) else (d', found)
