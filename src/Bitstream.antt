-- ===== src/Bitstream.antt =====
-- util/src/bitstream.rs: bytes to bits, most significant first, and bits back to bytes.
pub mod RoundTrip
pub mod Packing
use stm32_usbfloppy_tracer.Base.{
  Bit, List, [], bit_value, has_bit, if◌then◌else◌, run, suc, u8, zero, ℕ, ◌*◌, ◌+◌, ◌==◌, ◌∷◌,
}

-- The fields of the collector; its sink is the list of bytes that `feed` returns.
pub record BitStreamCollector : Type 0 where
  pub bit_i : ℕ  -- u8
  pub working_byte : ℕ  -- u8

unfoldable pub new : BitStreamCollector
new = record { bit_i = 0; working_byte = 0 }

-- `working_byte <<= 1` leaves bit 0 clear, so `|= 1` adds the cell.
unfoldable pub feed : BitStreamCollector → Bit → BitStreamCollector × List ℕ
feed c cell =
    let working_byte = u8 (c.working_byte * 2) + bit_value cell in
    let bit_i = u8 (c.bit_i + 1) in
    if bit_i == 8
    then (record { bit_i = 0; working_byte = working_byte }, working_byte ∷ [])
    else (record { bit_i = bit_i; working_byte = working_byte }, [])

-- The loop of `to_bit_stream`, by the rounds that are left.
unfoldable pub to_bit_stream_loop : ℕ → ℕ → List Bit
to_bit_stream_loop zero inval = []
to_bit_stream_loop (suc n) inval = has_bit 128 inval ∷ to_bit_stream_loop n (u8 (inval * 2))

unfoldable pub to_bit_stream : ℕ → List Bit
unfolding to_bit_stream_loop
to_bit_stream inval = to_bit_stream_loop 8 inval

-- A fresh collector on all the cells of a track or of a sector.
unfoldable pub pack : List Bit → List ℕ
unfolding run feed new
pack cells = (run feed new cells).1
