-- ===== src/Bitstream/RoundTrip.antt =====
-- util/src/bitstream.rs: what the collector makes of the bits that `to_bit_stream` writes.
use stm32_usbfloppy_tracer.Base.{
  ==_iff, All, Bit, IsU8, List, [], ap, append_assoc, arith, bit_value, bits_value, concat, length,
  map, passes_below, passes_below_at, refl, run, run-append, true, u8, ℕ, ◌*◌, ◌++◌, ◌+◌, ◌<◌, ◌==◌,
  ◌∙◌, ◌∷◌, ◌≡◌,
}
use stm32_usbfloppy_tracer.Bitstream.{BitStreamCollector, feed, to_bit_stream}

-- The state before the bit `i` of a byte, where `y` has been shifted in so far.
abbrev pub at : ℕ → ℕ → BitStreamCollector
at i y = record { bit_i = i; working_byte = u8 y }

shift_in : (y : ℕ) (b : Bit) → u8 (u8 y * 2) + bit_value b ≡ u8 (y * 2 + bit_value b)
shift_in y b = ground arith

feed_inner : (i y : ℕ) (b : Bit) → i < 7 → feed (at i y) b ≡ (at (i + 1) (y * 2 + bit_value b), [])
unfolding feed
feed_inner i y b h = ground (arith, shift_in y b)

feed_last :
    (y : ℕ) (b : Bit)
    → feed (at 7 y) b ≡ (at 0 (y * 2 + bit_value b), u8 (y * 2 + bit_value b) ∷ [])
unfolding feed
feed_last y b = ground (arith, shift_in y b)

u8_idem : (y : ℕ) → u8 (u8 y) ≡ u8 y
u8_idem y = omega arith

pub length-to_bit_stream : (b : ℕ) → length (to_bit_stream b) ≡ 8
unfolding to_bit_stream
length-to_bit_stream b = refl

-- The bits up to the end of a byte.
run_to_end :
    (bs : List Bit) (b : Bit) (i y : ℕ)
    → i + length bs ≡ 7
    → run feed (at i y) (b ∷ bs) ≡ (at 0 (bits_value y (b ∷ bs)), u8 (bits_value y (b ∷ bs)) ∷ [])
unfolding run bits_value
run_to_end [] b i y h = let e : i ≡ 7 = omega arith in rw e (rw (feed_last y b))
run_to_end (c ∷ bs) b i y h =
    rw (feed_inner i y b (omega arith))
      (run_to_end bs c (i + 1) (y * 2 + bit_value b) (omega arith))

to_bit_stream_table : passes_below 256 (λ b. u8 (bits_value 0 (to_bit_stream b)) == b) ≡ true
unfolding passes_below bits_value to_bit_stream
to_bit_stream_table = refl

-- `to_bit_stream` spells its byte.
pub bits_value-to_bit_stream : (b : ℕ) → IsU8 b → u8 (bits_value 0 (to_bit_stream b)) ≡ b
bits_value-to_bit_stream b h = (==_iff _ b).0 (passes_below_at 256 _ b to_bit_stream_table h)

-- The old content of the working byte is shifted out by eight bits.
bits_value-from :
    (y : ℕ) (bs : List Bit) → length bs ≡ 8 → u8 (bits_value y bs) ≡ u8 (bits_value 0 bs)
unfolding bits_value
bits_value-from y [] h = absurd (omega arith)
bits_value-from y (a ∷ []) h = absurd (omega arith)
bits_value-from y (a ∷ b ∷ []) h = absurd (omega arith)
bits_value-from y (a ∷ b ∷ c ∷ []) h = absurd (omega arith)
bits_value-from y (a ∷ b ∷ c ∷ d ∷ []) h = absurd (omega arith)
bits_value-from y (a ∷ b ∷ c ∷ d ∷ e ∷ []) h = absurd (omega arith)
bits_value-from y (a ∷ b ∷ c ∷ d ∷ e ∷ f ∷ []) h = absurd (omega arith)
bits_value-from y (a ∷ b ∷ c ∷ d ∷ e ∷ f ∷ g ∷ []) h = absurd (omega arith)
bits_value-from y (a ∷ b ∷ c ∷ d ∷ e ∷ f ∷ g ∷ i ∷ []) h = omega arith
bits_value-from y (a ∷ b ∷ c ∷ d ∷ e ∷ f ∷ g ∷ i ∷ j ∷ r) h = absurd (omega arith)

-- Eight bits from a byte's start: the byte comes out, and is what the register keeps.
pub run_eight :
    (y : ℕ) (bs : List Bit)
    → length bs ≡ 8
    → run feed (at 0 y) bs ≡ (at 0 (u8 (bits_value 0 bs)), u8 (bits_value 0 bs) ∷ [])
run_eight y [] h = absurd (omega arith)
run_eight y (b ∷ bs) h =
    run_to_end bs b 0 y (omega arith)
    ∙ ap (λ v. (record { bit_i = 0; working_byte = v }, v ∷ [])) (bits_value-from y (b ∷ bs) h)
    ∙ rw (u8_idem (bits_value 0 (b ∷ bs)))

-- Whatever stood in a byte register, the bits of a byte replace it.
pub bits_value-over_byte : (y b : ℕ) → IsU8 b → u8 (bits_value y (to_bit_stream b)) ≡ b
bits_value-over_byte y b h =
    bits_value-from y (to_bit_stream b) (length-to_bit_stream b) ∙ bits_value-to_bit_stream b h

-- A collector that stands at a byte's start returns the byte, and stands at a byte's start again.
pub run-to_bit_stream : (y b : ℕ) → IsU8 b → run feed (at 0 y) (to_bit_stream b) ≡ (at 0 b, b ∷ [])
run-to_bit_stream y b h =
    rw (run_eight y (to_bit_stream b) (length-to_bit_stream b)) (rw (bits_value-to_bit_stream b h))

-- The bits of several bytes, in order.
abbrev pub to_bit_streams : List ℕ → List Bit
to_bit_streams bytes = concat (map to_bit_stream bytes)

pub to_bit_streams-append :
    (xs ys : List ℕ) → to_bit_streams (xs ++ ys) ≡ to_bit_streams xs ++ to_bit_streams ys
to_bit_streams-append [] ys = refl
to_bit_streams-append (x ∷ xs) ys = rw (to_bit_streams-append xs ys) (rw append_assoc refl)

run-to_bit_streams :
    (y : ℕ) (bytes : List ℕ)
    → All IsU8 bytes
    → ((run feed (at 0 y) (to_bit_streams bytes)).1 ≡ bytes)
      × ((run feed (at 0 y) (to_bit_streams bytes)).0.bit_i ≡ 0)
run-to_bit_streams y [] h = unfold run in (refl, refl)
run-to_bit_streams y (b ∷ bytes) (hb, hs) =
    let (same, start) = run-to_bit_streams b bytes hs in
    rw (run-append feed (at 0 y) (to_bit_stream b) (to_bit_streams bytes))
      (rw (run-to_bit_stream y b hb) (ap (λ l. b ∷ l) same, start))

-- A collector that starts at a byte's boundary, whatever its register holds, returns from the bits
-- of any bytes exactly those bytes, and ends at a byte's boundary.
pub collector-to_bit_streams :
    (c : BitStreamCollector) (bytes : List ℕ)
    → c.bit_i ≡ 0
    → IsU8 c.working_byte
    → All IsU8 bytes
    → ((run feed c (to_bit_streams bytes)).1 ≡ bytes)
      × ((run feed c (to_bit_streams bytes)).0.bit_i ≡ 0)
collector-to_bit_streams c bytes h hw hs =
    let e : c ≡ at 0 c.working_byte = ground arith in
    rw e (run-to_bit_streams c.working_byte bytes hs)
