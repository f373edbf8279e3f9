-- ===== src/Gcr/Cells.antt =====
-- util/src/gcr.rs: the cells of one coded byte, fed to a decoder in sync.
use stm32_usbfloppy_tracer.Base.{
  ==_iff, Bit, Bool, IsU8, List, Option, [], arith, bit_value, bits_value, bits_value-shift, false,
  if◌then◌else◌, inl, leb, length, ltb, none, passes_below, passes_below_at, refl, run, some, true,
  u32, u64, ℕ, ◌%◌, ◌*◌, ◌+◌, ◌/◌, ◌<◌, ◌==◌, ◌∙◌, ◌∷◌, ◌≡◌, ◌⊎◌,
}
use stm32_usbfloppy_tracer.Gcr.{GcrDecoder, byte, collect, decode_word, feed, to_gcr_stream}

-- Within a byte and in sync: `i` cells of it were shifted in, `y` is all that was.
abbrev pub within : ℕ → ℕ → ℕ → GcrDecoder
within y i o = record { gcr_word_buffer = u64 y; shift_count = i; in_sync = true; ones_count = o }

-- The count of ones behind cells that hold no sync mark; `none` where there is one.
unfoldable pub quiet : ℕ → List Bit → Option ℕ
quiet o [] = some o
quiet o (true ∷ bs) = quiet (u32 (o + 1)) bs
quiet o (false ∷ bs) = let rest = quiet 0 bs in if leb 10 o then none else rest

-- One cell that ends no sync mark.
abbrev pub ones_after : ℕ → Bit → ℕ
ones_after o true = u32 (o + 1)
ones_after o false = 0

pub quiet_step :
    (o o' : ℕ) (b : Bit) (bs : List Bit)
    → quiet o (b ∷ bs) ≡ some o'
    → ((b ≡ true) ⊎ (o < 10)) × (quiet (ones_after o b) bs ≡ some o')
unfolding quiet
quiet_step o o' true bs h = (inl refl, h)
quiet_step o o' false bs h = ground arith

shift_in : (y : ℕ) (b : Bit) → u64 (u64 y * 2) + bit_value b ≡ u64 (y * 2 + bit_value b)
shift_in y b = ground arith

pub feed_inner :
    (y i o : ℕ) (b : Bit)
    → (b ≡ true) ⊎ (o < 10)
    → i < 9
    → feed (within y i o) b ≡ (within (y * 2 + bit_value b) (i + 1) (ones_after o b), [])
unfolding feed
feed_inner y i o true h hi = ground (arith, shift_in y true)
feed_inner y i o false h hi = ground (arith, shift_in y false)

pub feed_last :
    (y o : ℕ) (b : Bit)
    → (b ≡ true) ⊎ (o < 10)
    → feed (within y 9 o) b ≡ (
      within (y * 2 + bit_value b) 0 (ones_after o b),
      byte (decode_word (u64 (y * 2 + bit_value b))) ∷ [],
    )
unfolding feed collect
feed_last y o true h = ground (arith, shift_in y true)
feed_last y o false h = ground (arith, shift_in y false)

pub run_to_end :
    (bs : List Bit) (b : Bit) (y i o o' : ℕ)
    → quiet o (b ∷ bs) ≡ some o'
    → i + length bs ≡ 9
    → run feed (within y i o) (b ∷ bs)
      ≡ (within (bits_value y (b ∷ bs)) 0 o', byte (decode_word (u64 (bits_value y (b ∷ bs)))) ∷ [])
unfolding run bits_value
run_to_end [] b y i o o' h hi =
    let (calm, later) = quiet_step o o' b [] h in
    let e : i ≡ 9 = omega arith in rw e (rw (feed_last y o b calm) (unfold quiet in ground arith))
run_to_end (c ∷ bs) b y i o o' h hi =
    let (calm, later) = quiet_step o o' b (c ∷ bs) h in
    rw (feed_inner y i o b calm (omega arith))
      (run_to_end bs c (y * 2 + bit_value b) (i + 1) (ones_after o b) o' later (omega arith))

-- Ten bits decide what `decode_word` sees.
low_ten :
    (y v : ℕ) → (u64 (y * 1024 + v) / 32 % 32 ≡ v / 32 % 32) × (u64 (y * 1024 + v) % 32 ≡ v % 32)
low_ten y v = omega arith

pub decode_word-u64 :
    (y : ℕ) (bs : List Bit)
    → length bs ≡ 10
    → decode_word (u64 (bits_value y bs)) ≡ decode_word (bits_value 0 bs)
unfolding decode_word
decode_word-u64 y bs h =
    let (hi, lo) = low_ten y (bits_value 0 bs) in rw (bits_value-shift y bs, h) (rw (hi, lo))

abbrev is_calm : Option ℕ → Bool
is_calm none = false
is_calm (some o) = ltb o 5

calm_table :
    passes_below 256 (λ b. passes_below 5 (λ o. is_calm (quiet o (to_gcr_stream b)))) ≡ true
unfolding passes_below quiet to_gcr_stream
calm_table = refl

-- No sync mark appears within coded bytes, nor across the border of two.
pub calm : (b o : ℕ) → IsU8 b → o < 5 → (o' : ℕ) × (quiet o (to_gcr_stream b) ≡ some o') × (o' < 5)
calm b o hb ho = calm_some (quiet o (to_gcr_stream b)) (
    passes_below_at 5 (λ o. is_calm (quiet o (to_gcr_stream b))) o
      (passes_below_at 256 _ b calm_table hb) ho)
  where
    calm_some : (r : Option ℕ) → is_calm r ≡ true → (o' : ℕ) × (r ≡ some o') × (o' < 5)
    calm_some none h = cc
    calm_some (some o') h = (o', refl, ground arith)

decode_table : passes_below 256 (λ b. decode_word (bits_value 0 (to_gcr_stream b)) == b) ≡ true
unfolding passes_below bits_value to_gcr_stream decode_word
decode_table = refl

-- The decode table inverts the encode table, for every byte.
pub decode_word-gcr : (b : ℕ) → IsU8 b → decode_word (bits_value 0 (to_gcr_stream b)) ≡ b
decode_word-gcr b h = (==_iff _ b).0 (passes_below_at 256 _ b decode_table h)

pub length-to_gcr_stream : (b : ℕ) → length (to_gcr_stream b) ≡ 10
unfolding to_gcr_stream
length-to_gcr_stream b = refl

-- One coded byte, in sync.
pub run-to_gcr_stream :
    (bs : List Bit) (b y o o' : ℕ)
    → length bs ≡ 10
    → decode_word (bits_value 0 bs) ≡ b
    → quiet o bs ≡ some o'
    → run feed (within y 0 o) bs ≡ (within (bits_value y bs) 0 o', byte b ∷ [])
run-to_gcr_stream [] b y o o' hl hd hq = absurd (omega arith)
run-to_gcr_stream (c ∷ cs) b y o o' hl hd hq =
    run_to_end cs c y 0 o o' hq (omega arith) ∙ rw (decode_word-u64 y (c ∷ cs) hl) (rw hd)
