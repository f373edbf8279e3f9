-- ===== src/Mfm/Window.antt =====
-- util/src/mfm.rs: the last 48 cells that the decoder compares with three sync words. Coded bytes
-- never show the sync pattern, since its words leave out a clock cell between two zeros.
use stm32_usbfloppy_tracer.Bitstream.RoundTrip.{to_bit_streams}
use stm32_usbfloppy_tracer.Bitstream.{to_bit_stream}
use stm32_usbfloppy_tracer.Base.{
  ==_iff, All, Bit, Bool, IsU8, List, [], arith, bit_value, bit_value-lt, bits_value, false, ltb,
  ltb→lt, ne→==, not, passes_below, passes_below_at, refl, true, ℕ, ◌%◌, ◌&&◌, ◌*◌, ◌++◌, ◌+◌, ◌/◌,
  ◌<◌, ◌==◌, ◌^◌, ◌∷◌, ◌≡◌, ◌≢◌,
}
use stm32_usbfloppy_tracer.Mfm.Encode.{cells_of, cells_of-append, clock, last_of}

abbrev pub magic : ℕ
magic = 0x4489_4489_4489

abbrev pub slide : ℕ → Bit → ℕ
slide m c = (m * 2 + bit_value c) % 2 ^ 48

-- The window behind some cells.
unfoldable pub window : ℕ → List Bit → ℕ
window m [] = m
window m (c ∷ cs) = window (slide m c) cs

-- No cell completes the sync pattern.
unfoldable pub no_sync : ℕ → List Bit → Bool
no_sync m [] = true
no_sync m (c ∷ cs) = not (slide m c == magic) && no_sync (slide m c) cs

pub window-append : (m : ℕ) (xs ys : List Bit) → window m (xs ++ ys) ≡ window (window m xs) ys
unfolding window
window-append m [] ys = refl
window-append m (c ∷ xs) ys = window-append (slide m c) xs ys

pub &&_parts : (a b : Bool) → (a && b) ≡ true → (a ≡ true) × (b ≡ true)
&&_parts true b h = (refl, h)
&&_parts false b h = cc

pub no_sync-append :
    (m : ℕ) (xs ys : List Bit)
    → no_sync m xs ≡ true
    → no_sync (window m xs) ys ≡ true
    → no_sync m (xs ++ ys) ≡ true
unfolding no_sync window
no_sync-append m [] ys h k = k
no_sync-append m (c ∷ xs) ys h k =
    let (now, later) = &&_parts (not (slide m c == magic)) (no_sync (slide m c) xs) h in
    rw now (no_sync-append (slide m c) xs ys later k)

pub no_sync-parts :
    (m : ℕ) (xs ys : List Bit)
    → no_sync m (xs ++ ys) ≡ true
    → (no_sync m xs ≡ true) × (no_sync (window m xs) ys ≡ true)
unfolding no_sync window
no_sync-parts m [] ys h = (refl, h)
no_sync-parts m (c ∷ xs) ys h =
    let (now, later) = &&_parts (not (slide m c == magic)) (no_sync (slide m c) (xs ++ ys)) h in
    let (first, second) = no_sync-parts (slide m c) xs ys later in (rw now first, second)

pub window-bits_value : (w : ℕ) (cs : List Bit) → window (w % 2 ^ 48) cs ≡ bits_value w cs % 2 ^ 48
unfolding window bits_value
window-bits_value w [] = refl
window-bits_value w (c ∷ cs) =
    let e : slide (w % 2 ^ 48) c ≡ (w * 2 + bit_value c) % 2 ^ 48 = omega arith in
    rw e (window-bits_value (w * 2 + bit_value c) cs)

-- Three cells of the window, the lowest of them at `2 ^ k`.
abbrev triple : ℕ → ℕ → ℕ
triple m p = m / p % 8

-- The window ends in a data cell, and none of its last six triples of a data cell, a clock cell and
-- a data cell is all zeros.
pub record IsCoded (last : Bit) (m : ℕ) : Type 0 where
  pub ends : m % 2 ≡ bit_value last
  pub t0 : 0 < triple m 1
  pub t2 : 0 < triple m 4
  pub t4 : 0 < triple m 16
  pub t6 : 0 < triple m 64
  pub t8 : 0 < triple m 256
  pub t10 : 0 < triple m 1024

-- Neither the clock cell nor the data cell of a bit completes the pattern.
coded_clock : (last d : Bit) (m : ℕ) → IsCoded last m → slide m (clock last d) ≢ magic
coded_clock last d m h = λ e. omega (arith, h.t10, bit_value-lt (clock last d))

coded_data : (last d : Bit) (m : ℕ) → IsCoded last m → slide (slide m (clock last d)) d ≢ magic
coded_data last d m h = λ e. omega (arith, h.t2, bit_value-lt (clock last d), bit_value-lt d)

IsCoded-next :
    (last d : Bit) (m : ℕ) → IsCoded last m → IsCoded d (slide (slide m (clock last d)) d)
IsCoded-next true true m h = omega arith
IsCoded-next true false m h = omega arith
IsCoded-next false true m h = omega arith
IsCoded-next false false m h = omega arith

-- From a coded window on, the cells of any bits show no sync pattern, and leave a coded window.
pub IsCoded-cells_of :
    (ds : List Bit) (last : Bit) (m : ℕ)
    → IsCoded last m
    → (no_sync m (cells_of last ds) ≡ true)
      × IsCoded (last_of last ds) (window m (cells_of last ds))
unfolding no_sync window cells_of last_of
IsCoded-cells_of [] last m h = (refl, h)
IsCoded-cells_of (d ∷ ds) last m h =
    rw (ne→== _ _ (coded_clock last d m h), ne→== _ _ (coded_data last d m h))
      (IsCoded-cells_of ds d (slide (slide m (clock last d)) d) (IsCoded-next last d m h))

-- The same by a test, for the first byte behind the sync words.
abbrev coded_test : Bit → ℕ → Bool
coded_test last m =
    (m % 2 == bit_value last)
    && (ltb 0 (triple m 1)
        && (ltb 0 (triple m 4)
            && (ltb 0 (triple m 16)
                && (ltb 0 (triple m 64) && (ltb 0 (triple m 256) && ltb 0 (triple m 1024))))))

coded_test-IsCoded : (last : Bit) (m : ℕ) → coded_test last m ≡ true → IsCoded last m
coded_test-IsCoded last m h =
    let (ends, r) = &&_parts _ _ h in
    let (t0, r) = &&_parts _ _ r in
    let (t2, r) = &&_parts _ _ r in
    let (t4, r) = &&_parts _ _ r in
    let (t6, r) = &&_parts _ _ r in
    let (t8, t10) = &&_parts _ _ r in
    record {
      ends = (==_iff _ _).0 ends;
      t0 = ltb→lt _ _ t0;
      t2 = ltb→lt _ _ t2;
      t4 = ltb→lt _ _ t4;
      t6 = ltb→lt _ _ t6;
      t8 = ltb→lt _ _ t8;
      t10 = ltb→lt _ _ t10;
    }

first_byte_table :
    passes_below 256 (λ b.
      no_sync magic (cells_of true (to_bit_stream b))
      && coded_test
          (last_of true (to_bit_stream b))
          (window magic (cells_of true (to_bit_stream b))))
    ≡ true
unfolding passes_below no_sync window cells_of last_of to_bit_stream
first_byte_table = refl

-- From the window of a new decoder on.
fresh_byte_table :
    passes_below 256 (λ b.
      no_sync 0 (cells_of false (to_bit_stream b))
      && coded_test (last_of false (to_bit_stream b)) (window 0 (cells_of false (to_bit_stream b))))
    ≡ true
unfolding passes_below no_sync window cells_of last_of to_bit_stream
fresh_byte_table = refl

-- A window behind which any byte can come: its cells show no sync pattern and leave a coded window.
abbrev pub IsReady : Bit → ℕ → Type 0
IsReady last m =
    (b : ℕ)
    → IsU8 b
    → (no_sync m (cells_of last (to_bit_stream b)) ≡ true)
      × IsCoded (last_of last (to_bit_stream b)) (window m (cells_of last (to_bit_stream b)))

pub magic-IsReady : IsReady true magic
magic-IsReady b h =
    let (calm, coded) = &&_parts _ _ (passes_below_at 256 _ b first_byte_table h) in
    (calm, coded_test-IsCoded _ _ coded)

pub zero-IsReady : IsReady false 0
zero-IsReady b h =
    let (calm, coded) = &&_parts _ _ (passes_below_at 256 _ b fresh_byte_table h) in
    (calm, coded_test-IsCoded _ _ coded)

pub last_of-append :
    (last : Bit) (xs ys : List Bit) → last_of last (xs ++ ys) ≡ last_of (last_of last xs) ys
unfolding last_of
last_of-append last [] ys = refl
last_of-append last (d ∷ xs) ys = last_of-append d xs ys

-- Bytes from a ready window on show no sync pattern and leave a ready window.
pub IsReady-bytes :
    (bs : List ℕ) (last : Bit) (m : ℕ)
    → IsReady last m
    → All IsU8 bs
    → (no_sync m (cells_of last (to_bit_streams bs)) ≡ true)
      × IsReady (last_of last (to_bit_streams bs)) (window m (cells_of last (to_bit_streams bs)))
IsReady-bytes [] last m h hs =
    (unfold no_sync cells_of in refl, unfold window cells_of last_of in h)
IsReady-bytes (b ∷ bs) last m h (hb, hs) =
    let now = cells_of last (to_bit_stream b) in
    let last' = last_of last (to_bit_stream b) in
    let later = cells_of last' (to_bit_streams bs) in
    let (calm, coded) = h b hb in
    let (calm', coded') = IsCoded-cells_of (to_bit_streams bs) last' (window m now) coded in
    rw
      (
        cells_of-append last (to_bit_stream b) (to_bit_streams bs),
        last_of-append last (to_bit_stream b) (to_bit_streams bs),
        window-append m now later,
      )
      (no_sync-append m now later calm calm', λ c hc. IsCoded-cells_of (to_bit_stream c) _ _ coded')

-- Behind a window that holds the three sync words, the cells of any bytes never fill the window
-- with the sync pattern again.
pub sync-cells_of :
    (bytes : List ℕ) → All IsU8 bytes → no_sync magic (cells_of true (to_bit_streams bytes)) ≡ true
sync-cells_of bytes hs = (IsReady-bytes bytes true magic magic-IsReady hs).0
