-- ===== src/Fluxpulse/RoundTrip.antt =====
-- util/src/fluxpulse.rs: the reader on what the generator writes.
use stm32_usbfloppy_tracer.Base.{
  Bit, List, [], ap, append_assoc, arith, false, inr, length, length-append, refl, replicate, run,
  run-append, some, subst, suc, sym, take-append_eq, true, u32, zero, ℕ, ◌%◌, ◌*◌, ◌++◌, ◌+◌, ◌<◌,
  ◌∙◌, ◌∷◌, ◌≡◌,
}
use stm32_usbfloppy_tracer.Fluxpulse.{FluxPulseGenerator, feed, five_zeros, flush, new, to_cells}
use stm32_usbfloppy_tracer.Fluxpulse.Pulses.{IsPlain, feed-Steps, pulses, run-IsPlain, run-pulses}
use stm32_usbfloppy_tracer.Fluxpulse.Cells.{feed_to_cells-gap, gap, to_cells-cons}

-- The cells up to the last flux reversal, where `n` zeros stand in front of them.
kept : ℕ → List Bit → List Bit
kept n [] = []
kept n (true ∷ bs) = gap n ++ kept 0 bs
kept n (false ∷ bs) = kept (suc n) bs

u32_small : (v : ℕ) → v < 4294967296 → u32 v ≡ v
u32_small v h = omega arith

to_cells-pulses :
    (bs : List Bit) (n c : ℕ)
    → 0 < c
    → (n + length bs + 2) * c < 2147483648
    → to_cells c (pulses (n * c) c bs) ≡ some (kept n bs)
unfolding pulses kept
to_cells-pulses [] n c hc h = unfold to_cells in refl
to_cells-pulses (true ∷ bs) n c hc h =
    let e : u32 (n * c + c) ≡ suc n * c = omega arith in
    let z : 0 ≡ 0 * c = omega arith in
    to_cells-cons c (u32 (n * c + c)) (pulses 0 c bs) (gap n) (kept 0 bs)
      (rw e (
        feed_to_cells-gap n c (suc n * c) hc (omega arith) (omega arith) (inr (omega arith))
          (omega arith)))
      (subst (λ v. to_cells c (pulses v c bs) ≡ some (kept 0 bs)) (sym z)
        (to_cells-pulses bs 0 c hc (omega arith)))
to_cells-pulses (false ∷ bs) n c hc h =
    let e : u32 (n * c + c) ≡ suc n * c = omega arith in
    rw e (to_cells-pulses bs (suc n) c hc (omega arith))

replicate-append :
    (n : ℕ) (b : Bit) (bs : List Bit) → replicate n b ++ (b ∷ bs) ≡ replicate (suc n) b ++ bs
replicate-append zero b bs = refl
replicate-append (suc n) b bs = ap (λ l. b ∷ l) (replicate-append n b bs)

zeros-kept :
    (n : ℕ) (bs : List Bit) → kept n (bs ++ (true ∷ [])) ≡ replicate n false ++ (bs ++ (true ∷ []))
unfolding kept
zeros-kept n [] = rw append_assoc
zeros-kept n (true ∷ bs) = rw (zeros-kept 0 bs, append_assoc)
zeros-kept n (false ∷ bs) =
    zeros-kept (suc n) bs ∙ sym (replicate-append n (false) (bs ++ (true ∷ [])))

new-IsPlain : (c : ℕ) → IsPlain (new c)
unfolding new
new-IsPlain c = ground arith

-- A flush that finds a flux reversal in the window of a plain generator feeds five zeros.
flush-IsPlain :
    (g : FluxPulseGenerator) → IsPlain g → g.shift_word % 2 ≡ 1 → flush g ≡ run feed g five_zeros
unfolding flush
flush-IsPlain g h odd =
    let e : record g {
      enable_non_flux_reversal_generator = false;
      enable_weak_bit_generator = false;
    }
        ≡ g =
      ground arith in
    rw e (ground arith)

ends_odd :
    (bs : List Bit) (g : FluxPulseGenerator)
    → IsPlain g
    → (run feed g (bs ++ (true ∷ []))).0.shift_word % 2 ≡ 1
ends_odd bs g h =
    let g' = (run feed g bs).0 in
    let s = feed-Steps g' true (run-IsPlain bs g h) in
    rw (run-append feed g bs (true ∷ [])) (unfold run in omega (arith, s.shifted))

-- Five cells after -5 cells: no time is left.
five_late : (c : ℕ) → u32 (u32 (u32 (u32 (u32 (u32 (c * 4294967291) + c) + c) + c) + c) + c) ≡ 0 * c
five_late c = omega arith

start_pulses :
    (c : ℕ) (bs : List Bit)
    → pulses (u32 (c * 4294967291)) c (five_zeros ++ bs) ≡ pulses (0 * c) c bs
unfolding pulses
start_pulses c bs = ap (λ v. pulses v c bs) (five_late c)

-- All that a plain generator writes for some cells and five zeros.
all_pulses : (c : ℕ) (bs : List Bit) → (run feed (new c) (bs ++ five_zeros)).1 ≡ pulses (0 * c) c bs
unfolding pulses new
all_pulses c bs =
    run-pulses (bs ++ five_zeros) (new c) (new-IsPlain c)
    ∙ ap (λ l. pulses (new c).pulse_accumulator (new c).cell_duration l)
        (take-append_eq (length (bs ++ five_zeros)) (five_zeros ++ bs) five_zeros
          (unfold new in omega (arith, length-append bs five_zeros)))
    ∙ (unfold new in start_pulses c bs)

-- What a fresh generator writes for some cells, the last a flux reversal, with the flush behind it.
unfoldable pub written : ℕ → List Bit → List ℕ
written c cells = let r = run feed (new c) cells in r.1 ++ (flush r.0).1

-- A generator with no precompensation and no special mode writes cells that end in a flux reversal
-- so that the reader at the same cell duration returns exactly these cells, where all of them last
-- less than 2 ^ 31 ticks.
pub to_cells-written :
    (c : ℕ) (bs : List Bit)
    → 0 < c
    → (length bs + 3) * c < 2147483648
    → to_cells c (written c (bs ++ (true ∷ []))) ≡ some (bs ++ (true ∷ []))
unfolding written
to_cells-written c bs hc h =
    let cells = bs ++ (true ∷ []) in
    let p = new-IsPlain c in
    let g = (run feed (new c) cells).0 in
    let e : (run feed (new c) cells).1 ++ (flush g).1 ≡ pulses (0 * c) c cells =
      rw (flush-IsPlain g (run-IsPlain cells (new c) p) (ends_odd bs (new c) p))
        (sym (ap (λ r. r.1) (run-append feed (new c) cells five_zeros)) ∙ all_pulses c cells) in
    rw e (
      to_cells-pulses cells 0 c hc
        (omega (arith, ap (λ (t : ℕ). t * c) (length-append bs (true ∷ []))))
      ∙ ap some (zeros-kept 0 bs))
