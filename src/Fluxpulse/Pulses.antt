-- ===== src/Fluxpulse/Pulses.antt =====
-- util/src/fluxpulse.rs: what the generator writes with no precompensation and no special mode.
use stm32_usbfloppy_tracer.Base.{
  Bit, IsU32, List, [], ap, arith, bit_value, bit_value-lt, false, has_bit, if◌then◌else◌, length,
  refl, run, suc, sym, take, true, u32, ℕ, ◌%◌, ◌*◌, ◌++◌, ◌+◌, ◌/◌, ◌==◌, ◌∙◌, ◌∷◌, ◌≡◌,
}
use stm32_usbfloppy_tracer.Fluxpulse.{FluxPulseGenerator, feed}

-- One pulse for each flux reversal, as long as the cells since the one before; `held` is the time
-- that has passed.
unfoldable pub pulses : ℕ → ℕ → List Bit → List ℕ
pulses held d [] = []
pulses held d (true ∷ bs) = u32 (held + d) ∷ pulses 0 d bs
pulses held d (false ∷ bs) = pulses (u32 (held + d)) d bs

-- The window: the five cells that were fed last, oldest first.
abbrev pub window_of : ℕ → List Bit
window_of w = has_bit 16 w ∷ has_bit 8 w ∷ has_bit 4 w ∷ has_bit 2 w ∷ has_bit 1 w ∷ []

-- The generator in its plain mode.
pub record IsPlain (g : FluxPulseGenerator) : Type 0 where
  pub normal : g.special_generator_state ≡ false
  pub no_compensation : g.precompensation ≡ 0
  pub no_weak : g.enable_weak_bit_generator ≡ false
  pub no_non_flux_reversal : g.enable_non_flux_reversal_generator ≡ false
  pub accumulator : IsU32 g.pulse_accumulator
  pub word : IsU32 g.shift_word

-- What one cell does: the oldest cell of the window leaves it, and its reversal is written.
pub record Steps (g : FluxPulseGenerator) (b : Bit) (r : FluxPulseGenerator × List ℕ) : Type 0 where
  pub plain : IsPlain r.0
  pub duration : r.0.cell_duration ≡ g.cell_duration
  pub written :
      r.1
      ≡ (if has_bit 16 g.shift_word then u32 (g.pulse_accumulator + g.cell_duration) ∷ [] else [])
  pub held :
      r.0.pulse_accumulator
      ≡ (if has_bit 16 g.shift_word then 0 else u32 (g.pulse_accumulator + g.cell_duration))
  pub shifted : r.0.shift_word ≡ u32 (g.shift_word * 2) + bit_value b

pub feed-Steps : (g : FluxPulseGenerator) (b : Bit) → IsPlain g → Steps g b (feed g b)
unfolding feed
feed-Steps g b h = ground arith

pulses-cons :
    (held d : ℕ) (b : Bit) (bs : List Bit)
    → pulses held d (b ∷ bs)
      ≡ (if b then u32 (held + d) ∷ [] else []) ++ pulses (if b then 0 else u32 (held + d)) d bs
unfolding pulses
pulses-cons held d true bs = refl
pulses-cons held d false bs = refl

bit_of : (b : Bit) (v : ℕ) → v ≡ bit_value b → (v == 1) ≡ b
bit_of true v h = ground arith
bit_of false v h = ground arith

-- The window after one more cell.
window_of-shift :
    (w : ℕ) (b : Bit) (bs : List Bit)
    → has_bit 16 w ∷ window_of (u32 (w * 2) + bit_value b) ++ bs ≡ window_of w ++ (b ∷ bs)
window_of-shift w b bs =
    let up = λ (p : ℕ) (q : ℕ) (e : p ≡ q). ap (λ (v : ℕ). v == 1) e in
    rw (
      up ((u32 (w * 2) + bit_value b) / 16 % 2) (w / 8 % 2) (omega (arith, bit_value-lt b)),
      up ((u32 (w * 2) + bit_value b) / 8 % 2) (w / 4 % 2) (omega (arith, bit_value-lt b)),
      up ((u32 (w * 2) + bit_value b) / 4 % 2) (w / 2 % 2) (omega (arith, bit_value-lt b)),
      up ((u32 (w * 2) + bit_value b) / 2 % 2) (w / 1 % 2) (omega (arith, bit_value-lt b)),
      bit_of b ((u32 (w * 2) + bit_value b) / 1 % 2) (omega (arith, bit_value-lt b)),
    )

pub run-IsPlain : (bs : List Bit) (g : FluxPulseGenerator) → IsPlain g → IsPlain (run feed g bs).0
unfolding run
run-IsPlain [] g h = h
run-IsPlain (b ∷ bs) g h = run-IsPlain bs (feed g b).0 (feed-Steps g b h).plain

-- With no precompensation and no special mode, the generator writes exactly the pulses of the cells
-- that leave its window, five cells late.
pub run-pulses :
    (bs : List Bit) (g : FluxPulseGenerator)
    → IsPlain g
    → (run feed g bs).1
      ≡ pulses g.pulse_accumulator g.cell_duration (take (length bs) (window_of g.shift_word ++ bs))
unfolding run
run-pulses [] g h = unfold pulses in refl
run-pulses (b ∷ bs) g h =
    let s = feed-Steps g b h in
    let l = window_of (u32 (g.shift_word * 2) + bit_value b) ++ bs in
    rw (run-pulses bs (feed g b).0 s.plain) (rw (s.written, s.held, s.duration, s.shifted))
    ∙ sym (
        pulses-cons g.pulse_accumulator g.cell_duration (has_bit 16 g.shift_word)
          (take (length bs) l))
    ∙ ap (λ l. pulses g.pulse_accumulator g.cell_duration (take (suc (length bs)) l))
        (window_of-shift g.shift_word b bs)
