-- ===== src/TrackWriter/Pacing.antt =====
-- firmware/src/track_raw.rs, `write_track`: with a DMA interrupt at every yield, the queue never runs
-- low and the waits for room end.
use stm32_usbfloppy_tracer.Bitstream.RoundTrip.{length-to_bit_stream}
use stm32_usbfloppy_tracer.Fluxpulse
use stm32_usbfloppy_tracer.Fluxpulse.{FluxPulseGenerator}
use stm32_usbfloppy_tracer.FluxWriter.{dma1_stream6_irq, dma_swapped_buffer_callback}
use stm32_usbfloppy_tracer.FluxWriter.Order.{callback-takes}
use stm32_usbfloppy_tracer.TrackWriter.{Result, err, ok}
use stm32_usbfloppy_tracer.TrackWriter.Writing.{
  Device, Interrupt, Stop, before_byte, dma1_stream6, feed_cells, feed_mfm_raw_iterator_to_writer,
  hand_over, interrupt, interrupts, then_run, wait_for_room,
}
use stm32_usbfloppy_tracer.TrackWriter.Interrupts.{Holds}
use stm32_usbfloppy_tracer.TrackWriter.Feeding.{feed_cells-queued, length-run}
use stm32_usbfloppy_tracer.Bitstream.{to_bit_stream}
use stm32_usbfloppy_tracer.Drive.Stepper.{Wires}
use stm32_usbfloppy_tracer.Base.{
  Bit, Bool, List, [], arith, false, if◌then◌else◌, length, length-append, ltb, ltb→ge, ltb→lt,
  refl, replicate, run, subst, suc, sym, true, zero, ℕ, ◌*◌, ◌+◌, ◌<◌, ◌∷◌, ◌≡◌, ◌≤◌,
}

-- A run comes to its end, with a result that has the property.
abbrev pub Returns : {A : Type 0} → (A → Type 0) → Result Stop A → Type 0
Returns P (ok a) = P a
Returns P (err e) = ⊥

pub Returns-then :
    {A B : Type 0} (P : A → Type 0) (Q : B → Type 0) (r : Result Stop A) (f : A → Result Stop B)
    → Returns P r
    → ((a : A) → P a → Returns Q (f a))
    → Returns Q (then_run r f)
Returns-then P Q (ok a) f h go = go a h
Returns-then P Q (err e) f h go = absurd h

pub Returns-weaken :
    {A : Type 0} (P Q : A → Type 0) (r : Result Stop A)
    → Returns P r
    → ((a : A) → P a → Q a)
    → Returns Q r
Returns-weaken P Q (ok a) h go = go a h
Returns-weaken P Q (err e) h go = absurd h

pub Returns-branch :
    {A : Type 0} (P : A → Type 0) (b : Bool) (x y : Result Stop A)
    → (b ≡ true → Returns P x)
    → (b ≡ false → Returns P y)
    → Returns P (if b then x else y)
Returns-branch P true x y h k = h refl
Returns-branch P false x y h k = k refl

-- Both kinds of statement about one run.
pub Returns-Holds :
    {A : Type 0} (P Q : A → Type 0) (r : Result Stop A)
    → Returns P r
    → Holds Q r
    → Returns (λ a. P a × Q a) r
Returns-Holds P Q (ok a) h k = (h, k)
Returns-Holds P Q (err e) h k = absurd h

pub Returns-ok :
    {A : Type 0} (P : A → Type 0) (r : Result Stop A) → Returns P r → (a : A) × ((r ≡ ok a) × P a)
Returns-ok P (ok a) h = (a, (refl, h))
Returns-ok P (err e) h = absurd h

-- One swap of the DMA unit's buffers.
abbrev pub swap_moment : List Interrupt
swap_moment = dma1_stream6 true false ∷ []

module _ {W : Type 0} where
  -- Between 21 and n pulses wait, and the k swaps that are left make room for m cells.
  abbrev pub IsPaced : ℕ → ℕ → Device W → Type 0
  IsPaced n m d =
      (k : ℕ) × (((d.before_bytes ≡ []) × (d.at_yields ≡ replicate k swap_moment))
        × (((20 < length d.writer.cons) × (length d.writer.cons ≤ n))
            × (length d.writer.cons + m ≤ 16 * k + 70)))

  widened : (n n' m : ℕ) (d : Device W) → n ≤ n' → IsPaced n m d → IsPaced n' m d
  widened n n' m d h (k, (env, ((low, few), room))) =
      (k, (env, ((low, omega (arith, few, h)), room)))

module _ {W : Type 0} (io : Wires W) (capacity : ℕ) (holds : 127 ≤ capacity) where
  wait_for_room-IsPaced :
      (k m : ℕ) (d : Device W)
      → d.before_bytes ≡ []
      → d.at_yields ≡ replicate k swap_moment
      → 20 < length d.writer.cons
      → length d.writer.cons + m ≤ 16 * k + 70
      → Returns (IsPaced 70 m) (wait_for_room io (replicate k swap_moment) d)
  unfolding wait_for_room
  wait_for_room-IsPaced zero m d none_before yields low room =
      Returns-branch (IsPaced 70 m) (ltb 70 (length d.writer.cons)) _ _
        (λ e. absurd (omega (arith, ltb→lt _ _ e)))
        (λ e. (0, ((none_before, yields), ((low, ltb→ge _ _ e), room))))
  wait_for_room-IsPaced (suc k) m d none_before yields low room =
      let d₀ = record d { at_yields = replicate k swap_moment } in
      Returns-branch (IsPaced 70 m) (ltb 70 (length d.writer.cons)) _ _
        (λ e.
          let many = ltb→lt _ _ e in
          let d₁ = hand_over true d₀ (dma_swapped_buffer_callback d.writer) in
          let swap : interrupts io swap_moment d₀ ≡ ok d₁ =
            unfold interrupts interrupt dma1_stream6_irq in refl in
          let fewer = callback-takes d.writer (omega (arith, many)) in
          rw swap (
            wait_for_room-IsPaced k m d₁ none_before refl (omega (arith, fewer, many))
              (omega (arith, fewer, many))))
        (λ e. (suc k, ((none_before, yields), ((low, ltb→ge _ _ e), room))))

  pub feed_cells-IsPaced :
      (g : FluxPulseGenerator) (cells : List Bit) (n m : ℕ) (d : Device W)
      → IsPaced n (length cells + m) d
      → n + length cells ≤ 127
      → Returns (λ r. IsPaced (n + length cells) m r.1) (feed_cells io capacity g cells d)
  feed_cells-IsPaced g cells n m d (k, (env, ((low, few), room))) fits =
      let fs = (run Fluxpulse.feed g cells).1 in
      let bound = length-run g cells in
      let whole = length-append d.writer.cons fs in
      rw (feed_cells-queued io capacity g cells d (omega (arith, few))) (
        k,
        (
          env,
          (
            (omega (arith, whole, low), omega (arith, whole, few, bound)),
            omega (arith, whole, room, bound),
          ),
        ),
      )

  pub feed_bytes-IsPaced :
      (g : FluxPulseGenerator) (bytes : List ℕ) (m : ℕ) (d : Device W)
      → IsPaced 78 (8 * length bytes + m) d
      → Returns (λ r. IsPaced 78 m r.1) (feed_mfm_raw_iterator_to_writer io capacity g bytes d)
  unfolding feed_mfm_raw_iterator_to_writer
  feed_bytes-IsPaced g [] m d (k, (env, (bounds, room))) = (k, (env, (bounds, omega (arith, room))))
  feed_bytes-IsPaced g (b ∷ bytes) m d (k, ((none_before, yields), ((low, few), room))) =
      let bits = to_bit_stream b in
      let eight = length-to_bit_stream b in
      let m' = 8 * length bytes + m in
      let now = length bits + m' in
      let Q : FluxPulseGenerator × Device W → Type 0 = λ r. IsPaced 78 m r.1 in
      let start : before_byte io d.before_bytes d ≡ ok d =
        rw none_before (unfold before_byte in refl) in
      rw start (
        Returns-branch Q (ltb 20 (length d.writer.cons)) _ _
          (λ _.
            Returns-then (IsPaced 70 now) Q (wait_for_room io d.at_yields d) _
              (subst (λ y. Returns (IsPaced 70 now) (wait_for_room io y d)) (sym yields)
                (wait_for_room-IsPaced k now d none_before yields low (omega (arith, room, eight))))
              (λ d₂ paced.
                Returns-then (λ r. IsPaced (70 + length bits) m' r.1) Q
                  (feed_cells io capacity g bits d₂) _
                  (feed_cells-IsPaced g bits 70 m' d₂ paced (omega (arith, eight)))
                  (λ r next.
                    feed_bytes-IsPaced r.0 bytes m r.1
                      (widened (70 + length bits) 78 m' r.1 (omega (arith, eight)) next))))
          (λ e. absurd (omega (arith, low, ltb→ge _ _ e))))
