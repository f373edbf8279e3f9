-- ===== src/FluxReader/Durations.antt =====
-- firmware/src/flux_reader.rs, `dma_swapped_buffer_callback`: the durations tell the captured counts,
-- also where the counter has wrapped.
use stm32_usbfloppy_tracer.FluxReader.{FluxReader, dma_swapped_buffer_callback, enqueue_durations}
use stm32_usbfloppy_tracer.Base.{
  All, Bool-cases, IsU32, List, [], ap, append-nil, append_assoc, arith, done, inl, inr, length,
  length-append, ltb, ltb→lt, lt→ltb, panic, refl, sub32, u32, ℕ, ◌++◌, ◌+◌, ◌<◌, ◌∙◌, ◌∷◌, ◌≡◌,
  ◌≤◌,
}

-- The counts that durations lead to, from a count on.
unfoldable pub counts : ℕ → List ℕ → List ℕ
counts last [] = []
counts last (d ∷ ds) = u32 (last + d) ∷ counts (u32 (last + d)) ds

unfoldable pub durations : ℕ → List ℕ → List ℕ
durations last [] = []
durations last (i ∷ is) = sub32 i last ∷ durations i is

-- The count behind all of them.
unfoldable pub last_count : ℕ → List ℕ → ℕ
last_count last [] = last
last_count last (i ∷ is) = last_count i is

counts-durations :
    (last : ℕ) (is : List ℕ) → IsU32 last → All IsU32 is → counts last (durations last is) ≡ is
unfolding counts durations
counts-durations last [] h k = refl
counts-durations last (i ∷ is) h (k, ks) =
    let back : u32 (last + sub32 i last) ≡ i = omega arith in
    rw back (ap (λ l. i ∷ l) (counts-durations i is k ks))

enqueue_durations-done :
    (capacity : ℕ) (is : List ℕ) (s : FluxReader)
    → length s.prod + length is ≤ capacity
    → enqueue_durations capacity is s
      ≡ done (record s {
        prod = s.prod ++ durations s.last_pulse_cnt is;
        last_pulse_cnt = last_count s.last_pulse_cnt is;
      })
unfolding enqueue_durations durations last_count
enqueue_durations-done capacity [] s room = simp append-nil
enqueue_durations-done capacity (i ∷ is) s room =
    let d = sub32 i s.last_pulse_cnt in
    let s' = record s { prod = s.prod ++ d ∷ []; last_pulse_cnt = i } in
    let one = length-append s.prod (d ∷ []) in
    rw (lt→ltb (length s.prod) capacity (omega arith))
      (enqueue_durations-done capacity is s' (omega (arith, one)) ∙ simp append_assoc)

enqueue_durations-panic :
    (capacity : ℕ) (is : List ℕ) (s : FluxReader)
    → length s.prod ≤ capacity
    → capacity < length s.prod + length is
    → enqueue_durations capacity is s ≡ panic
unfolding enqueue_durations
enqueue_durations-panic capacity [] s low full = absurd (omega arith)
enqueue_durations-panic capacity (i ∷ is) s low full =
    let d = sub32 i s.last_pulse_cnt in
    let s' = record s { prod = s.prod ++ d ∷ []; last_pulse_cnt = i } in
    let one = length-append s.prod (d ∷ []) in
    elim (Bool-cases (ltb (length s.prod) capacity)) [
      | inl e ↦ rw e (
          enqueue_durations-panic capacity is s' (omega (arith, ltb→lt _ _ e, one))
            (omega (arith, one)))
      | inr e ↦ rw e refl
    ]

-- The queue has got durations that lead from the last count to the counts in the back buffer, of which
-- the last is kept.
abbrev pub IsRecorded : FluxReader → FluxReader → Type 0
IsRecorded s s' =
    (ds : List ℕ) × ((s'.prod ≡ s.prod ++ ds)
      × ((counts s.last_pulse_cnt ds ≡ s.back_buffer)
          × (s'.last_pulse_cnt ≡ last_count s.last_pulse_cnt s.back_buffer)))

-- dma_swapped_buffer_callback, on a back buffer and a last count of 32-bit counts and a queue within
-- its capacity: with room for a duration for each count it gives the queue durations that lead, modulo
-- 2 ^ 32, from the last count to exactly these counts in turn, and keeps the last of them; without
-- this room it panics.
pub callback-IsRecorded :
    (capacity : ℕ) (s : FluxReader)
    → IsU32 s.last_pulse_cnt
    → All IsU32 s.back_buffer
    → length s.prod ≤ capacity
    → (length s.prod + length s.back_buffer ≤ capacity
        → (s' : FluxReader) × ((dma_swapped_buffer_callback capacity s ≡ done s')
            × IsRecorded s s'))
      × (capacity < length s.prod + length s.back_buffer
          → dma_swapped_buffer_callback capacity s ≡ panic)
unfolding dma_swapped_buffer_callback
callback-IsRecorded capacity s word words low =
    let swapped = record s { current_buffer = s.back_buffer; back_buffer = s.current_buffer } in
    (
      λ room. (
        _,
        (
          enqueue_durations-done capacity s.back_buffer swapped room,
          (
            durations s.last_pulse_cnt s.back_buffer,
            (refl, (counts-durations s.last_pulse_cnt s.back_buffer word words, refl)),
          ),
        ),
      ),
      λ full. enqueue_durations-panic capacity s.back_buffer swapped low full,
    )
