-- ===== src/TrackVerifier/Correlation.antt =====
-- firmware/src/track_raw.rs, `verify_track`: where the correlation matches.
use stm32_usbfloppy_tracer.TrackWriter.{no_cross_correlation}
use stm32_usbfloppy_tracer.TrackVerifier.{
  all_similar, compare_window_size, correlate, failed, returned,
}
use stm32_usbfloppy_tracer.Base.{
  Bool, Bool-cases, List, ap, arith, drop, drop-drop, false, inl, inr, length, length-drop, ltb,
  ltb→ge, ltb→lt, not, passes_below, refl, subst, suc, take, true, zero, ℕ, ◌+◌, ◌<◌, ◌∙◌, ◌≡◌, ◌≤◌,
  ◌⊎◌,
}

-- Whether what was read matches the ground truth from a position on.
abbrev pub matches : ℕ → List ℕ → List ℕ → ℕ → Bool
matches threshold truth read i =
    all_similar threshold (take compare_window_size (drop i read)) truth

abbrev pub none_before : ℕ → List ℕ → List ℕ → ℕ → Bool
none_before threshold truth read n = passes_below n (λ i. not (matches threshold truth read i))

none_before-suc :
    (threshold : ℕ) (truth read : List ℕ) (p : ℕ)
    → none_before threshold truth read p ≡ true
    → matches threshold truth read p ≡ false
    → none_before threshold truth read (suc p) ≡ true
unfolding passes_below
none_before-suc threshold truth read p h other = rw (h, other) refl

one_more : (p : ℕ) → p + 1 ≡ suc p
one_more p = omega arith

correlate_from :
    (threshold left p : ℕ) (truth read : List ℕ)
    → p + left ≡ 200
    → p ≤ 181
    → length read ≡ 200
    → none_before threshold truth read p ≡ true
    → ((correlate left p threshold truth (drop p read) ≡ failed no_cross_correlation)
        × (none_before threshold truth read 181 ≡ true))
      ⊎ ((i : ℕ) × (i < 181)
          × (correlate left p threshold truth (drop p read) ≡ returned (i, drop i read))
          × (matches threshold truth read i ≡ true)
          × (none_before threshold truth read i ≡ true))
unfolding correlate
correlate_from threshold zero p truth read e le hl none_yet = absurd (omega arith)
correlate_from threshold (suc left) p truth read e le hl none_yet =
    let l = length-drop p read in
    elim (Bool-cases (ltb (length (drop p read)) 20)) [
      | inl short ↦
          let last : p ≡ 181 = omega (arith, l, hl, ltb→lt (length (drop p read)) 20 short) in
          inl (rw short refl, subst (λ n. none_before threshold truth read n ≡ true) last none_yet)
      | inr long ↦ elim (Bool-cases (matches threshold truth read p)) [
        | inl found ↦ inr (
          p,
          omega (arith, l, hl, ltb→ge (length (drop p read)) 20 long),
          rw (long, found) refl,
          found,
          none_yet,
        )
        | inr other ↦
            let next : drop 1 (drop p read) ≡ drop (suc p) read =
              drop-drop p 1 read ∙ ap (λ n. drop n read) (one_more p) in
            let room : suc p ≤ 181 = omega (arith, l, hl, ltb→ge (length (drop p read)) 20 long) in
            rw (long, other)
              (rw next (
                correlate_from threshold left (suc p) truth read (omega arith) room hl
                  (none_before-suc threshold truth read p none_yet other)))
      ]
    ]

-- Of 200 durations that were read, the correlation returns the first position, up to 180, from which
-- 20 of them match the ground truth, with what was read from there on. If no position matches, it
-- is an error, and it never panics.
pub correlate_lem :
    (threshold : ℕ) (truth read : List ℕ)
    → length read ≡ 200
    → ((correlate 200 0 threshold truth read ≡ failed no_cross_correlation)
        × (none_before threshold truth read 181 ≡ true))
      ⊎ ((i : ℕ) × (i < 181)
          × (correlate 200 0 threshold truth read ≡ returned (i, drop i read))
          × (matches threshold truth read i ≡ true)
          × (none_before threshold truth read i ≡ true))
correlate_lem threshold truth read h =
    correlate_from threshold 200 0 truth read refl (omega arith) h (unfold passes_below in refl)
