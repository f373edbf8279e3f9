-- ===== src/Gcr/Quiet.antt =====
-- util/src/gcr.rs: cells without a sync mark, whatever they are.
use mathlib.Core.List.{map-append}
use stm32_usbfloppy_tracer.Gcr.Cells.{
  calm, feed_inner, feed_last, ones_after, quiet, quiet_step, within,
}
use stm32_usbfloppy_tracer.Gcr.{GcrDecoder, byte, collect, decode_word, detect_sync, feed}
use stm32_usbfloppy_tracer.Base.{
  ==_iff, Bit, Bool-cases, List, [], ap, arith, bit_value, false, inl, inr, leb, length, lt→leb,
  map, refl, run, run-cons, some, sym, true, u64, u8, ℕ, ◌*◌, ◌++◌, ◌+◌, ◌<◌, ◌==◌, ◌∙◌, ◌∷◌, ◌≡◌,
  ◌⊎◌,
}

quiet_nil : {o o' : ℕ} → quiet o [] ≡ some o' → o ≡ o'
unfolding quiet
quiet_nil h = cc h

detect_sync_quiet :
    (d : GcrDecoder) (b : Bit)
    → (b ≡ true) ⊎ (d.ones_count < 10)
    → detect_sync d b ≡ (record d { ones_count = ones_after d.ones_count b }, [])
unfolding detect_sync
detect_sync_quiet d true h = refl
detect_sync_quiet d false (inl h) = absurd (cc h)
detect_sync_quiet d false (inr h) = rw (lt→leb 10 d.ones_count h) refl

-- A step that finds no sync brings out a byte at most.
step_quiet :
    (d : GcrDecoder) (b : Bit)
    → (b ≡ true) ⊎ (d.ones_count < 10)
    → (js : List ℕ) × ((feed d b).1 ≡ map byte js)
      × ((feed d b).0.ones_count ≡ ones_after d.ones_count b)
unfolding feed collect
step_quiet d b h = elim (Bool-cases d.in_sync) [
  | inr e ↦ rw (detect_sync_quiet d b h) (rw e ([], refl, refl))
  | inl e ↦ elim (Bool-cases (leb 10 (u8 (d.shift_count + 1)))) [
    | inl q ↦
        rw (detect_sync_quiet d b h)
          (rw e (rw q (decode_word (u64 (d.gcr_word_buffer * 2) + bit_value b) ∷ [], refl, refl)))
    | inr q ↦ rw (detect_sync_quiet d b h) (rw e (rw q ([], refl, refl)))
  ]
]

-- Without a sync mark only bytes come out.
pub run-quiet :
    (bs : List Bit) (d : GcrDecoder) (o : ℕ)
    → quiet d.ones_count bs ≡ some o
    → (js : List ℕ) × ((run feed d bs).1 ≡ map byte js) × ((run feed d bs).0.ones_count ≡ o)
unfolding run
run-quiet [] d o h = ([], refl, quiet_nil h)
run-quiet (b ∷ bs) d o h =
    let (calm, later) = quiet_step d.ones_count o b bs h in
    let (js, e, n) = step_quiet d b calm in
    let (ks, e', n') = run-quiet bs (feed d b).0 o (rw n later) in
    (js ++ ks, rw (e, e') (sym (map-append byte js ks)), n')

-- In sync, one byte for ten cells.
pub run-within :
    (bs : List Bit) (y i o o' : ℕ)
    → i < 10
    → quiet o bs ≡ some o'
    → (js : List ℕ) × (y' : ℕ) × (i' : ℕ) × (i' < 10)
      × (10 * length js + i' ≡ i + length bs)
      × (run feed (within y i o) bs ≡ (within y' i' o', map byte js))
unfolding run
run-within [] y i o o' hi h = ([], y, i, hi, omega arith, rw (quiet_nil h) (unfold run in refl))
run-within (b ∷ bs) y i o o' hi h = elim (Bool-cases (i == 9)) [
  | inl e ↦
      let (calm, later) = quiet_step o o' b bs h in
      let (js, y', i', lt, n, r) =
        run-within bs (y * 2 + bit_value b) 0 (ones_after o b) o' (omega arith) later in
      let nine : i ≡ 9 = (==_iff i 9).0 e in
      (
        decode_word (u64 (y * 2 + bit_value b)) ∷ js,
        y',
        i',
        lt,
        omega (arith, n, nine),
        ap (λ k. run feed (within y k o) (b ∷ bs)) nine
            ∙ run-cons feed bs (feed_last y o b calm)
            ∙ rw r refl,
      )
  | inr e ↦
      let (calm, later) = quiet_step o o' b bs h in
      let (js, y', i', lt, n, r) =
        run-within bs (y * 2 + bit_value b) (i + 1) (ones_after o b) o' (ground (arith, e)) later in
      (
        js,
        y',
        i',
        lt,
        omega (arith, n),
        run-cons feed bs (feed_inner y i o b calm (ground (arith, e))) ∙ rw r refl,
      )
]
