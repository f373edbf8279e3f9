-- ===== src/Mfm/Calm.antt =====
-- util/src/mfm.rs: the decoder on cells that complete no sync pattern.
use stm32_usbfloppy_tracer.Mfm.{MfmDecoder, MfmWord, collect, feed}
use stm32_usbfloppy_tracer.Mfm.Window.{&&_parts, magic, no_sync, slide}
use stm32_usbfloppy_tracer.Mfm.Decode.{
  feed_clock, feed_data, feed_last, not-true, seen, shift_in, synced, zeros_after,
}
use mathlib.Core.List.{map-append}
use stm32_usbfloppy_tracer.Base.{
  ==_iff, Bit, Bool-cases, List, [], arith, bit_value, bits_value, false, inl, inr, length,
  length-append, map, not, refl, run, run-cons, true, u64, u8, ℕ, ◌%◌, ◌*◌, ◌++◌, ◌+◌, ◌<◌, ◌==◌,
  ◌^◌, ◌∙◌, ◌∷◌, ◌≡◌,
}

-- Before the first sync mark: `w` is all that the sync register was given, `z` the count of zeros.
abbrev pub unsynced : ℕ → ℕ → MfmDecoder
unsynced w z = record {
  sync_buffer = u64 w;
  byte_buffer = 0;
  shift_count = 0;
  in_sync = false;
  zero_count = z;
  sync_detector_active = true;
}

feed-unsynced :
    (w z : ℕ) (c : Bit)
    → (slide (w % 2 ^ 48) c == magic) ≡ false
    → feed (unsynced w z) c ≡ (unsynced (w * 2 + bit_value c) (zeros_after z c), [])
unfolding feed collect
feed-unsynced w z c calm = ground (arith, calm, shift_in w c, seen w c)

-- The window behind a cell.
slid : (w : ℕ) (c : Bit) → slide (w % 2 ^ 48) c ≡ (w * 2 + bit_value c) % 2 ^ 48
slid w c = omega arith

calm_first :
    (w : ℕ) (c : Bit) (cs : List Bit)
    → no_sync (w % 2 ^ 48) (c ∷ cs) ≡ true
    → ((slide (w % 2 ^ 48) c == magic) ≡ false)
      × (no_sync ((w * 2 + bit_value c) % 2 ^ 48) cs ≡ true)
unfolding no_sync
calm_first w c cs h =
    let (first, rest) = &&_parts (not (slide (w % 2 ^ 48) c == magic)) _ h in
    (not-true _ first, rw (slid w c) at rest)

-- Before the first sync mark nothing comes out.
pub run-unsynced :
    (cs : List Bit) (w z : ℕ)
    → no_sync (w % 2 ^ 48) cs ≡ true
    → (z' : ℕ) × (run feed (unsynced w z) cs ≡ (unsynced (bits_value w cs) z', []))
unfolding bits_value
run-unsynced [] w z h = (z, unfold run in refl)
run-unsynced (c ∷ cs) w z h =
    let (first, rest) = calm_first w c cs h in
    let w' = w * 2 + bit_value c in
    let (z', e) = run-unsynced cs w' (zeros_after z c) rest in
    (z', run-cons feed cs (feed-unsynced w z c first) ∙ rw e refl)

-- In sync the cells become bytes, one for every sixteen.
feed_within :
    (w y i z : ℕ) (c : Bit)
    → i < 16
    → (slide (w % 2 ^ 48) c == magic) ≡ false
    → (js : List ℕ) × (y' : ℕ) × (i' : ℕ) × (feed (synced w y i z) c
        ≡ (synced (w * 2 + bit_value c) y' i' (zeros_after z c), map MfmWord.enc js))
      × (i' < 16)
      × (16 * length js + i' ≡ i + 1)
unfolding collect
feed_within w y i z c h calm =
    let w' = w * 2 + bit_value c in
    elim (Bool-cases (i == 15)) [
      | inl e ↦ (
        u8 (y * 2 + bit_value c) ∷ [],
        y * 2 + bit_value c,
        0,
        feed_last w y i z c calm ((==_iff i 15).0 e),
        omega arith,
        ground (arith, e),
      )
      | inr e ↦ elim (Bool-cases (i % 2 == 0)) [
        | inl q ↦ (
          [],
          y,
          i + 1,
          feed_clock w y i z c calm ((==_iff (i % 2) 0).0 q) (ground (arith, e)),
          ground (arith, e),
          omega arith,
        )
        | inr q ↦ (
          [],
          y * 2 + bit_value c,
          i + 1,
          feed_data w y i z c calm (ground (arith, q)) (ground (arith, e)),
          ground (arith, e),
          omega arith,
        )
      ]
    ]

pub run_within :
    (cs : List Bit) (w y i z : ℕ)
    → i < 16
    → no_sync (w % 2 ^ 48) cs ≡ true
    → (js : List ℕ) × (y' : ℕ) × (i' : ℕ) × (z' : ℕ) × (run feed (synced w y i z) cs
        ≡ (synced (bits_value w cs) y' i' z', map MfmWord.enc js))
      × (i' < 16)
      × (16 * length js + i' ≡ i + length cs)
unfolding bits_value
run_within [] w y i z h calm = ([], y, i, z, unfold run in refl, h, omega arith)
run_within (c ∷ cs) w y i z h calm =
    let (first, rest) = calm_first w c cs calm in
    let w' = w * 2 + bit_value c in
    let z₁ = zeros_after z c in
    let (js, y₁, i₁, e, h₁, n) = feed_within w y i z c h first in
    let (ks, y', i', z', e', h', n') = run_within cs w' y₁ i₁ z₁ h₁ rest in
    (
      js ++ ks,
      y',
      i',
      z',
      run-cons feed cs e ∙ rw (e', map-append MfmWord.enc js ks) refl,
      h',
      omega (arith, n, n', length-append js ks),
    )
