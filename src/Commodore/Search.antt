-- ===== src/Commodore/Search.antt =====
-- tool/src/track_parser/c64.rs: the search for sectors ends, since every round uses up an item.
use stm32_usbfloppy_tracer.Gcr.{GcrDecoderResult, byte, sync}
use stm32_usbfloppy_tracer.Sectors.{CollectedSector}
use stm32_usbfloppy_tracer.Commodore.Parser.{
  Ended, Search, all_read, block, by_error, by_panic, data_block, header_block, read_bytes,
  reduce_xor, search, search_step, sector_size, tick,
}
use stm32_usbfloppy_tracer.Base.{
  Bool-cases, List, NoPanic, NoPanic-expect_some, NoPanic-if, NoPanic-then, Option, Outcome,
  Outcome-cases, [], arith, done, expect_some, fail, get_elem?, inl, inr, length, ltb, panic, refl,
  some, suc, zero, ℕ, ◌&&◌, ◌+◌, ◌==◌, ◌>>=◌, ◌∷◌, ◌≡◌, ◌≢◌, ◌≤◌,
}

-- What an outcome leaves to read is no longer than n.
unfoldable IsWithin : ℕ → Outcome (Search × List GcrDecoderResult) → Type 0
IsWithin n (done next) = length next.1 ≤ n
IsWithin n fail = Unit
IsWithin n panic = Unit

length-read_bytes : (n : ℕ) (rs : List GcrDecoderResult) → length (read_bytes n rs).1 ≤ length rs
unfolding read_bytes
length-read_bytes zero rs = omega arith
length-read_bytes (suc n) [] = omega arith
length-read_bytes (suc n) (sync ∷ rs) = omega arith
length-read_bytes (suc n) (byte b ∷ rs) = omega (arith, length-read_bytes n rs)

with_rest :
    (n : ℕ) (o : Outcome Search) (rs : List GcrDecoderResult)
    → length rs ≤ n
    → IsWithin n (o >>= λ st. done (st, rs))
unfolding IsWithin
with_rest n (done st) rs h = h
with_rest n fail rs h = tt
with_rest n panic rs h = tt

block-IsWithin :
    (e : Option ℕ) (st : Search) (rs : List GcrDecoderResult) → IsWithin (length rs) (block e st rs)
unfolding block
block-IsWithin e st [] = unfold IsWithin in omega arith
block-IsWithin e st (sync ∷ rs) = unfold IsWithin in omega arith
block-IsWithin e st (byte mark ∷ rs) = elim (Bool-cases (mark == 0x08)) [
  | inl q ↦ rw q (
      with_rest (suc (length rs)) (header_block e st (read_bytes 5 rs).0) (read_bytes 5 rs).1
        (omega (arith, length-read_bytes 5 rs)))
  | inr q ↦ elim (Bool-cases ((mark == 0x07) && ltb 0 st.awaiting_data_block)) [
    | inl p ↦
        rw (q, p)
          (with_rest (suc (length rs)) (data_block st (read_bytes 257 rs).0) (read_bytes 257 rs).1
            (omega (arith, length-read_bytes 257 rs)))
    | inr p ↦ rw (q, p) (unfold IsWithin in omega arith)
  ]
]

search_step-IsWithin :
    (e : Option ℕ) (st : Search) (r : GcrDecoderResult) (rs : List GcrDecoderResult)
    → IsWithin (length rs) (search_step e st r rs)
unfolding search_step
search_step-IsWithin e st sync rs = block-IsWithin e (tick st) rs
search_step-IsWithin e st (byte b) rs = unfold IsWithin in omega arith

done-IsWithin :
    (n : ℕ) {o : Outcome (Search × List GcrDecoderResult)} {next : Search × List GcrDecoderResult}
    → o ≡ done next
    → IsWithin n o
    → length next.1 ≤ n
done-IsWithin n q h = unfold IsWithin in rw q at h

header_block-NoPanic :
    (e : Option ℕ) (st : Search) (header : List ℕ) → NoPanic (header_block e st header)
unfolding header_block
header_block-NoPanic e st header =
    NoPanic-then (expect_some (reduce_xor header)) _ (NoPanic-expect_some (reduce_xor header)) (λ c.
      NoPanic-if ((length header == 5) && (c == 0)) _ _
        (NoPanic-then (expect_some st.found) _ (NoPanic-expect_some st.found) (λ got.
          NoPanic-then (expect_some (get_elem? header 1)) _
            (NoPanic-expect_some (get_elem? header 1))
            (λ i.
              NoPanic-then (expect_some (get_elem? header 2)) _
                (NoPanic-expect_some (get_elem? header 2))
                (λ t.
                  NoPanic-then (expect_some e) _ (NoPanic-expect_some e)
                    (λ x. NoPanic-if (t == x) _ _ tt tt)))))
        tt)

data_block-NoPanic : (st : Search) (bs : List ℕ) → NoPanic (data_block st bs)
unfolding data_block
data_block-NoPanic st bs =
    let index = get_elem? st.sector_header 1 in
    NoPanic-then (expect_some (reduce_xor bs)) _ (NoPanic-expect_some (reduce_xor bs)) (λ c.
      NoPanic-if (c == 0) _ _
        (NoPanic-then (expect_some st.found) _ (NoPanic-expect_some st.found)
          (λ got. NoPanic-then (expect_some index) _ (NoPanic-expect_some index) (λ i. tt)))
        (NoPanic-then (expect_some index) _ (NoPanic-expect_some index) (λ i. tt)))

search_step-NoPanic :
    (e : Option ℕ) (st : Search) (r : GcrDecoderResult) (rs : List GcrDecoderResult)
    → NoPanic (search_step e st r rs)
unfolding search_step block
search_step-NoPanic e st (byte b) rs = tt
search_step-NoPanic e st sync [] = tt
search_step-NoPanic e st sync (sync ∷ rs) = tt
search_step-NoPanic e st sync (byte mark ∷ rs) =
    let head = (read_bytes 5 rs).0 in
    let body = (read_bytes (sector_size + 1) rs).0 in
    NoPanic-if (mark == 0x08) _ _
      (NoPanic-then (header_block e (tick st) head) _ (header_block-NoPanic e (tick st) head)
        (λ st'. tt))
      (NoPanic-if ((mark == 0x07) && ltb 0 (tick st).awaiting_data_block) _ _
        (NoPanic-then (data_block (tick st) body) _ (data_block-NoPanic (tick st) body) (λ st'. tt))
        tt)

no_panic : {A : Type 0} {o : Outcome A} → o ≡ panic → ¬ NoPanic o
no_panic q h = rw q at h

-- Fuel for every item makes the search end, and not by a panic.
pub search_ends :
    (fuel : ℕ) (e : Option ℕ) (st : Search) (rs : List GcrDecoderResult)
    → length rs ≤ fuel
    → (r : Option (List CollectedSector) × Ended) × ((search fuel e st rs ≡ some r)
        × (r.1 ≢ by_panic))
unfolding search
search_ends fuel e st [] h = ((st.found, all_read), (refl, λ q. cc))
search_ends zero e st (r ∷ rs) h = absurd (omega arith)
search_ends (suc fuel) e st (r ∷ rs) h = elim (Outcome-cases (search_step e st r rs)) [
  | inl (next, q) ↦
      rw (search, q)
        (search_ends fuel e next.0 next.1
          (omega (arith, done-IsWithin (length rs) q (search_step-IsWithin e st r rs))))
  | inr (inl q) ↦ rw (search, q) ((st.found, by_error), (refl, λ k. cc))
  | inr (inr q) ↦ absurd (no_panic q (search_step-NoPanic e st r rs))
]

-- More fuel changes nothing.
pub search_fuel :
    (f g : ℕ) (e : Option ℕ) (st : Search) (rs : List GcrDecoderResult)
    → length rs ≤ f
    → length rs ≤ g
    → search f e st rs ≡ search g e st rs
unfolding search
search_fuel f g e st [] hf hg = refl
search_fuel zero g e st (r ∷ rs) hf hg = absurd (omega arith)
search_fuel (suc f) zero e st (r ∷ rs) hf hg = absurd (omega arith)
search_fuel (suc f) (suc g) e st (r ∷ rs) hf hg = elim (Outcome-cases (search_step e st r rs)) [
  | inl (next, q) ↦
      let short = done-IsWithin (length rs) q (search_step-IsWithin e st r rs) in
      rw (search, q) (search_fuel f g e next.0 next.1 (omega (arith, short)) (omega (arith, short)))
  | inr (inl q) ↦ rw (search, q) refl
  | inr (inr q) ↦ rw (search, q) refl
]

-- The search with fuel for every item.
unfoldable pub search_all :
    Option ℕ → Search → List GcrDecoderResult → Option (Option (List CollectedSector) × Ended)
search_all e st rs = search (length rs) e st rs

-- A round goes on with what it leaves.
pub search_all_step :
    (e : Option ℕ) (st st' : Search) (r : GcrDecoderResult) (rs rest : List GcrDecoderResult)
    → search_step e st r rs ≡ done (st', rest)
    → search_all e st (r ∷ rs) ≡ search_all e st' rest
unfolding search_all search
search_all_step e st st' r rs rest q =
    let short = done-IsWithin (length rs) q (search_step-IsWithin e st r rs) in
    rw (search, q) (search_fuel (length rs) (length rest) e st' rest short (omega arith))
