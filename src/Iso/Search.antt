-- ===== src/Iso/Search.antt =====
-- tool/src/track_parser/iso.rs: the search for sectors ends, since every round uses up a word.
use stm32_usbfloppy_tracer.Mfm.{MfmWord}
use stm32_usbfloppy_tracer.Sectors.{has_index}
use stm32_usbfloppy_tracer.Iso.Tracks.{iso_dam, iso_idam, synced}
use stm32_usbfloppy_tracer.Iso.Parser.{
  Ended, Expected, Round, Search, after_sector, all_found, block, by_error, by_panic, data_block,
  failed, good_data, good_header, header_block, isize_max, or_error, panicked, read_data,
  read_header, search, search_on, search_step, searched, sector_size_of,
}
use stm32_usbfloppy_tracer.Base.{
  Bool, List, Option, [], arith, false, get_elem?, if◌then◌else◌, inl, inr, length, ltb, none, refl,
  some, suc, true, zero, ℕ, ◌&&◌, ◌+◌, ◌-◌, ◌==◌, ◌∷◌, ◌≡◌, ◌≤◌, ◌⊎◌,
}

-- What a round leaves to read is no longer than n.
abbrev pub IsWithin : ℕ → Round → Type 0
IsWithin n (search_on st ws) = length ws ≤ n
IsWithin n (all_found st) = Unit
IsWithin n by_error = Unit
IsWithin n by_panic = Unit

length-read_header : (n : ℕ) (ws : List MfmWord) → length (read_header n ws).1 ≤ length ws
unfolding read_header
length-read_header zero ws = omega arith
length-read_header (suc n) [] = omega arith
length-read_header (suc n) (MfmWord.sync_word ∷ ws) = omega (arith, length-read_header n ws)
length-read_header (suc n) (MfmWord.enc b ∷ ws) = omega (arith, length-read_header n ws)

length-read_data : (n : ℕ) (ws : List MfmWord) → length (read_data n ws).1 ≤ length ws
unfolding read_data
length-read_data zero ws = omega arith
length-read_data (suc n) [] = omega arith
length-read_data (suc n) (MfmWord.sync_word ∷ ws) = omega arith
length-read_data (suc n) (MfmWord.enc b ∷ ws) = omega (arith, length-read_data n ws)

or_error-IsWithin :
    {A : Type 0} (n : ℕ) (o : Option A) (f : A → Round)
    → ((a : A) → IsWithin n (f a))
    → IsWithin n (or_error o f)
or_error-IsWithin n none f h = tt
or_error-IsWithin n (some a) f h = h a

if-IsWithin :
    (n : ℕ) (b : Bool) (r s : Round) → IsWithin n r → IsWithin n s → IsWithin n (if b then r else s)
if-IsWithin n true r s h k = h
if-IsWithin n false r s h k = k

after_sector-IsWithin :
    (n : ℕ) (total : Option ℕ) (count : ℕ) (st : Search) (ws : List MfmWord)
    → length ws ≤ n
    → IsWithin n (after_sector total count st ws)
unfolding after_sector
after_sector-IsWithin n none count st ws h = h
after_sector-IsWithin n (some total) count st ws h = if-IsWithin n (total == count) _ _ tt h

module _ (crc : List ℕ → ℕ) (x : Expected) where
  good_header-IsWithin :
      (st : Search) (i n : ℕ) (header : List ℕ) (ws : List MfmWord)
      → length ws ≤ n
      → IsWithin n (good_header x st i header ws)
  unfolding good_header
  good_header-IsWithin st i n header ws h = or_error-IsWithin n st.found _ (λ got.
      or_error-IsWithin n (get_elem? header 0) _ (λ c.
        or_error-IsWithin n (get_elem? header 1) _ (λ hd. or_error-IsWithin n x.head _ (λ e.
          if-IsWithin n (has_index i got) _ _ (if-IsWithin n (hd == e) _ _ h tt)
            (or_error-IsWithin n x.cylinder _ (λ ec. if-IsWithin n (hd == e) _ _ h tt))))))

  header_block-IsWithin :
      (st : Search) (n : ℕ) (header : List ℕ) (ws : List MfmWord)
      → length ws ≤ n
      → IsWithin n (header_block crc x st header ws)
  unfolding header_block
  header_block-IsWithin st n header ws h = or_error-IsWithin n (get_elem? header 2) _ (λ i.
      if-IsWithin n (crc (synced (iso_idam ∷ header)) == 0) _ _
        (good_header-IsWithin (record st { sector_header = header }) i n header ws h) h)

  good_data-IsWithin :
      (st : Search) (size n : ℕ) (bs : List ℕ) (ws : List MfmWord)
      → length ws ≤ n
      → IsWithin n (good_data x st size bs ws)
  unfolding good_data
  good_data-IsWithin st size n bs ws h = or_error-IsWithin n (get_elem? st.sector_header 2) _ (λ i.
      or_error-IsWithin n st.found _ (λ got. after_sector-IsWithin n x.sectors_per_track _ _ ws h))

  data_block-IsWithin :
      (st : Search) (n : ℕ) (ws : List MfmWord)
      → length ws ≤ n
      → IsWithin n (data_block crc x st ws)
  unfolding data_block
  data_block-IsWithin st n ws h = or_error-IsWithin n (get_elem? st.sector_header 3) _ (λ code.
      let size = sector_size_of code in
      let r = read_data (size + 2) ws in
      let l : length r.1 ≤ n = omega (arith, length-read_data (size + 2) ws) in
      if-IsWithin n (ltb isize_max (size + 2)) _ _ tt (
        or_error-IsWithin n (get_elem? st.sector_header 2) _ (λ i.
          if-IsWithin n (crc (synced (iso_dam ∷ r.0)) == 0) _ _
            (good_data-IsWithin st size n r.0 r.1 l) l)))

  block-IsWithin : (st : Search) (ws : List MfmWord) → IsWithin (length ws) (block crc x st ws)
  unfolding block
  block-IsWithin st [] = omega arith
  block-IsWithin st (MfmWord.sync_word ∷ ws) = omega arith
  block-IsWithin st (MfmWord.enc mark ∷ ws) =
      let l : length ws ≤ suc (length ws) = omega arith in
      if-IsWithin (suc (length ws)) (mark == iso_idam) _ _
        (header_block-IsWithin st (suc (length ws)) (read_header 6 ws).0 (read_header 6 ws).1
          (omega (arith, length-read_header 6 ws)))
        (if-IsWithin (suc (length ws)) ((mark == iso_dam) && ltb 0 st.awaiting_dam) _ _
          (data_block-IsWithin st (suc (length ws)) ws l) l)

  search_step-IsWithin :
      (st : Search) (w : MfmWord) (ws : List MfmWord)
      → IsWithin (length ws) (search_step crc x st w ws)
  unfolding search_step
  search_step-IsWithin st MfmWord.sync_word ws =
      block-IsWithin (record st { awaiting_dam = st.awaiting_dam - 1 }) ws
  search_step-IsWithin st (MfmWord.enc b) ws = omega arith

pub Round-cases :
    (r : Round)
    → ((st : Search) × (ws : List MfmWord) × (r ≡ search_on st ws))
      ⊎ (((st : Search) × (r ≡ all_found st)) ⊎ ((r ≡ by_error) ⊎ (r ≡ by_panic)))
Round-cases (search_on st ws) = inl (st, ws, refl)
Round-cases (all_found st) = inr (inl (st, refl))
Round-cases by_error = inr (inr (inl refl))
Round-cases by_panic = inr (inr (inr refl))

search_on-IsWithin :
    (n : ℕ) {r : Round} {st : Search} {ws : List MfmWord}
    → r ≡ search_on st ws
    → IsWithin n r
    → length ws ≤ n
search_on-IsWithin n q h = rw q at h

module _ (crc : List ℕ → ℕ) (x : Expected) where
  -- Fuel for every word makes the search end.
  pub search_ends :
      (fuel : ℕ) (st : Search) (ws : List MfmWord)
      → length ws ≤ fuel
      → (r : Search × Ended) × (search crc fuel x st ws ≡ some r)
  unfolding search
  search_ends fuel st [] h = ((st, searched), refl)
  search_ends zero st (w ∷ ws) h = absurd (omega arith)
  search_ends (suc fuel) st (w ∷ ws) h = elim (Round-cases (search_step crc x st w ws)) [
    | inl (st', rest, q) ↦
        let short = search_on-IsWithin (length ws) q (search_step-IsWithin crc x st w ws) in
        rw (search, q) (search_ends fuel st' rest (omega (arith, short)))
    | inr (inl (st', q)) ↦ rw (search, q) ((st', searched), refl)
    | inr (inr (inl q)) ↦ rw (search, q) ((st, failed), refl)
    | inr (inr (inr q)) ↦ rw (search, q) ((st, panicked), refl)
  ]

  -- More fuel changes nothing.
  search_fuel :
      (f g : ℕ) (st : Search) (ws : List MfmWord)
      → length ws ≤ f
      → length ws ≤ g
      → search crc f x st ws ≡ search crc g x st ws
  unfolding search
  search_fuel f g st [] hf hg = refl
  search_fuel zero g st (w ∷ ws) hf hg = absurd (omega arith)
  search_fuel (suc f) zero st (w ∷ ws) hf hg = absurd (omega arith)
  search_fuel (suc f) (suc g) st (w ∷ ws) hf hg = elim (Round-cases (search_step crc x st w ws)) [
    | inl (st', rest, q) ↦
        let short = search_on-IsWithin (length ws) q (search_step-IsWithin crc x st w ws) in
        rw (search, q) (search_fuel f g st' rest (omega (arith, short)) (omega (arith, short)))
    | inr (inl (st', q)) ↦ rw (search, q) refl
    | inr (inr (inl q)) ↦ rw (search, q) refl
    | inr (inr (inr q)) ↦ rw (search, q) refl
  ]

  -- The search with fuel for every word.
  unfoldable pub search_all : Search → List MfmWord → Option (Search × Ended)
  search_all st ws = search crc (length ws) x st ws

  -- A round goes on with what it leaves.
  pub search_all_step :
      (st st' : Search) (w : MfmWord) (ws rest : List MfmWord)
      → search_step crc x st w ws ≡ search_on st' rest
      → search_all st (w ∷ ws) ≡ search_all st' rest
  unfolding search_all search
  search_all_step st st' w ws rest q =
      let short = search_on-IsWithin (length ws) q (search_step-IsWithin crc x st w ws) in
      rw (search, q) (search_fuel (length ws) (length rest) st' rest short (omega arith))

  -- A round that finds the last sector ends the search.
  pub search_all_found :
      (st st' : Search) (w : MfmWord) (ws : List MfmWord)
      → search_step crc x st w ws ≡ all_found st'
      → search_all st (w ∷ ws) ≡ some (st', searched)
  unfolding search_all search
  search_all_found st st' w ws q = rw (search, q) refl
