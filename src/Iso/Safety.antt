-- ===== src/Iso/Safety.antt =====
-- tool/src/track_parser/iso.rs: when the search for sectors panics. The code allocates a buffer of the
-- size that a header names, and a size code of 56 names more bytes than an allocation may have.
use stm32_usbfloppy_tracer.Mfm.{MfmWord}
use stm32_usbfloppy_tracer.Sectors.{has_index}
use stm32_usbfloppy_tracer.Iso.Tracks.{iso_dam, iso_idam, synced}
use stm32_usbfloppy_tracer.Iso.Parser.{
  Ended, Expected, Round, Search, after_sector, all_found, block, by_error, by_panic, data_block,
  good_data, good_header, header_block, isize_max, or_error, panicked, read_data, read_header,
  search, search_on, search_step, sector_size_of, tick,
}
use stm32_usbfloppy_tracer.Iso.Search.{Round-cases}
use stm32_usbfloppy_tracer.Base.{
  All, Bool, List, Option, [], arith, false, get_elem?, if◌then◌else◌, inl, inr, ltb, ne→==, none,
  not, passes_below, passes_below_at, refl, some, subst, suc, true, zero, ℕ, ◌%◌, ◌&&◌, ◌*◌, ◌+◌,
  ◌<◌, ◌==◌, ◌^◌, ◌||◌, ◌∷◌, ◌≡◌, ◌≢◌,
}

-- A byte that is no size code of 2 ^ 63 bytes.
abbrev pub IsAllocatable : ℕ → Type 0
IsAllocatable code = code % 64 ≢ 56

abbrev pub NamesAllocatable : MfmWord → Type 0
NamesAllocatable MfmWord.sync_word = Unit
NamesAllocatable (MfmWord.enc b) = IsAllocatable b

size_table :
    passes_below 64 (λ c. (c == 56) || not (ltb isize_max (128 * 2 ^ (c % 64) % 2 ^ 64 + 2))) ≡ true
unfolding passes_below
size_table = refl

other_code : (a b : Bool) → (a || not b) ≡ true → a ≡ false → b ≡ false
other_code false false h k = refl
other_code false true h k = cc
other_code true b h k = cc

sector_size_of-fits :
    (code : ℕ) → IsAllocatable code → ltb isize_max (sector_size_of code + 2) ≡ false
unfolding sector_size_of
sector_size_of-fits code h =
    let c = code % 64 in
    let below : c < 64 = omega arith in
    let same : c % 64 ≡ c = omega arith in
    let row =
      passes_below_at 64 (λ x. (x == 56) || not (ltb isize_max (128 * 2 ^ (x % 64) % 2 ^ 64 + 2))) c
        size_table below in
    rw same at (other_code _ _ row (ne→== c 56 h))

-- The round is no panic, and what it goes on with has only such bytes.
abbrev IsSafe : Round → Type 0
IsSafe (search_on st ws) = All IsAllocatable st.sector_header × All NamesAllocatable ws
IsSafe (all_found st) = Unit
IsSafe by_error = Unit
IsSafe by_panic = ⊥

read_header-All :
    (n : ℕ) (ws : List MfmWord)
    → All NamesAllocatable ws
    → All IsAllocatable (read_header n ws).0 × All NamesAllocatable (read_header n ws).1
unfolding read_header
read_header-All zero ws h = (tt, h)
read_header-All (suc n) [] h = (tt, tt)
read_header-All (suc n) (MfmWord.sync_word ∷ ws) (u, h) = read_header-All n ws h
read_header-All (suc n) (MfmWord.enc b ∷ ws) (u, h) =
    let (bs, rest) = read_header-All n ws h in ((u, bs), rest)

read_data-All :
    (n : ℕ) (ws : List MfmWord) → All NamesAllocatable ws → All NamesAllocatable (read_data n ws).1
unfolding read_data
read_data-All zero ws h = h
read_data-All (suc n) [] h = tt
read_data-All (suc n) (MfmWord.sync_word ∷ ws) (u, h) = h
read_data-All (suc n) (MfmWord.enc b ∷ ws) (u, h) = read_data-All n ws h

or_error-IsSafe :
    {A : Type 0} (o : Option A) (f : A → Round)
    → ((a : A) → o ≡ some a → IsSafe (f a))
    → IsSafe (or_error o f)
or_error-IsSafe none f h = tt
or_error-IsSafe (some a) f h = h a refl

if-IsSafe :
    (b : Bool) (r s : Round)
    → (b ≡ true → IsSafe r)
    → (b ≡ false → IsSafe s)
    → IsSafe (if b then r else s)
if-IsSafe true r s h k = h refl
if-IsSafe false r s h k = k refl

get_elem?-All :
    {A : Type 0} (P : A → Type 0) (xs : List A) (i : ℕ) (a : A)
    → All P xs
    → get_elem? xs i ≡ some a
    → P a
get_elem?-All P [] i a h e = cc
get_elem?-All P (x ∷ xs) zero a (p, h) e = let same : x ≡ a = cc in subst P same p
get_elem?-All P (x ∷ xs) (suc i) a (p, h) e = get_elem?-All P xs i a h e

after_sector-IsSafe :
    (total : Option ℕ) (count : ℕ) (st : Search) (ws : List MfmWord)
    → IsSafe (search_on st ws)
    → IsSafe (after_sector total count st ws)
unfolding after_sector
after_sector-IsSafe none count st ws h = h
after_sector-IsSafe (some total) count st ws h = if-IsSafe (total == count) _ _ (λ _. tt) (λ _. h)

module _ (crc : List ℕ → ℕ) (x : Expected) where
  good_header-IsSafe :
      (st : Search) (i : ℕ) (header : List ℕ) (ws : List MfmWord)
      → IsSafe (search_on st ws)
      → IsSafe (good_header x st i header ws)
  unfolding good_header
  good_header-IsSafe st i header ws h = or_error-IsSafe st.found _ (λ got _.
      or_error-IsSafe (get_elem? header 0) _ (λ c _. or_error-IsSafe (get_elem? header 1) _ (λ hd _.
        or_error-IsSafe x.head _ (λ e _.
          if-IsSafe (has_index i got) _ _ (λ _. if-IsSafe (hd == e) _ _ (λ _. h) (λ _. tt))
            (λ _.
              or_error-IsSafe x.cylinder _ (λ ec _.
                if-IsSafe (hd == e) _ _ (λ _. (awaits (c == ec) st h.0, h.1)) (λ _. tt)))))))
    where
      awaits :
          (b : Bool) (s : Search)
          → All IsAllocatable s.sector_header
          → All IsAllocatable (if b then record s { awaiting_dam = 40 } else s).sector_header
      awaits true s k = k
      awaits false s k = k

  data_block-IsSafe :
      (st : Search) (ws : List MfmWord) → IsSafe (search_on st ws) → IsSafe (data_block crc x st ws)
  unfolding data_block
  data_block-IsSafe st ws (hs, h) = or_error-IsSafe (get_elem? st.sector_header 3) _ (λ code named.
      let size = sector_size_of code in
      let r = read_data (size + 2) ws in
      let rest = read_data-All (size + 2) ws h in
      let fits =
        sector_size_of-fits code (get_elem?-All IsAllocatable st.sector_header 3 code hs named) in
      if-IsSafe (ltb isize_max (size + 2)) _ _ (λ e. absurd (clash fits e))
        (λ _. or_error-IsSafe (get_elem? st.sector_header 2) _ (λ i _.
          if-IsSafe (crc (synced (iso_dam ∷ r.0)) == 0) _ _
            (λ _.
              unfold good_data in
              or_error-IsSafe (get_elem? st.sector_header 2) _ (λ j _.
                or_error-IsSafe st.found _
                  (λ got _. after_sector-IsSafe x.sectors_per_track _ _ r.1 (hs, rest))))
            (λ _. (hs, rest)))))
    where
      clash : {b : Bool} → b ≡ false → b ≡ true → ⊥
      clash h k = cc

  block-IsSafe :
      (st : Search) (ws : List MfmWord) → IsSafe (search_on st ws) → IsSafe (block crc x st ws)
  unfolding block header_block
  block-IsSafe st [] h = h
  block-IsSafe st (MfmWord.sync_word ∷ ws) (hs, (u, h)) = (hs, h)
  block-IsSafe st (MfmWord.enc mark ∷ ws) (hs, (u, h)) =
      let r = read_header 6 ws in
      let read = read_header-All 6 ws h in
      if-IsSafe (mark == iso_idam) _ _
        (λ _. or_error-IsSafe (get_elem? r.0 2) _ (λ i _.
          if-IsSafe (crc (synced (iso_idam ∷ r.0)) == 0) _ _
            (λ _. good_header-IsSafe (record st { sector_header = r.0 }) i r.0 r.1 read)
            (λ _. read)))
        (λ _.
          if-IsSafe ((mark == iso_dam) && ltb 0 st.awaiting_dam) _ _
            (λ _. data_block-IsSafe st ws (hs, h)) (λ _. (hs, h)))

  search_step-IsSafe :
      (st : Search) (w : MfmWord) (ws : List MfmWord)
      → IsSafe (search_on st (w ∷ ws))
      → IsSafe (search_step crc x st w ws)
  unfolding search_step
  search_step-IsSafe st MfmWord.sync_word ws (hs, (u, h)) = block-IsSafe (tick st) ws (hs, h)
  search_step-IsSafe st (MfmWord.enc b) ws (hs, (u, h)) = (hs, h)

  abbrev pub NotPanicked : Option (Search × Ended) → Type 0
  NotPanicked none = Unit
  NotPanicked (some r) = r.1 ≢ panicked

  -- A search of words without such a size code does not panic.
  pub search-NotPanicked :
      (fuel : ℕ) (st : Search) (ws : List MfmWord)
      → All IsAllocatable st.sector_header
      → All NamesAllocatable ws
      → NotPanicked (search crc fuel x st ws)
  unfolding search
  search-NotPanicked fuel st [] hs h = λ e. cc
  search-NotPanicked zero st (w ∷ ws) hs h = tt
  search-NotPanicked (suc fuel) st (w ∷ ws) hs h =
      let safe = search_step-IsSafe st w ws (hs, h) in
      elim (Round-cases (search_step crc x st w ws)) [
        | inl (st', rest, q) ↦
            let (hs', h') : IsSafe (search_on st' rest) = rw q at safe in
            rw (search, q) (search-NotPanicked fuel st' rest hs' h')
        | inr (inl (st', q)) ↦ rw (search, q) (λ e. cc)
        | inr (inr (inl q)) ↦ rw (search, q) (λ e. cc)
        | inr (inr (inr q)) ↦ let none_left : ⊥ = rw q at safe in absurd none_left
      ]
