-- ===== src/Iso/Readings.antt =====
-- tool/src/track_parser/iso.rs: the search on all the sectors of a track.
use stm32_usbfloppy_tracer.Sectors.Order.{length-full_from}
use stm32_usbfloppy_tracer.Mfm.{MfmWord}
use stm32_usbfloppy_tracer.Sectors.{CollectedSector, has_index}
use stm32_usbfloppy_tracer.Sectors.Sorted.{IsDistinct, IsFrom, IsOf}
use stm32_usbfloppy_tracer.Sectors.Append.{IsDistinct-append, has_index-append}
use stm32_usbfloppy_tracer.Iso.Tracks.{crc_bytes, iso_dam, iso_idam}
use stm32_usbfloppy_tracer.Iso.Geometry.{contains}
use stm32_usbfloppy_tracer.Iso.Parser.{
  Ended, Expected, Search, after_sector, all_found, search, search_on, searched,
}
use stm32_usbfloppy_tracer.Iso.Search.{search_all, search_all_found, search_all_step}
use stm32_usbfloppy_tracer.Iso.Blocks.{
  collected, data-step, data_bytes, expecting, header_bytes, search-bytes, search-known_header,
  search-late, search-new_header, searching,
}
use stm32_usbfloppy_tracer.Base.{
  ==_iff, All, All-append, Bool-cases, List, Option, [], append-nil, arith, eq→==, false, inl, inr,
  length, length-append, map, none, refl, some, subst, suc, sym, true, ℕ, ◌++◌, ◌+◌, ◌-◌, ◌==◌, ◌∙◌,
  ◌∷◌, ◌≡◌, ◌≤◌, ◌⊎◌,
}

-- One sector: bytes in front of it, its header, bytes, and its data.
abbrev pub sector_words :
    (List ℕ → ℕ) → (ℕ → List ℕ) → ℕ → ℕ → ℕ → List ℕ → List ℕ → List MfmWord → List MfmWord
sector_words crc table c hd s lead middle rest =
    map MfmWord.enc lead
    ++ (MfmWord.sync_word ∷ MfmWord.enc iso_idam ∷ map MfmWord.enc (header_bytes crc c hd s)
        ++ (map MfmWord.enc middle
            ++ (MfmWord.sync_word ∷ MfmWord.enc iso_dam ∷ map MfmWord.enc (data_bytes crc (table s))
                ++ rest)))

-- The words of the sectors with these numbers, on one cylinder and head, each with 30 to 38 bytes
-- between its header and its data, and of bytes behind the last.
pub data Recorded (crc : List ℕ → ℕ) (table : ℕ → List ℕ) (c hd : ℕ)
    : List ℕ → List MfmWord → Type 0 where
  recorded_end : (behind : List ℕ) → Recorded crc table c hd [] (map MfmWord.enc behind)
  recorded :
      (s : ℕ) (is lead middle : List ℕ) (ws : List MfmWord)
      → 30 ≤ length middle
      → length middle ≤ 38
      → length (table s) ≡ 512
      → Recorded crc table c hd is ws
      → Recorded crc table c hd (s ∷ is) (sector_words crc table c hd s lead middle ws)

-- A number from 1 to n.
abbrev pub IsNumber : ℕ → ℕ → Type 0
IsNumber n s = (1 ≤ s) × (s ≤ n)

-- Sectors of the table with numbers from 1 to n, none twice.
pub record AreOf (table : ℕ → List ℕ) (n : ℕ) (got : List CollectedSector) : Type 0 where
  pub from_one : All (IsFrom 1) got
  pub of_table : All (IsOf table (suc n)) got
  pub distinct : IsDistinct got

AreOf-append :
    (table : ℕ → List ℕ) (n s : ℕ) (got : List CollectedSector)
    → IsNumber n s
    → has_index s got ≡ false
    → AreOf table n got
    → AreOf table n (got ++ (collected s (table s) ∷ []))
AreOf-append table n s got (l, u) h a =
    let x = collected s (table s) in
    record {
      from_one = All-append (IsFrom 1) got (x ∷ []) a.from_one (l, tt);
      of_table = All-append (IsOf table (suc n)) got (x ∷ []) a.of_table ((omega arith, refl), tt);
      distinct = IsDistinct-append x got h a.distinct;
    }

-- All numbers from 1 to n are there, up to those in `is`.
abbrev pub Misses : ℕ → List ℕ → List CollectedSector → Type 0
Misses n is got = (i : ℕ) → IsNumber n i → (has_index i got ≡ true) ⊎ (contains i is ≡ true)

-- What the search ends with: all sectors of the table.
abbrev pub Finds : (List ℕ → ℕ) → (ℕ → List ℕ) → ℕ → Expected → Search → List MfmWord → Type 0
Finds crc table n x st ws =
    (a : ℕ) × (d : ℕ) × (h : List ℕ) × (all : List CollectedSector) × (search_all crc x st ws
      ≡ some (searching a d h all, searched))
    × AreOf table n all
    × (length all ≡ n)

-- The parser expects n sectors, or does not know yet.
abbrev pub IsTotal : ℕ → Option ℕ → Type 0
IsTotal n total = (total ≡ none) ⊎ (total ≡ some n)

pub total_number : (n t : ℕ) → IsTotal n (some t) → t ≡ n
total_number n t (inl e) = cc
total_number n t (inr e) = cc

after_sector-cases :
    (n count : ℕ) (total : Option ℕ) (st : Search) (ws : List MfmWord)
    → IsTotal n total
    → (after_sector total count st ws ≡ search_on st ws)
      ⊎ ((after_sector total count st ws ≡ all_found st) × (count ≡ n))
unfolding after_sector
after_sector-cases n count none st ws h = inl refl
after_sector-cases n count (some t) st ws h = elim (Bool-cases (t == count)) [
  | inl e ↦ inr (rw e refl, sym ((==_iff t count).0 e) ∙ total_number n t h)
  | inr e ↦ inl (rw e refl)
]

Misses-next :
    (n s : ℕ) (is : List ℕ) (got got' : List CollectedSector)
    → Misses n (s ∷ is) got
    → ((i : ℕ) → has_index i got ≡ true → has_index i got' ≡ true)
    → has_index s got' ≡ true
    → Misses n is got'
Misses-next n s is got got' m keep now i h = elim (m i h) [
  | inl e ↦ inl (keep i e)
  | inr e ↦ elim (Bool-cases (i == s)) [
    | inl q ↦ inl (subst (λ j. has_index j got' ≡ true) (sym ((==_iff i s).0 q)) now)
    | inr q ↦ inr (rw q at e)
  ]
]

Misses-full :
    (table : ℕ → List ℕ) (n : ℕ) (got : List CollectedSector)
    → AreOf table n got
    → Misses n [] got
    → length got ≡ n
Misses-full table n got a m = omega (
  arith,
  length-full_from table 1 (suc n) got (omega arith) a.from_one a.of_table a.distinct
      (λ i p q. elim (m i (p, omega arith)) [ inl e ↦ e | inr e ↦ cc ]),
)

module _ (crc : List ℕ → ℕ) (crc_own : (bs : List ℕ) → crc (bs ++ crc_bytes (crc bs)) ≡ 0)
    (total : Option ℕ) (c hd n : ℕ) (table : ℕ → List ℕ) where
  abbrev search_from : Search → List MfmWord → Option (Search × Ended)
  search_from st ws = search_all crc (expecting total c hd) st ws

  abbrev Found : Search → List MfmWord → Type 0
  Found st ws = Finds crc table n (expecting total c hd) st ws

  Found-by :
      (st st' : Search) (ws ws' : List MfmWord)
      → search_from st ws ≡ search_from st' ws'
      → Found st' ws'
      → Found st ws
  Found-by st st' ws ws' e (a, d, h, all, e', p, l) = (a, d, h, all, e ∙ e', p, l)

  -- Whatever sectors of the track were found before, the search finds all that are missing.
  pub search-Recorded :
      (is : List ℕ) (a d : ℕ) (h : List ℕ) (got : List CollectedSector) (ws : List MfmWord)
      → Recorded crc table c hd is ws
      → IsTotal n total
      → All (IsNumber n) is
      → a ≤ 10
      → AreOf table n got
      → Misses n is got
      → Found (searching a d h got) ws
  search-Recorded [] a d h got _ (recorded_end behind) t hs ha g m = (
    a - length behind,
    d,
    h,
    got,
    rw append-nil at (search-bytes crc (expecting total c hd) behind a d h got [])
        ∙ (unfold search_all search in refl),
    g,
    Misses-full table n got g m,
  )
  search-Recorded (s ∷ is) a d h got _ (recorded _ _ lead middle rest h30 h38 hl more) t (hs, his)
        ha g m =
      let x = expecting total c hd in
      let h6 = header_bytes crc c hd s in
      let a₁ = a - length lead in
      elim (Bool-cases (has_index s got))
        as (λ _. Found (searching a d h got) (sector_words crc table c hd s lead middle rest)) [
          | inl q ↦
              let a₂ = a₁ - 1 - length middle in
              Found-by _ (searching 0 (d + 1) h6 got) _ rest
                (search-bytes crc x lead a d h got _
                  ∙ search-known_header crc crc_own total c hd s a₁ d h got _ q
                  ∙ search-bytes crc x middle (a₁ - 1) (d + 1) h6 got _
                  ∙ search-late crc crc_own total c hd a₂ (d + 1) h6 (data_bytes crc (table s)) got
                      rest (omega arith))
                (search-Recorded is 0 (d + 1) h6 got rest more t his (omega arith) g
                  (Misses-next n s is got got m (λ i e. e) q))
          | inr q ↦
              let a₂ = 40 - length middle in
              let got' = got ++ (collected s (table s) ∷ []) in
              let data_words =
                MfmWord.enc iso_dam ∷ map MfmWord.enc (data_bytes crc (table s)) ++ rest in
              let g' = AreOf-append table n s got hs q g in
              let step =
                data-step crc crc_own total c hd s a₂ d (table s) got rest hl (omega arith) in
              Found-by _ (searching a₂ d h6 got) _ (MfmWord.sync_word ∷ data_words)
                (search-bytes crc x lead a d h got _
                  ∙ search-new_header crc crc_own total c hd s a₁ d h got _ q
                  ∙ search-bytes crc x middle 40 d h6 got _)
                (elim (after_sector-cases n (length got + 1) total (searching (a₂ - 1) d h6 got')
                    rest t)
                  as (λ _. Found (searching a₂ d h6 got) (MfmWord.sync_word ∷ data_words)) [
                    | inl e ↦
                        Found-by _ (searching (a₂ - 1) d h6 got') _ rest
                          (search_all_step crc x (searching a₂ d h6 got)
                            (searching (a₂ - 1) d h6 got') MfmWord.sync_word data_words rest
                            (step ∙ e))
                          (search-Recorded is (a₂ - 1) d h6 got' rest more t his (omega arith) g' (
                            Misses-next n s is got got' m
                              (λ i p.
                                has_index-append i got (collected s (table s) ∷ []) ∙ rw p refl)
                              (has_index-append s got (collected s (table s) ∷ [])
                                ∙ rw q (unfold has_index in rw (eq→== s s refl) refl))))
                    | inr (e, full) ↦ (
                      a₂ - 1,
                      d,
                      h6,
                      got',
                      search_all_found crc x (searching a₂ d h6 got) (searching (a₂ - 1) d h6 got')
                          MfmWord.sync_word data_words (step ∙ e),
                      g',
                      length-append got (collected s (table s) ∷ []) ∙ full,
                    )
                  ])
        ]
