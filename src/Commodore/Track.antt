-- ===== src/Commodore/Track.antt =====
-- tool/src/track_parser/c64.rs: the search on all the sectors of a track.
use stm32_usbfloppy_tracer.Gcr.{GcrDecoderResult, byte, sync}
use stm32_usbfloppy_tracer.Sectors.{CollectedSector, has_index}
use stm32_usbfloppy_tracer.Sectors.Sorted.{IsDistinct, IsOf}
use stm32_usbfloppy_tracer.Sectors.Append.{IsDistinct-append, has_index-append}
use stm32_usbfloppy_tracer.Commodore.Image.{header_bytes, xor_bytes}
use stm32_usbfloppy_tracer.Commodore.Parser.{Search, all_read, search}
use stm32_usbfloppy_tracer.Commodore.Search.{search_all}
use stm32_usbfloppy_tracer.Commodore.Blocks.{
  collected, search-bytes, search-data, search-header, search-late, searching,
}
use stm32_usbfloppy_tracer.Base.{
  ==_iff, All, All-append, Bool-cases, List, [], arith, eq→==, false, inl, inr, length, map, refl,
  some, subst, suc, true, zero, ℕ, ◌++◌, ◌+◌, ◌-◌, ◌<◌, ◌==◌, ◌∙◌, ◌∷◌, ◌≡◌, ◌≤◌,
}

-- What the decoder makes of one sector: the two blocks behind their sync marks, each with bytes
-- behind it that mean nothing.
unfoldable pub sector_results :
    ℕ → ℕ → List ℕ → List ℕ → List ℕ → List GcrDecoderResult → List GcrDecoderResult
sector_results t s ds middle behind rest =
    sync ∷ byte 0x08 ∷ map byte (header_bytes s t)
    ++ (map byte middle
        ++ (sync ∷ byte 0x07 ∷ map byte (ds ++ (xor_bytes 0 ds ∷ [])) ++ (map byte behind ++ rest)))

-- n sectors of the table from s on, with 9 to 18 bytes between a header and its data block.
pub data Recorded (table : ℕ → List ℕ) (t : ℕ) : ℕ → ℕ → List GcrDecoderResult → Type 0 where
  recorded_end : (s : ℕ) → Recorded table t s 0 []
  recorded :
      (s n : ℕ) (middle behind : List ℕ) (rest : List GcrDecoderResult)
      → 9 ≤ length middle
      → length middle ≤ 18
      → length (table s) ≡ 256
      → Recorded table t (suc s) n rest
      → Recorded table t s (suc n) (sector_results t s (table s) middle behind rest)

-- What a search ends with: sectors of the table, none twice, those that were there and all of s
-- to s + n - 1.
abbrev IsComplete : (ℕ → List ℕ) → ℕ → ℕ → ℕ → List CollectedSector → List CollectedSector → Type 0
IsComplete table total s n got all =
    All (IsOf table total) all
    × IsDistinct all
    × ((i : ℕ) → has_index i got ≡ true → has_index i all ≡ true)
    × ((i : ℕ) → s ≤ i → i < s + n → has_index i all ≡ true)

-- What one sector does to the search: it is there afterwards.
abbrev After :
    (ℕ → List ℕ)
    → ℕ
    → ℕ
    → ℕ
    → Search
    → List GcrDecoderResult
    → List GcrDecoderResult
    → List CollectedSector
    → Type 0
After table total t s st rs rest got =
    (a : ℕ) × (got' : List CollectedSector) × (search_all (some t) st rs
      ≡ search_all (some t) (searching a (header_bytes s t) got') rest)
    × (a ≤ 10)
    × All (IsOf table total) got'
    × IsDistinct got'
    × (has_index s got' ≡ true)
    × ((i : ℕ) → has_index i got ≡ true → has_index i got' ≡ true)

-- A sector that is still missing is collected.
sector_missing :
    (table : ℕ → List ℕ) (total t s a : ℕ) (h middle behind : List ℕ) (got : List CollectedSector)
    (rest : List GcrDecoderResult)
    → has_index s got ≡ false
    → 9 ≤ length middle
    → length middle ≤ 18
    → length (table s) ≡ 256
    → s < total
    → All (IsOf table total) got
    → IsDistinct got
    → After table total t s
        (searching a h got)
        (sector_results t s (table s) middle behind rest)
        rest
        got
unfolding sector_results
sector_missing table total t s a h middle behind got rest e h9 h18 hl hs hg hd =
    let x = collected s (table s) in
    let m = 20 - length middle in
    let hdr = header_bytes s t in
    (
      m - 1 - length behind,
      got ++ (x ∷ []),
      (search-header s t a 20 h got _ (rw e refl)
          ∙ search-bytes middle (some t) 20 hdr got _
          ∙ search-data s t m (table s) got _ hl (omega arith)
          ∙ search-bytes behind (some t) (m - 1) hdr (got ++ (x ∷ [])) rest),
      omega arith,
      All-append (IsOf table total) got (x ∷ []) hg ((hs, refl), tt),
      IsDistinct-append x got e hd,
      has_index-append s got (x ∷ []) ∙ rw e (unfold has_index in rw (eq→== s s refl) refl),
      (λ i p. has_index-append i got (x ∷ []) ∙ rw p refl),
    )

-- One that was collected before is passed over: too much of the time has passed.
sector_present :
    (table : ℕ → List ℕ) (total t s a : ℕ) (h middle behind : List ℕ) (got : List CollectedSector)
    (rest : List GcrDecoderResult)
    → has_index s got ≡ true
    → a ≤ 10
    → 9 ≤ length middle
    → All (IsOf table total) got
    → IsDistinct got
    → After table total t s
        (searching a h got)
        (sector_results t s (table s) middle behind rest)
        rest
        got
unfolding sector_results
sector_present table total t s a h middle behind got rest e ha h9 hg hd =
    let m = a - 1 - length middle in
    let hdr = header_bytes s t in
    (
      0 - length behind,
      got,
      (search-header s t a (a - 1) h got _ (rw e refl)
          ∙ search-bytes middle (some t) (a - 1) hdr got _
          ∙ search-late t m hdr (table s ++ (xor_bytes 0 (table s) ∷ [])) got _ (omega arith)
          ∙ search-bytes behind (some t) 0 hdr got rest),
      omega arith,
      hg,
      hd,
      e,
      (λ i p. p),
    )

from_first :
    (s n : ℕ) (all : List CollectedSector)
    → has_index s all ≡ true
    → ((i : ℕ) → suc s ≤ i → i < suc s + n → has_index i all ≡ true)
    → (i : ℕ) → s ≤ i
    → i < s + suc n
    → has_index i all ≡ true
from_first s n all h there i p q = elim (Bool-cases (s == i)) [
  | inl e ↦ subst (λ j. has_index j all ≡ true) ((==_iff s i).0 e) h
  | inr e ↦ there i (ground (arith, e)) (omega arith)
]

-- Whatever sectors of the track were found before, the search finds all that are recorded.
pub search-Recorded :
    (table : ℕ → List ℕ) (t total s n a : ℕ) (h : List ℕ) (got : List CollectedSector)
    (rs : List GcrDecoderResult)
    → Recorded table t s n rs
    → a ≤ 10
    → s + n ≤ total
    → All (IsOf table total) got
    → IsDistinct got
    → (all : List CollectedSector) × (search_all (some t) (searching a h got) rs
        ≡ some (some all, all_read))
      × IsComplete table total s n got all
search-Recorded table t total s zero a h got _ (recorded_end _) ha hn hg hd =
    (got, unfold search_all search in refl, (hg, hd, (λ i p. p), (λ i p q. absurd (omega arith))))
search-Recorded table t total s (suc n) a h got rs (recorded _ _ middle behind rest h9 h18 hl more)
      ha hn hg hd =
    let (a', got', e, ha', hg', hd', now, keep) =
      elim (Bool-cases (has_index s got))
        as (λ _. After table total t s (searching a h got) rs rest got) [
          | inl q ↦ sector_present table total t s a h middle behind got rest q ha h9 hg hd
          | inr q ↦
              sector_missing table total t s a h middle behind got rest q h9 h18 hl (omega arith) hg
                hd
        ] in
    let (all, e', (g, d, kept, there)) =
      search-Recorded table t total (suc s) n a' (header_bytes s t) got' rest more ha' (omega arith)
        hg' hd' in
    (all, e ∙ e', (g, d, (λ i p. kept i (keep i p)), from_first s n all (kept s now) there))
