-- ===== src/Iso/Interleaving.antt =====
-- Which sectors a track's table names, and how often.
use stm32_usbfloppy_tracer.Base.{
  ==→eq, List, Outcome, [], ap, arith, done, fail, if◌then◌else◌, ltb, panic, passes_below,
  passes_below_at, refl, suc, sym, true, zero, ℕ, ◌<◌, ◌==◌, ◌∙◌, ◌∷◌, ◌≡◌,
}
use stm32_usbfloppy_tracer.Iso.{generate_interleaving_table, new, possible_sector_counts}
use stm32_usbfloppy_tracer.Iso.Geometry.{contains}

unfoldable pub count : ℕ → List ℕ → ℕ
count x [] = 0
count x (y ∷ ys) = let rest = count x ys in if x == y then suc rest else rest

abbrev pub table_of : Outcome (List ℕ) → List ℕ
table_of (done table) = table
table_of fail = []
table_of panic = []

-- The table of a disk with that many sectors per track.
abbrev pub table_for : ℕ → List ℕ
table_for sectors = table_of (generate_interleaving_table sectors (new sectors).interleaving)

-- How often sector index i stands in the table of 10 sectors.
abbrev pub times_of_10 : ℕ → ℕ
times_of_10 zero = 5
times_of_10 (suc i) = if ltb i 4 then 0 else 1

abbrev pub times : ℕ → ℕ → ℕ
times sectors i = if sectors == 10 then times_of_10 i else 1

all_times :
    passes_below 19 (λ s.
      if contains s possible_sector_counts
      then passes_below s (λ i. count i (table_for s) == times s i)
      else true)
    ≡ true
unfolding passes_below count generate_interleaving_table new
all_times = refl

sectors_small : (s : ℕ) → contains s possible_sector_counts ≡ true → s < 19
sectors_small s h = ground arith

times_at :
    (s : ℕ)
    → contains s possible_sector_counts ≡ true
    → s < 19
    → passes_below s (λ i. count i (table_for s) == times s i) ≡ true
times_at s h l =
    let a =
      passes_below_at 19
        (λ s.
          if contains s possible_sector_counts
          then passes_below s (λ i. count i (table_for s) == times s i)
          else true)
        s all_times l in
    sym (ap (λ b. if b then passes_below s (λ i. count i (table_for s) == times s i) else true) h)
    ∙ a

-- For each possible number of sectors per track but 10, the interleaving table names every sector
-- index once. For 10 it names index 0 five times, the indices 1 to 4 never, and 5 to 9 once.
pub table_for-times :
    (sectors i : ℕ)
    → contains sectors possible_sector_counts ≡ true
    → i < sectors
    → count i (table_for sectors) ≡ times sectors i
table_for-times sectors i h l = ==→eq (count i (table_for sectors)) (times sectors i) (
    passes_below_at sectors (λ i. count i (table_for sectors) == times sectors i) i
      (times_at sectors h (sectors_small sectors h)) l)
