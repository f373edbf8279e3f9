-- ===== src/Iso/Numbering.antt =====
-- tool/src/image_reader/image_iso.rs: which sectors a track gets, and their numbers.
use stm32_usbfloppy_tracer.Iso
use stm32_usbfloppy_tracer.Iso.{generate_interleaving_table, new, possible_sector_counts}
use stm32_usbfloppy_tracer.Iso.Geometry.{contains}
use stm32_usbfloppy_tracer.Iso.Tracks.{next_sectors}
use stm32_usbfloppy_tracer.Iso.Layout.{HasGaps}
use stm32_usbfloppy_tracer.Base.{
  All, Bool, Bool-cases, List, Outcome, [], ap, arith, done, fail, false, get_elem?, get_or,
  if◌then◌else◌, inl, inr, length, ltb, ltb→lt, ne→==, panic, passes_below, passes_below_at, refl,
  some, suc, true, u8, zero, ℕ, ◌&&◌, ◌++◌, ◌+◌, ◌-◌, ◌<◌, ◌==◌, ◌∙◌, ◌∷◌, ◌≡◌, ◌≢◌, ◌≤◌,
}

new-gaps :
    (n : ℕ)
    → (3 ≤ (Iso.new n).gap2_size)
      × ((Iso.new n).gap3a_size ≡ 22)
      × ((Iso.new n).gap3b_size ≡ 12)
      × ((Iso.new n).sectors_per_track ≡ n)
unfolding Iso.new
new-gaps n = ground arith

pub new-HasGaps : (n : ℕ) → HasGaps (Iso.new n)
new-HasGaps n =
    let (g2, g3a, g3b, total) = new-gaps n in
    record {
      gap2_left = (Iso.new n).gap2_size - 3;
      gap2 = omega (arith, g2);
      gap3a = g3a;
      gap3b = g3b;
    }

pub new-sectors : (n : ℕ) → (Iso.new n).sectors_per_track ≡ n
new-sectors n = (new-gaps n).3

-- The numbers that the sectors of a track get, from behind k on.
unfoldable pub number : ℕ → List (List ℕ) → List (ℕ × List ℕ)
number k [] = []
number k (ds ∷ sectors) = (u8 (u8 k + 1), ds) ∷ number (suc k) sectors

pub next_sectors-number :
    (k : ℕ) (sectors rest : List (List ℕ))
    → next_sectors k (length sectors) (sectors ++ rest) ≡ done (number k sectors, rest)
unfolding next_sectors number
next_sectors-number k [] rest = refl
next_sectors-number k (ds ∷ sectors) rest = rw (next_sectors-number (suc k) sectors rest) refl

pub get_elem?-number :
    (k i : ℕ) (sectors : List (List ℕ))
    → i < length sectors
    → k + length sectors < 256
    → get_elem? (number k sectors) i ≡ some (k + i + 1, get_or sectors i [])
unfolding number
get_elem?-number k i [] h l = absurd (omega arith)
get_elem?-number k zero (ds ∷ sectors) h l = ap (λ s. some (s, ds)) (omega arith)
get_elem?-number k (suc i) (ds ∷ sectors) h l =
    get_elem?-number (suc k) i sectors (omega arith) (omega arith)
    ∙ ap (λ s. some (s, get_or sectors i [])) (omega arith)

-- A table names sectors of the track, and all of them.
unfoldable all_below : ℕ → List ℕ → Bool
all_below n [] = true
all_below n (i ∷ is) = ltb i n && all_below n is

unfoldable covers : ℕ → Outcome (List ℕ) → Bool
covers n (done table) = all_below n table && passes_below n (λ i. contains i table)
covers n fail = false
covers n panic = false

covers_table :
    passes_below 19 (λ n.
      if contains n possible_sector_counts
      then (if n == 10
          then true
          else covers n (generate_interleaving_table n (Iso.new n).interleaving))
      else true)
    ≡ true
unfolding passes_below covers all_below generate_interleaving_table Iso.new
covers_table = refl

sectors_small : (n : ℕ) → contains n possible_sector_counts ≡ true → n < 19
sectors_small n h = ground arith

all_below-All : (n : ℕ) (is : List ℕ) → all_below n is ≡ true → All (λ i. i < n) is
unfolding all_below
all_below-All n [] h = tt
all_below-All n (i ∷ is) h = elim (Bool-cases (ltb i n)) [
  | inl e ↦ (ltb→lt i n e, all_below-All n is (rw e at h))
  | inr e ↦ absurd (ground (arith, h, e))
]

-- For each possible number of sectors per track but 10, the table names all sectors and no others.
abbrev pub Covers : ℕ → List ℕ → Type 0
Covers n table = All (λ i. i < n) table × ((i : ℕ) → i < n → contains i table ≡ true)

covers-Covers :
    (n : ℕ) (o : Outcome (List ℕ))
    → covers n o ≡ true
    → (table : List ℕ) × (o ≡ done table) × Covers n table
unfolding covers
covers-Covers n (done table) h = elim (Bool-cases (all_below n table)) [
  | inl e ↦ (
    table,
    refl,
    (all_below-All n table e, λ i l. passes_below_at n (λ i. contains i table) i (rw e at h) l),
  )
  | inr e ↦ absurd (ground (arith, h, e))
]
covers-Covers n fail h = cc
covers-Covers n panic h = cc

pub table-Covers :
    (n : ℕ)
    → contains n possible_sector_counts ≡ true
    → n ≢ 10
    → (table : List ℕ) × (generate_interleaving_table n (Iso.new n).interleaving ≡ done table)
      × Covers n table
table-Covers n h ne =
    let a = passes_below_at 19 _ n covers_table (sectors_small n h) in
    covers-Covers n (generate_interleaving_table n (Iso.new n).interleaving)
      (rw (h, ne→== n 10 ne) at a)
