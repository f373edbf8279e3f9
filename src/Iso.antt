-- ===== src/Iso.antt =====
-- tool/src/image_reader/image_iso.rs: the geometry of a sector image and the order of its sectors.
pub mod Geometry
pub mod Interleaving
pub mod Tracks
pub mod Parser
pub mod Search
pub mod Blocks
pub mod Readings
pub mod Results
pub mod Feeding
pub mod Layout
pub mod Numbering
pub mod Written
pub mod RoundTrip
pub mod Safety
pub mod Termination
use stm32_usbfloppy_tracer.Bitstream
use stm32_usbfloppy_tracer.RawTrack
use stm32_usbfloppy_tracer.Base.{
  List, Outcome, [], done, fail, if◌then◌else◌, length, ltb, panic, replicate, set, suc, zero, ℕ,
  ◌%◌, ◌*◌, ◌+◌, ◌==◌, ◌∷◌,
}

abbrev pub possible_cylinder_counts : List ℕ
possible_cylinder_counts = 38 ∷ 39 ∷ 40 ∷ 41 ∷ 42 ∷ 78 ∷ 79 ∷ 80 ∷ 81 ∷ 82 ∷ []

abbrev pub possible_sector_counts : List ℕ
possible_sector_counts = 9 ∷ 10 ∷ 11 ∷ 15 ∷ 18 ∷ []

-- HEADS is 2 and BYTES_PER_SECTOR is 512.
unfoldable pub cylinders_loop : ℕ → ℕ → List ℕ → Outcome (ℕ × ℕ)
cylinders_loop number_bytes sectors [] = fail
cylinders_loop number_bytes sectors (cylinders ∷ more) =
    let rest = cylinders_loop number_bytes sectors more in
    if number_bytes == cylinders * 2 * 512 * sectors then done (cylinders, sectors) else rest

-- The value of the first loop that returns.
abbrev pub or_else : {A : Type 0} → Outcome A → Outcome A → Outcome A
or_else (done a) r = done a
or_else fail r = r
or_else panic r = panic

unfoldable pub sectors_loop : ℕ → List ℕ → Outcome (ℕ × ℕ)
unfolding cylinders_loop
sectors_loop number_bytes [] = fail
sectors_loop number_bytes (sectors ∷ more) =
    or_else (cylinders_loop number_bytes sectors possible_cylinder_counts)
      (sectors_loop number_bytes more)

unfoldable pub calculate_floppy_geometry : ℕ → Outcome (ℕ × ℕ)
unfolding sectors_loop
calculate_floppy_geometry number_bytes = sectors_loop number_bytes possible_sector_counts

pub record IsoGeometry : Type 0 where
  pub sectors_per_track : ℕ
  pub gap1_size : ℕ  -- i32
  pub gap2_size : ℕ  -- i32
  pub gap3a_size : ℕ  -- i32
  pub gap3b_size : ℕ  -- i32
  pub gap4_size : ℕ  -- i32
  pub gap5_size : ℕ  -- i32
  pub interleaving : ℕ  -- u32

-- The sizes in their order, from gap 1 to gap 5, and the interleaving.
abbrev pub geometry : ℕ → ℕ → ℕ → ℕ → ℕ → ℕ → IsoGeometry
geometry sectors_per_track g1 g2 g4 g5 interleaving = record {
  sectors_per_track = sectors_per_track;
  gap1_size = g1;
  gap2_size = g2;
  gap3a_size = 22;
  gap3b_size = 12;
  gap4_size = g4;
  gap5_size = g5;
  interleaving = interleaving;
}

unfoldable pub new : ℕ → IsoGeometry
new n =
    if n == 10
    then geometry n 60 12 40 20 1
    else if n == 11
    then geometry n 10 3 1 10 1
    else if n == 1
    then geometry n 60 12 1 10 0
    else geometry n 60 12 40 600 0

-- `for index in index..` with count left, in a table of n entries; a target out of bounds is an error.
unfoldable pub interleaving_loop : ℕ → ℕ → ℕ → ℕ → List ℕ → Outcome (List ℕ)
interleaving_loop zero index n interleaving table = done table
interleaving_loop (suc count) index n interleaving table =
    let target = index * (interleaving + 1) % n in
    if ltb target (length table)
    then interleaving_loop count (suc index) n interleaving (set table target index)
    else fail

unfoldable pub generate_interleaving_table : ℕ → ℕ → Outcome (List ℕ)
unfolding interleaving_loop
generate_interleaving_table n interleaving = interleaving_loop n 0 n interleaving (replicate n 0)
