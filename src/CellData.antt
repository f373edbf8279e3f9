-- ===== src/CellData.antt =====
-- util/src/lib.rs: tracks, density maps, and raw cells split by their density.
pub mod Laws
use stm32_usbfloppy_tracer.Base.{
  Bool, List, Outcome, [], done, drop, fail, if◌then◌else◌, leb, length, lt_i32, ltb, panic,
  reverse, sub32, take, ℕ, ◌+◌, ◌==◌, ◌>>=◌, ◌∷◌,
}

pub data Encoding : Type 0 where
  gcr mfm : Encoding

pub data DiskType : Type 0 where
  inch_3_5 inch_5_25 : DiskType

pub data DriveSelectState : Type 0 where
  unselected drive_a drive_b : DriveSelectState

pub data Density : Type 0 where
  high single_double : Density

-- `struct Track`, with `Cylinder(u8)` and `Head(u8)`.
pub record Track : Type 0 where
  pub cylinder : ℕ
  pub head : ℕ

-- `|a - b| < threshold` on i32 patterns; `i32::abs` keeps the pattern of the least i32.
unfoldable pub similar : ℕ → ℕ → ℕ → Bool
similar a b threshold =
    let d = sub32 a b in lt_i32 (if ltb d 2147483648 then d else sub32 0 d) threshold

pub record DensityMapEntry : Type 0 where
  pub number_of_cellbytes : ℕ  -- usize
  pub cell_size : ℕ  -- PulseDuration(i32)

abbrev pub DensityMap : Type 0
DensityMap = List DensityMapEntry

-- `reduce_densitymap` builds its result from the front and looks at the last entry: here the result
-- so far is kept in reverse order.
unfoldable pub reduce_loop : List DensityMapEntry → DensityMap → List DensityMapEntry
reduce_loop behind [] = behind
reduce_loop [] (e ∷ es) = reduce_loop (e ∷ []) es
reduce_loop (last ∷ behind) (e ∷ es) =
    reduce_loop
      (if e.cell_size == last.cell_size
        then record last { number_of_cellbytes = last.number_of_cellbytes + e.number_of_cellbytes }
          ∷ behind
        else e ∷ last ∷ behind)
      es

unfoldable pub reduce_densitymap : DensityMap → DensityMap
unfolding reduce_loop
reduce_densitymap densitymap = reverse (reduce_loop [] densitymap)

pub record RawCellPart : Type 0 where
  pub cell_size : ℕ
  pub cells : List ℕ

-- `cells.get(start .. start + n)`: `None` where the range passes the end.
abbrev pub slice : ℕ → ℕ → List ℕ → Outcome (List ℕ)
slice start n cells =
    if leb (start + n) (length cells) then done (take n (drop start cells)) else fail

-- The loop of `split_in_parts`, with the parts so far in front and the offset that is reached.
unfoldable pub split_loop : DensityMap → List ℕ → ℕ → Outcome (List RawCellPart × ℕ)
split_loop [] cells offset = done ([], offset)
split_loop (speed ∷ speeds) cells offset = slice offset speed.number_of_cellbytes cells >>= λ taken.
    split_loop speeds cells (offset + speed.number_of_cellbytes) >>= λ r.
    done ((record { cell_size = speed.cell_size; cells = taken }) ∷ r.0, r.1)

-- The `assert_eq!` behind the loop panics where cells are left over.
unfoldable pub split_in_parts : DensityMap → List ℕ → Outcome (List RawCellPart)
unfolding split_loop
split_in_parts speeds cells =
    split_loop speeds cells 0 >>= λ r. if r.1 == length cells then done r.0 else panic

pub record RawCellData : Type 0 where
  pub speeds : DensityMap
  pub cells : List ℕ
  pub has_non_flux_reversal_area : Bool
  pub parts : List RawCellPart

-- `construct`: the parts are borrowed from the speeds and cells beside them.
unfoldable pub construct : DensityMap → List ℕ → Bool → Outcome RawCellData
construct speeds cells has_non_flux_reversal_area = split_in_parts speeds cells >>= λ parts.
    done (record {
      speeds = speeds;
      cells = cells;
      has_non_flux_reversal_area = has_non_flux_reversal_area;
      parts = parts;
    })
