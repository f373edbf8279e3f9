-- ===== src/RawTrack.antt =====
-- tool/src/rawtrack.rs: the tracks of an image as they go to the device.
pub mod Filter
pub mod Writability
use stm32_usbfloppy_tracer.Base.{
  Bool, List, Option, [], false, if◌then◌else◌, leb, none, some, true, ℕ, ◌&&◌, ◌==◌, ◌∷◌,
}
use stm32_usbfloppy_tracer.CellData.{Density, DensityMap, DiskType, Encoding}

pub record RawTrack : Type 0 where
  pub cylinder : ℕ  -- u32
  pub head : ℕ  -- u32
  pub raw_data : List ℕ
  pub densitymap : DensityMap
  pub encoding : Encoding
  pub write_precompensation : ℕ  -- u32
  pub has_non_flux_reversal_area : Bool

pub record RawImage : Type 0 where
  pub density : Density
  pub disk_type : DiskType
  pub tracks : List RawTrack

unfoldable pub new : ℕ → ℕ → List ℕ → DensityMap → Encoding → RawTrack
new cylinder head raw_data densitymap encoding = record {
  cylinder = cylinder;
  head = head;
  raw_data = raw_data;
  densitymap = densitymap;
  encoding = encoding;
  write_precompensation = 0;
  has_non_flux_reversal_area = false;
}

pub record TrackFilter : Type 0 where
  pub cyl_start : Option ℕ
  pub cyl_end : Option ℕ
  pub head : Option ℕ

-- `if let Some(x) = bound { test } else { true }`.
abbrev pub holds : Option ℕ → (ℕ → Bool) → Bool
holds none test = true
holds (some x) test = test x

unfoldable pub selects : TrackFilter → RawTrack → Bool
selects filter f =
    holds filter.cyl_start (λ s. leb s f.cylinder)
    && (holds filter.cyl_end (λ e. leb f.cylinder e) && holds filter.head (λ h. f.head == h))

-- `Vec::retain`.
unfoldable pub retain : (RawTrack → Bool) → List RawTrack → List RawTrack
retain keep [] = []
retain keep (t ∷ ts) = let rest = retain keep ts in if keep t then t ∷ rest else rest

unfoldable pub filter_tracks : RawImage → TrackFilter → RawImage
unfolding retain selects
filter_tracks image filter = record image { tracks = retain (selects filter) image.tracks }
