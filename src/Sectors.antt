-- ===== src/Sectors.antt =====
-- tool/src/track_parser/mod.rs: what the track parsers collect, and the payload made of it.
pub mod Sorted
pub mod Append
pub mod Order
use stm32_usbfloppy_tracer.Base.{
  Bool, List, [], concat, false, if◌then◌else◌, leb, map, ℕ, ◌==◌, ◌||◌, ◌∷◌,
}

pub record TrackPayload : Type 0 where
  pub cylinder : ℕ  -- u32
  pub head : ℕ  -- u32
  pub payload : List ℕ

pub record CollectedSector : Type 0 where
  pub index : ℕ  -- u32
  pub payload : List ℕ

-- `sort_by_key(|f| f.index)`, which is stable: a sector stays before its equals.
unfoldable pub insert_sector : CollectedSector → List CollectedSector → List CollectedSector
insert_sector s [] = s ∷ []
insert_sector s (t ∷ ts) =
    let later = insert_sector s ts in if leb s.index t.index then s ∷ t ∷ ts else t ∷ later

unfoldable pub sort_by_index : List CollectedSector → List CollectedSector
unfolding insert_sector
sort_by_index [] = []
sort_by_index (s ∷ ss) = insert_sector s (sort_by_index ss)

abbrev pub payload_of : CollectedSector → List ℕ
payload_of s = s.payload

unfoldable pub concatenate_sectors : List CollectedSector → ℕ → ℕ → TrackPayload
unfolding sort_by_index
concatenate_sectors collected_sectors cylinder head = record {
  cylinder = cylinder;
  head = head;
  payload = concat (map payload_of (sort_by_index collected_sectors));
}

-- `iter().any(|f| f.index == index)`.
unfoldable pub has_index : ℕ → List CollectedSector → Bool
has_index index [] = false
has_index index (s ∷ ss) = (s.index == index) || has_index index ss
