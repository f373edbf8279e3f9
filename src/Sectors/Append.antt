-- ===== src/Sectors/Append.antt =====
-- A sector that is added to those that were collected.
use stm32_usbfloppy_tracer.Sectors.{CollectedSector, has_index}
use stm32_usbfloppy_tracer.Sectors.Sorted.{IsDistinct}
use stm32_usbfloppy_tracer.Base.{
  Bool-cases, List, [], arith, false, inl, inr, refl, ℕ, ◌++◌, ◌==◌, ◌||◌, ◌∙◌, ◌∷◌, ◌≡◌,
}

pub has_index-append :
    (i : ℕ) (ss ts : List CollectedSector)
    → has_index i (ss ++ ts) ≡ (has_index i ss || has_index i ts)
unfolding has_index
has_index-append i [] ts = refl
has_index-append i (s ∷ ss) ts = elim (Bool-cases (s.index == i)) [
  | inl e ↦ rw e refl
  | inr e ↦ rw e (has_index-append i ss ts)
]

-- A sector that is missing can be added.
pub IsDistinct-append :
    (x : CollectedSector) (ss : List CollectedSector)
    → has_index x.index ss ≡ false
    → IsDistinct ss
    → IsDistinct (ss ++ (x ∷ []))
IsDistinct-append x [] h d = (unfold has_index in refl, tt)
IsDistinct-append x (s ∷ ss) h (d, ds) = elim (Bool-cases (s.index == x.index)) [
  | inl e ↦ absurd (unfold has_index in ground (arith, h))
  | inr e ↦ (
    has_index-append s.index ss (x ∷ []) ∙ rw d (unfold has_index in ground arith),
    IsDistinct-append x ss (unfold has_index in rw e at h) ds,
  )
]
