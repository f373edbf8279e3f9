-- ===== src/CellData/Laws.antt =====
-- util/src/lib.rs: splitting neither loses nor moves a cell, and reducing keeps every cell's size.
use native.Mathlib.Nat.{zero-add, add-zero, suc-add}
use mathlib.Core.List.{reverse-cons, reverse-reverse}
use stm32_usbfloppy_tracer.Base.{
  ==_iff, Bool, Bool-cases, List, [], ap, append-nil, append_assoc, arith, concat, done, drop,
  drop-drop, eq→==, fail, if◌then◌else◌, inl, inr, leb, leb→le, length, length-drop, length-take,
  le→leb, ltb, ltb→ge, ltb→lt, map, ne→==, panic, refl, replicate, reverse, suc, take, take-add,
  take_all, zero, ℕ, ◌++◌, ◌+◌, ◌<◌, ◌==◌, ◌∙◌, ◌∷◌, ◌≡◌, ◌≢◌, ◌≤◌,
}
use stm32_usbfloppy_tracer.CellData.{
  DensityMap, DensityMapEntry, RawCellData, RawCellPart, construct, reduce_densitymap, reduce_loop,
  split_in_parts, split_loop,
}

-- The cell bytes that a density map describes.
abbrev pub total_bytes : DensityMap → ℕ
total_bytes [] = 0
total_bytes (e ∷ es) = e.number_of_cellbytes + total_bytes es

abbrev pub part_of : DensityMapEntry → ℕ × ℕ
part_of e = (e.cell_size, e.number_of_cellbytes)

abbrev pub size_of : RawCellPart → ℕ × ℕ
size_of p = (p.cell_size, length p.cells)

abbrev pub part_cells : RawCellPart → List ℕ
part_cells p = p.cells

-- From an offset on: the parts have the sizes of the map and hold the cells in order.
split_loop_fits :
    (speeds : DensityMap) (cells : List ℕ) (offset : ℕ)
    → offset + total_bytes speeds ≤ length cells
    → (parts : List RawCellPart) × (split_loop speeds cells offset
        ≡ done (parts, offset + total_bytes speeds))
      × (map size_of parts ≡ map part_of speeds)
      × (concat (map part_cells parts) ≡ take (total_bytes speeds) (drop offset cells))
unfolding split_loop
split_loop_fits [] cells offset h = ([], rw add-zero, refl, refl)
split_loop_fits (s ∷ speeds) cells offset h =
    let n = s.number_of_cellbytes in
    let (parts, e, sizes, content) = split_loop_fits speeds cells (offset + n) (omega arith) in
    let taken = take n (drop offset cells) in
    let part : RawCellPart = record { cell_size = s.cell_size; cells = taken } in
    let len : length taken ≡ n =
      omega (arith, length-take n (drop offset cells), length-drop offset cells) in
    let assoc : offset + n + total_bytes speeds ≡ offset + (n + total_bytes speeds) = omega arith in
    (
      part ∷ parts,
      rw (le→leb (offset + n) (length cells) (omega arith)) (rw (e, assoc)),
      rw (len, sizes),
      rw (content, take-add n (total_bytes speeds) (drop offset cells), drop-drop offset n cells),
    )

-- Where a map asks for more than there is, the loop fails.
split_loop_short :
    (speeds : DensityMap) (cells : List ℕ) (offset : ℕ)
    → offset ≤ length cells
    → length cells < offset + total_bytes speeds
    → split_loop speeds cells offset ≡ fail
unfolding split_loop
split_loop_short [] cells offset ho h = absurd (omega arith)
split_loop_short (s ∷ speeds) cells offset ho h =
    elim (Bool-cases (leb (offset + s.number_of_cellbytes) (length cells))) [
      | inr short ↦ rw short
      | inl fits ↦ rw fits (
          rw (
            split_loop_short speeds cells (offset + s.number_of_cellbytes) (leb→le _ _ fits)
              (omega arith)))
    ]

-- With a map that describes exactly the cells, `split_in_parts` returns parts of the map's cell
-- sizes and lengths, in order, that together are the cells.
pub split_in_parts_fits :
    (speeds : DensityMap) (cells : List ℕ)
    → total_bytes speeds ≡ length cells
    → (parts : List RawCellPart) × (split_in_parts speeds cells ≡ done parts)
      × (map size_of parts ≡ map part_of speeds)
      × (concat (map part_cells parts) ≡ cells)
unfolding split_in_parts
split_in_parts_fits speeds cells e =
    let (parts, r, sizes, content) = split_loop_fits speeds cells 0 (omega arith) in
    (
      parts,
      rw r (rw (eq→== (0 + total_bytes speeds) (length cells) (omega arith))),
      sizes,
      content ∙ rw (e, take_all cells),
    )

-- With a map that does not describe exactly the cells, `split_in_parts` returns `None` where the map
-- asks for more cells than there are, and panics where it leaves cells over.
pub split_in_parts_misfits :
    (speeds : DensityMap) (cells : List ℕ)
    → total_bytes speeds ≢ length cells
    → split_in_parts speeds cells
      ≡ (if ltb (length cells) (total_bytes speeds) then fail else panic)
unfolding split_in_parts
split_in_parts_misfits speeds cells h =
    elim (Bool-cases (ltb (length cells) (total_bytes speeds))) [
      | inl l ↦
          (let lt = ltb→lt (length cells) (total_bytes speeds) l in
            rw (l, split_loop_short speeds cells 0 (omega arith) (omega arith)))
      | inr g ↦
          (let ge = ltb→ge (length cells) (total_bytes speeds) g in
            let (parts, r, sizes, content) = split_loop_fits speeds cells 0 (omega arith) in
            rw (g, r, ne→== (0 + total_bytes speeds) (length cells) (λ e. h (omega arith))))
    ]

-- A map that describes exactly the cells makes cell data.
pub construct_fits :
    (speeds : DensityMap) (cells : List ℕ) (b : Bool)
    → total_bytes speeds ≡ length cells
    → (raw : RawCellData) × (construct speeds cells b ≡ done raw)
unfolding construct
construct_fits speeds cells b h =
    let (parts, e, _, _) = split_in_parts_fits speeds cells h in
    (record { speeds = speeds; cells = cells; has_non_flux_reversal_area = b; parts = parts }, rw e)

-- The cell size of every cell byte, in order.
abbrev pub cell_sizes : DensityMap → List ℕ
cell_sizes [] = []
cell_sizes (e ∷ es) = replicate e.number_of_cellbytes e.cell_size ++ cell_sizes es

cell_sizes-append : (xs ys : DensityMap) → cell_sizes (xs ++ ys) ≡ cell_sizes xs ++ cell_sizes ys
cell_sizes-append [] ys = refl
cell_sizes-append (x ∷ xs) ys = rw (cell_sizes-append xs ys, append_assoc)

replicate-add : (n m c : ℕ) → replicate (n + m) c ≡ replicate n c ++ replicate m c
replicate-add zero m c = rw zero-add
replicate-add (suc n) m c = rw suc-add (rw (replicate-add n m c))

-- The same of a map that is kept in reverse order.
sizes_behind : List DensityMapEntry → List ℕ
sizes_behind [] = []
sizes_behind (e ∷ behind) = sizes_behind behind ++ replicate e.number_of_cellbytes e.cell_size

sizes_behind-reverse :
    (behind : List DensityMapEntry) → cell_sizes (reverse behind) ≡ sizes_behind behind
unfolding sizes_behind
sizes_behind-reverse [] = refl
sizes_behind-reverse (e ∷ behind) =
    ap cell_sizes (reverse-cons e behind)
    ∙ cell_sizes-append (reverse behind) (e ∷ [])
    ∙ rw (sizes_behind-reverse behind, append-nil)

-- The neighbours in a density map have different cell sizes.
abbrev pub Alternates : DensityMap → Type 0
Alternates [] = Unit
Alternates (e ∷ []) = Unit
Alternates (e ∷ f ∷ es) = (e.cell_size ≢ f.cell_size) × Alternates (f ∷ es)

reduce_loop-sizes :
    (es : DensityMap) (behind : List DensityMapEntry)
    → sizes_behind (reduce_loop behind es) ≡ sizes_behind behind ++ cell_sizes es
unfolding reduce_loop sizes_behind
reduce_loop-sizes [] [] = refl
reduce_loop-sizes [] (l ∷ behind) = rw append-nil
reduce_loop-sizes (e ∷ es) [] = reduce_loop-sizes es (e ∷ [])
reduce_loop-sizes (e ∷ es) (l ∷ behind) = elim (Bool-cases (e.cell_size == l.cell_size)) [
  | inl same ↦
      let joined = record l {
        number_of_cellbytes = l.number_of_cellbytes + e.number_of_cellbytes;
      } in
      rw same (
        reduce_loop-sizes es (joined ∷ behind)
        ∙ rw
            (
              (==_iff e.cell_size l.cell_size).0 same,
              replicate-add l.number_of_cellbytes e.number_of_cellbytes l.cell_size,
            )
            (simp append_assoc))
  | inr other ↦ rw other (reduce_loop-sizes es (e ∷ l ∷ behind) ∙ rw append_assoc)
]

reduce_loop-Alternates :
    (es : DensityMap) (behind : List DensityMapEntry)
    → Alternates behind
    → Alternates (reduce_loop behind es)
unfolding reduce_loop
reduce_loop-Alternates [] [] h = h
reduce_loop-Alternates [] (l ∷ behind) h = h
reduce_loop-Alternates (e ∷ es) [] h = reduce_loop-Alternates es (e ∷ []) tt
reduce_loop-Alternates (e ∷ es) (l ∷ behind) h = elim (Bool-cases (e.cell_size == l.cell_size)) [
  | inl same ↦ rw same (reduce_loop-Alternates es _ (same_size behind h))
  | inr other ↦ rw other (reduce_loop-Alternates es (e ∷ l ∷ behind) (ground arith, h))
]
  where
    same_size :
        (behind : List DensityMapEntry)
        → Alternates (l ∷ behind)
        → Alternates (
            record l { number_of_cellbytes = l.number_of_cellbytes + e.number_of_cellbytes }
            ∷ behind)
    same_size [] h = tt
    same_size (f ∷ behind) h = h

-- `reduce_densitymap` keeps the cell size of every cell byte, in order, and leaves no two
-- neighbours of one cell size.
pub reduce_densitymap_lem :
    (m : DensityMap)
    → (cell_sizes (reduce_densitymap m) ≡ cell_sizes m) × Alternates (reverse (reduce_densitymap m))
unfolding reduce_densitymap
reduce_densitymap_lem m = (
  sizes_behind-reverse (reduce_loop [] m) ∙ (unfold sizes_behind in reduce_loop-sizes m []),
  rw (reverse-reverse (reduce_loop [] m)) (reduce_loop-Alternates m [] tt),
)
