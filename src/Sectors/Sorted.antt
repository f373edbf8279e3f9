-- ===== src/Sectors/Sorted.antt =====
-- Collected sectors sorted by their indices.
use stm32_usbfloppy_tracer.Sectors.{
  CollectedSector, has_index, insert_sector, payload_of, sort_by_index,
}
use stm32_usbfloppy_tracer.Base.{
  ==_iff, All, Bool, Bool-cases, List, [], ap, arith, concat, false, inl, inr, leb, length, ltb,
  ltb→ge, ltb→lt, map, ne→==, refl, suc, sym, true, zero, ℕ, ◌++◌, ◌+◌, ◌<◌, ◌==◌, ◌||◌, ◌∙◌, ◌∷◌,
  ◌≡◌, ◌≤◌,
}

-- The table's payloads from sector `from` on, n of them.
unfoldable pub in_order : (ℕ → List ℕ) → ℕ → ℕ → List ℕ
in_order table from zero = []
in_order table from (suc n) = table from ++ in_order table (suc from) n

-- No two sectors have one index.
abbrev pub IsDistinct : List CollectedSector → Type 0
IsDistinct [] = Unit
IsDistinct (s ∷ ss) = (has_index s.index ss ≡ false) × IsDistinct ss

-- A sector of the table, with an index below n.
abbrev pub IsOf : (ℕ → List ℕ) → ℕ → CollectedSector → Type 0
IsOf table n s = (s.index < n) × (s.payload ≡ table s.index)

abbrev pub IsFrom : ℕ → CollectedSector → Type 0
IsFrom lo s = lo ≤ s.index

-- Indices that grow, from lo on.
unfoldable pub Grows : ℕ → List CollectedSector → Type 0
Grows lo [] = Unit
Grows lo (s ∷ ss) = (lo ≤ s.index) × Grows (suc s.index) ss

insert_sector-All :
    (P : CollectedSector → Type 0) (s : CollectedSector) (ss : List CollectedSector)
    → P s
    → All P ss
    → All P (insert_sector s ss)
unfolding insert_sector
insert_sector-All P s [] h hs = (h, tt)
insert_sector-All P s (t ∷ ts) h (ht, hs) = elim (Bool-cases (leb s.index t.index)) [
  | inl e ↦ rw e (h, (ht, hs))
  | inr e ↦ rw e (ht, insert_sector-All P s ts h hs)
]

pub sort_by_index-All :
    (P : CollectedSector → Type 0) (ss : List CollectedSector) → All P ss → All P (sort_by_index ss)
unfolding sort_by_index
sort_by_index-All P [] h = tt
sort_by_index-All P (s ∷ ss) (h, hs) =
    insert_sector-All P s (sort_by_index ss) h (sort_by_index-All P ss hs)

length-insert_sector :
    (s : CollectedSector) (ss : List CollectedSector)
    → length (insert_sector s ss) ≡ suc (length ss)
unfolding insert_sector
length-insert_sector s [] = refl
length-insert_sector s (t ∷ ts) = ground (arith, length-insert_sector s ts)

pub length-sort_by_index : (ss : List CollectedSector) → length (sort_by_index ss) ≡ length ss
unfolding sort_by_index
length-sort_by_index [] = refl
length-sort_by_index (s ∷ ss) =
    length-insert_sector s (sort_by_index ss) ∙ ap suc (length-sort_by_index ss)

has_index-insert_sector :
    (i : ℕ) (s : CollectedSector) (ss : List CollectedSector)
    → (s.index == i) ≡ false
    → has_index i ss ≡ false
    → has_index i (insert_sector s ss) ≡ false
unfolding insert_sector has_index
has_index-insert_sector i s [] h hs = rw h refl
has_index-insert_sector i s (t ∷ ts) h hs = ground (arith, has_index-insert_sector i s ts h)

has_index-sort_by_index :
    (i : ℕ) (ss : List CollectedSector)
    → has_index i ss ≡ false
    → has_index i (sort_by_index ss) ≡ false
unfolding sort_by_index has_index
has_index-sort_by_index i [] h = h
has_index-sort_by_index i (s ∷ ss) h = elim (Bool-cases (s.index == i)) [
  | inl e ↦ absurd (cc (h, e))
  | inr e ↦
      has_index-insert_sector i s (sort_by_index ss) e (has_index-sort_by_index i ss (rw e at h))
]

ltb_ne : (a b : ℕ) → leb a b ≡ true → (b == a) ≡ false → a < b
ltb_ne a b h e = ground arith

leb-above : (a b : ℕ) → leb a b ≡ false → b < a
leb-above a b h = ground arith

insert_sector-Grows :
    (lo : ℕ) (s : CollectedSector) (ss : List CollectedSector)
    → lo ≤ s.index
    → has_index s.index ss ≡ false
    → Grows lo ss
    → Grows lo (insert_sector s ss)
unfolding Grows insert_sector has_index
insert_sector-Grows lo s [] l h g = (l, tt)
insert_sector-Grows lo s (t ∷ ts) l h (lt, g) = elim (Bool-cases (t.index == s.index)) [
  | inl e ↦ absurd (cc (h, e))
  | inr e ↦ elim (Bool-cases (leb s.index t.index)) [
    | inl q ↦ rw q (l, (ltb_ne s.index t.index q e, g))
    | inr q ↦
        rw q
          (lt, insert_sector-Grows (suc t.index) s ts (leb-above s.index t.index q) (rw e at h) g)
  ]
]

pub sort_by_index-Grows :
    (lo : ℕ) (ss : List CollectedSector)
    → All (IsFrom lo) ss
    → IsDistinct ss
    → Grows lo (sort_by_index ss)
unfolding sort_by_index
sort_by_index-Grows lo [] h d = unfold Grows in tt
sort_by_index-Grows lo (s ∷ ss) (l, h) (d, ds) =
    insert_sector-Grows lo s (sort_by_index ss) l (has_index-sort_by_index s.index ss d)
      (sort_by_index-Grows lo ss h ds)

-- Growing indices below n leave no room for more sectors.
pub length-Grows :
    (table : ℕ → List ℕ) (n lo : ℕ) (ss : List CollectedSector)
    → lo ≤ n
    → Grows lo ss
    → All (IsOf table n) ss
    → lo + length ss ≤ n
unfolding Grows
length-Grows table n lo [] l g h = omega arith
length-Grows table n lo (s ∷ ss) l (k, g) ((b, e), h) =
    omega (arith, length-Grows table n (suc s.index) ss (omega arith) g h)

-- As many growing indices as fit are all of them.
pub Grows-in_order :
    (table : ℕ → List ℕ) (n lo : ℕ) (ss : List CollectedSector)
    → Grows lo ss
    → All (IsOf table n) ss
    → lo + length ss ≡ n
    → concat (map payload_of ss) ≡ in_order table lo (length ss)
unfolding Grows in_order
Grows-in_order table n lo [] g h e = refl
Grows-in_order table n lo (s ∷ ss) (k, g) ((b, p), h) e =
    let room = length-Grows table n (suc s.index) ss (omega arith) g h in
    let first : s.index ≡ lo = omega (arith, room) in
    let rest = Grows-in_order table n (suc lo) ss (rw first at g) h (omega arith) in
    rw p (rw first (ap (λ l. table lo ++ l) rest))

-- Growing indices above i do not have i.
Grows-has_index :
    (i lo : ℕ) (ss : List CollectedSector) → i < lo → Grows lo ss → has_index i ss ≡ false
unfolding Grows has_index
Grows-has_index i lo [] l g = refl
Grows-has_index i lo (s ∷ ss) l (k, g) =
    rw (ne→== s.index i (λ e. ground arith)) (Grows-has_index i (suc s.index) ss (omega arith) g)

index_first :
    (lo : ℕ) (s : CollectedSector) (ss : List CollectedSector)
    → lo ≤ s.index
    → Grows (suc s.index) ss
    → has_index lo (s ∷ ss) ≡ true
    → s.index ≡ lo
unfolding has_index
index_first lo s ss k g h = elim (Bool-cases (s.index == lo)) [
  | inl e ↦ (==_iff s.index lo).0 e
  | inr e ↦ absurd (cc (h, e, Grows-has_index lo (suc s.index) ss (omega arith) g))
]

-- Growing indices that leave none out, from lo to n, are n - lo.
pub Grows-full :
    (table : ℕ → List ℕ) (n lo : ℕ) (ss : List CollectedSector)
    → lo ≤ n
    → Grows lo ss
    → All (IsOf table n) ss
    → ((i : ℕ) → lo ≤ i → i < n → has_index i ss ≡ true)
    → n ≤ lo + length ss
unfolding Grows has_index
Grows-full table n lo [] l g h full = elim (Bool-cases (ltb lo n)) [
  | inl e ↦ absurd (cc (full lo (omega arith) (ltb→lt lo n e)))
  | inr e ↦ omega (arith, ltb→ge lo n e)
]
Grows-full table n lo (s ∷ ss) l (k, g) ((b, p), h) full =
    let first : s.index ≡ lo = index_first lo s ss k g (full lo (omega arith) (omega arith)) in
    omega (
      arith,
      Grows-full table n (suc s.index) ss b g h (λ i q r.
          ap (λ b. b || has_index i ss) (sym (ne→== s.index i (λ e. ground arith)))
          ∙ full i (omega arith) r),
    )

or_swap : (a b c : Bool) → (a || (b || c)) ≡ (b || (a || c))
or_swap true true c = refl
or_swap true false c = refl
or_swap false b c = refl

has_index-insert_true :
    (i : ℕ) (s : CollectedSector) (ss : List CollectedSector)
    → has_index i (s ∷ ss) ≡ has_index i (insert_sector s ss)
unfolding insert_sector has_index
has_index-insert_true i s [] = refl
has_index-insert_true i s (t ∷ ts) = elim (Bool-cases (leb s.index t.index)) [
  | inl e ↦ rw e refl
  | inr e ↦ rw e (
      or_swap (s.index == i) (t.index == i) (has_index i ts)
      ∙ ap (λ b. (t.index == i) || b) (has_index-insert_true i s ts))
]

pub has_index-sort_true :
    (i : ℕ) (ss : List CollectedSector) → has_index i ss ≡ has_index i (sort_by_index ss)
unfolding sort_by_index has_index
has_index-sort_true i [] = refl
has_index-sort_true i (s ∷ ss) =
    ap (λ b. (s.index == i) || b) (has_index-sort_true i ss)
    ∙ has_index-insert_true i s (sort_by_index ss)
