-- ===== src/Sectors/Order.antt =====
-- The payload of a track does not depend on the order in which its sectors were collected.
use stm32_usbfloppy_tracer.Sectors.{CollectedSector, concatenate_sectors, has_index, sort_by_index}
use stm32_usbfloppy_tracer.Sectors.Sorted.{
  Grows-full, Grows-in_order, IsDistinct, IsFrom, IsOf, has_index-sort_true, in_order, length-Grows,
  length-sort_by_index, sort_by_index-All, sort_by_index-Grows,
}
use stm32_usbfloppy_tracer.Base.{
  All, List, [], ap, arith, concat, get_or, length, refl, suc, sym, true, ℕ, ◌++◌, ◌+◌, ◌<◌, ◌∙◌,
  ◌∷◌, ◌≡◌, ◌≤◌,
}

-- Sectors with distinct indices from lo to n - 1 that leave none out are n - lo.
pub length-full_from :
    (table : ℕ → List ℕ) (lo n : ℕ) (ss : List CollectedSector)
    → lo ≤ n
    → All (IsFrom lo) ss
    → All (IsOf table n) ss
    → IsDistinct ss
    → ((i : ℕ) → lo ≤ i → i < n → has_index i ss ≡ true)
    → lo + length ss ≡ n
length-full_from table lo n ss l f h d full =
    let g = sort_by_index-Grows lo ss f d in
    let a = sort_by_index-All (IsOf table n) ss h in
    omega (
      arith,
      length-sort_by_index ss,
      length-Grows table n lo (sort_by_index ss) l g a,
      Grows-full table n lo (sort_by_index ss) l g a
          (λ i p q. sym (has_index-sort_true i ss) ∙ full i p q),
    )

-- As many such sectors as fit make the payload of the table from lo on, in whatever order they were
-- collected.
pub concatenate_sectors-in_order_from :
    (table : ℕ → List ℕ) (lo n cylinder head : ℕ) (ss : List CollectedSector)
    → All (IsFrom lo) ss
    → All (IsOf table n) ss
    → IsDistinct ss
    → lo + length ss ≡ n
    → (concatenate_sectors ss cylinder head).payload ≡ in_order table lo (length ss)
concatenate_sectors-in_order_from table lo n cylinder head ss f h d e =
    let m = length-sort_by_index ss in
    unfold concatenate_sectors in
    Grows-in_order table n lo (sort_by_index ss) (sort_by_index-Grows lo ss f d)
      (sort_by_index-All (IsOf table n) ss h) (omega (arith, m, e))
    ∙ ap (in_order table lo) m

-- The payload of a table that lists its sectors.
pub in_order-list :
    (sectors : List (List ℕ)) (table : ℕ → List ℕ) (s : ℕ)
    → ((i : ℕ) → get_or sectors i [] ≡ table (s + i))
    → in_order table s (length sectors) ≡ concat sectors
unfolding in_order
in_order-list [] table s same = refl
in_order-list (bs ∷ sectors) table s same =
    let first : table s ≡ bs = sym (same 0 ∙ ap table (omega arith)) in
    rw first (
      ap (λ l. bs ++ l)
        (in_order-list sectors table (suc s) (λ i. same (suc i) ∙ ap table (omega arith))))

any-IsFrom : (ss : List CollectedSector) → All (IsFrom 0) ss
any-IsFrom [] = tt
any-IsFrom (s ∷ ss) = (omega arith, any-IsFrom ss)

-- Sectors with distinct indices below n that leave none out are n.
pub length-full :
    (table : ℕ → List ℕ) (n : ℕ) (ss : List CollectedSector)
    → All (IsOf table n) ss
    → IsDistinct ss
    → ((i : ℕ) → i < n → has_index i ss ≡ true)
    → length ss ≡ n
length-full table n ss h d full =
    omega
      (arith, length-full_from table 0 n ss (omega arith) (any-IsFrom ss) h d (λ i p q. full i q))

-- Sectors of a table with distinct indices below n, n of them, make the payload of the table in its order, in
-- whatever order they were collected.
pub concatenate_sectors-in_order :
    (table : ℕ → List ℕ) (n cylinder head : ℕ) (ss : List CollectedSector)
    → All (IsOf table n) ss
    → IsDistinct ss
    → length ss ≡ n
    → (concatenate_sectors ss cylinder head).payload ≡ in_order table 0 n
concatenate_sectors-in_order table n cylinder head ss h d e =
    concatenate_sectors-in_order_from table 0 n cylinder head ss (any-IsFrom ss) h d
      (omega (arith, e))
    ∙ ap (in_order table 0) e
