-- ===== src/Bitstream/Packing.antt =====
-- util/src/bitstream.rs: the bytes that a collector makes of cells hold exactly these cells.
use stm32_usbfloppy_tracer.Bitstream.{feed, new, pack, to_bit_stream}
use stm32_usbfloppy_tracer.Bitstream.RoundTrip.{at, run_eight, to_bit_streams}
use stm32_usbfloppy_tracer.Base.{
  Bit, Bool, List, [], ap, arith, bits_value, drop, false, length, length-drop, length-take, refl,
  run, run-then, suc, sym, take, take-append-drop, true, u8, zero, ℕ, ◌&&◌, ◌*◌, ◌++◌, ◌∙◌, ◌∷◌,
  ◌≡◌,
}

-- A test on all lists of n cells.
unfoldable all_cells : ℕ → (List Bit → Bool) → Bool
all_cells zero test = test []
all_cells (suc n) test =
    all_cells n (λ bs. test (true ∷ bs)) && all_cells n (λ bs. test (false ∷ bs))

both : (a b : Bool) → (a && b) ≡ true → (a ≡ true) × (b ≡ true)
both true b h = (refl, h)
both false b h = absurd (cc h)

all_cells_at :
    (bs : List Bit) (n : ℕ) (test : List Bit → Bool)
    → all_cells n test ≡ true
    → length bs ≡ n
    → test bs ≡ true
unfolding all_cells
all_cells_at [] zero test h e = h
all_cells_at [] (suc n) test h e = absurd (omega arith)
all_cells_at (b ∷ bs) zero test h e = absurd (omega arith)
all_cells_at (true ∷ bs) (suc n) test h e =
    all_cells_at bs n (λ l. test (true ∷ l)) (both _ _ h).0 (omega arith)
all_cells_at (false ∷ bs) (suc n) test h e =
    all_cells_at bs n (λ l. test (false ∷ l)) (both _ _ h).1 (omega arith)

unfoldable same_cells : List Bit → List Bit → Bool
same_cells [] [] = true
same_cells [] (b ∷ bs) = false
same_cells (a ∷ xs) [] = false
same_cells (true ∷ xs) (true ∷ bs) = same_cells xs bs
same_cells (true ∷ xs) (false ∷ bs) = false
same_cells (false ∷ xs) (true ∷ bs) = false
same_cells (false ∷ xs) (false ∷ bs) = same_cells xs bs

same_cells_eq : (xs bs : List Bit) → same_cells xs bs ≡ true → xs ≡ bs
unfolding same_cells
same_cells_eq [] [] h = refl
same_cells_eq [] (b ∷ bs) h = absurd (cc h)
same_cells_eq (a ∷ xs) [] h = absurd (cc h)
same_cells_eq (true ∷ xs) (true ∷ bs) h = ap (λ l. true ∷ l) (same_cells_eq xs bs h)
same_cells_eq (true ∷ xs) (false ∷ bs) h = absurd (cc h)
same_cells_eq (false ∷ xs) (true ∷ bs) h = absurd (cc h)
same_cells_eq (false ∷ xs) (false ∷ bs) h = ap (λ l. false ∷ l) (same_cells_eq xs bs h)

eight_cells_table : all_cells 8 (λ bs. same_cells (to_bit_stream (u8 (bits_value 0 bs))) bs) ≡ true
unfolding all_cells same_cells to_bit_stream bits_value
eight_cells_table = refl

eight_cells : (bs : List Bit) → length bs ≡ 8 → to_bit_stream (u8 (bits_value 0 bs)) ≡ bs
eight_cells bs h = same_cells_eq _ bs (
    all_cells_at bs 8 (λ l. same_cells (to_bit_stream (u8 (bits_value 0 l))) l) eight_cells_table h)

run-whole_bytes :
    (k y : ℕ) (cells : List Bit)
    → length cells ≡ 8 * k
    → to_bit_streams (run feed (at 0 y) cells).1 ≡ cells
run-whole_bytes zero y [] h = unfold run in refl
run-whole_bytes zero y (c ∷ cells) h = absurd (omega arith)
run-whole_bytes (suc k) y cells h =
    let one = take 8 cells in
    let rest = drop 8 cells in
    let l : length one ≡ 8 = omega (arith, length-take 8 cells) in
    let v = u8 (bits_value 0 one) in
    ap (λ c. to_bit_streams (run feed (at 0 y) c).1) (sym (take-append-drop 8 cells))
    ∙ ap (λ r. to_bit_streams r.1)
        (run-then feed (at 0 y) (at 0 v) one rest (v ∷ []) (run_eight y one l))
    ∙ ap (λ c. to_bit_stream v ++ c) (run-whole_bytes k v rest (omega (arith, length-drop 8 cells)))
    ∙ ap (λ c. c ++ rest) (eight_cells one l)
    ∙ take-append-drop 8 cells

-- The bytes of whole bytes of cells hold these cells.
pub to_bit_streams-pack :
    (k : ℕ) (cells : List Bit) → length cells ≡ 8 * k → to_bit_streams (pack cells) ≡ cells
unfolding pack new
to_bit_streams-pack k cells h = run-whole_bytes k 0 cells h
