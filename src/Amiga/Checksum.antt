-- ===== src/Amiga/Checksum.antt =====
-- tool/src/image_reader/image_adf.rs and tool/src/track_parser/amiga.rs: the checksums agree.
use stm32_usbfloppy_tracer.Amiga.{amiga_mfm_mask, data_checksum, even_bits, odd_bits}
use stm32_usbfloppy_tracer.Amiga.Parser.{xor_all}
use stm32_usbfloppy_tracer.Base.{
  List, [], ap, bit_and-bit_xor, bit_and_twice, bit_xor, bit_xor-zero, bit_xor_assoc, bit_xor_comm,
  bit_xor_self, bit_xor_swap, map, refl, sym, zero-bit_xor, ℕ, ◌/◌, ◌∙◌, ◌∷◌, ◌≡◌,
}

xor_all-from : (c : ℕ) (xs : List ℕ) → xor_all c xs ≡ bit_xor c (xor_all 0 xs)
unfolding xor_all
xor_all-from c [] = sym (bit_xor-zero c)
xor_all-from c (x ∷ xs) =
    xor_all-from (bit_xor c x) xs
    ∙ bit_xor_assoc c x (xor_all 0 xs)
    ∙ ap (bit_xor c) (sym (xor_all-from x xs) ∙ ap (λ v. xor_all v xs) (sym (zero-bit_xor x)))

-- The checksum that is written is that of the odd bits and of the even bits, in any order.
data_checksum_lem :
    (c : ℕ) (longs : List ℕ)
    → data_checksum c longs
      ≡ bit_xor c (bit_xor (xor_all 0 (map odd_bits longs)) (xor_all 0 (map even_bits longs)))
unfolding data_checksum xor_all
data_checksum_lem c [] = rw (zero-bit_xor 0) (sym (bit_xor-zero c))
data_checksum_lem c (x ∷ longs) =
    let o = odd_bits x in
    let e = even_bits x in
    let os = xor_all 0 (map odd_bits longs) in
    let es = xor_all 0 (map even_bits longs) in
    data_checksum_lem (bit_xor (bit_xor c e) o) longs
    ∙ ap (λ v. bit_xor v (bit_xor os es)) (bit_xor_assoc c e o ∙ ap (bit_xor c) (bit_xor_comm e o))
    ∙ bit_xor_assoc c (bit_xor o e) (bit_xor os es)
    ∙ ap (bit_xor c) (
        bit_xor_swap o e os es
        ∙ ap (λ v. bit_xor v (bit_xor e es))
            (sym (xor_all-from o (map odd_bits longs))
              ∙ ap (λ v. xor_all v (map odd_bits longs)) (sym (zero-bit_xor o)))
        ∙ ap (bit_xor (xor_all (bit_xor 0 o) (map odd_bits longs))) (
            sym (xor_all-from e (map even_bits longs))
            ∙ ap (λ v. xor_all v (map even_bits longs)) (sym (zero-bit_xor e))))

even_bits-data_checksum :
    (c : ℕ) (longs : List ℕ) → even_bits (data_checksum c longs) ≡ data_checksum (even_bits c) longs
unfolding data_checksum
even_bits-data_checksum c [] = refl
even_bits-data_checksum c (x ∷ longs) =
    even_bits-data_checksum (bit_xor (bit_xor c (even_bits x)) (odd_bits x)) longs
    ∙ ap (λ v. data_checksum v longs)
        (bit_and-bit_xor (bit_xor c (even_bits x)) (odd_bits x) amiga_mfm_mask
          ∙ ap (λ v. bit_xor v (even_bits (odd_bits x)))
              (bit_and-bit_xor c (even_bits x) amiga_mfm_mask
                ∙ ap (bit_xor (even_bits c)) (bit_and_twice x amiga_mfm_mask))
          ∙ ap (bit_xor (bit_xor (even_bits c) (even_bits x)))
              (bit_and_twice (x / 2) amiga_mfm_mask))

-- What the parser adds up for the data of a sector is 0.
pub data_sum :
    (longs : List ℕ)
    → xor_all
        (xor_all
          (xor_all 0 (odd_bits 0 ∷ even_bits (data_checksum 0 longs) ∷ []))
          (map odd_bits longs))
        (map even_bits longs)
      ≡ 0
unfolding xor_all
data_sum longs =
    let os = map odd_bits longs in
    let es = map even_bits longs in
    let k = data_checksum 0 longs in
    let start = bit_xor (bit_xor 0 (odd_bits 0)) (even_bits k) in
    let k_lem = data_checksum_lem 0 longs ∙ zero-bit_xor (bit_xor (xor_all 0 os) (xor_all 0 es)) in
    let start_lem : start ≡ k = zero-bit_xor (even_bits k) ∙ even_bits-data_checksum 0 longs in
    xor_all-from (xor_all start os) es
    ∙ ap (λ v. bit_xor v (xor_all 0 es)) (xor_all-from start os)
    ∙ bit_xor_assoc start (xor_all 0 os) (xor_all 0 es)
    ∙ ap (λ v. bit_xor v (bit_xor (xor_all 0 os) (xor_all 0 es))) start_lem
    ∙ ap (bit_xor k) (sym k_lem)
    ∙ bit_xor_self k

-- What it adds up for the header is 0.
pub header_sum :
    (header : ℕ)
    → xor_all (bit_xor (odd_bits header) (even_bits header)) (
        0
        ∷ 0
        ∷ 0
        ∷ 0
        ∷ 0
        ∷ 0
        ∷ 0
        ∷ 0
        ∷ 0
        ∷ even_bits (bit_xor (odd_bits header) (even_bits header))
        ∷ [])
      ≡ 0
unfolding xor_all
header_sum header =
    let x = bit_xor (odd_bits header) (even_bits header) in
    let e : even_bits x ≡ x =
      bit_and-bit_xor (odd_bits header) (even_bits header) amiga_mfm_mask
      ∙ ap (λ v. bit_xor v (even_bits (even_bits header)))
          (bit_and_twice (header / 2) amiga_mfm_mask)
      ∙ ap (bit_xor (odd_bits header)) (bit_and_twice header amiga_mfm_mask) in
    rw e (simp bit_xor-zero (bit_xor_self x))
