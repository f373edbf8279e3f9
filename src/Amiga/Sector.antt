-- ===== src/Amiga/Sector.antt =====
-- tool/src/track_parser/amiga.rs: parse_amiga_sector on the words that generate_sector writes.
use stm32_usbfloppy_tracer.Amiga.Checksum.{data_sum, header_sum}
use mathlib.Core.List.{head-eq_of_cons-eq, tail-eq_of_cons-eq, map-append}
use stm32_usbfloppy_tracer.Mfm.{RawMfmWord}
use stm32_usbfloppy_tracer.Amiga.{
  Half, amiga_mfm_mask, data_checksum, data_halves, even, even_bits, header_halves, odd, odd_bits,
}
use stm32_usbfloppy_tracer.Amiga.Parser.{
  join_words, parse_amiga_sector, read_even_bits, read_words, sector_body, skip_zero, to_be_bytes,
  xor_all,
}
use stm32_usbfloppy_tracer.Base.{
  All, IsU32, List, [], ap, append-nil, arith, bit_and, bit_and_le, bit_or, bit_or_comm, bit_xor,
  concat, eq→==, false, join-second_bits, length, length-map, map, refl, some, sym, u32, ℕ, ◌%◌,
  ◌*◌, ◌++◌, ◌/◌, ◌<◌, ◌==◌, ◌∙◌, ◌∷◌, ◌≡◌,
}

abbrev pub data_bits : Half → ℕ
data_bits (odd v) = odd_bits v
data_bits (even v) = even_bits v

-- Words with the given data bits, whatever their clock bits are.
abbrev pub Carries : List ℕ → List ℕ → Type 0
Carries rs bits = map even_bits rs ≡ bits

abbrev pub raws : List ℕ → List RawMfmWord
raws rs = map RawMfmWord.raw rs

read_word :
    (rs : List ℕ) (x : ℕ) (xs : List ℕ) (rest : List RawMfmWord)
    → Carries rs (x ∷ xs)
    → (rs' : List ℕ) × Carries rs' xs × (read_even_bits (raws rs ++ rest) ≡ (x, raws rs' ++ rest))
unfolding read_even_bits
read_word [] x xs rest h = absurd (cc h)
read_word (r ∷ rs) x xs rest h =
    (rs, tail-eq_of_cons-eq h, ap (λ v. (v, raws rs ++ rest)) (head-eq_of_cons-eq h))

read_several :
    (xs ys rs : List ℕ) (rest : List RawMfmWord)
    → Carries rs (xs ++ ys)
    → (rs' : List ℕ) × Carries rs' ys
      × (read_words (length xs) (raws rs ++ rest) ≡ (xs, raws rs' ++ rest))
unfolding read_words
read_several [] ys rs rest h = (rs, h, refl)
read_several (x ∷ xs) ys rs rest h =
    let (rs₁, h₁, e₁) = read_word rs x (xs ++ ys) rest h in
    let (rs₂, h₂, e₂) = read_several xs ys rs₁ rest h₁ in (rs₂, h₂, rw e₁ (rw e₂ refl))

-- A long, joined from its halves.
join_long : (v : ℕ) → v < 4294967296 → bit_or (even_bits v) (u32 (odd_bits v * 2)) ≡ v
join_long v h =
    let e : u32 (odd_bits v * 2) ≡ odd_bits v * 2 =
      omega (arith, bit_and_le (v / 2) amiga_mfm_mask) in
    rw e (join-second_bits 16 v h)

join_words_lem :
    (longs : List ℕ)
    → All IsU32 longs
    → join_words (map odd_bits longs) (map even_bits longs) ≡ concat (map to_be_bytes longs)
unfolding join_words
join_words_lem [] h = refl
join_words_lem (v ∷ longs) (hv, h) =
    rw (join_long v hv) (ap (λ l. to_be_bytes v ++ l) (join_words_lem longs h))

abbrev label_bits : ℕ → List ℕ
label_bits header =
    0
    ∷ 0
    ∷ 0
    ∷ 0
    ∷ 0
    ∷ 0
    ∷ 0
    ∷ 0
    ∷ 0
    ∷ even_bits (bit_xor (odd_bits header) (even_bits header))
    ∷ []

abbrev check_bits : List ℕ → List ℕ
check_bits longs = odd_bits 0 ∷ even_bits (data_checksum 0 longs) ∷ []

Carries-nil : (rs : List ℕ) → Carries rs [] → rs ≡ []
Carries-nil [] h = refl
Carries-nil (r ∷ rs) h = absurd (cc h)

-- The reads of a sector and its two checksums, where all are known.
body_steps :
    (s o e : ℕ) (w₀ w₁ w₂ w₃ w₄ : List RawMfmWord) (label check os es : List ℕ)
    → read_words 10 w₀ ≡ (label, w₁)
    → read_words 2 w₁ ≡ (check, w₂)
    → read_words 128 w₂ ≡ (os, w₃)
    → read_words 128 w₃ ≡ (es, w₄)
    → xor_all (bit_xor o e) label ≡ 0
    → xor_all (xor_all (xor_all 0 check) os) es ≡ 0
    → sector_body s o e w₀ ≡ (some (record { index = s; payload = join_words os es }), w₄)
unfolding sector_body
body_steps s o e w₀ w₁ w₂ w₃ w₄ label check os es e₁ e₂ e₃ e₄ good good' =
    rw e₁ (rw good (rw e₂ (rw e₃ (rw e₄ (rw good' refl)))))

body_lem :
    (s header : ℕ) (longs rs : List ℕ) (rest : List RawMfmWord)
    → length longs ≡ 128
    → All IsU32 longs
    → Carries rs (
        label_bits header
        ++ (check_bits longs ++ (map odd_bits longs ++ (map even_bits longs ++ []))))
    → sector_body s (odd_bits header) (even_bits header) (raws rs ++ rest)
      ≡ (some (record { index = s; payload = concat (map to_be_bytes longs) }), rest)
body_lem s header longs rs rest hl hu h =
    let os = map odd_bits longs in
    let es = map even_bits longs in
    let (rs₁, h₁, e₁) =
      read_several (label_bits header) (check_bits longs ++ (os ++ (es ++ []))) rs rest h in
    let (rs₂, h₂, e₂) = read_several (check_bits longs) (os ++ (es ++ [])) rs₁ rest h₁ in
    let (rs₃, h₃, e₃) = read_several os (es ++ []) rs₂ rest h₂ in
    let (rs₄, h₄, e₄) = read_several es [] rs₃ rest h₃ in
    let l : length os ≡ 128 = length-map longs odd_bits ∙ hl in
    let l' : length es ≡ 128 = length-map longs even_bits ∙ hl in
    body_steps s (odd_bits header) (even_bits header) (raws rs ++ rest) (raws rs₁ ++ rest)
      (raws rs₂ ++ rest) (raws rs₃ ++ rest) (raws rs₄ ++ rest) (label_bits header)
      (check_bits longs) os es e₁ e₂ (rw l at e₃) (rw l' at e₄) (header_sum header) (data_sum longs)
    ∙ rw (join_words_lem longs hu, Carries-nil rs₄ h₄) refl

parse_steps :
    (t o e header : ℕ) (w₀ w₁ w₂ : List RawMfmWord)
    → read_even_bits w₀ ≡ (o, w₁)
    → read_even_bits w₁ ≡ (e, w₂)
    → (o == 0) ≡ false
    → bit_or (u32 (o * 2)) e ≡ header
    → bit_and header 0xff00_0000 ≡ 0xff00_0000
    → header / 65536 % 256 ≡ t
    → parse_amiga_sector t w₀ ≡ sector_body (header / 256 % 256) o e w₂
unfolding parse_amiga_sector skip_zero
parse_steps t o e header w₀ w₁ w₂ e₁ e₂ odd_half join mark track =
    rw e₁ (rw odd_half (rw e₂ (rw join (rw mark (rw track (rw (eq→== t t refl) refl))))))

odd_halves : (longs : List ℕ) → map data_bits (map odd longs) ≡ map odd_bits longs
odd_halves [] = refl
odd_halves (v ∷ longs) = ap (λ l. odd_bits v ∷ l) (odd_halves longs)

even_halves : (longs : List ℕ) → map data_bits (map even longs) ≡ map even_bits longs
even_halves [] = refl
even_halves (v ∷ longs) = ap (λ l. even_bits v ∷ l) (even_halves longs)

halves_bits :
    (longs : List ℕ)
    → map data_bits (map odd longs ++ map even longs)
      ≡ map odd_bits longs ++ (map even_bits longs ++ [])
halves_bits longs =
    map-append data_bits (map odd longs) (map even longs)
    ∙ rw (odd_halves longs, even_halves longs)
        (ap (λ l. map odd_bits longs ++ l) (sym (append-nil (map even_bits longs))))

-- A header that parse_amiga_sector accepts for a track.
pub record IsHeaderOf (header track : ℕ) : Type 0 where
  pub in_range : header < 4294967296
  pub has_mark : bit_and header 0xff00_0000 ≡ 0xff00_0000
  pub of_track : header / 65536 % 256 ≡ track
  pub odd_half : (odd_bits header == 0) ≡ false

-- Words that carry the data bits of a header and of 128 longs of data, with their checksums, as
-- generate_sector feeds them, whatever their clock bits are: parse_amiga_sector returns the sector of the
-- header with exactly the bytes of the longs, and leaves the words behind.
pub parse_amiga_sector-halves :
    (track header : ℕ) (longs rs : List ℕ) (rest : List RawMfmWord)
    → IsHeaderOf header track
    → length longs ≡ 128
    → All IsU32 longs
    → map even_bits rs ≡ map data_bits (header_halves header ++ data_halves longs)
    → parse_amiga_sector track (map RawMfmWord.raw rs ++ rest) ≡ (
      some (record { index = header / 256 % 256; payload = concat (map to_be_bytes longs) }),
      rest,
    )
unfolding header_halves data_halves
parse_amiga_sector-halves track header longs rs rest ok hl hu h =
    let body =
      label_bits header
      ++ (check_bits longs ++ (map odd_bits longs ++ (map even_bits longs ++ []))) in
    let h' : Carries rs (odd_bits header ∷ even_bits header ∷ body) =
      h
      ∙ ap (λ l. odd_bits header ∷ even_bits header ∷ label_bits header ++ (check_bits longs ++ l))
          (halves_bits longs) in
    let (rs₁, h₁, e₁) = read_word rs (odd_bits header) (even_bits header ∷ body) rest h' in
    let (rs₂, h₂, e₂) = read_word rs₁ (even_bits header) body rest h₁ in
    parse_steps track (odd_bits header) (even_bits header) header (raws rs ++ rest)
      (raws rs₁ ++ rest) (raws rs₂ ++ rest) e₁ e₂ ok.odd_half
      (bit_or_comm (u32 (odd_bits header * 2)) (even_bits header) ∙ join_long header ok.in_range)
      ok.has_mark ok.of_track
    ∙ body_lem (header / 256 % 256) header longs rs₂ rest hl hu h₂
