-- ===== src/Amiga/RoundTrip.antt =====
-- tool/src/image_reader/image_adf.rs and tool/src/track_parser/amiga.rs: a sector of an image, read back.
use stm32_usbfloppy_tracer.Mfm.{RawMfmWord}
use stm32_usbfloppy_tracer.Amiga.{
  be_longs, data_halves, even_bits, header_halves, odd_bits, sector_header,
}
use stm32_usbfloppy_tracer.Amiga.Parser.{parse_amiga_sector, to_be_bytes}
use stm32_usbfloppy_tracer.Amiga.Sector.{IsHeaderOf, data_bits, parse_amiga_sector-halves}
use stm32_usbfloppy_tracer.Base.{
  ==_iff, All, Bool, IsU32, IsU8, List, [], ap, arith, bit_and, bit_or, concat, false, length, ltb,
  ltb→lt, map, not, passes_below, passes_below_at, refl, some, suc, true, u32, zero, ℕ, ◌%◌, ◌&&◌,
  ◌*◌, ◌++◌, ◌+◌, ◌/◌, ◌<◌, ◌==◌, ◌∙◌, ◌∷◌, ◌≡◌,
}

abbrev pub track_number : ℕ → ℕ → ℕ
track_number cylinder head = bit_or (u32 (cylinder * 2)) head

abbrev is_header : ℕ → ℕ → ℕ → Bool
is_header header track sector =
    (header / 256 % 256 == sector)
    && (ltb header 4294967296
        && ((bit_and header 0xff00_0000 == 0xff00_0000)
            && ((header / 65536 % 256 == track) && not (odd_bits header == 0))))

header_table :
    passes_below 80 (λ c.
      passes_below 2
        (λ h. passes_below 11 (λ s. is_header (sector_header c h s) (track_number c h) s)))
    ≡ true
unfolding passes_below sector_header
header_table = refl

both_true : (a b : Bool) → (a && b) ≡ true → (a ≡ true) × (b ≡ true)
both_true true b h = (refl, h)
both_true false b h = absurd (cc h)

not-true : (b : Bool) → not b ≡ true → b ≡ false
not-true true h = absurd (cc h)
not-true false h = refl

is_header-IsHeaderOf :
    (header track sector : ℕ)
    → is_header header track sector ≡ true
    → IsHeaderOf header track × (header / 256 % 256 ≡ sector)
is_header-IsHeaderOf header track sector h =
    let (a, h₁) = both_true _ _ h in
    let (b, h₂) = both_true _ _ h₁ in
    let (c, h₃) = both_true _ _ h₂ in
    let (d, e) = both_true _ _ h₃ in
    (
      record {
        in_range = ltb→lt header 4294967296 b;
        has_mark = (==_iff (bit_and header 0xff00_0000) 0xff00_0000).0 c;
        of_track = (==_iff (header / 65536 % 256) track).0 d;
        odd_half = not-true (odd_bits header == 0) e;
      },
      (==_iff (header / 256 % 256) sector).0 a,
    )

sector_header-IsHeaderOf :
    (c h s : ℕ)
    → c < 80
    → h < 2
    → s < 11
    → IsHeaderOf (sector_header c h s) (track_number c h) × (sector_header c h s / 256 % 256 ≡ s)
sector_header-IsHeaderOf c h s hc hh hs =
    is_header-IsHeaderOf (sector_header c h s) (track_number c h) s (
      passes_below_at 11 (λ s. is_header (sector_header c h s) (track_number c h) s) s
        (passes_below_at 2 _ h (passes_below_at 80 _ c header_table hc) hh) hs)

be_bytes :
    (a b c d : ℕ)
    → IsU8 a
    → IsU8 b
    → IsU8 c
    → IsU8 d
    → to_be_bytes (((a * 256 + b) * 256 + c) * 256 + d) ≡ a ∷ b ∷ c ∷ d ∷ []
be_bytes a b c d ha hb hc hd =
    let v = ((a * 256 + b) * 256 + c) * 256 + d in
    let e₁ : v / 16777216 % 256 ≡ a = omega arith in
    let e₂ : v / 65536 % 256 ≡ b = omega arith in
    let e₃ : v / 256 % 256 ≡ c = omega arith in
    let e₄ : v % 256 ≡ d = omega arith in rw (e₁, e₂, e₃, e₄) refl

-- The bytes of the longs of some bytes are these.
be_longs_lem :
    (n : ℕ) (ds : List ℕ)
    → length ds ≡ 4 * n
    → All IsU8 ds
    → (length (be_longs ds) ≡ n)
      × All IsU32 (be_longs ds)
      × (concat (map to_be_bytes (be_longs ds)) ≡ ds)
unfolding be_longs
be_longs_lem zero [] l h = (refl, tt, refl)
be_longs_lem zero (a ∷ ds) l h = absurd (omega arith)
be_longs_lem (suc n) [] l h = absurd (omega arith)
be_longs_lem (suc n) (a ∷ []) l h = absurd (omega arith)
be_longs_lem (suc n) (a ∷ b ∷ []) l h = absurd (omega arith)
be_longs_lem (suc n) (a ∷ b ∷ c ∷ []) l h = absurd (omega arith)
be_longs_lem (suc n) (a ∷ b ∷ c ∷ d ∷ ds) l (ha, (hb, (hc, (hd, h)))) =
    let (m, hu, e) = be_longs_lem n ds (omega arith) h in
    (
      omega (arith, m),
      (omega arith, hu),
      ap (λ l. l ++ concat (map to_be_bytes (be_longs ds))) (be_bytes a b c d ha hb hc hd)
          ∙ ap (λ l. a ∷ b ∷ c ∷ d ∷ l) e,
    )

-- For a sector of a disk with 80 cylinders, 2 heads and 11 sectors, and its 512 bytes: any words that carry
-- the data bits that generate_sector feeds for it, whatever their clock bits are, are parsed as
-- exactly this sector with exactly these bytes, and the words behind them are left.
pub parse_amiga_sector-generated :
    (cylinder head sector : ℕ) (sectordata rs : List ℕ) (rest : List RawMfmWord)
    → cylinder < 80
    → head < 2
    → sector < 11
    → length sectordata ≡ 512
    → All IsU8 sectordata
    → map even_bits rs
      ≡ map data_bits
          (header_halves (sector_header cylinder head sector) ++ data_halves (be_longs sectordata))
    → parse_amiga_sector (track_number cylinder head) (map RawMfmWord.raw rs ++ rest)
      ≡ (some (record { index = sector; payload = sectordata }), rest)
parse_amiga_sector-generated c h s ds rs rest hc hh hs hl hu carried =
    let (ok, index) = sector_header-IsHeaderOf c h s hc hh hs in
    let (n, long, bytes) = be_longs_lem 128 ds hl hu in
    parse_amiga_sector-halves (track_number c h) (sector_header c h s) (be_longs ds) rs rest ok n
      long carried
    ∙ rw (index, bytes) refl
