-- ===== src/Iso/Feeding.antt =====
-- tool/src/image_reader/image_iso.rs: the parts of a track, as the encoder writes them.
use stm32_usbfloppy_tracer.Bitstream.{to_bit_stream}
use stm32_usbfloppy_tracer.Bitstream.RoundTrip.{to_bit_streams, to_bit_streams-append}
use stm32_usbfloppy_tracer.Mfm.{feed_encoded8}
use stm32_usbfloppy_tracer.Mfm.Encode.{cells_of, cells_of-append, feed_encoded8-cells, last_of}
use stm32_usbfloppy_tracer.Mfm.Window.{last_of-append}
use stm32_usbfloppy_tracer.Mfm.RoundTrip.{run-three_syncs, sync_front}
use stm32_usbfloppy_tracer.Mfm.Parts.{
  Part, coded, mark, part_last, parts_cells, parts_last, three_zeros,
}
use stm32_usbfloppy_tracer.Iso.Tracks.{Feeding, feed_bytes, generate_iso_gap, three_sync_words, ◌⊳◌}
use stm32_usbfloppy_tracer.Base.{
  Bit, List, [], ap, append-nil, append_assoc, arith, refl, replicate, run, run-cons, suc, true,
  zero, ℕ, ◌++◌, ◌+◌, ◌∙◌, ◌∷◌, ◌≡◌,
}

-- Feeding an encoder writes the cells of the parts.
pub record Writes (f : Feeding) (ps : List Part) : Type 0 where
  pub written :
      (last : Bit)
      → f (record { last_bit = last })
        ≡ (record { last_bit = parts_last last ps }, parts_cells last ps)

parts_last-append :
    (last : Bit) (ps qs : List Part)
    → parts_last last (ps ++ qs) ≡ parts_last (parts_last last ps) qs
parts_last-append last [] qs = refl
parts_last-append last (p ∷ ps) qs = parts_last-append (part_last last p) ps qs

parts_cells-append :
    (last : Bit) (ps qs : List Part)
    → parts_cells last (ps ++ qs) ≡ parts_cells last ps ++ parts_cells (parts_last last ps) qs
parts_cells-append last [] qs = refl
parts_cells-append last (p ∷ ps) qs =
    rw (parts_cells-append (part_last last p) ps qs) (rw append_assoc refl)

pub ⊳-Writes :
    (f g : Feeding) (ps qs : List Part) → Writes f ps → Writes g qs → Writes (f ⊳ g) (ps ++ qs)
unfolding ◌⊳◌
⊳-Writes f g ps qs hf hg = record {
  written = λ last.
      rw (hf.written last, parts_last-append last ps qs, parts_cells-append last ps qs)
        (rw (hg.written (parts_last last ps)) refl);
}

run-encoded8 :
    (last : Bit) (bs : List ℕ)
    → run feed_encoded8 (record { last_bit = last }) bs
      ≡ (record { last_bit = last_of last (to_bit_streams bs) }, cells_of last (to_bit_streams bs))
run-encoded8 last [] = unfold run cells_of last_of in refl
run-encoded8 last (b ∷ bs) =
    run-cons feed_encoded8 bs (feed_encoded8-cells (record { last_bit = last }) b)
    ∙ rw
        (
          run-encoded8 (last_of last (to_bit_stream b)) bs,
          cells_of-append last (to_bit_stream b) (to_bit_streams bs),
          last_of-append last (to_bit_stream b) (to_bit_streams bs),
        )
        refl

pub feed_bytes-Writes : (bs : List ℕ) → Writes (feed_bytes bs) (coded bs ∷ [])
unfolding feed_bytes
feed_bytes-Writes bs = record { written = λ last. rw (run-encoded8 last bs, append-nil) refl }

pub gap-Writes : (n b : ℕ) → Writes (generate_iso_gap n b) (coded (replicate n b) ∷ [])
unfolding generate_iso_gap
gap-Writes n b = feed_bytes-Writes (replicate n b)

three-Writes :
    (last : Bit)
    → three_sync_words (record { last_bit = last })
      ≡ (record { last_bit = true }, sync_front ++ (true ∷ []))
unfolding three_sync_words
three-Writes last = run-three_syncs (record { last_bit = last })

replicate-end : (n b : ℕ) → replicate (n + 3) b ≡ replicate n b ++ (b ∷ b ∷ b ∷ [])
replicate-end zero b = refl
replicate-end (suc n) b =
    let e : suc n + 3 ≡ suc (n + 3) = omega arith in
    ap (λ k. replicate k b) e ∙ ap (λ l. b ∷ l) (replicate-end n b)

zeros_gap :
    (n : ℕ) (last : Bit)
    → generate_iso_gap (n + 3) 0 (record { last_bit = last }) ≡ (
      record {
        last_bit =
            last_of (last_of last (to_bit_streams (replicate n 0))) (to_bit_streams three_zeros);
      },
      cells_of last (to_bit_streams (replicate n 0))
          ++ cells_of (last_of last (to_bit_streams (replicate n 0))) (to_bit_streams three_zeros),
    )
unfolding generate_iso_gap feed_bytes
zeros_gap n last =
    let front = to_bit_streams (replicate n 0) in
    rw (replicate-end n 0) (
      rw
        (
          run-encoded8 last (replicate n 0 ++ three_zeros),
          to_bit_streams-append (replicate n 0) three_zeros,
        )
        (rw
          (
            cells_of-append last front (to_bit_streams three_zeros),
            last_of-append last front (to_bit_streams three_zeros),
          )
          refl))

-- The last three zeros of a gap and the sync words behind it are a mark.
pub mark-Writes :
    (n : ℕ) (f : Feeding) (qs : List Part)
    → Writes f qs
    → Writes (generate_iso_gap (n + 3) 0 ⊳ three_sync_words ⊳ f) (coded (replicate n 0) ∷ mark ∷ qs)
unfolding ◌⊳◌
mark-Writes n f qs hf = record {
  written = λ last.
      let last' = last_of last (to_bit_streams (replicate n 0)) in
      rw
        (
          zeros_gap n last,
          three-Writes (last_of last' (to_bit_streams three_zeros)),
          hf.written true,
        )
        (simp append_assoc);
}
