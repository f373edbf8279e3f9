-- ===== src/Usb/Blocks.antt =====
-- The blocks that follow a write command, from tool/src/usb_commands.rs to
-- firmware/src/vendor_class.rs.
use stm32_usbfloppy_tracer.Base.{
  List, [], ap, append-nil, append_assoc, arith, concat, done, drop, length, length-drop, none,
  refl, some, suc, sym, take, take-append-drop, u8, zero, ℕ, ◌++◌, ◌-◌, ◌∙◌, ◌∷◌, ◌≡◌, ◌≤◌,
}
use stm32_usbfloppy_tracer.CellData.{RawCellData, construct}
use stm32_usbfloppy_tracer.Usb.Host.{block_count, chunks, chunks_loop}
use stm32_usbfloppy_tracer.Usb.Device.{
  VendorClass, complete_write, poll, polls, put_command, write_verify_raw_track,
}

chunks_loop-concat :
    (fuel n : ℕ) (xs : List ℕ) → length xs ≤ fuel → concat (chunks_loop fuel (suc n) xs) ≡ xs
unfolding chunks_loop
chunks_loop-concat zero n [] h = refl
chunks_loop-concat zero n (x ∷ xs) h = absurd (omega arith)
chunks_loop-concat (suc fuel) n [] h = refl
chunks_loop-concat (suc fuel) n (x ∷ xs) h =
    ap (λ l. x ∷ take n xs ++ l)
      (chunks_loop-concat fuel n (drop n xs) (omega (arith, length-drop n xs)))
    ∙ ap (λ l. x ∷ l) (take-append-drop n xs)

-- The blocks together are the data.
pub concat-chunks : (xs : List ℕ) → concat (chunks 64 xs) ≡ xs
unfolding chunks
concat-chunks xs = chunks_loop-concat (length xs) 63 xs (omega arith)

block_count_step : (n : ℕ) → block_count (suc n) ≡ suc (block_count (suc n - 64))
block_count_step n = ground arith

length-chunks_loop :
    (fuel : ℕ) (xs : List ℕ)
    → length xs ≤ fuel
    → length (chunks_loop fuel 64 xs) ≡ block_count (length xs)
unfolding chunks_loop
length-chunks_loop zero [] h = refl
length-chunks_loop zero (x ∷ xs) h = absurd (omega arith)
length-chunks_loop (suc fuel) [] h = refl
length-chunks_loop (suc fuel) (x ∷ xs) h =
    let rest = drop 63 xs in
    let len : length rest ≡ suc (length xs) - 64 = omega (arith, length-drop 63 xs) in
    ap suc (length-chunks_loop fuel rest (omega (arith, len)) ∙ ap block_count len)
    ∙ sym (block_count_step (length xs))

-- There are as many blocks as the header says.
pub length-chunks : (xs : List ℕ) → length (chunks 64 xs) ≡ block_count (length xs)
unfolding chunks
length-chunks xs = length-chunks_loop (length xs) xs (omega arith)

-- A block that is not the last.
poll_inner :
    (s : VendorClass) (b : List ℕ) (n : ℕ)
    → s.remaining_blocks ≡ suc (suc n)
    → poll s b
      ≡ done (record s { receive_buffer = s.receive_buffer ++ b; remaining_blocks = suc n }, [])
unfolding poll
poll_inner s b n h = ground arith

poll_last :
    (s s' : VendorClass) (b : List ℕ)
    → s.remaining_blocks ≡ 1
    → complete_write (record s { receive_buffer = s.receive_buffer ++ b; remaining_blocks = 0 })
      ≡ done s'
    → poll s b ≡ done (s', [])
unfolding poll
poll_last s s' b h e = let r : s.remaining_blocks - 1 ≡ 0 = omega arith in rw h (rw e)

pub polls-cons :
    (s : VendorClass) {s' : VendorClass} {r : VendorClass} (p : List ℕ) (ps : List (List ℕ))
    → poll s p ≡ done (s', [])
    → polls s' ps ≡ done (r, [])
    → polls s (p ∷ ps) ≡ done (r, [])
unfolding polls
polls-cons s p ps e e' = rw e (rw e')

-- The device collects the announced blocks and completes the command with all their bytes.
pub polls_blocks :
    (bs : List (List ℕ)) (b : List ℕ) (s s' : VendorClass)
    → s.remaining_blocks ≡ suc (length bs)
    → complete_write
        (record s { receive_buffer = s.receive_buffer ++ concat (b ∷ bs); remaining_blocks = 0 })
      ≡ done s'
    → polls s (b ∷ bs) ≡ done (s', [])
polls_blocks [] b s s' h e =
    polls-cons s b [] (poll_last s s' b h (rw append-nil at e)) (unfold polls in refl)
polls_blocks (c ∷ bs) b s s' h e =
    let next : VendorClass = record s {
      receive_buffer = s.receive_buffer ++ b;
      remaining_blocks = suc (length bs);
    } in
    polls-cons s b (c ∷ bs) (poll_inner s b (length bs) h)
      (polls_blocks bs c next s' refl (rw (append_assoc s.receive_buffer b (concat (c ∷ bs))) e))

-- The command that a complete write makes.
pub complete_write_lem :
    (s : VendorClass) (raw : RawCellData)
    → s.expected_size ≡ length s.receive_buffer
    → construct s.speeds s.receive_buffer s.has_non_flux_reversal_area ≡ done raw
    → s.current_command ≡ none
    → complete_write s
      ≡ done (record s {
        receive_buffer = [];
        speeds = [];
        current_command = some (
            write_verify_raw_track
              (record { cylinder = u8 s.cylinder; head = u8 s.head })
              raw
              s.write_precompensation);
      })
unfolding complete_write put_command
complete_write_lem s raw h e c = ground (arith, e)
