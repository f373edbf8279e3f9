-- ===== src/Fluxpulse.antt =====
-- util/src/fluxpulse.rs: cells to the durations between flux reversals, and back. A duration is an
-- i32 in timer ticks, kept as its bit pattern.
pub mod Time
pub mod Pulses
pub mod Cells
pub mod Termination
pub mod RoundTrip
use stm32_usbfloppy_tracer.Base.{
  Bit, Bool, List, Option, [], bit_value, false, has_bit, if◌then◌else◌, le_i32, lt_i32, ltb, map,
  none, not, run, some, sub32, suc, true, u32, zero, ℕ, ◌%◌, ◌&&◌, ◌*◌, ◌++◌, ◌+◌, ◌-◌, ◌/◌, ◌==◌,
  ◌||◌, ◌∷◌,
}
use mathlib.Core.Option

pub record FluxPulseGenerator : Type 0 where
  pub cell_duration : ℕ  -- u32
  pub pulse_accumulator : ℕ  -- i32
  pub precompensation : ℕ  -- u32
  pub shift_word : ℕ  -- u32
  pub special_generator_state : Bool
  pub enable_non_flux_reversal_generator : Bool
  pub enable_weak_bit_generator : Bool

-- The accumulator starts at -5 cells, since a pulse is written five cells late.
unfoldable pub new : ℕ → FluxPulseGenerator
new cell_duration = record {
  cell_duration = cell_duration;
  pulse_accumulator = u32 (cell_duration * 4294967291);
  precompensation = 0;
  shift_word = 0;
  special_generator_state = false;
  enable_non_flux_reversal_generator = false;
  enable_weak_bit_generator = false;
}

-- The start of `feed`: time passes, and the cell joins the window.
unfoldable pub shift_cell : FluxPulseGenerator → Bit → FluxPulseGenerator
shift_cell g cell = record g {
  pulse_accumulator = u32 (g.pulse_accumulator + g.cell_duration);
  shift_word = u32 (g.shift_word * 2) + bit_value cell;
}

-- `(cell_duration * 2 + cell_duration / 2) as i32`.
abbrev pub weak_cell_len : ℕ → ℕ
weak_cell_len d = u32 (u32 (d * 2) + d / 2)

-- In the special state with weak bits: pulses of two and a half cells, until cells with a flux
-- reversal come near.
unfoldable pub feed_weak : FluxPulseGenerator → FluxPulseGenerator × List ℕ
feed_weak g =
    let len = weak_cell_len g.cell_duration in
    let special = (g.shift_word / 8) % 4 == 0 in
    if le_i32 len g.pulse_accumulator
    then (
      record g {
        pulse_accumulator = sub32 g.pulse_accumulator len;
        special_generator_state = special;
      },
      len ∷ [],
    )
    else (record g { special_generator_state = special }, [])

-- In the special state without flux reversals: a pulse at every cell.
unfoldable pub feed_non_flux_reversal : FluxPulseGenerator → FluxPulseGenerator × List ℕ
feed_non_flux_reversal g = (
  record g { pulse_accumulator = 0; special_generator_state = not (has_bit 32 g.shift_word) },
  g.pulse_accumulator ∷ [],
)

-- The write precompensation of the cell in the middle of five: the accumulator that is written and
-- the one that stays.
unfoldable pub precompensate : FluxPulseGenerator → ℕ × ℕ
precompensate g =
    let window = (g.shift_word / 8) % 32 in
    if window == 0b00101
    then (u32 (g.pulse_accumulator + g.precompensation), sub32 0 g.precompensation)
    else (if window == 0b10100
        then (sub32 g.pulse_accumulator g.precompensation, g.precompensation)
        else (g.pulse_accumulator, 0))

-- In the normal state, at a flux reversal.
unfoldable pub feed_reversal : FluxPulseGenerator → FluxPulseGenerator × List ℕ
unfolding precompensate
feed_reversal g =
    let (written, next) = precompensate g in
    (
      record g {
        pulse_accumulator = next;
        special_generator_state =
            (g.shift_word % 32 == 0)
            && (g.enable_weak_bit_generator || g.enable_non_flux_reversal_generator);
      },
      written ∷ [],
    )

unfoldable pub feed : FluxPulseGenerator → Bit → FluxPulseGenerator × List ℕ
unfolding shift_cell feed_weak feed_non_flux_reversal feed_reversal
feed before cell =
    let g = shift_cell before cell in
    if g.special_generator_state
    then (if g.enable_weak_bit_generator
        then feed_weak g
        else (if g.enable_non_flux_reversal_generator then feed_non_flux_reversal g else (g, [])))
    else (if has_bit 32 g.shift_word then feed_reversal g else (g, []))

abbrev pub five_zeros : List Bit
five_zeros = false ∷ false ∷ false ∷ false ∷ false ∷ []

unfoldable pub flush : FluxPulseGenerator → FluxPulseGenerator × List ℕ
flush g =
    let g' = record g {
      enable_non_flux_reversal_generator = false;
      enable_weak_bit_generator = false;
    } in
    if g.shift_word % 32 == 0 then (g', []) else run feed g' five_zeros

-- `FluxPulseToCells`: half of an i32, rounded towards 0.
abbrev pub half_i32 : ℕ → ℕ
half_i32 c = if ltb c 2147483648 then c / 2 else sub32 0 ((4294967296 - c) / 2)

-- The `while` loop on fuel: `none` means that the fuel ran out.
unfoldable pub to_cells_loop : ℕ → ℕ → ℕ → Option (List Bit)
to_cells_loop zero cell_duration duration = none
to_cells_loop (suc fuel) cell_duration duration =
    let rest = to_cells_loop fuel cell_duration (sub32 duration cell_duration) in
    if lt_i32 (u32 (cell_duration + half_i32 cell_duration)) duration
    then Option.map (λ cells. false ∷ cells) rest
    else some (true ∷ [])

-- `FluxPulseToCells::feed`. With a positive cell duration a round takes a tick at least.
unfoldable pub feed_to_cells : ℕ → ℕ → Option (List Bit)
unfolding to_cells_loop
feed_to_cells cell_duration duration = to_cells_loop (suc duration) cell_duration duration

-- The reader on every duration in turn.
unfoldable pub to_cells : ℕ → List ℕ → Option (List Bit)
to_cells cell_duration [] = some []
to_cells cell_duration (p ∷ ps) = elim (feed_to_cells cell_duration p) [
  | none ↦ none
  | some cells ↦ Option.map (λ rest. cells ++ rest) (to_cells cell_duration ps)
]
