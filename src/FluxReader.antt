-- ===== src/FluxReader.antt =====
-- firmware/src/flux_reader.rs: the times at which the DMA unit captured pulses, over two buffers to a
-- queue of durations. The registers that the code reads or that start and stop a recording are
-- fields, the interrupt flags arguments. The queue is heapless', which holds `capacity` items.
pub mod Durations
use stm32_usbfloppy_tracer.Base.{
  Bool, List, Outcome, [], done, false, if◌then◌else◌, length, ltb, panic, replicate, sub32, take,
  true, ℕ, ◌++◌, ◌>>=◌, ◌||◌, ◌∷◌,
}

pub record FluxReader : Type 0 where
  pub current_buffer : List ℕ  -- u32, used by the CPU
  pub back_buffer : List ℕ  -- u32, used by the DMA unit
  pub last_pulse_cnt : ℕ  -- u32
  pub prod : List ℕ  -- u32
  pub dma_enabled : Bool  -- EN of DMA1's stream 1
  pub timer_enabled : Bool  -- CEN of TIM2

abbrev pub buffer_size : ℕ
buffer_size = 8

-- The loop over the captured counts.
unfoldable pub enqueue_durations : ℕ → List ℕ → FluxReader → Outcome {0} FluxReader
enqueue_durations capacity [] s = done s
enqueue_durations capacity (i ∷ is) s =
    let s' = record s { prod = s.prod ++ sub32 i s.last_pulse_cnt ∷ []; last_pulse_cnt = i } in
    let rest = enqueue_durations capacity is s' in
    if ltb (length s.prod) capacity then rest else panic

unfoldable pub dma_swapped_buffer_callback : ℕ → FluxReader → Outcome {0} FluxReader
unfolding enqueue_durations
dma_swapped_buffer_callback capacity s =
    let swapped = record s { current_buffer = s.back_buffer; back_buffer = s.current_buffer } in
    enqueue_durations capacity swapped.current_buffer swapped

unfoldable pub dma1_stream1_irq : ℕ → Bool → Bool → FluxReader → Outcome {0} FluxReader
unfolding dma_swapped_buffer_callback
dma1_stream1_irq capacity complete error s =
    (if complete then dma_swapped_buffer_callback capacity s else done s) >>= λ s'.
    if error then panic else done s'

unfoldable pub transmission_active : FluxReader → Bool
transmission_active s = s.timer_enabled

unfoldable pub stop_reception : FluxReader → FluxReader
stop_reception s = record s { dma_enabled = false; timer_enabled = false }

-- `resize(BUFFER_SIZE, 0)`.
abbrev pub resize : List ℕ → List ℕ
resize xs = take buffer_size (xs ++ replicate buffer_size 0)

unfoldable pub start_reception : FluxReader → Outcome {0} FluxReader
start_reception s =
    if s.dma_enabled || s.timer_enabled
    then panic
    else done (record s {
      back_buffer = resize s.back_buffer;
      current_buffer = resize s.current_buffer;
      last_pulse_cnt = 0;
      dma_enabled = true;
      timer_enabled = true;
    })
