-- ===== src/FluxWriter.antt =====
-- firmware/src/flux_writer.rs: pulses from a queue to the DMA unit over two buffers, and the end of
-- a transmission. The registers that the code writes or reads are fields, the interrupt flags
-- arguments. The queue is heapless' `spsc::Queue`, kept as the list of its items.
pub mod Order
pub mod Preparing
pub mod Ending
use stm32_usbfloppy_tracer.Base.{
  Bool, List, Outcome, [], done, false, if◌then◌else◌, length, ltb, panic, sub32, true, u16, ℕ,
  ◌++◌, ◌+◌, ◌==◌, ◌||◌, ◌∷◌,
}

-- The mode of TIM4's output channel: `force_inactive` or `pwm_mode1`.
pub data Output : Type 0 where
  force_inactive pwm_mode1 : Output

pub record FluxWriter : Type 0 where
  pub current_buffer : List ℕ  -- u16, used by the CPU
  pub back_buffer : List ℕ  -- u16, used by the DMA unit
  pub last_dma_frame_active : Bool
  pub number_of_last_pulses : ℕ  -- i32
  pub cons : List ℕ  -- u32
  pub write_gate : Bool  -- low, which lets the head write
  pub dma_enabled : Bool  -- EN of DMA1's stream 6
  pub timer_enabled : Bool  -- CEN of TIM4
  pub update_interrupt : Bool  -- UIE of TIM4
  pub output : Output

abbrev pub buffer_size : ℕ
buffer_size = 16

-- The loop of `fill_buffer`, with the buffer and the queue.
unfoldable pub fill : List ℕ → List ℕ → List ℕ × List ℕ
fill buffer [] = (buffer, [])
fill buffer (pulse ∷ queue) =
    let filled = fill (buffer ++ u16 pulse ∷ []) queue in
    if length buffer == buffer_size then (buffer, pulse ∷ queue) else filled

unfoldable pub fill_buffer : FluxWriter → FluxWriter
unfolding fill
fill_buffer s =
    let (buffer, queue) = fill [] s.cons in record s { current_buffer = buffer; cons = queue }

unfoldable pub clear_buffers : FluxWriter → FluxWriter
clear_buffers s = record s { cons = [] }

-- The buffers are swapped, and a back buffer that is not full ends the transmission.
unfoldable pub swap_buffers : FluxWriter → FluxWriter
swap_buffers s =
    let swapped = record s { current_buffer = s.back_buffer; back_buffer = s.current_buffer } in
    if ltb (length s.current_buffer) buffer_size
    then record swapped {
      last_dma_frame_active = true;
      number_of_last_pulses = length s.current_buffer + 1;
      update_interrupt = true;
    }
    else swapped

unfoldable pub dma_swapped_buffer_callback : FluxWriter → FluxWriter
unfolding swap_buffers fill_buffer
dma_swapped_buffer_callback s = fill_buffer (swap_buffers s)

-- `tim4_pulse_complete_callback` in the last frame, with the count behind the decrement.
unfoldable pub count_last_pulse : ℕ → FluxWriter → FluxWriter
count_last_pulse n s =
    if n == 0
    then record s { number_of_last_pulses = n; dma_enabled = false }
    else (if n == 4294967295
        then record s { number_of_last_pulses = n; output = force_inactive }
        else (if n == 4294967294
            then record s { number_of_last_pulses = n; timer_enabled = false; write_gate = false }
            else record s { number_of_last_pulses = n }))

unfoldable pub tim4_pulse_complete_callback : FluxWriter → Outcome {0} FluxWriter
unfolding count_last_pulse
tim4_pulse_complete_callback s =
    if s.last_dma_frame_active
    then done (count_last_pulse (sub32 s.number_of_last_pulses 1) s)
    else panic

unfoldable pub tim4_irq : Bool → FluxWriter → Outcome {0} FluxWriter
unfolding tim4_pulse_complete_callback
tim4_irq update_pending s = if update_pending then tim4_pulse_complete_callback s else done s

unfoldable pub dma1_stream6_irq : Bool → Bool → FluxWriter → Outcome {0} FluxWriter
unfolding dma_swapped_buffer_callback
dma1_stream6_irq complete error s =
    let s' = if complete then dma_swapped_buffer_callback s else s in
    if error then panic else done s'

abbrev pub transmission_active : FluxWriter → Bool
transmission_active s = s.timer_enabled

-- `prepare_transmit` behind its first two assertions: the state that its third one is about.
unfoldable pub prefill : FluxWriter → FluxWriter
unfolding fill_buffer dma_swapped_buffer_callback
prefill s =
    let filled = fill_buffer (record s { current_buffer = []; back_buffer = [] }) in
    record (dma_swapped_buffer_callback filled) {
      last_dma_frame_active = false;
      number_of_last_pulses = 0;
    }

unfoldable pub prepare_transmit : FluxWriter → Outcome {0} FluxWriter
unfolding prefill
prepare_transmit s =
    if s.dma_enabled || s.timer_enabled
    then panic
    else (if length (prefill s).back_buffer == buffer_size
        then done (record (prefill s) { update_interrupt = false; output = pwm_mode1 })
        else panic)

unfoldable pub enable_write_head : FluxWriter → FluxWriter
enable_write_head s = record s { write_gate = true }

unfoldable pub start_transmit : FluxWriter → FluxWriter
start_transmit s = record s { write_gate = true; dma_enabled = true; timer_enabled = true }
