-- ===== src/Runs.antt =====
-- The theorems at concrete inputs, and the source's own unit tests.
mod Codecs
mod Transfer
mod Drives
mod Disks
mod Images
mod Tracks
mod Writing
use stm32_usbfloppy_tracer.Base.{}
