-- ===== src/Usb/Configure.antt =====
-- The configure command from tool/src/usb_commands.rs to firmware/src/vendor_class.rs.
use stm32_usbfloppy_tracer.Base.{
  IsU32, List, [], arith, done, refl, ℕ, ◌%◌, ◌*◌, ◌+◌, ◌/◌, ◌∷◌, ◌≡◌, ◌≢◌,
}
use stm32_usbfloppy_tracer.CellData.{
  Density, DriveSelectState, drive_a, drive_b, high, single_double, unselected,
}
use stm32_usbfloppy_tracer.Usb.Host.{configure_device, put_words}
use stm32_usbfloppy_tracer.Usb.Device.{
  Request, VendorClass, configure_command, configure_index_sim, handle_command, next_word, poll,
  select_density, select_drive,
}

from_bytes :
    (f : ℕ)
    → IsU32 f
    → f % 256 + f / 256 % 256 * 256 + f / 65536 % 256 * 65536 + f / 16777216 % 256 * 16777216 ≡ f
from_bytes f h = omega arith

-- What the device is asked to do: the frequency for the index simulation, the drive and the density.
abbrev pub requests : DriveSelectState → Density → ℕ → List Request
requests drive density frequency =
    configure_index_sim frequency ∷ select_drive drive ∷ select_density density ∷ []

-- The packet of configure_device, polled between two commands, asks for exactly what the host was given.
abbrev pub Configures : DriveSelectState → Density → ℕ → VendorClass → Type 0
Configures drive density frequency s =
    (packet : List ℕ) × (configure_device drive density frequency ≡ done packet)
    × (poll s packet ≡ done (s, requests drive density frequency))

-- For a drive, a density and a 32-bit frequency, and a device between two commands: the packet of
-- configure_device makes the device ask the index simulation and the floppy control for exactly
-- these three, and changes nothing else in it.
pub poll-configure_device :
    (drive : DriveSelectState) (density : Density) (frequency : ℕ) (s : VendorClass)
    → drive ≢ unselected
    → IsU32 frequency
    → s.remaining_blocks ≡ 0
    → Configures drive density frequency s
unfolding configure_device put_words poll handle_command configure_command next_word
poll-configure_device unselected density frequency s d f h = absurd (d refl)
poll-configure_device drive_a high frequency s d f h =
    (_, refl, rw (h, from_bytes frequency f) refl)
poll-configure_device drive_a single_double frequency s d f h =
    (_, refl, rw (h, from_bytes frequency f) refl)
poll-configure_device drive_b high frequency s d f h =
    (_, refl, rw (h, from_bytes frequency f) refl)
poll-configure_device drive_b single_double frequency s d f h =
    (_, refl, rw (h, from_bytes frequency f) refl)
