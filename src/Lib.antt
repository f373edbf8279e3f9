-- ===== src/Lib.antt =====
-- A floppy disk reader and writer: an STM32 firmware that drives two floppy drives, and a host tool
-- that turns disk images into raw tracks and sends them to it. The host reads an image, makes the
-- cells of each track with an encoder (MFM or GCR), and sends a track as a command packet with a
-- density map and its cells in blocks of 64 bytes. The firmware steps the head, turns the cells into
-- durations between flux reversals, writes them, reads them back and compares.
--
-- Base holds what the modules share: native numbers and machine words, lists measured by native
-- numbers, Outcome for code that can fail or panic, and run for a component that is fed items and
-- hands items to a sink. A Rust closure that is a component's sink is the list of the calls that a
-- step makes. `&mut self` is a state that an operation takes and returns. `None` and an `anyhow` error
-- are `fail`, a failed `expect`, `assert!` or `panic!` is `panic`. An i32 is kept as its 32-bit
-- pattern, and arithmetic that leaves a word's range wraps, as in a release build.
--
-- Where each part is:
--   Bitstream   util/src/bitstream.rs: BitStreamCollector, to_bit_stream
--   Gcr         util/src/gcr.rs: to_gcr_stream, GcrDecoder and the tables
--   Mfm         util/src/mfm.rs: MfmEncoder (feed is feed_word), MfmDecoder, MfmDataSeperator
--   Fluxpulse   util/src/fluxpulse.rs: FluxPulseGenerator, FluxPulseToCells (feed_to_cells)
--   CellData    util/src/lib.rs: tracks, density maps, RawCellData
--   RawTrack    tool/src/rawtrack.rs: RawTrack, RawImage and its filter, and in
--               RawTrack.Writability check_writability (without what it prints)
--   Usb.Host    tool/src/usb_commands.rs: the packets of each command
--   Usb.Device  firmware/src/vendor_class.rs: FloppyTracerVendorClass
--   Drive.Unit, Drive.Stepper, Drive.Control
--               firmware/src/floppy_drive_unit.rs, floppy_stepper.rs, floppy_control.rs
--   FluxWriter  firmware/src/flux_writer.rs: the buffers between the queue and the DMA unit
--   FluxReader  firmware/src/flux_reader.rs: captured counts to durations in the queue
--   TrackWriter firmware/src/track_raw.rs: write_and_verify, and in TrackWriter.Writing write_track with
--               the interrupts of firmware/src/interrupts.rs
--   TrackVerifier
--               firmware/src/track_raw.rs: verify_track, async_read_flux
--   TrackReader firmware/src/track_raw.rs: read_track
--   Sectors     tool/src/track_parser/mod.rs: collected sectors, concatenate_sectors
--   Commodore, Commodore.Image, Commodore.Parser
--               util/src/c64_geometry.rs, tool/src/image_reader/image_d64.rs,
--               tool/src/track_parser/c64.rs (search is the loop of parse_raw_track)
--   Amiga, Amiga.Parser
--               tool/src/image_reader/image_adf.rs, tool/src/track_parser/amiga.rs
--   Iso         tool/src/image_reader/image_iso.rs: geometry and interleaving, in Iso.Tracks
--               the tracks, and in Iso.Parser tool/src/track_parser/iso.rs
-- The other modules under these hold the lemmas and theorems, and Runs the theorems at concrete inputs
-- and tests.
--
-- An async function of the stepper is a tree of its pin accesses, with a node for every suspension
-- point; poll_on goes on to the next one. Drive is reached over Wires, which says what a level on the
-- step and direction pins does and what the track 0 sensor answers; IsDrive is what a drive does.
-- TrackIo is one write and one read back of a track, with HasKnownErrors the errors that these return;
-- TrackWriter.Handler fills it with write_track and verify_track, over the interrupts and the flux.
-- Memory is taken as given, up to isize::MAX bytes for one allocation, beyond which it panics. The
-- checksum of the crate crc16 is an argument of the functions that use it.
--
-- Loops are by the rounds that are left or by the list they go through. Five take fuel:
-- feed_to_cells, whose duration falls by at least one tick each round, so that duration + 1 rounds are enough;
-- chunks, which takes a byte at least each time, so that the length is enough; and search in
-- Commodore.Parser, Amiga.Parser and Iso.Parser, of which every round uses up an item, so that their number is enough.
-- write_track runs against two lists of moments, each a list of interrupts: one moment is used up before
-- every byte and one at every yield, so that a run ends, at the latest where it waits and no moment is
-- left. The room in heapless' queue is an argument, and 127 is what its queue of 128 slots has.
-- A coroutine that reads flux takes the list of what its polls of the queue find; where they end
-- it is still running.
--
-- Not modelled: the front ends, the flux reader's and writer's fixed register settings, the
-- start-up and main loop, USB descriptors and device access, the precompensation database in
-- floating-point numbers, the image readers and track parsers other
-- than those above, and the read loop over the tracks of a disk.
pub mod Base
pub mod Bitstream
pub mod Gcr
pub mod Mfm
pub mod Fluxpulse
pub mod CellData
pub mod RawTrack
pub mod Usb
pub mod Drive
pub mod FluxWriter
pub mod FluxReader
pub mod TrackWriter
pub mod TrackVerifier
pub mod TrackReader
pub mod Sectors
pub mod Commodore
pub mod Amiga
pub mod Iso
pub mod Runs
