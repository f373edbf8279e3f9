-- ===== src/Usb.antt =====
-- The bulk protocol between tool/src/usb_commands.rs and firmware/src/vendor_class.rs.
pub mod Host
pub mod Device
pub mod Header
pub mod Blocks
pub mod RoundTrip
pub mod Configure
pub mod Reading
