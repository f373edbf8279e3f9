-- ===== src/Drive.antt =====
-- firmware/src/floppy_drive_unit.rs, floppy_stepper.rs and floppy_control.rs: the drives on the
-- floppy bus, their motors and heads.
pub mod Unit
pub mod Stepper
pub mod Select
pub mod Motion
pub mod Control
pub mod Safety
pub mod Arrival
pub mod Selection
