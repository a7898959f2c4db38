-- ===== src/Usb.antt =====
-- The USB side of src/usb_dfu.c: registers, packet memory, descriptors, endpoint 0.
pub mod Regs
pub mod Pma
pub mod Descriptors
pub mod Lookup
pub mod Ep0
pub mod Init
pub mod Sim
mod Tests
