-- ===== src/Flash.antt =====
-- src/flash_if.c and include/flash_if.h: the flash geometry, the controller's registers, erasing
-- and programming.
pub mod Region
pub mod Interface
pub mod Port
pub mod Ops
pub mod Wait
pub mod Options
pub mod OptionLog
pub mod Controller
pub mod Frame
pub mod Confined
pub mod Working
pub mod Holding
pub mod Settled
pub mod Unprotected
pub mod Erase
pub mod Program
pub mod Unaligned
pub mod OptionBytes
pub mod OptionSim
pub mod Sim
mod Tests
mod OptionTests
