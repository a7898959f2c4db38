-- ===== src/Dfu.antt =====
-- The DFU half of src/usb_dfu.c.
pub mod State
pub mod Status
pub mod Requests
pub mod Dispatch
pub mod Preservation
pub mod Address
pub mod Layout
pub mod Edges
pub mod Invariant
pub mod Session
pub mod Confined
pub mod Download
pub mod Transfer
pub mod Commands
pub mod Stale
pub mod Partial
pub mod Upload
pub mod Replies
pub mod Image
pub mod RoundTrip
pub mod Bus
pub mod Host
pub mod TestData
mod Tests
mod ImageTests
mod HostTests
mod ReplyTests
