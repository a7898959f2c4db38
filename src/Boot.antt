-- ===== src/Boot.antt =====
-- src/main.c: the application's check, the entry decision, and the DFU loop.
pub mod App
pub mod Entry
pub mod Clock
pub mod Loop
pub mod Manifest
pub mod Startup
pub mod Update
pub mod Main
mod Tests
