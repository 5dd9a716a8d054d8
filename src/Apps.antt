-- ===== src/Apps.antt =====
-- The programs of examples that use the library: what their callbacks do with the events, the generators of
-- events, and what each program acquires and gives back.
pub mod Bits
pub mod Mask
pub mod Linear
pub mod Progress
pub mod Mouse
pub mod Motion
pub mod Packets
pub mod Latency
pub mod Average
pub mod Game
pub mod Quit
pub mod Generator
pub mod Uinput
pub mod Sample
pub mod Demo
pub mod Handlers
pub mod Detect
pub mod Window
pub mod Programs
mod Tests
