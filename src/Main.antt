-- ===== src/Main.antt =====
-- src/main.c: the main thread, its events and its poll loop.
pub mod Message
pub mod Queue
pub mod Handle
pub mod Poll
pub mod Threads
pub mod Duty
pub mod Woken
pub mod Firmware
mod Plain
mod Apart
pub mod Drain
pub mod Served
pub mod Requested
pub mod Starved
pub mod Station
mod Examples
