-- ===== src/Ble.antt =====
-- src/ble_rc.c, the BLE remote control: its shared variables, advertising and connection, the
-- keys that it sends and the thread that checks a television.
pub mod State
pub mod Adv
pub mod AdvData
pub mod Radio
pub mod Interleave
pub mod Threads
pub mod Mirror
pub mod Permitted
pub mod Lost
pub mod Sized
pub mod Keys
pub mod Hid
pub mod Address
pub mod Check
mod Examples
