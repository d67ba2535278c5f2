-- ===== src/Zephyr.antt =====
-- The outside world of the firmware: the calls that it makes of Zephyr and the programs over them.
pub mod Calls
pub mod Prog
pub mod Holds
pub mod Avoids
pub mod Partial
pub mod Usage
pub mod Documented
pub mod Sample
