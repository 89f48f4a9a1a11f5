-- ===== src/Network.antt =====
-- The tasks of an I/O thread in src/network.c.
pub mod Defs
pub mod Account
pub mod Live
pub mod Held
pub mod Rounds
pub mod Broadcast
pub mod Everyone
pub mod Tests
