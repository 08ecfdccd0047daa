-- ===== src/Bt.antt =====
-- The Bluetooth host: core/src/bt.
mod Tests
pub mod LinkPolicy
pub mod HandleEpoch
pub mod EvStream
pub mod HciRx
pub mod Generic
pub mod Crc32
pub mod Host
