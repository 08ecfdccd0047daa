-- ===== src/Controllers.antt =====
-- The controllers with a protocol of their own: their reports become the console's pad data.
mod Tests
pub mod PadData
pub mod Nintendo
pub mod Logitech
pub mod Mamba
pub mod Ds3
pub mod Ds4
