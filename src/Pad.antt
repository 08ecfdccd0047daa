-- ===== src/Pad.antt =====
-- The console's pads: which virtual pad is ours, the pad an app owns, and the DualShock 4 routes.
mod Tests
pub mod Identify
pub mod Ds4Policy
pub mod AppPad
pub mod VdaIdentity
pub mod Rawmap
