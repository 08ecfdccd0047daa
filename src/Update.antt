-- ===== src/Update.antt =====
-- The releases that the updater takes.
mod Tests
pub mod Policy
