-- ===== src/Core.antt =====
-- The resident core outside the controllers: one instance, and its releases.
mod Tests
pub mod Singleton
pub mod Ini
