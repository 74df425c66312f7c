-- ===== src/Settings.antt =====
-- What the application keeps in the table `app_settings`.
pub mod Table
pub mod Crypto
pub mod Restore
pub mod Perf
mod Tests
