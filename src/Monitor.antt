-- ===== src/Monitor.antt =====
-- The monitoring of backups: how a row, a sync and a running backup are judged.
pub mod Status
pub mod Dedup
pub mod Jobs
pub mod Storages
mod Tests
