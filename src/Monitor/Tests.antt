-- ===== src/Monitor/Tests.antt =====
-- Small inputs: tests of the monitoring modules, and the theorems at inputs where their hypotheses hold.
mod Status
mod Dedup
mod Jobs
mod Storages
