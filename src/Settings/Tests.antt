-- ===== src/Settings/Tests.antt =====
-- Small inputs: the settings at tables where the hypotheses of their theorems hold.
mod Saved
mod Perf
