-- ===== src/Restore.antt =====
-- The automated restore tests: planning, the runs table, the worker and the queue.
pub mod Types
pub mod Pack
pub mod Alloc
pub mod Addresses
pub mod Match
pub mod Probe
pub mod Runs
pub mod Effect
pub mod Worker
pub mod Target
pub mod Reaper
pub mod Locations
pub mod Names
pub mod Planner
pub mod Drain
pub mod Recover
pub mod Watchdog
pub mod IoRates
pub mod Destroy
pub mod Guests
pub mod TaskError
pub mod Poll
mod Tests
