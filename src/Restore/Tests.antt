-- ===== src/Restore/Tests.antt =====
-- Small inputs: tests of the restore modules, and the theorems at inputs where their hypotheses hold.
mod Planning
mod Table
mod Worker
mod Target
mod Reaper
mod IoRates
mod Destroy
mod Guests
mod Addresses
mod Queue
mod Poll
