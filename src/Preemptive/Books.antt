-- ===== src/Preemptive/Books.antt =====
-- src/resource/preemptive.rs: the holders of a pool in use against its units, requests and guards.
pub mod Holders
pub mod Units
pub mod Steps
pub mod Drops
pub mod Runs
pub mod Totals
