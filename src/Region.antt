-- ===== src/Region.antt =====
-- rts/motoko-rts/src/region.rs: regions of stable memory, made of blocks of 128 pages.
pub mod Meta
pub mod Grow
pub mod Owns
pub mod Recover
pub mod Access
pub mod Migrate
mod Runs
mod Starts
