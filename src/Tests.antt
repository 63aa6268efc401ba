-- ===== src/Tests.antt =====
-- Small memories and runs, on which the theorems of the other modules are applied.
pub mod Lists
pub mod Zones
pub mod Counters
pub mod Tables
pub mod Removals
pub mod Retirement
pub mod Doubling
pub mod Failures
pub mod Contents
pub mod Readers
mod Rings
mod Withdrawals
mod Lives
