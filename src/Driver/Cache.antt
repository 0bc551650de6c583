-- ===== src/Driver/Cache.antt =====
-- `PreparedCache` of crates/adbc-monetdb/src/driver.rs.
pub mod Map
pub mod State
pub mod Trim
pub mod Newest
pub mod Invariant
pub mod Reachable
pub mod Stored
pub mod Threshold
mod Tests
