-- ===== src/Driver/Ingest.antt =====
-- The bulk ingest of crates/adbc-monetdb/src/driver.rs: where compressed columns are kept, how memory
-- is reserved, and which destination column each column of a stream goes to.
pub mod Arena
mod Slabs
mod Kept
pub mod Reservations
mod Counted
pub mod Append
mod Aligned
mod Targets
mod Tests
